-- ===== src/Shared/Text/Trimmed.antt =====
-- What is left of a text by `trim`.
use nestjs_ddd.Prelude.{
  ℕ, ◌≡◌, refl, ap, Bool, true, false, not, ◌&&◌, [], ◌∷◌, ◌++◌, subst, ltb, all, length, ◌==◌,
  arith, Bool-cases, inl, inr,
}
use nestjs_ddd.Shared.Trace.{is_space, skip_spaces, drop_spaces_after}
use nestjs_ddd.Shared.Text.{Text, trim}

-- The first character is not white space.
abbrev pub starts_solid : Text → Bool
starts_solid [] = true
starts_solid (c ∷ cs) = not (is_space c)

skip_spaces-solid : (s : Text) → starts_solid (skip_spaces s) ≡ true
unfolding skip_spaces
skip_spaces-solid [] = refl
skip_spaces-solid (c ∷ cs) = ground (arith, skip_spaces-solid cs)

skip_spaces_fixed : (s : Text) → starts_solid s ≡ true → skip_spaces s ≡ s
unfolding skip_spaces
skip_spaces_fixed [] h = refl
skip_spaces_fixed (c ∷ cs) h = ground arith

drop_spaces_twice : (s : Text) → drop_spaces_after (drop_spaces_after s) ≡ drop_spaces_after s
unfolding drop_spaces_after
drop_spaces_twice [] = refl
drop_spaces_twice (c ∷ cs) = elim (Bool-cases (is_space c && length (drop_spaces_after cs) == 0)) [
  | inl gone ↦ rw gone refl
  | inr kept ↦ rw kept (rw (drop_spaces_twice cs) (rw kept refl))
]

drop_spaces-solid : (s : Text) → starts_solid s ≡ true → starts_solid (drop_spaces_after s) ≡ true
unfolding drop_spaces_after
drop_spaces-solid [] h = refl
drop_spaces-solid (c ∷ cs) h = ground arith

-- A text that was trimmed is trimmed to itself.
pub trim-trim : (s : Text) → trim (trim s) ≡ trim s
unfolding trim
trim-trim s =
    rw
      (skip_spaces_fixed (drop_spaces_after (skip_spaces s))
        (drop_spaces-solid (skip_spaces s) (skip_spaces-solid s)))
      (drop_spaces_twice (skip_spaces s))

-- What holds for all characters of a text holds for those that are left.
all-skip_spaces : (p : ℕ → Bool) (s : Text) → all p s ≡ true → all p (skip_spaces s) ≡ true
unfolding skip_spaces
all-skip_spaces p [] h = refl
all-skip_spaces p (c ∷ cs) h = ground (arith, all-skip_spaces p cs)

all-drop_spaces : (p : ℕ → Bool) (s : Text) → all p s ≡ true → all p (drop_spaces_after s) ≡ true
unfolding drop_spaces_after
all-drop_spaces p [] h = refl
all-drop_spaces p (c ∷ cs) h = ground (arith, all-drop_spaces p cs)

pub all-trim : (p : ℕ → Bool) (s : Text) → all p s ≡ true → all p (trim s) ≡ true
unfolding trim
all-trim p s h = all-drop_spaces p (skip_spaces s) (all-skip_spaces p s h)

pub trim_parts : (s : Text) → trim s ≡ s → (starts_solid s ≡ true) × (drop_spaces_after s ≡ s)
unfolding trim
trim_parts s e = (
  subst (λ t. starts_solid t ≡ true) e (drop_spaces-solid (skip_spaces s) (skip_spaces-solid s)),
  subst (λ t. drop_spaces_after t ≡ t) e (drop_spaces_twice (skip_spaces s)),
)

drop_spaces_cons :
    (c : ℕ) (cs : Text)
    → ltb 0 (length cs) ≡ true
    → drop_spaces_after cs ≡ cs
    → drop_spaces_after (c ∷ cs) ≡ c ∷ cs
unfolding drop_spaces_after
drop_spaces_cons c cs filled e =
    let full : length (drop_spaces_after cs) == 0 ≡ false = rw e (ground arith) in
    elim (Bool-cases (is_space c)) [
      | inl space ↦ rw (space, full) (ap (λ (t : Text). c ∷ t) e)
      | inr solid ↦ rw solid (ap (λ (t : Text). c ∷ t) e)
    ]

filled-append : (xs ys : Text) → ltb 0 (length ys) ≡ true → ltb 0 (length (xs ++ ys)) ≡ true
filled-append [] ys filled = filled
filled-append (x ∷ xs) ys filled = ground arith

drop_spaces-append :
    (xs ys : Text)
    → ltb 0 (length ys) ≡ true
    → drop_spaces_after ys ≡ ys
    → drop_spaces_after (xs ++ ys) ≡ xs ++ ys
drop_spaces-append [] ys filled e = e
drop_spaces-append (x ∷ xs) ys filled e =
    drop_spaces_cons x (xs ++ ys) (filled-append xs ys filled) (drop_spaces-append xs ys filled e)

-- A text that begins and ends without white space is its own trimmed text.
pub trim_solid : (s : Text) → starts_solid s ≡ true → drop_spaces_after s ≡ s → trim s ≡ s
unfolding trim
trim_solid s h e = rw (skip_spaces_fixed s h) e

pub append_solid :
    (xs ys : Text)
    → ltb 0 (length xs) ≡ true
    → starts_solid xs ≡ true
    → ltb 0 (length ys) ≡ true
    → drop_spaces_after ys ≡ ys
    → (starts_solid (xs ++ ys) ≡ true)
      × (ltb 0 (length (xs ++ ys)) ≡ true)
      × (drop_spaces_after (xs ++ ys) ≡ xs ++ ys)
append_solid [] ys full h filled e = absurd (ground arith)
append_solid (x ∷ xs) ys full h filled e =
    (h, filled-append (x ∷ xs) ys filled, drop_spaces-append (x ∷ xs) ys filled e)
