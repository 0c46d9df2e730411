-- ===== src/Config/Env/Items.antt =====
-- The items of a list in the environment (`envList` of src/infrastructure/config/env.util.ts).
use nestjs_ddd.Prelude.{
  ◌≡◌, refl, ◌∙◌, ap, Bool, true, not, some, List, [], ◌∷◌, ◌++◌, map, keep, all, All, ◌==◌, arith,
  Bool-cases, inl, inr,
}
use nestjs_ddd.Shared.Trace.{drop_spaces_after}
use nestjs_ddd.Shared.Text.{Text, trim}
use nestjs_ddd.Shared.Text.Trimmed.{
  trim-trim, all-trim, starts_solid, trim_parts, trim_solid, append_solid,
}
use nestjs_ddd.Config.Env.{given, env_string, split_commas, is_filled, items_of, env_list}

abbrev pub has_no_comma : Text → Bool
has_no_comma s = all (λ c. not (c == b',')) s

-- A list as it is written in the environment.
unfoldable pub joined : List Text → Text
joined [] = []
joined (x ∷ []) = x
joined (x ∷ y ∷ xs) = x ++ (b',' ∷ joined (y ∷ xs))

-- An item of a list: it is not empty, has no comma, and no white space around it.
abbrev pub IsItem : Text → Type 0
IsItem x = (is_filled x ≡ true) × (has_no_comma x ≡ true) × (trim x ≡ x)

split_one : (x : Text) → has_no_comma x ≡ true → split_commas x ≡ (x, [])
unfolding split_commas
split_one [] h = refl
split_one (c ∷ x) h = ground (arith, split_one x)

split_more :
    (x rest : Text)
    → has_no_comma x ≡ true
    → split_commas (x ++ (b',' ∷ rest)) ≡ (x, (split_commas rest).0 ∷ (split_commas rest).1)
unfolding split_commas
split_more [] rest h = refl
split_more (c ∷ x) rest h = ground (arith, split_more x rest)

items_one : (x : Text) → IsItem x → items_of x ≡ x ∷ []
unfolding items_of
items_one x (filled, plain, trimmed) = rw (split_one x plain) (rw trimmed (ground arith))

items_more : (x rest : Text) → IsItem x → items_of (x ++ (b',' ∷ rest)) ≡ x ∷ items_of rest
unfolding items_of
items_more x rest (filled, plain, trimmed) =
    rw (split_more x rest plain) (rw trimmed (ground arith))

items_joined :
    (x : Text) (xs : List Text) → All IsItem (x ∷ xs) → items_of (joined (x ∷ xs)) ≡ x ∷ xs
unfolding joined
items_joined x [] (item, h) = items_one x item
items_joined x (y ∷ xs) (item, h) =
    items_more x (joined (y ∷ xs)) item
    ∙ ap (λ (items : List Text). x ∷ items) (items_joined y xs h)

-- Such a list begins and ends without white space.
joined_solid :
    (x : Text) (xs : List Text)
    → All IsItem (x ∷ xs)
    → (starts_solid (joined (x ∷ xs)) ≡ true)
      × (is_filled (joined (x ∷ xs)) ≡ true)
      × (drop_spaces_after (joined (x ∷ xs)) ≡ joined (x ∷ xs))
unfolding joined
joined_solid x [] ((filled, plain, trimmed), h) =
    let (solid, ends) = trim_parts x trimmed in (solid, filled, ends)
joined_solid x (y ∷ xs) ((filled, plain, trimmed), h) =
    let (more, full, ends) = joined_solid y xs h in
    let comma = append_solid (b',' ∷ []) (joined (y ∷ xs)) refl refl full ends in
    append_solid x (b',' ∷ joined (y ∷ xs)) filled (trim_parts x trimmed).0 comma.1 comma.2

given_filled : (s : Text) → is_filled s ≡ true → given s ≡ some s
given_filled [] h = absurd (ground arith)
given_filled (c ∷ s) h = refl

-- A list that is not empty, of items that are not empty and have neither a comma nor blanks around
-- them, is read back as it was when it is written with commas between the items.
pub env_list-joined :
    (x : Text) (xs : List Text)
    → All IsItem (x ∷ xs)
    → env_list (some (joined (x ∷ xs))) ≡ some (x ∷ xs)
unfolding env_list env_string
env_list-joined x xs h =
    let (solid, full, ends) = joined_solid x xs h in
    rw (trim_solid (joined (x ∷ xs)) solid ends) (
      rw (given_filled (joined (x ∷ xs)) full)
        (ap (λ (l : List Text). some l) (items_joined x xs h)))

split_commas-has_no_comma :
    (s : Text)
    → (has_no_comma (split_commas s).0 ≡ true)
      × All (λ part. has_no_comma part ≡ true) (split_commas s).1
unfolding split_commas
split_commas-has_no_comma [] = (refl, tt)
split_commas-has_no_comma (c ∷ s) =
    let (first, others) = split_commas-has_no_comma s in
    elim (Bool-cases (c == b',')) [
      | inl comma ↦ rw comma (refl, (first, others))
      | inr other ↦ rw other (ground arith, others)
    ]

keep-IsItem :
    (parts : List Text)
    → All (λ part. has_no_comma part ≡ true) parts
    → All IsItem (keep is_filled (map trim parts))
keep-IsItem [] h = tt
keep-IsItem (part ∷ parts) (plain, h) = elim (Bool-cases (is_filled (trim part))) [
  | inl filled ↦
      rw filled
        ((filled, all-trim (λ c. not (c == b',')) part plain, trim-trim part), keep-IsItem parts h)
  | inr blank ↦ rw blank (keep-IsItem parts h)
]
