-- ===== src/Errors/Origin/Own.antt =====
-- Which texts `resolveErrorOrigin` (src/common/utils/error-origin.util.ts) can name.
use nestjs_ddd.Prelude.{
  ℕ, ◌≡◌, refl, Bool, true, not, Option, none, some, List, [], ◌∷◌, ◌++◌, any, all, ◌==◌, arith,
  Option-cases, inl, inr,
}
use nestjs_ddd.Shared.Correlation.{codes}
use nestjs_ddd.Legacy.Prefix.{same_text, starts_with}
use nestjs_ddd.Shared.Text.{Text}
use nestjs_ddd.Errors.Origin.Frame.{
  ParsedFrame, tail, own_path_markers, relative_from, from_first, without_column, strip_column,
  shown, own_frame, first_own_frame, split_lines, frame_from_stack, parse_frame,
}
use nestjs_ddd.Errors.Origin.{Ref, Store, resolve_error_origin, other_frame}
use nestjs_ddd.Errors.Origin.Chain.{
  chain, frame_at, first_frame, frames_of, resolve_error_origin-frames_of,
}

-- A path inside the project: it begins with `src/`, `dist/` or `test/`.
abbrev pub in_project : Text → Bool
in_project f = any (λ marker. starts_with (tail marker) f) own_path_markers

abbrev pub in_project_if_any : Option Text → Bool
in_project_if_any none = true
in_project_if_any (some f) = in_project f

-- No `:` in it.
abbrev is_plain : Text → Bool
is_plain p = all (λ c. not (c == b':')) p

without_column-starts_with :
    (p s r : Text)
    → is_plain p ≡ true
    → starts_with p s ≡ true
    → without_column s ≡ some r
    → starts_with p r ≡ true
unfolding starts_with without_column
without_column-starts_with [] s r plain h e = refl
without_column-starts_with (c ∷ p) [] r plain h e = cc
without_column-starts_with (c ∷ p) (d ∷ s) r plain h e = elim (Option-cases (without_column s)) [
  | inl nothing ↦ ground arith
  | inr (t, found) ↦ ground (arith, without_column-starts_with p s t)
]

strip_column-starts_with :
    (p s : Text)
    → is_plain p ≡ true
    → starts_with p s ≡ true
    → starts_with p (strip_column s) ≡ true
unfolding strip_column
strip_column-starts_with p s plain h = elim (Option-cases (without_column s)) [
  | inl nothing ↦ ground arith
  | inr (t, found) ↦ ground (arith, without_column-starts_with p s t plain h found)
]

starts_with-append : (p s t : Text) → starts_with p s ≡ true → starts_with p (s ++ t) ≡ true
unfolding starts_with
starts_with-append [] s t h = refl
starts_with-append (c ∷ p) [] t h = cc
starts_with-append (c ∷ p) (d ∷ s) t h = ground (arith, starts_with-append p s t)

shown-starts_with :
    (fn : Option Text) (p s : Text)
    → is_plain p ≡ true
    → starts_with p s ≡ true
    → starts_with p (shown fn s) ≡ true
unfolding shown
shown-starts_with none p s plain h = strip_column-starts_with p s plain h
shown-starts_with (some fn) p s plain h =
    starts_with-append p (strip_column s) _ (strip_column-starts_with p s plain h)

shown-in_project :
    (fn : Option Text) (s : Text) → in_project s ≡ true → in_project (shown fn s) ≡ true
shown-in_project fn s h = ground (
  arith,
  shown-starts_with fn (codes "src/") s refl,
  shown-starts_with fn (codes "dist/") s refl,
  shown-starts_with fn (codes "test/") s refl,
)

from_first-starts_with :
    (needle s r : Text) → from_first needle s ≡ some r → starts_with needle r ≡ true
unfolding from_first
from_first-starts_with needle [] r e = ground arith
from_first-starts_with needle (c ∷ s) r e = ground (arith, from_first-starts_with needle s r)

starts_with-tail :
    (needle s : Text) → starts_with needle s ≡ true → starts_with (tail needle) (tail s) ≡ true
unfolding starts_with
starts_with-tail [] s h = refl
starts_with-tail (c ∷ p) [] h = cc
starts_with-tail (c ∷ p) (d ∷ s) h = ground arith

relative_from-starts_with :
    (markers : List Text) (location r : Text)
    → relative_from markers location ≡ some r
    → any (λ marker. starts_with (tail marker) r) markers ≡ true
unfolding relative_from
relative_from-starts_with [] location r e = cc
relative_from-starts_with (marker ∷ markers) location r e =
    elim (Option-cases (from_first marker location)) [
      | inl nothing ↦ ground (arith, relative_from-starts_with markers location r)
      | inr (f, found) ↦
          ground (arith, from_first-starts_with marker location f found, starts_with-tail marker f)
    ]

own_frame-in_project : (frame : Option ParsedFrame) → in_project_if_any (own_frame frame) ≡ true
unfolding own_frame
own_frame-in_project none = refl
own_frame-in_project (some frame) =
    elim (Option-cases (relative_from own_path_markers frame.location)) [
      | inl nothing ↦ ground arith
      | inr ([], found) ↦ ground arith
      | inr (c ∷ cs, found) ↦ ground (
        arith,
        shown-in_project frame.fn (c ∷ cs)
            (relative_from-starts_with own_path_markers frame.location (c ∷ cs) found),
      )
    ]

first_own_frame-in_project : (lines : List Text) → in_project_if_any (first_own_frame lines) ≡ true
unfolding first_own_frame
first_own_frame-in_project [] = refl
first_own_frame-in_project (line ∷ lines) =
    ground (arith, own_frame-in_project (parse_frame line), first_own_frame-in_project lines)

frame_from_stack-in_project :
    (stack : Option Text) → in_project_if_any (frame_from_stack stack) ≡ true
unfolding frame_from_stack
frame_from_stack-in_project none = refl
frame_from_stack-in_project (some stack) =
    first_own_frame-in_project ((split_lines stack).0 ∷ (split_lines stack).1)

abbrev differs_from : Text → Option Text → Bool
differs_from origin none = true
differs_from origin (some f) = not (same_text f origin)

-- The two frames are not the same.
abbrev pub differ : Option Text → Option Text → Bool
differ none f = true
differ (some origin) f = differs_from origin f

module _ (store : Store) where
  first_frame-in_project :
      (origin : Text) (errors : List ℕ)
      → (in_project_if_any (first_frame store (other_frame origin) errors) ≡ true)
        × (differs_from origin (first_frame store (other_frame origin) errors) ≡ true)
  unfolding first_frame
  first_frame-in_project origin [] = (refl, refl)
  first_frame-in_project origin (a ∷ others) =
      let ours = frame_from_stack-in_project (store a).stack in
      let ih = first_frame-in_project origin others in
      elim (Option-cases (frame_at store a)) [
        | inl nothing ↦ (ground arith, ground arith)
        | inr (f, found) ↦ (ground arith, ground arith)
      ]

  frames_of-in_project :
      (errors : List ℕ)
      → (in_project_if_any (frames_of store errors).origin ≡ true)
        × (in_project_if_any (frames_of store errors).cause_origin ≡ true)
        × (differ (frames_of store errors).origin (frames_of store errors).cause_origin ≡ true)
  unfolding frames_of
  frames_of-in_project [] = (refl, refl, refl)
  frames_of-in_project (a ∷ others) =
      let ours = frame_from_stack-in_project (store a).stack in
      let ih = frames_of-in_project others in
      elim (Option-cases (frame_at store a)) [
        | inl nothing ↦ (ground arith, ground arith, ground arith)
        | inr (f, found) ↦
            let next = first_frame-in_project f others in (ground arith, ground arith, ground arith)
      ]

  -- Whatever the stacks hold, a frame that is named is a path inside the project: it begins with
  -- `src/`, `dist/` or `test/`. The frame of a cause is another one than the origin.
  pub resolve_error_origin-in_project :
      (error : Ref)
      → (in_project_if_any (resolve_error_origin store error).origin ≡ true)
        × (in_project_if_any (resolve_error_origin store error).cause_origin ≡ true)
        × (differ
              (resolve_error_origin store error).origin
              (resolve_error_origin store error).cause_origin
            ≡ true)
  resolve_error_origin-in_project error =
      let errors = chain store 10 error [] in
      rw (resolve_error_origin-frames_of store error errors refl).0 (frames_of-in_project errors)
