-- ===== src/Errors/Origin/Chain.antt =====
-- What `resolveErrorOrigin` (src/common/utils/error-origin.util.ts) finds in a chain of causes, cyclic or not.
use nestjs_ddd.Prelude.{
  ℕ, zero, suc, ◌≤◌, ◌≡◌, refl, Bool, true, not, ◌&&◌, Option, none, some, List, [], ◌∷◌, ◌∙◌, ap,
  length, arith, Option-cases, inl, inr, if◌then◌else◌,
}
use nestjs_ddd.Shared.Text.{Text}
use nestjs_ddd.Errors.Origin.Frame.{frame_from_stack}
use nestjs_ddd.Errors.Origin.{
  Ref, not_object, object_at, Store, was_seen, max_cause_depth, ErrorOrigin, other_frame, search,
  resolve_cause, resolve_error_origin,
}

abbrev pub distinct : List ℕ → Bool
distinct [] = true
distinct (a ∷ others) = not (was_seen a others) && distinct others

module _ (store : Store) where
  -- The errors of a chain, outermost first: at most `left`, up to the first that was seen before.
  unfoldable pub chain : (left : ℕ) → Ref → (seen : List ℕ) → List ℕ
  chain zero error seen = []
  chain (suc left) not_object seen = []
  chain (suc left) (object_at a) seen =
      let rest = chain left (store a).cause (a ∷ seen) in if was_seen a seen then [] else a ∷ rest

  abbrev pub frame_at : ℕ → Option Text
  frame_at a = frame_from_stack (store a).stack

  -- The first frame of the errors that is wanted.
  unfoldable pub first_frame : (Option Text → Option Text) → List ℕ → Option Text
  first_frame wanted [] = none
  first_frame wanted (a ∷ others) =
      let rest = first_frame wanted others in
      elim (wanted (frame_at a)) [ some f ↦ some f | none ↦ rest ]

  -- The first frame of ours, and the first other one behind it.
  unfoldable pub frames_of : List ℕ → ErrorOrigin
  unfolding first_frame
  frames_of [] = record { origin = none; cause_origin = none }
  frames_of (a ∷ others) =
      let rest = frames_of others in
      elim (frame_at a) [
        | some f ↦ record { origin = some f; cause_origin = first_frame (other_frame f) others }
        | none ↦ rest
      ]

  search-first_frame :
      (wanted : Option Text → Option Text) (left : ℕ) (error : Ref) (seen : List ℕ)
      → (search store wanted left error seen).frame ≡ first_frame wanted (chain left error seen)
  unfolding search first_frame chain
  search-first_frame wanted zero error seen = refl
  search-first_frame wanted (suc left) not_object seen = refl
  search-first_frame wanted (suc left) (object_at a) seen =
      let ih = search-first_frame wanted left (store a).cause (a ∷ seen) in ground arith

  resolve_cause-frames_of :
      (left : ℕ) (error : Ref) (seen : List ℕ)
      → resolve_cause store (search store (λ f. f) left error seen)
        ≡ frames_of (chain left error seen)
  unfolding resolve_cause search frames_of chain
  resolve_cause-frames_of zero error seen = refl
  resolve_cause-frames_of (suc left) not_object seen = refl
  resolve_cause-frames_of (suc left) (object_at a) seen =
      let cause = (store a).cause in
      elim (Option-cases (frame_at a)) [
        | inl nothing ↦ ground (arith, resolve_cause-frames_of left cause (a ∷ seen))
        | inr (f, found) ↦ ground (arith, search-first_frame (other_frame f) left cause (a ∷ seen))
      ]

  -- No error stands twice in a chain, nor one of those seen.
  abbrev apart : List ℕ → List ℕ → Bool
  apart [] seen = true
  apart (a ∷ others) seen = not (was_seen a seen) && apart others seen

  apart_cons :
      (a : ℕ) (others seen : List ℕ)
      → apart others (a ∷ seen) ≡ not (was_seen a others) && apart others seen
  apart_cons a [] seen = refl
  apart_cons a (b ∷ others) seen = ground (arith, apart_cons a others seen)

  chain_bounds :
      (left : ℕ) (error : Ref) (seen : List ℕ)
      → (length (chain left error seen) ≤ left)
        × (distinct (chain left error seen) ≡ true)
        × (apart (chain left error seen) seen ≡ true)
  unfolding chain
  chain_bounds zero error seen = (omega arith, refl, refl)
  chain_bounds (suc left) not_object seen = (omega arith, refl, refl)
  chain_bounds (suc left) (object_at a) seen =
      let ih = chain_bounds left (store a).cause (a ∷ seen) in
      let c = apart_cons a (chain left (store a).cause (a ∷ seen)) seen in
      (ground arith, ground arith, ground arith)

  -- The origin is the frame of the outermost error of the chain that has one of ours, and the other
  -- is the first different frame behind it. The chain that is looked at ends, also where the
  -- causes lead in a circle: it has at most ten errors, each once.
  pub resolve_error_origin-frames_of :
      (error : Ref) (errors : List ℕ)
      → chain max_cause_depth error [] ≡ errors
      → (resolve_error_origin store error ≡ frames_of errors)
        × (length errors ≤ 10)
        × (distinct errors ≡ true)
  unfolding resolve_error_origin
  resolve_error_origin-frames_of error errors e =
      let bounds = chain_bounds max_cause_depth error [] in
      (
        resolve_cause-frames_of max_cause_depth error [] ∙ ap frames_of e,
        ground arith,
        ground arith,
      )
