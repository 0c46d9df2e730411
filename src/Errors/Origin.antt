-- ===== src/Errors/Origin.antt =====
-- src/common/utils/error-origin.util.ts. Objects have an identity, which is an address of the store;
-- `cause` may lead back to an object that was seen.
pub mod Frame
pub mod Own
pub mod Chain
mod Tests
use nestjs_ddd.Prelude.{
  ℕ, zero, suc, Bool, true, false, not, ◌&&◌, ◌||◌, Option, none, some, List, [], ◌∷◌, any, ◌==◌,
  if◌then◌else◌,
}
use nestjs_ddd.Legacy.Prefix.{same_text}
use nestjs_ddd.Shared.Text.{Text}
use nestjs_ddd.Errors.Origin.Frame.{frame_from_stack}

-- A value: `object` is what `isTraversable` accepts.
pub data Ref : Type 0 where
  not_object : Ref
  object_at : ℕ → Ref

-- What `stackOf` and `causeOf` read of an object.
pub record Thrown : Type 0 where
  pub stack : Option Text
  pub cause : Ref

abbrev pub Store : Type 0
Store = ℕ → Thrown

-- `seen.has(object)`
abbrev pub was_seen : ℕ → List ℕ → Bool
was_seen a seen = any (λ b. b == a) seen

abbrev pub max_cause_depth : ℕ
max_cause_depth = 10

pub record ErrorOrigin : Type 0 where
  pub origin : Option Text
  pub cause_origin : Option Text

-- How a loop ends: at the frame that it was looking for, with the state that it leaves.
pub record Search : Type 0 where
  pub frame : Option Text
  pub current : Ref
  pub seen : List ℕ
  pub left : ℕ

-- A frame that is not `origin`.
abbrev pub other_frame : Text → Option Text → Option Text
other_frame origin none = none
other_frame origin (some frame) = if same_text frame origin then none else some frame

module _ (store : Store) where
  -- A `while` loop over the causes, with `left = MAX_CAUSE_DEPTH - depth`. `wanted` is the test that the
  -- loop makes on a frame; the first loop steps on to the cause of the error that it stops at.
  unfoldable pub search : (wanted : Option Text → Option Text) → ℕ → Ref → List ℕ → Search
  search wanted zero current seen = record {
    frame = none;
    current = current;
    seen = seen;
    left = 0;
  }
  search wanted (suc left) not_object seen = record {
    frame = none;
    current = not_object;
    seen = seen;
    left = suc left;
  }
  search wanted (suc left) (object_at a) seen =
      let cause = (store a).cause in
      let rest = search wanted left cause (a ∷ seen) in
      if was_seen a seen
      then record { frame = none; current = object_at a; seen = seen; left = suc left }
      else elim (wanted (frame_from_stack (store a).stack)) [
        | some f ↦ record { frame = some f; current = cause; seen = a ∷ seen; left = left }
        | none ↦ rest
      ]

  -- What follows the first loop.
  unfoldable pub resolve_cause : Search → ErrorOrigin
  unfolding search
  resolve_cause found = elim found.frame [
    | none ↦ record { origin = none; cause_origin = none }
    | some origin ↦ record {
      origin = some origin;
      cause_origin = (search (other_frame origin) found.left found.current found.seen).frame;
    }
  ]

  -- `resolveErrorOrigin`
  unfoldable pub resolve_error_origin : Ref → ErrorOrigin
  unfolding resolve_cause
  resolve_error_origin error = resolve_cause (search (λ f. f) max_cause_depth error [])
