-- ===== src/Shared/Outcome.antt =====
-- src/shared/result.ts: `Result` and its combinators.
use nestjs_ddd.Prelude.{
  ◌≡◌, refl, Bool, true, false, List, [], ◌∷◌, ◌++◌, map, ap, sym, ◌∙◌, append-nil, append_assoc,
}

pub data Result (T E : Type 0) : Type 0 where
  ok : T → Result T E
  err : E → Result T E

module _ {T E : Type 0} where
  unfoldable pub map_ok : {U : Type 0} → (T → U) → Result T E → Result U E
  map_ok f (ok v) = ok (f v)
  map_ok f (err e) = err e

  unfoldable pub map_err : {F : Type 0} → (E → F) → Result T E → Result T F
  map_err f (ok v) = ok v
  map_err f (err e) = err (f e)

  -- The loop of `combine`, with the values pushed so far.
  unfoldable pub combine_loop : List T → List (Result T E) → Result (List T) E
  combine_loop values [] = ok values
  combine_loop values (ok v ∷ rs) = combine_loop (values ++ v ∷ []) rs
  combine_loop values (err e ∷ rs) = err e

  unfoldable pub combine : List (Result T E) → Result (List T) E
  unfolding combine_loop
  combine rs = combine_loop [] rs

  unfoldable pub is_ok : Result T E → Bool
  is_ok (ok v) = true
  is_ok (err e) = false

  combine_loop-ok : (values vs : List T) → combine_loop values (map ok vs) ≡ ok (values ++ vs)
  unfolding combine_loop
  combine_loop-ok values [] = ap ok (sym (append-nil values))
  combine_loop-ok values (v ∷ vs) =
      combine_loop-ok (values ++ v ∷ []) vs ∙ ap ok (append_assoc values (v ∷ []) vs)

  combine_loop-err :
      (values vs : List T) (e : E) (rs : List (Result T E))
      → combine_loop values (map ok vs ++ err e ∷ rs) ≡ err e
  unfolding combine_loop
  combine_loop-err values [] e rs = refl
  combine_loop-err values (v ∷ vs) e rs = combine_loop-err (values ++ v ∷ []) vs e rs

  -- Results that are all good combine into the list of their values, in order; otherwise the first
  -- error is the outcome, whatever follows it.
  pub combine_lem :
      (vs : List T) (e : E) (rs : List (Result T E))
      → (combine (map ok vs) ≡ ok vs) × (combine (map ok vs ++ err e ∷ rs) ≡ err e)
  unfolding combine
  combine_lem vs e rs = (combine_loop-ok [] vs, combine_loop-err [] vs e rs)
