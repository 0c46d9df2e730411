-- ===== src/Idempotency/Interceptor/Guarded.antt =====
-- When the interceptor (src/interface/http/interceptors/idempotency.interceptor.ts) lets a handler
-- run, and what a failed run leaves.
use nestjs_ddd.Prelude.{
  ℕ, ◌≡◌, ◌↔◌, ◌⊎◌, inl, inr, true, none, some, String, lookup, erase, lookup-erase_self, arith,
  Option-cases,
}
use nestjs_ddd.Shared.Values.{Value, is_err_result}
use nestjs_ddd.Shared.Correlation.{is_safe_correlation_id}
use nestjs_ddd.Idempotency.Port.{claimed, IdempotencyStore}
use nestjs_ddd.Idempotency.Memory.{IdempotencyConfig, Records, claim, release, memory_store}
use nestjs_ddd.Idempotency.Interceptor.{
  single, first_value, returned, threw, plain_reply, InterceptedRequest, decide, intercept,
}

module _ (store : IdempotencyStore Value) where
  open store use {State}

  -- The handler of a marked route runs exactly when the request's first key is safe and the store
  -- grants the claim; it then runs once.
  pub intercept_runs_iff :
      (r : InterceptedRequest) (s : State)
      → r.marked ≡ true
      → ((intercept store r s).runs ≡ 1) ↔ (
          (key : String) × (first_value r.header ≡ some key)
          × (is_safe_correlation_id (some key) ≡ true)
          × ((store.claim r.now key r.fingerprint s).0 ≡ claimed))
  unfolding intercept decide
  intercept_runs_iff r s m = elim (Option-cases (first_value r.header)) [
    | inl headless ↦ (λ once. ground arith, λ (k, headed, safe, granted). ground arith)
    | inr (key, headed) ↦ (
      λ once. (key, headed, ground arith, ground arith),
      λ (k, headed', safe, granted). ground arith,
    )
  ]

module _ (config : IdempotencyConfig) where
  pub claim_absent :
      (key f : String) (now : ℕ) (m : Records Value)
      → lookup key m ≡ none
      → (claim config now key f m).0 ≡ claimed
  unfolding claim
  claim_absent key f now m e = ground arith

  failed_run_erases :
      (key : String) (r : InterceptedRequest) (s : Records Value)
      → r.marked ≡ true
      → r.header ≡ single key
      → is_safe_correlation_id (some key) ≡ true
      → (claim config r.now key r.fingerprint s).0 ≡ claimed
      → ((r.handler ≡ threw)
          ⊎ ((status : ℕ) × (body : Value) × (r.handler ≡ returned status body)
              × (is_err_result body ≡ true)))
      → ((intercept (memory_store config) r s).reply ≡ plain_reply r.handler)
        × ((intercept (memory_store config) r s).store
            ≡ erase key (claim config r.now key r.fingerprint s).1)
  unfolding intercept decide release
  failed_run_erases key r s m h safe granted bad = ground arith

  -- A run that throws, or that returns an error result, gives its key up: the next claim of the
  -- key is granted, whatever its fingerprint and time.
  pub failed_run_releases :
      (key f : String) (now : ℕ) (r : InterceptedRequest) (s : Records Value)
      → r.marked ≡ true
      → r.header ≡ single key
      → is_safe_correlation_id (some key) ≡ true
      → (claim config r.now key r.fingerprint s).0 ≡ claimed
      → ((r.handler ≡ threw)
          ⊎ ((status : ℕ) × (body : Value) × (r.handler ≡ returned status body)
              × (is_err_result body ≡ true)))
      → ((intercept (memory_store config) r s).reply ≡ plain_reply r.handler)
        × ((claim config now key f (intercept (memory_store config) r s).store).0 ≡ claimed)
  failed_run_releases key f now r s m h safe granted bad =
      let (reply, erased) = failed_run_erases key r s m h safe granted bad in
      (reply, claim_absent key f now _ (rw erased (lookup-erase_self key _)))
