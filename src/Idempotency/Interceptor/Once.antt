-- ===== src/Idempotency/Interceptor/Once.antt =====
-- The interceptor (src/interface/http/interceptors/idempotency.interceptor.ts) over the in-memory
-- store: one run of the handler, and the same answer to everybody.
use nestjs_ddd.Prelude.{
  ℕ, ◌+◌, ◌<◌, ◌≡◌, refl, ◌≢◌, inl, inr, true, false, some, String, List, [], ◌∷◌, map, lookup,
  lookup-insert_self, arith, eq_iff, All, Option-cases, ap, ◌∙◌,
}
use nestjs_ddd.Prelude.{or_else}
use nestjs_ddd.Idempotency.Interceptor.{port_body}
use nestjs_ddd.Shared.Values.{
  undefined, null, boolean, number, string, array, object, Value, is_err_result,
}
use nestjs_ddd.Shared.Correlation.{is_safe_correlation_id}
use nestjs_ddd.Idempotency.Port.{ClaimOutcome, claimed, mismatch, in_progress, replay}
use nestjs_ddd.Idempotency.Memory.{
  ClaimRecord, Records, IdempotencyConfig, completed, fresh_record, claim, complete, memory_store,
}
use nestjs_ddd.Idempotency.Memory.Laws.{
  claiming, completing, releasing, apply, apply-lookup, claim-lookup,
}
use nestjs_ddd.Idempotency.Interceptor.{
  single, first_value, HandlerRun, returned, threw, answered, InterceptedRequest, decide, intercept,
  serve,
}

or_else-port_body : (body : Value) → or_else (port_body body) undefined ≡ body
or_else-port_body undefined = refl
or_else-port_body null = refl
or_else-port_body (boolean b) = refl
or_else-port_body (number n) = refl
or_else-port_body (string s) = refl
or_else-port_body (array vs) = refl
or_else-port_body (object fs) = refl

module _ (config : IdempotencyConfig) where
  abbrev pub Store : Type 0
  Store = Records Value

  -- A marked request with this key and fingerprint, before the record expires.
  pub record IsRepeat (key f : String) (until : ℕ) (r : InterceptedRequest) : Type 0 where
    pub marked : r.marked ≡ true
    pub header : r.header ≡ single key
    pub same : r.fingerprint ≡ f
    pub early : r.now < until

  abbrev pub IsOther : String → InterceptedRequest → Type 0
  IsOther key r = first_value r.header ≢ some key

  -- The record that a completed claim leaves.
  abbrev pub completed_record : ℕ → String → ℕ → Value → ClaimRecord Value
  completed_record now f status body = record (fresh_record config now f) {
    state = completed;
    status = some status;
    body = port_body body;
  }

  intercept_first :
      (key : String) (r : InterceptedRequest) (s : Store) (status : ℕ) (body : Value)
      → r.marked ≡ true
      → r.header ≡ single key
      → is_safe_correlation_id (some key) ≡ true
      → (claim config r.now key r.fingerprint s).0 ≡ claimed
      → r.handler ≡ returned status body
      → is_err_result body ≡ false
      → ((intercept (memory_store config) r s).reply ≡ answered status body)
        × ((intercept (memory_store config) r s).runs ≡ 1)
        × (lookup key (intercept (memory_store config) r s).store
            ≡ some (completed_record r.now r.fingerprint status body))
  unfolding intercept decide complete
  intercept_first key r s status body m h safe granted ran good =
      let held = claim-lookup config key r.fingerprint r.now s granted in
      (
        ground arith,
        ground arith,
        ground (
          arith,
          lookup-insert_self key (completed_record r.now r.fingerprint status body)
              (claim config r.now key r.fingerprint s).1,
        ),
      )

  intercept_repeat :
      (key f : String) (until : ℕ) (r : InterceptedRequest) (s : Store) (status : ℕ) (body : Value)
      (q : ClaimRecord Value)
      → is_safe_correlation_id (some key) ≡ true
      → IsRepeat key f until r
      → lookup key s ≡ some q
      → q.expires_at ≡ until
      → q.fingerprint ≡ f
      → q.state ≡ completed
      → q.status ≡ some status
      → q.body ≡ port_body body
      → ((intercept (memory_store config) r s).reply ≡ answered status body)
        × ((intercept (memory_store config) r s).runs ≡ 0)
        × ((intercept (memory_store config) r s).store ≡ s)
  unfolding intercept decide claim
  intercept_repeat key f until r s status body q safe rep e x p c d b =
      ground (arith, eq_iff q.fingerprint r.fingerprint, or_else-port_body body)

  -- A live record that a request for another key meets.
  abbrev IsLive : String → ClaimRecord Value → Store → Type 0
  IsLive key q s = (lookup key s ≡ some q) × (q.state ≡ completed)

  decide-lookup_other :
      (key k : String) (handler : HandlerRun) (outcome : ClaimOutcome Value) (s : Store)
      (q : ClaimRecord Value)
      → k ≢ key
      → IsLive key q s
      → lookup key (decide (memory_store config) k handler outcome s).store ≡ some q
  unfolding decide apply
  decide-lookup_other key k handler mismatch s q ne live = live.0
  decide-lookup_other key k handler in_progress s q ne live = live.0
  decide-lookup_other key k handler (replay status body) s q ne live = live.0
  decide-lookup_other key k threw claimed s q ne (e, d) =
      apply-lookup config key q.expires_at (releasing k) s q e (omega arith) (λ p. cc) ne
  decide-lookup_other key k (returned status body) claimed s q ne (e, d) =
      let released =
        apply-lookup config key q.expires_at (releasing k) s q e (omega arith) (λ p. cc) ne in
      let kept =
        apply-lookup config key q.expires_at (completing k status (port_body body)) s q e
          (omega arith) (λ p. cc) ne in
      ground arith

  intercept_other :
      (key : String) (r : InterceptedRequest) (s : Store) (q : ClaimRecord Value)
      → IsOther key r
      → IsLive key q s
      → IsLive key q (intercept (memory_store config) r s).store
  unfolding intercept
  intercept_other key r s q other (e, d) = elim (Option-cases (first_value r.header)) [
    | inl headless ↦ ground arith
    | inr (k, headed) ↦
        let ne : k ≢ key = λ same. other (headed ∙ ap some same) in
        let claimed_on : lookup key (claim config r.now k r.fingerprint s).1 ≡ some q =
          unfold apply in
          apply-lookup config key q.expires_at (claiming r.now k r.fingerprint) s q e (omega arith)
            (λ p. cc) (inl ne) in
        ground (
          arith,
          decide-lookup_other key k r.handler (claim config r.now k r.fingerprint s).0
              (claim config r.now k r.fingerprint s).1 q ne (claimed_on, d),
        )
  ]

  serve_others :
      (key : String) (rs : List InterceptedRequest) (s : Store) (q : ClaimRecord Value)
      → All (IsOther key) rs
      → IsLive key q s
      → IsLive key q (serve (memory_store config) rs s).2
  unfolding serve
  serve_others key [] s q others live = live
  serve_others key (r ∷ rs) s q (other, others) live =
      serve_others key rs (intercept (memory_store config) r s).store q others
        (intercept_other key r s q other live)

  serve_repeats :
      (key f : String) (until : ℕ) (rs : List InterceptedRequest) (s : Store) (status : ℕ)
      (body : Value) (q : ClaimRecord Value)
      → is_safe_correlation_id (some key) ≡ true
      → All (IsRepeat key f until) rs
      → lookup key s ≡ some q
      → q.expires_at ≡ until
      → q.fingerprint ≡ f
      → q.state ≡ completed
      → q.status ≡ some status
      → q.body ≡ port_body body
      → ((serve (memory_store config) rs s).0 ≡ map (λ r. answered status body) rs)
        × ((serve (memory_store config) rs s).1 ≡ 0)
  unfolding serve
  serve_repeats key f until [] s status body q safe reps e x p c d b = (refl, refl)
  serve_repeats key f until (r ∷ rs) s status body q safe (rep, reps) e x p c d b =
      let (reply, runs, same) =
        intercept_repeat key f until r s status body q safe rep e x p c d b in
      let (replies, none_ran) =
        serve_repeats key f until rs (intercept (memory_store config) r s).store status body q safe
          reps (rw same e) x p c d b in
      (cc, omega arith)

  -- A marked request with a safe key whose claim is granted, and whose handler returns a body that
  -- is no error result, runs its handler once; after any requests for other keys, every repeat
  -- with the same key and fingerprint, before the record expires, gets the same status and body,
  -- and no handler runs again.
  pub serve_once :
      (key : String) (r : InterceptedRequest) (others repeats : List InterceptedRequest) (s : Store)
      (status : ℕ) (body : Value)
      → r.marked ≡ true
      → r.header ≡ single key
      → is_safe_correlation_id (some key) ≡ true
      → (claim config r.now key r.fingerprint s).0 ≡ claimed
      → r.handler ≡ returned status body
      → is_err_result body ≡ false
      → All (IsOther key) others
      → All (IsRepeat key r.fingerprint (r.now + config.ttl_ms)) repeats
      → let first = intercept (memory_store config) r s in
        let later =
          serve (memory_store config) repeats (serve (memory_store config) others first.store).2 in
        (first.reply ≡ answered status body)
        × (first.runs ≡ 1)
        × (later.0 ≡ map (λ q. answered status body) repeats)
        × (later.1 ≡ 0)
  serve_once key r others repeats s status body m h safe granted ran good alone again =
      let (reply, runs, held) = intercept_first key r s status body m h safe granted ran good in
      let q = completed_record r.now r.fingerprint status body in
      let live = serve_others key others _ q alone (held, refl) in
      let (replies, none_ran) =
        serve_repeats key r.fingerprint (r.now + config.ttl_ms) repeats _ status body q safe again
          live.0 refl refl refl refl refl in
      (reply, runs, replies, none_ran)
