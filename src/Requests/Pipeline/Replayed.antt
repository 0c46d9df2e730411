-- ===== src/Requests/Pipeline/Replayed.antt =====
-- An idempotent request that is sent again (src/interface/http/interceptors/idempotency.interceptor.ts inside
-- response-formatter.interceptor.ts, behind the guards), over the store in memory.
use nestjs_ddd.Prelude.{
  ℕ, ◌+◌, ◌≡◌, refl, ◌∙◌, ap, sym, Bool, true, false, Option, none, some, String, List, [], ◌∷◌,
  map, keep, All, All-keep, arith, Bool-cases, inl, inr,
}
use nestjs_ddd.Shared.Values.{Value, is_err_result}
use nestjs_ddd.Shared.Correlation.{is_safe_correlation_id}
use nestjs_ddd.Idempotency.Port.{IdempotencyStore, claimed}
use nestjs_ddd.Idempotency.Memory.{Records, IdempotencyConfig, claim, memory_store}
use nestjs_ddd.Idempotency.Interceptor.{
  Reply, answered, InterceptedRequest, returned, single, intercept, serve,
}
use nestjs_ddd.Idempotency.Interceptor.Once.{IsRepeat, IsOther, serve_once}
use nestjs_ddd.Errors.Formatter.{Sent}
use nestjs_ddd.Requests.Guards.{Passage, refused, passed}
use nestjs_ddd.Requests.Pipeline.{
  Incoming, Surroundings, Outcome, passage, invalid_input, after_guards, after_validation,
  run_interceptors, answer_reply, handle_request, handle_all,
}

-- A request that neither the guards nor the validation stop.
abbrev pub is_let_through : Passage → Option Value → Bool
is_let_through (passed user) none = true
is_let_through p invalid = false

module _ (e : Surroundings) (store : IdempotencyStore Value) where
  open store use {State}

  abbrev pub reaches : Incoming → Bool
  reaches p = is_let_through (passage e store p) (invalid_input p)

  -- The calls of the handlers that are reached.
  abbrev pub calls : List Incoming → List InterceptedRequest
  calls ps = map (λ (p : Incoming). p.call) (keep reaches ps)

  through :
      (g : Passage) (invalid : Option Value) (p : Incoming) (s : State)
      → invalid_input p ≡ invalid
      → is_let_through g invalid ≡ true
      → after_guards e store g p s ≡ run_interceptors e store p s
  unfolding after_guards after_validation
  through (passed user) none p s i h = rw i refl
  through (passed user) (some response) p s i h = cc
  through (refused r) invalid p s i h = cc

  kept_out :
      (g : Passage) (invalid : Option Value) (p : Incoming) (s : State)
      → invalid_input p ≡ invalid
      → is_let_through g invalid ≡ false
      → ((after_guards e store g p s).store ≡ s) × ((after_guards e store g p s).runs ≡ 0)
  unfolding after_guards after_validation
  kept_out (passed user) none p s i h = cc
  kept_out (passed user) (some response) p s i h = rw i (refl, refl)
  kept_out (refused r) invalid p s i h = (refl, refl)

  handle_through :
      (p : Incoming) (s : State)
      → reaches p ≡ true
      → handle_request e store p s ≡ run_interceptors e store p s
  unfolding handle_request
  handle_through p s h = through (passage e store p) (invalid_input p) p s refl h

  handle_kept_out :
      (p : Incoming) (s : State)
      → reaches p ≡ false
      → ((handle_request e store p s).store ≡ s) × ((handle_request e store p s).runs ≡ 0)
  unfolding handle_request
  handle_kept_out p s h = kept_out (passage e store p) (invalid_input p) p s refl h

  -- The handlers that run, and the store that they leave, are those of the calls that get through.
  handle_all-serve :
      (ps : List Incoming) (s : State)
      → ((handle_all e store ps s).1 ≡ (serve store (calls ps) s).1)
        × ((handle_all e store ps s).2 ≡ (serve store (calls ps) s).2)
  unfolding handle_all serve
  handle_all-serve [] s = (refl, refl)
  handle_all-serve (p ∷ ps) s = elim (Bool-cases (reaches p)) [
    | inl in_time ↦
        let same = handle_through p s in_time in
        let (runs, left) = handle_all-serve ps (intercept store p.call s).store in
        rw in_time (
          rw same (
            unfold run_interceptors in
            (ap (λ (n : ℕ). (intercept store p.call s).runs + n) runs, left)))
    | inr stopped ↦
        let (same, none_ran) = handle_kept_out p s stopped in
        let (runs, left) = handle_all-serve ps s in
        rw stopped (rw (same, none_ran) (omega (arith, runs), left))
  ]

  -- The answers to requests that all get through.
  answer_each : List Incoming → List Reply → List Sent
  answer_each [] replies = []
  answer_each (p ∷ ps) [] = []
  answer_each (p ∷ ps) (reply ∷ replies) = answer_reply e p reply ∷ answer_each ps replies

  handle_all-answers :
      (ps : List Incoming) (s : State)
      → All (λ (p : Incoming). reaches p ≡ true) ps
      → (handle_all e store ps s).0
        ≡ answer_each ps (serve store (map (λ (p : Incoming). p.call) ps) s).0
  unfolding handle_all answer_each serve
  handle_all-answers [] s h = refl
  handle_all-answers (p ∷ ps) s (here, h) = rw (handle_through p s here) (
      unfold run_interceptors in
      ap (λ (sents : List Sent). answer_reply e p (intercept store p.call s).reply ∷ sents)
        (handle_all-answers ps (intercept store p.call s).store h))

  keep-All :
      (ps : List Incoming) → All (λ (p : Incoming). reaches p ≡ true) ps → keep reaches ps ≡ ps
  keep-All [] h = refl
  keep-All (p ∷ ps) (here, h) = rw here (ap (λ (qs : List Incoming). p ∷ qs) (keep-All ps h))

  answer_each_same :
      (reply : Reply) (ps : List Incoming)
      → answer_each ps (map (λ (r : InterceptedRequest). reply) (map (λ (p : Incoming). p.call) ps))
        ≡ map (λ (p : Incoming). answer_reply e p reply) ps
  unfolding answer_each
  answer_each_same reply [] = refl
  answer_each_same reply (p ∷ ps) =
      ap (λ (sents : List Sent). answer_reply e p reply ∷ sents) (answer_each_same reply ps)

  -- Requests that all get through and whose calls all have the same reply.
  repeats_answered :
      (reply : Reply) (ps : List Incoming) (s : State)
      → All (λ (p : Incoming). reaches p ≡ true) ps
      → (serve store (map (λ (p : Incoming). p.call) ps) s).0
        ≡ map (λ (r : InterceptedRequest). reply) (map (λ (p : Incoming). p.call) ps)
      → ((handle_all e store ps s).0 ≡ map (λ (p : Incoming). answer_reply e p reply) ps)
        × ((handle_all e store ps s).1 ≡ (serve store (map (λ (p : Incoming). p.call) ps) s).1)
  repeats_answered reply ps s admitted same = (
    handle_all-answers ps s admitted
        ∙ ap (λ (rs : List Reply). answer_each ps rs) same
        ∙ answer_each_same reply ps,
    (handle_all-serve ps s).0
        ∙ ap (λ (qs : List Incoming). (serve store (map (λ (p : Incoming). p.call) qs) s).1)
            (keep-All ps admitted),
  )

All-calls :
    (P : InterceptedRequest → Type 0) (ps : List Incoming)
    → All (λ (p : Incoming). P p.call) ps
    → All P (map (λ (p : Incoming). p.call) ps)
All-calls P [] h = tt
All-calls P (p ∷ ps) (here, h) = (here, All-calls P ps h)

-- An idempotent request that gets through, whose claim is granted and whose handler returns a body
-- that is no failed `Result`, runs its handler once. After any requests for other keys, whatever
-- becomes of them, every repeat that gets through, with the same key and fingerprint and before the
-- record expires, is answered from the same status and body, formatted with its own metadata, and no
-- handler runs again.
pub replayed_answers :
    (e : Surroundings) (config : IdempotencyConfig) (key : String) (first : Incoming)
    (others repeats : List Incoming) (s : Records Value) (status : ℕ) (body : Value)
    (one : Outcome (Records Value)) (later : List Sent × ℕ × Records Value)
    → reaches e (memory_store config) first ≡ true
    → first.call.marked ≡ true
    → first.call.header ≡ single key
    → is_safe_correlation_id (some key) ≡ true
    → (claim config first.call.now key first.call.fingerprint s).0 ≡ claimed
    → first.call.handler ≡ returned status body
    → is_err_result body ≡ false
    → All (λ (p : Incoming). IsOther config key p.call) others
    → All (λ (p : Incoming). reaches e (memory_store config) p ≡ true) repeats
    → All
        (λ (p : Incoming).
          IsRepeat config key first.call.fingerprint (first.call.now + config.ttl_ms) p.call)
        repeats
    → handle_request e (memory_store config) first s ≡ one
    → handle_all e
        (memory_store config)
        repeats
        (handle_all e (memory_store config) others one.store).2
      ≡ later
    → (one.sent ≡ answer_reply e first (answered status body))
      × (one.runs ≡ 1)
      × (later.0 ≡ map (λ (p : Incoming). answer_reply e p (answered status body)) repeats)
      × (later.1 ≡ 0)
replayed_answers e config key first others repeats s status body one later let_in m h safe granted
      ran good alone admitted again did went =
    let st = memory_store config in
    let call_of = λ (p : Incoming). p.call in
    let foreign = calls e st others in
    let done = intercept st first.call s in
    let (reply, runs, replies, silent) =
      serve_once config key first.call foreign (map call_of repeats) s status body m h safe granted
        ran good
        (All-calls (IsOther config key) (keep (reaches e st) others)
          (All-keep (λ (p : Incoming). IsOther config key p.call) (reaches e st) others alone))
        (All-calls (IsRepeat config key first.call.fingerprint (first.call.now + config.ttl_ms))
          repeats again) in
    let one_is : one ≡ run_interceptors e st first s =
      sym did ∙ handle_through e st first s let_in in
    let left : one.store ≡ done.store =
      unfold run_interceptors in ap (λ (o : Outcome (Records Value)). o.store) one_is in
    let between = (serve st foreign done.store).2 in
    let before : (handle_all e st others one.store).2 ≡ between =
      (handle_all-serve e st others one.store).1
      ∙ ap (λ (t : Records Value). (serve st foreign t).2) left in
    let later_is : later ≡ handle_all e st repeats between =
      sym went ∙ ap (λ (t : Records Value). handle_all e st repeats t) before in
    let sent_is : one.sent ≡ answer_reply e first done.reply =
      unfold run_interceptors in ap (λ (o : Outcome (Records Value)). o.sent) one_is in
    let runs_are : one.runs ≡ done.runs =
      unfold run_interceptors in ap (λ (o : Outcome (Records Value)). o.runs) one_is in
    let (sents, none_ran) =
      repeats_answered e st (answered status body) repeats between admitted replies in
    (
      sent_is ∙ ap (λ (r : Reply). answer_reply e first r) reply,
      runs_are ∙ runs,
      ap (λ (t : List Sent × ℕ × Records Value). t.0) later_is ∙ sents,
      ap (λ (t : List Sent × ℕ × Records Value). t.1) later_is ∙ none_ran ∙ silent,
    )
