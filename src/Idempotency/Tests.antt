-- ===== src/Idempotency/Tests.antt =====
-- The theorems on the idempotency stores and the interceptor at concrete requests.
use nestjs_ddd.Prelude.{
  ℕ, zero, suc, ◌≡◌, refl, ◌≢◌, ◌↔◌, inr, true, false, none, some, String, List, [], ◌∷◌, lookup,
  arith, eq_iff, All,
}
use Prim.Native.String.{slice, len}
use nestjs_ddd.Prelude.{
  Option, ◌++◌, ◌∙◌, ap, sym, or_else, str_append, str_eq, if◌then◌else◌, ◌-◌, count_if,
}
use nestjs_ddd.Shared.Values.{boolean, Value, null, string, is_err_result}
use nestjs_ddd.Shared.Correlation.{is_safe_correlation_id}
use nestjs_ddd.Idempotency.Port.{claimed, mismatch, in_progress, replay}
use nestjs_ddd.Idempotency.Memory as Memory
use nestjs_ddd.Idempotency.Memory.{
  IdempotencyConfig, Records, claim, complete, memory_store, pending, completed, fresh_record,
}
use nestjs_ddd.Idempotency.Memory.Laws.{
  Call, claiming, releasing, answers, run, claim_exclusive, complete_replays,
}
use nestjs_ddd.Idempotency.Interceptor.{
  single, returned, answered, InterceptedRequest, intercept, serve, first_value,
}
use nestjs_ddd.Idempotency.Interceptor.Once.{serve_once}
use nestjs_ddd.Idempotency.Interceptor.Guarded.{intercept_runs_iff}
use nestjs_ddd.Idempotency.Oracle as Oracle
use nestjs_ddd.Idempotency.Oracle.{ClaimRow, Table, purge, committed}
use nestjs_ddd.Idempotency.Oracle.Shape.{is_expired}
use nestjs_ddd.Idempotency.Oracle.Agreement.{
  SameAt, Agree, claim_alone, claim_agrees, complete_release_agree, expired_row_is_replayed,
}

abbrev config : IdempotencyConfig
config = record { ttl_ms = 1000; in_progress_ttl_ms = 100 }

abbrev nothing : Records Value
nothing = []

granted_test : (claim config 5 "k" "f" nothing).0 ≡ claimed
unfolding claim lookup
granted_test = refl

a_ne_k : ◌≢◌ {A = String} "a" "k"
a_ne_k e = ground (arith, eq_iff "a" "k")

abbrev meanwhile : List (Call Value)
meanwhile = claiming 7 "k" "g" ∷ releasing "a" ∷ claiming 60 "k" "f" ∷ []

claim_exclusive_example :
    All
      (λ a. (a.0 ≡ "f" → a.1 ≡ in_progress) × (a.0 ≢ "f" → a.1 ≡ mismatch))
      (answers config "k" meanwhile (claim config 5 "k" "f" nothing).1)
claim_exclusive_example =
    claim_exclusive config "k" "f" 5 100 nothing meanwhile granted_test (omega arith) (omega arith)
      (inr (omega arith), (a_ne_k, (inr (omega arith), tt)))

complete_replays_example :
    All
      (λ a. (a.0 ≡ "f" → a.1 ≡ replay 201 (some null)) × (a.0 ≢ "f" → a.1 ≡ mismatch))
      (answers config "k" (claiming 900 "k" "f" ∷ claiming 3 "k" "g" ∷ []) (
        complete config "k" 201
          (some null)
          (run config meanwhile (claim config 5 "k" "f" nothing).1)))
complete_replays_example =
    complete_replays config "k" "f" 5 100 201 (some null) nothing meanwhile
      (claiming 900 "k" "f" ∷ claiming 3 "k" "g" ∷ []) granted_test (omega arith) (omega arith)
      (inr (omega arith), (a_ne_k, (inr (omega arith), tt)))
      (inr (omega arith), (inr (omega arith), tt))

-- A marked request at a time, whose handler creates something.
abbrev order : ℕ → String → InterceptedRequest
order now key = record {
  marked = true;
  header = single key;
  fingerprint = "f";
  handler = returned 201 (string "made");
  now = now;
}

safe_test : is_safe_correlation_id (some "k") ≡ true
unfolding is_safe_correlation_id
safe_test = refl

made_test : is_err_result (string "made") ≡ false
unfolding is_err_result
made_test = refl

some_a_ne_k : first_value (single "a") ≢ some "k"
some_a_ne_k e = ground (arith, eq_iff "a" "k")

serve_once_example :
    let first = intercept (memory_store config) (order 5 "k") nothing in
    let later =
      serve
        (memory_store config)
        (order 6 "k" ∷ order 800 "k" ∷ [])
        (serve (memory_store config) (order 7 "a" ∷ []) first.store).2 in
    (first.reply ≡ answered 201 (string "made"))
    × (first.runs ≡ 1)
    × (later.0 ≡ answered 201 (string "made") ∷ answered 201 (string "made") ∷ [])
    × (later.1 ≡ 0)
serve_once_example =
    serve_once config "k" (order 5 "k") (order 7 "a" ∷ []) (order 6 "k" ∷ order 800 "k" ∷ [])
      nothing 201 (string "made") refl refl safe_test granted_test refl made_test (some_a_ne_k, tt)
      (
        record { marked = refl; header = refl; same = refl; early = omega arith },
        (record { marked = refl; header = refl; same = refl; early = omega arith }, tt),
      )

intercept_runs_iff_example : ((intercept (memory_store config) (order 5 "k") nothing).runs ≡ 1) ↔ (
    (key : String) × (some "k" ≡ some key)
    × (is_safe_correlation_id (some key) ≡ true)
    × ((claim config 5 key "f" nothing).0 ≡ claimed))
intercept_runs_iff_example = intercept_runs_iff (memory_store config) (order 5 "k") nothing refl

-- Bodies as texts, so that JSON changes nothing.
abbrev same_text : String → String
same_text s = s

abbrev row : ClaimRow
row = record {
  fingerprint = "f";
  state = completed;
  status = some 201;
  response_body = some "made";
  created_at = 5;
  expires_at = 1005;
}

abbrev kept : Records String
kept =
    (
      "k",
      record (fresh_record config 5 "f") {
        state = completed;
        status = some 201;
        body = some "made";
      },
    )
    ∷ []

same_test : SameAt same_text "k" kept (("k", row) ∷ [])
unfolding lookup
same_test = refl

-- JSON of null, of the flags and of texts that need no escape; `undefined` is not read back.
abbrev stringify : Value → String
stringify (boolean true) = "true"
stringify (boolean false) = "false"
stringify (string s) = str_append "\"" (str_append s "\"")
stringify _ = "null"

abbrev parse : String → Value
parse text =
    if str_eq text "null"
    then null
    else if str_eq text "true"
    then boolean true
    else if str_eq text "false"
    then boolean false
    else string (slice text 1 (len text - 1))

abbrev made : Memory.ClaimRecord Value
made = record (fresh_record config 5 "f") {
  state = completed;
  status = some 201;
  body = some (string "made");
}

abbrev made_row : ClaimRow
made_row = record row { response_body = some "\"made\"" }

made_there : lookup "k" (("k", made) ∷ []) ≡ some made
unfolding lookup
made_there = refl

made_same : SameAt stringify "k" (("k", made) ∷ []) (("k", made_row) ∷ [])
unfolding lookup
made_same = refl

abbrev recorded_body : Option (Memory.ClaimRecord Value) → Option Value
recorded_body none = none
recorded_body (some r) = r.body

read_back :
    (r : Memory.ClaimRecord Value) (b : Value)
    → lookup "k" (("k", made) ∷ []) ≡ some r
    → r.body ≡ some b
    → parse (stringify b) ≡ b
read_back r b e full =
    let body_is : some b ≡ some (string "made") =
      sym full ∙ ap recorded_body (sym e ∙ made_there) in
    let b_is : b ≡ string "made" = ap (λ o. or_else o null) body_is in rw b_is refl

expiry_test :
    (r : Memory.ClaimRecord Value) → lookup "k" (("k", made) ∷ []) ≡ some r → r.expires_at ≢ 50
unfolding lookup
expiry_test r e x = ground arith

claim_agrees_example :
    Agree stringify parse config 50 "k" "f" (("k", made) ∷ []) (("k", made_row) ∷ [])
unfolding lookup
claim_agrees_example =
    claim_agrees stringify parse config 50 "k" "f" (("k", made) ∷ []) (("k", made_row) ∷ [])
      read_back made_same expiry_test (refl, tt) (omega arith)

complete_release_agree_example :
    SameAt same_text "k"
      (Memory.complete config "k" 500 none kept)
      (Oracle.complete same_text same_text config "k" 500 none (("k", row) ∷ []))
    × SameAt same_text "k"
        (Memory.release config "k" kept)
        (Oracle.release same_text same_text config "k" (("k", row) ∷ []))
complete_release_agree_example =
    complete_release_agree same_text same_text config "k" 500 none kept (("k", row) ∷ []) same_test

-- A hundred expired rows, under keys of their own, before the one that is asked for.
abbrev stars : ℕ → String
stars zero = ""
stars (suc n) = String.◌∷◌ "x" (stars n)

abbrev crowd : ℕ → Table
crowd zero = []
crowd (suc n) = (stars (suc n), row) ∷ crowd n

crowd_absent : lookup "k" (crowd 100) ≡ none
unfolding lookup
crowd_absent = refl

crowd_expired : count_if (is_expired 2000) (crowd 100) ≡ 100
crowd_expired = refl

expired_row_is_replayed_example :
    (claim_alone stringify parse config 2000 "k" "f" (crowd 100 ++ ("k", made_row) ∷ [])
      ≡ committed
          (replay 201 (some (string "made")))
          (purge 2000 100 (crowd 100 ++ ("k", made_row) ∷ [])))
    × ((Memory.claim config 2000 "k" "f" (("k", made) ∷ [])).0 ≡ claimed)
expired_row_is_replayed_example =
    expired_row_is_replayed stringify parse config 2000 "k" (crowd 100) [] (("k", made) ∷ []) made
      made_there (omega arith) refl crowd_absent (omega (arith, crowd_expired))
