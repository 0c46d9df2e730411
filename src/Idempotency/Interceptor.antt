-- ===== src/Idempotency/Interceptor.antt =====
-- src/interface/http/interceptors/idempotency.interceptor.ts: `intercept`, over any store. The
-- handler's run is a fact of the request: it returns a body under a status, or throws.
pub mod Once
pub mod Guarded
use nestjs_ddd.Prelude.{
  ℕ, ◌+◌, Bool, true, false, not, Option, none, some, String, List, [], ◌∷◌, or_else, if◌then◌else◌,
}
use nestjs_ddd.Shared.Values.{Value, undefined, is_err_result}
use nestjs_ddd.Shared.Correlation.{is_safe_correlation_id}
use nestjs_ddd.Idempotency.Port.{
  ClaimOutcome, claimed, mismatch, in_progress, replay, IdempotencyStore,
}

-- A header as Node gives it: absent, one text, or several.
pub data HeaderValue : Type 0 where
  absent : HeaderValue
  single : String → HeaderValue
  multiple : List String → HeaderValue

-- `Array.isArray(header) ? header[0] : header`
abbrev pub first_value : HeaderValue → Option String
first_value absent = none
first_value (single s) = some s
first_value (multiple []) = none
first_value (multiple (s ∷ ss)) = some s

pub data HandlerRun : Type 0 where
  returned : ℕ → Value → HandlerRun
  threw : HandlerRun

-- The metric labels of `count`.
pub data Counted : Type 0 where
  count_claimed count_replay count_mismatch count_in_progress count_missing_key : Counted

pub data Reply : Type 0 where
  answered : ℕ → Value → Reply
  missing_idempotency_key idempotency_key_reused idempotency_in_progress handler_error : Reply

pub record Intercepted (S : Type 0) : Type 0 where
  pub reply : Reply
  pub store : S
  pub runs : ℕ
  pub counted : List Counted

pub record InterceptedRequest : Type 0 where
  pub marked : Bool  -- `@Idempotent()`
  pub header : HeaderValue
  pub fingerprint : String
  pub handler : HandlerRun
  pub now : ℕ

abbrev pub plain_reply : HandlerRun → Reply
plain_reply (returned status body) = answered status body
plain_reply threw = handler_error

-- The body as the port takes it, `none` for `undefined`.
abbrev pub port_body : Value → Option Value
port_body undefined = none
port_body v = some v

module _ (store : IdempotencyStore Value) where
  open store use {State, claim, complete, release}

  -- What follows the handler: `concatMap` and `catchError`.
  pub settle : String → HandlerRun → State → State
  settle key (returned status body) s =
      if is_err_result body then release key s else complete key status (port_body body) s
  settle key threw s = release key s

  -- What follows the claim.
  unfoldable pub decide : String → HandlerRun → ClaimOutcome Value → State → Intercepted State
  unfolding settle
  decide key handler mismatch s = record {
    reply = idempotency_key_reused;
    store = s;
    runs = 0;
    counted = count_mismatch ∷ [];
  }
  decide key handler in_progress s = record {
    reply = idempotency_in_progress;
    store = s;
    runs = 0;
    counted = count_in_progress ∷ [];
  }
  decide key handler (replay status body) s = record {
    reply = answered status (or_else body undefined);
    store = s;
    runs = 0;
    counted = count_replay ∷ [];
  }
  decide key handler claimed s = record {
    reply = plain_reply handler;
    store = settle key handler s;
    runs = 1;
    counted = count_claimed ∷ [];
  }

  unfoldable pub intercept : InterceptedRequest → State → Intercepted State
  intercept r s =
      if not r.marked
      then record { reply = plain_reply r.handler; store = s; runs = 1; counted = [] }
      else elim (first_value r.header) [
        | none ↦ record {
          reply = missing_idempotency_key;
          store = s;
          runs = 0;
          counted = count_missing_key ∷ [];
        }
        | some key ↦
            if is_safe_correlation_id (some key)
            then (let (outcome, s') = claim r.now key r.fingerprint s in
                decide key r.handler outcome s')
            else record {
              reply = missing_idempotency_key;
              store = s;
              runs = 0;
              counted = count_missing_key ∷ [];
            }
      ]

  -- Requests one after the other; the handlers' runs are counted per key.
  unfoldable pub serve : List InterceptedRequest → State → List Reply × ℕ × State
  serve [] s = ([], 0, s)
  serve (r ∷ rs) s =
      let done = intercept r s in
      let (replies, runs, s') = serve rs done.store in (done.reply ∷ replies, done.runs + runs, s')
