-- ===== src/Http/Retry.antt =====
-- src/infrastructure/http/retry-policy.util.ts: what is sent again, and how long to wait. Methods
-- are an enumeration, as in the `HttpMethod` type of infrastructure/http/contracts/http-client.ts.
pub mod Delay
use nestjs_ddd.Prelude.{
  ℕ, ◌+◌, ◌-◌, ◌*◌, ◌^◌, min, Bool, true, false, ◌||◌, Option, none, some, String, ◌==◌, or_else,
  str_eq, if◌then◌else◌,
}

pub data HttpMethod : Type 0 where
  get head options put delete post patch : HttpMethod

-- `IDEMPOTENT_METHODS.has(method)`
abbrev pub idempotent_method : HttpMethod → Bool
idempotent_method post = false
idempotent_method patch = false
idempotent_method _ = true

unfoldable pub is_idempotent : HttpMethod → Option Bool → Bool
is_idempotent method explicit = or_else explicit (idempotent_method method)

unfoldable pub is_retryable_status : ℕ → Bool
is_retryable_status s =
    s == 408 || s == 425 || s == 429 || s == 500 || s == 502 || s == 503 || s == 504

-- A number of milliseconds that may be negative: what `Number` and `Date.parse` give.
pub data Millis : Type 0 where
  from_zero : ℕ → Millis
  below_zero : ℕ → Millis

-- `Math.max(0, m)`
abbrev pub clamp_zero : Millis → ℕ
clamp_zero (from_zero m) = m
clamp_zero (below_zero m) = 0

-- What JavaScript makes of the text of a header: `seconds` is `Number(header) * 1000` where that is
-- finite, and `date` is `Date.parse(header) - now` where that is a number.
pub record HeaderReading : Type 0 where
  pub seconds : String → Option Millis
  pub date : ℕ → String → Option Millis

unfoldable pub parse_retry_after : HeaderReading → ℕ → Option String → Option ℕ
parse_retry_after js now none = none
parse_retry_after js now (some header) =
    if str_eq header "" then none else elim (js.seconds header) [
      | some ms ↦ some (clamp_zero ms)
      | none ↦ elim (js.date now header) [ some ms ↦ some (clamp_zero ms) | none ↦ none ]
    ]

pub record RetryDelayOptions : Type 0 where
  pub attempt : ℕ
  pub base_ms : ℕ
  pub jitter_ms : ℕ
  pub max_delay_ms : ℕ
  pub retry_after_ms : Option ℕ

-- `jitter` is the drawn `Math.floor(Math.random() * jitterMs)`.
unfoldable pub retry_delay_ms : ℕ → RetryDelayOptions → ℕ
retry_delay_ms jitter o = elim o.retry_after_ms [
  | some after ↦ min after o.max_delay_ms
  | none ↦ min (2 ^ o.attempt * o.base_ms + jitter) o.max_delay_ms
]
