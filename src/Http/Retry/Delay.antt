-- ===== src/Http/Retry/Delay.antt =====
-- Bounds of the delay between attempts (src/infrastructure/http/retry-policy.util.ts).
use native.Mathlib.Nat.{pow-suc}
use nestjs_ddd.Prelude.{
  ℕ, suc, ◌+◌, ◌*◌, ◌^◌, ◌≤◌, ◌≡◌, min, none, some, arith, String, ◌≢◌, eq_iff,
}
use nestjs_ddd.Http.Retry.{
  RetryDelayOptions, retry_delay_ms, HeaderReading, parse_retry_after, Millis, clamp_zero,
}

-- The delay never exceeds the cap, on either branch.
pub retry_delay_ms-le-max :
    (jitter : ℕ) (o : RetryDelayOptions) → retry_delay_ms jitter o ≤ o.max_delay_ms
unfolding retry_delay_ms
retry_delay_ms-le-max jitter o = ground arith

double-le : (a b j k : ℕ) → 2 ^ a * b + j ≤ 2 ^ suc a * b + (j + k)
double-le a b j k = rw pow-suc (omega arith)

-- Without a `Retry-After`, one attempt later and with no less jitter the delay is no shorter: it
-- doubles before the jitter is added, until the cap.
pub retry_delay_ms-suc :
    (jitter more : ℕ) (o : RetryDelayOptions)
    → o.retry_after_ms ≡ none
    → retry_delay_ms jitter o
      ≤ retry_delay_ms (jitter + more) (record o { attempt = suc o.attempt })
unfolding retry_delay_ms
retry_delay_ms-suc jitter more o e = ground (arith, double-le o.attempt o.base_ms jitter more)

-- A `Retry-After` that can be read decides the delay, up to the cap, whatever the attempt; a
-- negative one, or a date that has passed, means no delay.
pub parse_retry_after-retry_delay_ms :
    (js : HeaderReading) (now jitter : ℕ) (header : String) (ms : Millis) (o : RetryDelayOptions)
    → header ≢ ""
    → js.seconds header ≡ some ms
    → o.retry_after_ms ≡ parse_retry_after js now (some header)
    → retry_delay_ms jitter o ≡ min (clamp_zero ms) o.max_delay_ms
unfolding parse_retry_after retry_delay_ms
parse_retry_after-retry_delay_ms js now jitter header ms o ne e r = ground (arith, eq_iff header "")
