-- ===== src/Idempotency/Port.antt =====
-- src/application/ports/idempotency-store.port.ts: what a store answers to a claim, and the
-- interface that the interceptor uses. `B` is the type of response bodies; `none` is `undefined`.
use nestjs_ddd.Prelude.{ℕ, Option, String, Bool, true, false}

pub data ClaimOutcome (B : Type 0) : Type 0 where
  claimed mismatch in_progress : ClaimOutcome B
  replay : ℕ → Option B → ClaimOutcome B

abbrev pub is_claimed : {B : Type 0} → ClaimOutcome B → Bool
is_claimed claimed = true
is_claimed _ = false

-- A store as the interceptor sees it: operations on a state. A claim takes the time, the key and
-- the fingerprint; completing takes the key, the status and the body.
pub record IdempotencyStore (B : Type 0) : Type 1 where
  pub State : Type 0
  pub claim : ℕ → String → String → State → ClaimOutcome B × State
  pub complete : String → ℕ → Option B → State → State
  pub release : String → State → State
