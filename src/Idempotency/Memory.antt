-- ===== src/Idempotency/Memory.antt =====
-- src/infrastructure/database/idempotency/in-memory-idempotency.store.ts. Each operation takes the
-- configured times, and `claim` the value of `Date.now()`.
pub mod Laws
use nestjs_ddd.Prelude.{
  ℕ, ◌+◌, Bool, true, false, not, ◌||◌, Option, none, some, String, List, [], ◌∷◌, Map, lookup,
  insert, erase, leb, ltb, or_else, str_eq, if◌then◌else◌,
}
use nestjs_ddd.Idempotency.Port.{
  ClaimOutcome, claimed, mismatch, in_progress, replay, IdempotencyStore,
}

pub data ClaimState : Type 0 where
  pending completed : ClaimState

pub record ClaimRecord (B : Type 0) : Type 0 where
  pub fingerprint : String
  pub state : ClaimState
  pub claimed_at : ℕ
  pub expires_at : ℕ
  pub status : Option ℕ
  pub body : Option B

abbrev pub Records : Type 0 → Type 0
Records B = Map (ClaimRecord B)

-- `idempotency.ttlMs` and `idempotency.inProgressTtlMs`.
pub record IdempotencyConfig : Type 0 where
  pub ttl_ms : ℕ
  pub in_progress_ttl_ms : ℕ

module _ {B : Type 0} (config : IdempotencyConfig) where
  abbrev pub fresh_record : ℕ → String → ClaimRecord B
  fresh_record now fingerprint = record {
    fingerprint = fingerprint;
    state = pending;
    claimed_at = now;
    expires_at = now + config.ttl_ms;
    status = none;
    body = none;
  }

  claim_existing :
      ℕ → String → String → Records B → ClaimRecord B → ClaimState → ClaimOutcome B × Records B
  claim_existing now key fingerprint m r pending =
      if ltb (r.claimed_at + config.in_progress_ttl_ms) now
      then (claimed, insert key (fresh_record now fingerprint) m)
      else (in_progress, m)
  claim_existing now key fingerprint m r completed = (replay (or_else r.status 200) r.body, m)

  unfoldable pub claim : ℕ → String → String → Records B → ClaimOutcome B × Records B
  unfolding claim_existing
  claim now key fingerprint m = elim (lookup key m) [
    | none ↦ (claimed, insert key (fresh_record now fingerprint) m)
    | some r ↦
        if leb r.expires_at now
        then (claimed, insert key (fresh_record now fingerprint) m)
        else if not (str_eq r.fingerprint fingerprint)
        then (mismatch, m)
        else claim_existing now key fingerprint m r r.state
  ]

  unfoldable pub complete : String → ℕ → Option B → Records B → Records B
  complete key status body m = elim (lookup key m) [
    | none ↦ m
    | some r ↦ insert key (record r { state = completed; status = some status; body = body }) m
  ]

  unfoldable pub release : String → Records B → Records B
  release key m = erase key m

  abbrev pub memory_store : IdempotencyStore B
  memory_store = record { State = Records B; claim = claim; complete = complete; release = release }
