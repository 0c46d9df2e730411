-- ===== src/Idempotency/Memory/Laws.antt =====
-- What the in-memory store (src/infrastructure/database/idempotency/in-memory-idempotency.store.ts)
-- guarantees to the holder of a claim, whatever other requests do meanwhile.
use nestjs_ddd.Prelude.{
  ℕ, suc, ◌+◌, ◌≤◌, ◌<◌, ◌≡◌, ◌≢◌, ◌⊎◌, inl, inr, Option, none, some, String, List, [], ◌∷◌, lookup,
  lookup-insert, lookup-erase, lookup-insert_self, arith, str_eq, eq_iff, if◌then◌else◌, All,
  Bool-cases, Option-cases, ap,
}
use nestjs_ddd.Idempotency.Port.{ClaimOutcome, claimed, mismatch, in_progress, replay}
use nestjs_ddd.Idempotency.Memory.{
  fresh_record, pending, completed, ClaimRecord, Records, IdempotencyConfig, claim, complete,
  release,
}

-- A call of the store by some request.
pub data Call (B : Type 0) : Type 0 where
  claiming : ℕ → String → String → Call B
  completing : String → ℕ → Option B → Call B
  releasing : String → Call B

module _ {B : Type 0} (config : IdempotencyConfig) where
  unfoldable pub apply : Call B → Records B → Records B
  apply (claiming now k f) m = (claim config now k f m).1
  apply (completing k s b) m = complete config k s b m
  apply (releasing k) m = release config k m

  -- The answers to the claims of `key`, in order, with the fingerprint of each.
  unfoldable pub answers : String → List (Call B) → Records B → List (String × ClaimOutcome B)
  answers key [] m = []
  answers key (claiming now k f ∷ cs) m =
      let rest = answers key cs (claim config now k f m).1 in
      if str_eq k key then (f, (claim config now k f m).0) ∷ rest else rest
  answers key (completing k s b ∷ cs) m = answers key cs (complete config k s b m)
  answers key (releasing k ∷ cs) m = answers key cs (release config k m)

  -- Others may claim `key` before `until`, and do anything with other keys.
  abbrev pub LeavesAlone : String → ℕ → Call B → Type 0
  LeavesAlone key until (claiming now k f) = (k ≢ key) ⊎ (now < until)
  LeavesAlone key until (completing k s b) = k ≢ key
  LeavesAlone key until (releasing k) = k ≢ key

  abbrev pub IsAnswered : ClaimRecord B → String × ClaimOutcome B → Type 0
  IsAnswered r (f, outcome) =
      (f ≡ r.fingerprint
        → outcome ≡ elim r.state [
          | pending ↦ in_progress
          | completed ↦ replay (elim r.status [ none ↦ 200 | some s ↦ s ]) r.body
        ])
      × (f ≢ r.fingerprint → outcome ≡ mismatch)

  pub apply-lookup :
      (key : String) (until : ℕ) (c : Call B) (m : Records B) (r : ClaimRecord B)
      → lookup key m ≡ some r
      → until ≤ r.expires_at
      → (r.state ≡ pending → until ≤ suc (r.claimed_at + config.in_progress_ttl_ms))
      → LeavesAlone key until c
      → lookup key (apply c m) ≡ some r
  unfolding apply claim complete release
  apply-lookup key until (claiming now k f) m r e fits fresh alone =
      elim (Bool-cases (str_eq k key)) [
        | inl same ↦
            let k_key : k ≡ key = (eq_iff k key).0 same in
            ground (arith, ap (λ x. lookup x m) k_key)
        | inr other ↦ ground (arith, lookup-insert k key (fresh_record config now f) m)
      ]
  apply-lookup key until (completing k s b) m r e fits fresh alone =
      elim (Option-cases (lookup k m)) [
        | inl absent ↦ ground arith
        | inr (q, found) ↦ ground (
          arith,
          eq_iff k key,
          lookup-insert k key (record q { state = completed; status = some s; body = b }) m,
        )
      ]
  apply-lookup key until (releasing k) m r e fits fresh alone =
      ground (arith, eq_iff k key, lookup-erase k key m)

  -- The answer to a claim of a key whose record is live.
  pub claim-IsAnswered :
      (key f : String) (now until : ℕ) (m : Records B) (r : ClaimRecord B)
      → lookup key m ≡ some r
      → until ≤ r.expires_at
      → (r.state ≡ pending → until ≤ suc (r.claimed_at + config.in_progress_ttl_ms))
      → now < until
      → IsAnswered r (f, (claim config now key f m).0)
  unfolding claim
  claim-IsAnswered key f now until m r e fits fresh early = (
    λ same. ground (arith, eq_iff r.fingerprint f),
    λ other. ground (arith, eq_iff r.fingerprint f),
  )

  answers-IsAnswered :
      (key : String) (until : ℕ) (cs : List (Call B)) (m : Records B) (r : ClaimRecord B)
      → lookup key m ≡ some r
      → until ≤ r.expires_at
      → (r.state ≡ pending → until ≤ suc (r.claimed_at + config.in_progress_ttl_ms))
      → All (LeavesAlone key until) cs
      → All (IsAnswered r) (answers key cs m)
  unfolding answers apply
  answers-IsAnswered key until [] m r e fits fresh alone = tt
  answers-IsAnswered key until (claiming now k f ∷ cs) m r e fits fresh (here, later) =
      let ih =
        answers-IsAnswered key until cs (apply (claiming now k f) m) r
          (apply-lookup key until (claiming now k f) m r e fits fresh here) fits fresh later in
      elim (Bool-cases (str_eq k key)) [
        | inl same ↦
            let k_key : k ≡ key = (eq_iff k key).0 same in
            rw (same, answers)
              (claim-IsAnswered k f now until m r (rw k_key e) fits fresh (ground arith), ih)
        | inr other ↦ rw (other, answers) ih
      ]
  answers-IsAnswered key until (completing k s b ∷ cs) m r e fits fresh (here, later) =
      answers-IsAnswered key until cs (apply (completing k s b) m) r
        (apply-lookup key until (completing k s b) m r e fits fresh here) fits fresh later
  answers-IsAnswered key until (releasing k ∷ cs) m r e fits fresh (here, later) =
      answers-IsAnswered key until cs (apply (releasing k) m) r
        (apply-lookup key until (releasing k) m r e fits fresh here) fits fresh later

  pub run : List (Call B) → Records B → Records B
  run [] m = m
  run (c ∷ cs) m = run cs (apply c m)

  run-lookup :
      (key : String) (until : ℕ) (cs : List (Call B)) (m : Records B) (r : ClaimRecord B)
      → lookup key m ≡ some r
      → until ≤ r.expires_at
      → (r.state ≡ pending → until ≤ suc (r.claimed_at + config.in_progress_ttl_ms))
      → All (LeavesAlone key until) cs
      → lookup key (run cs m) ≡ some r
  unfolding run
  run-lookup key until [] m r e fits fresh alone = e
  run-lookup key until (c ∷ cs) m r e fits fresh (here, later) =
      run-lookup key until cs (apply c m) r (apply-lookup key until c m r e fits fresh here) fits
        fresh later

  pub claim-lookup :
      (key f : String) (now : ℕ) (m : Records B)
      → (claim config now key f m).0 ≡ claimed
      → lookup key (claim config now key f m).1 ≡ some (fresh_record config now f)
  unfolding claim
  claim-lookup key f now m e = ground (arith, lookup-insert_self key (fresh_record config now f) m)

  -- A claim that is granted is exclusive: until its record expires or the claim counts as
  -- abandoned, and as long as nobody completes or releases its key, every other claim of the key is
  -- answered "in progress" if it has the same fingerprint, and "mismatch" if it has another.
  pub claim_exclusive :
      (key f : String) (now until : ℕ) (m : Records B) (cs : List (Call B))
      → (claim config now key f m).0 ≡ claimed
      → until ≤ now + config.ttl_ms
      → until ≤ suc (now + config.in_progress_ttl_ms)
      → All (LeavesAlone key until) cs
      → All
          (λ a. (a.0 ≡ f → a.1 ≡ in_progress) × (a.0 ≢ f → a.1 ≡ mismatch))
          (answers key cs (claim config now key f m).1)
  claim_exclusive key f now until m cs granted fits fresh alone =
      answers-IsAnswered key until cs _ (fresh_record config now f)
        (claim-lookup key f now m granted) fits (λ _. fresh) alone

  -- Once the holder of a claim has completed it, every later claim of the key before it expires is
  -- answered by the status and body that were stored, if its fingerprint is the same, and
  -- "mismatch" if not; what others did before and after is arbitrary but for the key's own record.
  pub complete_replays :
      (key f : String) (now until s : ℕ) (b : Option B) (m : Records B)
      (before after : List (Call B))
      → (claim config now key f m).0 ≡ claimed
      → until ≤ now + config.ttl_ms
      → until ≤ suc (now + config.in_progress_ttl_ms)
      → All (LeavesAlone key until) before
      → All (LeavesAlone key (now + config.ttl_ms)) after
      → All
          (λ a. (a.0 ≡ f → a.1 ≡ replay s b) × (a.0 ≢ f → a.1 ≡ mismatch))
          (answers key after (complete config key s b (run before (claim config now key f m).1)))
  unfolding complete
  complete_replays key f now until s b m before after granted fits fresh alone alone' =
      let held =
        run-lookup key until before _ (fresh_record config now f) (claim-lookup key f now m granted)
          fits (λ _. fresh) alone in
      answers-IsAnswered key (now + config.ttl_ms) after _
        (record (fresh_record config now f) { state = completed; status = some s; body = b })
        (rw (held, complete) (lookup-insert_self key _ _)) (omega arith) (λ e. cc e) alone'
