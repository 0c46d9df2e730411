-- ===== src/Idempotency/Oracle/Agreement.antt =====
-- The two idempotency stores (src/infrastructure/database/idempotency) answer alike.
use nestjs_ddd.Prelude.{
  ℕ, ◌≤◌, ◌<◌, ◌≡◌, ◌≢◌, inl, inr, Option, none, some, String, lookup, lookup-insert_self,
  lookup-erase_self, or_else, arith, leb, eq_iff, count_if, Option-cases, Bool-cases, leb→le, ◌++◌,
  ◌∷◌, ◌∙◌,
}
use nestjs_ddd.Idempotency.Port.{claimed, replay}
use nestjs_ddd.Idempotency.Memory as Memory
use nestjs_ddd.Idempotency.Memory.{
  ClaimRecord, Records, IdempotencyConfig, fresh_record, pending, completed,
}
use nestjs_ddd.Idempotency.Oracle.{
  ClaimRow, Table, Claimed, committed, unique_violation, purge, claim, complete, release, fresh_row,
}
use nestjs_ddd.Idempotency.Oracle.Shape.{
  UniqueKeys, is_expired, lookup-purge_absent, lookup-purge_live, lookup-purge_expired,
  lookup-purge_beyond, lookup_first,
}

abbrev pub table_of : {B : Type 0} → Claimed B → Table
table_of (committed outcome t) = t
table_of (unique_violation t) = t

module _ {B : Type 0} (stringify : B → String) where
  -- The row that stands for a record of the in-memory store.
  abbrev pub to_row : ClaimRecord B → ClaimRow
  to_row r = record {
    fingerprint = r.fingerprint;
    state = r.state;
    status = r.status;
    response_body = elim r.body [ none ↦ none | some b ↦ some (stringify b) ];
    created_at = r.claimed_at;
    expires_at = r.expires_at;
  }

  abbrev pub image : Option (ClaimRecord B) → Option ClaimRow
  image none = none
  image (some r) = some (to_row r)

  -- The key has the same content in both stores.
  abbrev pub SameAt : String → Records B → Table → Type 0
  SameAt key m t = lookup key t ≡ image (lookup key m)

module _ {B : Type 0} (stringify : B → String) (parse : String → B)
    (config : IdempotencyConfig) where
  -- With one clock, and nobody else between its statements.
  abbrev pub claim_alone : ℕ → String → String → Table → Claimed B
  claim_alone now key f t = claim stringify parse config now now now key f (λ x. x) (λ x. x) t

  abbrev pub Agree : ℕ → String → String → Records B → Table → Type 0
  Agree now key f m t =
      (claim_alone now key f t
        ≡ committed (Memory.claim config now key f m).0 (table_of (claim_alone now key f t)))
      × SameAt stringify key (Memory.claim config now key f m).1
          (table_of (claim_alone now key f t))

  Agree-absent :
      (now : ℕ) (key f : String) (m : Records B) (t : Table)
      → lookup key m ≡ none
      → lookup key (purge now 100 t) ≡ none
      → Agree now key f m t
  unfolding claim Memory.claim
  Agree-absent now key f m t e p = ground (
    arith,
    lookup-insert_self key (fresh_record config now f) m,
    lookup-insert_self key (fresh_row stringify parse config now f) (purge now 100 t),
  )

  Agree-expired :
      (now : ℕ) (key f : String) (m : Records B) (t : Table) (r : ClaimRecord B)
      → lookup key m ≡ some r
      → r.expires_at ≤ now
      → lookup key (purge now 100 t) ≡ none
      → Agree now key f m t
  unfolding claim Memory.claim
  Agree-expired now key f m t r e gone p = ground (
    arith,
    lookup-insert_self key (fresh_record config now f) m,
    lookup-insert_self key (fresh_row stringify parse config now f) (purge now 100 t),
  )

  Agree-live :
      (now : ℕ) (key f : String) (m : Records B) (t : Table) (r : ClaimRecord B)
      → ((b : B) → r.body ≡ some b → parse (stringify b) ≡ b)
      → lookup key m ≡ some r
      → now < r.expires_at
      → lookup key (purge now 100 t) ≡ some (to_row stringify r)
      → Agree now key f m t
  unfolding claim Memory.claim
  Agree-live now key f m t r round_trip e live p = elim (Option-cases r.body) [
    | inl empty ↦ ground (
      arith,
      lookup-insert_self key (fresh_record config now f) m,
      lookup-insert_self key (fresh_row stringify parse config now f) (purge now 100 t),
    )
    | inr (b, full) ↦ ground (
      arith,
      round_trip b full,
      lookup-insert_self key (fresh_record config now f) m,
      lookup-insert_self key (fresh_row stringify parse config now f) (purge now 100 t),
    )
  ]

  -- The Oracle store answers a claim as the in-memory store does, and the two agree on the key
  -- afterwards, if they agreed on it before, the body recorded for it, if any, is read back from its
  -- JSON text as it was, its record does not expire in this very millisecond, at most a hundred rows
  -- have expired, no key has two rows, the clocks agree and nobody else writes meanwhile.
  pub claim_agrees :
      (now : ℕ) (key f : String) (m : Records B) (t : Table)
      → ((r : ClaimRecord B) (b : B)
          → lookup key m ≡ some r
          → r.body ≡ some b
          → parse (stringify b) ≡ b)
      → SameAt stringify key m t
      → ((r : ClaimRecord B) → lookup key m ≡ some r → r.expires_at ≢ now)
      → UniqueKeys t
      → count_if (is_expired now) t ≤ 100
      → Agree now key f m t
  claim_agrees now key f m t round_trip same apart u few = elim (Option-cases (lookup key m)) [
    | inl e ↦ Agree-absent now key f m t e (lookup-purge_absent now 100 key t (rw e at same))
    | inr (r, e) ↦ elim (Bool-cases (leb r.expires_at now)) [
      | inl over ↦ Agree-expired now key f m t r e (leb→le _ _ over) (
          lookup-purge_expired now 100 key t (to_row stringify r) u few (rw e at same)
            (omega (arith, leb→le r.expires_at now over, apart r e)))
      | inr live ↦
          Agree-live now key f m t r (λ b. round_trip r b e) e (ground arith)
            (lookup-purge_live now 100 key t (to_row stringify r) (rw e at same) (ground arith))
    ]
  ]

  -- Completing or releasing a key keeps the two stores in agreement on it.
  pub complete_release_agree :
      (key : String) (s : ℕ) (b : Option B) (m : Records B) (t : Table)
      → SameAt stringify key m t
      → SameAt stringify key
          (Memory.complete config key s b m)
          (complete stringify parse config key s b t)
        × SameAt stringify key (Memory.release config key m) (release stringify parse config key t)
  unfolding complete release Memory.complete Memory.release
  complete_release_agree key s b m t same = elim (Option-cases (lookup key m)) [
    | inl e ↦ ground (arith, lookup-erase_self key m, lookup-erase_self key t)
    | inr (r, e) ↦
        let done : ClaimRecord B = record r { state = completed; status = some s; body = b } in
        ground (
          arith,
          lookup-erase_self key m,
          lookup-erase_self key t,
          lookup-insert_self key done m,
          lookup-insert_self key (to_row stringify done) t,
        )
  ]

  -- The bound of a hundred rows in the purge shows. If that many expired rows stand before the row of
  -- a key in the order of the scan, an expired row that is completed outlives the purge, and a repeat of
  -- its request is answered from it, while the in-memory store, which holds the same record, grants
  -- the claim.
  pub expired_row_is_replayed :
      (now : ℕ) (key : String) (before after : Table) (m : Records B) (r : ClaimRecord B)
      → lookup key m ≡ some r
      → r.expires_at < now
      → r.state ≡ completed
      → lookup key before ≡ none
      → 100 ≤ count_if (is_expired now) before
      → (claim_alone now key r.fingerprint (before ++ (key, to_row stringify r) ∷ after)
          ≡ committed
              (replay (or_else r.status 200) (elim (to_row stringify r).response_body [
                | none ↦ none
                | some text ↦ some (parse text)
              ]))
              (purge now 100 (before ++ (key, to_row stringify r) ∷ after)))
        × ((Memory.claim config now key r.fingerprint m).0 ≡ claimed)
  unfolding claim Memory.claim
  expired_row_is_replayed now key before after m r e over is_done absent many =
      let left : lookup key (purge now 100 (before ++ (key, to_row stringify r) ∷ after))
          ≡ some (to_row stringify r) =
        lookup-purge_beyond now 100 key before ((key, to_row stringify r) ∷ after) absent many
        ∙ lookup_first key (to_row stringify r) after in
      (ground (arith, eq_iff r.fingerprint r.fingerprint), ground arith)
