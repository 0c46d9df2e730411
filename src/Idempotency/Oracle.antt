-- ===== src/Idempotency/Oracle.antt =====
-- src/infrastructure/database/idempotency/oracle-idempotency.store.ts. The table is an association
-- list from keys to rows: an INSERT of a key that is there fails by the unique constraint
-- (ORA-00001), as Oracle documents; UPDATE and DELETE by key change at most that row. The scan
-- order of the purge is the order of the list.
pub mod Agreement
pub mod Shape
use nestjs_ddd.Prelude.{
  ℕ, zero, suc, ◌+◌, ◌-◌, Bool, true, false, not, ◌&&◌, ◌||◌, Option, none, some, String, List, [],
  ◌∷◌, Map, lookup, insert, erase, ltb, leb, or_else, is_some, str_eq, if◌then◌else◌, all, length,
  ◌==◌,
}
use nestjs_ddd.Idempotency.Port.{ClaimOutcome, claimed, mismatch, in_progress, replay}
use nestjs_ddd.Idempotency.Memory.{ClaimState, pending, completed, IdempotencyConfig}

-- `SAFE_TABLE_NAME`, over the code points of the name.
abbrev pub is_letter : ℕ → Bool
is_letter c = leb b'A' c && leb c b'Z' || leb b'a' c && leb c b'z'

abbrev pub is_word : ℕ → Bool
is_word c = is_letter c || leb b'0' c && leb c b'9' || c == b'_'

unfoldable pub safe_table_name : List ℕ → Bool
safe_table_name [] = false
safe_table_name (c ∷ cs) = is_letter c && all is_word cs && leb (length cs) 29

pub record ClaimRow : Type 0 where
  pub fingerprint : String
  pub state : ClaimState
  pub status : Option ℕ
  pub response_body : Option String
  pub created_at : ℕ
  pub expires_at : ℕ

abbrev pub Table : Type 0
Table = Map ClaimRow

-- The end of a transaction: an outcome is committed; an error is thrown on, after a rollback.
pub data Claimed (B : Type 0) : Type 0 where
  committed : ClaimOutcome B → Table → Claimed B
  unique_violation : Table → Claimed B

-- `DELETE … WHERE expires_at < SYSTIMESTAMP AND ROWNUM <= n`
unfoldable pub purge : ℕ → ℕ → Table → Table
purge now zero t = t
purge now (suc n) [] = []
purge now (suc n) ((k, r) ∷ t) =
    let drop = purge now n t in
    let keep = (k, r) ∷ purge now (suc n) t in if ltb r.expires_at now then drop else keep

module _ {B : Type 0} (stringify : B → String) (parse : String → B)
    (config : IdempotencyConfig) where
  abbrev pub fresh_row : ℕ → String → ClaimRow
  fresh_row now fingerprint = record {
    fingerprint = fingerprint;
    state = pending;
    status = none;
    response_body = none;
    created_at = now;
    expires_at = now + config.ttl_ms;
  }

  -- The decision on a row that is there; `later` is the second reading of the clock.
  claim_row : ℕ → ℕ → String → String → Table → ClaimRow → ClaimState → Claimed B
  claim_row now later key fingerprint t r pending =
      if leb later (r.created_at + config.in_progress_ttl_ms)
      then committed in_progress t
      else committed claimed (insert key (fresh_row now fingerprint) t)
  claim_row now later key fingerprint t r completed =
      committed
        (replay (or_else r.status 200)
          (elim r.response_body [ none ↦ none | some text ↦ some (parse text) ]))
        t

  -- The second INSERT, after the conflicting row has gone.
  insert_again : ℕ → String → String → Table → Claimed B
  insert_again now key fingerprint t = elim (lookup key t) [
    | none ↦ committed claimed (insert key (fresh_row now fingerprint) t)
    | some r ↦ unique_violation t
  ]

  after_conflict : ℕ → ℕ → String → String → Table → Table → Claimed B
  unfolding claim_row insert_again
  after_conflict now later key fingerprint selected inserting = elim (lookup key selected) [
    | none ↦ insert_again now key fingerprint inserting
    | some r ↦
        if not (str_eq r.fingerprint fingerprint)
        then committed mismatch selected
        else claim_row now later key fingerprint selected r r.state
  ]

  -- `claim`: `system` is the database's clock, `now` and `later` the two readings of the
  -- process's. `others` is what other transactions commit between the INSERT and the SELECT, and
  -- `others'` what they commit between the SELECT and a second INSERT.
  unfoldable pub claim :
      ℕ → ℕ → ℕ → String → String → (Table → Table) → (Table → Table) → Table → Claimed B
  unfolding after_conflict
  claim system now later key fingerprint others others' t =
      let purged = purge system 100 t in
      elim (lookup key purged) [
        | none ↦ committed claimed (insert key (fresh_row now fingerprint) purged)
        | some r ↦
            after_conflict now later key fingerprint (others purged) (others' (others purged))
      ]

  unfoldable pub complete : String → ℕ → Option B → Table → Table
  complete key status body t = elim (lookup key t) [
    | none ↦ t
    | some r ↦
        insert key
          (record r {
            state = completed;
            status = some status;
            response_body = elim body [ none ↦ none | some b ↦ some (stringify b) ];
          })
          t
  ]

  unfoldable pub release : String → Table → Table
  release key t = erase key t
