-- ===== src/Database/Oracle/Identity.antt =====
-- The context user of a call (src/infrastructure/database/clients/oracle.client.ts) and the end of its
-- transaction.
use nestjs_ddd.Prelude.{
  ◌≡◌, ◌↔◌, refl, ◌⊎◌, inl, inr, Bool, true, false, Option, none, String, [], ◌∷◌, ◌++◌, arith,
  if◌then◌else◌,
}
use nestjs_ddd.Shared.Outcome.{Result, ok, err, is_ok}
use nestjs_ddd.Database.Oracle.Errors.{Thrown}
use nestjs_ddd.Database.Oracle.{
  Connection, OracleSourceConfig, ConnectionOptions, Driver, pooled, committed, rolled_back,
  rollback_failed, resolve_context_user, is_set, prepare, release, with_connection, in_transaction,
}

-- No identity is left on a connection.
abbrev pub IsClean : Connection → Type 0
IsClean c = (c.client_id ≡ "") × (c.session_id ≡ "")

Result-cases : {T E : Type 0} (r : Result T E) → ((v : T) × (r ≡ ok v)) ⊎ ((e : E) × (r ≡ err e))
Result-cases (ok v) = inl (v, refl)
Result-cases (err e) = inr (e, refl)

release-IsClean :
    (source : OracleSourceConfig) (driver : Driver) (clear_context : Bool) (c c' : Connection)
    → (clear_context ≡ false → IsClean c)
    → release source driver clear_context c ≡ pooled c'
    → IsClean c' × (c'.call_timeout ≡ source.call_timeout_ms)
unfolding release
release-IsClean source driver true c c' clean e = ground arith
release-IsClean source driver false c c' clean e =
    let (client, session) = clean refl in ground arith

prepare-IsClean :
    (source : OracleSourceConfig) (user : Option String) (o : ConnectionOptions) (c : Connection)
    → is_set source user ≡ false
    → IsClean c
    → IsClean (prepare source user o c)
unfolding prepare
prepare-IsClean source user o c unset (client, session) = (ground arith, ground arith)

-- A connection that goes back into the pool carries no identity and has the timeout of its source,
-- whatever the call did with it and however it ended: only a call without a context user has to
-- leave the identity alone.
pub with_connection-IsClean :
    {T : Type 0} (source : OracleSourceConfig) (driver : Driver) (o : ConnectionOptions)
    (fn : Connection → Result T Thrown × Connection) (c c' : Connection)
    → driver.get_connection ≡ ok c
    → IsClean c
    → ((d : Connection) → IsClean d → IsClean (fn d).1)
    → (with_connection source driver o fn).1 ≡ pooled c'
    → IsClean c' × (c'.call_timeout ≡ source.call_timeout_ms)
unfolding with_connection
with_connection-IsClean source driver o fn c c' got clean keeps back =
    elim (Result-cases (resolve_context_user source o)) [
      | inr (e, refused) ↦ (let nothing = rw (refused, with_connection) at back in ground arith)
      | inl (user, resolved) ↦
          let returned = rw (resolved, got, with_connection) at back in
          release-IsClean source driver (is_set source user) (fn (prepare source user o c)).1 c'
            (λ unset. keeps (prepare source user o c) (prepare-IsClean source user o c unset clean))
            returned
    ]

-- A transaction that is run to its end is ended once: by a commit if and only if the work succeeded
-- and the commit did, which is also when the call succeeds, and by a rollback otherwise.
pub in_transaction-ends :
    {T : Type 0} (source : OracleSourceConfig) (driver : Driver)
    (fn : Connection → Result T Thrown × Connection) (c : Connection)
    → (((is_ok (fn c).0 ≡ true) × (driver.commit_error ≡ none))
        ↔ (is_ok (in_transaction source driver fn c).0 ≡ true))
      × ((in_transaction source driver fn c).1.ends
          ≡ (fn c).1.ends
            ++ (if is_ok (in_transaction source driver fn c).0
                then committed
                else if driver.rollback_ok
                then rolled_back
                else rollback_failed)
              ∷ [])
unfolding in_transaction is_ok
in_transaction-ends source driver fn c = ground arith
