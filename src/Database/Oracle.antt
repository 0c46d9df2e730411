-- ===== src/Database/Oracle.antt =====
-- src/infrastructure/database/clients/oracle.client.ts: how a call borrows a connection, sets its
-- context user and gives it back. The driver is `oracledb`: `client_id` is what the program wrote to
-- `connection.clientId`, and `session_id` is what the database knows, which each round trip updates.
pub mod Errors
pub mod Truncate
pub mod Identity
pub mod Queries
use nestjs_ddd.Prelude.{
  ℕ, ◌+◌, Bool, true, false, not, ◌&&◌, Option, none, some, String, List, [], ◌∷◌, ◌++◌, ltb, ◌==◌,
  str_eq, or_else, if◌then◌else◌,
}
use nestjs_ddd.Shared.Outcome.{Result, ok, err}
use nestjs_ddd.Database.Oracle.Errors.{Thrown, connection_failed, unauthorized, map_oracle_error}
use nestjs_ddd.Database.Oracle.Truncate.{truncate_bytes, trim}

-- How a transaction ended, or was to be ended.
pub data TransactionEnd : Type 0 where
  committed rolled_back rollback_failed : TransactionEnd

pub record Connection : Type 0 where
  pub client_id : String
  pub session_id : String
  pub call_timeout : ℕ
  pub ends : List TransactionEnd

pub record OracleSourceConfig : Type 0 where
  pub key : String
  pub call_timeout_ms : ℕ
  pub pool_ping_timeout_ms : ℕ
  pub context_enabled : Bool
  pub context_required : Bool
  pub context_max_length : ℕ

pub record ConnectionOptions : Type 0 where
  pub context_user : Option String
  pub username : Option String
  pub option_timeout_ms : Option ℕ
  pub tag : Option String

-- What the driver does in one call: the connection that `getConnection` gives or its error, whether
-- the `ping` and the `close` of `release` succeed, the error of `commit`, and whether `rollback` works.
pub record Driver : Type 0 where
  pub get_connection : Result Connection Thrown
  pub ping_ok : Bool
  pub close_ok : Bool
  pub commit_error : Option Thrown
  pub rollback_ok : Bool

-- Where a borrowed connection ends: back in the pool, closed, or unknown when `close` throws.
pub data Returned : Type 0 where
  not_borrowed dropped lost : Returned
  pooled : Connection → Returned

-- A round trip carries the client id to the session.
abbrev pub round_trip : Connection → Connection
round_trip c = record c { session_id = c.client_id }

module _ (source : OracleSourceConfig) where
  -- `resolveContextUser`
  unfoldable pub resolve_context_user : ConnectionOptions → Result (Option String) Thrown
  resolve_context_user o =
      let raw = trim (or_else o.context_user (or_else o.username "")) in
      if not source.context_enabled
      then ok none
      else if str_eq raw ""
      then (if source.context_required then err (unauthorized source.key) else ok none)
      else ok (some (truncate_bytes raw source.context_max_length))

  -- `!!contextUser`
  abbrev pub is_set : Option String → Bool
  is_set none = false
  is_set (some u) = not (str_eq u "")

  -- The connection as `fn` gets it.
  unfoldable pub prepare : Option String → ConnectionOptions → Connection → Connection
  prepare user o c =
      let timeout = or_else o.option_timeout_ms source.call_timeout_ms in
      let c' = if ltb 0 timeout then record c { call_timeout = timeout } else c in
      if is_set user then record c' { client_id = or_else user "" } else c'

  -- `release`
  unfoldable pub release : Driver → Bool → Connection → Returned
  release driver clear_context c =
      let cleared = record c {
        client_id = "";
        call_timeout =
            if source.pool_ping_timeout_ms == 0 then 5000 else source.pool_ping_timeout_ms;
      } in
      let c' =
        if clear_context then (if driver.ping_ok then round_trip cleared else cleared) else c in
      let drop = clear_context && not driver.ping_ok in
      if not driver.close_ok
      then lost
      else if drop
      then dropped
      else pooled (record c' { call_timeout = source.call_timeout_ms })

  roll_back : Driver → Connection → Connection
  roll_back driver c =
      if driver.rollback_ok
      then record (round_trip c) { ends = c.ends ++ rolled_back ∷ [] }
      else record c { ends = c.ends ++ rollback_failed ∷ [] }

  module _ {T : Type 0} where
    unfoldable pub with_connection :
        Driver
        → ConnectionOptions
        → (Connection → Result T Thrown × Connection)
        → Result T Thrown × Returned
    with_connection driver o fn = elim (resolve_context_user o) [
      | err e ↦ (err e, not_borrowed)
      | ok user ↦ elim driver.get_connection [
        | err e ↦ (err (connection_failed source.key e), not_borrowed)
        | ok c ↦
            let (result, c') = fn (prepare user o c) in
            (
              elim result [ ok v ↦ ok v | err e ↦ err (map_oracle_error source.key o.tag e) ],
              release driver (is_set user) c',
            )
      ]
    ]

    -- The function that `transaction` hands to `withConnection`.
    unfoldable pub in_transaction :
        Driver
        → (Connection → Result T Thrown × Connection)
        → Connection
        → Result T Thrown × Connection
    unfolding roll_back
    in_transaction driver fn c =
        let (result, c') = fn c in
        elim result [
          | err e ↦ (err e, roll_back driver c')
          | ok v ↦ elim driver.commit_error [
            | some e ↦ (err e, roll_back driver c')
            | none ↦ (ok v, record (round_trip c') { ends = c'.ends ++ committed ∷ [] })
          ]
        ]

    unfoldable pub transaction :
        Driver
        → ConnectionOptions
        → (Connection → Result T Thrown × Connection)
        → Result T Thrown × Returned
    transaction driver o fn = with_connection driver o (in_transaction driver fn)
