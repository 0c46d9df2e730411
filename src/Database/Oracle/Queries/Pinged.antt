-- ===== src/Database/Oracle/Queries/Pinged.antt =====
-- When a ping succeeds (`OracleClient.ping` in src/infrastructure/database/clients/oracle.client.ts).
use nestjs_ddd.Prelude.{
  ℕ, ◌≡◌, refl, true, not, ◌&&◌, none, String, if◌then◌else◌, arith, ap, ◌∙◌, Bool-cases, inl, inr,
}
use nestjs_ddd.Shared.Outcome.{Result, ok, err, is_ok}
use nestjs_ddd.Database.Oracle.Errors.{Thrown, unauthorized}
use nestjs_ddd.Database.Oracle.Truncate.{trim}
use nestjs_ddd.Database.Oracle.{
  OracleSourceConfig, ConnectionOptions, Connection, Driver, not_borrowed, resolve_context_user,
  with_connection,
}
use nestjs_ddd.Database.Oracle.Queries.{PingCall, ping_by, ping, ping_options, answer_trip}

-- A ping names no user.
resolved :
    (source : OracleSourceConfig) (timeout_ms : ℕ)
    → resolve_context_user source (ping_options timeout_ms) ≡ (
        if source.context_enabled && source.context_required
        then err (unauthorized source.key)
        else ok none)
unfolding resolve_context_user trim
resolved source timeout_ms = ground arith

module _ (source : OracleSourceConfig) (driver : Driver) where
  -- A call that is let through by the context user ends as its function does, if there is a connection.
  let_through :
      (o : ConnectionOptions) (t : Result Unit Thrown) (g : Result Connection Thrown)
      → resolve_context_user source o ≡ ok none
      → driver.get_connection ≡ g
      → is_ok (with_connection source driver o (answer_trip t)).0 ≡ is_ok g && is_ok t
  unfolding with_connection is_ok
  let_through o (ok done) (ok c) u e = ground arith
  let_through o (err f) (ok c) u e = ground arith
  let_through o t (err f) u e = ground arith

  kept_out :
      (o : ConnectionOptions) (t : Result Unit Thrown) (f : Thrown)
      → resolve_context_user source o ≡ err f
      → with_connection source driver o (answer_trip t) ≡ (err f, not_borrowed)
  unfolding with_connection
  kept_out o t f u = ground arith

-- A ping of a source whose context user is on and required is refused before a connection is borrowed,
-- whatever the database answers; of any other source it succeeds exactly if a connection is got from the
-- pool and the round trip succeeds.
pub ping-is_ok :
    (source : OracleSourceConfig) (driver : Driver) (trip : PingCall → Result Unit Thrown)
    (health_query : String) (timeout_ms : ℕ)
    → ((if source.context_enabled && source.context_required
          then ping source driver trip health_query timeout_ms
          else (err (unauthorized source.key), not_borrowed))
        ≡ (err (unauthorized source.key), not_borrowed))
      × (is_ok (ping source driver trip health_query timeout_ms).0
          ≡ not (source.context_enabled && source.context_required)
            && is_ok driver.get_connection
            && is_ok (trip (ping_by health_query)))
unfolding ping
ping-is_ok source driver trip health_query timeout_ms =
    let o = ping_options timeout_ms in
    let t = trip (ping_by health_query) in
    let stopped : source.context_enabled && source.context_required ≡ true
        → with_connection source driver o (answer_trip t)
          ≡ (err (unauthorized source.key), not_borrowed) =
      λ on. kept_out source driver o t (unauthorized source.key) (
        resolved source timeout_ms
        ∙ ap (λ b. if b then err (unauthorized source.key) else ok none) on) in
    elim (Bool-cases (source.context_enabled && source.context_required)) [
      | inl on ↦ rw on (stopped on, rw (stopped on) (unfold is_ok in refl))
      | inr off ↦ rw off (
        refl,
        let_through source driver o t driver.get_connection
            (resolved source timeout_ms
              ∙ ap (λ b. if b then err (unauthorized source.key) else ok none) off)
            refl,
      )
    ]
