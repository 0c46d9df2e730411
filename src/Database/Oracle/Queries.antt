-- ===== src/Database/Oracle/Queries.antt =====
-- src/infrastructure/database/clients/oracle.client.ts: the `execute` of a borrowed connection, the ping
-- and the statistics of the pool. The texts of SQL are sequences of UTF-16 units here.
pub mod Pinged
use nestjs_ddd.Prelude.{
  ℕ, Bool, true, false, not, ◌&&◌, Option, none, some, String, List, [], ◌∷◌, zero, suc, ltb, leb,
  str_eq, if◌then◌else◌,
}
use nestjs_ddd.Shared.Outcome.{Result, ok, err}
use nestjs_ddd.Shared.Text.{Text, trim}
use nestjs_ddd.Shared.Values.{Members, spread}
use nestjs_ddd.Database.Oracle.Errors.{Thrown}
use nestjs_ddd.Database.Oracle.{
  OracleSourceConfig, ConnectionOptions, Connection, Driver, Returned, round_trip, with_connection,
}

-- `db.query.slow` with its text, if it has one, and `db.query`.
pub data QueryLog : Type 0 where
  slow_query : Option String → ℕ → Option Text → QueryLog
  query_done : Option String → ℕ → Text → QueryLog

pub record QuerySettings : Type 0 where
  pub defaults : Members
  pub slow_query_ms : ℕ
  pub log_sql : Bool

abbrev pub sql_log_max : ℕ
sql_log_max = 500

-- `slice(0, n)`
unfoldable pub take_units : ℕ → Text → Text
take_units zero t = []
take_units (suc n) [] = []
take_units (suc n) (c ∷ cs) = c ∷ take_units n cs

unfoldable pub shown_sql : Text → Text
unfolding take_units
shown_sql sql = take_units sql_log_max (trim sql)

-- What is logged when `execute` ends, whether it succeeds or not.
unfoldable pub log_query : QuerySettings → Option String → Text → ℕ → List QueryLog
unfolding shown_sql
log_query q tag sql latency_ms =
    if ltb 0 q.slow_query_ms && leb q.slow_query_ms latency_ms
    then slow_query tag latency_ms (if q.log_sql then some (shown_sql sql) else none) ∷ []
    else if q.log_sql
    then query_done tag latency_ms (shown_sql sql) ∷ []
    else []

-- `execute`: `run` is the driver's, of the options that it is called with; it takes `latency_ms`.
unfoldable pub execute :
    {T : Type 0}
    → QuerySettings
    → Option String
    → (Members → Result T Thrown)
    → Text
    → Members
    → (latency_ms : ℕ) → Result T Thrown × List QueryLog
unfolding log_query
execute q tag run sql options latency_ms =
    (run (spread q.defaults options), log_query q tag sql latency_ms)

-- What the pool reports.
pub record PoolCounters : Type 0 where
  pub connections_open : ℕ
  pub connections_in_use : ℕ
  pub pool_min : ℕ
  pub pool_max : ℕ

pub data PoolStats : Type 0 where
  counters : PoolCounters → PoolStats
  statistics : Members → PoolStats

unfoldable pub stats : (enable_statistics : Bool) → PoolCounters → Members → PoolStats
stats enable_statistics pool reported =
    if not enable_statistics then counters pool else statistics reported

-- The round trip of a ping: `connection.ping()`, or the health query of the source.
pub data PingCall : Type 0 where
  ping_call : PingCall
  query_call : String → PingCall

unfoldable pub ping_by : (health_query : String) → PingCall
ping_by health_query =
    if str_eq health_query "SELECT 1 FROM DUAL" then ping_call else query_call health_query

abbrev pub answer_trip : Result Unit Thrown → Connection → Result Unit Thrown × Connection
answer_trip (ok done) c = (ok tt, round_trip c)
answer_trip (err e) c = (err e, c)

abbrev pub ping_options : ℕ → ConnectionOptions
ping_options timeout_ms = record {
  context_user = none;
  username = none;
  option_timeout_ms = some timeout_ms;
  tag = some "ping";
}

-- `ping`, where `trip` is what the driver answers to the round trip.
unfoldable pub ping :
    OracleSourceConfig
    → Driver
    → (trip : PingCall → Result Unit Thrown) → (health_query : String) → (timeout_ms : ℕ)
    → Result Unit Thrown × Returned
unfolding ping_by
ping source driver trip health_query timeout_ms =
    with_connection source driver (ping_options timeout_ms)
      (answer_trip (trip (ping_by health_query)))
