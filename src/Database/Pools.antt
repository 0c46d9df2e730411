-- ===== src/Database/Pools.antt =====
-- src/infrastructure/database/connection/pool.manager.ts: the clients of the sources, their health
-- and their end.
pub mod Init
pub mod Ping
pub mod Joined
use nestjs_ddd.Prelude.{
  ℕ, zero, suc, ◌+◌, ◌*◌, ◌^◌, Bool, true, false, not, ◌&&◌, Option, none, some, String, List, [],
  ◌∷◌, ◌++◌, map, leb, ltb, keep, any, str_eq, is_some, Map, lookup, insert, if◌then◌else◌,
}
use nestjs_ddd.Database.Oracle.Errors.{Thrown, connection_failed, unknown_source_key}
use nestjs_ddd.Shared.Outcome.{Result, ok, err, map_ok}

pub data Dialect : Type 0 where
  oracle postgres mysql mariadb mssql sqlite : Dialect

abbrev pub is_oracle : Dialect → Bool
is_oracle oracle = true
is_oracle _ = false

pub record DatabaseSource : Type 0 where
  pub key : String
  pub dialect : Dialect
  pub default_schema : Option String

-- Of a `DatabaseClient`, whether it is implemented: an `OracleClient` or a `NotImplementedClient`.
pub record PoolManager : Type 0 where
  pub clients : Map Bool
  pub meta : Map (Dialect × Option String)

-- `hasSource`
abbrev pub has_source : String → PoolManager → Bool
has_source key m = is_some (lookup key m.clients)

-- `getDialect`
unfoldable pub get_dialect : String → PoolManager → Result Dialect Thrown
get_dialect key m = elim (lookup key m.meta) [
  | none ↦ err (unknown_source_key key)
  | some d ↦ ok d.0
]

abbrev pub with_meta : DatabaseSource → PoolManager → PoolManager
with_meta s m = record m { meta = insert s.key (s.dialect, s.default_schema) m.meta }

abbrev pub with_client : DatabaseSource → Bool → PoolManager → PoolManager
with_client s implemented m = record m { clients = insert s.key implemented m.clients }

-- `init`: `refused` is the error of `oracledb.createPool`, if it throws; what was set up stays.
unfoldable pub init :
    (String → Option Thrown) → List DatabaseSource → PoolManager → PoolManager × Option Thrown
init refused [] m = (m, none)
init refused (s ∷ ss) m =
    let skipped = init refused ss m in
    let added = init refused ss (with_client s (is_oracle s.dialect) (with_meta s m)) in
    if has_source s.key m
    then skipped
    else if is_oracle s.dialect
    then elim (refused s.key) [
      | some e ↦ (with_meta s m, some (connection_failed s.key e))
      | none ↦ added
    ]
    else added

-- `ping`, where `answers` is what the client of a source answers.
unfoldable pub ping_source :
    (String → Result Unit Thrown) → String → PoolManager → Result Bool Thrown
ping_source answers key m = elim (lookup key m.clients) [
  | none ↦ err (unknown_source_key key)
  | some implemented ↦ map_ok (λ done. true) (answers key)
]

-- `poolStats`: what the implemented clients report.
unfoldable pub pool_stats : {S : Type 0} → (String → S) → Map Bool → Map S
pool_stats stats [] = []
pool_stats stats ((key, implemented) ∷ rest) =
    let others = pool_stats stats rest in if implemented then (key, stats key) ∷ others else others

-- A ping of a source, or the delay before the next one.
pub data PingEvent : Type 0 where
  pinged : ℕ → PingEvent
  waited : ℕ → PingEvent

-- `expoBackoff`
abbrev pub expo_backoff : ℕ → ℕ → ℕ
expo_backoff attempt jitter = 2 ^ attempt * 200 + jitter

-- The `while` loop of `pingAll` for one source, with `left` attempts to go.
unfoldable pub ping_loop : (ℕ → Bool) → (ℕ → ℕ) → ℕ → ℕ → Bool × List PingEvent
ping_loop answers jitter zero attempt = (false, [])
ping_loop answers jitter (suc left) attempt =
    let (reached, es) = ping_loop answers jitter left (attempt + 1) in
    if answers attempt then (true, pinged (attempt + 1) ∷ []) else (
      reached,
      pinged (attempt + 1)
          ∷ (if ltb 0 left then waited (expo_backoff attempt (jitter attempt)) ∷ es else es),
    )

-- `reqSet.has(key)`
abbrev pub is_required : List String → Map Bool → String → Bool
is_required required clients key = elim required [
  | [] ↦ any (λ c. str_eq c.0 key && c.1) clients
  | r ∷ rs ↦ any (λ k. str_eq k key) (r ∷ rs)
]

-- Whether a source counts as a failure.
abbrev pub ping_fails :
    (String → ℕ → Bool) → (String → ℕ → ℕ) → ℕ → List String → Map Bool → String × Bool → Bool
ping_fails answers jitter retries required clients c =
    is_required required clients c.0
    && not (c.1 && (ping_loop (answers c.0) (jitter c.0) (retries + 1) 0).0)

-- `pingAll`: the sources that `AggregateDbHealthError` names; nothing is thrown if there is none.
-- The placeholders come first, then the pings, in the order of the sources.
unfoldable pub ping_all :
    (String → ℕ → Bool) → (String → ℕ → ℕ) → ℕ → List String → PoolManager → List String
unfolding ping_loop
ping_all answers jitter retries required m =
    let failing = keep (ping_fails answers jitter retries required m.clients) m.clients in
    map (λ c. c.0) (keep (λ c. not c.1) failing ++ keep (λ c. c.1) failing)

pub record SourceHealth : Type 0 where
  pub source_key : String
  pub implemented : Bool
  pub healthy : Bool

-- `health`, without the times: `answers` says which pings succeed.
unfoldable pub health : (String → Bool) → Map Bool → List SourceHealth
health answers [] = []
health answers ((key, client) ∷ rest) =
    record { source_key = key; implemented = client; healthy = client && answers key }
    ∷ health answers rest

pub data CloseEvent : Type 0 where
  pool_closed close_failed : String → CloseEvent

-- `onModuleDestroy`: every client is closed, whichever of them fail.
unfoldable pub on_module_destroy : (String → Bool) → PoolManager → PoolManager × List CloseEvent
on_module_destroy closes m = (
  record m { clients = [] },
  map (λ c. if closes c.0 then pool_closed c.0 else close_failed c.0) m.clients,
)
