-- ===== src/Config/Database/Opened.antt =====
-- What an accepted configuration means for the pools and the calls: database.schema.ts with
-- src/infrastructure/database/connection/pool.manager.ts and clients/oracle.client.ts.
use nestjs_ddd.Prelude.{
  ◌≡◌, ◌≤◌, refl, Bool, true, false, not, ◌&&◌, ◌||◌, Option, none, some, String, List, [], ◌∷◌,
  map, any, All, leb, length, ◌==◌, str_eq, eq_iff, eq_refl, lookup, lookup-insert, or_else, subst,
  sym, arith,
}
use nestjs_ddd.Shared.Values.{Value}
use nestjs_ddd.Shared.Outcome.{Result, ok}
use nestjs_ddd.Database.Oracle.Errors.{Thrown}
use nestjs_ddd.Database.Oracle.Truncate.{byte_length, truncate_bytes_lem, trim}
use nestjs_ddd.Database.Oracle.{OracleSourceConfig, ConnectionOptions, resolve_context_user}
use nestjs_ddd.Database.Pools.{
  DatabaseSource, PoolManager, has_source, is_oracle, init, get_dialect,
}
use nestjs_ddd.Database.Pools.Init.{added, init_add, init-keeps}
use nestjs_ddd.Config.Fields.{of-Ensures}
use nestjs_ddd.Config.Database.{Source}
use nestjs_ddd.Config.Database.Oracle.{OracleOptions}
use nestjs_ddd.Config.Database.Sources.{set_size, keys_of, database_sources}
use nestjs_ddd.Config.Database.Accepted.{
  FitIfGiven, OptionsFit, AllFit, Accepted, database_sources-Accepted,
}

-- No key stands twice.
abbrev pub distinct : List String → Bool
distinct [] = true
distinct (k ∷ ks) = not (any (λ other. str_eq other k) ks) && distinct ks

set_size-le : (ks : List String) → set_size ks ≤ length ks
unfolding set_size
set_size-le [] = omega arith
set_size-le (k ∷ ks) = ground (arith, set_size-le ks)

set_size-distinct : (ks : List String) → set_size ks == length ks ≡ true → distinct ks ≡ true
unfolding set_size
set_size-distinct [] h = refl
set_size-distinct (k ∷ ks) h = ground (arith, set_size-le ks, set_size-distinct ks)

length-keys_of : (sources : List Source) → length (keys_of sources) ≡ length sources
length-keys_of [] = refl
length-keys_of (s ∷ sources) = ground (arith, length-keys_of sources)

-- A source as the pool manager takes it.
abbrev pub pool_source : Source → DatabaseSource
pool_source s = record { key = s.key; dialect = s.dialect; default_schema = s.default_schema }

-- A source that is there keeps its dialect.
init-keeps_meta :
    (refused : String → Option Thrown) (ss : List DatabaseSource) (m : PoolManager) (key : String)
    → has_source key m ≡ true
    → lookup key (init refused ss m).0.meta ≡ lookup key m.meta
unfolding init
init-keeps_meta refused [] m key e = refl
init-keeps_meta refused (s ∷ ss) m key e =
    let client = lookup-insert s.key key (is_oracle s.dialect) m.clients in
    let kept = lookup-insert s.key key (s.dialect, s.default_schema) m.meta in
    ground (
      arith,
      client,
      kept,
      eq_iff s.key key,
      init-keeps_meta refused ss m key e,
      init-keeps_meta refused ss (added s m) key,
    )

has_source-added :
    (s : DatabaseSource) (m : PoolManager) (key : String)
    → has_source key (added s m) ≡ str_eq s.key key || has_source key m
has_source-added s m key = ground (arith, lookup-insert s.key key (is_oracle s.dialect) m.clients)

-- The sources are not in the manager.
abbrev Absent : PoolManager → List Source → Type 0
Absent m sources = All (λ (s : Source). has_source s.key m ≡ false) sources

Absent-added :
    (s : Source) (m : PoolManager) (sources : List Source)
    → any (λ other. str_eq other s.key) (keys_of sources) ≡ false
    → Absent m sources
    → Absent (added (pool_source s) m) sources
Absent-added s m [] new absent = tt
Absent-added s m (t ∷ sources) new (here, absent) = (
  ground (arith, has_source-added (pool_source s) m t.key, eq_iff s.key t.key, eq_iff t.key s.key),
  Absent-added s m sources (ground arith) absent,
)

-- Each source has a client, which is an implemented one if it is an Oracle source and a placeholder
-- if it is not, and is known by its dialect.
abbrev pub IsOpen : PoolManager → Source → Type 0
IsOpen m s =
    (lookup s.key m.clients ≡ some (is_oracle s.dialect)) × (get_dialect s.key m ≡ ok s.dialect)

abbrev pub Opened : List Source → PoolManager → Type 0
Opened sources m = All (IsOpen m) sources

head_opened :
    (refused : String → Option Thrown) (s : Source) (ss : List DatabaseSource) (m : PoolManager)
    → IsOpen (init refused ss (added (pool_source s) m)).0 s
unfolding get_dialect
head_opened refused s ss m =
    let there : has_source s.key (added (pool_source s) m) ≡ true =
      ground (arith, has_source-added (pool_source s) m s.key, eq_refl s.key) in
    let client : lookup s.key (added (pool_source s) m).clients ≡ some (is_oracle s.dialect) =
      ground (arith, lookup-insert s.key s.key (is_oracle s.dialect) m.clients, eq_refl s.key) in
    (
      init-keeps refused ss (added (pool_source s) m) s.key (is_oracle s.dialect) client,
      ground (
        arith,
        init-keeps_meta refused ss (added (pool_source s) m) s.key there,
        lookup-insert s.key s.key (s.dialect, s.default_schema) m.meta,
        eq_refl s.key,
      ),
    )

init-Opened :
    (refused : String → Option Thrown) (sources : List Source) (m : PoolManager)
    → distinct (keys_of sources) ≡ true
    → Absent m sources
    → (init refused (map pool_source sources) m).1 ≡ none
    → Opened sources (init refused (map pool_source sources) m).0
init-Opened refused [] m apart absent fine = tt
init-Opened refused (s ∷ sources) m apart (here, absent) fine =
    let add = init_add refused (pool_source s) (map pool_source sources) m here fine in
    let new : any (λ other. str_eq other s.key) (keys_of sources) ≡ false = ground arith in
    subst (λ (r : PoolManager × Option Thrown). Opened (s ∷ sources) r.0) (sym add)
      (
        head_opened refused s (map pool_source sources) m,
        init-Opened refused sources (added (pool_source s) m) (ground arith)
            (Absent-added s m sources new absent) (rw add at fine),
      )

abbrev pub no_pools : PoolManager
no_pools = record { clients = []; meta = [] }

Absent-no_pools : (sources : List Source) → Absent no_pools sources
unfolding lookup
Absent-no_pools [] = tt
Absent-no_pools (s ∷ sources) = (refl, Absent-no_pools sources)

-- When a configuration is accepted and the set-up of the pools succeeds, every source of the
-- configuration has a client under its key, an implemented one for an Oracle source and a placeholder
-- for any other, and the dialect that the configuration gives it: no source is skipped, as the set-up
-- would do for a key that is there.
pub database_sources-Opened :
    (is_url : String → Bool) (env : String → Option String) (parsed : Option Value)
    (refused : String → Option Thrown) (sources : List Source)
    → database_sources is_url env parsed ≡ some sources
    → (init refused (map pool_source sources) no_pools).1 ≡ none
    → Opened sources (init refused (map pool_source sources) no_pools).0
database_sources-Opened is_url env parsed refused sources accepted fine =
    let (refinements, fit) =
      of-Ensures Accepted (database_sources is_url env parsed) sources accepted
        (database_sources-Accepted is_url env parsed) in
    let keys : distinct (keys_of sources) ≡ true =
      set_size-distinct (keys_of sources) (ground (arith, length-keys_of sources)) in
    init-Opened refused sources no_pools keys (Absent-no_pools sources) fine

-- The settings of an Oracle source that its client reads.
abbrev pub oracle_config : Source → OracleOptions → OracleSourceConfig
oracle_config s o = record {
  key = s.key;
  call_timeout_ms = o.network.call_timeout_ms;
  pool_ping_timeout_ms = o.pool.pool_ping_timeout_ms;
  context_enabled = o.context_user.enabled;
  context_required = o.context_user.required;
  context_max_length = o.context_user.max_length;
}

-- The identifier of the client has at most 64 bytes.
abbrev pub identifier_fits : Result (Option String) Thrown → Bool
identifier_fits (ok (some user)) = leb (byte_length user) 64
identifier_fits _ = true

abbrev pub IdentifierFits : Source → ConnectionOptions → Option OracleOptions → Type 0
IdentifierFits s call none = Unit
IdentifierFits s call (some o) =
    identifier_fits (resolve_context_user (oracle_config s o) call) ≡ true

-- For every Oracle source, and the user that a call passes.
abbrev pub IdentifiersFit : List Source → ConnectionOptions → Type 0
IdentifiersFit sources call = All (λ (s : Source). IdentifierFits s call s.options) sources

identifier_fits_lem :
    (s : Source) (o : OracleOptions) (call : ConnectionOptions)
    → OptionsFit o
    → identifier_fits (resolve_context_user (oracle_config s o) call) ≡ true
unfolding resolve_context_user
identifier_fits_lem s o call (refinements, (low, high)) =
    let raw = trim (or_else call.context_user (or_else call.username "")) in
    ground (arith, (truncate_bytes_lem raw o.context_user.max_length).0)

FitIfGiven-IdentifierFits :
    (s : Source) (call : ConnectionOptions) (options : Option OracleOptions)
    → FitIfGiven options
    → IdentifierFits s call options
FitIfGiven-IdentifierFits s call none fit = tt
FitIfGiven-IdentifierFits s call (some o) fit = identifier_fits_lem s o call fit

AllFit-IdentifiersFit :
    (sources : List Source) (call : ConnectionOptions)
    → AllFit sources
    → IdentifiersFit sources call
AllFit-IdentifiersFit [] call fit = tt
AllFit-IdentifiersFit (s ∷ sources) call (here, fit) =
    (FitIfGiven-IdentifierFits s call s.options here, AllFit-IdentifiersFit sources call fit)

-- In a configuration that is accepted, whatever user a call passes to whatever Oracle source, the
-- identifier that the client sets on the connection has at most the 64 bytes that the database takes.
pub database_sources-IdentifiersFit :
    (is_url : String → Bool) (env : String → Option String) (parsed : Option Value)
    (sources : List Source) (call : ConnectionOptions)
    → database_sources is_url env parsed ≡ some sources
    → IdentifiersFit sources call
database_sources-IdentifiersFit is_url env parsed sources call accepted =
    let (refinements, fit) =
      of-Ensures Accepted (database_sources is_url env parsed) sources accepted
        (database_sources-Accepted is_url env parsed) in
    AllFit-IdentifiersFit sources call fit
