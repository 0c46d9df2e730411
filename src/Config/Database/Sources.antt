-- ===== src/Config/Database/Sources.antt =====
-- The union of the sources and `databaseConfigSchema` (src/infrastructure/config/schemas/database.schema.ts).
use nestjs_ddd.Prelude.{
  ℕ, suc, Bool, ◌&&◌, Option, none, some, String, List, [], ◌∷◌, map, any, leb, length, ◌==◌,
  str_eq, if◌then◌else◌,
}
use nestjs_ddd.Shared.Values.{Value, string, object, Members, get}
use nestjs_ddd.Database.Pools.{Dialect, oracle, postgres, mysql, mariadb, mssql, sqlite}
use nestjs_ddd.Config.Fields.{
  record_field, text_field, from_field, optional, defaulted, ◌>>=◌, refined,
}
use nestjs_ddd.Config.Database.{Source, server_target, sqlite_target}
use nestjs_ddd.Config.Database.Oracle.{
  OracleOptions, oracle_target, oracle_files, oracle_pool, oracle_network, oracle_behaviour,
  context_field, oracle_refinements,
}
use nestjs_ddd.Config.Database.Parse.{parse_sources}

-- `new Set(keys).size`
unfoldable pub set_size : List String → ℕ
set_size [] = 0
set_size (k ∷ ks) =
    let rest = set_size ks in if any (λ other. str_eq other k) ks then rest else suc rest

abbrev pub keys_of : List Source → List String
keys_of sources = map (λ (s : Source). s.key) sources

-- `.min(1)` and the refinement of the keys.
abbrev pub list_refinements : List Source → Bool
list_refinements sources = leb 1 (length sources) && set_size (keys_of sources) == length sources

module _ (is_url : String → Bool) where
  unfoldable pub oracle_options : Members → Option OracleOptions
  oracle_options fs = do
    target ← oracle_target is_url fs
    files ← oracle_files fs
    pool ← oracle_pool fs
    network ← oracle_network fs
    behaviour ← oracle_behaviour fs
    context ← context_field (get "contextUser" fs)
    refined oracle_refinements (record {
      target = target;
      files = files;
      pool = pool;
      network = network;
      behaviour = behaviour;
      context_user = context;
    })

  -- `OracleSource`
  unfoldable pub oracle_source : Members → Option Source
  unfolding oracle_options
  oracle_source fs = do
    name ← text_field (get "key" fs)
    schema ← optional text_field (get "defaultSchema" fs)
    more ← optional record_field (get "extra" fs)
    options ← oracle_options fs
    some (record { key = name; dialect = oracle; default_schema = schema; options = some options })

  -- A source of another dialect: `BaseSource` with its target.
  unfoldable pub other_source : Dialect → (Members → Option Bool) → Members → Option Source
  other_source kind target fs = do
    name ← text_field (get "key" fs)
    low ← defaulted (from_field 0) 0 (get "poolMin" fs)
    high ← defaulted (from_field 1) 10 (get "poolMax" fs)
    schema ← optional text_field (get "defaultSchema" fs)
    more ← optional record_field (get "extra" fs)
    has_target ← target fs
    some (record { key = name; dialect = kind; default_schema = schema; options = none })

  -- `z.discriminatedUnion('dialect', …)`
  unfoldable pub source_by : Value → Members → Option Source
  unfolding oracle_source other_source
  source_by (string d) fs =
      if str_eq d "oracle"
      then oracle_source fs
      else if str_eq d "postgres"
      then other_source postgres (server_target is_url "ssl") fs
      else if str_eq d "mysql"
      then other_source mysql (server_target is_url "ssl") fs
      else if str_eq d "mariadb"
      then other_source mariadb (server_target is_url "ssl") fs
      else if str_eq d "mssql"
      then other_source mssql (server_target is_url "encrypt") fs
      else if str_eq d "sqlite"
      then other_source sqlite (sqlite_target is_url) fs
      else none
  source_by v fs = none

  abbrev pub source_of : Value → Option Source
  source_of (object fs) = source_by (get "dialect" fs) fs
  source_of v = none

  -- `z.array(…)`
  unfoldable pub all_sources : List Value → Option (List Source)
  unfolding source_by
  all_sources [] = some []
  all_sources (v ∷ vs) = do source ← source_of v; others ← all_sources vs; some (source ∷ others)

  -- `sources` of `databaseConfigSchema`, on what `parseJson` returns.
  unfoldable pub database_sources : (String → Option String) → Option Value → Option (List Source)
  unfolding all_sources set_size
  database_sources env parsed = do
    values ← parse_sources env parsed
    sources ← all_sources values
    refined list_refinements sources
