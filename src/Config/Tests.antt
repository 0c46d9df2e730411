-- ===== src/Config/Tests.antt =====
-- The theorems on configurations at concrete environments.
use nestjs_ddd.Prelude.{
  ◌≡◌, refl, Bool, true, false, Option, none, some, String, List, [], ◌∷◌, map, All, lookup, insert,
  str_eq, if◌then◌else◌,
}
use nestjs_ddd.Shared.Correlation.{codes}
use nestjs_ddd.Shared.Text.{Text, trim}
use nestjs_ddd.Shared.Trace.{skip_spaces, drop_spaces_after}
use nestjs_ddd.Shared.Values.{
  Value, string, number, array, object, Members, no_members, member, no_elements, element,
}
use nestjs_ddd.Database.Oracle.{ConnectionOptions}
use nestjs_ddd.Database.Pools.{oracle, postgres, init}
use nestjs_ddd.Config.Env.Items.{IsItem}
use nestjs_ddd.Config.Env.{env_list}
use nestjs_ddd.Config.Env.Items.{joined, env_list-joined}
use nestjs_ddd.Config.Fields.{text_field, any_text, from_field, refined, ◌>>=◌}
use nestjs_ddd.Config.Database.{Source, server_target}
use nestjs_ddd.Config.Database.Oracle.{
  OracleOptions, oracle_target, oracle_files, oracle_pool, oracle_network, oracle_behaviour,
  context_field, has_oracle_target, oracle_files,
}
use nestjs_ddd.Config.Database.Parse.{parse_sources}
use nestjs_ddd.Config.Database.Sources.{database_sources}
use nestjs_ddd.Config.Database.Opened.{
  pool_source, no_pools, Opened, IdentifiersFit, database_sources-Opened,
  database_sources-IdentifiersFit,
}

abbrev env : String → Option String
env name = if str_eq name "CORE_DB_PASSWORD" then some "s3cret" else none

abbrev no_url : String → Bool
no_url s = false

abbrev oracle_json : Members
oracle_json = member "key" (string "core") (
    member "dialect" (string "oracle") (
      member "connectString" (string "db:1521/core") (
        member "user" (string "app")
          (member "passwordEnv" (string "CORE_DB_PASSWORD") no_members))))

abbrev postgres_json : Members
postgres_json = member "key" (string "reports") (
    member "dialect" (string "postgres") (
      member "host" (string "pg") (
        member "port" (number 5432) (
          member "database" (string "r")
            (member "user" (string "u") (member "password" (string "p") no_members))))))

-- `DATABASE_CONFIG_JSON`, with a secret that the environment holds.
abbrev parsed : Option Value
parsed = some (array (element (object oracle_json) (element (object postgres_json) no_elements)))

abbrev oracle_options : OracleOptions
oracle_options = record {
  target = record {
    connection_url = none;
    connect_string = some "db:1521/core";
    user = some "app";
    password = some "s3cret";
    external_auth = false;
  };
  files = record {
    edition = none;
    config_dir = none;
    wallet_location = none;
    wallet_password = none;
    ssl_server_dn_match = none;
    https_proxy = none;
    https_proxy_port = none;
  };
  pool = record {
    pool_min = 2;
    pool_max = 10;
    pool_increment = 1;
    pool_timeout_sec = 60;
    pool_max_lifetime_session_sec = 0;
    pool_ping_interval_sec = 60;
    pool_ping_timeout_ms = 5000;
    queue_max = 500;
    queue_timeout_ms = 60000;
    stmt_cache_size = 30;
    enable_statistics = false;
    homogeneous = true;
    drain_time_sec = 10;
  };
  network = record {
    connect_timeout_sec = 20;
    expire_time_min = 0;
    retry_count = 0;
    retry_delay_sec = 1;
    call_timeout_ms = 0;
  };
  behaviour = record {
    fetch_array_size = 100;
    prefetch_rows = 2;
    max_rows = 0;
    out_format = "array";
    slow_query_ms = 1000;
    log_sql = false;
    health_query = "SELECT 1 FROM DUAL";
  };
  context_user = record { enabled = true; required = false; max_length = 64 };
}

abbrev sources : List Source
sources =
    record { key = "core"; dialect = oracle; default_schema = none; options = some oracle_options }
    ∷ record { key = "reports"; dialect = postgres; default_schema = none; options = none }
    ∷ []

accepted : database_sources no_url env parsed ≡ some sources
unfolding database_sources ◌>>=◌ parse_sources text_field oracle_target oracle_files oracle_pool
    oracle_network oracle_behaviour context_field refined has_oracle_target server_target any_text
    from_field
accepted = refl

opens : (init (λ key. none) (map pool_source sources) no_pools).1 ≡ none
unfolding init lookup insert
opens = refl

database_sources-Opened_example :
    Opened sources (init (λ key. none) (map pool_source sources) no_pools).0
database_sources-Opened_example =
    database_sources-Opened no_url env parsed (λ key. none) sources accepted opens

abbrev call : ConnectionOptions
call = record { context_user = some " ann "; username = none; option_timeout_ms = none; tag = none }

database_sources-IdentifiersFit_example : IdentifiersFit sources call
database_sources-IdentifiersFit_example =
    database_sources-IdentifiersFit no_url env parsed sources call accepted

abbrev item : Text
item = codes "https://b.example"

itemised : All IsItem (codes "https://a.example" ∷ item ∷ [])
unfolding trim skip_spaces drop_spaces_after
itemised = ((refl, refl, refl), ((refl, refl, refl), tt))

env_list-joined_example :
    env_list (some (joined (codes "https://a.example" ∷ item ∷ [])))
    ≡ some (codes "https://a.example" ∷ item ∷ [])
env_list-joined_example = env_list-joined (codes "https://a.example") (item ∷ []) itemised
