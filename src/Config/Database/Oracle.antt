-- ===== src/Config/Database/Oracle.antt =====
-- `OracleSource` of src/infrastructure/config/schemas/database.schema.ts, by what its fields are about.
use nestjs_ddd.Prelude.{
  ℕ, Bool, true, false, not, ◌&&◌, ◌||◌, Option, none, some, String, [], ◌∷◌, leb, str_eq,
}
use nestjs_ddd.Shared.Values.{Value, undefined, object, Members, get}
use nestjs_ddd.Config.Fields.{
  enum_field, text_field, url_field, flag_field, from_field, between_field, optional, defaulted,
  ◌>>=◌,
}

-- A text that is there and not empty: `!!text`, and the test of `hasAll`.
abbrev pub filled : Option String → Bool
filled none = false
filled (some s) = not (str_eq s "")

pub record OracleTarget : Type 0 where
  pub connection_url : Option String
  pub connect_string : Option String
  pub user : Option String
  pub password : Option String
  pub external_auth : Bool

pub record OracleFiles : Type 0 where
  pub edition : Option String
  pub config_dir : Option String
  pub wallet_location : Option String
  pub wallet_password : Option String
  pub ssl_server_dn_match : Option Bool
  pub https_proxy : Option String
  pub https_proxy_port : Option ℕ

pub record OraclePool : Type 0 where
  pub pool_min : ℕ
  pub pool_max : ℕ
  pub pool_increment : ℕ
  pub pool_timeout_sec : ℕ
  pub pool_max_lifetime_session_sec : ℕ
  pub pool_ping_interval_sec : ℕ
  pub pool_ping_timeout_ms : ℕ
  pub queue_max : ℕ
  pub queue_timeout_ms : ℕ
  pub stmt_cache_size : ℕ
  pub enable_statistics : Bool
  pub homogeneous : Bool
  pub drain_time_sec : ℕ

pub record OracleNetwork : Type 0 where
  pub connect_timeout_sec : ℕ
  pub expire_time_min : ℕ
  pub retry_count : ℕ
  pub retry_delay_sec : ℕ
  pub call_timeout_ms : ℕ

pub record OracleContextUser : Type 0 where
  pub enabled : Bool
  pub required : Bool
  pub max_length : ℕ

pub record OracleBehaviour : Type 0 where
  pub fetch_array_size : ℕ
  pub prefetch_rows : ℕ
  pub max_rows : ℕ
  pub out_format : String
  pub slow_query_ms : ℕ
  pub log_sql : Bool
  pub health_query : String

pub record OracleOptions : Type 0 where
  pub target : OracleTarget
  pub files : OracleFiles
  pub pool : OraclePool
  pub network : OracleNetwork
  pub behaviour : OracleBehaviour
  pub context_user : OracleContextUser

module _ (is_url : String → Bool) where
  unfoldable pub oracle_target : Members → Option OracleTarget
  oracle_target fs = do
    url ← optional (url_field is_url) (get "connectionUrl" fs)
    connect ← optional text_field (get "connectString" fs)
    name ← optional text_field (get "user" fs)
    secret ← optional text_field (get "password" fs)
    ref ← optional text_field (get "passwordEnv" fs)
    external ← defaulted flag_field false (get "externalAuth" fs)
    some (record {
      connection_url = url;
      connect_string = connect;
      user = name;
      password = secret;
      external_auth = external;
    })

unfoldable pub oracle_files : Members → Option OracleFiles
oracle_files fs = do
  edition ← optional text_field (get "edition" fs)
  directory ← optional text_field (get "configDir" fs)
  wallet ← optional text_field (get "walletLocation" fs)
  secret ← optional text_field (get "walletPassword" fs)
  ref ← optional text_field (get "walletPasswordEnv" fs)
  match ← optional flag_field (get "sslServerDNMatch" fs)
  proxy ← optional text_field (get "httpsProxy" fs)
  port ← optional (between_field 1 65535) (get "httpsProxyPort" fs)
  some (record {
    edition = edition;
    config_dir = directory;
    wallet_location = wallet;
    wallet_password = secret;
    ssl_server_dn_match = match;
    https_proxy = proxy;
    https_proxy_port = port;
  })

unfoldable pub oracle_pool : Members → Option OraclePool
oracle_pool fs = do
  low ← defaulted (from_field 0) 2 (get "poolMin" fs)
  high ← defaulted (from_field 1) 10 (get "poolMax" fs)
  step ← defaulted (from_field 0) 1 (get "poolIncrement" fs)
  idle ← defaulted (from_field 0) 60 (get "poolTimeoutSec" fs)
  lifetime ← defaulted (from_field 0) 0 (get "poolMaxLifetimeSessionSec" fs)
  interval ← defaulted (from_field 0) 60 (get "poolPingIntervalSec" fs)
  ping ← defaulted (from_field 0) 5000 (get "poolPingTimeoutMs" fs)
  waiting ← defaulted (from_field 0) 500 (get "queueMax" fs)
  queue ← defaulted (from_field 0) 60000 (get "queueTimeoutMs" fs)
  cache ← defaulted (from_field 0) 30 (get "stmtCacheSize" fs)
  statistics ← defaulted flag_field false (get "enableStatistics" fs)
  same ← defaulted flag_field true (get "homogeneous" fs)
  drain ← defaulted (from_field 0) 10 (get "drainTimeSec" fs)
  some (record {
    pool_min = low;
    pool_max = high;
    pool_increment = step;
    pool_timeout_sec = idle;
    pool_max_lifetime_session_sec = lifetime;
    pool_ping_interval_sec = interval;
    pool_ping_timeout_ms = ping;
    queue_max = waiting;
    queue_timeout_ms = queue;
    stmt_cache_size = cache;
    enable_statistics = statistics;
    homogeneous = same;
    drain_time_sec = drain;
  })

unfoldable pub oracle_network : Members → Option OracleNetwork
oracle_network fs = do
  connect ← defaulted (from_field 1) 20 (get "connectTimeoutSec" fs)
  expire ← defaulted (from_field 0) 0 (get "expireTimeMin" fs)
  retries ← defaulted (from_field 0) 0 (get "retryCount" fs)
  delay ← defaulted (from_field 0) 1 (get "retryDelaySec" fs)
  timeout ← defaulted (from_field 0) 0 (get "callTimeoutMs" fs)
  some (record {
    connect_timeout_sec = connect;
    expire_time_min = expire;
    retry_count = retries;
    retry_delay_sec = delay;
    call_timeout_ms = timeout;
  })

unfoldable pub oracle_behaviour : Members → Option OracleBehaviour
oracle_behaviour fs = do
  size ← defaulted (from_field 1) 100 (get "fetchArraySize" fs)
  prefetch ← defaulted (from_field 0) 2 (get "prefetchRows" fs)
  rows ← defaulted (from_field 0) 0 (get "maxRows" fs)
  format ← defaulted (enum_field ("array" ∷ "object" ∷ [])) "array" (get "outFormat" fs)
  slow ← defaulted (from_field 0) 1000 (get "slowQueryMs" fs)
  log ← defaulted flag_field false (get "logSql" fs)
  query ← defaulted text_field "SELECT 1 FROM DUAL" (get "healthQuery" fs)
  some (record {
    fetch_array_size = size;
    prefetch_rows = prefetch;
    max_rows = rows;
    out_format = format;
    slow_query_ms = slow;
    log_sql = log;
    health_query = query;
  })

-- `OracleContextUser`, of an object.
unfoldable pub context_members : Members → Option OracleContextUser
context_members fs = do
  on ← defaulted flag_field true (get "enabled" fs)
  must ← defaulted flag_field false (get "required" fs)
  longest ← defaulted (between_field 1 64) 64 (get "maxLength" fs)
  some (record { enabled = on; required = must; max_length = longest })

unfoldable pub context_field : Value → Option OracleContextUser
unfolding context_members
context_field undefined = some (record { enabled = true; required = false; max_length = 64 })
context_field (object fs) = context_members fs
context_field v = none

-- The refinements of `OracleSource`.
unfoldable pub has_oracle_target : OracleTarget → Bool
has_oracle_target t =
    filled t.connection_url
    || t.external_auth && filled t.connect_string
    || filled t.connect_string && filled t.user && filled t.password

abbrev pub oracle_refinements : OracleOptions → Bool
oracle_refinements o = has_oracle_target o.target && leb o.pool.pool_min o.pool.pool_max
