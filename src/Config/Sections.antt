-- ===== src/Config/Sections.antt =====
-- The sections of src/infrastructure/config/load-config.ts that other parts of the model read: what
-- `hydrate` takes from the environment, and what the schemas under src/infrastructure/config/schemas
-- make of it; none where the section is refused. `number_of` is `Number(text)` where that is a natural
-- number that `.int()` takes, and `text_of` the same text as a string.
pub mod Accepted
pub mod Composed
mod Tests
use nestjs_ddd.Prelude.{
  ℕ, ◌==◌, Bool, true, false, not, ◌&&◌, ◌||◌, Option, none, some, String, List, [], ◌∷◌, leb,
  length, if◌then◌else◌, is_some,
}
use nestjs_ddd.Shared.Correlation.{codes}
use nestjs_ddd.Shared.Text.{Text}
use nestjs_ddd.Legacy.Prefix.{same_text}
use nestjs_ddd.Config.Env.{Flag, unset, flag, invalid, env_string, env_bool, env_list}
use nestjs_ddd.Config.Fields.{◌>>=◌, refined}
use nestjs_ddd.Http.Client.Events.{HttpClientConfig}
use nestjs_ddd.Idempotency.Memory.{IdempotencyConfig}
use nestjs_ddd.Cluster.Boot.{StoreKind, memory, oracle}

-- `z.boolean().default(d)` and `z.boolean().optional()`: a text that is no flag is refused.
unfoldable pub flag_or : Bool → Flag → Option Bool
flag_or d unset = some d
flag_or d (flag b) = some b
flag_or d (invalid t) = none

-- `z.string().min(1).default(d)`, on a text that `envString` trimmed.
unfoldable pub text_or : Text → Option Text → Option Text
text_or d none = some d
text_or d (some t) = some t

-- `z.array(z.string().min(1)).default([])`, on a list that `envList` made.
unfoldable pub list_or_none : Option (List Text) → Option (List Text)
list_or_none none = some []
list_or_none (some ts) = some ts

pub record IdempotencySection : Type 0 where
  pub store : StoreKind
  pub table : Text
  pub ttls : IdempotencyConfig
  pub header : Text

pub record ClusterSection : Type 0 where
  pub enabled : Bool
  pub workers : ℕ
  pub respawn : Bool
  pub respawn_max_per_minute : ℕ
  pub metrics_port : Option ℕ
  pub is_leader : Bool

pub record SchedulerSection : Type 0 where
  pub enabled : Bool
  pub timezone : Text

pub record ShutdownSection : Type 0 where
  pub drain_delay_ms : ℕ
  pub force_after_ms : ℕ
  pub job_drain_ms : ℕ

pub record LegacySection : Type 0 where
  pub forward_enabled : Bool
  pub target_url : Option Text
  pub forward_prefixes : List Text
  pub timeout_ms : ℕ
  pub preserve_host_header : Bool

-- `superRefine` of the legacy section.
unfoldable pub is_forwarding_complete : LegacySection → Bool
is_forwarding_complete c =
    not c.forward_enabled || is_some c.target_url && leb 1 (length c.forward_prefixes)

pub record TlsSection : Type 0 where
  pub enabled : Bool
  pub key_file : Option Text
  pub cert_file : Option Text
  pub ca_file : Option Text
  pub passphrase : Option Text
  pub min_version : Text

-- `superRefine` of the TLS section.
unfoldable pub is_tls_complete : TlsSection → Bool
is_tls_complete c = not c.enabled || is_some c.key_file && is_some c.cert_file

-- `z.enum(['memory', 'oracle']).default('memory')`
unfoldable pub store_kind : Option Text → Option StoreKind
store_kind none = some memory
store_kind (some t) =
    if same_text (codes "memory") t
    then some memory
    else if same_text (codes "oracle") t
    then some oracle
    else none

-- `z.enum(['TLSv1.2', 'TLSv1.3']).default('TLSv1.2')`
unfoldable pub tls_version : Option Text → Option Text
tls_version none = some (codes "TLSv1.2")
tls_version (some t) =
    if same_text (codes "TLSv1.2") t || same_text (codes "TLSv1.3") t then some t else none

module _ (number_of : Text → Option ℕ) where
  -- `z.coerce.number().int().min(low).default(d)`; `.positive()` is `.min(1)` there.
  unfoldable pub from_or : ℕ → ℕ → Option Text → Option ℕ
  from_or low d none = some d
  from_or low d (some t) = number_of t >>= refined (leb low)

  -- `z.coerce.number().int().min(low).max(high).default(d)`
  unfoldable pub within_or : ℕ → ℕ → ℕ → Option Text → Option ℕ
  within_or low high d none = some d
  within_or low high d (some t) = number_of t >>= refined (λ n. leb low n && leb n high)

  -- `z.coerce.number().int().min(low).max(high).optional()`
  unfoldable pub within_optional : ℕ → ℕ → Option Text → Option (Option ℕ)
  within_optional low high none = some none
  within_optional low high (some t) =
      number_of t >>= refined (λ n. leb low n && leb n high) >>= (λ n. some (some n))

-- `env`, as `hydrate` reads it.
module _ (env : String → Option Text) where
  abbrev pub text_at : String → Option Text
  text_at name = env_string (env name)

  abbrev pub flag_at : String → Flag
  flag_at name = env_bool (env name)

  abbrev pub list_at : String → Option (List Text)
  list_at name = env_list (env name)

  unfoldable pub scheduler_section : Option SchedulerSection
  scheduler_section = do
    on ← flag_or false (flag_at "SCHEDULER_ENABLED")
    zone ← text_or (codes "UTC") (text_at "SCHEDULER_TIMEZONE")
    some (record { enabled = on; timezone = zone })

  unfoldable pub tls_section : Option TlsSection
  tls_section = do
    on ← flag_or false (flag_at "TLS_ENABLED")
    version ← tls_version (text_at "TLS_MIN_VERSION")
    refined is_tls_complete (record {
      enabled = on;
      key_file = text_at "TLS_KEY_FILE";
      cert_file = text_at "TLS_CERT_FILE";
      ca_file = text_at "TLS_CA_FILE";
      passphrase = text_at "TLS_PASSPHRASE";
      min_version = version;
    })

module _ (number_of : Text → Option ℕ) (text_of : Text → String) (env : String → Option Text) where
  -- With the name of the header that the logging section gives.
  unfoldable pub http_client_section : Option HttpClientConfig
  http_client_section = do
    timeout ← from_or number_of 1 5000 (text_at env "HTTP_CLIENT_TIMEOUT_MS")
    retries ← within_or number_of 0 10 2 (text_at env "HTTP_CLIENT_RETRIES")
    base ← from_or number_of 1 200 (text_at env "HTTP_CLIENT_RETRY_BASE_MS")
    jitter ← from_or number_of 0 150 (text_at env "HTTP_CLIENT_RETRY_JITTER_MS")
    longest ← from_or number_of 1 5000 (text_at env "HTTP_CLIENT_RETRY_MAX_DELAY_MS")
    circuit ← flag_or true (flag_at env "HTTP_CLIENT_CIRCUIT_ENABLED")
    threshold ← from_or number_of 1 5 (text_at env "HTTP_CLIENT_CIRCUIT_FAILURE_THRESHOLD")
    reset ← from_or number_of 1 30000 (text_at env "HTTP_CLIENT_CIRCUIT_RESET_MS")
    agent ← text_or (codes "nestjs-ddd") (text_at env "HTTP_CLIENT_USER_AGENT")
    id_header ← text_or (codes "x-request-id") (text_at env "REQUEST_ID_HEADER")
    some (record {
      timeout_ms = timeout;
      retries = retries;
      retry_base_ms = base;
      retry_jitter_ms = jitter;
      retry_max_delay_ms = longest;
      circuit_enabled = circuit;
      circuit_failure_threshold = threshold;
      circuit_reset_ms = reset;
      user_agent = text_of agent;
      request_id_header = text_of id_header;
    })

module _ (number_of : Text → Option ℕ) (env : String → Option Text) where
  unfoldable pub idempotency_section : Option IdempotencySection
  idempotency_section = do
    store ← store_kind (text_at env "IDEMPOTENCY_STORE")
    table ← text_or (codes "IDEMPOTENCY_KEYS") (text_at env "IDEMPOTENCY_TABLE")
    ttl ← from_or number_of 1 86400000 (text_at env "IDEMPOTENCY_TTL_MS")
    in_progress ← from_or number_of 1 60000 (text_at env "IDEMPOTENCY_IN_PROGRESS_TTL_MS")
    header ← text_or (codes "idempotency-key") (text_at env "IDEMPOTENCY_HEADER")
    some (record {
      store = store;
      table = table;
      ttls = record { ttl_ms = ttl; in_progress_ttl_ms = in_progress };
      header = header;
    })

  unfoldable pub shutdown_section : Option ShutdownSection
  shutdown_section = do
    drain ← from_or number_of 0 5000 (text_at env "SHUTDOWN_DRAIN_DELAY_MS")
    force ← from_or number_of 1 10000 (text_at env "SHUTDOWN_FORCE_AFTER_MS")
    jobs ← from_or number_of 0 10000 (text_at env "SHUTDOWN_JOB_DRAIN_MS")
    some (record { drain_delay_ms = drain; force_after_ms = force; job_drain_ms = jobs })

  unfoldable pub cluster_section : Option ClusterSection
  cluster_section = do
    on ← flag_or false (flag_at env "CLUSTER_ENABLED")
    workers ← from_or number_of 0 0 (text_at env "CLUSTER_WORKERS")
    respawn ← flag_or true (flag_at env "CLUSTER_RESPAWN")
    most ← from_or number_of 1 10 (text_at env "CLUSTER_RESPAWN_MAX_PER_MINUTE")
    port ← within_optional number_of 1 65535 (text_at env "CLUSTER_METRICS_PORT")
    leader ← flag_or false (flag_at env "CLUSTER_LEADER")
    some (record {
      enabled = on;
      workers = workers;
      respawn = respawn;
      respawn_max_per_minute = most;
      metrics_port = port;
      is_leader = leader;
    })

  unfoldable pub legacy_section : Option LegacySection
  legacy_section = do
    on ← flag_or false (flag_at env "LEGACY_FORWARD_ENABLED")
    prefixes ← list_or_none (list_at env "LEGACY_FORWARD_PREFIXES")
    timeout ← from_or number_of 1 10000 (text_at env "LEGACY_TIMEOUT_MS")
    host ← flag_or false (flag_at env "LEGACY_PRESERVE_HOST_HEADER")
    refined is_forwarding_complete (record {
      forward_enabled = on;
      target_url = text_at env "LEGACY_TARGET_URL";
      forward_prefixes = prefixes;
      timeout_ms = timeout;
      preserve_host_header = host;
    })
