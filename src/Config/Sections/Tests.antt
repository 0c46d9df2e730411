-- ===== src/Config/Sections/Tests.antt =====
-- The theorems on the sections at concrete environments.
use nestjs_ddd.Prelude.{
  ℕ, ◌≡◌, refl, true, false, Option, none, some, String, [], ◌∷◌, str_eq, if◌then◌else◌,
}
use nestjs_ddd.Shared.Correlation.{codes}
use nestjs_ddd.Shared.Text.{Text, trim}
use nestjs_ddd.Shared.Trace.{skip_spaces, drop_spaces_after}
use nestjs_ddd.Legacy.Prefix.{same_text}
use nestjs_ddd.Config.Env.{env_bool, env_list}
use nestjs_ddd.Config.Fields.{◌>>=◌, refined}
use nestjs_ddd.Config.Sections.{
  SchedulerSection, scheduler_section, ClusterSection, cluster_section, LegacySection,
  legacy_section, is_forwarding_complete, from_or, flag_or, text_or, within_optional, list_or_none,
  TlsSection,
}
use nestjs_ddd.Config.Tls.{load_tls_options, empty}
use nestjs_ddd.Shared.Outcome.{err}

abbrev no_number : Text → Option ℕ
no_number t = none

-- A worker that the primary named the leader, and that forwards.
abbrev worker : String → Option Text
worker name =
    if str_eq name "SCHEDULER_ENABLED"
    then some (codes "true")
    else if str_eq name "CLUSTER_ENABLED"
    then some (codes "Yes ")
    else if str_eq name "CLUSTER_LEADER"
    then some (codes "true")
    else if str_eq name "LEGACY_FORWARD_ENABLED"
    then some (codes "on")
    else if str_eq name "LEGACY_TARGET_URL"
    then some (codes "http://old")
    else if str_eq name "LEGACY_FORWARD_PREFIXES"
    then some (codes "/a,, /b")
    else if str_eq name "TLS_ENABLED"
    then some (codes "1")
    else if str_eq name "TLS_KEY_FILE"
    then some (codes "k")
    else if str_eq name "TLS_CERT_FILE"
    then some (codes "c")
    else none

abbrev scheduler : SchedulerSection
scheduler = record { enabled = true; timezone = codes "UTC" }

abbrev cluster : ClusterSection
cluster = record {
  enabled = true;
  workers = 0;
  respawn = true;
  respawn_max_per_minute = 10;
  metrics_port = none;
  is_leader = true;
}

abbrev legacy : LegacySection
legacy = record {
  forward_enabled = true;
  target_url = some (codes "http://old");
  forward_prefixes = codes "/a" ∷ codes "/b" ∷ [];
  timeout_ms = 10000;
  preserve_host_header = false;
}

scheduler_accepted : scheduler_section worker ≡ some scheduler
unfolding scheduler_section ◌>>=◌ flag_or env_bool trim drop_spaces_after skip_spaces same_text
    text_or
scheduler_accepted = refl

cluster_accepted : cluster_section no_number worker ≡ some cluster
unfolding cluster_section ◌>>=◌ flag_or env_bool trim drop_spaces_after skip_spaces same_text
    from_or within_optional
cluster_accepted = refl

legacy_accepted : legacy_section no_number worker ≡ some legacy
unfolding legacy_section ◌>>=◌ flag_or env_bool trim drop_spaces_after skip_spaces same_text
    list_or_none env_list from_or refined is_forwarding_complete
legacy_accepted = refl

abbrev tls : TlsSection
tls = record {
  enabled = true;
  key_file = some (codes "k");
  cert_file = some (codes "c");
  ca_file = none;
  passphrase = none;
  min_version = codes "TLSv1.2";
}

-- The file of the certificate is empty.
abbrev read_file : Text → Option Text
read_file path = if same_text (codes "k") path then some (codes "PEM") else some []

read : load_tls_options read_file tls ≡ err (empty "TLS_CERT_FILE")
unfolding load_tls_options same_text
read = refl
