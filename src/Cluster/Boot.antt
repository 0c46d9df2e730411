-- ===== src/Cluster/Boot.antt =====
-- src/infrastructure/cluster/resolve-worker-count.util.ts and cluster-boot-rails.ts.
use nestjs_ddd.Prelude.{
  ℕ, ◌*◌, ◌≤◌, ◌≡◌, ◌↔◌, max, Bool, true, false, ◌&&◌, String, List, [], ◌∷◌, ◌++◌, map, Option,
  none, some, ltb, arith, if◌then◌else◌,
}
use nestjs_ddd.Shared.Outcome.{Result, ok, err}

-- `Math.floor` changes nothing: the configuration and the CPU count are whole numbers.
unfoldable pub resolve_worker_count : ℕ → ℕ → ℕ
resolve_worker_count configured cpus = max 1 (if ltb 0 configured then configured else cpus)

pub data StoreKind : Type 0 where
  memory oracle : StoreKind

pub data ThrottleStorage : Type 0 where
  in_memory redis : ThrottleStorage

pub record PoolSource : Type 0 where
  pub key : String
  pub pool_max : ℕ

pub record ClusterBootRailsConfig : Type 0 where
  pub store : StoreKind
  pub throttle_storage : ThrottleStorage
  pub throttle_limit : ℕ
  pub sources : Option (List PoolSource)

-- The log lines, with their numbers.
pub data BootLog : Type 0 where
  throttle_memory : ℕ → ℕ → ℕ → BootLog
  pool_capacity : String → ℕ → ℕ → ℕ → BootLog

-- The path of the issue that `InvalidConfigError` carries.
pub data InvalidConfig : Type 0 where
  invalid_config : String → InvalidConfig

abbrev pub is_memory : StoreKind → Bool
is_memory memory = true
is_memory oracle = false

abbrev pub is_in_memory : ThrottleStorage → Bool
is_in_memory in_memory = true
is_in_memory redis = false

pool_logs : ℕ → Option (List PoolSource) → List BootLog
pool_logs workers none = []
pool_logs workers (some sources) =
    map (λ s. pool_capacity s.key s.pool_max workers (s.pool_max * workers)) sources

unfoldable pub run_cluster_boot_rails :
    ClusterBootRailsConfig → ℕ → Result (List BootLog) InvalidConfig
unfolding pool_logs
run_cluster_boot_rails c workers =
    if ltb 1 workers && is_memory c.store
    then err (invalid_config "idempotency.store")
    else ok (
        (if ltb 1 workers && is_in_memory c.throttle_storage
          then throttle_memory c.throttle_limit workers (c.throttle_limit * workers) ∷ []
          else [])
        ++ pool_logs workers c.sources)

-- The boot is refused exactly when several workers would each have an idempotency store in memory.
pub run_cluster_boot_rails-err_iff :
    (c : ClusterBootRailsConfig) (configured cpus : ℕ)
    → (run_cluster_boot_rails c (resolve_worker_count configured cpus)
        ≡ err (invalid_config "idempotency.store"))
      ↔ ((c.store ≡ memory) × (2 ≤ resolve_worker_count configured cpus))
unfolding run_cluster_boot_rails
run_cluster_boot_rails-err_iff c configured cpus = ground arith
