-- ===== src/Cluster/Tests.antt =====
-- The theorems on the primary process at a pool of two workers.
use nestjs_ddd.Prelude.{
  ◌≤◌, ◌≡◌, refl, true, false, ◌||◌, none, some, List, [], ◌∷◌, arith, length, count_if,
  if◌then◌else◌, is_some, ◌==◌,
}
use nestjs_ddd.Shared.Outcome.{ok}
use nestjs_ddd.Cluster.Boot.{
  oracle, in_memory, ClusterBootRailsConfig, resolve_worker_count, run_cluster_boot_rails,
}
use nestjs_ddd.Cluster.Respawn.{admitted, in_window, admit, drop_old, respawns_capped}
use nestjs_ddd.Cluster.Primary.{
  StartPrimaryConfig, Primary, sigterm, Effect, start_primary, fork_all, fork_worker, on_exit,
  begin_shutdown,
}
use nestjs_ddd.Cluster.Primary.Steps.{Step, exits, Reach, here, next}
use nestjs_ddd.Cluster.Primary.Leader.{leaders}
use nestjs_ddd.Cluster.Primary.Leader.Reachable.{one_leader}
use nestjs_ddd.Cluster.Primary.Shutdown.{exit_each, killed, exits_last}
use nestjs_ddd.Cluster.Primary.Finish.{run_shutdown, run_shutdown_lem}
use nestjs_ddd.Cluster.Primary.{Effect, finish_shutdown, sigkill}
use nestjs_ddd.Prelude.{not, map, Bool}

abbrev rails : ClusterBootRailsConfig
rails = record {
  store = oracle;
  throttle_storage = in_memory;
  throttle_limit = 100;
  sources = none;
}

abbrev config : StartPrimaryConfig
config = record {
  rails = rails;
  workers = 2;
  respawn = true;
  respawn_max_per_minute = 0;
  metrics_port = none;
  metrics_enabled = false;
  drain_delay_ms = 10;
  force_after_ms = 20;
  job_drain_ms = 30;
}

-- The two workers of `config`, with the ids 1 and 2.
abbrev started : Primary
started = record {
  live_workers = record { id = 1; leader = true } ∷ record { id = 2; leader = false } ∷ [];
  respawn_timestamps = [];
  leader_id = some 1;
  shutting_down = false;
  notify_drained = false;
  next_id = 3;
  worker_count = 2;
}

abbrev effects : List Effect
effects = Effect.forked 1 true ∷ Effect.forked 2 false ∷ Effect.log_elected (some 1) 2 ∷ []

starts : start_primary config 8 1 ≡ ok (started, effects)
unfolding start_primary resolve_worker_count run_cluster_boot_rails fork_all fork_worker
starts = refl

-- Respawns are off by the limit, so the exit of the leader leaves the pool without one.
abbrev orphaned : Primary
orphaned = record started {
  live_workers = record { id = 2; leader = false } ∷ [];
  leader_id = none;
}

exit_orphans : (on_exit config 1 5 5 started).0 ≡ orphaned
unfolding on_exit admit drop_old
exit_orphans = refl

Reach-orphaned : Reach config started orphaned
Reach-orphaned =
    let step : Step config started (on_exit config 1 5 5 started).0 = exits 1 5 5 started refl in
    next here (rw exit_orphans at step)

respawns_capped_example :
    count_if (in_window 70_000) (admitted 1 ((5, 5) ∷ (9, 10) ∷ (65_000, 65_001) ∷ []) []) ≤ 1
respawns_capped_example =
    respawns_capped 1 70_000 ((5, 5) ∷ (9, 10) ∷ (65_000, 65_001) ∷ [])
      (omega arith, omega arith, (omega arith, omega arith, (omega arith, omega arith, tt)))

one_leader_example :
    (leaders orphaned.live_workers ≤ 1)
    × (orphaned.shutting_down
          || leaders orphaned.live_workers == (if is_some orphaned.leader_id then 1 else 0)
        ≡ true)
    × (length orphaned.live_workers ≤ resolve_worker_count config.workers 8)
one_leader_example = one_leader config 8 1 started orphaned effects starts Reach-orphaned

-- One of two workers exits in time.
abbrev ended : Primary × Bool × List Effect
ended = run_shutdown config sigterm ((2, 7, 7) ∷ []) started

run_shutdown_lem_example :
    (ended.1 ≡ not (length ended.0.live_workers == 0))
    × (killed ended.2 ≡ map (λ w. (w.id, sigkill)) ended.0.live_workers)
    × (exits_last ended.2 0 ≡ true)
run_shutdown_lem_example =
    run_shutdown_lem config sigterm ((2, 7, 7) ∷ []) started ended.0 ended.1 ended.2 refl refl

left_over : (ended.1 ≡ true) × (killed ended.2 ≡ (1, sigkill) ∷ [])
unfolding run_shutdown begin_shutdown exit_each on_exit killed finish_shutdown
left_over = (refl, refl)
