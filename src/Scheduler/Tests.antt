-- ===== src/Scheduler/Tests.antt =====
-- The theorems on the jobs and the shutdown at concrete events.
use nestjs_ddd.Prelude.{
  ◌≤◌, ◌≡◌, refl, true, false, none, some, List, [], ◌∷◌, ◌++◌, count_if, keep, if◌then◌else◌,
}
use nestjs_ddd.Shared.Outcome.{ok}
use nestjs_ddd.Cluster.Boot.{oracle, in_memory, resolve_worker_count, run_cluster_boot_rails}
use nestjs_ddd.Cluster.Primary.{
  StartPrimaryConfig, Primary, Effect, start_primary, fork_all, fork_worker,
}
use nestjs_ddd.Cluster.Primary.Steps.{here}
use nestjs_ddd.Scheduler.{RunnerEvent, fires, job_ends, new_runner, on_events}
use nestjs_ddd.Scheduler.Runs.{
  accounted, is_fire, runs_jobs, on_events-accounted, one_worker_runs_jobs,
}
use nestjs_ddd.Lifecycle.{
  GracefulShutdownOptions, on_signals, readiness_failed, server_closed, jobs_drained, app_closed,
}
use nestjs_ddd.Lifecycle.Once.{is_stage, on_signals-stages}

abbrev day : List RunnerEvent
day = fires ∷ fires ∷ job_ends false ∷ fires ∷ []

on_events-accounted_example : accounted (on_events day new_runner) ≡ count_if is_fire day
on_events-accounted_example = on_events-accounted day

abbrev config : StartPrimaryConfig
config = record {
  rails = record {
    store = oracle;
    throttle_storage = in_memory;
    throttle_limit = 5;
    sources = none;
  };
  workers = 1;
  respawn = true;
  respawn_max_per_minute = 3;
  metrics_port = none;
  metrics_enabled = false;
  drain_delay_ms = 1;
  force_after_ms = 2;
  job_drain_ms = 3;
}

abbrev alone : Primary
alone = record {
  live_workers = record { id = 1; leader = true } ∷ [];
  respawn_timestamps = [];
  leader_id = some 1;
  shutting_down = false;
  notify_drained = false;
  next_id = 2;
  worker_count = 1;
}

abbrev effects : List Effect
effects = Effect.forked 1 true ∷ Effect.log_elected (some 1) 1 ∷ []

starts : start_primary config 4 1 ≡ ok (alone, effects)
unfolding start_primary resolve_worker_count run_cluster_boot_rails fork_all fork_worker
starts = refl

one_worker_runs_jobs_example : count_if (runs_jobs true ("report" ∷ [])) alone.live_workers ≤ 1
one_worker_runs_jobs_example =
    one_worker_runs_jobs config 4 1 alone alone effects true ("report" ∷ []) starts here

abbrev options : GracefulShutdownOptions
options = record {
  drain_delay_ms = 10;
  force_after_ms = 20;
  has_drain_jobs = true;
  has_close_all = true;
}

on_signals-stages_example :
    keep is_stage (on_signals options none 2 (record { shutting_down = false }))
    ≡ readiness_failed
      ∷ server_closed
      ∷ ((if options.has_drain_jobs then jobs_drained ∷ [] else []) ++ app_closed ∷ [])
on_signals-stages_example = on_signals-stages options none 1 refl
