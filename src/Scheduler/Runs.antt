-- ===== src/Scheduler/Runs.antt =====
-- The runs of a job (src/interface/scheduler), in one process and over the pool of a cluster.
use nestjs_ddd.Prelude.{
  ℕ, ◌+◌, ◌≤◌, ◌≡◌, Bool, true, false, not, String, List, [], ◌∷◌, arith, length, count_if, ◌==◌,
  if◌then◌else◌,
}
use nestjs_ddd.Scheduler.{
  JobRunner, new_runner, RunnerEvent, fires, job_ends, on_event, on_events, run, execute_ended,
  on_application_bootstrap,
}
use nestjs_ddd.Shared.Outcome.{ok}
use nestjs_ddd.Cluster.Primary.{StartPrimaryConfig, Primary, Worker, Effect, start_primary}
use nestjs_ddd.Cluster.Primary.Steps.{Reach}
use nestjs_ddd.Cluster.Primary.Leader.{leaders}
use nestjs_ddd.Cluster.Primary.Leader.Reachable.{one_leader}

abbrev pub is_fire : RunnerEvent → Bool
is_fire fires = true
is_fire (job_ends succeeds) = false

-- The runs that a runner has answered for.
abbrev pub accounted : JobRunner → ℕ
accounted r = r.skipped + r.succeeded + r.failed + (if r.is_running then 1 else 0)

on_events-accounted_from :
    (es : List RunnerEvent) (r : JobRunner)
    → accounted (on_events es r) ≡ accounted r + count_if is_fire es
unfolding on_events on_event run execute_ended
on_events-accounted_from [] r = omega arith
on_events-accounted_from (fires ∷ es) r = ground (arith, on_events-accounted_from es (run r))
on_events-accounted_from (job_ends b ∷ es) r =
    ground (arith, on_events-accounted_from es (on_event (job_ends b) r))

-- Every time that the clock fires is counted once, as skipped, succeeded or failed, or is the one run
-- in flight: runs of a job do not overlap, and none is lost, whenever they end and however.
pub on_events-accounted :
    (es : List RunnerEvent) → accounted (on_events es new_runner) ≡ count_if is_fire es
on_events-accounted es = omega (arith, on_events-accounted_from es new_runner)

-- Whether a worker of the pool runs the jobs.
abbrev pub runs_jobs : Bool → List String → Worker → Bool
runs_jobs enabled jobs w = not (
    length (
      on_application_bootstrap
        (record {
          scheduler_enabled = enabled;
          cluster_enabled = true;
          cluster_is_leader = w.leader;
        })
        jobs)
    == 0)

runs_jobs-le :
    (enabled : Bool) (jobs : List String) (ws : List Worker)
    → count_if (runs_jobs enabled jobs) ws ≤ leaders ws
unfolding on_application_bootstrap
runs_jobs-le enabled jobs [] = omega arith
runs_jobs-le enabled jobs (w ∷ ws) = ground (arith, runs_jobs-le enabled jobs ws)

-- In cluster mode at most one live worker runs the jobs, whatever workers exit and are replaced.
pub one_worker_runs_jobs :
    (config : StartPrimaryConfig) (cpus first_id : ℕ) (p q : Primary) (es : List Effect)
    (enabled : Bool) (jobs : List String)
    → start_primary config cpus first_id ≡ ok (p, es)
    → Reach config p q
    → count_if (runs_jobs enabled jobs) q.live_workers ≤ 1
one_worker_runs_jobs config cpus first_id p q es enabled jobs started reached = omega (
  arith,
  runs_jobs-le enabled jobs q.live_workers,
  (one_leader config cpus first_id p q es started reached).0,
)
