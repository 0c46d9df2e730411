-- ===== src/Scheduler.antt =====
-- src/interface/scheduler: `JobRunner`, which runs one job, and `JobScheduler`, which registers the
-- jobs when the service starts and drains them when it stops.
pub mod Runs
mod Tests
use nestjs_ddd.Prelude.{
  ℕ, zero, suc, ◌+◌, Bool, true, false, not, ◌&&◌, Option, none, some, String, List, [], ◌∷◌, ◌++◌,
  map, keep, all, leb, length, ltb, ◌==◌, if◌then◌else◌,
}

-- `current`, and what `Metrics.jobRuns` has counted.
pub record JobRunner : Type 0 where
  pub is_running : Bool
  pub skipped : ℕ
  pub succeeded : ℕ
  pub failed : ℕ

abbrev pub new_runner : JobRunner
new_runner = record { is_running = false; skipped = 0; succeeded = 0; failed = 0 }

-- `run`, up to its await.
unfoldable pub run : JobRunner → JobRunner
run r =
    if r.is_running then record r { skipped = r.skipped + 1 } else record r { is_running = true }

-- The rest of `execute`, when the job has ended, and the `finally` of `run`: an error goes no further.
unfoldable pub execute_ended : Bool → JobRunner → JobRunner
execute_ended succeeds r =
    if succeeds
    then record r { is_running = false; succeeded = r.succeeded + 1 }
    else record r { is_running = false; failed = r.failed + 1 }

-- What happens to a runner: the clock fires, or the job in flight ends. No job ends that is not
-- in flight.
pub data RunnerEvent : Type 0 where
  fires : RunnerEvent
  job_ends : Bool → RunnerEvent

unfoldable pub on_event : RunnerEvent → JobRunner → JobRunner
unfolding run execute_ended
on_event fires r = run r
on_event (job_ends succeeds) r = if r.is_running then execute_ended succeeds r else r

unfoldable pub on_events : List RunnerEvent → JobRunner → JobRunner
unfolding on_event
on_events [] r = r
on_events (e ∷ es) r = on_events es (on_event e r)

pub record SchedulerConfig : Type 0 where
  pub scheduler_enabled : Bool
  pub cluster_enabled : Bool
  pub cluster_is_leader : Bool

-- `onApplicationBootstrap`: the jobs that are registered and started.
unfoldable pub on_application_bootstrap : SchedulerConfig → List String → List String
on_application_bootstrap c jobs =
    if not c.scheduler_enabled
    then []
    else if c.cluster_enabled && not c.cluster_is_leader
    then []
    else jobs

pub data StopEvent : Type 0 where
  cron_stopped : String → StopEvent
  drained : List String → StopEvent
  drain_timeout : List String → ℕ → StopEvent

-- A registered job, and how long its run goes on if one is in flight.
pub record RegisteredJob : Type 0 where
  pub name : String
  pub in_flight : Option ℕ

abbrev pub is_in_flight : RegisteredJob → Bool
is_in_flight j = elim j.in_flight [ none ↦ false | some ms ↦ true ]

abbrev pub outlasts : ℕ → RegisteredJob → Bool
outlasts timeout j = elim j.in_flight [ none ↦ false | some ms ↦ ltb timeout ms ]

-- `stop`
unfoldable pub stop : ℕ → List RegisteredJob → List StopEvent
stop timeout registered =
    let running = keep is_in_flight registered in
    let late = keep (outlasts timeout) running in
    map (λ j. cron_stopped j.name) registered
    ++ (if length running == 0
        then []
        else if length late == 0
        then drained (map (λ j. j.name) running) ∷ []
        else drain_timeout (map (λ j. j.name) late) timeout ∷ [])
