-- ===== src/Cluster/Primary.antt =====
-- `startPrimary` of src/infrastructure/cluster/cluster-primary.ts: the state that its closures share,
-- and one function for each of them. `fork` gives each worker an id that no worker had before, as
-- `node:cluster` documents: the ids count up from `next_id`.
pub mod Steps
pub mod Leader
pub mod Pool
pub mod Shutdown
pub mod Finish
use nestjs_ddd.Prelude.{
  ℕ, zero, suc, ◌+◌, Bool, true, false, not, ◌&&◌, Option, none, some, List, [], ◌∷◌, ◌++◌, map,
  ◌==◌, leb, ltb, keep, length, any, if◌then◌else◌,
}
use nestjs_ddd.Cluster.Boot.{
  ClusterBootRailsConfig, InvalidConfig, BootLog, resolve_worker_count, run_cluster_boot_rails,
}
use nestjs_ddd.Cluster.Respawn.{admit}
use nestjs_ddd.Shared.Outcome.{Result, ok, err}

-- `SHUTDOWN_SLACK_MS`
abbrev pub shutdown_slack_ms : ℕ
shutdown_slack_ms = 2000

pub record StartPrimaryConfig : Type 0 where
  pub rails : ClusterBootRailsConfig
  pub workers : ℕ
  pub respawn : Bool
  pub respawn_max_per_minute : ℕ
  pub metrics_port : Option ℕ
  pub metrics_enabled : Bool
  pub drain_delay_ms : ℕ
  pub force_after_ms : ℕ
  pub job_drain_ms : ℕ

-- `leader` is the `CLUSTER_LEADER` of the worker's environment, fixed when it is forked.
pub record Worker : Type 0 where
  pub id : ℕ
  pub leader : Bool

pub record Primary : Type 0 where
  pub live_workers : List Worker
  pub respawn_timestamps : List ℕ
  pub leader_id : Option ℕ
  pub shutting_down : Bool
  pub notify_drained : Bool
  pub next_id : ℕ
  pub worker_count : ℕ

pub data Signal : Type 0 where
  sigterm sigint sigkill : Signal

pub data Effect : Type 0 where
  forked : ℕ → Bool → Effect
  log_exited : ℕ → Bool → Effect
  log_elected : Option ℕ → ℕ → Effect
  log_lost : ℕ → Effect
  log_rate_limited : ℕ → Effect
  resolve_drained : Effect
  log_shutdown : Signal → ℕ → Effect
  kill : ℕ → Signal → Effect
  log_drain_timeout : List ℕ → ℕ → Effect
  close_metrics : Effect
  log_finished : Signal → Effect
  exit_process : ℕ → Effect

-- `worker.id === leaderId`
abbrev pub is_leader_id : Option ℕ → ℕ → Bool
is_leader_id none id = false
is_leader_id (some l) id = id == l

unfoldable pub fork_worker : Bool → Primary → Primary × List Effect
fork_worker is_leader p = (
  record p {
    live_workers = p.live_workers ++ record { id = p.next_id; leader = is_leader } ∷ [];
    leader_id = if is_leader then some p.next_id else p.leader_id;
    next_id = p.next_id + 1;
  },
  forked p.next_id is_leader ∷ [],
)

-- `for (let index = 0; index < workerCount; index += 1) forkWorker(index === 0)`
unfoldable pub fork_all : ℕ → ℕ → Primary → Primary × List Effect
fork_all zero index p = (p, [])
fork_all (suc left) index p =
    let (p', es) = fork_worker (index == 0) p in
    let (p'', es') = fork_all left (index + 1) p' in (p'', es ++ es')

abbrev pub empty_primary : ℕ → ℕ → Primary
empty_primary first_id workers = record {
  live_workers = [];
  respawn_timestamps = [];
  leader_id = none;
  shutting_down = false;
  notify_drained = false;
  next_id = first_id;
  worker_count = workers;
}

-- `liveWorkers.delete(id)`
abbrev pub without : ℕ → List Worker → List Worker
without id ws = keep (λ w. not (w.id == id)) ws

module _ (config : StartPrimaryConfig) where
  -- The part of `startPrimary` that runs at once.
  unfoldable pub start_primary : ℕ → ℕ → Result (Primary × List Effect) InvalidConfig
  start_primary cpus first_id =
      let workers = resolve_worker_count config.workers cpus in
      elim (run_cluster_boot_rails config.rails workers) [
        | err e ↦ err e
        | ok logs ↦
            let (p, es) = fork_all workers 0 (empty_primary first_id workers) in
            ok (p, es ++ log_elected p.leader_id workers ∷ [])
      ]

  -- `if (wasLeader) { leaderId = undefined; … }`
  pub lose_leader : ℕ → Bool → Primary → Primary × List Effect
  lose_leader id was_leader p =
      if was_leader then (record p { leader_id = none }, log_lost id ∷ []) else (p, [])

  -- The part of `onExit` that follows the shutdown and respawn checks.
  respawn_worker : ℕ → Bool → ℕ → ℕ → Primary → Primary × List Effect
  unfolding lose_leader fork_worker
  respawn_worker id was_leader now now' p =
      let (allowed, stamps) = admit config.respawn_max_per_minute now now' p.respawn_timestamps in
      let p' = record p { respawn_timestamps = stamps } in
      if allowed
      then (let (q, es) = fork_worker was_leader p' in
          (q, es ++ (if was_leader then log_elected q.leader_id p.worker_count ∷ [] else [])))
      else (let (q, es) = lose_leader id was_leader p' in
          (q, log_rate_limited config.respawn_max_per_minute ∷ es))

  unfoldable pub on_exit : ℕ → ℕ → ℕ → Primary → Primary × List Effect
  unfolding respawn_worker
  on_exit id now now' p =
      let was_leader = is_leader_id p.leader_id id in
      let p' = record p { live_workers = without id p.live_workers } in
      let drained =
        if length p'.live_workers == 0 && p.notify_drained then resolve_drained ∷ [] else [] in
      let (q, es) =
        (if p.shutting_down
          then (p', [])
          else if not config.respawn
          then lose_leader id was_leader p'
          else respawn_worker id was_leader now now' p') in
      (q, log_exited id was_leader ∷ drained ++ es)

  pub kill_all : Signal → List Worker → List Effect
  kill_all s ws = map (λ w. kill w.id s) ws

  abbrev pub wait_ms : ℕ
  wait_ms = config.drain_delay_ms + config.force_after_ms + config.job_drain_ms + shutdown_slack_ms

  -- `shutdown`, up to its wait. `drained` resolves at once if no worker is left.
  unfoldable pub begin_shutdown : Signal → Primary → Primary × List Effect
  unfolding kill_all
  begin_shutdown s p = if p.shutting_down then (p, []) else (
    record p { shutting_down = true; notify_drained = not (length p.live_workers == 0) },
    log_shutdown s (length p.live_workers) ∷ kill_all s p.live_workers
        ++ (if length p.live_workers == 0 then resolve_drained ∷ [] else []),
  )

  -- `config.cluster.metricsPort && config.metrics.enabled`
  abbrev pub has_metrics_server : Bool
  has_metrics_server = elim config.metrics_port [
    | none ↦ false
    | some port ↦ not (port == 0) && config.metrics_enabled
  ]

  -- `shutdown`, after its wait: `timed_out` is what the race came to.
  unfoldable pub finish_shutdown : Signal → Bool → Primary → List Effect
  unfolding kill_all
  finish_shutdown s timed_out p =
      (if timed_out && ltb 0 (length p.live_workers)
        then log_drain_timeout (map (λ w. w.id) p.live_workers) wait_ms
          ∷ kill_all sigkill p.live_workers
        else [])
      ++ ((if has_metrics_server then close_metrics ∷ [] else [])
          ++ log_finished s ∷ exit_process 0 ∷ [])
