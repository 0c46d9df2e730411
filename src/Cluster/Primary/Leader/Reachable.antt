-- ===== src/Cluster/Primary/Leader/Reachable.antt =====
-- The leader of the worker pool (src/infrastructure/cluster/cluster-primary.ts), whatever exits and signals come.
use nestjs_ddd.Prelude.{
  ℕ, zero, suc, ◌+◌, ◌≤◌, ◌≡◌, refl, true, false, ◌||◌, List, arith, ◌==◌, is_some, length,
  length-append, if◌then◌else◌, ap, ◌∙◌,
}
use nestjs_ddd.Cluster.Boot.{resolve_worker_count}
use nestjs_ddd.Shared.Outcome.{ok}
use nestjs_ddd.Cluster.Primary.{
  StartPrimaryConfig, Primary, Effect, fork_worker, fork_all, empty_primary, start_primary, on_exit,
  begin_shutdown, lose_leader, respawn_worker,
}
use nestjs_ddd.Cluster.Primary.Steps.{Step, exits, signals, Reach, here, next}
use nestjs_ddd.Cluster.Primary.Leader.Exit.{on_exit-IsValid, begin_shutdown-IsValid}
use nestjs_ddd.Cluster.Primary.Leader.{leaders, IsValid, fork_leader-IsValid, fork_plain-IsValid}

module _ (config : StartPrimaryConfig) where
  Step-IsValid : {p q : Primary} → Step config p q → IsValid p → IsValid q
  Step-IsValid (exits id now now' p member) v = on_exit-IsValid config id now now' p member v
  Step-IsValid (signals s p) v = begin_shutdown-IsValid config s p v

  pub Reach-IsValid : {p q : Primary} → Reach config p q → IsValid p → IsValid q
  Reach-IsValid here v = v
  Reach-IsValid (next r s) v = Step-IsValid s (Reach-IsValid r v)

-- The pool that the first forks build: `index` workers are up and `left` are still to come.
fork_all-IsValid :
    (left index : ℕ) (p : Primary)
    → (index == 0 ≡ false) × IsValid p × (length p.live_workers + left ≤ p.worker_count)
    → IsValid (fork_all left index p).0
unfolding fork_all fork_worker
fork_all-IsValid zero index p (i, v, room) = v
fork_all-IsValid (suc left) index p (i, v, room) = rw i (
    fork_all-IsValid left (index + 1) (fork_worker false p).0
      (ground arith, fork_plain-IsValid p v (omega arith), rw length-append (omega arith)))

empty_primary-IsValid : (first_id workers : ℕ) → IsValid (empty_primary first_id workers)
empty_primary-IsValid first_id workers = record {
  known = tt;
  led = omega arith;
  steady = λ e. refl;
  bound = omega arith;
  sized = omega arith;
}

first_fork-IsValid :
    (first_id workers : ℕ) → IsValid (fork_all workers 0 (empty_primary first_id workers)).0
unfolding fork_all fork_worker
first_fork-IsValid first_id zero = empty_primary-IsValid first_id 0
first_fork-IsValid first_id (suc n) =
    fork_all-IsValid n 1 (fork_worker true (empty_primary first_id (suc n))).0 (
      refl,
      fork_leader-IsValid (empty_primary first_id (suc n)) tt refl (omega arith),
      omega arith,
    )

start_primary-ok :
    (config : StartPrimaryConfig) (cpus first_id : ℕ) (p : Primary) (es : List Effect)
    → start_primary config cpus first_id ≡ ok (p, es)
    → (p
        ≡ (fork_all
            (resolve_worker_count config.workers cpus)
            0
            (empty_primary first_id (resolve_worker_count config.workers cpus))).0)
unfolding start_primary
start_primary-ok config cpus first_id p es e = ground (arith)

pub started-IsValid :
    (config : StartPrimaryConfig) (cpus first_id : ℕ) (p : Primary) (es : List Effect)
    → start_primary config cpus first_id ≡ ok (p, es)
    → IsValid p
started-IsValid config cpus first_id p es started =
    rw (start_primary-ok config cpus first_id p es started)
      (first_fork-IsValid first_id (resolve_worker_count config.workers cpus))

fork_all-worker_count :
    (left index : ℕ) (p : Primary) → (fork_all left index p).0.worker_count ≡ p.worker_count
unfolding fork_all fork_worker
fork_all-worker_count zero index p = refl
fork_all-worker_count (suc left) index p = fork_all-worker_count left (index + 1) _

Reach-worker_count :
    (config : StartPrimaryConfig) {p q : Primary}
    → Reach config p q
    → q.worker_count ≡ p.worker_count
unfolding on_exit respawn_worker fork_worker lose_leader begin_shutdown
Reach-worker_count config here = refl
Reach-worker_count config (next r (exits id now now' p m)) =
    ground (arith, Reach-worker_count config r)
Reach-worker_count config (next r (signals s p)) = ground (arith, Reach-worker_count config r)

-- Once `startPrimary` has returned, and after any exits of live workers and any signals, at most one
-- live worker is marked as the leader and at most `workerCount` workers live. Until the shutdown
-- begins, one worker is marked if `leaderId` is set, and none if it is not.
pub one_leader :
    (config : StartPrimaryConfig) (cpus first_id : ℕ) (p q : Primary) (es : List Effect)
    → start_primary config cpus first_id ≡ ok (p, es)
    → Reach config p q
    → (leaders q.live_workers ≤ 1)
      × (q.shutting_down || leaders q.live_workers == (if is_some q.leader_id then 1 else 0) ≡ true)
      × (length q.live_workers ≤ resolve_worker_count config.workers cpus)
one_leader config cpus first_id p q es started r =
    let n = resolve_worker_count config.workers cpus in
    let same = start_primary-ok config cpus first_id p es started in
    let v = Reach-IsValid config r (started-IsValid config cpus first_id p es started) in
    let count : q.worker_count ≡ n =
      Reach-worker_count config r
      ∙ ap (λ p. p.worker_count) same
      ∙ fork_all-worker_count n 0 (empty_primary first_id n) in
    (ground (arith, v.led), ground (arith, v.steady), omega (arith, v.sized, count))
