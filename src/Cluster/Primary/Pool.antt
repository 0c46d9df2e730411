-- ===== src/Cluster/Primary/Pool.antt =====
-- The worker pool (src/infrastructure/cluster/cluster-primary.ts) once it has lost its leader, and
-- once its shutdown has begun.
use nestjs_ddd.Prelude.{
  ℕ, ◌≤◌, ◌≡◌, refl, true, none, List, arith, ◌==◌, length, length-keep-le, not, ◌∙◌,
}
use nestjs_ddd.Shared.Outcome.{ok}
use nestjs_ddd.Cluster.Primary.{
  StartPrimaryConfig, Primary, Effect, fork_worker, start_primary, on_exit, begin_shutdown,
  lose_leader, respawn_worker,
}
use nestjs_ddd.Cluster.Primary.Leader.{leaders}
use nestjs_ddd.Cluster.Primary.Leader.Reachable.{started-IsValid, Reach-IsValid}
use nestjs_ddd.Cluster.Primary.Steps.{Step, exits, signals, Reach, here, next}

Step-leaderless :
    (config : StartPrimaryConfig) {p q : Primary}
    → Step config p q
    → p.leader_id ≡ none
    → q.leader_id ≡ none
unfolding on_exit respawn_worker fork_worker lose_leader begin_shutdown
Step-leaderless config (exits id now now' p m) e = ground arith
Step-leaderless config (signals s p) e = ground arith

Reach-leaderless :
    (config : StartPrimaryConfig) {p q : Primary}
    → Reach config p q
    → p.leader_id ≡ none
    → q.leader_id ≡ none
Reach-leaderless config here e = e
Reach-leaderless config (next r s) e = Step-leaderless config s (Reach-leaderless config r e)

-- Once a running primary has no leader, which an exit over the respawn limit or with respawns off
-- brings about, no live worker is marked as the leader any more, however long the primary runs.
pub lost_leader_stays_lost :
    (config : StartPrimaryConfig) (cpus first_id : ℕ) (p q r : Primary) (es : List Effect)
    → start_primary config cpus first_id ≡ ok (p, es)
    → Reach config p q
    → q.leader_id ≡ none
    → Reach config q r
    → leaders r.live_workers ≡ 0
lost_leader_stays_lost config cpus first_id p q r es started pq lost qr =
    let v =
      Reach-IsValid config qr
        (Reach-IsValid config pq (started-IsValid config cpus first_id p es started)) in
    let gone = Reach-leaderless config qr lost in ground (arith, v.led)

Step-stopping :
    (config : StartPrimaryConfig) {p q : Primary}
    → Step config p q
    → p.shutting_down ≡ true
    → (q.shutting_down ≡ true)
      × (q.next_id ≡ p.next_id)
      × (length q.live_workers ≤ length p.live_workers)
unfolding on_exit begin_shutdown
Step-stopping config (exits id now now' p m) e =
    ground (arith, length-keep-le (λ w. not (w.id == id)) p.live_workers)
Step-stopping config (signals s p) e = ground arith

Reach-stopping :
    (config : StartPrimaryConfig) {p q : Primary}
    → Reach config p q
    → p.shutting_down ≡ true
    → (q.shutting_down ≡ true)
      × (q.next_id ≡ p.next_id)
      × (length q.live_workers ≤ length p.live_workers)
Reach-stopping config here e = (e, refl, omega arith)
Reach-stopping config (next r s) e =
    let (stop, same, less) = Reach-stopping config r e in
    let (stop', same', less') = Step-stopping config s stop in (stop', same' ∙ same, omega arith)

-- Once the shutdown has begun it stays begun, no worker is forked, and the pool never grows.
pub stopping_forks_none :
    (config : StartPrimaryConfig) (p q : Primary)
    → p.shutting_down ≡ true
    → Reach config p q
    → (q.shutting_down ≡ true)
      × (q.next_id ≡ p.next_id)
      × (length q.live_workers ≤ length p.live_workers)
stopping_forks_none config p q e r = Reach-stopping config r e
