-- ===== src/Cluster/Primary/Leader/Exit.antt =====
-- `onExit` and the start of `shutdown` (src/infrastructure/cluster/cluster-primary.ts) keep the pool valid.
use nestjs_ddd.Prelude.{
  ℕ, ◌<◌, ◌≡◌, inl, inr, true, false, not, none, some, List, [], arith, ◌==◌, length, any, All,
  Bool-cases, ◌∙◌, length-keep-le, count_if-keep-le, All-keep,
}
use nestjs_ddd.Cluster.Respawn.{admit}
use nestjs_ddd.Cluster.Primary.{
  StartPrimaryConfig, Primary, Signal, is_leader_id, fork_worker, without, on_exit, begin_shutdown,
  lose_leader, respawn_worker,
}
use nestjs_ddd.Cluster.Primary.Leader.{
  leaders, IsKnown, IsValid, without_leader, without_other, length-without, fork_leader-IsValid,
  fork_plain-IsValid, is_leader_id-true,
}

module _ (config : StartPrimaryConfig) where
  -- The pool after the exit, when the leader went and when another worker went.
  exit_leader :
      (l : ℕ) (p : Primary)
      → IsValid p
      → p.leader_id ≡ some l
      → (leaders (without l p.live_workers) ≡ 0)
        × All (IsKnown p.next_id none) (without l p.live_workers)
  exit_leader l p v e = without_leader p.next_id l p.live_workers (rw e at v.known)

  lose_leader-IsValid :
      (id : ℕ) (stamps : List ℕ) (p : Primary)
      → IsValid p
      → any (λ w. w.id == id) p.live_workers ≡ true
      → IsValid
          (lose_leader config id
            (is_leader_id p.leader_id id)
            (record p { live_workers = without id p.live_workers; respawn_timestamps = stamps })).0
  unfolding lose_leader
  lose_leader-IsValid id stamps p v member = elim (Bool-cases (is_leader_id p.leader_id id)) [
    | inl led ↦
        let (none_left, known) = exit_leader id p v (is_leader_id-true p.leader_id id led) in
        rw led (record {
          known = known;
          led = omega (arith, none_left);
          steady = λ e. none_left;
          bound = omega arith;
          sized = omega (arith, v.sized, length-without id p.live_workers member);
        })
    | inr plain ↦
        let (same, known) = without_other p.next_id id p.leader_id p.live_workers plain v.known in
        rw plain (record {
          known = known;
          led = rw same v.led;
          steady = λ e. same ∙ v.steady e;
          bound = v.bound;
          sized = omega (arith, v.sized, length-without id p.live_workers member);
        })
  ]

  -- The pool after the exit of a worker, with its place not yet taken.
  abbrev left_by : ℕ → List ℕ → Primary → Primary
  left_by id stamps p = record p {
    live_workers = without id p.live_workers;
    respawn_timestamps = stamps;
  }

  respawned-IsValid :
      (id : ℕ) (stamps : List ℕ) (p : Primary)
      → IsValid p
      → any (λ w. w.id == id) p.live_workers ≡ true
      → IsValid (fork_worker (is_leader_id p.leader_id id) (left_by id stamps p)).0
  respawned-IsValid id stamps p v member =
      let room : length (without id p.live_workers) < p.worker_count =
        omega (arith, v.sized, length-without id p.live_workers member) in
      elim (Bool-cases (is_leader_id p.leader_id id)) [
        | inl led ↦
            let (none_left, known) = exit_leader id p v (is_leader_id-true p.leader_id id led) in
            rw led (fork_leader-IsValid (left_by id stamps p) known none_left room)
        | inr plain ↦
            let (same, known) =
              without_other p.next_id id p.leader_id p.live_workers plain v.known in
            rw plain (
              fork_plain-IsValid (left_by id stamps p)
                (record {
                  known = known;
                  led = rw same v.led;
                  steady = λ e. same ∙ v.steady e;
                  bound = v.bound;
                  sized = omega arith;
                })
                room)
      ]

  not_replaced-IsValid :
      (id : ℕ) (p : Primary)
      → IsValid p
      → p.shutting_down ≡ true
      → IsValid (left_by id p.respawn_timestamps p)
  not_replaced-IsValid id p v stopping = record {
    known = All-keep (IsKnown p.next_id p.leader_id) (λ w. not (w.id == id)) p.live_workers v.known;
    led =
        omega
          (arith, v.led, count_if-keep-le (λ w. w.leader) (λ w. not (w.id == id)) p.live_workers);
    steady = λ e. cc;
    bound = v.bound;
    sized = omega (arith, v.sized, length-keep-le (λ w. not (w.id == id)) p.live_workers);
  }

  pub on_exit_stopping :
      (id now now' : ℕ) (p : Primary)
      → p.shutting_down ≡ true
      → (on_exit config id now now' p).0 ≡ left_by id p.respawn_timestamps p
  unfolding on_exit
  on_exit_stopping id now now' p e = ground arith

  on_exit_no_respawn :
      (id now now' : ℕ) (p : Primary)
      → p.shutting_down ≡ false
      → config.respawn ≡ false
      → (on_exit config id now now' p).0
        ≡ (lose_leader config id
            (is_leader_id p.leader_id id)
            (left_by id p.respawn_timestamps p)).0
  unfolding on_exit
  on_exit_no_respawn id now now' p e off = ground arith

  on_exit_allowed :
      (id now now' : ℕ) (p : Primary)
      → p.shutting_down ≡ false
      → config.respawn ≡ true
      → (admit config.respawn_max_per_minute now now' p.respawn_timestamps).0 ≡ true
      → (on_exit config id now now' p).0
        ≡ (fork_worker
            (is_leader_id p.leader_id id)
            (left_by id (admit config.respawn_max_per_minute now now' p.respawn_timestamps).1 p)).0
  unfolding on_exit respawn_worker
  on_exit_allowed id now now' p e on allowed = ground arith

  on_exit_capped :
      (id now now' : ℕ) (p : Primary)
      → p.shutting_down ≡ false
      → config.respawn ≡ true
      → (admit config.respawn_max_per_minute now now' p.respawn_timestamps).0 ≡ false
      → (on_exit config id now now' p).0
        ≡ (lose_leader config id
            (is_leader_id p.leader_id id)
            (left_by id (admit config.respawn_max_per_minute now now' p.respawn_timestamps).1 p)).0
  unfolding on_exit respawn_worker
  on_exit_capped id now now' p e on capped = ground arith

  pub on_exit-IsValid :
      (id now now' : ℕ) (p : Primary)
      → any (λ w. w.id == id) p.live_workers ≡ true
      → IsValid p
      → IsValid (on_exit config id now now' p).0
  on_exit-IsValid id now now' p member v =
      let stamps = (admit config.respawn_max_per_minute now now' p.respawn_timestamps).1 in
      elim (Bool-cases p.shutting_down) [
        | inl stopping ↦
            rw (on_exit_stopping id now now' p stopping) (not_replaced-IsValid id p v stopping)
        | inr running ↦ elim (Bool-cases config.respawn) [
          | inr off ↦
              rw (on_exit_no_respawn id now now' p running off)
                (lose_leader-IsValid id p.respawn_timestamps p v member)
          | inl on ↦
              elim (Bool-cases
                (admit config.respawn_max_per_minute now now' p.respawn_timestamps).0) [
                  | inl allowed ↦
                      rw (on_exit_allowed id now now' p running on allowed)
                        (respawned-IsValid id stamps p v member)
                  | inr capped ↦
                      rw (on_exit_capped id now now' p running on capped)
                        (lose_leader-IsValid id stamps p v member)
                ]
        ]
      ]

  pub begin_shutdown_running :
      (s : Signal) (p : Primary)
      → p.shutting_down ≡ false
      → (begin_shutdown config s p).0
        ≡ record p { shutting_down = true; notify_drained = not (length p.live_workers == 0) }
  unfolding begin_shutdown
  begin_shutdown_running s p e = ground arith

  begin_shutdown_again :
      (s : Signal) (p : Primary) → p.shutting_down ≡ true → begin_shutdown config s p ≡ (p, [])
  unfolding begin_shutdown
  begin_shutdown_again s p e = ground arith

  pub begin_shutdown-IsValid :
      (s : Signal) (p : Primary) → IsValid p → IsValid (begin_shutdown config s p).0
  begin_shutdown-IsValid s p v = elim (Bool-cases p.shutting_down) [
    | inl stopping ↦ rw (begin_shutdown_again s p stopping) v
    | inr running ↦ rw (begin_shutdown_running s p running) (record {
      known = v.known;
      led = v.led;
      steady = λ e. cc;
      bound = v.bound;
      sized = v.sized;
    })
  ]
