-- ===== src/Cluster/Primary/Leader.antt =====
-- The leader of the worker pool (src/infrastructure/cluster/cluster-primary.ts): what holds of it, and what an exit
-- and a fork do to the list of live workers.
pub mod Exit
pub mod Reachable
use nestjs_ddd.Prelude.{
  ℕ, zero, suc, ◌+◌, ◌≤◌, ◌<◌, ◌≡◌, refl, ◌≢◌, ◌⊎◌, inl, inr, Bool, true, false, not, ◌&&◌, Option,
  none, some, List, [], ◌∷◌, ◌++◌, arith, ◌==◌, is_some, keep, length, any, count_if,
  count_if-append, length-append, if◌then◌else◌, All, All-append, Bool-cases, Option-cases, ap, ◌∙◌,
  length-keep-le, count_if-keep-le, All-keep,
}
use nestjs_ddd.Cluster.Respawn.{admit}
use nestjs_ddd.Cluster.Boot.{resolve_worker_count, run_cluster_boot_rails}
use nestjs_ddd.Shared.Outcome.{Result, ok, err}
use nestjs_ddd.Cluster.Primary.{
  StartPrimaryConfig, Worker, Primary, Signal, Effect, is_leader_id, fork_worker, fork_all,
  empty_primary, start_primary, without, on_exit, begin_shutdown, lose_leader, respawn_worker,
}

abbrev pub leaders : List Worker → ℕ
leaders ws = count_if (λ w. w.leader) ws

-- What holds of each live worker: its id is used up, and its environment says whether it leads.
abbrev pub IsKnown : ℕ → Option ℕ → Worker → Type 0
IsKnown next lid w = (w.id < next) × (w.leader ≡ is_leader_id lid w.id)

-- One above the leader's id.
abbrev pub leader_bound : Option ℕ → ℕ
leader_bound none = 0
leader_bound (some l) = suc l

pub record IsValid (p : Primary) : Type 0 where
  pub known : All (IsKnown p.next_id p.leader_id) p.live_workers
  pub led : leaders p.live_workers ≤ (if is_some p.leader_id then 1 else 0)
  pub steady :
      p.shutting_down ≡ false → leaders p.live_workers ≡ (if is_some p.leader_id then 1 else 0)
  pub bound : leader_bound p.leader_id ≤ p.next_id
  pub sized : length p.live_workers ≤ p.worker_count

pub without_leader :
    (next l : ℕ) (ws : List Worker)
    → All (IsKnown next (some l)) ws
    → (leaders (without l ws) ≡ 0) × All (IsKnown next none) (without l ws)
without_leader next l [] h = (refl, tt)
without_leader next l (w ∷ ws) (h, hs) =
    let (none_left, known) = without_leader next l ws hs in ground arith

pub without_other :
    (next id : ℕ) (lid : Option ℕ) (ws : List Worker)
    → is_leader_id lid id ≡ false
    → All (IsKnown next lid) ws
    → (leaders (without id ws) ≡ leaders ws) × All (IsKnown next lid) (without id ws)
without_other next id lid [] f h = (refl, tt)
without_other next id lid (w ∷ ws) f (h, hs) =
    let (same, known) = without_other next id lid ws f hs in
    elim (Bool-cases (w.id == id)) [
      | inl here ↦
          let e : w.id ≡ id = ground arith in
          let off : w.leader ≡ false = h.1 ∙ ap (is_leader_id lid) e ∙ f in ground arith
      | inr away ↦ ground arith
    ]

pub length-without :
    (id : ℕ) (ws : List Worker)
    → any (λ w. w.id == id) ws ≡ true
    → length (without id ws) < length ws
length-without id [] h = cc
length-without id (w ∷ ws) h =
    ground (arith, length-without id ws, length-keep-le (λ v. not (v.id == id)) ws)

IsKnown-fork_leader :
    (next : ℕ) (ws : List Worker)
    → All (IsKnown next none) ws
    → All (IsKnown (next + 1) (some next)) ws
IsKnown-fork_leader next [] h = tt
IsKnown-fork_leader next (w ∷ ws) (h, hs) = (ground arith, IsKnown-fork_leader next ws hs)

IsKnown-fork :
    (next : ℕ) (lid : Option ℕ) (ws : List Worker)
    → All (IsKnown next lid) ws
    → All (IsKnown (next + 1) lid) ws
IsKnown-fork next lid [] h = tt
IsKnown-fork next lid (w ∷ ws) (h, hs) = ((omega arith, h.1), IsKnown-fork next lid ws hs)

pub fork_leader-IsValid :
    (p : Primary)
    → All (IsKnown p.next_id none) p.live_workers
    → leaders p.live_workers ≡ 0
    → length p.live_workers < p.worker_count
    → IsValid (fork_worker true p).0
unfolding fork_worker
fork_leader-IsValid p known led room = record {
  known =
      All-append (IsKnown (p.next_id + 1) (some p.next_id)) p.live_workers _
        (IsKnown-fork_leader p.next_id p.live_workers known) ((omega arith, ground arith), tt);
  led = rw count_if-append (omega (arith, led));
  steady = λ e. rw count_if-append (omega (arith, led));
  bound = omega arith;
  sized = rw length-append (omega arith);
}

pub fork_plain-IsValid :
    (p : Primary)
    → IsValid p
    → length p.live_workers < p.worker_count
    → IsValid (fork_worker false p).0
unfolding fork_worker
fork_plain-IsValid p v room = record {
  known =
      All-append (IsKnown (p.next_id + 1) p.leader_id) p.live_workers _
        (IsKnown-fork p.next_id p.leader_id p.live_workers v.known)
        ((omega arith, ground (arith, v.bound)), tt);
  led = rw count_if-append (ground (arith, v.led));
  steady = λ e. rw count_if-append (ground (arith, v.steady e));
  bound = omega (arith, v.bound);
  sized = rw length-append (omega arith);
}

pub is_leader_id-true : (lid : Option ℕ) (id : ℕ) → is_leader_id lid id ≡ true → lid ≡ some id
is_leader_id-true none id h = cc
is_leader_id-true (some l) id h = ground arith
