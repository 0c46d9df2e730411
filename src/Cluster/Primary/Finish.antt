-- ===== src/Cluster/Primary/Finish.antt =====
-- The end of the shutdown of the primary (`shutdown` of src/infrastructure/cluster/cluster-primary.ts,
-- after its wait).
use nestjs_ddd.Prelude.{
  ◌≡◌, refl, inl, inr, Bool, true, false, List, [], ◌∷◌, ◌++◌, map, arith, length, Bool-cases,
  if◌then◌else◌, ◌&&◌, ltb, ℕ, not, any, ap, ◌∙◌, subst, ◌==◌,
}
use nestjs_ddd.Cluster.Primary.{
  StartPrimaryConfig, Worker, Primary, Signal, sigkill, Effect, log_drain_timeout, close_metrics,
  log_finished, exit_process, finish_shutdown, begin_shutdown, kill_all, has_metrics_server,
  wait_ms,
}
use nestjs_ddd.Cluster.Primary.Shutdown.{
  killed, is_drained, exit_each, shutdown_drains_iff, exits_last, exits_last-later,
  exits_last-kill_all, killed-kill_all,
}

-- `shutdown` after the kill of what is left.
abbrev closing : StartPrimaryConfig → Signal → List Effect
closing config s =
    (if has_metrics_server config then close_metrics ∷ [] else [])
    ++ log_finished s ∷ exit_process 0 ∷ []

killed-closing : (config : StartPrimaryConfig) (s : Signal) → killed (closing config s) ≡ []
unfolding killed
killed-closing config s = elim (Bool-cases (has_metrics_server config)) [
  | inl served ↦ rw served refl
  | inr off ↦ rw off refl
]

exits_last-closing :
    (config : StartPrimaryConfig) (s : Signal) → exits_last (closing config s) 0 ≡ true
exits_last-closing config s = elim (Bool-cases (has_metrics_server config)) [
  | inl served ↦ rw served refl
  | inr off ↦ rw off refl
]

-- The kill of what is left, `ws`.
abbrev cut : StartPrimaryConfig → Bool → List Worker → List Effect
cut config timed_out ws =
    if timed_out && ltb 0 (length ws)
    then log_drain_timeout (map (λ w. w.id) ws) (wait_ms config) ∷ kill_all config sigkill ws
    else []

killed-cut :
    (config : StartPrimaryConfig) (timed_out : Bool) (ws : List Worker) (es : List Effect)
    → killed es ≡ []
    → killed (cut config timed_out ws ++ es)
      ≡ (if timed_out then map (λ w. (w.id, sigkill)) ws else [])
unfolding killed
killed-cut config false ws es e = e
killed-cut config true [] es e = e
killed-cut config true (w ∷ ws) es e =
    let more : ltb 0 (length (w ∷ ws)) ≡ true = ground arith in
    rw more (killed-kill_all config sigkill (w ∷ ws) es e)

exits_last-cut :
    (config : StartPrimaryConfig) (timed_out : Bool) (ws : List Worker) (es : List Effect)
    → exits_last es 0 ≡ true
    → exits_last (cut config timed_out ws ++ es) 0 ≡ true
exits_last-cut config false ws es e = e
exits_last-cut config true [] es e = e
exits_last-cut config true (w ∷ ws) es e =
    let more : ltb 0 (length (w ∷ ws)) ≡ true = ground arith in
    rw more (
      exits_last-later (log_drain_timeout (map (λ w. w.id) (w ∷ ws)) (wait_ms config))
        (kill_all config sigkill (w ∷ ws) ++ es) 0 refl
        (exits_last-kill_all config sigkill (w ∷ ws) es 0 e))

-- The end of the shutdown kills each worker that lives if the wait timed out, and none otherwise;
-- either way the primary exits at the very end, with code 0.
pub finish_shutdown-killed :
    (config : StartPrimaryConfig) (s : Signal) (timed_out : Bool) (p : Primary)
    → (killed (finish_shutdown config s timed_out p)
        ≡ (if timed_out then map (λ w. (w.id, sigkill)) p.live_workers else []))
      × (exits_last (finish_shutdown config s timed_out p) 0 ≡ true)
unfolding finish_shutdown killed
finish_shutdown-killed config s timed_out p = (
  killed-cut config timed_out p.live_workers (closing config s) (killed-closing config s),
  exits_last-cut config timed_out p.live_workers (closing config s) (exits_last-closing config s),
)

-- A shutdown that a first signal starts: the workers that `xs` names exit before its wait ends, in this
-- order, and the wait comes to 'timeout' unless the promise was resolved before.
unfoldable pub run_shutdown :
    StartPrimaryConfig → Signal → List (ℕ × ℕ × ℕ) → Primary → Primary × Bool × List Effect
unfolding exit_each
run_shutdown config s xs p =
    let (q, begun) = begin_shutdown config s p in
    let (r, exits) = exit_each config xs q in
    let timed_out = not (any is_drained (begun ++ exits)) in
    (r, timed_out, finish_shutdown config s timed_out r)

abbrev left_kill : Worker → ℕ × Signal
left_kill w = (w.id, sigkill)

killed_left :
    (timed_out : Bool) (ws : List Worker)
    → timed_out ≡ not (length ws == 0)
    → (if timed_out then map (λ (w : Worker). left_kill w) ws else [])
      ≡ map (λ (w : Worker). left_kill w) ws
killed_left timed_out [] e = rw e refl
killed_left timed_out (w ∷ ws) e = let more : timed_out ≡ true = ground arith in rw more refl

-- What holds of the primary, of what the wait came to, and of the effects after it.
abbrev IsOver : Primary × Bool × List Effect → Type 0
IsOver (r, timed_out, es) =
    (timed_out ≡ not (length r.live_workers == 0))
    × (killed es ≡ map left_kill r.live_workers)
    × (exits_last es 0 ≡ true)

run_shutdown-IsOver :
    (config : StartPrimaryConfig) (s : Signal) (xs : List (ℕ × ℕ × ℕ)) (p : Primary)
    → p.shutting_down ≡ false
    → IsOver (run_shutdown config s xs p)
unfolding run_shutdown
run_shutdown-IsOver config s xs p quiet =
    let (q, begun) = begin_shutdown config s p in
    let (r, exits) = exit_each config xs q in
    let timed_out = not (any is_drained (begun ++ exits)) in
    let out_is : timed_out ≡ not (length r.live_workers == 0) =
      ap not (shutdown_drains_iff config s xs p quiet) in
    let (kills, exits_at_end) = finish_shutdown-killed config s timed_out r in
    (out_is, kills ∙ killed_left timed_out r.live_workers out_is, exits_at_end)

-- The shutdown that a first signal starts, whichever workers exit before its wait ends and in whatever
-- order. The wait comes to its time limit exactly when a worker still lives; at its end each worker
-- that still lives is killed, and no other is signalled; and the primary exits at the very end, with
-- code 0.
pub run_shutdown_lem :
    (config : StartPrimaryConfig) (s : Signal) (xs : List (ℕ × ℕ × ℕ)) (p r : Primary)
    (timed_out : Bool) (es : List Effect)
    → p.shutting_down ≡ false
    → run_shutdown config s xs p ≡ (r, timed_out, es)
    → (timed_out ≡ not (length r.live_workers == 0))
      × (killed es ≡ map (λ w. (w.id, sigkill)) r.live_workers)
      × (exits_last es 0 ≡ true)
run_shutdown_lem config s xs p r timed_out es quiet ran =
    subst IsOver ran (run_shutdown-IsOver config s xs p quiet)
