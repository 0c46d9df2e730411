-- ===== src/Lifecycle/Once.antt =====
-- The order of the shutdown (src/infrastructure/lifecycle/graceful-shutdown.ts).
use nestjs_ddd.Prelude.{
  ℕ, zero, suc, ◌≡◌, refl, Bool, true, false, ◌||◌, Option, List, [], ◌∷◌, ◌++◌, keep, arith,
  is_some, if◌then◌else◌,
}
use nestjs_ddd.Lifecycle.{
  ShutdownState, GracefulShutdownOptions, LifecycleEvent, readiness_failed, server_closed,
  jobs_drained, app_closed, begin, close_server, run_graceful_shutdown, on_signals,
}

-- The stages that a load balancer and the jobs depend on.
abbrev pub is_stage : LifecycleEvent → Bool
is_stage readiness_failed = true
is_stage server_closed = true
is_stage jobs_drained = true
is_stage app_closed = true
is_stage _ = false

keep-append :
    (xs ys : List LifecycleEvent) → keep is_stage (xs ++ ys) ≡ keep is_stage xs ++ keep is_stage ys
keep-append [] ys = refl
keep-append (x ∷ xs) ys = ground (arith, keep-append xs ys)

later_signals :
    (o : GracefulShutdownOptions) (open_for : Option ℕ) (n : ℕ) (s : ShutdownState)
    → s.shutting_down ≡ true
    → keep is_stage (on_signals o open_for n s) ≡ []
unfolding on_signals run_graceful_shutdown begin
later_signals o open_for zero s e = refl
later_signals o open_for (suc n) s e = ground (arith, later_signals o open_for n s e)

-- However many signals come, and whether the requests in flight end by themselves or are cut: the
-- readiness fails first, then the server closes, then the jobs are drained if there is a scheduler,
-- and the application with its pools closes last, each once. The server can cut its connections, or
-- the last request ends.
pub on_signals-stages :
    (o : GracefulShutdownOptions) (open_for : Option ℕ) (n : ℕ)
    → (o.has_close_all || is_some open_for ≡ true)
    → keep is_stage (on_signals o open_for (suc n) (record { shutting_down = false }))
      ≡ readiness_failed
        ∷ server_closed
        ∷ ((if o.has_drain_jobs then jobs_drained ∷ [] else []) ++ app_closed ∷ [])
unfolding on_signals run_graceful_shutdown begin close_server
on_signals-stages o open_for n ends =
    let later = later_signals o open_for n (record { shutting_down = true }) refl in ground arith
