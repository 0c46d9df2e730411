-- ===== src/Lifecycle.antt =====
-- src/infrastructure/lifecycle: `ShutdownState`, and `runGracefulShutdown` as the row of its effects.
pub mod Once
use nestjs_ddd.Prelude.{
  ℕ, zero, suc, ◌+◌, ◌-◌, Bool, true, false, not, ◌&&◌, Option, none, some, List, [], ◌∷◌, ◌++◌,
  leb, ltb, is_some, if◌then◌else◌,
}

pub record ShutdownState : Type 0 where
  pub shutting_down : Bool

-- `begin`
unfoldable pub begin : ShutdownState → Bool × ShutdownState
begin s = if s.shutting_down then (false, s) else (true, record { shutting_down = true })

pub record GracefulShutdownOptions : Type 0 where
  pub drain_delay_ms : ℕ
  pub force_after_ms : ℕ
  pub has_drain_jobs : Bool
  pub has_close_all : Bool  -- `server.closeAllConnections` is there

pub data LifecycleEvent : Type 0 where
  ignored started draining forced finished : LifecycleEvent
  readiness_failed idle_closed all_cut server_closed jobs_drained app_closed : LifecycleEvent
  waited : ℕ → LifecycleEvent

-- The wait for `server.close`, and whether it is over at all: `open_for` is how long the last
-- request goes on by itself, if it ends.
unfoldable pub close_server : GracefulShutdownOptions → Option ℕ → Bool × List LifecycleEvent
close_server o open_for =
    let cut = forced ∷ (if o.has_close_all then all_cut ∷ [] else []) in
    elim open_for [
      | some ms ↦
          if leb ms o.force_after_ms
          then (true, waited ms ∷ server_closed ∷ [])
          else if o.has_close_all
          then (true, waited o.force_after_ms ∷ cut ++ server_closed ∷ [])
          else (
            true,
            waited o.force_after_ms ∷ cut ++ waited (ms - o.force_after_ms) ∷ server_closed ∷ [],
          )
      | none ↦
          if o.has_close_all
          then (true, waited o.force_after_ms ∷ cut ++ server_closed ∷ [])
          else (false, waited o.force_after_ms ∷ cut)
    ]

-- `runGracefulShutdown`: its answer, `none` if it never returns, and its effects.
unfoldable pub run_graceful_shutdown :
    GracefulShutdownOptions
    → Option ℕ
    → ShutdownState
    → Option Bool × ShutdownState × List LifecycleEvent
unfolding begin close_server
run_graceful_shutdown o open_for s =
    let (first, s') = begin s in
    let (closed, es) = close_server o open_for in
    let before =
      readiness_failed ∷ started ∷ waited o.drain_delay_ms ∷ draining ∷ idle_closed ∷ es in
    if not first
    then (some false, s', ignored ∷ [])
    else if closed
    then (
      some true,
      s',
      before
          ++ ((if o.has_drain_jobs then jobs_drained ∷ [] else []) ++ app_closed ∷ finished ∷ []),
    )
    else (none, s', before)

-- Signals, one after another.
unfoldable pub on_signals :
    GracefulShutdownOptions → Option ℕ → ℕ → ShutdownState → List LifecycleEvent
on_signals o open_for zero s = []
on_signals o open_for (suc n) s =
    let (answer, s', es) = run_graceful_shutdown o open_for s in es ++ on_signals o open_for n s'
