-- ===== src/Cluster/Primary/Shutdown.antt =====
-- The shutdown of the primary (`shutdown` of src/infrastructure/cluster/cluster-primary.ts).
use nestjs_ddd.Prelude.{
  ℕ, ◌≤◌, ◌≡◌, refl, inl, inr, Bool, true, false, Option, none, some, List, [], ◌∷◌, ◌++◌, map,
  arith, ◌==◌, any, length, length-keep-le, not, ap, Bool-cases, if◌then◌else◌, ◌&&◌,
}
use nestjs_ddd.Cluster.Primary.{
  StartPrimaryConfig, Worker, Primary, Signal, Effect, resolve_drained, kill, exit_process, on_exit,
  begin_shutdown, kill_all,
}

abbrev pub kill_of : Effect → Option (ℕ × Signal)
kill_of (kill id s) = some (id, s)
kill_of e = none

-- The workers that are signalled, in order, with their signals.
unfoldable pub killed : List Effect → List (ℕ × Signal)
killed [] = []
killed (e ∷ es) = let ks = killed es in elim (kill_of e) [ none ↦ ks | some k ↦ k ∷ ks ]

abbrev pub is_drained : Effect → Bool
is_drained resolve_drained = true
is_drained e = false

abbrev pub is_exit : Effect → Bool
is_exit (exit_process n) = true
is_exit e = false

abbrev pub ends_with : Effect → ℕ → Bool
ends_with (exit_process n) code = n == code
ends_with e code = false

-- `exit_process code` is the last of the effects, and no other ends the process.
abbrev pub exits_last : List Effect → ℕ → Bool
exits_last [] code = false
exits_last (e ∷ es) code =
    let rest = exits_last es code in
    elim es [ [] ↦ ends_with e code | _ ∷ _ ↦ not (is_exit e) && rest ]

-- The workers that `ids` names exit, one after another, each with the clock at both its readings.
unfoldable pub exit_each : StartPrimaryConfig → List (ℕ × ℕ × ℕ) → Primary → Primary × List Effect
exit_each config [] p = (p, [])
exit_each config ((id, now, now') ∷ rest) p =
    let (q, es) = on_exit config id now now' p in
    let (r, es') = exit_each config rest q in (r, es ++ es')

any-append :
    (f : Effect → Bool) (xs ys : List Effect)
    → any f (xs ++ ys) ≡ (if any f xs then true else any f ys)
any-append f [] ys = refl
any-append f (x ∷ xs) ys = ground (arith, any-append f xs ys)

-- Signals, and then effects that signal none.
pub killed-kill_all :
    (config : StartPrimaryConfig) (s : Signal) (ws : List Worker) (es : List Effect)
    → killed es ≡ []
    → killed (kill_all config s ws ++ es) ≡ map (λ w. (w.id, s)) ws
unfolding killed kill_all
killed-kill_all config s [] es e = e
killed-kill_all config s (w ∷ ws) es e =
    ap (λ ks. (w.id, s) ∷ ks) (killed-kill_all config s ws es e)

pub exits_last-later :
    (e : Effect) (es : List Effect) (n : ℕ)
    → is_exit e ≡ false
    → exits_last es n ≡ true
    → exits_last (e ∷ es) n ≡ true
exits_last-later e [] n quiet h = cc
exits_last-later e (e' ∷ es) n quiet h = ground arith

pub exits_last-kill_all :
    (config : StartPrimaryConfig) (s : Signal) (ws : List Worker) (es : List Effect) (n : ℕ)
    → exits_last es n ≡ true
    → exits_last (kill_all config s ws ++ es) n ≡ true
unfolding kill_all
exits_last-kill_all config s [] es n h = h
exits_last-kill_all config s (w ∷ ws) es n h =
    exits_last-later (kill w.id s) (kill_all config s ws ++ es) n refl
      (exits_last-kill_all config s ws es n h)

kill_all-drained :
    (config : StartPrimaryConfig) (s : Signal) (ws : List Worker)
    → any is_drained (kill_all config s ws) ≡ false
unfolding kill_all
kill_all-drained config s [] = refl
kill_all-drained config s (w ∷ ws) = kill_all-drained config s ws

-- A first signal is passed on to each live worker once, in order, and starts the shutdown; after it,
-- a further signal changes nothing and reaches no worker.
pub begin_shutdown-killed :
    (config : StartPrimaryConfig) (s s' : Signal) (p : Primary)
    → p.shutting_down ≡ false
    → (killed (begin_shutdown config s p).1 ≡ map (λ w. (w.id, s)) p.live_workers)
      × (begin_shutdown config s' (begin_shutdown config s p).0
          ≡ ((begin_shutdown config s p).0, []))
unfolding begin_shutdown killed
begin_shutdown-killed config s s' p e =
    let drained = if length p.live_workers == 0 then resolve_drained ∷ [] else [] in
    (ground (arith, killed-kill_all config s p.live_workers drained (ground arith)), ground arith)

-- The exit of one worker while the shutdown waits.
exit_drained :
    (config : StartPrimaryConfig) (id now now' : ℕ) (p : Primary)
    → p.shutting_down ≡ true
    → p.notify_drained ≡ true
    → (any is_drained (on_exit config id now now' p).1
        ≡ (length (on_exit config id now now' p).0.live_workers == 0))
      × ((on_exit config id now now' p).0.shutting_down ≡ true)
      × ((on_exit config id now now' p).0.notify_drained ≡ true)
      × (length (on_exit config id now now' p).0.live_workers ≤ length p.live_workers)
unfolding on_exit
exit_drained config id now now' p e n =
    ground (arith, length-keep-le (λ w. not (w.id == id)) p.live_workers)

exit_stopping :
    (config : StartPrimaryConfig) (id now now' : ℕ) (p : Primary)
    → p.shutting_down ≡ true
    → ((on_exit config id now now' p).0.shutting_down ≡ true)
      × (length (on_exit config id now now' p).0.live_workers ≤ length p.live_workers)
unfolding on_exit
exit_stopping config id now now' p e =
    ground (arith, length-keep-le (λ w. not (w.id == id)) p.live_workers)

exit_each-length :
    (config : StartPrimaryConfig) (xs : List (ℕ × ℕ × ℕ)) (p : Primary)
    → p.shutting_down ≡ true
    → length (exit_each config xs p).0.live_workers ≤ length p.live_workers
unfolding exit_each
exit_each-length config [] p e = omega arith
exit_each-length config ((id, now, now') ∷ rest) p e =
    let (e', less) = exit_stopping config id now now' p e in
    omega (arith, exit_each-length config rest (on_exit config id now now' p).0 e')

exit_each-drained :
    (config : StartPrimaryConfig) (xs : List (ℕ × ℕ × ℕ)) (p : Primary)
    → p.shutting_down ≡ true
    → p.notify_drained ≡ true
    → length p.live_workers == 0 ≡ false
    → any is_drained (exit_each config xs p).1
      ≡ (length (exit_each config xs p).0.live_workers == 0)
unfolding exit_each
exit_each-drained config [] p e n some_left = ground arith
exit_each-drained config ((id, now, now') ∷ rest) p e n some_left =
    let q = (on_exit config id now now' p).0 in
    let (resolves, e', n', less) = exit_drained config id now now' p e n in
    let joined =
      any-append is_drained (on_exit config id now now' p).1 (exit_each config rest q).1 in
    elim (Bool-cases (length q.live_workers == 0)) [
      | inl empty ↦ ground (arith, exit_each-length config rest q e')
      | inr more ↦ ground (arith, exit_each-drained config rest q e' n' more)
    ]

-- From the first signal on, whichever workers exit and in whatever order: the wait of the shutdown
-- is over exactly when no worker lives.
pub shutdown_drains_iff :
    (config : StartPrimaryConfig) (s : Signal) (xs : List (ℕ × ℕ × ℕ)) (p : Primary)
    → p.shutting_down ≡ false
    → any is_drained
        ((begin_shutdown config s p).1 ++ (exit_each config xs (begin_shutdown config s p).0).1)
      ≡ (length (exit_each config xs (begin_shutdown config s p).0).0.live_workers == 0)
unfolding begin_shutdown
shutdown_drains_iff config s xs p e =
    let (q, es) = begin_shutdown config s p in
    let joined = any-append is_drained es (exit_each config xs q).1 in
    let told = any-append is_drained (kill_all config s p.live_workers) in
    let none_told = kill_all-drained config s p.live_workers in
    elim (Bool-cases (length p.live_workers == 0)) [
      | inl empty ↦ ground (arith, told (resolve_drained ∷ []), exit_each-length config xs q)
      | inr more ↦ ground (arith, told [], exit_each-drained config xs q)
    ]
