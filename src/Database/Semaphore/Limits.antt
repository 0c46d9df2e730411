-- ===== src/Database/Semaphore/Limits.antt =====
-- What `Semaphore` (src/infrastructure/database/utils/semaphore.util.ts) promises: the limit, and
-- that the calls in hand finish once no new one arrives.
use nestjs_ddd.Prelude.{
  ℕ, suc, ◌+◌, ◌*◌, ◌-◌, ◌≤◌, ◌<◌, ◌≡◌, ◌⊎◌, inl, inr, refl, max, true, false, List, [], ◌∷◌, ltb,
  length, length-append, arith,
}
use nestjs_ddd.Database.Semaphore.{
  Semaphore, enter, leave, go_on, Advance, ends, goes_on, Reach, fresh, called, advanced,
}

-- Every slot is free or taken, and a free slot with a call in the queue has a woken call to take it.
pub record IsValid (limit : ℕ) (s : Semaphore) : Type 0 where
  pub slots : s.running + s.count ≡ max 1 limit
  pub awake : (length s.queue ≡ 0) ⊎ (s.count ≤ length s.woken)

-- The calls that are not done.
unfoldable pub open_calls : Semaphore → ℕ
open_calls s = s.running + length s.queue + length s.woken

-- How many steps they can still take.
unfoldable pub budget : Semaphore → ℕ
unfolding open_calls
budget s = 2 * open_calls s + length s.woken

list-cases : {A : Type 0} (xs : List A) → (xs ≡ []) ⊎ ((x : A) × (rest : List A) × (xs ≡ x ∷ rest))
list-cases [] = inl refl
list-cases (x ∷ rest) = inr (x, rest, refl)

-- The lengths that each step leaves.
enter_sizes :
    (call : ℕ) (s : Semaphore)
    → ((ltb 0 s.count ≡ true)
        × ((enter call s).running ≡ s.running + 1)
        × ((enter call s).count ≡ s.count - 1)
        × (length (enter call s).queue ≡ length s.queue)
        × (length (enter call s).woken ≡ length s.woken))
      ⊎ ((ltb 0 s.count ≡ false)
          × ((enter call s).running ≡ s.running)
          × ((enter call s).count ≡ s.count)
          × (length (enter call s).queue ≡ length s.queue + 1)
          × (length (enter call s).woken ≡ length s.woken))
unfolding enter
enter_sizes call s = ground (arith, length-append s.queue (call ∷ []))

leave_sizes :
    (s : Semaphore)
    → ((leave s).running ≡ s.running - 1)
      × ((leave s).count ≡ s.count + 1)
      × (((length s.queue ≡ 0)
            × (length (leave s).queue ≡ 0)
            × (length (leave s).woken ≡ length s.woken))
          ⊎ ((length s.queue ≡ length (leave s).queue + 1)
              × (length (leave s).woken ≡ length s.woken + 1)))
unfolding leave
leave_sizes s = elim (list-cases s.queue) [
  | inl e ↦ ground arith
  | inr (n, rest, e) ↦ ground (arith, length-append s.woken (n ∷ []))
]

enter-IsValid : (limit call : ℕ) (s : Semaphore) → IsValid limit s → IsValid limit (enter call s)
enter-IsValid limit call s v = record {
  slots = ground (arith, v.slots, enter_sizes call s);
  awake = ground (arith, v.awake, enter_sizes call s);
}

leave-IsValid :
    (limit : ℕ) (s : Semaphore) → 1 ≤ s.running → IsValid limit s → IsValid limit (leave s)
leave-IsValid limit s busy v = record {
  slots = ground (arith, v.slots, leave_sizes s);
  awake = ground (arith, v.awake, leave_sizes s);
}

go_on_sizes :
    (s : Semaphore)
    → ltb 0 (length s.woken) ≡ true
    → (call : ℕ) × (rest : List ℕ) × (length s.woken ≡ length rest + 1)
      × (go_on s ≡ enter call (record s { woken = rest }))
unfolding go_on
go_on_sizes s some_woken = elim (list-cases s.woken) [
  | inl e ↦ (0, [], ground arith, ground arith)
  | inr (call, rest, e) ↦ (call, rest, ground arith, ground arith)
]

go_on-IsValid :
    (limit : ℕ) (s : Semaphore)
    → ltb 0 (length s.woken) ≡ true
    → IsValid limit s
    → IsValid limit (go_on s)
go_on-IsValid limit s some_woken v =
    let (call, rest, len, e) = go_on_sizes s some_woken in
    let sizes = enter_sizes call (record s { woken = rest }) in
    rw e (record { slots = ground (arith, v.slots); awake = ground (arith, v.awake) })

Advance-IsValid : (limit : ℕ) {s t : Semaphore} → Advance s t → IsValid limit s → IsValid limit t
Advance-IsValid limit (ends s busy) v = leave-IsValid limit s busy v
Advance-IsValid limit (goes_on s some_woken) v = go_on-IsValid limit s some_woken v

Reach-IsValid : (limit : ℕ) {s : Semaphore} → Reach limit s → IsValid limit s
Reach-IsValid limit fresh = record { slots = omega arith; awake = inl refl }
Reach-IsValid limit (called call r) = enter-IsValid limit call _ (Reach-IsValid limit r)
Reach-IsValid limit (advanced r a) = Advance-IsValid limit a (Reach-IsValid limit r)

-- However calls arrive, end and go on, no more than `max(1, limit)` of them run at a time.
pub running-le : (limit : ℕ) (s : Semaphore) → Reach limit s → s.running ≤ max 1 limit
running-le limit s r = omega (arith, (Reach-IsValid limit r).slots)

Advance-budget : {s t : Semaphore} → Advance s t → budget t < budget s
unfolding budget open_calls
Advance-budget (ends s busy) = ground (arith, leave_sizes s)
Advance-budget (goes_on s some_woken) =
    let (call, rest, len, e) = go_on_sizes s some_woken in
    let sizes = enter_sizes call (record s { woken = rest }) in rw e (ground arith)

-- A row of steps of the calls in hand, with no new call between them.
pub data Run : ℕ → Semaphore → Semaphore → Type 0 where
  stop : {s : Semaphore} → Run 0 s s
  then_ : {n : ℕ} {s t u : Semaphore} → Advance s t → Run n t u → Run (suc n) s u

Run-budget : {n : ℕ} {s t : Semaphore} → Run n s t → n + budget t ≤ budget s
Run-budget stop = omega arith
Run-budget (then_ a r) = omega (arith, Advance-budget a, Run-budget r)

Run-IsValid : (limit : ℕ) {n : ℕ} {s t : Semaphore} → Run n s t → IsValid limit s → IsValid limit t
Run-IsValid limit stop v = v
Run-IsValid limit (then_ a r) v = Run-IsValid limit r (Advance-IsValid limit a v)

-- Once no new call arrives, the calls in hand all finish, if each that runs ends. From every state that
-- is reached, they can take only so many steps, `budget s`; and after any of these, while a call is not
-- done, one of the calls can take a step.
pub calls_finish :
    (limit n : ℕ) (s t : Semaphore)
    → Reach limit s
    → Run n s t
    → (n ≤ budget s) × ((open_calls t ≡ 0) ⊎ (1 ≤ t.running) ⊎ (ltb 0 (length t.woken) ≡ true))
unfolding open_calls
calls_finish limit n s t r run =
    let v = Run-IsValid limit run (Reach-IsValid limit r) in
    (omega (arith, Run-budget run), ground (arith, v.slots, v.awake))
