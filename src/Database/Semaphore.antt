-- ===== src/Database/Semaphore.antt =====
-- src/infrastructure/database/utils/semaphore.util.ts: `with` as the steps between its awaits.
pub mod Limits
use nestjs_ddd.Prelude.{
  ℕ, zero, suc, ◌+◌, ◌≤◌, ◌≡◌, max, Bool, true, false, List, [], ◌∷◌, ◌++◌, ltb, if◌then◌else◌,
  length, ◌-◌,
}

-- `queue` holds the calls that wait, `woken` those whose promise is resolved and that have not gone
-- on yet, and `running` the number of calls of `fn` in flight.
pub record Semaphore : Type 0 where
  pub count : ℕ
  pub queue : List ℕ
  pub woken : List ℕ
  pub running : ℕ

-- The constructor.
abbrev pub new_semaphore : ℕ → Semaphore
new_semaphore limit = record { count = max 1 limit; queue = []; woken = []; running = 0 }

-- `with`, up to its first await.
unfoldable pub enter : ℕ → Semaphore → Semaphore
enter call s =
    if ltb 0 s.count
    then record s { count = s.count - 1; running = s.running + 1 }
    else record s { queue = s.queue ++ call ∷ [] }

-- The `finally` of a call that ran: `const n = this.queue.shift(); if (n) n();`
unfoldable pub leave : Semaphore → Semaphore
leave s =
    let s' = record s { count = s.count + 1; running = s.running - 1 } in
    elim s.queue [ [] ↦ s' | n ∷ rest ↦ record s' { queue = rest; woken = s.woken ++ n ∷ [] } ]

-- `return this.with(fn)`: the first of the woken calls goes on.
unfoldable pub go_on : Semaphore → Semaphore
go_on s = elim s.woken [ [] ↦ s | call ∷ rest ↦ enter call (record s { woken = rest }) ]

-- The steps that the calls in hand take: one that runs ends, one that was woken goes on.
pub data Advance : Semaphore → Semaphore → Type 0 where
  ends : (s : Semaphore) → 1 ≤ s.running → Advance s (leave s)
  goes_on : (s : Semaphore) → ltb 0 (length s.woken) ≡ true → Advance s (go_on s)

-- Those steps, and new calls between them.
pub data Reach (limit : ℕ) : Semaphore → Type 0 where
  fresh : Reach limit (new_semaphore limit)
  called : (call : ℕ) {s : Semaphore} → Reach limit s → Reach limit (enter call s)
  advanced : {s t : Semaphore} → Reach limit s → Advance s t → Reach limit t
