-- ===== src/Database/Pools/Ping.antt =====
-- `pingAll` of src/infrastructure/database/connection/pool.manager.ts.
use nestjs_ddd.Prelude.{
  ℕ, zero, suc, ◌+◌, ◌≤◌, ◌≡◌, refl, Bool, true, false, not, ◌&&◌, ◌||◌, String, List, [], ◌∷◌,
  arith, all, keep, map, length, count_if, Map, length-append, ◌==◌,
}
use nestjs_ddd.Database.Pools.{
  PoolManager, PingEvent, pinged, waited, ping_loop, ping_all, ping_fails, is_required,
}

-- Whether one of `n` pings from `attempt` on succeeds.
abbrev pub answers_within : (ℕ → Bool) → ℕ → ℕ → Bool
answers_within answers zero attempt = false
answers_within answers (suc n) attempt = answers attempt || answers_within answers n (attempt + 1)

abbrev pub is_ping : PingEvent → Bool
is_ping (pinged n) = true
is_ping (waited ms) = false

-- A source is reached if one of the pings succeeds, and it is pinged no more often than allowed.
pub ping_loop_lem :
    (answers : ℕ → Bool) (jitter : ℕ → ℕ) (left attempt : ℕ)
    → ((ping_loop answers jitter left attempt).0 ≡ answers_within answers left attempt)
      × (count_if is_ping (ping_loop answers jitter left attempt).1 ≤ left)
unfolding ping_loop
ping_loop_lem answers jitter zero attempt = (refl, omega arith)
ping_loop_lem answers jitter (suc left) attempt =
    let (reached, few) = ping_loop_lem answers jitter left (attempt + 1) in
    (ground arith, ground arith)

-- What `pingAll` is for: a required source is implemented, and one of its pings succeeds.
abbrev pub is_fine : (String → ℕ → Bool) → ℕ → List String → Map Bool → String × Bool → Bool
is_fine answers retries required clients c =
    not (is_required required clients c.0) || c.1 && answers_within (answers c.0) (retries + 1) 0

length-map : {A B : Type 0} (f : A → B) (xs : List A) → length (map f xs) ≡ length xs
length-map f [] = refl
length-map f (x ∷ xs) = omega (arith, length-map f xs)

length-keep_split :
    {A : Type 0} (f : A → Bool) (xs : List A)
    → length (keep (λ x. not (f x)) xs) + length (keep f xs) ≡ length xs
length-keep_split f [] = omega arith
length-keep_split f (x ∷ xs) = ground (arith, length-keep_split f xs)

module _ (answers : String → ℕ → Bool) (jitter : String → ℕ → ℕ) (retries : ℕ)
    (required : List String) (clients : Map Bool) where
  keep-fails :
      (cs : Map Bool)
      → (length (keep (ping_fails answers jitter retries required clients) cs) == 0)
        ≡ all (is_fine answers retries required clients) cs
  keep-fails [] = refl
  keep-fails (c ∷ cs) =
      ground (arith, keep-fails cs, ping_loop_lem (answers c.0) (jitter c.0) (retries + 1) 0)

-- `pingAll` throws nothing exactly when each source that is required is implemented and answers one
-- of its `retries + 1` pings; if no source is named as required, all that are implemented are.
pub ping_all-fine :
    (answers : String → ℕ → Bool) (jitter : String → ℕ → ℕ) (retries : ℕ) (required : List String)
    (m : PoolManager)
    → (length (ping_all answers jitter retries required m) == 0)
      ≡ all (is_fine answers retries required m.clients) m.clients
unfolding ping_all
ping_all-fine answers jitter retries required m =
    let failing = keep (ping_fails answers jitter retries required m.clients) m.clients in
    let two = length-append (keep (λ c. not c.1) failing) (keep (λ c. c.1) failing) in
    let whole = length-keep_split (λ c. c.1) failing in
    rw length-map
      (rw two (rw whole (keep-fails answers jitter retries required m.clients m.clients)))
