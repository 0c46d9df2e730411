-- ===== src/Http/Client/Laws.antt =====
-- What a request of `FetchHttpClient` (src/infrastructure/http/fetch-http.client.ts) does at most:
-- attempts, waits, and when it ends.
use native.Mathlib.Numerals.{add-one}
use nestjs_ddd.Prelude.{
  ℕ, zero, suc, ◌+◌, ◌*◌, ◌≤◌, ◌<◌, ◌≡◌, refl, ◌⊎◌, inl, inr, true, Option, some, List, [], ◌∷◌,
  ◌++◌, arith, count_if, count_if-append, if◌then◌else◌,
}
use nestjs_ddd.Http.Retry.Delay.{retry_delay_ms-le-max}
use nestjs_ddd.Http.Client.Events.{
  HttpClientConfig, HttpRequest, Surroundings, Event, is_sent, waited,
}
use nestjs_ddd.Http.Client.Loop.{
  Platform, Finished, Turn, done, again, Breakers, prefix, retries, retryable, turn, after_attempt,
  rounds, breaker_for, run_request,
}

waited-append : (xs ys : List Event) → waited (xs ++ ys) ≡ waited xs + waited ys
waited-append [] ys = omega arith
waited-append (x ∷ xs) ys = omega (arith, waited-append xs ys)

module _ (js : Platform) (config : HttpClientConfig) (request : HttpRequest) where
  turn-again :
      (env : Surroundings) (k : ℕ) (m m' : Breakers) (es : List Event)
      → turn js config request env k m ≡ again m' es
      → (retryable js config request ≡ true)
        × (k < retries js config request)
        × (count_if is_sent es ≡ 1)
        × (waited es ≤ config.retry_max_delay_ms)
  unfolding turn after_attempt
  turn-again env k m m' es e =
      (ground arith, ground arith, ground arith, grind (arith, retry_delay_ms-le-max))

  turn-done :
      (env : Surroundings) (k : ℕ) (m : Breakers) (f : Finished)
      → turn js config request env k m ≡ done f
      → (count_if is_sent f.events ≤ 1) × (waited f.events ≡ 0)
  unfolding turn after_attempt
  turn-done env k m f e = (ground arith, ground arith)

  pub turn-cases :
      (env : Surroundings) (k : ℕ) (m : Breakers)
      → ((f : Finished) × (turn js config request env k m ≡ done f))
        ⊎ ((m' : Breakers) × (es : List Event) × (turn js config request env k m ≡ again m' es))
  turn-cases env k m = go (turn js config request env k m)
    where
      go :
          (t : Turn)
          → ((f : Finished) × (t ≡ done f))
            ⊎ ((m' : Breakers) × (es : List Event) × (t ≡ again m' es))
      go (done f) = inl (f, refl)
      go (again m' es) = inr (m', es, refl)

  -- What a run that has gone `k` rounds, with `fuel + 1` to go, comes to.
  abbrev Ends : ℕ → Option Finished → Type 0
  Ends fuel r =
      (f : Finished) × (r ≡ some f)
      × (count_if is_sent f.events ≤ (if retryable js config request then fuel + 1 else 1))
      × (waited f.events ≤ fuel * config.retry_max_delay_ms)

  prefix-Ends :
      (fuel : ℕ) (es : List Event) (r : Option Finished)
      → retryable js config request ≡ true
      → count_if is_sent es ≡ 1
      → waited es ≤ config.retry_max_delay_ms
      → Ends fuel r
      → Ends (suc fuel) (prefix es r)
  prefix-Ends fuel es r again_ok one short (f, e, sends, waits) = (
    record f { events = es ++ f.events },
    rw e,
    ground (arith, count_if-append is_sent es f.events),
    grind (arith, waited-append es f.events),
  )

  rounds-Ends :
      (env : ℕ → Surroundings) (fuel k : ℕ) (m : Breakers)
      → k + fuel ≡ retries js config request
      → Ends fuel (rounds js config request env (suc fuel) k m)
  unfolding rounds
  rounds-Ends env zero k m e = elim (turn-cases (env k) k m) [
    | inl (f, d) ↦
        let (sends, waits) = turn-done (env k) k m f d in
        (f, rw (d, rounds), ground arith, omega arith)
    | inr (m', es, a) ↦ absurd (omega (arith, turn-again (env k) k m m' es a))
  ]
  rounds-Ends env (suc fuel) k m e = elim (turn-cases (env k) k m) [
    | inl (f, d) ↦
        let (sends, waits) = turn-done (env k) k m f d in
        (f, rw (d, rounds), ground arith, omega arith)
    | inr (m', es, a) ↦
        let (again_ok, more, one, short) = turn-again (env k) k m m' es a in
        rw (a, rounds)
          (prefix-Ends fuel es _ again_ok one short (rounds-Ends env fuel (k + 1) m' (omega arith)))
  ]

  -- A request always ends, whatever the upstream, the clock and the other requests do. It makes at
  -- most one attempt, or one more than its retries where it may be sent again, and it waits in
  -- all no longer than its retries times the longest delay.
  pub run_request_ends :
      (env : ℕ → Surroundings) (m : Breakers)
      → (f : Finished) × (run_request js config request env m ≡ some f)
        × (count_if is_sent f.events
            ≤ (if retryable js config request then retries js config request + 1 else 1))
        × (waited f.events ≤ retries js config request * config.retry_max_delay_ms)
  unfolding run_request
  run_request_ends env m =
      let (f, e, sends, waits) =
        rounds-Ends env (retries js config request) 0 (breaker_for js config request m)
          (omega arith) in
      (f, rw add-one e, sends, waits)
