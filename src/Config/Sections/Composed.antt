-- ===== src/Config/Sections/Composed.antt =====
-- What an accepted configuration means for the parts that read it: src/infrastructure/config with
-- src/infrastructure/http, src/infrastructure/scheduler and src/infrastructure/legacy.
use native.Mathlib.Nat.{mul-le-mul_right}
use nestjs_ddd.Prelude.{
  ℕ, ◌≡◌, ◌≤◌, ◌+◌, ◌*◌, refl, Bool, true, false, not, ◌&&◌, ◌||◌, Option, none, some, String, List,
  [], arith, count_if, if◌then◌else◌,
}
use nestjs_ddd.Shared.Text.{Text}
use nestjs_ddd.Config.Env.{Flag, unset, flag, invalid}
use nestjs_ddd.Config.Fields.{Ensures, Ensures-bind, Ensures-bind_known, Ensures-some, of-Ensures}
use nestjs_ddd.Config.Sections.{
  flag_or, flag_at, http_client_section, SchedulerSection, scheduler_section, ClusterSection,
  cluster_section,
}
use nestjs_ddd.Config.Sections.Accepted.{http_client_section-IsBounded}
use nestjs_ddd.Http.Client.Events.{HttpClientConfig, HttpRequest, Surroundings, is_sent, waited}
use nestjs_ddd.Http.Client.Loop.{Platform, Finished, Breakers, retries, retryable, run_request}
use nestjs_ddd.Http.Client.Laws.{run_request_ends}
use nestjs_ddd.Scheduler.{on_application_bootstrap}

at_most_eleven :
    (again : Bool) (sends tries : ℕ)
    → tries ≤ 10
    → sends ≤ (if again then tries + 1 else 1)
    → sends ≤ (if again then 11 else 1)
at_most_eleven true sends tries few h = omega arith
at_most_eleven false sends tries few h = h

-- A client whose configuration was accepted ends every request that names no number of retries of its
-- own: after at most eleven attempts, or one where it may not be sent again, and after waiting in all
-- at most ten times the longest delay.
pub loaded_request_ends :
    (number_of : Text → Option ℕ) (text_of : Text → String) (env : String → Option Text)
    (js : Platform) (config : HttpClientConfig) (request : HttpRequest) (around : ℕ → Surroundings)
    (m : Breakers)
    → http_client_section number_of text_of env ≡ some config
    → request.retries ≡ none
    → (f : Finished) × (run_request js config request around m ≡ some f)
      × (count_if is_sent f.events ≤ (if retryable js config request then 11 else 1))
      × (waited f.events ≤ 10 * config.retry_max_delay_ms)
loaded_request_ends number_of text_of env js config request around m accepted own =
    let bounded = http_client_section-IsBounded number_of text_of env config accepted in
    let (f, ends, sends, waits) = run_request_ends js config request around m in
    let few : retries js config request ≤ 10 = rw own bounded.0 in
    (
      f,
      ends,
      at_most_eleven (retryable js config request) (count_if is_sent f.events) _ few sends,
      omega (arith, waits, mul-le-mul_right config.retry_max_delay_ms few),
    )

-- A flag of the environment that is on.
abbrev pub is_on : Flag → Bool
is_on (flag b) = b
is_on f = false

flag_or-is_on : (f : Flag) → Ensures (λ b. b ≡ is_on f) (flag_or false f)
unfolding flag_or Ensures
flag_or-is_on unset = refl
flag_or-is_on (flag b) = refl
flag_or-is_on (invalid t) = tt

module _ (number_of : Text → Option ℕ) (env : String → Option Text) where
  scheduler_section-is_on :
      Ensures (λ s. s.enabled ≡ is_on (flag_at env "SCHEDULER_ENABLED")) (scheduler_section env)
  unfolding scheduler_section
  scheduler_section-is_on =
      let P = λ (s : SchedulerSection). s.enabled ≡ is_on (flag_at env "SCHEDULER_ENABLED") in
      Ensures-bind_known (λ b. b ≡ is_on (flag_at env "SCHEDULER_ENABLED")) P _ _
        (flag_or-is_on (flag_at env "SCHEDULER_ENABLED"))
        (λ on e. Ensures-bind P _ _ (λ zone. Ensures-some P _ e))

  abbrev IsAsSet : ClusterSection → Type 0
  IsAsSet c =
      (c.enabled ≡ is_on (flag_at env "CLUSTER_ENABLED"))
      × (c.is_leader ≡ is_on (flag_at env "CLUSTER_LEADER"))

  cluster_section-IsAsSet : Ensures IsAsSet (cluster_section number_of env)
  unfolding cluster_section
  cluster_section-IsAsSet =
      Ensures-bind_known (λ b. b ≡ is_on (flag_at env "CLUSTER_ENABLED")) IsAsSet _ _
        (flag_or-is_on (flag_at env "CLUSTER_ENABLED"))
        (λ on e. Ensures-bind IsAsSet _ _ (λ workers. Ensures-bind IsAsSet _ _ (λ respawn.
          Ensures-bind IsAsSet _ _ (λ most. Ensures-bind IsAsSet _ _ (λ port.
            Ensures-bind_known (λ b. b ≡ is_on (flag_at env "CLUSTER_LEADER")) IsAsSet _ _
              (flag_or-is_on (flag_at env "CLUSTER_LEADER"))
              (λ leader f. Ensures-some IsAsSet _ (e, f)))))))

  -- A process whose configuration was accepted starts its scheduled jobs if the environment turns the
  -- scheduler on, and either leaves the cluster off or names this process the leader, and otherwise
  -- starts none.
  pub loaded_jobs :
      (s : SchedulerSection) (c : ClusterSection) (jobs : List String)
      → scheduler_section env ≡ some s
      → cluster_section number_of env ≡ some c
      → on_application_bootstrap
          (record {
            scheduler_enabled = s.enabled;
            cluster_enabled = c.enabled;
            cluster_is_leader = c.is_leader;
          })
          jobs
        ≡ (if is_on (flag_at env "SCHEDULER_ENABLED")
              && (not (is_on (flag_at env "CLUSTER_ENABLED"))
                  || is_on (flag_at env "CLUSTER_LEADER"))
            then jobs
            else [])
  unfolding on_application_bootstrap
  loaded_jobs s c jobs scheduled clustered =
      let on =
        of-Ensures (λ (t : SchedulerSection). t.enabled ≡ is_on (flag_at env "SCHEDULER_ENABLED"))
          (scheduler_section env) s scheduled scheduler_section-is_on in
      let (cluster_on, leads) =
        of-Ensures IsAsSet (cluster_section number_of env) c clustered cluster_section-IsAsSet in
      ground arith
