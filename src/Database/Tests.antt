-- ===== src/Database/Tests.antt =====
-- The theorems on the database adapters at concrete calls.
use nestjs_ddd.Prelude.{
  ℕ, ◌≤◌, ◌≡◌, refl, ◌⊎◌, max, true, false, none, some, [], ◌∷◌, arith, length, ltb, if◌then◌else◌,
}
use nestjs_ddd.Shared.Values.{Value, null, boolean, object, no_members, member}
use nestjs_ddd.Shared.Outcome.{Result, ok, err, is_ok}
use nestjs_ddd.Database.Semaphore.{
  Semaphore, new_semaphore, enter, leave, ends, Reach, fresh, called,
}
use nestjs_ddd.Database.Semaphore.Limits.{running-le, budget, open_calls, stop, then_, calls_finish}
use nestjs_ddd.Database.Oracle.Errors.{Thrown, driver_error, plain_error, error_code}
use nestjs_ddd.Database.Oracle.Truncate.{trim}
use nestjs_ddd.Database.Oracle.{
  Connection, OracleSourceConfig, ConnectionOptions, Driver, pooled, resolve_context_user, prepare,
  release, with_connection,
}
use nestjs_ddd.Prelude.{is_some}
use nestjs_ddd.Database.Pools.Joined.Atomic.{answer, is_success}
use nestjs_ddd.Database.Oracle.Queries.{PingCall, ping_by, ping}
use nestjs_ddd.Database.Oracle.Queries.Pinged.{ping-is_ok}
use nestjs_ddd.Database.Oracle.{not_borrowed}
use nestjs_ddd.Database.Oracle.Errors.{unauthorized}
use nestjs_ddd.Prelude.{not, ◌&&◌}
use nestjs_ddd.Database.Oracle.Identity.{IsClean, with_connection-IsClean}
use nestjs_ddd.Database.Pools.Joined as Joined
use nestjs_ddd.Database.Pools.Joined.{
  Work, returns, throws, transaction, run_in_transaction, unit_of_work, borrowed, committed,
  rolled_back, returned, Sources, joined, main_source, exec,
}
use nestjs_ddd.Database.Pools.Joined.Atomic.{
  events_of, run_in_transaction-events, unit_of_work-events,
}

-- A limit of one: call 1 runs, call 2 waits.
abbrev busy : Semaphore
busy = enter 2 (enter 1 (new_semaphore 1))

Reach-busy : Reach 1 busy
Reach-busy = called 2 (called 1 fresh)

running-le_example : busy.running ≤ max 1 1
running-le_example = running-le 1 busy Reach-busy

one_runs : 1 ≤ busy.running
unfolding enter
one_runs = omega arith

calls_finish_example :
    (1 ≤ budget busy)
    × ((open_calls (leave busy) ≡ 0)
        ⊎ (1 ≤ (leave busy).running)
        ⊎ (ltb 0 (length (leave busy).woken) ≡ true))
calls_finish_example =
    calls_finish 1 1 busy (leave busy) Reach-busy (then_ (ends busy one_runs) stop)

abbrev raised : Thrown
raised = driver_error (some "ORA-20101") none

raised_code : error_code raised ≡ some "ORA-20101"
unfolding error_code
raised_code = refl

abbrev main : OracleSourceConfig
main = record {
  key = "main";
  call_timeout_ms = 30;
  pool_ping_timeout_ms = 0;
  context_enabled = true;
  context_required = false;
  context_max_length = 64;
}

abbrev idle : Connection
idle = record { client_id = ""; session_id = ""; call_timeout = 30; ends = [] }

abbrev driver : Driver
driver = record {
  get_connection = ok idle;
  ping_ok = true;
  close_ok = true;
  commit_error = none;
  rollback_ok = true;
}

abbrev anonymous : ConnectionOptions
anonymous = record { context_user = none; username = none; option_timeout_ms = some 5; tag = none }

-- Work that fails.
abbrev failing : Connection → Result ℕ Thrown × Connection
failing c = (err raised, c)

given_back : (with_connection main driver anonymous failing).1 ≡ pooled idle
unfolding with_connection resolve_context_user prepare release trim
given_back = refl

with_connection-IsClean_example : IsClean idle × (idle.call_timeout ≡ main.call_timeout_ms)
with_connection-IsClean_example =
    with_connection-IsClean main driver anonymous failing idle idle refl (refl, refl)
      (λ d clean. clean) given_back

abbrev db : Sources
db = record { known = λ key. true; unavailable = λ key. none; commit_error = λ key. none }

-- Two writes in transactions of their own, and then an error.
abbrev writes : Work
writes =
    Joined.then_ (transaction "main" none (returns null))
      (Joined.then_ (transaction "main" none (returns null)) (throws (plain_error 1)))

run_in_transaction-events_example :
    events_of "main" (exec db [] (run_in_transaction "main" none writes)).1
    ≡ borrowed "main"
      ∷ (if is_ok (exec db [] (run_in_transaction "main" none writes)).0
          then committed "main"
          else rolled_back "main")
      ∷ returned "main"
      ∷ []
run_in_transaction-events_example =
    run_in_transaction-events db "main" none [] writes refl refl refl

-- `{ ok: false, error: null }`
abbrev failed_result : Value
failed_result = object (member "ok" (boolean false) (member "error" null no_members))

abbrev refuses_order : Work
refuses_order = returns failed_result

order_refused : (exec db (main_source ∷ []) refuses_order).0 ≡ ok failed_result
unfolding exec
order_refused = refl

unit_of_work-events_example :
    (answer (exec db [] (unit_of_work refuses_order)).0 ≡ (
      if is_success (ok failed_result) && is_some (db.commit_error main_source)
      then none
      else some failed_result))
    × (events_of main_source (exec db [] (unit_of_work refuses_order)).1
        ≡ borrowed main_source
          ∷ (if is_success (ok failed_result) && not (is_some (db.commit_error main_source))
              then committed main_source
              else rolled_back main_source)
          ∷ returned main_source
          ∷ [])
unit_of_work-events_example =
    unit_of_work-events db [] refuses_order (ok failed_result) refl refl refl order_refused

-- A source that refuses calls without a context user, and a database that answers.
abbrev audited : OracleSourceConfig
audited = record main { context_required = true }

abbrev answers : PingCall → Result Unit Thrown
answers call = ok tt

ping-is_ok_example :
    ((if true && true
        then ping audited driver answers "SELECT 1 FROM DUAL" 3000
        else (err (unauthorized "main"), not_borrowed))
      ≡ (err (unauthorized "main"), not_borrowed))
    × (is_ok (ping audited driver answers "SELECT 1 FROM DUAL" 3000).0
        ≡ not (true && true)
          && is_ok driver.get_connection
          && is_ok (answers (ping_by "SELECT 1 FROM DUAL")))
ping-is_ok_example = ping-is_ok audited driver answers "SELECT 1 FROM DUAL" 3000

pinged : is_ok (ping main driver answers "SELECT 1 FROM DUAL" 3000).0 ≡ true
unfolding ping is_ok with_connection resolve_context_user prepare release trim
pinged = refl
