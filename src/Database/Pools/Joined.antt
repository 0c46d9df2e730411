-- ===== src/Database/Pools/Joined.antt =====
-- The transactions of src/infrastructure/database/connection/pool.manager.ts: `withConnection`,
-- `transaction` and `runInTransaction`, and `DatabaseUnitOfWork`
-- (src/infrastructure/database/unit-of-work/database-unit-of-work.ts), for work that calls them in
-- turn. `active` is what `activeTransactions` holds in the async flow: the sources with a transaction.
pub mod Atomic
use nestjs_ddd.Prelude.{
  ℕ, Bool, true, false, not, ◌||◌, Option, none, some, String, List, [], ◌∷◌, ◌++◌, any, str_eq,
  if◌then◌else◌,
}
use nestjs_ddd.Shared.Values.{Value, undefined, is_err_result}
use nestjs_ddd.Shared.Outcome.{Result, ok, err}
use nestjs_ddd.Database.Oracle.Errors.{
  Thrown, connection_failed, unknown_source_key, map_oracle_error,
}

-- What an adapter or a use case does, in order; `attempt w v` goes on with `v` if `w` throws.
pub data Work : Type 0 where
  returns : Value → Work
  throws : Thrown → Work
  then_ attempt : Work → Work → Work
  with_connection transaction run_in_transaction : String → Option String → Work → Work
  unit_of_work : Work → Work

pub data ConnectionEvent : Type 0 where
  borrowed committed rolled_back returned : String → ConnectionEvent

-- What is thrown in the async flow: `RollbackWithResult`, or another error.
pub data Failure : Type 0 where
  rollback_with_result : Value → Failure
  thrown : Thrown → Failure

-- The sources that are set up, the error of a borrow, and the error of a commit.
pub record Sources : Type 0 where
  pub known : String → Bool
  pub unavailable : String → Option Thrown
  pub commit_error : String → Option Thrown

abbrev pub Done : Type 0
Done = Result Value Failure × List ConnectionEvent

-- `DatabaseSources.main`
abbrev pub main_source : String
main_source = "main"

-- `joinedConnection`
abbrev pub joined : String → List String → Bool
joined key active = any (λ k. str_eq k key) active

-- `mapError`: `RollbackWithResult` has no `code`, so it passes.
map_failure : String → Option String → Failure → Failure
map_failure key tag (rollback_with_result v) = rollback_with_result v
map_failure key tag (thrown e) = thrown (map_oracle_error key tag e)

-- The `catch` of a call on a connection.
unfoldable pub map_result : String → Option String → Result Value Failure → Result Value Failure
unfolding map_failure
map_result key tag (ok v) = ok v
map_result key tag (err f) = err (map_failure key tag f)

-- `if (isResultLike(result) && !result.ok) throw new RollbackWithResult(result)`
unfoldable pub check_result : Result Value Failure → Result Value Failure
check_result (ok v) = if is_err_result v then err (rollback_with_result v) else ok v
check_result (err f) = err f

-- The `catch` of `run`.
unfoldable pub unwrap_result : Result Value Failure → Result Value Failure
unwrap_result (err (rollback_with_result v)) = ok v
unwrap_result r = r

module _ (db : Sources) where
  -- The client's `withConnection` and `transaction`, around a body that is done.
  unfoldable pub client_call : Bool → String → Option String → Done → Done
  unfolding map_result
  client_call commits key tag (result, es) =
      if not (db.known key)
      then (err (thrown (unknown_source_key key)), [])
      else elim (db.unavailable key) [
        | some e ↦ (err (thrown (connection_failed key e)), [])
        | none ↦
            if not commits
            then (map_result key tag result, borrowed key ∷ es ++ returned key ∷ [])
            else elim result [
              | err f ↦ (
                map_result key tag (err f),
                borrowed key ∷ es ++ rolled_back key ∷ returned key ∷ [],
              )
              | ok v ↦ elim (db.commit_error key) [
                | some e ↦ (
                  map_result key tag (err (thrown e)),
                  borrowed key ∷ es ++ rolled_back key ∷ returned key ∷ [],
                )
                | none ↦ (ok v, borrowed key ∷ es ++ committed key ∷ returned key ∷ [])
              ]
            ]
      ]

  unfoldable pub exec : List String → Work → Done
  unfolding client_call check_result unwrap_result
  exec active (returns v) = (ok v, [])
  exec active (throws e) = (err (thrown e), [])
  exec active (then_ w v) =
      let (r, es) = exec active w in
      let (r', es') = exec active v in elim r [ err f ↦ (err f, es) | ok _ ↦ (r', es ++ es') ]
  exec active (attempt w v) =
      let (r, es) = exec active w in
      let (r', es') = exec active v in elim r [ err f ↦ (r', es ++ es') | ok x ↦ (ok x, es) ]
  exec active (with_connection key tag w) =
      let (r, es) = exec active w in
      if joined key active then (map_result key tag r, es) else client_call false key tag (r, es)
  exec active (transaction key tag w) =
      let (r, es) = exec active w in
      if joined key active then (map_result key tag r, es) else client_call true key tag (r, es)
  exec active (run_in_transaction key tag w) =
      let inside = exec (key ∷ active) w in
      let same = exec active w in
      if joined key active then same else client_call true key tag inside
  exec active (unit_of_work w) =
      let (r, es) = exec (main_source ∷ active) w in
      let (r', es') = exec active w in
      let (s, ss) =
        (if joined main_source active
          then (check_result r', es')
          else client_call true main_source (some "unitOfWork.run") (check_result r, es)) in
      (unwrap_result s, ss)
