-- ===== src/Database/Pools/Joined/Atomic.antt =====
-- Work inside `runInTransaction` (src/infrastructure/database/connection/pool.manager.ts) is atomic.
use nestjs_ddd.Prelude.{
  ◌≡◌, refl, inl, inr, Bool, true, false, Option, none, some, String, List, [], ◌∷◌, ◌++◌, arith,
  keep, str_eq, eq_refl, eq_iff, subst, if◌then◌else◌, Bool-cases, not, ◌&&◌, is_some,
}
use nestjs_ddd.Shared.Values.{Value, is_err_result}
use nestjs_ddd.Shared.Outcome.{Result, ok, err, is_ok}
use nestjs_ddd.Database.Pools.Joined.{
  Work, returns, throws, then_, attempt, with_connection, transaction, run_in_transaction,
  unit_of_work, ConnectionEvent, borrowed, committed, rolled_back, returned, Failure,
  rollback_with_result, thrown, Sources, joined, main_source, map_result, check_result,
  unwrap_result, client_call, exec,
}

-- The source of an event.
abbrev pub source_of : ConnectionEvent → String
source_of (borrowed key) = key
source_of (committed key) = key
source_of (rolled_back key) = key
source_of (returned key) = key

-- The events of one source.
abbrev pub events_of : String → List ConnectionEvent → List ConnectionEvent
events_of key es = keep (λ e. str_eq (source_of e) key) es

keep-append :
    {A : Type 0} (f : A → Bool) (xs ys : List A) → keep f (xs ++ ys) ≡ keep f xs ++ keep f ys
keep-append f [] ys = refl
keep-append f (x ∷ xs) ys = ground (arith, keep-append f xs ys)

joined_other :
    (key k : String) (active : List String)
    → joined key active ≡ true
    → joined k active ≡ false
    → str_eq k key ≡ false
joined_other key k active here there = elim (Bool-cases (str_eq k key)) [
  | inr other ↦ other
  | inl same ↦
      (let e = (eq_iff k key).0 same in
        let there' = subst (λ k. joined k active ≡ false) e there in cc)
]

client_call-other :
    (db : Sources) (commits : Bool) (key k : String) (tag : Option String)
    (r : Result Value Failure) (es : List ConnectionEvent)
    → str_eq k key ≡ false
    → events_of key es ≡ []
    → events_of key (client_call db commits k tag (r, es)).1 ≡ []
unfolding client_call
client_call-other db commits key k tag r es other none_of =
    let joins = keep-append (λ e. str_eq (source_of e) key) es in
    ground (
      arith,
      joins (returned k ∷ []),
      joins (rolled_back k ∷ returned k ∷ []),
      joins (committed k ∷ returned k ∷ []),
    )

-- Work inside a transaction on a source touches no other connection of it, and neither ends the
-- transaction.
exec-joined :
    (db : Sources) (key : String) (active : List String) (w : Work)
    → joined key active ≡ true
    → events_of key (exec db active w).1 ≡ []
unfolding exec
exec-joined db key active (returns v) h = refl
exec-joined db key active (throws e) h = refl
exec-joined db key active (then_ w v) h = ground (
  arith,
  exec-joined db key active w h,
  exec-joined db key active v h,
  keep-append (λ e. str_eq (source_of e) key) (exec db active w).1 (exec db active v).1,
)
exec-joined db key active (attempt w v) h = ground (
  arith,
  exec-joined db key active w h,
  exec-joined db key active v h,
  keep-append (λ e. str_eq (source_of e) key) (exec db active w).1 (exec db active v).1,
)
exec-joined db key active (with_connection k tag w) h = elim (Bool-cases (joined k active)) [
  | inl inside ↦ rw inside (exec-joined db key active w h)
  | inr outside ↦ rw outside (
      client_call-other db false key k tag (exec db active w).0 (exec db active w).1
        (joined_other key k active h outside) (exec-joined db key active w h))
]
exec-joined db key active (transaction k tag w) h = elim (Bool-cases (joined k active)) [
  | inl inside ↦ rw inside (exec-joined db key active w h)
  | inr outside ↦ rw outside (
      client_call-other db true key k tag (exec db active w).0 (exec db active w).1
        (joined_other key k active h outside) (exec-joined db key active w h))
]
exec-joined db key active (run_in_transaction k tag w) h = elim (Bool-cases (joined k active)) [
  | inl inside ↦ rw inside (exec-joined db key active w h)
  | inr outside ↦ rw outside (
      client_call-other db true key k tag (exec db (k ∷ active) w).0 (exec db (k ∷ active) w).1
        (joined_other key k active h outside) (exec-joined db key (k ∷ active) w (ground arith)))
]
exec-joined db key active (unit_of_work w) h = elim (Bool-cases (joined main_source active)) [
  | inl inside ↦ rw inside (exec-joined db key active w h)
  | inr outside ↦ rw outside (
      client_call-other db true key main_source (some "unitOfWork.run")
        (check_result (exec db (main_source ∷ active) w).0) (exec db (main_source ∷ active) w).1
        (joined_other key main_source active h outside)
        (exec-joined db key (main_source ∷ active) w (ground arith)))
]

-- The work of a transaction that is not joined runs on one connection of its source, which it alone
-- borrows: it is borrowed, committed if the call succeeds and rolled back if not, and returned, once
-- each, whatever adapters, transactions and units of work the work calls on the way.
pub run_in_transaction-events :
    (db : Sources) (key : String) (tag : Option String) (active : List String) (w : Work)
    → joined key active ≡ false
    → db.known key ≡ true
    → db.unavailable key ≡ none
    → events_of key (exec db active (run_in_transaction key tag w)).1
      ≡ borrowed key
        ∷ (if is_ok (exec db active (run_in_transaction key tag w)).0
            then committed key
            else rolled_back key)
        ∷ returned key
        ∷ []
unfolding exec client_call is_ok map_result
run_in_transaction-events db key tag active w outside known available =
    let inside = exec db (key ∷ active) w in
    let nothing = exec-joined db key (key ∷ active) w (ground (arith, eq_refl key)) in
    let joins = keep-append (λ e. str_eq (source_of e) key) inside.1 in
    ground (
      arith,
      joins (rolled_back key ∷ returned key ∷ []),
      joins (committed key ∷ returned key ∷ []),
      eq_refl key,
    )

-- The value that a call gives, a `RollbackWithResult` being its result.
abbrev pub answer : Result Value Failure → Option Value
answer (ok v) = some v
answer (err (rollback_with_result v)) = some v
answer (err (thrown e)) = none

-- Work that returned, and returned no failed Result.
abbrev pub is_success : Result Value Failure → Bool
is_success (ok v) = not (is_err_result v)
is_success (err f) = false

-- What the transaction of a unit of work does, by how the work ended.
unit_ends :
    (db : Sources) (es : List ConnectionEvent) (r : Result Value Failure)
    → db.known main_source ≡ true
    → db.unavailable main_source ≡ none
    → events_of main_source es ≡ []
    → (answer (
          unwrap_result
            (client_call db true main_source (some "unitOfWork.run") (check_result r, es)).0)
        ≡ (if is_success r && is_some (db.commit_error main_source) then none else answer r))
      × (events_of main_source
            (client_call db true main_source (some "unitOfWork.run") (check_result r, es)).1
          ≡ borrowed main_source
            ∷ (if is_success r && not (is_some (db.commit_error main_source))
                then committed main_source
                else rolled_back main_source)
            ∷ returned main_source
            ∷ [])
unfolding client_call map_result check_result unwrap_result
unit_ends db es (ok v) known available nothing =
    let joins = keep-append (λ e. str_eq (source_of e) main_source) es in
    ground (
      arith,
      joins (rolled_back main_source ∷ returned main_source ∷ []),
      joins (committed main_source ∷ returned main_source ∷ []),
      eq_refl main_source,
    )
unit_ends db es (err (rollback_with_result v)) known available nothing =
    let joins = keep-append (λ e. str_eq (source_of e) main_source) es in
    ground (arith, joins (rolled_back main_source ∷ returned main_source ∷ []), eq_refl main_source)
unit_ends db es (err (thrown e)) known available nothing =
    let joins = keep-append (λ e. str_eq (source_of e) main_source) es in
    ground (arith, joins (rolled_back main_source ∷ returned main_source ∷ []), eq_refl main_source)

-- A unit of work that is not inside another, on a main source that is set up and gives a connection,
-- borrows one, and returns it at the end. In between it commits exactly when its work returns, what
-- it returns is no failed Result, and the commit does not fail; otherwise it is rolled back. What the
-- work returned, a failed Result too, is the answer; work that throws and a commit that fails have
-- none.
pub unit_of_work-events :
    (db : Sources) (active : List String) (w : Work) (r : Result Value Failure)
    → joined main_source active ≡ false
    → db.known main_source ≡ true
    → db.unavailable main_source ≡ none
    → (exec db (main_source ∷ active) w).0 ≡ r
    → (answer (exec db active (unit_of_work w)).0
        ≡ (if is_success r && is_some (db.commit_error main_source) then none else answer r))
      × (events_of main_source (exec db active (unit_of_work w)).1
          ≡ borrowed main_source
            ∷ (if is_success r && not (is_some (db.commit_error main_source))
                then committed main_source
                else rolled_back main_source)
            ∷ returned main_source
            ∷ [])
unfolding exec
unit_of_work-events db active w r outside known available ended =
    let inside = exec db (main_source ∷ active) w in
    let nothing =
      exec-joined db main_source (main_source ∷ active) w (ground (arith, eq_refl main_source)) in
    rw (outside, ← ended) (unit_ends db inside.1 inside.0 known available nothing)
