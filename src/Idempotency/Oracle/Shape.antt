-- ===== src/Idempotency/Oracle/Shape.antt =====
-- What the purge of the Oracle store
-- (src/infrastructure/database/idempotency/oracle-idempotency.store.ts) leaves.
use nestjs_ddd.Prelude.{
  ℕ, zero, suc, ◌≤◌, ◌<◌, ◌≡◌, refl, Bool, none, some, String, [], ◌∷◌, lookup, arith, ltb, eq_iff,
  eq_refl, ◌++◌, count_if,
}
use nestjs_ddd.Idempotency.Oracle.{ClaimRow, Table, purge}

abbrev pub is_expired : ℕ → String × ClaimRow → Bool
is_expired now (k, r) = ltb r.expires_at now

-- The keys of a table are different from each other: the primary key.
abbrev pub UniqueKeys : Table → Type 0
UniqueKeys [] = Unit
UniqueKeys ((k, r) ∷ t) = (lookup k t ≡ none) × UniqueKeys t

pub lookup-purge_absent :
    (now n : ℕ) (k : String) (t : Table) → lookup k t ≡ none → lookup k (purge now n t) ≡ none
unfolding purge lookup
lookup-purge_absent now zero k t e = e
lookup-purge_absent now (suc n) k [] e = refl
lookup-purge_absent now (suc n) k ((j, r) ∷ t) e =
    ground (arith, lookup-purge_absent now n k t, lookup-purge_absent now (suc n) k t)

-- A row that has not expired outlives the purge, however many rows it removes.
pub lookup-purge_live :
    (now n : ℕ) (k : String) (t : Table) (r : ClaimRow)
    → lookup k t ≡ some r
    → now ≤ r.expires_at
    → lookup k (purge now n t) ≡ some r
unfolding purge lookup
lookup-purge_live now zero k t r e live = e
lookup-purge_live now (suc n) k [] r e live = cc
lookup-purge_live now (suc n) k ((j, q) ∷ t) r e live =
    ground (arith, lookup-purge_live now n k t r, lookup-purge_live now (suc n) k t r)

count_expired_pos :
    (now : ℕ) (k : String) (t : Table) (r : ClaimRow)
    → lookup k t ≡ some r
    → r.expires_at < now
    → 0 < count_if (is_expired now) t
unfolding lookup
count_expired_pos now k [] r e gone = cc
count_expired_pos now k ((j, q) ∷ t) r e gone = ground (arith, count_expired_pos now k t r)

-- An expired row is gone after the purge, if no more rows have expired than it may remove.
pub lookup-purge_expired :
    (now n : ℕ) (k : String) (t : Table) (r : ClaimRow)
    → UniqueKeys t
    → count_if (is_expired now) t ≤ n
    → lookup k t ≡ some r
    → r.expires_at < now
    → lookup k (purge now n t) ≡ none
unfolding purge lookup
lookup-purge_expired now zero k t r u few e gone =
    absurd (omega (arith, count_expired_pos now k t r e gone))
lookup-purge_expired now (suc n) k [] r u few e gone = refl
lookup-purge_expired now (suc n) k ((j, q) ∷ t) r (fresh, u) few e gone = ground (
  arith,
  eq_iff j k,
  lookup-purge_absent now n k t,
  lookup-purge_expired now n k t r u,
  lookup-purge_expired now (suc n) k t r u,
)

-- Rows after as many expired ones as the purge removes are not looked at.
pub lookup-purge_beyond :
    (now n : ℕ) (k : String) (before after : Table)
    → lookup k before ≡ none
    → n ≤ count_if (is_expired now) before
    → lookup k (purge now n (before ++ after)) ≡ lookup k after
unfolding purge lookup
lookup-purge_beyond now zero k [] after e many = refl
lookup-purge_beyond now zero k ((j, q) ∷ before) after e many =
    ground (arith, lookup-purge_beyond now zero k before after)
lookup-purge_beyond now (suc n) k [] after e many = absurd (ground arith)
lookup-purge_beyond now (suc n) k ((j, q) ∷ before) after e many = ground (
  arith,
  lookup-purge_beyond now n k before after,
  lookup-purge_beyond now (suc n) k before after,
)

pub lookup_first : (k : String) (r : ClaimRow) (t : Table) → lookup k ((k, r) ∷ t) ≡ some r
unfolding lookup
lookup_first k r t = ground (arith, eq_refl k)
