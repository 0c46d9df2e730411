-- ===== src/Database/Pools/Init.antt =====
-- `init` of src/infrastructure/database/connection/pool.manager.ts.
use nestjs_ddd.Prelude.{
  ◌≡◌, refl, inl, inr, Bool, true, false, Option, none, some, String, List, [], ◌∷◌, ◌&&◌, arith,
  eq_iff, lookup, lookup-insert, Bool-cases, Option-cases, eq_refl, ◌∙◌,
}
use nestjs_ddd.Database.Oracle.Errors.{Thrown}
use nestjs_ddd.Database.Pools.{
  DatabaseSource, PoolManager, has_source, is_oracle, with_meta, with_client, init,
}

-- A client that is there stays as it is.
pub init-keeps :
    (refused : String → Option Thrown) (ss : List DatabaseSource) (m : PoolManager) (key : String)
    (b : Bool)
    → lookup key m.clients ≡ some b
    → lookup key (init refused ss m).0.clients ≡ some b
unfolding init
init-keeps refused [] m key b e = e
init-keeps refused (s ∷ ss) m key b e =
    let there = lookup-insert s.key key (is_oracle s.dialect) m.clients in
    let skipped = init-keeps refused ss m key b e in
    let added = init-keeps refused ss (with_client s (is_oracle s.dialect) (with_meta s m)) key b in
    ground (arith, eq_iff s.key key)

-- Every source has a client.
unfoldable pub all_there : List DatabaseSource → PoolManager → Bool
all_there [] m = true
all_there (s ∷ ss) m = has_source s.key m && all_there ss m

init_skip :
    (refused : String → Option Thrown) (s : DatabaseSource) (ss : List DatabaseSource)
    (m : PoolManager)
    → has_source s.key m ≡ true
    → init refused (s ∷ ss) m ≡ init refused ss m
unfolding init
init_skip refused s ss m e = ground arith

abbrev pub added : DatabaseSource → PoolManager → PoolManager
added s m = with_client s (is_oracle s.dialect) (with_meta s m)

pub init_add :
    (refused : String → Option Thrown) (s : DatabaseSource) (ss : List DatabaseSource)
    (m : PoolManager)
    → has_source s.key m ≡ false
    → (init refused (s ∷ ss) m).1 ≡ none
    → init refused (s ∷ ss) m ≡ init refused ss (added s m)
unfolding init
init_add refused s ss m e fine = ground arith

init-has_source :
    (refused : String → Option Thrown) (ss : List DatabaseSource) (m : PoolManager) (key : String)
    → has_source key m ≡ true
    → has_source key (init refused ss m).0 ≡ true
init-has_source refused ss m key e = elim (Option-cases (lookup key m.clients)) [
  | inl nothing ↦ ground arith
  | inr (b, found) ↦ rw (init-keeps refused ss m key b found) refl
]

init_complete :
    (refused : String → Option Thrown) (ss : List DatabaseSource) (m : PoolManager)
    → (init refused ss m).1 ≡ none
    → (all_there ss (init refused ss m).0 ≡ true)
unfolding all_there
init_complete refused [] m e = refl
init_complete refused (s ∷ ss) m e = elim (Bool-cases (has_source s.key m)) [
  | inl there ↦
      let skip = init_skip refused s ss m there in
      rw skip (
        ground (
          arith,
          init-has_source refused ss m s.key there,
          init_complete refused ss m (rw skip at e),
        ))
  | inr new ↦
      let add = init_add refused s ss m new e in
      let here : has_source s.key (added s m) ≡ true =
        ground (arith, lookup-insert s.key s.key (is_oracle s.dialect) m.clients, eq_refl s.key) in
      rw add (
        ground (
          arith,
          init-has_source refused ss (added s m) s.key here,
          init_complete refused ss (added s m) (rw add at e),
        ))
]

init_known :
    (refused : String → Option Thrown) (ss : List DatabaseSource) (m : PoolManager)
    → all_there ss m ≡ true
    → init refused ss m ≡ (m, none)
unfolding init all_there
init_known refused [] m h = refl
init_known refused (s ∷ ss) m h =
    let there : has_source s.key m ≡ true = ground arith in
    let rest : all_there ss m ≡ true = ground arith in
    init_skip refused s ss m there ∙ init_known refused ss m rest

-- A set-up that succeeds leaves a client for each of its sources, and one that is repeated changes
-- nothing and opens no pool, whatever the driver would answer now.
pub init_repeated :
    (refused refused' : String → Option Thrown) (ss : List DatabaseSource) (m : PoolManager)
    → (init refused ss m).1 ≡ none
    → (all_there ss (init refused ss m).0 ≡ true)
      × (init refused' ss (init refused ss m).0 ≡ ((init refused ss m).0, none))
init_repeated refused refused' ss m e =
    let complete = init_complete refused ss m e in
    (complete, init_known refused' ss (init refused ss m).0 complete)
