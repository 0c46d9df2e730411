-- ===== src/Prelude/Maps.antt =====
-- A JavaScript `Map` or plain object with text keys, as an association list in insertion order.
use Prim.Native.String.{String}
use mathlib.Core.Path.{◌≡◌, refl}
use mathlib.Core.Logic.{◌≢◌}
use mathlib.Core.Option.{Option, none, some}
use mathlib.Core.List.{List, [], ◌∷◌}
use native.Mathlib.Omega.{arith}
use text.Mathlib.Text.{◌==◌ as str_eq}
use text.Mathlib.TextEquality.{eq_iff}
use text.Mathlib.TextPositions.{eq_refl}
use nestjs_ddd.Prelude.Tests.{if◌then◌else◌}

abbrev pub Map {ℓ} : Type ℓ → Type ℓ
Map V = List (String × V)

module _ {ℓ} {V : Type ℓ} where
  -- `m.delete(key)`
  unfoldable pub erase : String → Map V → Map V
  erase key [] = []
  erase key (entry ∷ m) =
      let rest = erase key m in if str_eq entry.0 key then rest else entry ∷ rest

  -- `m.get(key)`
  unfoldable pub lookup : String → Map V → Option V
  lookup key [] = none
  lookup key (entry ∷ m) =
      let later = lookup key m in if str_eq entry.0 key then some entry.1 else later

  -- `m.set(key, value)`: a known key keeps its place.
  unfoldable pub insert : String → V → Map V → Map V
  insert key value [] = (key, value) ∷ []
  insert key value (entry ∷ m) =
      let rest = insert key value m in if str_eq entry.0 key then (key, value) ∷ m else entry ∷ rest

  pub lookup-erase :
      (key asked : String) (m : Map V)
      → lookup asked (erase key m) ≡ (if str_eq key asked then none else lookup asked m)
  unfolding lookup erase
  lookup-erase key asked [] = ground arith
  lookup-erase key asked ((other, w) ∷ m) =
      ground
        (arith, lookup-erase key asked m, eq_iff other key, eq_iff other asked, eq_iff key asked)

  pub lookup-insert :
      (key asked : String) (value : V) (m : Map V)
      → lookup asked (insert key value m)
        ≡ (if str_eq key asked then some value else lookup asked m)
  unfolding insert lookup
  lookup-insert key asked value [] = refl
  lookup-insert key asked value ((other, w) ∷ m) = ground (
    arith,
    lookup-insert key asked value m,
    eq_iff other key,
    eq_iff other asked,
    eq_iff key asked,
  )

  pub lookup-erase_self : (key : String) (m : Map V) → lookup key (erase key m) ≡ none
  lookup-erase_self key m = simp (lookup-erase, eq_refl)

  pub lookup-insert_self :
      (key : String) (value : V) (m : Map V) → lookup key (insert key value m) ≡ some value
  lookup-insert_self key value m = simp (lookup-insert, eq_refl)

  pub lookup-insert_ne :
      (key asked : String) (value : V) (m : Map V)
      → key ≢ asked
      → lookup asked (insert key value m) ≡ lookup asked m
  lookup-insert_ne key asked value m ne =
      ground (arith, lookup-insert key asked value m, eq_iff key asked)
