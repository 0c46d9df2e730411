-- ===== src/Legacy/Prefix/Segments.antt =====
-- A legacy prefix matches whole segments of a path (src/infrastructure/legacy/matches-prefix.util.ts).
use nestjs_ddd.Prelude.{
  ℕ, ◌≡◌, refl, inl, inr, Bool, true, false, ◌&&◌, List, [], ◌∷◌, any, arith, ◌==◌, if◌then◌else◌,
  Bool-cases,
}
use nestjs_ddd.Legacy.Prefix.{
  slash, same_text, starts_with, falls_under, normalize, matches_legacy_prefix,
}

-- `cs` before the first of the segments.
abbrev pub onto_first : ℕ → List (List ℕ) → List (List ℕ)
onto_first c [] = (c ∷ []) ∷ []
onto_first c (s ∷ ss) = (c ∷ s) ∷ ss

-- `path.split('/')`
unfoldable pub segments : List ℕ → List (List ℕ)
segments [] = [] ∷ []
segments (c ∷ cs) = let rest = segments cs in if c == slash then [] ∷ rest else onto_first c rest

-- Whether the one list of segments begins the other.
unfoldable pub begins : List (List ℕ) → List (List ℕ) → Bool
begins [] ss = true
begins (p ∷ ps) [] = false
begins (p ∷ ps) (s ∷ ss) = same_text s p && begins ps ss

segments-some : (cs : List ℕ) → (s : List ℕ) × (ss : List (List ℕ)) × (segments cs ≡ s ∷ ss)
unfolding segments
segments-some [] = ([], [], refl)
segments-some (c ∷ cs) =
    let (s, ss, e) = segments-some cs in
    elim (Bool-cases (c == slash)) [
      | inl here ↦ ([], segments cs, ground arith)
      | inr other ↦ (c ∷ s, ss, ground arith)
    ]

falls_under-begins :
    (prefix target : List ℕ)
    → falls_under prefix target ≡ begins (segments prefix) (segments target)
unfolding falls_under begins segments same_text starts_with
falls_under-begins [] [] = refl
falls_under-begins [] (d ∷ ds) = (let (s, ss, e) = segments-some ds in ground arith)
falls_under-begins (c ∷ cs) [] = (let (s, ss, e) = segments-some cs in ground arith)
falls_under-begins (c ∷ cs) (d ∷ ds) =
    let (p, ps, e) = segments-some cs in
    let (s, ss, f) = segments-some ds in let rest = falls_under-begins cs ds in ground arith

-- A path goes to the legacy service exactly when the segments of one of the prefixes begin its own,
-- a slash at the end of either apart: a prefix never matches within a segment.
pub matches_legacy_prefix-segments :
    (path : List ℕ) (prefixes : List (List ℕ))
    → matches_legacy_prefix path prefixes
      ≡ any (λ prefix. begins (segments (normalize prefix)) (segments (normalize path))) prefixes
unfolding matches_legacy_prefix
matches_legacy_prefix-segments path [] = refl
matches_legacy_prefix-segments path (p ∷ ps) = ground (
  arith,
  matches_legacy_prefix-segments path ps,
  falls_under-begins (normalize p) (normalize path),
)
