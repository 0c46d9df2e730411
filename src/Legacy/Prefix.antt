-- ===== src/Legacy/Prefix.antt =====
-- src/infrastructure/legacy/matches-prefix.util.ts, over the characters of a path.
pub mod Segments
use nestjs_ddd.Prelude.{
  ℕ, Bool, true, false, ◌&&◌, ◌||◌, List, [], ◌∷◌, ◌++◌, any, ltb, length, ◌==◌, if◌then◌else◌,
}

abbrev pub slash : ℕ
slash = b'/'

-- `path.endsWith('/')`
unfoldable pub ends_with_slash : List ℕ → Bool
ends_with_slash [] = false
ends_with_slash (c ∷ []) = c == slash
ends_with_slash (c ∷ d ∷ cs) = ends_with_slash (d ∷ cs)

-- `path.slice(0, -1)`
unfoldable pub but_last : List ℕ → List ℕ
but_last [] = []
but_last (c ∷ []) = []
but_last (c ∷ d ∷ cs) = c ∷ but_last (d ∷ cs)

unfoldable pub normalize : List ℕ → List ℕ
unfolding ends_with_slash but_last
normalize path = if ltb 1 (length path) && ends_with_slash path then but_last path else path

-- `===` on texts
unfoldable pub same_text : List ℕ → List ℕ → Bool
same_text [] [] = true
same_text [] (c ∷ cs) = false
same_text (c ∷ cs) [] = false
same_text (c ∷ cs) (d ∷ ds) = c == d && same_text cs ds

-- `target.startsWith(start)`
unfoldable pub starts_with : List ℕ → List ℕ → Bool
starts_with [] target = true
starts_with (c ∷ cs) [] = false
starts_with (c ∷ cs) (d ∷ ds) = c == d && starts_with cs ds

-- The test of one prefix, both sides normalized.
unfoldable pub falls_under : List ℕ → List ℕ → Bool
unfolding same_text starts_with
falls_under prefix target = same_text target prefix || starts_with (prefix ++ slash ∷ []) target

unfoldable pub matches_legacy_prefix : List ℕ → List (List ℕ) → Bool
unfolding normalize falls_under
matches_legacy_prefix path prefixes =
    any (λ prefix. falls_under (normalize prefix) (normalize path)) prefixes
