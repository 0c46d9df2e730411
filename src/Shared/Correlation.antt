-- ===== src/Shared/Correlation.antt =====
-- src/shared/correlation.ts, over the code points of the id.
use Prim.Native.Char.{code}
use nestjs_ddd.Prelude.{
  ℕ, ◌≤◌, ◌≡◌, Bool, true, false, ◌&&◌, ◌||◌, String, List, [], ◌∷◌, Option, none, some, leb, ◌==◌,
  length, all, All, arith,
}

abbrev pub codes : String → List ℕ
codes String.[] = []
codes (String.◌∷◌ c rest) = code c ∷ codes rest

-- `[A-Za-z0-9._:-]`
abbrev pub is_safe_char : ℕ → Bool
is_safe_char c =
    leb b'A' c && leb c b'Z'
    || leb b'a' c && leb c b'z'
    || leb b'0' c && leb c b'9'
    || c == b'.'
    || c == b'_'
    || c == b':'
    || c == b'-'

-- `/^[A-Za-z0-9._:-]{1,128}$/`
unfoldable pub matches_safe : List ℕ → Bool
matches_safe [] = false
matches_safe (c ∷ cs) = all is_safe_char (c ∷ cs) && leb (length (c ∷ cs)) 128

unfoldable pub is_safe_correlation_id : Option String → Bool
unfolding matches_safe
is_safe_correlation_id none = false
is_safe_correlation_id (some s) = matches_safe (codes s)

-- Printable, and no separator of a log line: neither a control character nor a space, a quote, a
-- brace or a comma.
abbrev pub IsPlain : ℕ → Type 0
IsPlain c = (45 ≤ c) × (c ≤ 122)

all-IsPlain : (cs : List ℕ) → all is_safe_char cs ≡ true → All IsPlain cs
all-IsPlain [] h = tt
all-IsPlain (c ∷ cs) h = ground (arith, all-IsPlain cs)

pub matches_safe_bounds :
    (cs : List ℕ) → matches_safe cs ≡ true → (1 ≤ length cs) × (length cs ≤ 128) × All IsPlain cs
unfolding matches_safe
matches_safe_bounds [] h = cc
matches_safe_bounds (c ∷ cs) h = (ground arith, ground arith, all-IsPlain (c ∷ cs) (ground arith))

-- An id that is accepted has between 1 and 128 characters, all of them printable ASCII from "-" to
-- "z": no line break, space, quote or control character reaches a log line through it.
pub safe_correlation_id_bounds :
    (s : String)
    → is_safe_correlation_id (some s) ≡ true
    → (1 ≤ length (codes s)) × (length (codes s) ≤ 128) × All IsPlain (codes s)
unfolding is_safe_correlation_id
safe_correlation_id_bounds s h = matches_safe_bounds (codes s) h
