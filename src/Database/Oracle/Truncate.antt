-- ===== src/Database/Oracle/Truncate.antt =====
-- `truncateBytes` of src/infrastructure/database/clients/oracle.client.ts, and `trim`.
use Prim.Native.Char.{code, len_utf8}
use nestjs_ddd.Prelude.{
  ℕ, ◌+◌, ◌≤◌, ◌<◌, ◌≡◌, ◌⊎◌, inl, inr, refl, ap, Bool, ◌&&◌, ◌||◌, String, leb, ltb, ◌==◌, arith,
  if◌then◌else◌, Bool-cases, str_eq,
}

-- White space and line ends of the language.
abbrev is_space : ℕ → Bool
is_space c =
    leb 9 c && leb c 13
    || c == 32
    || c == 160
    || c == 5760
    || leb 8192 c && leb c 8202
    || c == 8232
    || c == 8233
    || c == 8239
    || c == 8287
    || c == 12288
    || c == 65279

trim_start : String → String
trim_start String.[] = ""
trim_start (String.◌∷◌ c rest) =
    let later = trim_start rest in if is_space (code c) then later else String.◌∷◌ c rest

trim_end : String → String
trim_end String.[] = ""
trim_end (String.◌∷◌ c rest) =
    let later = trim_end rest in
    if is_space (code c) && str_eq later "" then "" else String.◌∷◌ c later

unfoldable pub trim : String → String
unfolding trim_start trim_end
trim s = trim_end (trim_start s)

-- `Buffer.byteLength(s, 'utf8')`
abbrev pub byte_length : String → ℕ
byte_length String.[] = 0
byte_length (String.◌∷◌ c rest) = len_utf8 c + byte_length rest

-- `s + t`
abbrev pub followed_by : String → String → String
followed_by String.[] t = t
followed_by (String.◌∷◌ c rest) t = String.◌∷◌ c (followed_by rest t)

-- The loop, with `used` bytes in the result so far.
take_bytes : ℕ → ℕ → String → String
take_bytes limit used String.[] = ""
take_bytes limit used (String.◌∷◌ c rest) =
    let more = take_bytes limit (used + len_utf8 c) rest in
    if ltb limit (used + len_utf8 c) then "" else String.◌∷◌ c more

unfoldable pub truncate_bytes : String → ℕ → String
unfolding take_bytes
truncate_bytes s limit = if leb (byte_length s) limit then s else take_bytes limit 0 s

append_empty : (s : String) → followed_by s "" ≡ s
append_empty String.[] = refl
append_empty (String.◌∷◌ c rest) = ap (λ s. String.◌∷◌ c s) (append_empty rest)

-- What `truncate_bytes` leaves out.
rest_of : ℕ → ℕ → String → String
rest_of limit used String.[] = ""
rest_of limit used (String.◌∷◌ c rest) =
    let more = rest_of limit (used + len_utf8 c) rest in
    if ltb limit (used + len_utf8 c) then String.◌∷◌ c rest else more

-- The bytes of the first character.
abbrev pub head_bytes : String → ℕ
head_bytes String.[] = 0
head_bytes (String.◌∷◌ c rest) = len_utf8 c

take_bytes_lem :
    (limit used : ℕ) (s : String)
    → used ≤ limit
    → (used + byte_length (take_bytes limit used s) ≤ limit)
      × (followed_by (take_bytes limit used s) (rest_of limit used s) ≡ s)
      × ((rest_of limit used s ≡ "")
          ⊎ (limit
              < used + byte_length (take_bytes limit used s) + head_bytes (rest_of limit used s)))
unfolding take_bytes rest_of
take_bytes_lem limit used String.[] fits = (ground arith, refl, inl refl)
take_bytes_lem limit used (String.◌∷◌ c rest) fits =
    elim (Bool-cases (ltb limit (used + len_utf8 c))) [
      | inl over ↦ rw over (omega arith, refl, inr (ground arith))
      | inr room ↦
          let (short, whole, most) = take_bytes_lem limit (used + len_utf8 c) rest (ground arith) in
          rw room (omega (arith, short), ap (λ s. String.◌∷◌ c s) whole, ground (arith, most))
    ]

-- The text that is kept is a beginning of the given one, has at most `limit` bytes, and no longer
-- beginning has.
pub truncate_bytes_lem :
    (s : String) (limit : ℕ)
    → (byte_length (truncate_bytes s limit) ≤ limit)
      × ((rest : String) × (followed_by (truncate_bytes s limit) rest ≡ s)
          × ((rest ≡ "") ⊎ (limit < byte_length (truncate_bytes s limit) + head_bytes rest)))
unfolding truncate_bytes
truncate_bytes_lem s limit = elim (Bool-cases (leb (byte_length s) limit)) [
  | inl fits ↦ rw fits (ground arith, ("", append_empty s, inl refl))
  | inr long ↦
      let (short, whole, most) = take_bytes_lem limit 0 s (omega arith) in
      rw long (omega (arith, short), (rest_of limit 0 s, whole, ground (arith, most)))
]
