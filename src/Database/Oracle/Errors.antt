-- ===== src/Database/Oracle/Errors.antt =====
-- src/infrastructure/database/clients/oracle/oracle-error.mapper.ts and the errors it makes
-- (src/infrastructure/database/errors, src/application/errors).
use Prim.Native.String.{◌++◌ as text_append}
use nestjs_ddd.Prelude.{
  ℕ, zero, suc, ◌/◌, ◌%◌, ◌≡◌, Bool, false, ◌||◌, Option, none, some, String, List, [], ◌∷◌, any,
  ltb, ◌==◌, str_eq, if◌then◌else◌, Bool-cases, inl, inr, arith,
}

-- What is thrown: an object with a `code` or an `errorNum`, an error with neither, and the errors of
-- the application. A `DatabaseExecutionError` has a `code` of its own.
pub data Thrown : Type 0 where
  driver_error : Option String → Option ℕ → Thrown
  plain_error : ℕ → Thrown
  unauthorized : String → Thrown
  unknown_source_key : String → Thrown
  conflict : String → String → Option String → Thrown
  connection_failed : String → Thrown → Thrown
  execution_failed : String → Option String → Thrown → String → Thrown

abbrev connection_codes : List String
connection_codes =
    "NJS-040" ∷ "NJS-076" ∷ "NJS-500" ∷ "NJS-501" ∷ "NJS-503" ∷ "NJS-510" ∷ "NJS-521" ∷ "DPI-1010"
    ∷ "DPI-1080" ∷ "ORA-03113" ∷ "ORA-03114" ∷ "ORA-03135" ∷ "ORA-12170" ∷ "ORA-12514" ∷ "ORA-12541"
    ∷ "ORA-12543" ∷ "ORA-12545" ∷ []

-- `CONNECTION_CODES.has(code)`
unfoldable pub is_connection_code : String → Bool
is_connection_code code = any (λ c. str_eq c code) connection_codes

abbrev digit : ℕ → String
digit n =
    if n == 0
    then "0"
    else if n == 1
    then "1"
    else if n == 2
    then "2"
    else if n == 3
    then "3"
    else if n == 4
    then "4"
    else if n == 5
    then "5"
    else if n == 6
    then "6"
    else if n == 7
    then "7"
    else if n == 8
    then "8"
    else "9"

-- `String(n)` on `fuel + 1` digits.
digits : ℕ → ℕ → String
digits zero n = digit (n % 10)
digits (suc fuel) n =
    let rest = digits fuel (n / 10) in
    if ltb n 10 then digit n else text_append rest (digit (n % 10))

-- `String(n).padStart(5, '0')`; `n + 1` digits are more than `n` has.
padded : ℕ → String
unfolding digits
padded n =
    text_append
      (if ltb n 10
        then "0000"
        else if ltb n 100
        then "000"
        else if ltb n 1000
        then "00"
        else if ltb n 10000
        then "0"
        else "")
      (digits n n)

-- The `code` of the mapper.
unfoldable pub error_code : Thrown → Option String
unfolding padded
error_code (driver_error (some code) n) = some code
error_code (driver_error none (some n)) =
    if n == 0 then none else some (text_append "ORA-" (padded n))
error_code (execution_failed key tag cause code) = some code
error_code _ = none

map_code : String → Option String → Thrown → String → Thrown
unfolding is_connection_code
map_code key tag error code =
    if str_eq code ""
    then error
    else if str_eq code "ORA-00001"
    then conflict code key tag
    else if is_connection_code code
    then connection_failed key error
    else execution_failed key tag error code

unfoldable pub map_oracle_error : String → Option String → Thrown → Thrown
unfolding map_code
map_oracle_error key tag error = elim (error_code error) [
  | none ↦ error
  | some code ↦ map_code key tag error code
]

-- An error that was mapped and is mapped again, as it is when a joined call fails inside a
-- transaction: conflicts and connection failures stay as they are, but an execution failure is
-- wrapped once more, with the tag of the outer call.
pub mapped_again :
    (key key' : String) (tag tag' : Option String) (error : Thrown) (code : String)
    → error_code error ≡ some code
    → str_eq code "" ≡ false
    → map_oracle_error key' tag' (map_oracle_error key tag error) ≡ (
        if str_eq code "ORA-00001" || is_connection_code code
        then map_oracle_error key tag error
        else execution_failed key' tag' (map_oracle_error key tag error) code)
unfolding map_oracle_error map_code error_code
mapped_again key key' tag tag' error code known some_code =
    elim (Bool-cases (str_eq code "ORA-00001" || is_connection_code code)) [
      | inl stays ↦
          (let same : map_oracle_error key' tag' (map_oracle_error key tag error)
                ≡ map_oracle_error key tag error =
              ground arith in
            rw stays same)
      | inr wraps ↦
          (let wrapped : map_oracle_error key' tag' (map_oracle_error key tag error)
                ≡ execution_failed key' tag' (map_oracle_error key tag error) code =
              ground arith in
            rw wraps wrapped)
    ]
