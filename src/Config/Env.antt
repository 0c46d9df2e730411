-- ===== src/Config/Env.antt =====
-- src/infrastructure/config/env.util.ts, over code points. Lower case is that of ASCII: no other
-- character has a letter of the words that are compared.
pub mod Items
use nestjs_ddd.Prelude.{
  ℕ, Bool, true, false, ◌&&◌, Option, none, some, List, [], ◌∷◌, map, keep, any, ltb, length, ◌==◌,
  if◌then◌else◌,
}
use nestjs_ddd.Shared.Correlation.{codes}
use nestjs_ddd.Shared.Text.{Text, trim}
use nestjs_ddd.Shared.Trace.{lower_char}
use nestjs_ddd.Legacy.Prefix.{same_text}

-- `trimmed ? trimmed : undefined`
abbrev pub given : Text → Option Text
given [] = none
given (c ∷ cs) = some (c ∷ cs)

unfoldable pub env_string : Option Text → Option Text
env_string none = none
env_string (some value) = given (trim value)

-- A flag of the environment: a value that is no flag is left as it is, so that validation refuses it.
pub data Flag : Type 0 where
  unset : Flag
  flag : Bool → Flag
  invalid : Text → Flag

abbrev is_one_of : List Text → Text → Bool
is_one_of words v = any (λ word. same_text word v) words

abbrev true_words : List Text
true_words = codes "true" ∷ codes "1" ∷ codes "yes" ∷ codes "on" ∷ []

abbrev false_words : List Text
false_words = codes "false" ∷ codes "0" ∷ codes "no" ∷ codes "off" ∷ []

-- What is made of the lower-case text `v` of a value.
abbrev flag_of : Text → Text → Flag
flag_of value v =
    if is_one_of true_words v
    then flag true
    else if is_one_of false_words v
    then flag false
    else invalid value

abbrev flag_by : Text → Option Text → Flag
flag_by value none = unset
flag_by value (some v) = flag_of value (map lower_char v)

unfoldable pub env_bool : Option Text → Flag
unfolding env_string
env_bool none = unset
env_bool (some value) = flag_by value (env_string (some value))

-- `v.split(',')`: the first part, and the others.
unfoldable pub split_commas : Text → Text × List Text
split_commas [] = ([], [])
split_commas (c ∷ cs) =
    let (part, parts) = split_commas cs in
    if c == b',' then ([], part ∷ parts) else (c ∷ part, parts)

abbrev pub is_filled : Text → Bool
is_filled item = ltb 0 (length item)

-- The items of a text that is not blank.
unfoldable pub items_of : Text → List Text
unfolding split_commas
items_of v = keep is_filled (map trim ((split_commas v).0 ∷ (split_commas v).1))

abbrev pub items_by : Option Text → Option (List Text)
items_by none = none
items_by (some v) = some (items_of v)

unfoldable pub env_list : Option Text → Option (List Text)
unfolding env_string items_of
env_list value = items_by (env_string value)
