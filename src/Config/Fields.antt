-- ===== src/Config/Fields.antt =====
-- The checks that the schemas of src/infrastructure/config/schemas declare for a field, as zod documents
-- them, on a JSON value: none where the field is refused. The numbers of the model are natural; a number
-- that is not is refused by each field that is checked here, as a value of another type is, except by
-- `poolPingIntervalSec` and `queueMax`, whose negative values are left out.
use nestjs_ddd.Prelude.{
  ℕ, ◌≡◌, Bool, true, false, ◌&&◌, Option, none, some, String, List, any, leb, str_eq, refl, subst,
  if◌then◌else◌,
}
use nestjs_ddd.Shared.Values.{Value, undefined, boolean, number, string, object, Members}

-- `z.string().min(1)`
unfoldable pub text_field : Value → Option String
text_field (string s) = if str_eq s "" then none else some s
text_field _ = none

-- `z.string()`
unfoldable pub any_text : Value → Option String
any_text (string s) = some s
any_text _ = none

-- `z.url()`, where `is_url` is the test of zod.
unfoldable pub url_field : (String → Bool) → Value → Option String
url_field is_url (string s) = if is_url s then some s else none
url_field is_url _ = none

-- `z.boolean()`
unfoldable pub flag_field : Value → Option Bool
flag_field (boolean b) = some b
flag_field _ = none

-- `z.number().int().min(low)`
unfoldable pub from_field : ℕ → Value → Option ℕ
from_field low (number n) = if leb low n then some n else none
from_field low _ = none

-- `z.number().int().min(low).max(high)`
unfoldable pub between_field : ℕ → ℕ → Value → Option ℕ
between_field low high (number n) = if leb low n && leb n high then some n else none
between_field low high _ = none

-- `z.enum([…])`
unfoldable pub enum_field : List String → Value → Option String
enum_field words (string s) = if any (λ word. str_eq word s) words then some s else none
enum_field words _ = none

-- `z.record(z.string(), z.unknown())`
unfoldable pub record_field : Value → Option Members
record_field (object fs) = some fs
record_field _ = none

module _ {A : Type 0} where
  -- `.optional()`
  abbrev pub optional : (Value → Option A) → Value → Option (Option A)
  optional field undefined = some none
  optional field v = elim (field v) [ none ↦ none | some a ↦ some (some a) ]

  -- `.default(d)`
  abbrev pub defaulted : (Value → Option A) → A → Value → Option A
  defaulted field d undefined = some d
  defaulted field d v = field v

infixl 15 ◌>>=◌
unfoldable pub ◌>>=◌ : {A B : Type 0} → Option A → (A → Option B) → Option B
none >>= f = none
some a >>= f = f a

-- `.refine(test)`
unfoldable pub refined : {A : Type 0} → (A → Bool) → A → Option A
refined test a = if test a then some a else none

-- What holds of a value that is accepted.
unfoldable pub Ensures : {A : Type 0} → (A → Type 0) → Option A → Type 0
Ensures P none = Unit
Ensures P (some a) = P a

pub Ensures-bind :
    {A B : Type 0} (P : B → Type 0) (m : Option A) (f : A → Option B)
    → ((a : A) → Ensures P (f a))
    → Ensures P (m >>= f)
unfolding Ensures ◌>>=◌
Ensures-bind P none f h = tt
Ensures-bind P (some a) f h = h a

-- The same, with what is known of the first value.
pub Ensures-bind_known :
    {A B : Type 0} (Q : A → Type 0) (P : B → Type 0) (m : Option A) (f : A → Option B)
    → Ensures Q m
    → ((a : A) → Q a → Ensures P (f a))
    → Ensures P (m >>= f)
unfolding Ensures ◌>>=◌
Ensures-bind_known Q P none f q h = tt
Ensures-bind_known Q P (some a) f q h = h a q

pub Ensures-some : {A : Type 0} (P : A → Type 0) (a : A) → P a → Ensures P (some a)
unfolding Ensures
Ensures-some P a p = p

pub Ensures-none : {A : Type 0} (P : A → Type 0) → Ensures P none
unfolding Ensures
Ensures-none P = tt

-- The value of a check that accepts.
pub of-Ensures :
    {A : Type 0} (P : A → Type 0) (m : Option A) (a : A) → m ≡ some a → Ensures P m → P a
unfolding Ensures
of-Ensures {A} P m a e h = subst (λ (n : Option A). Ensures P n) e h

-- What was known before the refinement still holds.
pub Ensures-refined_known :
    {A : Type 0} (test : A → Bool) (a : A) (P : A → Type 0)
    → P a
    → Ensures (λ b. (test b ≡ true) × P b) (refined test a)
unfolding Ensures refined
Ensures-refined_known test a P p = go (test a) refl
  where
    go : (b : Bool) → test a ≡ b → Ensures (λ c. (test c ≡ true) × P c) (if b then some a else none)
    go true e = (e, p)
    go false e = tt
