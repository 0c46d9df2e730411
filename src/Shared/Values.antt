-- ===== src/Shared/Values.antt =====
-- JavaScript values as src/shared/helpers.ts and src/shared/problem.ts take them apart: the guards
-- `isRecord`, `isEnvelope`, `isResultLike` and `isProblemLike`. A class instance is an `object`.
use nestjs_ddd.Prelude.{
  ℕ, ◌≡◌, refl, Bool, true, false, ◌&&◌, ◌||◌, String, str_eq, eq_iff, arith, if◌then◌else◌,
}

mutual
  pub data Value : Type 0 where
    undefined null : Value
    boolean : Bool → Value
    number : ℕ → Value
    string : String → Value
    array : Elements → Value
    object : Members → Value

  -- The members of an object, in order.
  pub data Members : Type 0 where
    no_members : Members
    member : String → Value → Members → Members

  pub data Elements : Type 0 where
    no_elements : Elements
    element : Value → Elements → Elements

-- `k in o`, and `o[k]`
abbrev pub has_key : String → Members → Bool
has_key k no_members = false
has_key k (member j v fs) = str_eq j k || has_key k fs

abbrev pub get : String → Members → Value
get k no_members = undefined
get k (member j v fs) = if str_eq j k then v else get k fs

-- `{ ...o, [k]: w }`: a key that is there keeps its place.
unfoldable pub put : String → Value → Members → Members
put k w no_members = member k w no_members
put k w (member j v fs) =
    let rest = put k w fs in if str_eq j k then member k w fs else member j v rest

-- `{ ...base, ...over }`
unfoldable pub spread : Members → Members → Members
unfolding put
spread base no_members = base
spread base (member k v fs) = spread (put k v base) fs

-- The members of an object; anything else has none.
abbrev pub members_of : Value → Members
members_of (object fs) = fs
members_of _ = no_members

abbrev pub is_record : Value → Bool
is_record (object fs) = true
is_record _ = false

abbrev pub is_boolean : Value → Bool
is_boolean (boolean b) = true
is_boolean _ = false

abbrev pub is_string : Value → Bool
is_string (string s) = true
is_string _ = false

abbrev pub is_undefined : Value → Bool
is_undefined undefined = true
is_undefined _ = false

unfoldable pub is_envelope : Value → Bool
is_envelope (object fs) =
    has_key "success" fs
    && is_boolean (get "success" fs)
    && has_key "meta" fs
    && is_record (get "meta" fs)
is_envelope _ = false

-- The test of `ok` in `isResultLike`.
abbrev pub result_like_by : Value → Members → Bool
result_like_by (boolean true) fs = has_key "value" fs
result_like_by (boolean false) fs = has_key "error" fs
result_like_by _ fs = false

unfoldable pub is_result_like : Value → Bool
is_result_like (object fs) = has_key "ok" fs && result_like_by (get "ok" fs) fs
is_result_like _ = false

-- `Result.isErr`, on a value that is like a result: `!result.ok`.
abbrev pub not_ok : Value → Bool
not_ok (boolean true) = false
not_ok _ = true

-- `isResultLike(body) && Result.isErr(body)`
unfoldable pub is_err_result : Value → Bool
unfolding is_result_like
is_err_result (object fs) = is_result_like (object fs) && not_ok (get "ok" fs)
is_err_result _ = false

-- The members that `isProblemLike` asks for, of an array or an object alike.
abbrev pub problem_members : Members → Bool
problem_members fs =
    is_string (get "kind" fs)
    && is_string (get "type" fs)
    && is_string (get "title" fs)
    && (is_undefined (get "detail" fs) || is_string (get "detail" fs))

unfoldable pub is_problem_like : Value → Bool
is_problem_like (object fs) = problem_members fs
is_problem_like _ = false

-- What a member reads after a write, whichever it was.
pub get-put :
    (k j : String) (w : Value) (fs : Members)
    → get j (put k w fs) ≡ (if str_eq k j then w else get j fs)
unfolding put
get-put k j w no_members = refl
get-put k j w (member i v fs) = ground (arith, eq_iff k j, eq_iff i k, eq_iff i j, get-put k j w fs)

pub has_key-put :
    (k j : String) (w : Value) (fs : Members) → has_key j (put k w fs) ≡ str_eq k j || has_key j fs
unfolding put
has_key-put k j w no_members = refl
has_key-put k j w (member i v fs) =
    ground (arith, eq_iff k j, eq_iff i k, eq_iff i j, has_key-put k j w fs)
