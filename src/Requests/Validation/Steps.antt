-- ===== src/Requests/Validation/Steps.antt =====
-- What one step of the validation does to each part (ZodHttpInterceptor of
-- src/interface/http/interceptors/zod-http.interceptor.ts).
use nestjs_ddd.Prelude.{
  ◌≡◌, refl, ap, ◌∙◌, ◌&&◌, Option, none, some, Bool, true, false, if◌then◌else◌, str_eq, arith,
}
use nestjs_ddd.Shared.Values.{Value, get, put, get-put}
use nestjs_ddd.Requests.Validation.{
  Parsed, success, failure, Part, body, query, params, headers, part_name, ZodHttpSchema, Inputs,
  input, store, settle_part, validate,
}
use nestjs_ddd.Requests.Validation.{format_zod_error}

-- The schema of a part.
abbrev pub schema_of : Part → ZodHttpSchema → Option (Value → Parsed)
schema_of body schema = schema.body
schema_of query schema = schema.query
schema_of params schema = schema.params
schema_of headers schema = schema.headers

-- The value that a schema makes of a part, and `old` where there is none.
abbrev pub parsed_or : Parsed → Value → Value
parsed_or (success v) old = v
parsed_or (failure issues) old = old

abbrev pub taken : Option (Value → Parsed) → Value → Value → Value
taken none v old = old
taken (some zod) v old = parsed_or (zod v) old

-- `body` and `params` are replaced in place.
abbrev pub is_replaced : Part → Bool
is_replaced body = true
is_replaced params = true
is_replaced part = false

-- The response of the exception for a part.
abbrev pub refusal_of : Part → Parsed → Option Value
refusal_of part (success v) = none
refusal_of part (failure issues) = some (format_zod_error part issues)

abbrev pub refusal : Part → Option (Value → Parsed) → Value → Option Value
refusal part none v = none
refusal part (some zod) v = refusal_of part (zod v)

abbrev pub is_part : Part → Part → Bool
is_part p q = str_eq (part_name p) (part_name q)

store-validated :
    (p : Part) (v : Value) (r : Inputs) → (store p v r).validated ≡ put (part_name p) v r.validated
unfolding store
store-validated body v r = refl
store-validated query v r = refl
store-validated params v r = refl
store-validated headers v r = refl

store-input :
    (p q : Part) (v : Value) (r : Inputs)
    → input q (store p v r) ≡ (if is_part p q && is_replaced q then v else input q r)
unfolding store
store-input body body v r = refl
store-input body query v r = refl
store-input body params v r = refl
store-input body headers v r = refl
store-input query body v r = refl
store-input query query v r = refl
store-input query params v r = refl
store-input query headers v r = refl
store-input params body v r = refl
store-input params query v r = refl
store-input params params v r = refl
store-input params headers v r = refl
store-input headers body v r = refl
store-input headers query v r = refl
store-input headers params v r = refl
store-input headers headers v r = refl

settle-validated :
    (p q : Part) (o : Parsed) (r : Inputs)
    → get (part_name q) (settle_part p o r).1.validated ≡ (
        if is_part p q
        then parsed_or o (get (part_name q) r.validated)
        else get (part_name q) r.validated)
unfolding settle_part
settle-validated p q (success v) r =
    ap (get (part_name q)) (store-validated p v r)
    ∙ get-put (part_name p) (part_name q) v r.validated
settle-validated p q (failure issues) r = ground arith

settle-input :
    (p q : Part) (o : Parsed) (r : Inputs)
    → input q (settle_part p o r).1
      ≡ (if is_part p q && is_replaced q then parsed_or o (input q r) else input q r)
unfolding settle_part
settle-input p q (success v) r = store-input p q v r
settle-input p q (failure issues) r = ground arith

pub validate-validated :
    (p q : Part) (zod : Option (Value → Parsed)) (r : Inputs)
    → get (part_name q) (validate p zod r).1.validated ≡ (
        if is_part p q
        then taken zod (input p r) (get (part_name q) r.validated)
        else get (part_name q) r.validated)
unfolding validate
validate-validated p q none r = ground arith
validate-validated p q (some zod) r = settle-validated p q (zod (input p r)) r

pub validate-input :
    (p q : Part) (zod : Option (Value → Parsed)) (r : Inputs)
    → input q (validate p zod r).1
      ≡ (if is_part p q && is_replaced q then taken zod (input p r) (input q r) else input q r)
unfolding validate
validate-input p q none r = ground arith
validate-input p q (some zod) r = settle-input p q (zod (input p r)) r

settle-refusal : (p : Part) (o : Parsed) (r : Inputs) → (settle_part p o r).0 ≡ refusal_of p o
unfolding settle_part
settle-refusal p (success v) r = refl
settle-refusal p (failure issues) r = refl

pub validate-refusal :
    (p : Part) (zod : Option (Value → Parsed)) (r : Inputs)
    → (validate p zod r).0 ≡ refusal p zod (input p r)
unfolding validate
validate-refusal p none r = refl
validate-refusal p (some zod) r = settle-refusal p (zod (input p r)) r
