-- ===== src/Requests/Validation/Stored.antt =====
-- What a handler reads after the validation (src/interface/http/interceptors/zod-http.interceptor.ts).
use nestjs_ddd.Prelude.{◌≡◌, refl, ap, ◌∙◌, if◌then◌else◌}
use nestjs_ddd.Shared.Values.{get}
use nestjs_ddd.Requests.Validation.{
  Part, body, query, params, headers, part_name, ZodHttpSchema, Inputs, input, validate,
  validate_parts,
}
use nestjs_ddd.Requests.Validation.{first_failure}
use nestjs_ddd.Requests.Validation.Steps.{
  schema_of, taken, is_replaced, refusal, validate-validated, validate-input, validate-refusal,
}

module _ (schema : ZodHttpSchema) (r : Inputs) where
  abbrev r1 : Inputs
  r1 = (validate body schema.body r).1

  abbrev r2 : Inputs
  r2 = (validate query schema.query r1).1

  abbrev r3 : Inputs
  r3 = (validate params schema.params r2).1

  -- A part as it came in is what its schema is asked about.
  unchanged :
      (input query r1 ≡ input query r)
      × (input params r2 ≡ input params r)
      × (input headers r3 ≡ input headers r)
  unchanged =
      let query_kept : input query r1 ≡ input query r = validate-input body query schema.body r in
      let params_kept : input params r2 ≡ input params r =
        validate-input query params schema.query r1 ∙ validate-input body params schema.body r in
      let headers_kept : input headers r3 ≡ input headers r =
        validate-input params headers schema.params r2
        ∙ validate-input query headers schema.query r1
        ∙ validate-input body headers schema.body r in
      (query_kept, params_kept, headers_kept)

  parts-validated :
      (q : Part)
      → get (part_name q) (validate_parts schema r).1.validated
        ≡ taken (schema_of q schema) (input q r) (get (part_name q) r.validated)
  unfolding validate_parts
  parts-validated body =
      validate-validated headers body schema.headers r3
      ∙ validate-validated params body schema.params r2
      ∙ validate-validated query body schema.query r1
      ∙ validate-validated body body schema.body r
  parts-validated query =
      validate-validated headers query schema.headers r3
      ∙ validate-validated params query schema.params r2
      ∙ validate-validated query query schema.query r1
      ∙ ap (λ v. taken schema.query v (get "query" r1.validated)) unchanged.0
      ∙ ap (taken schema.query (input query r)) (validate-validated body query schema.body r)
  parts-validated params =
      validate-validated headers params schema.headers r3
      ∙ validate-validated params params schema.params r2
      ∙ ap (λ v. taken schema.params v (get "params" r2.validated)) unchanged.1
      ∙ ap (taken schema.params (input params r)) (
          validate-validated query params schema.query r1
          ∙ validate-validated body params schema.body r)
  parts-validated headers =
      validate-validated headers headers schema.headers r3
      ∙ ap (λ v. taken schema.headers v (get "headers" r3.validated)) unchanged.2
      ∙ ap (taken schema.headers (input headers r)) (
          validate-validated params headers schema.params r2
          ∙ validate-validated query headers schema.query r1
          ∙ validate-validated body headers schema.body r)

  parts-input :
      (q : Part)
      → input q (validate_parts schema r).1
        ≡ (if is_replaced q then taken (schema_of q schema) (input q r) (input q r) else input q r)
  unfolding validate_parts
  parts-input body =
      validate-input headers body schema.headers r3
      ∙ validate-input params body schema.params r2
      ∙ validate-input query body schema.query r1
      ∙ validate-input body body schema.body r
  parts-input query =
      validate-input headers query schema.headers r3
      ∙ validate-input params query schema.params r2
      ∙ validate-input query query schema.query r1
      ∙ unchanged.0
  parts-input params =
      validate-input headers params schema.headers r3
      ∙ validate-input params params schema.params r2
      ∙ ap (λ v. taken schema.params v v) unchanged.1
  parts-input headers = validate-input headers headers schema.headers r3 ∙ unchanged.2

  parts-refusal :
      (validate_parts schema r).0
      ≡ first_failure (refusal body schema.body r.body) (
          first_failure (refusal query schema.query r.query) (
            first_failure
              (refusal params schema.params r.params)
              (refusal headers schema.headers r.headers)))
  unfolding validate_parts
  parts-refusal =
      let in_body = validate-refusal body schema.body r in
      let in_query =
        validate-refusal query schema.query r1 ∙ ap (refusal query schema.query) unchanged.0 in
      let in_params =
        validate-refusal params schema.params r2 ∙ ap (refusal params schema.params) unchanged.1 in
      let in_headers =
        validate-refusal headers schema.headers r3
        ∙ ap (refusal headers schema.headers) unchanged.2 in
      rw (in_body, in_query, in_params, in_headers) refl

-- After the validation `req.validated` holds for each part what its schema made of the part as it came
-- in, if it has a schema and that accepts it, and otherwise what it held before; the body and the path
-- parameters are replaced by the same value, the query and the headers are left as they are; and the
-- answer is that of the first part in the order body, query, path parameters, headers, whose schema
-- refuses it, if there is one.
pub validate_parts-stored :
    (schema : ZodHttpSchema) (r : Inputs) (part : Part)
    → (get (part_name part) (validate_parts schema r).1.validated
        ≡ taken (schema_of part schema) (input part r) (get (part_name part) r.validated))
      × (input part (validate_parts schema r).1 ≡ (
          if is_replaced part
          then taken (schema_of part schema) (input part r) (input part r)
          else input part r))
      × ((validate_parts schema r).0
          ≡ first_failure (refusal body schema.body r.body) (
              first_failure (refusal query schema.query r.query) (
                first_failure
                  (refusal params schema.params r.params)
                  (refusal headers schema.headers r.headers))))
validate_parts-stored schema r part =
    (parts-validated schema r part, parts-input schema r part, parts-refusal schema r)
