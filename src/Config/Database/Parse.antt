-- ===== src/Config/Database/Parse.antt =====
-- `resolveSecretRefs` and `parseSources` of src/infrastructure/config/schemas/database.schema.ts. `env` is the
-- environment.
use nestjs_ddd.Prelude.{not, ◌&&◌, Option, none, some, String, List, [], ◌∷◌, str_eq, if◌then◌else◌}
use nestjs_ddd.Shared.Values.{
  Value, undefined, string, array, object, Elements, no_elements, element, Members, get, put,
  is_undefined,
}

module _ (env : String → Option String) where
  abbrev pub env_value : Option String → Value
  env_value none = undefined
  env_value (some s) = string s

  -- The body of the loop, for the value of `<field>Env`.
  unfoldable pub resolve_ref : String → Value → Members → Members
  unfolding put
  resolve_ref field (string ref) fs =
      if is_undefined (get field fs) && not (str_eq ref "")
      then put field (env_value (env ref)) fs
      else fs
  resolve_ref field ref fs = fs

  -- The loop over `SECRET_ENV_FIELDS`.
  unfoldable pub resolve_members : Members → Members
  unfolding resolve_ref
  resolve_members fs =
      let fs' = resolve_ref "password" (get "passwordEnv" fs) fs in
      resolve_ref "walletPassword" (get "walletPasswordEnv" fs') fs'

  unfoldable pub resolve_secret_refs : Value → Value
  unfolding resolve_members
  resolve_secret_refs (object fs) = object (resolve_members fs)
  resolve_secret_refs v = v

  unfoldable pub resolve_all : Elements → List Value
  unfolding resolve_secret_refs
  resolve_all no_elements = []
  resolve_all (element v vs) = resolve_secret_refs v ∷ resolve_all vs

  abbrev sources_in : Value → Value
  sources_in (object fs) = get "sources" fs
  sources_in v = v

  abbrev as_list : Value → Option (List Value)
  as_list (array vs) = some (resolve_all vs)
  as_list v = none

  -- `parseSources`, on what `parseJson` returns, none where it throws; none where there is no list, which
  -- the schema then refuses.
  unfoldable pub parse_sources : Option Value → Option (List Value)
  unfolding resolve_all
  parse_sources none = none
  parse_sources (some parsed) = as_list (sources_in parsed)
