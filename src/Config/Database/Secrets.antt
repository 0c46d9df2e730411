-- ===== src/Config/Database/Secrets.antt =====
-- Secrets that the environment holds (`resolveSecretRefs` of database.schema.ts).
use nestjs_ddd.Prelude.{
  ◌≡◌, refl, ◌∙◌, ap, sym, false, not, ◌&&◌, Option, String, str_eq, eq_iff, arith, Bool-cases, inl,
  inr, if◌then◌else◌,
}
use nestjs_ddd.Shared.Values.{Value, string, Members, get, get-put, is_undefined}
use nestjs_ddd.Config.Database.Parse.{env_value, resolve_ref, resolve_members}

-- The value of a secret: its own one if it has one, otherwise that of the variable that `ref` names.
abbrev pub secret_value : (String → Option String) → (own ref : Value) → Value
secret_value env own (string name) =
    if is_undefined own && not (str_eq name "") then env_value env (env name) else own
secret_value env own ref = own

resolve_ref-get :
    (env : String → Option String) (field asked : String) (ref : Value) (fs : Members)
    → get asked (resolve_ref env field ref fs)
      ≡ (if str_eq field asked then secret_value env (get asked fs) ref else get asked fs)
unfolding resolve_ref
resolve_ref-get env field asked (string name) fs =
    ground (arith, eq_iff field asked, get-put field asked (env_value env (env name)) fs)
resolve_ref-get env field asked ref fs = ground arith

get_wallet_password :
    (env : String → Option String) (fs : Members)
    → get "walletPassword" (resolve_members env fs)
      ≡ secret_value env (get "walletPassword" fs) (get "walletPasswordEnv" fs)
unfolding resolve_members
get_wallet_password env fs =
    let ref = get "passwordEnv" fs in
    let fs' = resolve_ref env "password" ref fs in
    resolve_ref-get env "walletPassword" "walletPassword" (get "walletPasswordEnv" fs') fs'
    ∙ rw (resolve_ref-get env "password" "walletPassword" ref fs)
        (rw (resolve_ref-get env "password" "walletPasswordEnv" ref fs) refl)

get_other :
    (env : String → Option String) (fs : Members) (asked : String)
    → str_eq "walletPassword" asked ≡ false
    → get asked (resolve_members env fs) ≡ (
        if str_eq "password" asked
        then secret_value env (get asked fs) (get "passwordEnv" fs)
        else get asked fs)
unfolding resolve_members
get_other env fs asked other =
    let ref = get "passwordEnv" fs in
    let fs' = resolve_ref env "password" ref fs in
    resolve_ref-get env "walletPassword" asked (get "walletPasswordEnv" fs') fs'
    ∙ rw other (resolve_ref-get env "password" asked ref fs)

-- In a source whose secrets are resolved, a password that is given stays, a missing one is the value of
-- the variable that its `…Env` field names, if it names one, and every other field is as it was.
pub resolve_members-get :
    (env : String → Option String) (fs : Members) (asked : String)
    → get asked (resolve_members env fs) ≡ (
        if str_eq "walletPassword" asked
        then secret_value env (get "walletPassword" fs) (get "walletPasswordEnv" fs)
        else if str_eq "password" asked
        then secret_value env (get "password" fs) (get "passwordEnv" fs)
        else get asked fs)
resolve_members-get env fs asked = elim (Bool-cases (str_eq "walletPassword" asked)) [
  | inl wallet ↦
      let same = (eq_iff "walletPassword" asked).0 wallet in
      rw wallet (
        ap (λ (k : String). get k (resolve_members env fs)) (sym same) ∙ get_wallet_password env fs)
  | inr other ↦ elim (Bool-cases (str_eq "password" asked)) [
    | inl password ↦
        let same = (eq_iff "password" asked).0 password in
        rw (other, password)
          (rw password at (get_other env fs asked other)
            ∙ ap (λ (k : String). secret_value env (get k fs) (get "passwordEnv" fs)) (sym same))
    | inr neither ↦ rw (other, neither) (rw neither at (get_other env fs asked other))
  ]
]
