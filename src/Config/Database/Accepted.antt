-- ===== src/Config/Database/Accepted.antt =====
-- What holds of the sources of a configuration that is accepted (database.schema.ts).
use nestjs_ddd.Prelude.{
  ℕ, ◌≡◌, ◌≤◌, Bool, true, false, ◌&&◌, Option, none, some, String, List, [], ◌∷◌, All, leb, str_eq,
  arith, Bool-cases, inl, inr, if◌then◌else◌,
}
use nestjs_ddd.Shared.Values.{Value, undefined, number, string, object, Members, get}
use nestjs_ddd.Database.Pools.{Dialect, postgres, mysql, mariadb, mssql, sqlite}
use nestjs_ddd.Config.Fields.{
  between_field, defaulted, Ensures, Ensures-bind, Ensures-some, Ensures-none, Ensures-bind_known,
  Ensures-refined_known,
}
use nestjs_ddd.Config.Database.{Source, server_target, sqlite_target}
use nestjs_ddd.Config.Database.Oracle.{
  OracleOptions, OracleContextUser, context_members, context_field, oracle_refinements,
}
use nestjs_ddd.Config.Database.Sources.{
  oracle_options, oracle_source, other_source, source_by, source_of, all_sources, list_refinements,
  database_sources,
}

abbrev pub IsWithin : ℕ → ℕ → ℕ → Type 0
IsWithin low high n = (low ≤ n) × (n ≤ high)

between_field-IsWithin :
    (low high : ℕ) (v : Value) → Ensures (IsWithin low high) (between_field low high v)
unfolding between_field Ensures
between_field-IsWithin low high (number n) = elim (Bool-cases (leb low n && leb n high)) [
  | inl within ↦ rw within (ground arith, ground arith)
  | inr out ↦ rw out tt
]
between_field-IsWithin low high v = tt

defaulted-Ensures :
    {A : Type 0} (P : A → Type 0) (field : Value → Option A) (d : A) (v : Value)
    → P d
    → Ensures P (field v)
    → Ensures P (defaulted field d v)
unfolding Ensures
defaulted-Ensures P field d undefined pd h = pd
defaulted-Ensures P field d v pd h = h

abbrev pub ContextFits : OracleContextUser → Type 0
ContextFits c = IsWithin 1 64 c.max_length

context_members-ContextFits : (fs : Members) → Ensures ContextFits (context_members fs)
unfolding context_members
context_members-ContextFits fs = Ensures-bind ContextFits _ _ (λ on.
    Ensures-bind ContextFits _ _ (λ must.
      Ensures-bind_known (IsWithin 1 64) ContextFits _ _
        (defaulted-Ensures (IsWithin 1 64) (between_field 1 64) 64 (get "maxLength" fs)
          (omega arith) (between_field-IsWithin 1 64 (get "maxLength" fs)))
        (λ longest within. Ensures-some ContextFits _ within)))

context_field-ContextFits : (v : Value) → Ensures ContextFits (context_field v)
unfolding context_field Ensures
context_field-ContextFits undefined = (omega arith, omega arith)
context_field-ContextFits (object fs) = context_members-ContextFits fs
context_field-ContextFits v = tt

-- An Oracle source has a way to log in, a pool whose bounds are in order, and a context user that
-- fits into the identifier of the client.
abbrev pub OptionsFit : OracleOptions → Type 0
OptionsFit o = (oracle_refinements o ≡ true) × ContextFits o.context_user

-- A source of another dialect has no such options.
abbrev pub FitIfGiven : Option OracleOptions → Type 0
FitIfGiven none = Unit
FitIfGiven (some o) = OptionsFit o

abbrev pub SourceFits : Source → Type 0
SourceFits s = FitIfGiven s.options

abbrev pub AllFit : List Source → Type 0
AllFit sources = All SourceFits sources

abbrev pub Accepted : List Source → Type 0
Accepted sources = (list_refinements sources ≡ true) × AllFit sources

module _ (is_url : String → Bool) where
  oracle_options-OptionsFit : (fs : Members) → Ensures OptionsFit (oracle_options is_url fs)
  unfolding oracle_options
  oracle_options-OptionsFit fs = Ensures-bind OptionsFit _ _ (λ target.
      Ensures-bind OptionsFit _ _ (λ files. Ensures-bind OptionsFit _ _ (λ pool.
        Ensures-bind OptionsFit _ _ (λ network. Ensures-bind OptionsFit _ _ (λ behaviour.
          Ensures-bind_known ContextFits OptionsFit _ _
            (context_field-ContextFits (get "contextUser" fs))
            (λ context fits.
              Ensures-refined_known oracle_refinements _ (λ o. ContextFits o.context_user)
                fits))))))

  oracle_source-SourceFits : (fs : Members) → Ensures SourceFits (oracle_source is_url fs)
  unfolding oracle_source
  oracle_source-SourceFits fs = Ensures-bind SourceFits _ _ (λ name.
      Ensures-bind SourceFits _ _ (λ schema. Ensures-bind SourceFits _ _ (λ more.
        Ensures-bind_known OptionsFit SourceFits _ _ (oracle_options-OptionsFit fs)
          (λ options fit. Ensures-some SourceFits _ fit))))

  other_source-SourceFits :
      (kind : Dialect) (target : Members → Option Bool) (fs : Members)
      → Ensures SourceFits (other_source is_url kind target fs)
  unfolding other_source
  other_source-SourceFits kind target fs = Ensures-bind SourceFits _ _ (λ name.
      Ensures-bind SourceFits _ _ (λ low. Ensures-bind SourceFits _ _ (λ high.
        Ensures-bind SourceFits _ _ (λ schema.
          Ensures-bind SourceFits _ _
            (λ more. Ensures-bind SourceFits _ _ (λ has_target. Ensures-some SourceFits _ tt))))))

  if_fits :
      (b : Bool) (m n : Option Source)
      → Ensures SourceFits m
      → Ensures SourceFits n
      → Ensures SourceFits (if b then m else n)
  if_fits true m n hm hn = hm
  if_fits false m n hm hn = hn

  source_by-SourceFits : (d : Value) (fs : Members) → Ensures SourceFits (source_by is_url d fs)
  unfolding source_by
  source_by-SourceFits (string d) fs =
      let server = λ (kind : Dialect) (flag : String).
        other_source-SourceFits kind (server_target is_url flag) fs in
      if_fits (str_eq d "oracle") _ _ (oracle_source-SourceFits fs) (
        if_fits (str_eq d "postgres") _ _ (server postgres "ssl") (
          if_fits (str_eq d "mysql") _ _ (server mysql "ssl") (
            if_fits (str_eq d "mariadb") _ _ (server mariadb "ssl") (
              if_fits (str_eq d "mssql") _ _ (server mssql "encrypt") (
                if_fits (str_eq d "sqlite") _ _
                  (other_source-SourceFits sqlite (sqlite_target is_url) fs)
                  (Ensures-none SourceFits))))))
  source_by-SourceFits v fs = Ensures-none SourceFits

  source_of-SourceFits : (v : Value) → Ensures SourceFits (source_of is_url v)
  source_of-SourceFits (object fs) = source_by-SourceFits (get "dialect" fs) fs
  source_of-SourceFits v = Ensures-none SourceFits

  all_sources-fit : (vs : List Value) → Ensures AllFit (all_sources is_url vs)
  unfolding all_sources
  all_sources-fit [] = Ensures-some AllFit [] tt
  all_sources-fit (v ∷ vs) =
      Ensures-bind_known SourceFits AllFit _ _ (source_of-SourceFits v) (λ source fits.
        Ensures-bind_known AllFit AllFit _ _ (all_sources-fit vs)
          (λ others fit. Ensures-some AllFit (source ∷ others) (fits, fit)))

  pub database_sources-Accepted :
      (env : String → Option String) (parsed : Option Value)
      → Ensures Accepted (database_sources is_url env parsed)
  unfolding database_sources
  database_sources-Accepted env parsed = Ensures-bind Accepted _ _ (λ values.
      Ensures-bind_known AllFit Accepted _ _ (all_sources-fit values)
        (λ sources fit. Ensures-refined_known list_refinements sources AllFit fit))
