-- ===== src/Config/Sections/Accepted.antt =====
-- What holds of the sections that are accepted (src/infrastructure/config/schemas).
use nestjs_ddd.Prelude.{
  ℕ, ◌≡◌, ◌≤◌, refl, Bool, true, ◌&&◌, Option, none, some, String, List, [], ◌∷◌, All, leb, length,
  map, keep, is_some, arith, Bool-cases, inl, inr,
}
use nestjs_ddd.Shared.Text.{Text, trim}
use nestjs_ddd.Config.Env.{env_string, env_list, items_by, items_of, split_commas, is_filled}
use nestjs_ddd.Config.Fields.{
  refined, Ensures, Ensures-bind, Ensures-bind_known, Ensures-some, of-Ensures,
}
use nestjs_ddd.Config.Sections.{
  from_or, within_or, http_client_section, LegacySection, is_forwarding_complete, legacy_section,
  list_or_none,
}
use nestjs_ddd.Http.Client.Events.{HttpClientConfig}

pub refined-Ensures :
    {A : Type 0} (test : A → Bool) (a : A) → Ensures (λ b. test b ≡ true) (refined test a)
unfolding Ensures refined
refined-Ensures test a = elim (Bool-cases (test a)) [ inl e ↦ rw e e | inr e ↦ rw e tt ]

module _ (number_of : Text → Option ℕ) where
  from_or-Ensures :
      (low d : ℕ) (t : Option Text)
      → leb low d ≡ true
      → Ensures (λ n. leb low n ≡ true) (from_or number_of low d t)
  unfolding from_or Ensures
  from_or-Ensures low d none h = h
  from_or-Ensures low d (some t) h =
      Ensures-bind (λ n. leb low n ≡ true) (number_of t) (refined (leb low))
        (refined-Ensures (leb low))

  within_or-Ensures :
      (low high d : ℕ) (t : Option Text)
      → leb low d && leb d high ≡ true
      → Ensures (λ n. leb low n && leb n high ≡ true) (within_or number_of low high d t)
  unfolding within_or Ensures
  within_or-Ensures low high d none h = h
  within_or-Ensures low high d (some t) h =
      Ensures-bind (λ n. leb low n && leb n high ≡ true) (number_of t)
        (refined (λ n. leb low n && leb n high)) (refined-Ensures (λ n. leb low n && leb n high))

-- At most ten retries, and no period or threshold that is zero.
abbrev pub IsBounded : HttpClientConfig → Type 0
IsBounded c =
    (c.retries ≤ 10)
    × (1 ≤ c.timeout_ms)
    × (1 ≤ c.retry_base_ms)
    × (1 ≤ c.retry_max_delay_ms)
    × (1 ≤ c.circuit_failure_threshold)
    × (1 ≤ c.circuit_reset_ms)

module _ (number_of : Text → Option ℕ) (text_of : Text → String) (env : String → Option Text) where
  http_client_section-Ensures : Ensures IsBounded (http_client_section number_of text_of env)
  unfolding http_client_section
  http_client_section-Ensures =
      Ensures-bind_known (λ n. leb 1 n ≡ true) IsBounded _ _
        (from_or-Ensures number_of 1 5000 _ refl)
        (λ timeout a.
          Ensures-bind_known (λ n. leb 0 n && leb n 10 ≡ true) IsBounded _ _
            (within_or-Ensures number_of 0 10 2 _ refl)
            (λ retries b.
              Ensures-bind_known (λ n. leb 1 n ≡ true) IsBounded _ _
                (from_or-Ensures number_of 1 200 _ refl)
                (λ base c. Ensures-bind IsBounded _ _ (λ jitter.
                  Ensures-bind_known (λ n. leb 1 n ≡ true) IsBounded _ _
                    (from_or-Ensures number_of 1 5000 _ refl)
                    (λ longest d. Ensures-bind IsBounded _ _ (λ circuit.
                      Ensures-bind_known (λ n. leb 1 n ≡ true) IsBounded _ _
                        (from_or-Ensures number_of 1 5 _ refl)
                        (λ threshold e.
                          Ensures-bind_known (λ n. leb 1 n ≡ true) IsBounded _ _
                            (from_or-Ensures number_of 1 30000 _ refl)
                            (λ reset f. Ensures-bind IsBounded _ _ (λ agent.
                              Ensures-bind IsBounded _ _ (λ header. Ensures-some IsBounded _ (
                                ground arith,
                                ground arith,
                                ground arith,
                                ground arith,
                                ground arith,
                                ground arith,
                              )))))))))))

  pub http_client_section-IsBounded :
      (c : HttpClientConfig) → http_client_section number_of text_of env ≡ some c → IsBounded c
  http_client_section-IsBounded c e =
      of-Ensures IsBounded (http_client_section number_of text_of env) c e
        http_client_section-Ensures

-- What a refined value fulfils.
refined-Ensures_by :
    {A : Type 0} (test : A → Bool) (P : A → Type 0) (a : A)
    → (test a ≡ true → P a)
    → Ensures P (refined test a)
unfolding Ensures refined
refined-Ensures_by test P a h = elim (Bool-cases (test a)) [ inl e ↦ rw e (h e) | inr e ↦ rw e tt ]

abbrev pub IsFilled : Text → Type 0
IsFilled t = is_filled t ≡ true

keep-IsFilled : (ts : List Text) → All IsFilled (keep is_filled ts)
keep-IsFilled [] = tt
keep-IsFilled (t ∷ ts) = elim (Bool-cases (is_filled t)) [
  | inl e ↦ rw e (e, keep-IsFilled ts)
  | inr e ↦ rw e (keep-IsFilled ts)
]

env_list-IsFilled : (t : Option Text) → Ensures (All IsFilled) (list_or_none (env_list t))
unfolding env_list list_or_none items_of Ensures
env_list-IsFilled t = filled_by (env_string t)
  where
    filled_by : (s : Option Text) → Ensures (All IsFilled) (list_or_none (items_by s))
    filled_by none = tt
    filled_by (some s) = keep-IsFilled (map trim ((split_commas s).0 ∷ (split_commas s).1))

-- A legacy section that forwards has a target and prefixes, none of them empty.
abbrev pub IsComplete : LegacySection → Type 0
IsComplete c =
    All IsFilled c.forward_prefixes
    × (c.forward_enabled ≡ true → (is_some c.target_url ≡ true) × (1 ≤ length c.forward_prefixes))

complete_lem :
    (c : LegacySection)
    → All IsFilled c.forward_prefixes
    → is_forwarding_complete c ≡ true
    → IsComplete c
unfolding is_forwarding_complete
complete_lem c filled e = (filled, λ on. (ground arith, ground arith))

module _ (number_of : Text → Option ℕ) (env : String → Option Text) where
  legacy_section-Ensures : Ensures IsComplete (legacy_section number_of env)
  unfolding legacy_section
  legacy_section-Ensures = Ensures-bind IsComplete _ _ (λ on.
      Ensures-bind_known (All IsFilled) IsComplete _ _
        (env_list-IsFilled (env "LEGACY_FORWARD_PREFIXES"))
        (λ prefixes filled. Ensures-bind IsComplete _ _ (λ timeout.
          Ensures-bind IsComplete _ _ (λ host.
            refined-Ensures_by is_forwarding_complete IsComplete _ (complete_lem _ filled)))))

  -- A configuration that turns the forwarding on is accepted only with the address of the legacy
  -- service and at least one prefix; and whatever it turns on, no prefix is empty.
  pub legacy_section-IsComplete :
      (c : LegacySection) → legacy_section number_of env ≡ some c → IsComplete c
  legacy_section-IsComplete c e =
      of-Ensures IsComplete (legacy_section number_of env) c e legacy_section-Ensures
