-- ===== src/Config/Tls.antt =====
-- src/infrastructure/tls/load-tls-options.ts, with the section of src/infrastructure/config/schemas/tls.schema.ts.
-- `read_file` is `readFileSync`: none where it throws.
use nestjs_ddd.Prelude.{Bool, true, false, Option, none, some, [], ◌∷◌, String, if◌then◌else◌}
use nestjs_ddd.Shared.Outcome.{Result, ok, err}
use nestjs_ddd.Shared.Text.{Text}
use nestjs_ddd.Config.Sections.{TlsSection}

-- `InvalidConfigError`, by its variable: the file cannot be read, or it is empty.
pub data PemError : Type 0 where
  cannot_read empty : String → PemError

pub record SecureContextOptions : Type 0 where
  pub key : Text
  pub cert : Text
  pub ca : Option Text
  pub passphrase : Option Text
  pub min_version : Text

unfoldable pub pem_contents : String → Option Text → Result Text PemError
pem_contents variable none = err (cannot_read variable)
pem_contents variable (some []) = err (empty variable)
pem_contents variable (some (b ∷ bs)) = ok (b ∷ bs)

-- The object that `loadTlsOptions` returns.
abbrev pub options_of : TlsSection → Text → Text → Option Text → SecureContextOptions
options_of s key cert ca = record {
  key = key;
  cert = cert;
  ca = ca;
  passphrase = s.passphrase;
  min_version = s.min_version;
}

-- What is done with a value, after it is there.
unfoldable pub and_then :
    {A B : Type 0} → Result A PemError → (A → Result B PemError) → Result B PemError
and_then (ok a) f = f a
and_then (err e) f = err e

module _ (read_file : Text → Option Text) where
  -- `readPemFile`; a path that is undefined makes `readFileSync` throw.
  unfoldable pub read_pem_file : String → Option Text → Result Text PemError
  unfolding pem_contents
  read_pem_file variable none = err (cannot_read variable)
  read_pem_file variable (some path) = pem_contents variable (read_file path)

  unfoldable pub read_ca : Option Text → Result (Option Text) PemError
  unfolding read_pem_file and_then
  read_ca none = ok none
  read_ca (some path) = and_then (read_pem_file "TLS_CA_FILE" (some path)) (λ ca. ok (some ca))

  unfoldable pub read_options : TlsSection → Result SecureContextOptions PemError
  unfolding read_pem_file read_ca and_then
  read_options s = and_then (read_pem_file "TLS_KEY_FILE" s.key_file) (λ key.
      and_then (read_pem_file "TLS_CERT_FILE" s.cert_file)
        (λ cert. and_then (read_ca s.ca_file) (λ ca. ok (options_of s key cert ca))))

  unfoldable pub load_tls_options : TlsSection → Result (Option SecureContextOptions) PemError
  unfolding read_options
  load_tls_options s = if s.enabled then and_then (read_options s) (λ o. ok (some o)) else ok none

-- A file that is there and not empty.
abbrev pub has_contents : Option Text → Bool
has_contents none = false
has_contents (some []) = false
has_contents (some (b ∷ bs)) = true

module _ (read_file : Text → Option Text) where
  abbrev pub ca_has_contents : Option Text → Bool
  ca_has_contents none = true
  ca_has_contents (some path) = has_contents (read_file path)
