-- ===== src/Config/Database.antt =====
-- src/infrastructure/config/schemas/database.schema.ts. `is_url` is the test of `z.url()`.
pub mod Parse
pub mod Oracle
pub mod Sources
pub mod Accepted
pub mod Secrets
pub mod Opened
use nestjs_ddd.Prelude.{
  ℕ, suc, Bool, true, false, not, ◌&&◌, ◌||◌, Option, none, some, String, List, [], ◌∷◌, map, any,
  leb, length, ◌==◌, str_eq, is_some, if◌then◌else◌,
}
use nestjs_ddd.Shared.Values.{
  Value, undefined, number, string, array, object, Elements, no_elements, element, Members, get,
  put, is_undefined,
}
use nestjs_ddd.Database.Pools.{Dialect, oracle, postgres, mysql, mariadb, mssql, sqlite}
use nestjs_ddd.Config.Fields.{
  enum_field, text_field, any_text, url_field, flag_field, from_field, between_field, optional,
  defaulted, ◌>>=◌, refined,
}
use nestjs_ddd.Config.Database.Oracle.{OracleOptions, filled}

-- `options` are those of an Oracle source.
pub record Source : Type 0 where
  pub key : String
  pub dialect : Dialect
  pub default_schema : Option String
  pub options : Option OracleOptions

module _ (is_url : String → Bool) where
  -- `hasAll(o, ['host', 'database', 'user', 'password']) && typeof o.port === 'number'`, or an URL.
  -- `encryption` is the name of the flag, `ssl` or `encrypt`.
  unfoldable pub server_target : String → Members → Option Bool
  server_target encryption fs = do
    url ← optional (url_field is_url) (get "connectionUrl" fs)
    host ← optional any_text (get "host" fs)
    port ← optional (from_field 1) (get "port" fs)
    database ← optional any_text (get "database" fs)
    name ← optional any_text (get "user" fs)
    secret ← optional any_text (get "password" fs)
    ref ← optional text_field (get "passwordEnv" fs)
    encrypted ← optional flag_field (get encryption fs)
    refined (λ has_target. has_target)
        (filled url
          || filled host && filled database && filled name && filled secret && is_some port)

  unfoldable pub sqlite_target : Members → Option Bool
  sqlite_target fs = do
    file ← optional text_field (get "file" fs)
    url ← optional (url_field is_url) (get "connectionUrl" fs)
    refined (λ has_target. has_target) (filled file || filled url)
