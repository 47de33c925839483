-- ===== src/Connections.antt =====
-- src/models.rs and the pure part of src/client.rs: the parameters of a connection, the key of its pool
-- in the cache, its TLS mode and the configuration of the pool. SHA-256 and the parser of connection
-- strings are parameters.
pub mod Cache
pub mod Tls
pub mod Connector
use tabularis_postgresql_plu.Base.Decimal.{to_decimal}
use tabularis_postgresql_plu.Extract.Systems.{show_hex_byte}
use tabularis_postgresql_plu.Query.Server.{Result, ok, err}
use tabularis_postgresql_plu.Json.{Value, get, get_str, as_u64}
use tabularis_postgresql_plu.Base.{
  ℕ, ◌^◌, ◌≡◌, refl, ◌↔◌, Bool, true, false, not, List, [], ◌∷◌, ◌++◌, Option, none, some, ◌>>=◌,
  Text, codes, one_of, trim, is_nil, ltb, eq_ignore_ascii_case, get_or_else, if◌then◌else◌, arith,
  text_eq, text_eq→eq, subst, sym,
}

pub record ConnectionParams : Type 0 where
  pub driver : Option Text
  pub host : Option Text
  pub port : Option ℕ
  pub database : Option Text
  pub username : Option Text
  pub password : Option Text
  pub ssl_mode : Option Text
  pub ssl_ca : Option Text
  pub ssl_cert : Option Text
  pub ssl_key : Option Text
  pub connection_string : Option Text
  pub startup_script : Option Text
  pub pooler_mode : Option Text

unfoldable pub u16_of : ℕ → Option ℕ
u16_of p = if ltb p (2 ^ 16) then some p else none

unfoldable pub from_value : Value → ConnectionParams
unfolding get_str get as_u64 u16_of
from_value value = record {
  driver = get_str value (codes "driver");
  host = get_str value (codes "host");
  port = get value (codes "port") >>= as_u64 >>= u16_of;
  database = get_str value (codes "database");
  username = get_str value (codes "username");
  password = get_str value (codes "password");
  ssl_mode = get_str value (codes "ssl_mode");
  ssl_ca = get_str value (codes "ssl_ca");
  ssl_cert = get_str value (codes "ssl_cert");
  ssl_key = get_str value (codes "ssl_key");
  connection_string = get_str value (codes "connection_string");
  startup_script = get_str value (codes "startup_script");
  pooler_mode = get_str value (codes "pooler_mode");
}

unfoldable pub is_transaction_mode : Option Text → Bool
unfolding trim eq_ignore_ascii_case
is_transaction_mode none = false
is_transaction_mode (some m) = eq_ignore_ascii_case (trim m) (codes "transaction")

unfoldable pub is_transaction_pooler : ConnectionParams → Bool
unfolding is_transaction_mode
is_transaction_pooler params = is_transaction_mode (params.pooler_mode)

-- `.filter(|s| !s.trim().is_empty())`.
unfoldable pub not_blank : Option Text → Option Text
unfolding trim
not_blank none = none
not_blank (some s) = if is_nil (trim s) then none else some s

unfoldable pub not_empty : Option Text → Option Text
not_empty none = none
not_empty (some s) = if is_nil s then none else some s

unfoldable pub trimmed_script : Option Text → Option Text
unfolding trim
trimmed_script none = none
trimmed_script (some s) = some (trim s)

unfoldable pub hex : List ℕ → Text
unfolding show_hex_byte
hex [] = []
hex (b ∷ bs) = show_hex_byte b ++ hex bs

-- `{a}:{b}`.
unfoldable pub joined : Text → Text → Text
joined a b = a ++ (b':' ∷ b)

unfoldable pub tls_and_script : ConnectionParams → Text
unfolding joined trimmed_script
tls_and_script params = joined (get_or_else (trimmed_script (params.startup_script)) []) (
    joined (get_or_else (params.ssl_mode) []) (
      joined (get_or_else (params.ssl_ca) [])
        (joined (get_or_else (params.ssl_cert) []) (get_or_else (params.ssl_key) []))))

unfoldable pub base_key : ConnectionParams → Text
unfolding joined tls_and_script to_decimal
base_key params = joined (get_or_else (params.host) []) (
    joined (to_decimal (get_or_else (params.port) 5432)) (
      joined (get_or_else (params.database) [])
        (joined (get_or_else (params.username) []) (tls_and_script params))))

pub data Host : Type 0 where
  tcp unix : Text → Host

-- What the code reads of a parsed `tokio_postgres::Config`, the password after `from_utf8_lossy`.
pub record Config : Type 0 where
  pub hosts : List Host
  pub ports : List ℕ
  pub parsed_dbname : Option Text
  pub parsed_user : Option Text
  pub parsed_password : Option Text

-- What a pool connects with: the fields of deadpool's configuration.
pub record Target : Type 0 where
  pub target_host : Option Text
  pub target_port : Option ℕ
  pub dbname : Option Text
  pub user : Option Text
  pub target_password : Option Text

unfoldable pub discrete : ConnectionParams → Target
discrete params = record {
  target_host = params.host;
  target_port = params.port;
  dbname = params.database;
  user = params.username;
  target_password = params.password;
}

unfoldable pub first_host : List Host → Option Text
first_host (tcp host ∷ hs) = some host
first_host _ = none

unfoldable pub first_port : List ℕ → Option ℕ
first_port [] = none
first_port (p ∷ ps) = some p

unfoldable pub in_string : Config → Target
unfolding first_host first_port
in_string c = record {
  target_host = first_host (c.hosts);
  target_port = first_port (c.ports);
  dbname = c.parsed_dbname;
  user = c.parsed_user;
  target_password = c.parsed_password;
}

module _ (digest : Text → List ℕ) (from_str : Text → Result Text Config) where
  unfoldable pub sha256_hex : Text → Text
  unfolding hex
  sha256_hex s = hex (digest s)

  unfoldable pub with_password : Option Text → Text → Text
  unfolding sha256_hex joined
  with_password none base = base
  with_password (some pw) base = joined base (joined (codes "pw") (sha256_hex pw))

  unfoldable pub string_or_fields : Option Text → ConnectionParams → Text
  unfolding sha256_hex joined tls_and_script base_key with_password not_empty
  string_or_fields (some cs) params =
      joined (codes "cs") (joined (sha256_hex cs) (tls_and_script params))
  string_or_fields none params = with_password (not_empty (params.password)) (base_key params)

  unfoldable pub connection_key : ConnectionParams → Text
  unfolding string_or_fields not_blank
  connection_key params = string_or_fields (not_blank (params.connection_string)) params

  unfoldable pub parsed : Result Text Config → Result Text Target
  unfolding in_string
  parsed (ok c) = ok (in_string c)
  parsed (err e) = err (codes "Invalid connection string: " ++ e)

  unfoldable pub target_of : Option Text → ConnectionParams → Result Text Target
  unfolding parsed discrete
  target_of (some conn_str) params = parsed (from_str conn_str)
  target_of none params = ok (discrete params)

  -- The first half of `build_pool_impl`: where a pool connects to.
  unfoldable pub pool_target : ConnectionParams → Result Text Target
  unfolding target_of not_blank
  pool_target params = target_of (not_blank (params.connection_string)) params
