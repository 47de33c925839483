-- ===== src/Tests/Connectors.antt =====
-- Runs of the TLS connector of src/client.rs.
use tabularis_postgresql_plu.Connections.{ConnectionParams}
use tabularis_postgresql_plu.Connections.Connector.{
  web_pki_verifier, Rustls, ClientConfig, is_mode, build_tls_connector,
}
use tabularis_postgresql_plu.Connections.Connector.Strict.{
  checks_chain, checks_name, has_anchor, build_tls_connector-IsSound,
}
use tabularis_postgresql_plu.Query.Server.{ok, err}
use tabularis_postgresql_plu.Base.{
  ◌≡◌, refl, true, [], ◌∷◌, ◌++◌, none, some, Text, codes, text_eq, trim, is_some,
}

-- A file system whose files hold their own names, each the certificate or the key.
abbrev named_files : Rustls
named_files = record {
  Cert = Text;
  Key = Text;
  Anchor = Text;
  read = λ path. ok path;
  pem_certs = λ pem. ok pem ∷ [];
  pem_key = λ pem. ok pem;
  add = λ cert. ok cert;
  auth_error = λ certs key. none;
  web_pki_error = λ roots. none;
  platform_error = none;
}

abbrev verified : ConnectionParams
verified = record {
  driver = none;
  host = some (codes "db");
  port = none;
  database = none;
  username = none;
  password = none;
  ssl_mode = some (codes "verify-full");
  ssl_ca = some (codes "ca");
  ssl_cert = some (codes "cert");
  ssl_key = some (codes "key");
  connection_string = none;
  startup_script = none;
  pooler_mode = none;
}

abbrev connector : ClientConfig named_files
connector = record {
  verifier = web_pki_verifier (codes "ca" ∷ []);
  client_auth = some (codes "cert" ∷ [], codes "key");
}

build_tls_connector-IsSound_example :
    (checks_chain connector.verifier ≡ true)
    × (checks_name connector.verifier ≡ true)
    × (has_anchor connector.verifier ≡ true)
    × (is_some connector.client_auth ≡ true)
    × (is_some connector.client_auth ≡ true)
unfolding build_tls_connector is_mode text_eq trim
build_tls_connector-IsSound_example =
    build_tls_connector-IsSound named_files verified connector refl

-- `verify-ca` does not fall back to the certificates of the platform.
no_platform_roots :
    build_tls_connector named_files
      (record verified { ssl_mode = some (codes "verify-ca"); ssl_ca = none })
    ≡ err (
        codes "verify-ca mode requires an explicit CA file via ssl_ca. Platform "
        ++ codes "root certificates are not used for this mode — for automatic "
        ++ codes "platform trust, use verify-full instead.")
unfolding build_tls_connector is_mode text_eq trim
no_platform_roots = refl
