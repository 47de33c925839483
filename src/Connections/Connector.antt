-- ===== src/Connections/Connector.antt =====
-- src/client.rs: `build_tls_connector`, which chooses how the certificate of the server is verified, and
-- the two readers of PEM files. The file system, the parsers of rustls and its builders are parameters;
-- a verifier is named, with the trust anchors that it is given.
pub mod Strict
use tabularis_postgresql_plu.Connections.{ConnectionParams, not_blank}
use tabularis_postgresql_plu.Query.Server.{Result, ok, err}
use tabularis_postgresql_plu.Base.{
  ◌≡◌, refl, Bool, true, false, ◌||◌, not, List, [], ◌∷◌, ◌++◌, Option, none, some, Text, codes,
  text_eq, text_eq→eq, is_nil, is_some, if◌then◌else◌, Bool-cases, inl, inr, subst, sym, ap, ◌∙◌,
  arith,
}

-- How the certificate of the server is verified.
pub data Verifier {ℓ} (A : Type ℓ) : Type ℓ where
  platform_verifier : Verifier A
  web_pki_verifier : List A → Verifier A
  verify_ca_verifier : List A → Verifier A
  no_cert_verifier : Verifier A

pub record Rustls : Type 1 where
  pub Cert : Type 0
  pub Key : Type 0
  pub Anchor : Type 0
  pub read : Text → Result Text Text
  -- `CertificateDer::pem_slice_iter` and `PrivateKeyDer::from_pem_slice`.
  pub pem_certs : Text → List (Result Text Cert)
  pub pem_key : Text → Result Text Key
  -- `RootCertStore::add`, `with_client_auth_cert` and the builders of the two verifiers.
  pub add : Cert → Result Text Anchor
  pub auth_error : List Cert → Key → Option Text
  pub web_pki_error : List Anchor → Option Text
  pub platform_error : Option Text

-- `map_err` with `?`.
abbrev pub try :
    {A B : Type 0} → (Text → Text) → Result Text A → (A → Result Text B) → Result Text B
try f (ok a) k = k a
try f (err e) k = err (f e)

abbrev pub unless_error : {B : Type 0} → Text → Option Text → Result Text B → Result Text B
unless_error head none r = r
unless_error head (some e) r = err (head ++ e)

abbrev about : Text → Text → Text → Text → Text
about head path mid e = head ++ (path ++ (mid ++ e))

unfoldable pub is_mode : Text → Option Text → Bool
unfolding text_eq
is_mode x none = false
is_mode x (some m) = text_eq m x

module _ (R : Rustls) where
  pub record ClientConfig : Type 0 where
    pub verifier : Verifier R.Anchor
    pub client_auth : Option (List R.Cert × R.Key)

  unfoldable pub add_roots :
      Text → List (Result Text R.Cert) → List R.Anchor → Result Text (List R.Anchor)
  add_roots path [] roots = ok roots
  add_roots path (c ∷ cs) roots =
      try (about (codes "Failed to parse ssl_ca '") path (codes "': ")) c (λ cert.
        try (about (codes "Failed to add ssl_ca cert from '") path (codes "': ")) (R.add cert)
          (λ a. add_roots path cs (roots ++ (a ∷ []))))

  unfoldable pub some_roots : Text → List R.Anchor → Result Text (List R.Anchor)
  some_roots path [] =
      err (codes "ssl_ca '" ++ (path ++ codes "' contained no PEM CERTIFICATE blocks"))
  some_roots path (a ∷ roots) = ok (a ∷ roots)

  unfoldable pub load_roots_from_pem : Text → Result Text (List R.Anchor)
  unfolding add_roots some_roots
  load_roots_from_pem path =
      try (about (codes "Failed to read ssl_ca file '") path (codes "': ")) (R.read path)
        (λ pem. try (λ e. e) (add_roots path (R.pem_certs pem) []) (some_roots path))

  -- `collect::<Result<Vec<_>, _>>`.
  unfoldable pub all_certs : List (Result Text R.Cert) → Result Text (List R.Cert)
  all_certs [] = ok []
  all_certs (c ∷ cs) =
      try (λ e. e) c (λ cert. try (λ e. e) (all_certs cs) (λ certs. ok (cert ∷ certs)))

  unfoldable pub load_client_cert_from_pem : Text → Text → Result Text (List R.Cert × R.Key)
  unfolding all_certs
  load_client_cert_from_pem cert_path key_path =
      try (about (codes "Failed to read ssl_cert file '") cert_path (codes "': "))
        (R.read cert_path)
        (λ cert_pem.
          try (about (codes "Failed to parse ssl_cert '") cert_path (codes "': "))
            (all_certs (R.pem_certs cert_pem))
            (λ certs.
              if is_nil certs
              then err (
                  codes "ssl_cert '"
                  ++ (cert_path ++ codes "' contained no PEM CERTIFICATE blocks"))
              else try (about (codes "Failed to read ssl_key file '") key_path (codes "': "))
                  (R.read key_path)
                  (λ key_pem.
                    try (about (codes "Failed to parse ssl_key '") key_path (codes "': "))
                      (R.pem_key key_pem) (λ key. ok (certs, key)))))

  unfoldable pub client_auth_of :
      Option Text → Option Text → Result Text (Option (List R.Cert × R.Key))
  unfolding load_client_cert_from_pem
  client_auth_of (some cert) (some key) =
      try (λ e. e) (load_client_cert_from_pem cert key) (λ auth. ok (some auth))
  client_auth_of (some cert) none =
      err (codes "Client certificate provided (ssl_cert) without a client private key (ssl_key)")
  client_auth_of none (some key) =
      err (codes "Client private key provided (ssl_key) without a client certificate (ssl_cert)")
  client_auth_of none none = ok none

  unfoldable pub with_auth :
      Option (List R.Cert × R.Key) → Verifier R.Anchor → Result Text ClientConfig
  with_auth none v = ok (record { verifier = v; client_auth = none })
  with_auth (some (certs, key)) v =
      unless_error (codes "Failed to configure client certificate: ") (R.auth_error certs key)
        (ok (record { verifier = v; client_auth = some (certs, key) }))

  -- The modes that pin no CA.
  unfoldable pub unpinned : Option Text → Option (List R.Cert × R.Key) → Result Text ClientConfig
  unfolding with_auth is_mode
  unpinned mode auth =
      if is_mode (codes "require") mode
      then with_auth auth no_cert_verifier
      else unless_error (codes "Failed to build platform TLS verifier: ") R.platform_error
          (with_auth auth platform_verifier)

  unfoldable pub pinned :
      Option Text → Option (List R.Cert × R.Key) → Text → Result Text ClientConfig
  unfolding load_roots_from_pem with_auth is_mode
  pinned mode auth ca_path =
      try (λ e. e) (load_roots_from_pem ca_path)
        (λ roots.
          if is_mode (codes "verify-ca") mode
          then with_auth auth (verify_ca_verifier roots)
          else unless_error (codes "Failed to build certificate verifier: ") (R.web_pki_error roots)
              (with_auth auth (web_pki_verifier roots)))

  unfoldable pub validated :
      Option Text → Option Text → Option (List R.Cert × R.Key) → Result Text ClientConfig
  unfolding pinned unpinned is_mode
  validated mode none auth =
      if is_mode (codes "verify-ca") mode
      then err (
          codes "verify-ca mode requires an explicit CA file via ssl_ca. Platform "
          ++ codes "root certificates are not used for this mode — for automatic "
          ++ codes "platform trust, use verify-full instead.")
      else unpinned mode auth
  validated mode (some ca_path) auth =
      if is_mode (codes "verify-ca") mode || is_mode (codes "verify-full") mode
      then pinned mode auth ca_path
      else unpinned mode auth

  unfoldable pub build_tls_connector : ConnectionParams → Result Text ClientConfig
  unfolding client_auth_of validated not_blank
  build_tls_connector params =
      try (λ e. e) (client_auth_of (not_blank (params.ssl_cert)) (not_blank (params.ssl_key)))
        (validated (params.ssl_mode) (not_blank (params.ssl_ca)))
