-- ===== src/Connections/Connector/Strict.antt =====
-- src/client.rs: how far `build_tls_connector` relaxes the verification of the server.
use tabularis_postgresql_plu.Connections.Connector.{
  Verifier, platform_verifier, web_pki_verifier, verify_ca_verifier, no_cert_verifier, Rustls, try,
  unless_error, is_mode, ClientConfig, some_roots, load_roots_from_pem, load_client_cert_from_pem,
  client_auth_of, with_auth, unpinned, pinned, validated, add_roots, build_tls_connector,
}
use tabularis_postgresql_plu.Connections.{ConnectionParams, not_blank}
use tabularis_postgresql_plu.Query.Server.{Result, ok, err}
use tabularis_postgresql_plu.Base.{
  ◌≡◌, refl, Bool, true, false, ◌||◌, not, List, [], ◌∷◌, Option, none, some, Text, codes, text_eq,
  text_eq→eq, is_some, if◌then◌else◌, subst, sym, ◌∙◌, arith,
}

-- Whether the chain of the certificate must end in a trust anchor.
unfoldable pub checks_chain : {A : Type 0} → Verifier A → Bool
checks_chain no_cert_verifier = false
checks_chain _ = true

-- Whether the certificate must carry the name of the server.
unfoldable pub checks_name : {A : Type 0} → Verifier A → Bool
checks_name platform_verifier = true
checks_name (web_pki_verifier roots) = true
checks_name _ = false

-- A pinned verifier has an anchor to pin to.
unfoldable pub has_anchor : {A : Type 0} → Verifier A → Bool
has_anchor (web_pki_verifier []) = false
has_anchor (verify_ca_verifier []) = false
has_anchor _ = true

-- If there is a result, it satisfies `P`.
abbrev Ensures : {A : Type 0} → (A → Type 0) → Result Text A → Type 0
Ensures P (ok a) = P a
Ensures P (err e) = Unit

of_ok : {A : Type 0} (P : A → Type 0) {r : Result Text A} {a : A} → Ensures P r → r ≡ ok a → P a
of_ok P h e = subst (Ensures P) e h

Ensures-try :
    {A B : Type 0} (P : A → Type 0) (Q : B → Type 0) (f : Text → Text) (r : Result Text A)
    (k : A → Result Text B)
    → Ensures P r
    → ((a : A) → P a → Ensures Q (k a))
    → Ensures Q (try f r k)
Ensures-try P Q f (ok a) k h g = g a h
Ensures-try P Q f (err e) k h g = tt

Ensures-unless_error :
    {B : Type 0} (Q : B → Type 0) (head : Text) (o : Option Text) (r : Result Text B)
    → Ensures Q r
    → Ensures Q (unless_error head o r)
Ensures-unless_error Q head none r h = h
Ensures-unless_error Q head (some e) r h = tt

Ensures-then :
    {A B : Type 0} (Q : B → Type 0) (f : Text → Text) (r : Result Text A) (k : A → Result Text B)
    → ((a : A) → Ensures Q (k a))
    → Ensures Q (try f r k)
Ensures-then Q f (ok a) k g = g a
Ensures-then Q f (err e) k g = tt

Ensures-if :
    {B : Type 0} (Q : B → Type 0) (b : Bool) (x y : Result Text B)
    → (b ≡ true → Ensures Q x)
    → (b ≡ false → Ensures Q y)
    → Ensures Q (if b then x else y)
Ensures-if Q true x y g h = g refl
Ensures-if Q false x y g h = h refl

-- What a mode demands of a verifier.
abbrev IsAsStrict : {A : Type 0} → Option Text → Verifier A → Type 0
IsAsStrict mode v =
    (checks_chain v ≡ not (is_mode (codes "require") mode))
    × (checks_name v ≡ not (is_mode (codes "require") mode || is_mode (codes "verify-ca") mode))
    × (has_anchor v ≡ true)

excludes :
    (x y : Text) (mode : Option Text)
    → text_eq x y ≡ false
    → is_mode x mode ≡ true
    → is_mode y mode ≡ false
unfolding is_mode
excludes x y none d h = refl
excludes x y (some m) d h = subst (λ z. text_eq z y ≡ false) (sym (text_eq→eq m x h)) d

module _ (R : Rustls) where
  abbrev IsStrict : Option Text → Bool → ClientConfig R → Type 0
  IsStrict mode authenticated c =
      IsAsStrict mode c.verifier × (is_some c.client_auth ≡ authenticated)

  with_auth-IsStrict :
      (mode : Option Text) (auth : Option (List R.Cert × R.Key)) (v : Verifier R.Anchor)
      → IsAsStrict mode v
      → Ensures (IsStrict mode (is_some auth)) (with_auth R auth v)
  unfolding with_auth
  with_auth-IsStrict mode none v h = (h, refl)
  with_auth-IsStrict mode (some (certs, key)) v h =
      Ensures-unless_error (IsStrict mode true) (codes "Failed to configure client certificate: ")
        (R.auth_error certs key) (ok (record { verifier = v; client_auth = some (certs, key) }))
        (h, refl)

  unpinned-IsStrict :
      (mode : Option Text) (auth : Option (List R.Cert × R.Key))
      → is_mode (codes "verify-ca") mode ≡ false
      → Ensures (IsStrict mode (is_some auth)) (unpinned R mode auth)
  unfolding unpinned checks_chain checks_name has_anchor
  unpinned-IsStrict mode auth other =
      let Q = IsStrict mode (is_some auth) in
      Ensures-if Q (is_mode (codes "require") mode) (with_auth R auth no_cert_verifier)
        (unless_error (codes "Failed to build platform TLS verifier: ") R.platform_error
          (with_auth R auth platform_verifier))
        (λ e. with_auth-IsStrict mode auth no_cert_verifier (rw e (refl, refl, refl)))
        (λ e.
          Ensures-unless_error Q (codes "Failed to build platform TLS verifier: ") R.platform_error
            (with_auth R auth platform_verifier)
            (with_auth-IsStrict mode auth platform_verifier (rw (e, other) (refl, refl, refl))))

  abbrev IsAnchored : List R.Anchor → Type 0
  IsAnchored roots =
      (has_anchor (web_pki_verifier roots) ≡ true) × (has_anchor (verify_ca_verifier roots) ≡ true)

  some_roots-IsAnchored :
      (path : Text) (roots : List R.Anchor) → Ensures IsAnchored (some_roots R path roots)
  unfolding some_roots has_anchor
  some_roots-IsAnchored path [] = tt
  some_roots-IsAnchored path (a ∷ roots) = (refl, refl)

  load_roots-IsAnchored : (path : Text) → Ensures IsAnchored (load_roots_from_pem R path)
  unfolding load_roots_from_pem
  load_roots-IsAnchored path = Ensures-then IsAnchored _ (R.read path) _ (λ pem.
      Ensures-then IsAnchored _ (add_roots R path (R.pem_certs pem) []) _
        (some_roots-IsAnchored path))

  pinned-IsStrict :
      (mode : Option Text) (auth : Option (List R.Cert × R.Key)) (ca_path : Text)
      → is_mode (codes "require") mode ≡ false
      → Ensures (IsStrict mode (is_some auth)) (pinned R mode auth ca_path)
  unfolding pinned checks_chain checks_name
  pinned-IsStrict mode auth ca_path other =
      let Q = IsStrict mode (is_some auth) in
      Ensures-try IsAnchored Q _ (load_roots_from_pem R ca_path) _ (load_roots-IsAnchored ca_path)
        (λ roots h.
          Ensures-if Q (is_mode (codes "verify-ca") mode)
            (with_auth R auth (verify_ca_verifier roots))
            (unless_error (codes "Failed to build certificate verifier: ") (R.web_pki_error roots)
              (with_auth R auth (web_pki_verifier roots)))
            (λ e.
              with_auth-IsStrict mode auth (verify_ca_verifier roots)
                (rw (other, e) (refl, refl, h.1)))
            (λ e.
              Ensures-unless_error Q (codes "Failed to build certificate verifier: ")
                (R.web_pki_error roots) (with_auth R auth (web_pki_verifier roots))
                (with_auth-IsStrict mode auth (web_pki_verifier roots)
                  (rw (other, e) (refl, refl, h.0)))))

  validated-IsStrict :
      (mode ca : Option Text) (auth : Option (List R.Cert × R.Key))
      → Ensures (IsStrict mode (is_some auth)) (validated R mode ca auth)
  unfolding validated
  validated-IsStrict mode none auth =
      Ensures-if (IsStrict mode (is_some auth)) (is_mode (codes "verify-ca") mode) _
        (unpinned R mode auth) (λ e. tt) (unpinned-IsStrict mode auth)
  validated-IsStrict mode (some ca_path) auth =
      Ensures-if (IsStrict mode (is_some auth))
        (is_mode (codes "verify-ca") mode || is_mode (codes "verify-full") mode)
        (pinned R mode auth ca_path) (unpinned R mode auth)
        (λ e. pinned-IsStrict mode auth ca_path (
          ground (
            arith,
            e,
            excludes (codes "verify-ca") (codes "require") mode refl,
            excludes (codes "verify-full") (codes "require") mode refl,
          )))
        (λ e. unpinned-IsStrict mode auth (ground (arith, e)))

  abbrev IsAuthenticated : Option Text → Option Text → Option (List R.Cert × R.Key) → Type 0
  IsAuthenticated cert key auth = (is_some auth ≡ is_some cert) × (is_some auth ≡ is_some key)

  client_auth-IsAuthenticated :
      (cert key : Option Text) → Ensures (IsAuthenticated cert key) (client_auth_of R cert key)
  unfolding client_auth_of
  client_auth-IsAuthenticated none none = (refl, refl)
  client_auth-IsAuthenticated none (some key) = tt
  client_auth-IsAuthenticated (some cert) none = tt
  client_auth-IsAuthenticated (some cert) (some key) =
      Ensures-then (IsAuthenticated (some cert) (some key)) _ (load_client_cert_from_pem R cert key)
        _ (λ auth. (refl, refl))

  abbrev IsSound : ConnectionParams → ClientConfig R → Type 0
  IsSound params c =
      IsAsStrict params.ssl_mode c.verifier
      × IsAuthenticated (not_blank params.ssl_cert) (not_blank params.ssl_key) c.client_auth

  with_known :
      (params : ConnectionParams) (auth : Option (List R.Cert × R.Key)) (c : ClientConfig R)
      → IsAuthenticated (not_blank params.ssl_cert) (not_blank params.ssl_key) auth
      → IsStrict params.ssl_mode (is_some auth) c
      → IsSound params c
  with_known params auth c (with_cert, with_key) (strict, e) =
      (strict, (e ∙ with_cert, e ∙ with_key))

  weaken :
      {A : Type 0} (P Q : A → Type 0) (r : Result Text A)
      → ((a : A) → P a → Q a)
      → Ensures P r
      → Ensures Q r
  weaken P Q (ok a) f h = f a h
  weaken P Q (err e) f h = tt

  -- A connector never verifies less than its mode says: the chain of the certificate is unchecked only in
  -- the mode `require`, the name of the server only there and in `verify-ca`, a pinned verifier has a
  -- trust anchor, and a client certificate is presented exactly if both of its files are given.
  pub build_tls_connector-IsSound :
      (params : ConnectionParams) (c : ClientConfig R)
      → build_tls_connector R params ≡ ok c
      → (checks_chain c.verifier ≡ not (is_mode (codes "require") params.ssl_mode))
        × (checks_name c.verifier
            ≡ not (
                is_mode (codes "require") params.ssl_mode
                || is_mode (codes "verify-ca") params.ssl_mode))
        × (has_anchor c.verifier ≡ true)
        × (is_some c.client_auth ≡ is_some (not_blank params.ssl_cert))
        × (is_some c.client_auth ≡ is_some (not_blank params.ssl_key))
  unfolding build_tls_connector
  build_tls_connector-IsSound params c e =
      let cert = not_blank params.ssl_cert in
      let key = not_blank params.ssl_key in
      let h =
        of_ok (IsSound params)
          (Ensures-try (IsAuthenticated cert key) (IsSound params) _ (client_auth_of R cert key) _
            (client_auth-IsAuthenticated cert key)
            (λ auth known.
              weaken (IsStrict params.ssl_mode (is_some auth)) (IsSound params)
                (validated R params.ssl_mode (not_blank params.ssl_ca) auth)
                (λ d strict. with_known params auth d known strict)
                (validated-IsStrict params.ssl_mode (not_blank params.ssl_ca) auth)))
          e in
      (h.0.0, h.0.1, h.0.2, h.1.0, h.1.1)
