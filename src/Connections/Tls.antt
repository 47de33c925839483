-- ===== src/Connections/Tls.antt =====
-- src/client.rs: the TLS mode of a connection, as the protocol is told it (`resolve_ssl_mode`) and as the
-- connector is chosen by it (`needs_tls`).
use tabularis_postgresql_plu.Connections.{ConnectionParams}
use tabularis_postgresql_plu.Base.{
  ◌≡◌, refl, ◌↔◌, Bool, true, false, [], ◌∷◌, Option, none, some, Text, codes, one_of, text_eq,
  text_eq→eq, subst, sym, if◌then◌else◌, arith,
}

pub data SslMode : Type 0 where
  disable prefer require : SslMode

unfoldable pub resolve_ssl_mode : Option Text → Option SslMode
unfolding one_of
resolve_ssl_mode none = none
resolve_ssl_mode (some m) =
    if one_of m (codes "disable" ∷ [])
    then some disable
    else if one_of m (codes "allow" ∷ codes "prefer" ∷ [])
    then some prefer
    else if one_of m (codes "require" ∷ codes "verify-ca" ∷ codes "verify-full" ∷ [])
    then some require
    else none

unfoldable pub needs_tls_mode : Option Text → Bool
unfolding one_of
needs_tls_mode none = false
needs_tls_mode (some m) = one_of m (codes "require" ∷ codes "verify-ca" ∷ codes "verify-full" ∷ [])

unfoldable pub needs_tls : ConnectionParams → Bool
unfolding needs_tls_mode
needs_tls params = needs_tls_mode (params.ssl_mode)

abbrev weaker : Text → Bool
weaker m = one_of m (codes "disable" ∷ codes "allow" ∷ codes "prefer" ∷ [])

-- A text that is one of the three modes is none of the weaker ones.
weaker_at : (m x : Text) → weaker x ≡ false → text_eq m x ≡ true → weaker m ≡ false
weaker_at m x h e = subst (λ y. weaker y ≡ false) (sym (text_eq→eq m x e)) h

not_weaker : (m : Text) → needs_tls_mode (some m) ≡ true → weaker m ≡ false
unfolding needs_tls_mode one_of text_eq
not_weaker m h = ground (
  arith,
  weaker_at m (codes "require") refl,
  weaker_at m (codes "verify-ca") refl,
  weaker_at m (codes "verify-full") refl,
)

needs_tls_mode-resolve_ssl_mode :
    (mode : Option Text) → (needs_tls_mode mode ≡ true) ↔ (resolve_ssl_mode mode ≡ some require)
unfolding needs_tls_mode resolve_ssl_mode
needs_tls_mode-resolve_ssl_mode none = ground arith
needs_tls_mode-resolve_ssl_mode (some m) = ground (arith, not_weaker m)

-- The TLS connector is used for exactly the modes that make the protocol require TLS:
-- none of them falls back to plain text, and no other mode takes the connector.
pub needs_tls-resolve_ssl_mode :
    (params : ConnectionParams)
    → (needs_tls params ≡ true) ↔ (resolve_ssl_mode (params.ssl_mode) ≡ some require)
unfolding needs_tls
needs_tls-resolve_ssl_mode params = needs_tls_mode-resolve_ssl_mode (params.ssl_mode)
