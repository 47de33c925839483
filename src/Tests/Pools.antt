-- ===== src/Tests/Pools.antt =====
-- Runs of the connection side: keys of pools, and a pool that cannot connect.
use tabularis_postgresql_plu.Connections.{from_value, connection_key, is_transaction_pooler, Config}
use tabularis_postgresql_plu.Connections.Cache.{
  get, get_or_create_pool_with_key, get_pool_client, get_pool_client-evicts,
}
use tabularis_postgresql_plu.Query.Server.{Result, ok, err}
use tabularis_postgresql_plu.Json.{Value, string, object, end, field}
use tabularis_postgresql_plu.Base.{ℕ, ◌≡◌, refl, true, List, [], ◌∷◌, none, Text, codes, text_eq}

abbrev target : Text → Text → Value
target database username =
    object
      (field (codes "database") (string database) (field (codes "username") (string username) end))

-- Two databases with two users, and one key for both.
colliding_keys :
    (digest : Text → List ℕ) (from_str : Text → Result Text Config)
    → connection_key digest from_str (from_value (target (codes "a:b") (codes "c")))
      ≡ connection_key digest from_str (from_value (target (codes "a") (codes "b:c")))
unfolding connection_key from_value text_eq
colliding_keys digest from_str = refl

transaction_mode :
    is_transaction_pooler
      (from_value (object (field (codes "pooler_mode") (string (codes " Transaction ")) end)))
    ≡ true
unfolding is_transaction_pooler from_value
transaction_mode = refl

abbrev refused : ℕ → Result Text ℕ
refused pool = err (codes "Connection failed")

eviction :
    get_pool_client refused
      (codes "k")
      (ok 7)
      (λ pools. pools)
      (λ pools. pools)
      ((codes "j", 1) ∷ [])
    ≡ ((codes "j", 1) ∷ [], err (codes "Connection failed"))
unfolding get_pool_client
eviction = refl

get_pool_client-evicts_example :
    get (codes "k") (
      (get_pool_client refused
        (codes "k")
        (ok 7)
        (λ pools. pools)
        (λ pools. (codes "j", 1) ∷ pools)
        []).0)
    ≡ none
unfolding get_or_create_pool_with_key
get_pool_client-evicts_example =
    get_pool_client-evicts refused (codes "k") (ok 7) (λ pools. pools)
      (λ pools. (codes "j", 1) ∷ pools) [] 7 (codes "Connection failed") refl refl
