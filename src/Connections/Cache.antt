-- ===== src/Connections/Cache.antt =====
-- src/client.rs: the cache of connection pools and its two users, `get_or_create_pool_with_key` and
-- `get_pool_client`. What other tasks do to the cache while one of them waits is an argument.
use tabularis_postgresql_plu.Query.Server.{Result, ok, err}
use tabularis_postgresql_plu.Base.{
  ◌≡◌, refl, Bool, List, [], ◌∷◌, Option, none, some, Text, text_eq, text_eq_refl, ap, ◌∙◌,
  if◌then◌else◌, arith,
}

ok_injective {ℓ} : {A : Type ℓ} {a b : A} → ◌≡◌ {A = Result Text A} (ok a) (ok b) → a ≡ b
ok_injective e = ground (arith, e)

module _ {ℓ} {Pool : Type ℓ} where
  unfoldable pub get : Text → List (Text × Pool) → Option Pool
  unfolding text_eq
  get key [] = none
  get key ((k, p) ∷ pools) = let rest = get key pools in if text_eq k key then some p else rest

  unfoldable pub remove : Text → List (Text × Pool) → List (Text × Pool)
  unfolding text_eq
  remove key [] = []
  remove key ((k, p) ∷ pools) =
      let rest = remove key pools in if text_eq k key then rest else (k, p) ∷ rest

  unfoldable pub or_insert_at :
      Option Pool → Text → Pool → List (Text × Pool) → List (Text × Pool) × Pool
  or_insert_at (some p) key pool pools = (pools, p)
  or_insert_at none key pool pools = ((key, pool) ∷ pools, pool)

  -- `pools.entry(key).or_insert(pool)`.
  unfoldable pub or_insert : Text → Pool → List (Text × Pool) → List (Text × Pool) × Pool
  unfolding or_insert_at get
  or_insert key pool pools = or_insert_at (get key pools) key pool pools

  unfoldable pub cached : List (Text × Pool) × Pool → List (Text × Pool) × Result Text Pool
  cached (pools, p) = (pools, ok p)

  -- The second look at the cache: `pools` is the cache after the wait for `build_pool`.
  unfoldable pub insert_built :
      Text → Result Text Pool → List (Text × Pool) → List (Text × Pool) × Result Text Pool
  unfolding or_insert cached
  insert_built key (ok pool) pools = cached (or_insert key pool pools)
  insert_built key (err e) pools = (pools, err e)

  unfoldable pub get_or_create_from :
      Option Pool
      → Text
      → Result Text Pool
      → (List (Text × Pool) → List (Text × Pool))
      → List (Text × Pool)
      → List (Text × Pool) × Result Text Pool
  unfolding insert_built
  get_or_create_from (some p) key built others pools = (pools, ok p)
  get_or_create_from none key built others pools = insert_built key built (others pools)

  -- `built` is the result of `build_pool`, `others` what other tasks do to the cache meanwhile.
  unfoldable pub get_or_create_pool_with_key :
      Text
      → Result Text Pool
      → (List (Text × Pool) → List (Text × Pool))
      → List (Text × Pool)
      → List (Text × Pool) × Result Text Pool
  unfolding get_or_create_from get
  get_or_create_pool_with_key key built others pools =
      get_or_create_from (get key pools) key built others pools

  -- `cleanup_idle_pools`, which keeps the pools with a connection in use.
  unfoldable pub cleanup_idle_pools : (Pool → Bool) → List (Text × Pool) → List (Text × Pool)
  cleanup_idle_pools in_use [] = []
  cleanup_idle_pools in_use ((k, p) ∷ pools) =
      let rest = cleanup_idle_pools in_use pools in if in_use p then (k, p) ∷ rest else rest

  module _ {κ} {Connection : Type κ} where
    -- `connect` is `pool.get()`, its error with the text of `format_pool_error`.
    unfoldable pub acquired :
        Text
        → Result Text Connection
        → List (Text × Pool)
        → List (Text × Pool) × Result Text Connection
    unfolding remove
    acquired key (ok c) pools = (pools, ok c)
    acquired key (err e) pools = (remove key pools, err e)

    unfoldable pub client_from :
        (Pool → Result Text Connection)
        → Text
        → (List (Text × Pool) → List (Text × Pool))
        → List (Text × Pool) × Result Text Pool
        → List (Text × Pool) × Result Text Connection
    unfolding acquired
    client_from connect key others (pools, err e) = (pools, err e)
    client_from connect key others (pools, ok p) = acquired key (connect p) (others pools)

    -- `others_built` runs while the pool is built, `others` while it connects.
    unfoldable pub get_pool_client :
        (Pool → Result Text Connection)
        → Text
        → Result Text Pool
        → (List (Text × Pool) → List (Text × Pool))
        → (List (Text × Pool) → List (Text × Pool))
        → List (Text × Pool)
        → List (Text × Pool) × Result Text Connection
    unfolding client_from get_or_create_pool_with_key
    get_pool_client connect key built others_built others pools =
        client_from connect key others (get_or_create_pool_with_key key built others_built pools)

  get_here :
      (key : Text) (p : Pool) (pools : List (Text × Pool)) → get key ((key, p) ∷ pools) ≡ some p
  unfolding get
  get_here key p pools = rw (text_eq_refl key) refl

  get-remove : (key : Text) (pools : List (Text × Pool)) → get key (remove key pools) ≡ none
  unfolding get remove
  get-remove key [] = refl
  get-remove key ((k, p) ∷ pools) = ground (arith, get-remove key pools)

  or_insert_at-get :
      (o : Option Pool) (key : Text) (pool : Pool) (pools : List (Text × Pool))
      → get key pools ≡ o
      → get key ((or_insert_at o key pool pools).0) ≡ some ((or_insert_at o key pool pools).1)
  unfolding or_insert_at
  or_insert_at-get none key pool pools h = get_here key pool pools
  or_insert_at-get (some p) key pool pools h = h

  insert_built-get :
      (key : Text) (built : Result Text Pool) (pools : List (Text × Pool)) (p : Pool)
      → (insert_built key built pools).1 ≡ ok p
      → get key ((insert_built key built pools).0) ≡ some p
  unfolding insert_built or_insert cached
  insert_built-get key (err e) pools p h = absurd (ground arith)
  insert_built-get key (ok pool) pools p h =
      or_insert_at-get (get key pools) key pool pools refl ∙ ap some (ok_injective h)

  get_or_create_from-get :
      (o : Option Pool) (key : Text) (built : Result Text Pool)
      (others : List (Text × Pool) → List (Text × Pool)) (pools : List (Text × Pool)) (p : Pool)
      → get key pools ≡ o
      → (get_or_create_from o key built others pools).1 ≡ ok p
      → get key ((get_or_create_from o key built others pools).0) ≡ some p
  unfolding get_or_create_from
  get_or_create_from-get none key built others pools p g h =
      insert_built-get key built (others pools) p h
  get_or_create_from-get (some q) key built others pools p g h = g ∙ ap some (ok_injective h)

  -- Whatever other tasks did to the cache while the pool was built: the pool a request gets is the one
  -- in the cache under its key, so that racing requests share one pool.
  pub get_or_create_pool_with_key-get :
      (key : Text) (built : Result Text Pool) (others : List (Text × Pool) → List (Text × Pool))
      (pools : List (Text × Pool)) (p : Pool)
      → (get_or_create_pool_with_key key built others pools).1 ≡ ok p
      → get key ((get_or_create_pool_with_key key built others pools).0) ≡ some p
  unfolding get_or_create_pool_with_key
  get_or_create_pool_with_key-get key built others pools p h =
      get_or_create_from-get (get key pools) key built others pools p refl h

  module _ {κ} {Connection : Type κ} where
    acquired-evicts :
        (key : Text) (r : Result Text Connection) (e : Text) (pools : List (Text × Pool))
        → r ≡ err e
        → get key ((acquired key r pools).0) ≡ none
    unfolding acquired
    acquired-evicts key (ok c) e pools h = absurd (ground arith)
    acquired-evicts key (err f) e pools h = get-remove key pools

    evicted :
        (connect : Pool → Result Text Connection) (key : Text)
        (others : List (Text × Pool) → List (Text × Pool))
        (r : List (Text × Pool) × Result Text Pool) (p : Pool) (e : Text)
        → r.1 ≡ ok p
        → connect p ≡ err e
        → get key ((client_from connect key others r).0) ≡ none
    unfolding client_from
    evicted connect key others (pools, err f) p e h c = absurd (ground arith)
    evicted connect key others (pools, ok q) p e h c =
        acquired-evicts key (connect q) e (others pools) (ap connect (ok_injective h) ∙ c)

    -- A pool that could not connect is not in the cache afterwards, whatever other tasks did meanwhile:
    -- the next request builds a new one.
    pub get_pool_client-evicts :
        (connect : Pool → Result Text Connection) (key : Text) (built : Result Text Pool)
        (others_built others : List (Text × Pool) → List (Text × Pool)) (pools : List (Text × Pool))
        (p : Pool) (e : Text)
        → (get_or_create_pool_with_key key built others_built pools).1 ≡ ok p
        → connect p ≡ err e
        → get key ((get_pool_client connect key built others_built others pools).0) ≡ none
    unfolding get_pool_client
    get_pool_client-evicts connect key built others_built others pools p e h c =
        evicted connect key others (get_or_create_pool_with_key key built others_built pools) p e h
          c
