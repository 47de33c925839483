-- ===== src/Tests/Sizes.antt =====
-- Pool sizes as a host may send them.
use tabularis_postgresql_plu.Settings.{
  max_pool_max_size, pool_max_size_from_value, set_pool_max_size, set_pool_max_size-bounds,
}
use tabularis_postgresql_plu.Json.{pos_int, neg_int, Value, number, object, end, field}
use tabularis_postgresql_plu.Base.{◌≤◌, ◌≡◌, refl, some, codes}

abbrev huge_size : Value
huge_size = object (field (codes "poolMaxSize") (number (pos_int 100000)) end)

set_pool_max_size-bounds_example :
    (1 ≤ set_pool_max_size huge_size 10) × (set_pool_max_size huge_size 10 ≤ max_pool_max_size)
set_pool_max_size-bounds_example = set_pool_max_size-bounds huge_size 10

negative_size : pool_max_size_from_value (some (number (neg_int 4))) ≡ 10
unfolding pool_max_size_from_value
negative_size = refl
