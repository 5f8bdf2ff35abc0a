-- ===== src/Shard/Ranges.antt =====
-- src/store/mod.rs: the range of a request is the intersection of two ranges.
use rust_tikv_client.Prelude.{◌≡◌, Bool, false, ◌&&◌, ◌||◌, if-elim, arith}
use rust_tikv_client.Order.{bytes_ord, before, upto}
use rust_tikv_client.Key.{Key, is_empty}
use rust_tikv_client.Shard.{range_intersection, min_key, max_key}

-- A key is in a range when it is not below its start, and below its end unless that is empty.
abbrev pub in_range : Key × Key → Key → Bool
in_range (low, high) k = upto low k && (before k high || is_empty high)

upto_max : (a b k : Key) → upto (max_key a b) k ≡ (upto a k && upto b k)
upto_max a b k = grind (
  arith,
  bytes_ord.cmp_trans a b k,
  bytes_ord.cmp_trans b a k,
  bytes_ord.cmp_trans a k b,
  bytes_ord.cmp_trans b k a,
  bytes_ord.cmp_flip a b,
  bytes_ord.cmp_flip a k,
  bytes_ord.cmp_flip b k,
  bytes_ord.cmp_eq a b,
  bytes_ord.cmp_eq a k,
  bytes_ord.cmp_eq b k,
)

before_min : (k a b : Key) → before k (min_key a b) ≡ (before k a && before k b)
before_min k a b = grind (
  arith,
  bytes_ord.cmp_trans a b k,
  bytes_ord.cmp_trans b a k,
  bytes_ord.cmp_trans k a b,
  bytes_ord.cmp_trans k b a,
  bytes_ord.cmp_flip a b,
  bytes_ord.cmp_flip k a,
  bytes_ord.cmp_flip k b,
  bytes_ord.cmp_eq a b,
  bytes_ord.cmp_eq k a,
  bytes_ord.cmp_eq k b,
)

min_key-full :
    (a b : Key) → is_empty a ≡ false → is_empty b ≡ false → is_empty (min_key a b) ≡ false
min_key-full a b h g = if-elim (λ k. is_empty k ≡ false) (upto a b) a b (λ e. h) (λ e. g)

-- A key is in the range that a request is sent with exactly when it is in the range of the region
-- and in the range of the request, where an empty end is no bound.
pub in_range-range_intersection :
    (r s : Key × Key) (k : Key)
    → in_range (range_intersection r s) k ≡ (in_range r k && in_range s k)
unfolding range_intersection
in_range-range_intersection (lower, upper) (low, high) k =
    ground (arith, upto_max lower low k, before_min k upper high, min_key-full upper high)
