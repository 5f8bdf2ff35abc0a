-- ===== src/Range.antt =====
-- src/kv/bound_range.rs: ranges of keys, and their form in requests, where the start is inclusive
-- and the end exclusive unless a zero byte is appended.
pub mod Scan
mod Tests
use rust_tikv_client.Prelude.{
  Bool, true, false, ◌&&◌, Option, none, some, List, [], ◌∷◌, if◌then◌else◌, ◌||◌, not,
}
use rust_tikv_client.Order.{before, upto, bytes_ord}
use rust_tikv_client.Key.{
  Key, Bound, included, excluded, unbounded, is_empty, next_key, into_lower_bound, into_upper_bound,
}

pub record BoundRange : Type 0 where
  pub from : Bound Key
  pub to : Bound Key

-- `kvrpcpb::KeyRange`
pub record KeyRange : Type 0 where
  pub start_key : Key
  pub end_key : Key

abbrev pub start_of : Bound Key → Key
start_of (included v) = v
start_of (excluded v) = next_key v
start_of unbounded = []

abbrev pub end_of : Bound Key → Option Key
end_of (included v) = some (next_key v)
end_of (excluded v) = some v
end_of unbounded = none

unfoldable pub into_keys : BoundRange → Key × Option Key
into_keys r = (start_of r.from, end_of r.to)

-- `RangeBounds::start_bound` and `end_bound`: what a `BTreeMap` is asked for.
abbrev pub start_bound : BoundRange → Bound Key
start_bound r = r.from

abbrev pub open_if_empty : Bound Key → Bound Key
open_if_empty (included t) = if is_empty t then unbounded else included t
open_if_empty (excluded t) = if is_empty t then unbounded else excluded t
open_if_empty unbounded = unbounded

abbrev pub end_bound : BoundRange → Bound Key
end_bound r = open_if_empty r.to

-- `From<(T, Option<T>)>`, `From<(T, T)>` and the conversions from and to `KeyRange`.
unfoldable pub from_start_and_end : Key → Option Key → BoundRange
from_start_and_end s none = record { from = into_lower_bound s; to = unbounded }
from_start_and_end s (some e) = record { from = into_lower_bound s; to = into_upper_bound e }

unfoldable pub from_pair : Key → Key → BoundRange
from_pair s e = record { from = into_lower_bound s; to = into_upper_bound e }

abbrev pub or_empty : Option Key → Key
or_empty none = []
or_empty (some e) = e

unfoldable pub to_key_range : BoundRange → KeyRange
unfolding into_keys
to_key_range r = let (s, e) = into_keys r in record { start_key = s; end_key = or_empty e }

unfoldable pub from_key_range : KeyRange → BoundRange
from_key_range r = record { from = into_lower_bound r.start_key; to = into_upper_bound r.end_key }

-- A key is within a bound: `RangeBounds::contains`, and the filter of `BTreeMap::range`.
abbrev pub above_bound : Bound Key → Key → Bool
above_bound (included v) k = upto v k
above_bound (excluded v) k = before v k
above_bound unbounded k = true

abbrev pub below_bound : Bound Key → Key → Bool
below_bound (included v) k = upto k v
below_bound (excluded v) k = before k v
below_bound unbounded k = true

unfoldable pub contains : BoundRange → Key → Bool
contains r k = above_bound (start_bound r) k && below_bound (end_bound r) k

-- `BTreeMap::range` panics on a start above the end, and on two equal excluded bounds.
unfoldable pub range_panics : BoundRange → Bool
range_panics r = elim (start_bound r) [
  | unbounded ↦ false
  | included s ↦ elim (end_bound r) [
    | unbounded ↦ false
    | included e ↦ before e s
    | excluded e ↦ before e s
  ]
  | excluded s ↦ elim (end_bound r) [
    | unbounded ↦ false
    | included e ↦ before e s
    | excluded e ↦ upto e s
  ]
]
