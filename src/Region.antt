-- ===== src/Region.antt =====
-- src/region.rs: a region of the key space with its leader. Of the messages `metapb::Region` and
-- `metapb::Peer`, which the build generates, the fields that the client's cache reads.
use Prim.Native.Nat.Ordering.{lt, eq}
use rust_tikv_client.Prelude.{
  ℕ, compare, Ordering, ◌≡◌, ◌↔◌, Bool, ◌&&◌, ◌||◌, Option, none, some, List, arith,
}
use rust_tikv_client.Order.{Ord, bytes_ord, before, upto, or_next, flip}
use rust_tikv_client.Key.{Key, is_empty}

pub record RegionVerId : Type 0 where
  pub id : ℕ
  pub conf_ver : ℕ
  pub ver : ℕ

abbrev pub cmp_ver : RegionVerId → RegionVerId → Ordering
cmp_ver a b =
    or_next (compare a.id b.id) (or_next (compare a.conf_ver b.conf_ver) (compare a.ver b.ver))

pub cmp_ver-eq : (a b : RegionVerId) → (cmp_ver a b ≡ eq) ↔ (a ≡ b)
cmp_ver-eq a b = ground arith

pub cmp_ver-flip : (a b : RegionVerId) → cmp_ver b a ≡ flip (cmp_ver a b)
cmp_ver-flip a b = ground arith

pub cmp_ver_trans : (a b c : RegionVerId) → cmp_ver a b ≡ lt → cmp_ver b c ≡ lt → cmp_ver a c ≡ lt
cmp_ver_trans a b c p q = ground arith

instance abbrev pub ver_id_ord : Ord RegionVerId
ver_id_ord = record {
  cmp = cmp_ver;
  cmp_eq = cmp_ver-eq;
  cmp_flip = cmp_ver-flip;
  cmp_trans = cmp_ver_trans;
}

pub record RegionEpoch : Type 0 where
  pub conf_ver : ℕ
  pub version : ℕ

-- `metapb::PeerRole`; `unrecognized` is a number that is none of its values.
pub data PeerRole : Type 0 where
  voter learner incoming_voter demoting_voter unrecognized : PeerRole

pub record Peer : Type 0 where
  pub id : ℕ
  pub store_id : ℕ
  pub role : PeerRole
  pub is_witness : Bool

pub record ProtoRegion : Type 0 where
  pub id : ℕ
  pub start_key : Key
  pub end_key : Key
  pub region_epoch : Option RegionEpoch
  pub peers : List Peer

pub record RegionWithLeader : Type 0 where
  pub region : ProtoRegion
  pub leader : Option Peer

unfoldable pub contains : RegionWithLeader → Key → Bool
contains r k = upto r.region.start_key k && (before k r.region.end_key || is_empty r.region.end_key)

abbrev pub start_key : RegionWithLeader → Key
start_key r = r.region.start_key

abbrev pub end_key : RegionWithLeader → Key
end_key r = r.region.end_key

abbrev pub region_id : RegionWithLeader → ℕ
region_id r = r.region.id

abbrev version_of : ℕ → Option RegionEpoch → RegionVerId
version_of i none = record { id = i; conf_ver = 0; ver = 0 }
version_of i (some e) = record { id = i; conf_ver = e.conf_ver; ver = e.version }

unfoldable pub ver_id : RegionWithLeader → RegionVerId
ver_id r = version_of r.region.id r.region.region_epoch

abbrev store_of : Option Peer → Option ℕ
store_of none = none
store_of (some p) = some p.store_id

-- `none` is the error `LeaderNotFound`.
unfoldable pub get_store_id : RegionWithLeader → Option ℕ
get_store_id r = store_of r.leader
