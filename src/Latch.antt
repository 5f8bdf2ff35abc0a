-- ===== src/Latch.antt =====
-- src/transaction/latch.rs: the latches that serialise the commits of a process. A lock is known by
-- a number, which stands for its `Arc`; the store of locks and the slots are one state, and a
-- method returns the state after it. The hash of a key is an argument.
pub mod Step
pub mod Scheduler
pub mod Owners
pub mod Laws
mod Tests
use rust_tikv_client.Prelude.{
  ℕ, zero, suc, ◌+◌, ◌-◌, ◌*◌, ◌/◌, ◌%◌, ◌^◌, max, Bool, true, false, not, ◌&&◌, ◌||◌, ◌==◌, ltb,
  leb, Option, none, some, List, [], ◌∷◌, ◌++◌, map, if◌then◌else◌, length, get_elem?,
}
use rust_tikv_client.Order.{bytes_ord, nat_ord, eqb}
use rust_tikv_client.OrdMap
use rust_tikv_client.OrdMap.{OrdMap}
use rust_tikv_client.Key.{Key}

-- Durations are in milliseconds.
abbrev pub expire_duration : ℕ
expire_duration = 2 * 60 * 1000

abbrev pub check_interval : ℕ
check_interval = 60 * 1000

abbrev pub check_counter : ℕ
check_counter = 50000

abbrev pub latch_list_count : ℕ
latch_list_count = 5

abbrev pub pd_ts_logical_bits : ℕ
pd_ts_logical_bits = 18

abbrev pub extract_physical_ms : ℕ → ℕ
extract_physical_ms ts = ts / 2 ^ pd_ts_logical_bits

-- `saturating_sub` of the physical parts.
abbrev pub tso_sub : ℕ → ℕ → ℕ
tso_sub ts1 ts2 = extract_physical_ms ts1 - extract_physical_ms ts2

pub data AcquireResult : Type 0 where
  success locked stale : AcquireResult

pub record LatchLock : Type 0 where
  pub start_ts : ℕ
  pub keys : List Key
  pub required_slots : List ℕ
  pub acquired_count : ℕ
  pub commit_ts : ℕ
  pub is_stale : Bool
  pub notified : Bool

pub record Node : Type 0 where
  pub max_commit_ts : ℕ
  pub value : Option ℕ

pub record SlotInner : Type 0 where
  pub nodes : OrdMap Key Node
  pub waiting : List ℕ

pub record Latches : Type 0 where
  pub slots : OrdMap ℕ SlotInner
  pub locks : OrdMap ℕ LatchLock

abbrev pub empty_slot : SlotInner
empty_slot = record { nodes = []; waiting = [] }

abbrev pub or_empty : Option SlotInner → SlotInner
or_empty none = empty_slot
or_empty (some s) = s

-- A slot that nothing was stored into is the default one.
abbrev pub slot_of : Latches → ℕ → SlotInner
slot_of s i = or_empty (OrdMap.get i s.slots)

abbrev pub set_slot : Latches → ℕ → SlotInner → Latches
set_slot s i inner = record s { slots = OrdMap.insert i inner s.slots }

abbrev pub set_lock : Latches → ℕ → LatchLock → Latches
set_lock s id lock = record s { locks = OrdMap.insert id lock s.locks }

unfoldable pub new_lock : ℕ → List Key → List ℕ → LatchLock
new_lock start keys slots = record {
  start_ts = start;
  keys = keys;
  required_slots = slots;
  acquired_count = 0;
  commit_ts = 0;
  is_stale = false;
  notified = false;
}

abbrev pub required_len : LatchLock → ℕ
required_len l = length l.required_slots

abbrev pub is_locked : LatchLock → Bool
is_locked l = not l.is_stale && not (l.acquired_count == required_len l)

abbrev pub inc_acquired : LatchLock → LatchLock
inc_acquired l = record l { acquired_count = l.acquired_count + 1 }

abbrev pub mark_stale : LatchLock → LatchLock
mark_stale l = record l { is_stale = true }

unfoldable pub set_commit_ts : ℕ → ℕ → Latches → Latches
set_commit_ts id ts s = elim (OrdMap.get id s.locks) [
  | none ↦ s
  | some l ↦ set_lock s id (record l { commit_ts = ts })
]

-- `keys.sort(); keys.dedup()`: the keys of a map are in order and differ.
abbrev pub collect_keys : List Key → OrdMap Key (Unit {0}) → OrdMap Key (Unit {0})
collect_keys [] m = m
collect_keys (k ∷ ks) m = collect_keys ks (OrdMap.insert k tt m)

unfoldable pub sorted_keys : List Key → List Key
sorted_keys ks = map (λ p. p.0) (collect_keys ks [])

-- `hash & (len - 1)`, with `len` a power of two.
abbrev pub slot_id : (Key → ℕ) → ℕ → Key → ℕ
slot_id hash size k = hash k % size

unfoldable pub gen_lock : (Key → ℕ) → ℕ → ℕ → List Key → LatchLock
unfolding sorted_keys new_lock
gen_lock hash size start ks =
    new_lock start (sorted_keys ks) (map (slot_id hash size) (sorted_keys ks))

abbrev pub is_held : Node → Bool
is_held n = elim n.value [ none ↦ false | some id ↦ true ]

-- `SlotInner::recycle`.
unfoldable pub recycle_slot : ℕ → SlotInner → SlotInner
recycle_slot now inner = record inner {
  nodes =
      OrdMap.retain (λ k n. is_held n || ltb (tso_sub now n.max_commit_ts) expire_duration)
        inner.nodes;
}

abbrev pub recycle_slots : ℕ → OrdMap ℕ SlotInner → OrdMap ℕ SlotInner
recycle_slots now [] = []
recycle_slots now ((i, inner) ∷ m) = (i, recycle_slot now inner) ∷ recycle_slots now m

-- `Latches::recycle`.
unfoldable pub recycle : ℕ → Latches → Latches
unfolding recycle_slot
recycle now s = record s { slots = recycle_slots now s.slots }
