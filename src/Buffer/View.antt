-- ===== src/Buffer/View.antt =====
-- What a transaction reads from its own buffer: each method as a change to a function from keys.
use rust_tikv_client.Prelude.{◌≡◌, refl, Option, none, some, arith, if◌then◌else◌}
use rust_tikv_client.Order.{bytes_ord, eqb, eqb_iff}
use rust_tikv_client.OrdMap
use rust_tikv_client.Key.{Key, Value}
use rust_tikv_client.Buffer.Entry.{BufferEntry, ReadValueState, value_state}
use rust_tikv_client.Buffer.{
  Buffer, put, insert, delete, lock, unlock, update_cache, read_value_state, set_entry,
}

abbrev pub View : Type 0
View = Key → ReadValueState

abbrev pub update : Key → ReadValueState → View → View
update k s view j = if eqb j k then s else view j

-- A read fills in what is not known, and nothing else.
abbrev pub learn : Option Value → ReadValueState → ReadValueState
learn v ReadValueState.undetermined = ReadValueState.cached v
learn v s = s

set_entry-view :
    (b : Buffer) (k : Key) (e : BufferEntry) (j : Key)
    → read_value_state (set_entry b k e) j ≡ update k (value_state (some e)) (read_value_state b) j
unfolding read_value_state
set_entry-view b k e j = ground (arith, OrdMap.get-insert k j e b.entry_map)

pub put-view :
    (b : Buffer) (k : Key) (v : Value) (j : Key)
    → read_value_state (put b k v) j
      ≡ update k (ReadValueState.local (some v)) (read_value_state b) j
unfolding put read_value_state
put-view b k v j = ground (
  arith,
  OrdMap.get-insert k j (BufferEntry.put v) b.entry_map,
  OrdMap.get-insert k j (BufferEntry.insert v) b.entry_map,
)

pub insert-view :
    (b : Buffer) (k : Key) (v : Value) (j : Key)
    → read_value_state (insert b k v) j
      ≡ update k (ReadValueState.local (some v)) (read_value_state b) j
unfolding insert read_value_state
insert-view b k v j = ground (
  arith,
  OrdMap.get-insert k j (BufferEntry.put v) b.entry_map,
  OrdMap.get-insert k j (BufferEntry.insert v) b.entry_map,
)

pub delete-view :
    (b : Buffer) (k : Key) (j : Key)
    → read_value_state (delete b k) j ≡ update k (ReadValueState.local none) (read_value_state b) j
unfolding delete read_value_state
delete-view b k j = ground (
  arith,
  OrdMap.get-insert k j BufferEntry.del b.entry_map,
  OrdMap.get-insert k j BufferEntry.check_not_exist b.entry_map,
)

-- The entry under `k` may be exchanged for one that reads alike.
set_entry-view_same :
    (b : Buffer) (k j : Key) (e : BufferEntry)
    → value_state (some e) ≡ value_state (OrdMap.get k b.entry_map)
    → read_value_state (set_entry b k e) j ≡ read_value_state b j
unfolding read_value_state
set_entry-view_same b k j e h = ground (arith, OrdMap.get-insert k j e b.entry_map, eqb_iff j k)

pub lock-view : (b : Buffer) (k j : Key) → read_value_state (lock b k) j ≡ read_value_state b j
unfolding lock read_value_state value_state
lock-view b k j = go (OrdMap.get k b.entry_map) refl
  where
    go :
        (o : Option BufferEntry)
        → OrdMap.get k b.entry_map ≡ o
        → read_value_state (lock b k) j ≡ read_value_state b j
    go none e = rw (e, lock) (set_entry-view_same b k j (BufferEntry.locked none) (rw e))
    go (some (BufferEntry.cached v)) e =
        rw (e, lock) (set_entry-view_same b k j (BufferEntry.locked (some v)) (rw e))
    go (some _) e = rw (e, lock)

pub unlock-view : (b : Buffer) (k j : Key) → read_value_state (unlock b k) j ≡ read_value_state b j
unfolding unlock read_value_state value_state
unlock-view b k j = go (OrdMap.get k b.entry_map) refl
  where
    go :
        (o : Option BufferEntry)
        → OrdMap.get k b.entry_map ≡ o
        → read_value_state (unlock b k) j ≡ read_value_state b j
    go (some (BufferEntry.locked (some v))) e =
        rw (e, unlock) (set_entry-view_same b k j (BufferEntry.cached v) (rw e))
    go (some (BufferEntry.locked none)) e =
        rw (e, unlock) (ground (arith, OrdMap.get-remove k j b.entry_map, eqb_iff j k))
    go _ e = rw (e, unlock)

pub update_cache-view :
    (b : Buffer) (k : Key) (v : Option Value) (j : Key)
    → read_value_state (update_cache b k v).0 j
      ≡ update k (learn v (read_value_state b k)) (read_value_state b) j
unfolding update_cache read_value_state value_state
update_cache-view b k v j = ground (
  arith,
  OrdMap.get-insert k j (BufferEntry.cached v) b.entry_map,
  OrdMap.get-insert k j (BufferEntry.locked (some v)) b.entry_map,
  eqb_iff j k,
)
