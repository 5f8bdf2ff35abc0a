-- ===== src/Buffer/Lost.antt =====
-- Keys that are marked prewrite-only, and are left out of the commit.
use rust_tikv_client.Prelude.{
  ◌≡◌, refl, ◌≢◌, Bool, true, false, Option, some, List, [], ◌∷◌, arith, if◌then◌else◌,
}
use rust_tikv_client.Order.{bytes_ord, eqb, eqb_iff}
use rust_tikv_client.OrdMap
use rust_tikv_client.Flags.{
  apply_all, has_prewrite_only, apply, set_prewrite_only, del_prewrite_only, FlagsOp, KeyFlags,
}
use rust_tikv_client.Flags.Meaning.{Meaning, encode, act, apply-encode, queries-encode}
use rust_tikv_client.Key.{Key, Value}
use rust_tikv_client.Buffer.Entry.{BufferEntry, Op, ProtoMutation, get_value}
use rust_tikv_client.Buffer.{
  Buffer, put, delete, flags_of, update_key_flags, insert_entry, set_entry, get, is_mutation,
  primary_key_or,
}
use rust_tikv_client.Buffer.Lowering.{is_committed}

-- `put` over an insertion, or over the check that a deleted insertion leaves, keeps the flags.
pub put-flags :
    (b : Buffer) (k : Key) (w : Value)
    → OrdMap.get k b.entry_map ≡ some BufferEntry.check_not_exist
    → (OrdMap.get k (put b k w).entry_map ≡ some (BufferEntry.insert w))
      × (flags_of (put b k w) k ≡ flags_of b k)
unfolding put flags_of
put-flags b k w h =
    (rw (h, put) (OrdMap.get-insert_self k (BufferEntry.insert w) b.entry_map), rw (h, put))

-- What a flag update does to the flags of each key.
pub flags_of-update_key_flags :
    (b : Buffer) (k j : Key) (ops : List FlagsOp)
    → flags_of (update_key_flags b k ops) j
      ≡ (if eqb j k then apply_all (flags_of b k) ops else flags_of b j)
unfolding flags_of update_key_flags
flags_of-update_key_flags b k j ops = ground (
  arith,
  OrdMap.get-insert k j (apply_all (flags_of b k) ops) b.key_flags,
  OrdMap.get-remove k j b.key_flags,
)

-- In an optimistic transaction a deleted insertion becomes a check, marked prewrite-only.
pub delete_insertion :
    (b : Buffer) (k : Key) (v : Value)
    → b.is_pessimistic ≡ false
    → OrdMap.get k b.entry_map ≡ some (BufferEntry.insert v)
    → (OrdMap.get k (delete b k).entry_map ≡ some BufferEntry.check_not_exist)
      × (flags_of (delete b k) k ≡ apply (flags_of b k) set_prewrite_only)
unfolding delete apply_all update_key_flags
delete_insertion b k v o h = (
  rw (h, delete)
      (rw (o, delete)
        (ground
          (arith, OrdMap.get-insert k k BufferEntry.check_not_exist b.entry_map, eqb_iff k k))),
  rw (h, delete)
      (rw (o, delete)
        (ground (
          arith,
          flags_of-update_key_flags (set_entry b k BufferEntry.check_not_exist) k k
              (set_prewrite_only ∷ []),
          eqb_iff k k,
        ))),
)

-- The flags of `k` after a call are those of the meaning with one change.
prewrite-set :
    (f : KeyFlags) (m : Meaning)
    → f ≡ encode m
    → has_prewrite_only (apply f set_prewrite_only) ≡ true
prewrite-set f m e =
    rw (e, apply-encode m set_prewrite_only) (queries-encode (act m set_prewrite_only)).1

prewrite-cleared :
    (f : KeyFlags) (m : Meaning)
    → f ≡ encode m
    → has_prewrite_only (apply f del_prewrite_only) ≡ false
prewrite-cleared f m e =
    rw (e, apply-encode m del_prewrite_only) (queries-encode (act m del_prewrite_only)).1

-- A write that is lost: where an optimistic buffer, with reachable flags, holds an insertion of a
-- key, deleting the key and putting it again reads the value put and sends an insertion of it, and
-- the commit leaves the key out.
pub lost_put :
    (b : Buffer) (k : Key) (v w : Value) (m : Meaning)
    → b.is_pessimistic ≡ false
    → OrdMap.get k b.entry_map ≡ some (BufferEntry.insert v)
    → flags_of b k ≡ encode m
    → let c = put (delete b k) k w in
      (get c k ≡ some w)
      × (OrdMap.get k c.entry_map ≡ some (BufferEntry.insert w))
      × ((pb : ProtoMutation) → pb.key ≡ k → is_committed c pb ≡ false)
lost_put b k v w m o h f =
    let d = delete_insertion b k v o h in
    let p = put-flags (delete b k) k w d.0 in
    (
      unfold get get_value in rw p.0,
      p.0,
      λ pb e. rw (e, p.1, d.1, prewrite-set (flags_of b k) m f) (ground arith),
    )

-- Any other put or insertion of a key is committed: only the replaced check keeps the mark.
abbrev pub is_replaced : Option BufferEntry → Bool
is_replaced (some (BufferEntry.insert v)) = true
is_replaced (some BufferEntry.check_not_exist) = true
is_replaced _ = false

insert_entry-flags :
    (b : Buffer) (k : Key) (e : BufferEntry)
    → is_mutation e ≡ true
    → flags_of (insert_entry b k e) k ≡ apply (flags_of b k) del_prewrite_only
unfolding insert_entry apply_all update_key_flags
insert_entry-flags b k e h = ground (
  arith,
  flags_of-update_key_flags b k k (del_prewrite_only ∷ []),
  flags_of-update_key_flags (primary_key_or b k) k k (del_prewrite_only ∷ []),
  eqb_iff k k,
)

-- A put of a key whose entry is neither an insertion nor a check, and whose flags are reachable, is
-- committed: the mutation of that key, unless it is a check, is among those that commit sends.
pub put-is_committed :
    (b : Buffer) (k : Key) (w : Value) (m : Meaning) (pb : ProtoMutation)
    → is_replaced (OrdMap.get k b.entry_map) ≡ false
    → flags_of b k ≡ encode m
    → pb.key ≡ k
    → pb.op ≢ Op.check_not_exists
    → is_committed (put b k w) pb ≡ true
unfolding put
put-is_committed b k w m pb r f e n =
    ground
      (arith, insert_entry-flags b k (BufferEntry.put w) refl, prewrite-cleared (flags_of b k) m f)
