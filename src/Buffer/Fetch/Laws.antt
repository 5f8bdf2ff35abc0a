-- ===== src/Buffer/Fetch/Laws.antt =====
-- A read through the buffer returns what the buffer then holds, and is repeatable.
use rust_tikv_client.Prelude.{
  ◌≡◌, refl, ap, sym, ◌∙◌, ◌↔◌, ◌≢◌, true, Option, none, some, arith, if◌then◌else◌, inl, inr,
  Bool-cases,
}
use rust_tikv_client.Order.{bytes_ord, eqb, eqb_iff}
use rust_tikv_client.OrdMap
use rust_tikv_client.Key.{Key, Value}
use rust_tikv_client.Buffer.Entry.{
  BufferEntry, MutationValue, Result, ok, err, get_value, EntryKind,
}
use rust_tikv_client.Buffer.{Buffer, get_from_mutations, update_cache, same_value, check, set_entry}
use rust_tikv_client.Buffer.Fetch.{get_or_else, fetch_one, then_ok}

-- A determined value stays, and an undetermined one becomes the value that was read.
abbrev pub settle : Option Value → MutationValue → MutationValue
settle v MutationValue.undetermined = MutationValue.determined v
settle v (MutationValue.determined w) = MutationValue.determined w

pub update_cache-value :
    (b : Buffer) (k : Key) (v : Option Value) (j : Key)
    → get_from_mutations (update_cache b k v).0 j
      ≡ (if eqb j k then settle v (get_from_mutations b k) else get_from_mutations b j)
unfolding update_cache get_from_mutations get_value
update_cache-value b k v j = ground (
  arith,
  OrdMap.get-insert k j (BufferEntry.cached v) b.entry_map,
  OrdMap.get-insert k j (BufferEntry.locked (some v)) b.entry_map,
  eqb_iff j k,
)

same_value_iff : (v w : Option Value) → (same_value v w ≡ true) ↔ (v ≡ w)
same_value_iff none none = ground arith
same_value_iff none (some w) = ground arith
same_value_iff (some v) none = ground arith
same_value_iff (some v) (some w) = ground (arith, eqb_iff v w)

-- What `update_cache` may do with a value from the store.
abbrev pub Outcome : Buffer → Key → Option Value → Buffer × Result (Unit {0}) → Type 0
Outcome b k v (c, ok _) = get_from_mutations c k ≡ MutationValue.determined v
Outcome b k v (c, err e) =
    (c ≡ b) × (w : Option Value) × (get_from_mutations b k ≡ MutationValue.determined w) × (w ≢ v)

check-Outcome :
    (b : Buffer) (k : Key) (v w : Option Value) (kind : EntryKind)
    → get_from_mutations b k ≡ MutationValue.determined w
    → Outcome b k v (check b (same_value v w) kind k)
check-Outcome b k v w kind h = elim (Bool-cases (same_value v w)) [
  | inl e ↦ rw e (h ∙ ap MutationValue.determined (sym ((same_value_iff v w).0 e)))
  | inr e ↦ rw e (refl, w, h, λ q. ground (arith, same_value_iff v w))
]

store-Outcome :
    (b : Buffer) (k : Key) (v : Option Value) (e : BufferEntry)
    → get_value e ≡ MutationValue.determined v
    → Outcome b k v (set_entry b k e, ok tt)
unfolding get_from_mutations
store-Outcome b k v e h = rw (OrdMap.get-insert_self k e b.entry_map) h

-- A value from the store is accepted exactly where the buffer then holds it for the key. It is
-- refused where the buffer holds another one, and then the buffer is unchanged.
pub update_cache-Outcome :
    (b : Buffer) (k : Key) (v : Option Value) → Outcome b k v (update_cache b k v)
unfolding update_cache get_from_mutations get_value
update_cache-Outcome b k v = go (OrdMap.get k b.entry_map) refl
  where
    go :
        (o : Option BufferEntry) → OrdMap.get k b.entry_map ≡ o → Outcome b k v (update_cache b k v)
    go none e = rw (e, update_cache) (store-Outcome b k v (BufferEntry.cached v) refl)
    go (some (BufferEntry.locked none)) e =
        rw (e, update_cache) (store-Outcome b k v (BufferEntry.locked (some v)) refl)
    go (some (BufferEntry.locked (some w))) e =
        rw (e, update_cache) (check-Outcome b k v w EntryKind.cached (rw e))
    go (some (BufferEntry.cached w)) e =
        rw (e, update_cache) (check-Outcome b k v w EntryKind.cached (rw e))
    go (some (BufferEntry.put w)) e =
        rw (e, update_cache) (check-Outcome b k v (some w) EntryKind.put (rw e))
    go (some (BufferEntry.insert w)) e =
        rw (e, update_cache) (check-Outcome b k v (some w) EntryKind.insert (rw e))
    go (some BufferEntry.del) e =
        rw (e, update_cache) (check-Outcome b k v none EntryKind.del (rw e))
    go (some BufferEntry.check_not_exist) e =
        rw (e, update_cache) (check-Outcome b k v none EntryKind.check_not_exist (rw e))

get_or_else_held :
    (b : Buffer) (k : Key) (v : Option Value) (g : Key → Result (Option Value))
    → get_from_mutations b k ≡ MutationValue.determined v
    → get_or_else b k g ≡ (b, ok v)
unfolding get_or_else
get_or_else_held b k v g h = rw (h, get_or_else)

fetch_one-holds :
    (b c : Buffer) (k : Key) (r : Result (Option Value)) (v : Option Value)
    → fetch_one b k r ≡ (c, ok v)
    → get_from_mutations c k ≡ MutationValue.determined v
unfolding fetch_one
fetch_one-holds b c k (err e) v h = cc
fetch_one-holds b c k (ok w) v h = go (update_cache b k w) (update_cache-Outcome b k w) h
  where
    go :
        (r : Buffer × Result (Unit {0}))
        → Outcome b k w r
        → then_ok r w ≡ (c, ok v)
        → get_from_mutations c k ≡ MutationValue.determined v
    go (d, ok _) o q = ground arith
    go (d, err e) o q = cc

get_or_else-holds :
    (b c : Buffer) (k : Key) (v : Option Value) (f : Key → Result (Option Value))
    → get_or_else b k f ≡ (c, ok v)
    → get_from_mutations c k ≡ MutationValue.determined v
unfolding get_or_else
get_or_else-holds b c k v f h = go (get_from_mutations b k) refl
  where
    go :
        (m : MutationValue)
        → get_from_mutations b k ≡ m
        → get_from_mutations c k ≡ MutationValue.determined v
    go (MutationValue.determined w) e = ground arith
    go MutationValue.undetermined e = fetch_one-holds b c k (f k) v (rw (e, get_or_else) at h)

-- A read is repeatable: a second read of the key returns the same value from the buffer, whatever
-- the store would answer, and changes nothing.
pub get_or_else_twice :
    (b c : Buffer) (k : Key) (v : Option Value) (f g : Key → Result (Option Value))
    → get_or_else b k f ≡ (c, ok v)
    → get_or_else c k g ≡ (c, ok v)
get_or_else_twice b c k v f g h = get_or_else_held c k v g (get_or_else-holds b c k v f h)
