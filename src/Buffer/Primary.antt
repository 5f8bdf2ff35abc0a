-- ===== src/Buffer/Primary.antt =====
-- The primary key of a buffer: it is set exactly while there is something to send.
use rust_tikv_client.Prelude.{
  ℕ, ◌≡◌, refl, ◌≢◌, inl, inr, Bool, true, false, not, ◌&&◌, Option, none, some, List, [], ◌∷◌,
  arith, Bool-cases, Option-cases, All,
}
use rust_tikv_client.Order.{bytes_ord, eqb_iff}
use rust_tikv_client.OrdMap
use rust_tikv_client.OrdMap.{OrdMap}
use rust_tikv_client.OrdMap.Sorted.{IsSorted, insert-IsSorted, get_below}
use rust_tikv_client.Key.{Key, Value}
use rust_tikv_client.Buffer.Entry.{
  BufferEntry, AssertionLevel, to_proto_with_key, EntryKind, Assertion,
}
use rust_tikv_client.Flags.{
  FlagsOp, set_prewrite_only, set_assert_exist, set_assert_not_exist, set_assert_none,
  has_presume_key_not_exists,
}
use rust_tikv_client.Buffer.{
  Buffer, new, put, insert, delete, lock, unlock, update_cache, update_read_cache, update_key_flags,
  set_assertion, or_key, insert_entry, set_entry, primary_key_or, check, flags_of, deletes_to_check,
}
use rust_tikv_client.Buffer.Lowering.{to_proto_mutations, lower_all}
use rust_tikv_client.Buffer.Calls.{
  Call, puts, inserts, deletes, locks, unlocks, claims, caches, marks, asserts, step, run,
}

-- The entry has a mutation to send.
abbrev pub is_sent : Option BufferEntry → Bool
is_sent none = false
is_sent (some (BufferEntry.cached v)) = false
is_sent (some _) = true

abbrev pub is_some : Option Key → Bool
is_some none = false
is_some (some k) = true

pub record Inv (p : Option Key) (m : OrdMap Key BufferEntry) : Type 0 where
  pub sorted : IsSorted m
  pub held : (k : Key) → p ≡ some k → is_sent (OrdMap.get k m) ≡ true
  pub claimed : (k : Key) → is_sent (OrdMap.get k m) ≡ true → is_some p ≡ true

new-Inv : Inv none []
unfolding OrdMap.get
new-Inv = record { sorted = tt; held = λ k h. cc; claimed = λ k h. cc }

module _ (p : Option Key) (m : OrdMap Key BufferEntry) (k : Key) (e : BufferEntry)
    (v : Inv p m) where
  -- A new entry to send claims the primary key if there is none.
  store-Inv : is_sent (some e) ≡ true → Inv (or_key p k) (OrdMap.insert k e m)
  store-Inv h = record {
    sorted = insert-IsSorted k e m v.sorted;
    held = λ j g. ground (arith, OrdMap.get-insert k j e m, eqb_iff j k, v.held j);
    claimed = λ j g. ground arith;
  }

  -- One that replaces another leaves the primary key.
  replace-Inv :
      is_sent (OrdMap.get k m) ≡ true → is_sent (some e) ≡ true → Inv p (OrdMap.insert k e m)
  replace-Inv old h = record {
    sorted = insert-IsSorted k e m v.sorted;
    held = λ j g. ground (arith, OrdMap.get-insert k j e m, v.held j);
    claimed = λ j g. v.claimed k old;
  }

  -- A cached value is nothing to send.
  cache-Inv :
      is_sent (OrdMap.get k m) ≡ false → is_sent (some e) ≡ false → Inv p (OrdMap.insert k e m)
  cache-Inv old h = record {
    sorted = insert-IsSorted k e m v.sorted;
    held = λ j g. ground (arith, OrdMap.get-insert k j e m, eqb_iff j k, v.held j);
    claimed = λ j g. ground (arith, OrdMap.get-insert k j e m, v.claimed j);
  }

abbrev InvOf : Buffer → Type 0
InvOf b = Inv b.primary_key b.entry_map

-- The flags play no part.
update_key_flags-parts :
    (b : Buffer) (k : Key) (ops : _)
    → ((update_key_flags b k ops).primary_key ≡ b.primary_key)
      × ((update_key_flags b k ops).entry_map ≡ b.entry_map)
unfolding update_key_flags
update_key_flags-parts b k ops = ground arith

-- Where the flags alone change, the invariant stays.
same-Inv :
    (b c : Buffer) → c.primary_key ≡ b.primary_key → c.entry_map ≡ b.entry_map → InvOf b → InvOf c
same-Inv b c p m v = rw (p, m) v

-- `insert_entry` of a put, a delete or an insert.
insert_entry-Inv :
    (b : Buffer) (k : Key) (e : BufferEntry)
    → InvOf b
    → (insert_entry b k e).primary_key ≡ or_key b.primary_key k
    → (insert_entry b k e).entry_map ≡ OrdMap.insert k e b.entry_map
    → is_sent (some e) ≡ true
    → InvOf (insert_entry b k e)
insert_entry-Inv b k e v p m h = rw (p, m) (store-Inv b.primary_key b.entry_map k e v h)

insert_entry-put :
    (b : Buffer) (k : Key) (w : Value) → InvOf b → InvOf (insert_entry b k (BufferEntry.put w))
unfolding insert_entry
insert_entry-put b k w v =
    insert_entry-Inv b k (BufferEntry.put w) v (ground arith) (ground arith) refl

insert_entry-insert :
    (b : Buffer) (k : Key) (w : Value) → InvOf b → InvOf (insert_entry b k (BufferEntry.insert w))
unfolding insert_entry
insert_entry-insert b k w v =
    insert_entry-Inv b k (BufferEntry.insert w) v (ground arith) (ground arith) refl

insert_entry_del : (b : Buffer) (k : Key) → InvOf b → InvOf (insert_entry b k BufferEntry.del)
unfolding insert_entry
insert_entry_del b k v = insert_entry-Inv b k BufferEntry.del v (ground arith) (ground arith) refl

put-Inv : (b : Buffer) (k : Key) (w : Value) → InvOf b → InvOf (put b k w)
unfolding put
put-Inv b k w v = go (OrdMap.get k b.entry_map) refl
  where
    go : (o : Option BufferEntry) → OrdMap.get k b.entry_map ≡ o → InvOf (put b k w)
    go (some (BufferEntry.insert x)) e =
        rw (e, put) (replace-Inv b.primary_key b.entry_map k (BufferEntry.insert w) v (rw e) refl)
    go (some BufferEntry.check_not_exist) e =
        rw (e, put) (replace-Inv b.primary_key b.entry_map k (BufferEntry.insert w) v (rw e) refl)
    go _ e = rw (e, put) (insert_entry-put b k w v)

insert-Inv : (b : Buffer) (k : Key) (w : Value) → InvOf b → InvOf (insert b k w)
unfolding insert
insert-Inv b k w v = go (OrdMap.get k b.entry_map) refl
  where
    go : (o : Option BufferEntry) → OrdMap.get k b.entry_map ≡ o → InvOf (insert b k w)
    go (some BufferEntry.del) e =
        rw (e, insert) (replace-Inv b.primary_key b.entry_map k (BufferEntry.put w) v (rw e) refl)
    go _ e = rw (e, insert) (insert_entry-insert b k w v)

-- A key that has an entry to send may claim the primary key.
reclaim-Inv :
    (p : Option Key) (m : OrdMap Key BufferEntry) (k : Key)
    → Inv p m
    → is_sent (OrdMap.get k m) ≡ true
    → Inv (or_key p k) m
reclaim-Inv p m k v h = record {
  sorted = v.sorted;
  held = λ j g. ground (arith, v.held j, v.claimed k);
  claimed = λ j g. ground arith;
}

checked :
    (b : Buffer) (t : Bool) (kind : EntryKind) (k : Key) → InvOf b → InvOf (check b t kind k).0
checked b true kind k v = v
checked b false kind k v = v

-- The guard of `delete`.
abbrev checks : Buffer → Key → Bool
checks b k =
    not b.is_pessimistic
    && deletes_to_check (has_presume_key_not_exists (flags_of b k)) (OrdMap.get k b.entry_map)

checks-is_sent :
    (b : Buffer) (k : Key) → checks b k ≡ true → is_sent (OrdMap.get k b.entry_map) ≡ true
checks-is_sent b k h = ground arith

mark-Inv : (b : Buffer) (k : Key) (ops : List FlagsOp) → InvOf b → InvOf (update_key_flags b k ops)
mark-Inv b k ops v =
    let parts = update_key_flags-parts b k ops in
    same-Inv b (update_key_flags b k ops) parts.0 parts.1 v

delete-Inv : (b : Buffer) (k : Key) → InvOf b → InvOf (delete b k)
unfolding delete
delete-Inv b k v = elim (Bool-cases (checks b k)) [
  | inl e ↦
      rw (e, delete)
        (mark-Inv (set_entry b k BufferEntry.check_not_exist) k (set_prewrite_only ∷ []) (
          replace-Inv b.primary_key b.entry_map k BufferEntry.check_not_exist v
            (checks-is_sent b k e) refl))
  | inr e ↦ rw (e, delete) (insert_entry_del b k v)
]

lock-Inv : (b : Buffer) (k : Key) → InvOf b → InvOf (lock b k)
unfolding lock primary_key_or
lock-Inv b k v = go (OrdMap.get k b.entry_map) refl
  where
    go : (o : Option BufferEntry) → OrdMap.get k b.entry_map ≡ o → InvOf (lock b k)
    go none e =
        rw (e, lock) (store-Inv b.primary_key b.entry_map k (BufferEntry.locked none) v refl)
    go (some (BufferEntry.cached x)) e =
        rw (e, lock) (store-Inv b.primary_key b.entry_map k (BufferEntry.locked (some x)) v refl)
    go (some (BufferEntry.locked x)) e =
        rw (e, lock) (reclaim-Inv b.primary_key b.entry_map k v (rw e))
    go (some (BufferEntry.put x)) e =
        rw (e, lock) (reclaim-Inv b.primary_key b.entry_map k v (rw e))
    go (some (BufferEntry.insert x)) e =
        rw (e, lock) (reclaim-Inv b.primary_key b.entry_map k v (rw e))
    go (some BufferEntry.del) e = rw (e, lock) (reclaim-Inv b.primary_key b.entry_map k v (rw e))
    go (some BufferEntry.check_not_exist) e =
        rw (e, lock) (reclaim-Inv b.primary_key b.entry_map k v (rw e))

update_cache-Inv :
    (b : Buffer) (k : Key) (w : Option Value) → InvOf b → InvOf (update_cache b k w).0
unfolding update_cache
update_cache-Inv b k w v = go (OrdMap.get k b.entry_map) refl
  where
    go : (o : Option BufferEntry) → OrdMap.get k b.entry_map ≡ o → InvOf (update_cache b k w).0
    go none e =
        rw (e, update_cache)
          (cache-Inv b.primary_key b.entry_map k (BufferEntry.cached w) v (rw e) refl)
    go (some (BufferEntry.locked none)) e =
        rw (e, update_cache)
          (replace-Inv b.primary_key b.entry_map k (BufferEntry.locked (some w)) v (rw e) refl)
    go (some (BufferEntry.locked (some x))) e = rw (e, update_cache) (checked b _ _ k v)
    go (some (BufferEntry.cached x)) e = rw (e, update_cache) (checked b _ _ k v)
    go (some (BufferEntry.put x)) e = rw (e, update_cache) (checked b _ _ k v)
    go (some (BufferEntry.insert x)) e = rw (e, update_cache) (checked b _ _ k v)
    go (some BufferEntry.del) e = rw (e, update_cache) (checked b _ _ k v)
    go (some BufferEntry.check_not_exist) e = rw (e, update_cache) (checked b _ _ k v)

update_read_cache-parts :
    (b : Buffer) (k : Key) (w : Option Value) (ts : ℕ)
    → ((update_read_cache b k w ts).0.primary_key ≡ (update_cache b k w).0.primary_key)
      × ((update_read_cache b k w ts).0.entry_map ≡ (update_cache b k w).0.entry_map)
unfolding update_read_cache
update_read_cache-parts b k w ts = ground arith

-- The calls of an optimistic transaction: none unlocks a key or claims the primary key alone.
abbrev pub IsOptimistic : Call → Type 0
IsOptimistic (unlocks k) = ⊥
IsOptimistic (claims k) = ⊥
IsOptimistic _ = Unit

step-Inv : (b : Buffer) (c : Call) → IsOptimistic c → InvOf b → InvOf (step b c)
unfolding step
step-Inv b (puts k w) o v = put-Inv b k w v
step-Inv b (inserts k w) o v = insert-Inv b k w v
step-Inv b (deletes k) o v = delete-Inv b k v
step-Inv b (locks k) o v = lock-Inv b k v
step-Inv b (unlocks k) o v = absurd o
step-Inv b (claims k) o v = absurd o
step-Inv b (caches k w ts) o v =
    let parts = update_read_cache-parts b k w ts in
    same-Inv (update_cache b k w).0 (update_read_cache b k w ts).0 parts.0 parts.1
      (update_cache-Inv b k w v)
step-Inv b (marks k ops) o v = mark-Inv b k ops v
step-Inv b (asserts k Assertion.exist) o v =
    unfold set_assertion in mark-Inv b k (set_assert_exist ∷ []) v
step-Inv b (asserts k Assertion.not_exist) o v =
    unfold set_assertion in mark-Inv b k (set_assert_not_exist ∷ []) v
step-Inv b (asserts k Assertion.unasserted) o v =
    unfold set_assertion in mark-Inv b k (set_assert_none ∷ []) v

run-Inv : (b : Buffer) (cs : List Call) → All IsOptimistic cs → InvOf b → InvOf (run b cs)
unfolding run
run-Inv b [] o v = v
run-Inv b (c ∷ cs) o v = run-Inv (step b c) cs o.1 (step-Inv b c o.0 v)

lower_all_none :
    (b : Buffer) (level : AssertionLevel) (m : OrdMap Key BufferEntry) (k : Key)
    → lower_all b level m ≡ []
    → is_sent (OrdMap.get k m) ≡ false
unfolding lower_all OrdMap.get to_proto_with_key
lower_all_none b level [] k h = refl
lower_all_none b level ((j, e) ∷ m) k h = ground (arith, lower_all_none b level m k)

-- In an optimistic history the primary key is unset when there is no mutation to send: the
-- assertion in `commit` holds.
pub no_mutations-no_primary :
    (pessimistic : Bool) (cs : List Call) (level : AssertionLevel)
    → All IsOptimistic cs
    → to_proto_mutations (run (new pessimistic) cs) level ≡ []
    → (run (new pessimistic) cs).primary_key ≡ none
unfolding to_proto_mutations
no_mutations-no_primary pessimistic cs level o h =
    let b = run (new pessimistic) cs in
    let v : InvOf b = run-Inv (new pessimistic) cs o (unfold new in new-Inv) in
    elim (Option-cases b.primary_key) [
      | inl e ↦ e
      | inr (k, e) ↦ ground (arith, v.held k e, lower_all_none b level b.entry_map k h)
    ]

sent_exists :
    (b : Buffer) (level : AssertionLevel) (m : OrdMap Key BufferEntry)
    → IsSorted m
    → lower_all b level m ≢ []
    → (k : Key) × (is_sent (OrdMap.get k m) ≡ true)
unfolding lower_all OrdMap.get to_proto_with_key
sent_exists b level [] s h = absurd (h refl)
sent_exists b level ((j, BufferEntry.cached v) ∷ m) s h =
    let (k, g) = sent_exists b level m s.1 h in (k, ground (arith, get_below j m s.0, eqb_iff k j))
sent_exists b level ((j, BufferEntry.put v) ∷ m) s h = (j, rw ((eqb_iff j j).1 refl))
sent_exists b level ((j, BufferEntry.insert v) ∷ m) s h = (j, rw ((eqb_iff j j).1 refl))
sent_exists b level ((j, BufferEntry.locked v) ∷ m) s h = (j, rw ((eqb_iff j j).1 refl))
sent_exists b level ((j, BufferEntry.del) ∷ m) s h = (j, rw ((eqb_iff j j).1 refl))
sent_exists b level ((j, BufferEntry.check_not_exist) ∷ m) s h = (j, rw ((eqb_iff j j).1 refl))

-- In an optimistic history the primary key is set when there is a mutation to send.
pub mutations-primary :
    (pessimistic : Bool) (cs : List Call) (level : AssertionLevel)
    → All IsOptimistic cs
    → to_proto_mutations (run (new pessimistic) cs) level ≢ []
    → is_some (run (new pessimistic) cs).primary_key ≡ true
unfolding to_proto_mutations
mutations-primary pessimistic cs level o h =
    let b = run (new pessimistic) cs in
    let v : InvOf b = run-Inv (new pessimistic) cs o (unfold new in new-Inv) in
    let (k, g) = sent_exists b level b.entry_map v.sorted h in v.claimed k g

-- A lock that is taken and taken back in a new buffer leaves the primary key set, with no mutation
-- to send.
pub unlock-primary :
    (pessimistic : Bool) (k : Key) (level : AssertionLevel)
    → let b = run (new pessimistic) (locks k ∷ unlocks k ∷ []) in
      (to_proto_mutations b level ≡ []) × (b.primary_key ≡ some k)
unfolding to_proto_mutations lower_all run step new lock unlock primary_key_or OrdMap.get
    OrdMap.insert OrdMap.remove
unlock-primary pessimistic k level = ground (arith, eqb_iff k k)
