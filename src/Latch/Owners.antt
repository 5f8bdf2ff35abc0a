-- ===== src/Latch/Owners.antt =====
-- Who owns a latch, and that taking a latch takes none away.
use rust_tikv_client.Prelude.{
  ◌≡◌, refl, sym, ap, ◌∙◌, subst, ◌≤◌, ◌<◌, ◌⊎◌, inl, inr, arith, ℕ, zero, suc, Bool, true, false,
  ◌||◌, ltb, ltb→lt, leb, Option, none, some, List, [], ◌∷◌, ◌++◌, if◌then◌else◌, length, if-elim,
}
use rust_tikv_client.Order.{bytes_ord, nat_ord, eqb, eqb_iff}
use rust_tikv_client.OrdMap
use rust_tikv_client.OrdMap.{OrdMap, retain, get-retain, get-insert, get-insert_self}
use rust_tikv_client.Key.{Key}
use rust_tikv_client.Latch.{
  AcquireResult, success, locked, stale, LatchLock, Node, SlotInner, Latches, slot_of, set_slot,
  or_empty, inc_acquired, mark_stale, recycle_slot, tso_sub, expire_duration, is_held,
  latch_list_count,
}
use rust_tikv_client.Latch.Step.{take_latch, take_or_wait, node_of, node_or, set_node, make_room}

-- Recycling keeps every node that a lock holds, and every node whose last commit is less than two
-- minutes before `now`, by the timestamps; a node that it drops is neither.
pub recycle_slot-keeps :
    (now : ℕ) (inner : SlotInner) (k : Key) (n : Node)
    → OrdMap.get k inner.nodes ≡ some n
    → (OrdMap.get k (recycle_slot now inner).nodes ≡ some n)
      ⊎ ((n.value ≡ none) × (expire_duration ≤ tso_sub now n.max_commit_ts))
unfolding recycle_slot
recycle_slot-keeps now inner k n h =
    elim (get-retain (λ j x. is_held x || ltb (tso_sub now x.max_commit_ts) expire_duration) k n
      inner.nodes h) [
        | inl g ↦ inl g
        | inr f ↦ inr (not_held n.value (dropped n f).0, (dropped n f).1)
      ]
  where
    not_held : (v : Option ℕ) → elim v [ none ↦ false | some id ↦ true ] ≡ false → v ≡ none
    not_held none p = refl
    not_held (some id) p = ground (arith, p)

    dropped :
        (x : Node)
        → (is_held x || ltb (tso_sub now x.max_commit_ts) expire_duration) ≡ false
        → (is_held x ≡ false) × (expire_duration ≤ tso_sub now x.max_commit_ts)
    dropped x f = ground (arith, f)

abbrev pub value_at : SlotInner → Key → Option ℕ
value_at inner k = (node_of inner k).value

-- The lock that owns the latch of a key, and the locks that wait in a slot.
abbrev pub owner : Latches → ℕ → Key → Option ℕ
owner s slot k = value_at (slot_of s slot) k

abbrev pub waiting_at : Latches → ℕ → List ℕ
waiting_at s slot = (slot_of s slot).waiting

-- An owner stays.
abbrev pub Kept : Option ℕ → Option ℕ → Type 0
Kept none o = Unit
Kept (some w) o = o ≡ some w

abbrev pub Keeps : Latches → Latches → Type 0
Keeps s d = (slot : ℕ) (k : Key) → Kept (owner s slot k) (owner d slot k)

Kept-self : (o : Option ℕ) → Kept o o
Kept-self none = tt
Kept-self (some w) = refl

Kept-trans : (a b c : Option ℕ) → Kept a b → Kept b c → Kept a c
Kept-trans none b c p q = tt
Kept-trans (some w) b c p q = subst (λ o. Kept o c) p q

pub Keeps-self : (s : Latches) → Keeps s s
Keeps-self s slot k = Kept-self (owner s slot k)

pub Keeps-trans : (s m d : Latches) → Keeps s m → Keeps m d → Keeps s d
Keeps-trans s m d p q slot k =
    Kept-trans (owner s slot k) (owner m slot k) (owner d slot k) (p slot k) (q slot k)

-- The lock owns its first `n` latches.
abbrev pub Held : Latches → ℕ → (ℕ → Option (Key × ℕ)) → ℕ → Type 0
Held s id at zero = Unit
Held s id at (suc n) =
    Held s id at n × ((k : Key) × (slot : ℕ) × (at n ≡ some (k, slot)) × (owner s slot k ≡ some id))

pub Held-Keeps :
    (s d : Latches) (id : ℕ) (at : ℕ → Option (Key × ℕ)) (n : ℕ)
    → Keeps s d
    → Held s id at n
    → Held d id at n
Held-Keeps s d id at zero p h = tt
Held-Keeps s d id at (suc n) p (h, (k, slot, e, o)) =
    (Held-Keeps s d id at n p h, (k, slot, e, subst (λ o. Kept o (owner d slot k)) o (p slot k)))

make_room-Kept :
    (now : ℕ) (inner : SlotInner) (k : Key)
    → Kept (value_at inner k) (value_at (make_room now inner) k)
make_room-Kept now inner k =
    if-elim (λ (i : SlotInner). Kept (value_at inner k) (value_at i k))
      (leb latch_list_count (length inner.nodes)) _ _
      (λ e. recycled (OrdMap.get k inner.nodes) refl) (λ e. Kept-self (value_at inner k))
  where
    recycled :
        (o : Option Node)
        → OrdMap.get k inner.nodes ≡ o
        → Kept (node_or 0 o).value (value_at (recycle_slot now inner) k)
    recycled none e = tt
    recycled (some n) e = elim (recycle_slot-keeps now inner k n e) [
      | inl g ↦ subst (λ o. Kept n.value (node_or 0 o).value) (sym g) (Kept-self n.value)
      | inr g ↦ subst (λ o. Kept o (value_at (recycle_slot now inner) k)) (sym g.0) tt
    ]

make_room-waiting : (now : ℕ) (inner : SlotInner) → (make_room now inner).waiting ≡ inner.waiting
unfolding recycle_slot
make_room-waiting now inner =
    if-elim (λ (i : SlotInner). i.waiting ≡ inner.waiting)
      (leb latch_list_count (length inner.nodes)) _ _ (λ e. refl) (λ e. refl)

-- A slot whose content is exchanged, with a node of one key exchanged in it.
module _ (s : Latches) (slot : ℕ) (x : SlotInner) where
  pub slot_of-set :
      (i : ℕ) → slot_of (set_slot s slot x) i ≡ (if eqb i slot then x else slot_of s i)
  slot_of-set i = ground (arith, get-insert slot i x s.slots)

  pub slot_of-set_self : slot_of (set_slot s slot x) slot ≡ x
  slot_of-set_self = ap or_empty (get-insert_self slot x s.slots)

module _ (s : Latches) (slot : ℕ) (room : SlotInner) (k : Key) (n : Node) (ws : List ℕ)
    (kept : (j : Key) → Kept (owner s slot j) (value_at room j))
    (free : Kept (value_at room k) n.value) where
  abbrev changed : SlotInner
  changed = record (set_node room k n) { waiting = ws }

  pub set_node-Keeps : Keeps s (set_slot s slot changed)
  set_node-Keeps i j =
      subst (λ x. Kept (owner s i j) (value_at x j)) (sym (slot_of-set s slot changed i))
        (if-elim (λ x. Kept (owner s i j) (value_at x j)) (eqb i slot) _ _
          (λ e.
            subst (λ m. Kept (owner s m j) (value_at changed j)) (sym ((eqb_iff i slot).0 e)) there)
          (λ e. Kept-self (owner s i j)))
    where
      there : Kept (owner s slot j) (value_at changed j)
      there =
          subst (λ o. Kept (owner s slot j) (node_or 0 o).value) (sym (get-insert k j n room.nodes))
            (if-elim (λ o. Kept (owner s slot j) (node_or 0 o).value) (eqb j k) _ _
              (λ e.
                Kept-trans (owner s slot j) (value_at room j) n.value (kept j)
                  (subst (λ m. Kept (value_at room m) n.value) (sym ((eqb_iff j k).0 e)) free))
              (λ e. kept j))

  pub set_node-waiting :
      ws ≡ waiting_at s slot → (i : ℕ) → waiting_at (set_slot s slot changed) i ≡ waiting_at s i
  set_node-waiting h i =
      ap (λ (x : SlotInner). x.waiting) (slot_of-set s slot changed i)
      ∙ if-elim (λ (x : SlotInner). x.waiting ≡ waiting_at s i) (eqb i slot) _ _
          (λ e. h ∙ ap (waiting_at s) (sym ((eqb_iff i slot).0 e))) (λ e. refl)

  pub set_node-owner : node_of (slot_of (set_slot s slot changed) slot) k ≡ n
  set_node-owner =
      ap (λ (x : SlotInner). node_of x k) (slot_of-set_self s slot changed)
      ∙ ap (node_or 0) (get-insert_self k n room.nodes)

-- The state after the latch of `k` was tried for the lock `l`.
abbrev pub Taken : Latches → ℕ → LatchLock → Key → ℕ → Latches → AcquireResult → Type 0
Taken s id l k slot d success =
    (OrdMap.get id d.locks ≡ some (inc_acquired l))
    × (owner d slot k ≡ some id)
    × ((i : ℕ) → waiting_at d i ≡ waiting_at s i)
Taken s id l k slot d locked =
    (OrdMap.get id d.locks ≡ some l)
    × ((w : ℕ) × (owner d slot k ≡ some w))
    × (waiting_at d slot ≡ waiting_at s slot ++ id ∷ [])
Taken s id l k slot d stale =
    (OrdMap.get id d.locks ≡ some (mark_stale l))
    × (l.start_ts < (node_of (slot_of d slot) k).max_commit_ts)

module _ (s : Latches) (id : ℕ) (l : LatchLock) (k : Key) (slot : ℕ)
    (h : OrdMap.get id s.locks ≡ some l) (room : SlotInner)
    (kept : (j : Key) → Kept (owner s slot j) (value_at room j))
    (same : room.waiting ≡ waiting_at s slot) where
  abbrev Takes : Latches × AcquireResult → Type 0
  Takes p = Keeps s p.0 × Taken s id l k slot p.0 p.1

  take_or_wait-Takes :
      (old : Bool) (v : Option ℕ)
      → ltb l.start_ts (node_of room k).max_commit_ts ≡ old
      → value_at room k ≡ v
      → Takes (take_or_wait s id l k slot room (node_of room k) old v)
  take_or_wait-Takes true v e f =
      let node = node_of room k in
      (
        set_node-Keeps s slot room k node room.waiting kept (Kept-self node.value),
        (
          get-insert_self id (mark_stale l) s.locks,
          subst (λ (n : Node). l.start_ts < n.max_commit_ts)
              (sym (set_node-owner s slot room k node room.waiting kept (Kept-self node.value)))
              (ltb→lt l.start_ts node.max_commit_ts e),
        ),
      )
  take_or_wait-Takes false none e f =
      let node : Node = record (node_of room k) { value = some id } in
      let free : Kept (value_at room k) (some id) = subst (λ o. Kept o (some id)) (sym f) tt in
      (
        set_node-Keeps s slot room k node room.waiting kept free,
        (
          get-insert_self id (inc_acquired l) s.locks,
          ap (λ (n : Node). n.value) (set_node-owner s slot room k node room.waiting kept free),
          set_node-waiting s slot room k node room.waiting kept free same,
        ),
      )
  take_or_wait-Takes false (some w) e f =
      let node = node_of room k in
      let ws = room.waiting ++ id ∷ [] in
      let stays = Kept-self node.value in
      (
        set_node-Keeps s slot room k node ws kept stays,
        (
          h,
          (w, ap (λ (n : Node). n.value) (set_node-owner s slot room k node ws kept stays) ∙ f),
          ap (λ (x : SlotInner). x.waiting)
                (slot_of-set_self s slot (record (set_node room k node) { waiting = ws }))
              ∙ ap (λ us. us ++ id ∷ []) same,
        ),
      )

-- Trying a latch takes none from its owner; it is taken, or waited for behind the others, or was
-- committed to after the lock's transaction began.
pub take_latch-Takes :
    (s : Latches) (id : ℕ) (l : LatchLock) (k : Key) (slot : ℕ)
    → OrdMap.get id s.locks ≡ some l
    → let p = take_latch s id l k slot (make_room l.start_ts (slot_of s slot)) in
      Keeps s p.0 × Taken s id l k slot p.0 p.1
take_latch-Takes s id l k slot h =
    let room = make_room l.start_ts (slot_of s slot) in
    take_or_wait-Takes s id l k slot h room (make_room-Kept l.start_ts (slot_of s slot))
      (make_room-waiting l.start_ts (slot_of s slot))
      (ltb l.start_ts (node_of room k).max_commit_ts) (value_at room k) refl refl
