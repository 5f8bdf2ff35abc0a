-- ===== src/Latch/Step.antt =====
-- src/transaction/latch.rs: taking and giving back one latch, and all the latches of a lock. `none`
-- is a panic of an index out of bounds.
use rust_tikv_client.Prelude.{
  ℕ, zero, suc, ◌-◌, max, Bool, true, false, ◌&&◌, ◌==◌, ltb, leb, Option, none, some, List, [],
  ◌∷◌, ◌++◌, if◌then◌else◌, length, get_elem?,
}
use rust_tikv_client.Order.{bytes_ord, nat_ord, eqb}
use rust_tikv_client.OrdMap
use rust_tikv_client.OrdMap.{OrdMap}
use rust_tikv_client.Key.{Key}
use rust_tikv_client.Latch.{
  AcquireResult, success, locked, stale, LatchLock, Node, SlotInner, Latches, slot_of, set_slot,
  set_lock, required_len, inc_acquired, mark_stale, recycle_slot, latch_list_count,
}

-- The key and the slot at an index of a lock.
abbrev pub both : Option Key → Option ℕ → Option (Key × ℕ)
both (some k) (some n) = some (k, n)
both none n = none
both (some k) none = none

abbrev pub latch_at : LatchLock → ℕ → Option (Key × ℕ)
latch_at l i = both (get_elem? l.keys i) (get_elem? l.required_slots i)

-- `or_insert_with` on the nodes.
abbrev pub node_or : ℕ → Option Node → Node
node_or ts none = record { max_commit_ts = ts; value = none }
node_or ts (some n) = n

abbrev pub node_of : SlotInner → Key → Node
node_of inner k = node_or 0 (OrdMap.get k inner.nodes)

abbrev pub set_node : SlotInner → Key → Node → SlotInner
set_node inner k n = record inner { nodes = OrdMap.insert k n inner.nodes }

abbrev pub make_room : ℕ → SlotInner → SlotInner
make_room ts inner =
    if leb latch_list_count (length inner.nodes) then recycle_slot ts inner else inner

-- The rest of `acquire_slot`, with the lock, the latch's key and slot, the slot's content after the
-- recycling, the node, whether a newer commit makes the lock stale, and the latch's owner.
abbrev pub take_or_wait :
    Latches → ℕ → LatchLock → Key → ℕ → SlotInner → Node → Bool → Option ℕ → Latches × AcquireResult
take_or_wait s id l k slot inner node true v =
    (set_lock (set_slot s slot (set_node inner k node)) id (mark_stale l), stale)
take_or_wait s id l k slot inner node false none = (
  set_lock (set_slot s slot (set_node inner k (record node { value = some id }))) id
      (inc_acquired l),
  success,
)
take_or_wait s id l k slot inner node false (some owner) =
    let there = set_node inner k node in
    (set_slot s slot (record there { waiting = there.waiting ++ id ∷ [] }), locked)

abbrev pub take_latch : Latches → ℕ → LatchLock → Key → ℕ → SlotInner → Latches × AcquireResult
take_latch s id l k slot inner =
    let node = node_of inner k in
    take_or_wait s id l k slot inner node (ltb l.start_ts node.max_commit_ts) node.value

abbrev pub acquire_at :
    Latches → ℕ → LatchLock → Option (Key × ℕ) → Option (Latches × AcquireResult)
acquire_at s id l none = none
acquire_at s id l (some (k, slot)) =
    some (take_latch s id l k slot (make_room l.start_ts (slot_of s slot)))

unfoldable pub acquire_slot : ℕ → LatchLock → Latches → Option (Latches × AcquireResult)
unfolding recycle_slot
acquire_slot id l s = acquire_at s id l (latch_at l l.acquired_count)

-- A round of `acquire`'s loop; `more` is the rest of the loop.
abbrev pub after_slot :
    (Latches → Option (Latches × AcquireResult))
    → Option (Latches × AcquireResult)
    → Option (Latches × AcquireResult)
after_slot more none = none
after_slot more (some (s, success)) = more s
after_slot more (some (s, locked)) = some (s, locked)
after_slot more (some (s, stale)) = some (s, stale)

abbrev pub try_slot :
    (Latches → Option (Latches × AcquireResult))
    → ℕ
    → Latches
    → Option LatchLock
    → Option (Latches × AcquireResult)
try_slot more id s none = none
try_slot more id s (some l) = after_slot more (acquire_slot id l s)

-- The loop of `acquire`: each round that succeeds takes one latch more, so that as many rounds as
-- latches are missing are enough.
unfoldable pub acquire_loop : ℕ → ℕ → Latches → Option (Latches × AcquireResult)
unfolding acquire_slot
acquire_loop zero id s = some (s, success)
acquire_loop (suc n) id s = try_slot (λ d. acquire_loop n id d) id s (OrdMap.get id s.locks)

unfoldable pub acquire : ℕ → LatchLock → Latches → Option (Latches × AcquireResult)
unfolding acquire_loop
acquire id l s =
    if l.is_stale then some (s, stale) else acquire_loop (required_len l - l.acquired_count) id s

-- Whether a lock waits for the key.
abbrev pub waits_for : OrdMap ℕ LatchLock → Key → ℕ → Bool
waits_for locks k w = elim (OrdMap.get w locks) [
  | none ↦ false
  | some l ↦
      ltb l.acquired_count (required_len l)
      && elim (get_elem? l.keys l.acquired_count) [ none ↦ false | some j ↦ eqb j k ]
]

-- The first waiting lock that waits for the key, and the others in their order.
abbrev pub pick_waiting : OrdMap ℕ LatchLock → Key → List ℕ → Option (ℕ × List ℕ)
pick_waiting locks k [] = none
pick_waiting locks k (w ∷ ws) =
    let rest = pick_waiting locks k ws in
    if waits_for locks k w
    then some (w, ws)
    else elim rest [ none ↦ none | some p ↦ some (p.0, w ∷ p.1) ]

abbrev pub grant : Latches → ℕ → Key → SlotInner → ℕ → LatchLock → Node → Latches
grant s slot k inner next l node =
    set_lock (set_slot s slot (set_node inner k (record node { value = some next }))) next
      (mark_stale (inc_acquired l))

-- The stale detection for the lock that is woken.
abbrev pub grant_stale : Latches → ℕ → Key → SlotInner → ℕ → ℕ → Option LatchLock → Latches
grant_stale s slot k inner ts next none = set_slot s slot inner
grant_stale s slot k inner ts next (some l) =
    if ltb l.start_ts ts
    then grant s slot k inner next l (node_or ts (OrdMap.get k inner.nodes))
    else set_slot s slot inner

abbrev pub wake_next : Latches → ℕ → Key → SlotInner → ℕ → Option (ℕ × List ℕ) → Latches × Option ℕ
wake_next s slot k inner ts none = (set_slot s slot inner, none)
wake_next s slot k inner ts (some (next, rest)) =
    let left : SlotInner = record inner { waiting = rest } in
    (grant_stale s slot k left ts next (OrdMap.get next s.locks), some next)

-- The latch is given back by its owner, or where no lock owns it.
abbrev pub give_back : Latches → LatchLock → Key → ℕ → SlotInner → Node → Latches × Option ℕ
give_back s l k slot inner node =
    let ts = max node.max_commit_ts l.commit_ts in
    let freed : SlotInner = set_node inner k (record { max_commit_ts = ts; value = none }) in
    wake_next s slot k freed ts (pick_waiting s.locks k freed.waiting)

abbrev pub release_at : Latches → ℕ → LatchLock → Option (Key × ℕ) → Option (Latches × Option ℕ)
release_at s id l none = none
release_at s id l (some (k, slot)) =
    let inner = slot_of s slot in
    let node = node_of inner k in
    some (elim node.value [
      | none ↦ give_back s l k slot inner node
      | some owner ↦
          if owner == id
          then give_back s l k slot inner node
          else (set_slot s slot (set_node inner k node), none)
    ])

-- `release_slot`, with the lock's count already decremented in the state.
unfoldable pub release_slot : ℕ → LatchLock → Latches → Option (Latches × Option ℕ)
release_slot id l s =
    if l.acquired_count == 0
    then some (s, none)
    else let l' : LatchLock = record l { acquired_count = l.acquired_count - 1 } in
      release_at (set_lock s id l') id l' (latch_at l' l'.acquired_count)

abbrev pub push_wakeup : Option ℕ → List ℕ → List ℕ
push_wakeup none ws = ws
push_wakeup (some w) ws = w ∷ ws

-- The loop of `release`: each round gives one latch back, so that as many rounds as latches are
-- taken are enough.
unfoldable pub release_loop : ℕ → ℕ → Latches → Option (Latches × List ℕ)
unfolding release_slot
release_loop zero id s = some (s, [])
release_loop (suc n) id s = elim (OrdMap.get id s.locks) [
  | none ↦ none
  | some l ↦ elim (release_slot id l s) [
    | none ↦ none
    | some p ↦ elim (release_loop n id p.0) [
      | none ↦ none
      | some q ↦ some (q.0, push_wakeup p.1 q.1)
    ]
  ]
]

unfoldable pub release : ℕ → LatchLock → Latches → Option (Latches × List ℕ)
unfolding release_loop
release id l s = release_loop l.acquired_count id s
