-- ===== src/Latch/Laws.antt =====
-- What acquiring does.
use rust_tikv_client.Prelude.{
  ◌≡◌, refl, sym, ap, ◌∙◌, subst, ◌≤◌, ◌<◌, ◌⊎◌, inl, inr, arith, ℕ, zero, suc, ◌+◌, ◌-◌, Bool,
  true, false, Option, some, List, [], ◌∷◌, ◌++◌, if◌then◌else◌, length, get_elem?,
}
use rust_tikv_client.Order.{bytes_ord, nat_ord}
use rust_tikv_client.OrdMap
use rust_tikv_client.OrdMap.{OrdMap, get, retain, get-insert_self, get-retain}
use rust_tikv_client.Key.{Key}
use rust_tikv_client.Latch.{
  AcquireResult, success, locked, stale, LatchLock, Latches, slot_of, required_len, inc_acquired,
  mark_stale,
}
use rust_tikv_client.Latch.Owners.{
  owner, waiting_at, Keeps, Keeps-self, Keeps-trans, Held, Held-Keeps, Taken, take_latch-Takes,
}
use rust_tikv_client.Latch.Step.{
  take_latch, acquire_at, acquire_slot, acquire_loop, acquire, after_slot, try_slot, latch_at, both,
  node_of, make_room,
}

get_elem-some {ℓ} :
    {A : Type ℓ} (xs : List A) (i : ℕ) → i < length xs → (x : A) × (get_elem? xs i ≡ some x)
get_elem-some [] i h = ground (arith, h)
get_elem-some (x ∷ xs) zero h = (x, refl)
get_elem-some (x ∷ xs) (suc i) h = get_elem-some xs i (omega arith)

latch_at-some :
    (l : LatchLock) (i : ℕ)
    → length l.keys ≡ length l.required_slots
    → i < required_len l
    → (k : Key) × (slot : ℕ) × (latch_at l i ≡ some (k, slot))
latch_at-some l i e h =
    let (k, p) = get_elem-some l.keys i (omega arith) in
    let (n, q) = get_elem-some l.required_slots i h in
    (k, n, ap (λ o. both o (get_elem? l.required_slots i)) p ∙ ap (λ o. both (some k) o) q)

-- How `acquire` leaves the lock: it has all its latches; or it waits, behind the locks that did
-- before, for one that is owned; or it was stale, or the next latch was committed to after its
-- transaction began.
abbrev pub Outcome : Latches → ℕ → LatchLock → Latches → LatchLock → AcquireResult → Type 0
Outcome s id l d m success = m.acquired_count ≡ required_len l
Outcome s id l d m locked =
    (k : Key) × (slot : ℕ) × (w : ℕ) × (latch_at l m.acquired_count ≡ some (k, slot))
    × (owner d slot k ≡ some w)
    × (waiting_at d slot ≡ waiting_at s slot ++ id ∷ [])
Outcome s id l d m stale =
    (m.is_stale ≡ true)
    × ((l.is_stale ≡ true)
        ⊎ ((k : Key) × (slot : ℕ) × (latch_at l m.acquired_count ≡ some (k, slot))
            × (l.start_ts < (node_of (slot_of d slot) k).max_commit_ts)))

-- The state and the lock after `acquire`: no latch has left its owner, the lock owns the latches that
-- it counts, and has changed in nothing else but its mark.
pub record Finished (s : Latches) (id : ℕ) (l : LatchLock) (d : Latches) (m : LatchLock)
    (r : AcquireResult) : Type 0 where
  pub stored : OrdMap.get id d.locks ≡ some m
  pub same : m ≡ record l { acquired_count = m.acquired_count; is_stale = m.is_stale }
  pub kept : Keeps s d
  pub held : Held d id (latch_at l) m.acquired_count
  pub ends : Outcome s id l d m r

abbrev pub Finishes : Latches → ℕ → LatchLock → Option (Latches × AcquireResult) → Type 0
Finishes s id l o =
    (d : Latches) × (r : AcquireResult) × (m : LatchLock) × (o ≡ some (d, r))
    × Finished s id l d m r

-- A run from the state after a latch was taken is one from the state before.
taken_first :
    (s : Latches) (id : ℕ) (l : LatchLock) (e d : Latches) (m : LatchLock) (r : AcquireResult)
    → Keeps s e
    → ((i : ℕ) → waiting_at e i ≡ waiting_at s i)
    → l.is_stale ≡ false
    → Finished e id (inc_acquired l) d m r
    → Finished s id l d m r
taken_first s id l e d m r kept still fresh f = record {
  stored = f.stored;
  same = f.same;
  kept = Keeps-trans s e d kept f.kept;
  held = f.held;
  ends = ends r f.ends;
}
  where
    ends : (r : AcquireResult) → Outcome e id (inc_acquired l) d m r → Outcome s id l d m r
    ends success o = o
    ends locked (k, slot, w, at, owned, behind) =
        (k, slot, w, at, owned, behind ∙ ap (λ ws. ws ++ id ∷ []) (still slot))
    ends stale o = o

add_one : (n : ℕ) → suc n ≡ n + 1
add_one n = omega arith

module _ (s : Latches) (id : ℕ) (l : LatchLock) (k : Key) (slot : ℕ)
    (at : latch_at l l.acquired_count ≡ some (k, slot))
    (held : Held s id (latch_at l) l.acquired_count) where
  after_slot-Finishes :
      (more : Latches → Option (Latches × AcquireResult)) (d : Latches) (r : AcquireResult)
      → l.is_stale ≡ false
      → ((e : Latches)
          → OrdMap.get id e.locks ≡ some (inc_acquired l)
          → Held e id (latch_at l) (l.acquired_count + 1)
          → Finishes e id (inc_acquired l) (more e))
      → Keeps s d
      → Taken s id l k slot d r
      → Finishes s id l (after_slot more (some (d, r)))
  after_slot-Finishes more d success fresh rest kept (stored, owned, still) =
      let before = Held-Keeps s d id (latch_at l) l.acquired_count kept held in
      let (e, r, m, runs, f) = rest d stored (
        subst (Held d id (latch_at l)) (add_one l.acquired_count) (before, (k, slot, at, owned))) in
      (e, r, m, runs, taken_first s id l d e m r kept still fresh f)
  after_slot-Finishes more d locked fresh rest kept (stored, (w, owned), behind) = (
    d,
    locked,
    l,
    refl,
    record {
      stored = stored;
      same = refl;
      kept = kept;
      held = Held-Keeps s d id (latch_at l) l.acquired_count kept held;
      ends = (k, slot, w, at, owned, behind);
    },
  )
  after_slot-Finishes more d stale fresh rest kept (stored, newer) = (
    d,
    stale,
    mark_stale l,
    refl,
    record {
      stored = stored;
      same = refl;
      kept = kept;
      held = Held-Keeps s d id (latch_at l) l.acquired_count kept held;
      ends = (refl, inr (k, slot, at, newer));
    },
  )

acquire_loop-Finishes :
    (n id : ℕ) (s : Latches) (l : LatchLock)
    → OrdMap.get id s.locks ≡ some l
    → length l.keys ≡ length l.required_slots
    → Held s id (latch_at l) l.acquired_count
    → l.is_stale ≡ false
    → l.acquired_count + n ≡ required_len l
    → Finishes s id l (acquire_loop n id s)
unfolding acquire_loop acquire_slot
acquire_loop-Finishes zero id s l h e held fresh q = (
  s,
  success,
  l,
  refl,
  record { stored = h; same = refl; kept = Keeps-self s; held = held; ends = omega arith },
)
acquire_loop-Finishes (suc n) id s l h e held fresh q =
    let more : Latches → Option (Latches × AcquireResult) = λ d. acquire_loop n id d in
    let (k, slot, at) = latch_at-some l l.acquired_count e (omega arith) in
    let p = take_latch s id l k slot (make_room l.start_ts (slot_of s slot)) in
    let (kept, taken) = take_latch-Takes s id l k slot h in
    let found : Finishes s id l (after_slot more (some (p.0, p.1))) =
      after_slot-Finishes s id l k slot at held more p.0 p.1 fresh
        (λ d g hold. acquire_loop-Finishes n id d (inc_acquired l) g e hold fresh (omega arith))
        kept taken in
    subst (λ o. Finishes s id l (try_slot more id s o)) (sym h)
      (subst (λ o. Finishes s id l (after_slot more (acquire_at s id l o))) (sym at) found)

-- For a lock of the store with one slot for each key, which owns the latches that it counts and
-- counts no more than it requires, `acquire` always returns. No latch has then left its owner, and
-- the lock owns the latches that it counts: all that it requires; or those before one that is
-- owned, where it is now the last of the waiting locks; or it is stale, and was so before or met a
-- latch with a commit after its start. Its other parts stay.
pub acquire-Finishes :
    (id : ℕ) (s : Latches) (l : LatchLock)
    → OrdMap.get id s.locks ≡ some l
    → length l.keys ≡ length l.required_slots
    → l.acquired_count ≤ required_len l
    → Held s id (latch_at l) l.acquired_count
    → Finishes s id l (acquire id l s)
unfolding acquire
acquire-Finishes id s l h e q held = go l.is_stale refl
  where
    go :
        (b : Bool)
        → l.is_stale ≡ b
        → Finishes s id l
            (if b then some (s, stale) else acquire_loop (required_len l - l.acquired_count) id s)
    go true p = (
      s,
      stale,
      l,
      refl,
      record { stored = h; same = refl; kept = Keeps-self s; held = held; ends = (p, inl p) },
    )
    go false p =
        acquire_loop-Finishes (required_len l - l.acquired_count) id s l h e held p (omega arith)
