-- ===== src/Transaction/Calls/Entries.antt =====
-- src/transaction/buffer.rs: what locking and unlocking a list of keys makes of each entry.
use rust_tikv_client.Prelude.{
  ◌≡◌, refl, sym, ap, ◌∙◌, subst, arith, if-elim, Bool, true, false, ◌||◌, Option, none, some, List,
  [], ◌∷◌, if◌then◌else◌, map,
}
use rust_tikv_client.Order.{bytes_ord, eqb, eqb_iff}
use rust_tikv_client.OrdMap
use rust_tikv_client.OrdMap.{OrdMap}
use rust_tikv_client.Key.{Key}
use rust_tikv_client.Buffer
use rust_tikv_client.Buffer.{Buffer, primary_key_or, or_key}
use rust_tikv_client.Buffer.Entry.{BufferEntry, Assertion}
use rust_tikv_client.Transaction.Locking.{lock_all, unlock_all}

-- What a lock makes of an entry, and what giving it up does.
abbrev pub taken : Option BufferEntry → Option BufferEntry
taken none = some (BufferEntry.locked none)
taken (some (BufferEntry.cached v)) = some (BufferEntry.locked (some v))
taken (some e) = some e

abbrev pub freed : Option BufferEntry → Option BufferEntry
freed (some (BufferEntry.locked none)) = none
freed (some (BufferEntry.locked (some v))) = some (BufferEntry.cached v)
freed e = e

taken-taken : (e : Option BufferEntry) → taken (taken e) ≡ taken e
taken-taken none = refl
taken-taken (some (BufferEntry.cached v)) = refl
taken-taken (some (BufferEntry.locked v)) = refl
taken-taken (some (BufferEntry.put v)) = refl
taken-taken (some BufferEntry.del) = refl
taken-taken (some (BufferEntry.insert v)) = refl
taken-taken (some BufferEntry.check_not_exist) = refl

freed-freed : (e : Option BufferEntry) → freed (freed e) ≡ freed e
freed-freed none = refl
freed-freed (some (BufferEntry.locked none)) = refl
freed-freed (some (BufferEntry.locked (some v))) = refl
freed-freed (some (BufferEntry.cached v)) = refl
freed-freed (some (BufferEntry.put v)) = refl
freed-freed (some BufferEntry.del) = refl
freed-freed (some (BufferEntry.insert v)) = refl
freed-freed (some BufferEntry.check_not_exist) = refl

abbrev pub among : Key → List Key → Bool
among j [] = false
among j (k ∷ ks) = eqb j k || among j ks

-- One entry is changed by `f`.
module _ (f : Option BufferEntry → Option BufferEntry) (b : Buffer) (k j : Key) where
  abbrev Changed : Option BufferEntry → Type 0
  Changed o = o ≡ (if eqb j k then f (OrdMap.get j b.entry_map) else OrdMap.get j b.entry_map)

  changed :
      (o : Option BufferEntry)
      → f (OrdMap.get k b.entry_map) ≡ o
      → Changed (if eqb j k then o else OrdMap.get j b.entry_map)
  changed o h = ground (arith, h, eqb_iff j k, ap (λ i. f (OrdMap.get i b.entry_map)))

  unchanged :
      f (OrdMap.get k b.entry_map) ≡ OrdMap.get k b.entry_map → Changed (OrdMap.get j b.entry_map)
  unchanged h =
      if-elim (λ o. OrdMap.get j b.entry_map ≡ o) (eqb j k) _ _
        (λ e. sym (
          subst (λ i. f (OrdMap.get i b.entry_map) ≡ OrdMap.get i b.entry_map)
            (sym ((eqb_iff j k).0 e)) h))
        (λ e. refl)

  stored :
      (e : BufferEntry)
      → f (OrdMap.get k b.entry_map) ≡ some e
      → Changed (OrdMap.get j (OrdMap.insert k e b.entry_map))
  stored e h = OrdMap.get-insert k j e b.entry_map ∙ changed (some e) h

  removed :
      f (OrdMap.get k b.entry_map) ≡ none → Changed (OrdMap.get j (OrdMap.remove k b.entry_map))
  removed h = OrdMap.get-remove k j b.entry_map ∙ changed none h

unlock-entry :
    (b : Buffer) (k j : Key) → Changed freed b k j (OrdMap.get j (Buffer.unlock b k).entry_map)
unfolding Buffer.unlock
unlock-entry b k j = go (OrdMap.get k b.entry_map) refl
  where
    go :
        (o : Option BufferEntry)
        → OrdMap.get k b.entry_map ≡ o
        → Changed freed b k j (OrdMap.get j (Buffer.unlock b k).entry_map)
    go (some (BufferEntry.locked (some v))) e =
        rw (e, Buffer.unlock) (stored freed b k j (BufferEntry.cached v) (ap freed e))
    go (some (BufferEntry.locked none)) e = rw (e, Buffer.unlock) (removed freed b k j (ap freed e))
    go none e = rw (e, Buffer.unlock) (unchanged freed b k j (ap freed e ∙ sym e))
    go (some (BufferEntry.cached v)) e =
        rw (e, Buffer.unlock) (unchanged freed b k j (ap freed e ∙ sym e))
    go (some (BufferEntry.put v)) e =
        rw (e, Buffer.unlock) (unchanged freed b k j (ap freed e ∙ sym e))
    go (some BufferEntry.del) e = rw (e, Buffer.unlock) (unchanged freed b k j (ap freed e ∙ sym e))
    go (some (BufferEntry.insert v)) e =
        rw (e, Buffer.unlock) (unchanged freed b k j (ap freed e ∙ sym e))
    go (some BufferEntry.check_not_exist) e =
        rw (e, Buffer.unlock) (unchanged freed b k j (ap freed e ∙ sym e))

lock-entry :
    (b : Buffer) (k j : Key) → Changed taken b k j (OrdMap.get j (Buffer.lock b k).entry_map)
unfolding Buffer.lock primary_key_or
lock-entry b k j = go (OrdMap.get k b.entry_map) refl
  where
    go :
        (o : Option BufferEntry)
        → OrdMap.get k b.entry_map ≡ o
        → Changed taken b k j (OrdMap.get j (Buffer.lock b k).entry_map)
    go none e = rw (e, Buffer.lock) (stored taken b k j (BufferEntry.locked none) (ap taken e))
    go (some (BufferEntry.cached v)) e =
        rw (e, Buffer.lock) (stored taken b k j (BufferEntry.locked (some v)) (ap taken e))
    go (some (BufferEntry.locked v)) e =
        rw (e, Buffer.lock) (unchanged taken b k j (ap taken e ∙ sym e))
    go (some (BufferEntry.put v)) e =
        rw (e, Buffer.lock) (unchanged taken b k j (ap taken e ∙ sym e))
    go (some BufferEntry.del) e = rw (e, Buffer.lock) (unchanged taken b k j (ap taken e ∙ sym e))
    go (some (BufferEntry.insert v)) e =
        rw (e, Buffer.lock) (unchanged taken b k j (ap taken e ∙ sym e))
    go (some BufferEntry.check_not_exist) e =
        rw (e, Buffer.lock) (unchanged taken b k j (ap taken e ∙ sym e))

-- A change that is made twice is made once.
twice :
    (f : Option BufferEntry → Option BufferEntry)
    → ((e : Option BufferEntry) → f (f e) ≡ f e)
    → (x y : Bool) (e : Option BufferEntry)
    → (if y then f (if x then f e else e) else (if x then f e else e)) ≡ (if x || y then f e else e)
twice f h true true e = h e
twice f h true false e = refl
twice f h false true e = refl
twice f h false false e = refl

pub unlock_all-entry :
    (ks : List Key) (b : Buffer) (j : Key)
    → OrdMap.get j (unlock_all b ks).entry_map
      ≡ (if among j ks then freed (OrdMap.get j b.entry_map) else OrdMap.get j b.entry_map)
unfolding unlock_all
unlock_all-entry [] b j = refl
unlock_all-entry (k ∷ ks) b j =
    unlock_all-entry ks (Buffer.unlock b k) j
    ∙ ap (λ e. if among j ks then freed e else e) (unlock-entry b k j)
    ∙ twice freed freed-freed (eqb j k) (among j ks) (OrdMap.get j b.entry_map)

pub lock_all-entry :
    (ls : List (Key × Assertion)) (b : Buffer) (j : Key)
    → OrdMap.get j (lock_all b ls).entry_map ≡ (
        if among j (map (λ l. l.0) ls)
        then taken (OrdMap.get j b.entry_map)
        else OrdMap.get j b.entry_map)
unfolding lock_all
lock_all-entry [] b j = refl
lock_all-entry ((k, a) ∷ ls) b j =
    lock_all-entry ls (Buffer.lock b k) j
    ∙ ap (λ e. if among j (map (λ l. l.0) ls) then taken e else e) (lock-entry b k j)
    ∙ twice taken taken-taken (eqb j k) (among j (map (λ l. l.0) ls)) (OrdMap.get j b.entry_map)

-- Unlocking changes nothing but the entries, and locking nothing else once there is a primary key.
abbrev pub OnlyEntries : Buffer → Buffer → Type 0
OnlyEntries b c = c ≡ record b { entry_map = c.entry_map }

OnlyEntries-trans : (b c d : Buffer) → OnlyEntries b c → OnlyEntries c d → OnlyEntries b d
OnlyEntries-trans b c d p q = q ∙ ap (λ (x : Buffer). record x { entry_map = d.entry_map }) p

unlock-OnlyEntries : (b : Buffer) (k : Key) → OnlyEntries b (Buffer.unlock b k)
unfolding Buffer.unlock
unlock-OnlyEntries b k = go (OrdMap.get k b.entry_map) refl
  where
    go : (o : Option BufferEntry) → OrdMap.get k b.entry_map ≡ o → OnlyEntries b (Buffer.unlock b k)
    go (some (BufferEntry.locked (some v))) e = rw (e, Buffer.unlock)
    go (some (BufferEntry.locked none)) e = rw (e, Buffer.unlock)
    go none e = rw (e, Buffer.unlock)
    go (some (BufferEntry.cached v)) e = rw (e, Buffer.unlock)
    go (some (BufferEntry.put v)) e = rw (e, Buffer.unlock)
    go (some BufferEntry.del) e = rw (e, Buffer.unlock)
    go (some (BufferEntry.insert v)) e = rw (e, Buffer.unlock)
    go (some BufferEntry.check_not_exist) e = rw (e, Buffer.unlock)

pub unlock_all-OnlyEntries : (ks : List Key) (b : Buffer) → OnlyEntries b (unlock_all b ks)
unfolding unlock_all
unlock_all-OnlyEntries [] b = refl
unlock_all-OnlyEntries (k ∷ ks) b =
    OnlyEntries-trans b (Buffer.unlock b k) (unlock_all (Buffer.unlock b k) ks)
      (unlock-OnlyEntries b k) (unlock_all-OnlyEntries ks (Buffer.unlock b k))

lock-OnlyEntries :
    (b : Buffer) (k p : Key) → b.primary_key ≡ some p → OnlyEntries b (Buffer.lock b k)
unfolding Buffer.lock primary_key_or
lock-OnlyEntries b k p h = go (OrdMap.get k b.entry_map) refl
  where
    known : or_key b.primary_key k ≡ b.primary_key
    known = ap (λ o. or_key o k) h ∙ sym h

    here :
        (m : OrdMap Key BufferEntry) → OnlyEntries b (record (primary_key_or b k) { entry_map = m })
    here m = ap (λ o. record b { primary_key = o; entry_map = m }) known

    go : (o : Option BufferEntry) → OrdMap.get k b.entry_map ≡ o → OnlyEntries b (Buffer.lock b k)
    go none e = rw (e, Buffer.lock) (here _)
    go (some (BufferEntry.cached v)) e = rw (e, Buffer.lock) (here _)
    go (some (BufferEntry.locked v)) e = rw (e, Buffer.lock) (here _)
    go (some (BufferEntry.put v)) e = rw (e, Buffer.lock) (here _)
    go (some BufferEntry.del) e = rw (e, Buffer.lock) (here _)
    go (some (BufferEntry.insert v)) e = rw (e, Buffer.lock) (here _)
    go (some BufferEntry.check_not_exist) e = rw (e, Buffer.lock) (here _)

pub lock_all-OnlyEntries :
    (ls : List (Key × Assertion)) (b : Buffer) (p : Key)
    → b.primary_key ≡ some p
    → OnlyEntries b (lock_all b ls)
unfolding lock_all
lock_all-OnlyEntries [] b p h = refl
lock_all-OnlyEntries ((k, a) ∷ ls) b p h =
    let one = lock-OnlyEntries b k p h in
    OnlyEntries-trans b (Buffer.lock b k) (lock_all (Buffer.lock b k) ls) one
      (lock_all-OnlyEntries ls (Buffer.lock b k) p (ap (λ (x : Buffer). x.primary_key) one ∙ h))
