-- ===== src/Range/Scan.antt =====
-- A range and its request form select the same keys.
use rust_tikv_client.Prelude.{
  ℕ, ◌≡◌, refl, ap, ◌∙◌, sym, ◌≢◌, Bool, true, false, ◌&&◌, Option, none, some, [], ◌∷◌, arith,
  if◌then◌else◌, inl, inr, Bool-cases,
}
use rust_tikv_client.Order.{before, upto, bytes_ord}
use rust_tikv_client.Key.{
  Key, Bound, included, excluded, unbounded, is_empty, next_key, into_lower_bound, into_upper_bound,
  zero_terminated, pop,
}
use rust_tikv_client.Key.Successor.{upto-next_key, before-next_key, next_key-pop}
use rust_tikv_client.Range.{
  BoundRange, KeyRange, into_keys, contains, start_of, end_of, above_bound, below_bound,
  open_if_empty, to_key_range, from_key_range, from_start_and_end, or_empty,
}

-- What a server reads in a request: from the start, below the end; an empty or missing end is +∞.
abbrev pub end_admits : Key → Key → Bool
end_admits e k = if is_empty e then true else before k e

abbrev pub scan_admits : Key × Option Key → Key → Bool
scan_admits (s, none) k = upto s k
scan_admits (s, some e) k = upto s k && end_admits e k

upto_empty : (k : Key) → upto [] k ≡ true
upto_empty [] = refl
upto_empty (b ∷ k) = refl

start_of-above : (b : Bound Key) (k : Key) → upto (start_of b) k ≡ above_bound b k
start_of-above (included v) k = refl
start_of-above (excluded v) k = upto-next_key v k
start_of-above unbounded k = upto_empty k

is_empty-next_key : (v : Key) → is_empty (next_key v) ≡ false
unfolding next_key
is_empty-next_key [] = refl
is_empty-next_key (b ∷ v) = refl

end_included :
    (v k : Key) → v ≢ [] → end_admits (next_key v) k ≡ below_bound (open_if_empty (included v)) k
end_included [] k n = absurd (n refl)
end_included (b ∷ v) k n = rw (is_empty-next_key (b ∷ v)) (before-next_key (b ∷ v) k)

end_excluded : (v k : Key) → end_admits v k ≡ below_bound (open_if_empty (excluded v)) k
end_excluded [] k = refl
end_excluded (b ∷ v) k = refl

-- A request for the keys of a range reads exactly the keys of the range, unless its upper bound
-- is the empty key, included.
pub into_keys-contains :
    (r : BoundRange) (k : Key) → r.to ≢ included [] → scan_admits (into_keys r) k ≡ contains r k
unfolding into_keys contains
into_keys-contains r k n = go r.to n
  where
    go :
        (t : Bound Key)
        → t ≢ included []
        → scan_admits (start_of r.from, end_of t) k
          ≡ (above_bound r.from k && below_bound (open_if_empty t) k)
    go (included v) m = rw (start_of-above r.from k, end_included v k (λ e. m (ap included e)))
    go (excluded v) m = rw (start_of-above r.from k, end_excluded v k)
    go unbounded m = rw (start_of-above r.from k) (ground arith)

-- A bound made from a key of a request selects what the request does.
lower_bound-above : (s k : Key) → above_bound (into_lower_bound s) k ≡ upto s k
unfolding into_lower_bound
lower_bound-above s k = elim (Bool-cases (zero_terminated s)) [
  | inl e ↦ rw e (sym (upto-next_key (pop s) k) ∙ ap (λ x. upto x k) (next_key-pop s e))
  | inr e ↦ rw e
]

upper_bound-below : (e k : Key) → below_bound (into_upper_bound e) k ≡ before k e
unfolding into_upper_bound
upper_bound-below s k = elim (Bool-cases (zero_terminated s)) [
  | inl e ↦ rw e (sym (before-next_key (pop s) k) ∙ ap (λ x. before k x) (next_key-pop s e))
  | inr e ↦ rw e
]

-- A request's key range, read back as a `BoundRange`, asks for the same scan.
pub into_keys-from_start_and_end :
    (s : Key) (e : Option Key) → into_keys (from_start_and_end s e) ≡ (s, e)
unfolding into_keys from_start_and_end into_lower_bound into_upper_bound
into_keys-from_start_and_end s none = elim (Bool-cases (zero_terminated s)) [
  | inl h ↦ rw h (rw (next_key-pop s h))
  | inr h ↦ rw h
]
into_keys-from_start_and_end s (some e) = elim (Bool-cases (zero_terminated s)) [
  | inl h ↦ elim (Bool-cases (zero_terminated e)) [
    | inl g ↦ rw (h, g) (rw (next_key-pop s h) (rw (next_key-pop e g)))
    | inr g ↦ rw (h, g) (rw (next_key-pop s h))
  ]
  | inr h ↦ elim (Bool-cases (zero_terminated e)) [
    | inl g ↦ rw (h, g) (rw (next_key-pop e g))
    | inr g ↦ rw (h, g)
  ]
]

abbrev pub key_range_admits : KeyRange → Key → Bool
key_range_admits q k = upto q.start_key k && end_admits q.end_key k

-- The conversion to a request's `KeyRange` keeps the keys of the range.
pub to_key_range-contains :
    (r : BoundRange) (k : Key)
    → r.to ≢ included []
    → key_range_admits (to_key_range r) k ≡ contains r k
unfolding to_key_range contains
to_key_range-contains r k n = go r.to n
  where
    go :
        (t : Bound Key)
        → t ≢ included []
        → (upto (start_of r.from) k && end_admits (or_empty (end_of t)) k)
          ≡ (above_bound r.from k && below_bound (open_if_empty t) k)
    go (included v) m = rw (start_of-above r.from k, end_included v k (λ e. m (ap included e)))
    go (excluded v) m = rw (start_of-above r.from k, end_excluded v k)
    go unbounded m = rw (start_of-above r.from k)

upper_bound-open :
    (e k : Key) → e ≢ 0 ∷ [] → below_bound (open_if_empty (into_upper_bound e)) k ≡ end_admits e k
unfolding into_upper_bound zero_terminated
upper_bound-open [] k n = refl
upper_bound-open (b ∷ []) k n = ground (arith, upper_bound-below (b ∷ []) k)
upper_bound-open (b ∷ c ∷ e) k n = elim (Bool-cases (zero_terminated (c ∷ e))) [
  | inl h ↦ ground (arith, upper_bound-below (b ∷ c ∷ e) k)
  | inr h ↦ ground (arith, upper_bound-below (b ∷ c ∷ e) k)
]

-- The conversion from a request's `KeyRange` keeps the keys that it reads, unless its end is the
-- one byte 0.
pub from_key_range-contains :
    (q : KeyRange) (k : Key)
    → q.end_key ≢ 0 ∷ []
    → contains (from_key_range q) k ≡ key_range_admits q k
unfolding contains from_key_range
from_key_range-contains q k n = rw (lower_bound-above q.start_key k, upper_bound-open q.end_key k n)

-- With the empty key as included upper bound the range is open above for a `BTreeMap`, and a
-- request for it reads no key but the empty one.
pub included_empty_end :
    (f : Bound Key) (b : ℕ) (k : Key)
    → above_bound f (b ∷ k) ≡ true
    → let r : BoundRange = record { from = f; to = included [] } in
      (contains r (b ∷ k) ≡ true) × (scan_admits (into_keys r) (b ∷ k) ≡ false)
unfolding contains into_keys
included_empty_end f b k h =
    (rw h, rw (start_of-above f (b ∷ k), h, is_empty-next_key [], before-next_key [] (b ∷ k)))
