-- ===== src/Key/Successor.antt =====
-- `next_key` is the immediate successor of a key, and a bound made from a key with a final zero
-- speaks of the key before it.
use rust_tikv_client.Prelude.{◌≡◌, refl, ap, true, [], ◌∷◌, arith}
use rust_tikv_client.Order.{before, upto, bytes_ord}
use rust_tikv_client.Key.{Key, pop, next_key, zero_terminated}

-- No key lies strictly between `k` and `next_key k`.
pub upto-next_key : (k j : Key) → upto (next_key k) j ≡ before k j
unfolding next_key
upto-next_key [] [] = refl
upto-next_key [] (b ∷ j) = ground arith
upto-next_key (a ∷ k) [] = refl
upto-next_key (a ∷ k) (b ∷ j) = ground (arith, upto-next_key k j)

pub before-next_key : (k j : Key) → before j (next_key k) ≡ upto j k
unfolding next_key
before-next_key [] [] = refl
before-next_key [] (b ∷ []) = ground arith
before-next_key [] (b ∷ c ∷ j) = ground arith
before-next_key (a ∷ k) [] = refl
before-next_key (a ∷ k) (b ∷ j) = ground (arith, before-next_key k j)

pub zero_terminated-next_key : (k : Key) → zero_terminated (next_key k) ≡ true
unfolding zero_terminated next_key
zero_terminated-next_key [] = refl
zero_terminated-next_key (a ∷ []) = refl
zero_terminated-next_key (a ∷ b ∷ k) = zero_terminated-next_key (b ∷ k)

pub pop-next_key : (k : Key) → pop (next_key k) ≡ k
unfolding next_key
pop-next_key [] = refl
pop-next_key (a ∷ []) = refl
pop-next_key (a ∷ b ∷ k) = ap (◌∷◌ a) (pop-next_key (b ∷ k))

pub next_key-pop : (k : Key) → zero_terminated k ≡ true → next_key (pop k) ≡ k
unfolding zero_terminated next_key
next_key-pop [] h = cc
next_key-pop (a ∷ []) h = ground arith
next_key-pop (a ∷ b ∷ k) h = ap (◌∷◌ a) (next_key-pop (b ∷ k) h)
