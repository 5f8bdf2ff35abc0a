-- ===== src/Codec/Stream.antt =====
-- The encoding as a stream with a position in the group, and the order of encoded keys.
use rust_tikv_client.Prelude.{
  ℕ, zero, suc, ◌+◌, ◌-◌, ◌≤◌, ◌<◌, ◌≡◌, refl, sym, ap, ◌∙◌, true, false, List, [], ◌∷◌, ◌++◌,
  arith, length, replicate, leb,
}
use Prim.Native.Nat.Ordering.{lt}
use rust_tikv_client.Order.{cmp_bytes, cmp_bytes-flip, cmp_bytes-eq, flip}
use rust_tikv_client.Codec.{encode_bytes, encode_loop, adjust_bytes_order, to_encoded, pad_of}

-- `pad` bytes are still to come in the group.
abbrev pub stream : ℕ → List ℕ → List ℕ
stream zero [] = 255 ∷ 0 ∷ 0 ∷ 0 ∷ 0 ∷ 0 ∷ 0 ∷ 0 ∷ 0 ∷ 247 ∷ []
stream zero (b ∷ k) = 255 ∷ b ∷ stream 7 k
stream (suc pad) [] = replicate (suc pad) 0 ++ (255 - suc pad) ∷ []
stream (suc pad) (b ∷ k) = b ∷ stream pad k

stream_zero : (k : List ℕ) → stream 0 k ≡ 255 ∷ stream 8 k
stream_zero [] = refl
stream_zero (b ∷ k) = refl

zeros_mono :
    (pad t u : ℕ) → t < u → cmp_bytes (replicate pad 0 ++ t ∷ []) (replicate pad 0 ++ u ∷ []) ≡ lt
zeros_mono zero t u h = ground arith
zeros_mono (suc pad) t u h = zeros_mono pad t u h

-- Against a shorter key: its zeros and its marker lie below any continuation.
zeros_before :
    (pad t : ℕ) (k : List ℕ)
    → t + pad < 255
    → cmp_bytes (replicate pad 0 ++ t ∷ []) (stream pad k) ≡ lt
zeros_before zero t [] h = ground arith
zeros_before zero t (b ∷ k) h = ground arith
zeros_before (suc pad) t [] h = zeros_mono pad t (255 - suc pad) (omega arith)
zeros_before (suc pad) t (b ∷ k) h = ground (arith, zeros_before pad t k)

nil_order : (pad b : ℕ) (k : List ℕ) → pad ≤ 8 → cmp_bytes (stream pad []) (stream pad (b ∷ k)) ≡ lt
nil_order zero b k h = ground (arith, zeros_before 7 247 k (omega arith))
nil_order (suc pad) b k h = ground (arith, zeros_before pad (255 - suc pad) k)

stream_order :
    (pad : ℕ) (a b : List ℕ) → pad ≤ 8 → cmp_bytes (stream pad a) (stream pad b) ≡ cmp_bytes a b
stream_order pad [] [] h = (cmp_bytes-eq (stream pad []) (stream pad [])).1 refl
stream_order pad [] (b ∷ l) h = nil_order pad b l h
stream_order pad (a ∷ k) [] h =
    cmp_bytes-flip (stream pad []) (stream pad (a ∷ k)) ∙ ap flip (nil_order pad a k h)
stream_order zero (a ∷ k) (b ∷ l) h = ground (arith, stream_order 7 k l)
stream_order (suc pad) (a ∷ k) (b ∷ l) h = ground (arith, stream_order pad k l)

encode_loop-stream :
    (fuel : ℕ) (k : List ℕ) → length k < fuel → encode_loop fuel false k ≡ stream 8 k
unfolding encode_loop adjust_bytes_order
encode_loop-stream zero k h = elim h [ ]
encode_loop-stream (suc f) [] h = refl
encode_loop-stream (suc f) (a ∷ []) h = refl
encode_loop-stream (suc f) (a ∷ b ∷ []) h = refl
encode_loop-stream (suc f) (a ∷ b ∷ c ∷ []) h = refl
encode_loop-stream (suc f) (a ∷ b ∷ c ∷ d ∷ []) h = refl
encode_loop-stream (suc f) (a ∷ b ∷ c ∷ d ∷ e ∷ []) h = refl
encode_loop-stream (suc f) (a ∷ b ∷ c ∷ d ∷ e ∷ g ∷ []) h = refl
encode_loop-stream (suc f) (a ∷ b ∷ c ∷ d ∷ e ∷ g ∷ i ∷ []) h = refl
encode_loop-stream (suc f) (a ∷ b ∷ c ∷ d ∷ e ∷ g ∷ i ∷ j ∷ k) h =
    let n = length (a ∷ b ∷ c ∷ d ∷ e ∷ g ∷ i ∷ j ∷ k) in
    let full : pad_of n ≡ 0 = ground arith in
    let more : leb 8 n ≡ true = ground arith in
    rw (full, more)
      (ap (λ x. a ∷ b ∷ c ∷ d ∷ e ∷ g ∷ i ∷ j ∷ x)
        (ap (◌∷◌ 255) (encode_loop-stream f k (omega arith)) ∙ sym (stream_zero k)))

encode_bytes-stream : (k : List ℕ) → to_encoded k ≡ stream 8 k
unfolding to_encoded encode_bytes
encode_bytes-stream k = encode_loop-stream (suc (length k)) k (omega arith)

-- The encoding keeps the order of the keys: encoded keys compare as the keys do.
pub cmp_bytes-to_encoded : (a b : List ℕ) → cmp_bytes (to_encoded a) (to_encoded b) ≡ cmp_bytes a b
cmp_bytes-to_encoded a b =
    rw (encode_bytes-stream a, encode_bytes-stream b) (stream_order 8 a b (omega arith))
