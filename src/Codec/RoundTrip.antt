-- ===== src/Codec/RoundTrip.antt =====
-- Decoding returns the key that was encoded, whatever follows its last group, and never runs out
-- of fuel.
use rust_tikv_client.Prelude.{
  ℕ, zero, suc, ◌+◌, ◌-◌, ◌<◌, ◌≡◌, ◌≢◌, refl, ap, ◌∙◌, Bool, true, false, List, [], ◌∷◌, ◌++◌, map,
  arith, length, leb, take, drop, All, length-append, length-drop, length-take, length-replicate,
  tests, min, Bool-cases, inl, inr,
}
use mathlib.Core.List.{append_assoc}
use rust_tikv_client.Order.{bytes_ord}
use rust_tikv_client.Codec.{
  encode_bytes, encode_loop, adjust_bytes_order, pad_of, ok, err, out_of_fuel, decode_loop,
  decode_bytes_in_place, padding, invert, max_encoded_bytes_size, encode_group,
}

-- The loop of the decoder ends by a test: each round drops nine bytes.
decode_loop-ne-out_of_fuel :
    (fuel : ℕ) (desc : Bool) (written rest : List ℕ)
    → length rest < fuel
    → decode_loop fuel desc written rest ≢ err out_of_fuel
unfolding decode_loop
decode_loop-ne-out_of_fuel zero desc written rest h = elim h [ ]
decode_loop-ne-out_of_fuel (suc fuel) desc written rest h = ground (
  arith,
  length-drop 9 rest,
  length-drop 8 rest,
  decode_loop-ne-out_of_fuel fuel desc (written ++ take 8 rest) (drop 9 rest),
)

-- The decoder always stops at a marker or at the end of its input.
pub decode_bytes_in_place-total :
    (bytes : List ℕ) (desc : Bool) → decode_bytes_in_place bytes desc ≢ err out_of_fuel
unfolding decode_bytes_in_place
decode_bytes_in_place-total [] desc = λ e. cc
decode_bytes_in_place-total (b ∷ bs) desc =
    decode_loop-ne-out_of_fuel (suc (length (b ∷ bs))) desc [] (b ∷ bs) (omega arith)

pad-take : (rest : List ℕ) → pad_of (length rest) + min 8 (length rest) ≡ 8
pad-take rest = ground arith

length-adjust_bytes_order :
    (bs : List ℕ) (desc : Bool) → length (adjust_bytes_order bs desc) ≡ length bs
unfolding adjust_bytes_order
length-adjust_bytes_order bs false = refl
length-adjust_bytes_order [] true = refl
length-adjust_bytes_order (b ∷ bs) true = ap suc (length-adjust_bytes_order bs true)

length-padding : (desc : Bool) (pad : ℕ) → length (padding desc pad) ≡ pad
length-padding false pad = length-replicate pad 0
length-padding true pad = length-replicate pad 255

length-encode_group : (desc : Bool) (rest : List ℕ) → length (encode_group desc rest) ≡ 9
length-encode_group desc rest =
    let pad = pad_of (length rest) in
    let first = adjust_bytes_order (take 8 rest) desc in
    let last = adjust_bytes_order ((255 - pad) ∷ []) desc in
    omega (
      arith,
      length-append first (padding desc pad ++ last),
      length-append (padding desc pad) last,
      length-adjust_bytes_order (take 8 rest) desc,
      length-adjust_bytes_order ((255 - pad) ∷ []) desc,
      length-padding desc pad,
      length-take 8 rest,
      pad-take rest,
    )

-- The length of an encoding is the one that `to_encoded` reserves.
length-encode_loop :
    (fuel : ℕ) (desc : Bool) (k : List ℕ)
    → length k < fuel
    → length (encode_loop fuel desc k) ≡ max_encoded_bytes_size (length k)
unfolding encode_loop max_encoded_bytes_size
length-encode_loop zero desc k h = elim h [ ]
length-encode_loop (suc f) desc k h = elim (Bool-cases (leb 8 (length k))) [
  | inl e ↦ rw e (
      omega (
        tests,
        e,
        length-append (encode_group desc k) (encode_loop f desc (drop 8 k)),
        length-encode_group desc k,
        length-drop 8 k,
        length-encode_loop f desc (drop 8 k) (omega (tests, e, length-drop 8 k)),
      ))
  | inr e ↦
      let small : length k < 8 = ground arith in
      rw e (omega (arith, length-append (encode_group desc k) [], length-encode_group desc k))
]

decode_loop-encode_loop :
    (f g : ℕ) (desc : Bool) (w k tail : List ℕ)
    → length k < f
    → length k < g
    → decode_loop f desc w (encode_loop g desc k ++ tail)
      ≡ ok (adjust_bytes_order (w ++ adjust_bytes_order k desc) desc)
unfolding decode_loop encode_loop adjust_bytes_order
decode_loop-encode_loop zero g desc w k tail p q = elim p [ ]
decode_loop-encode_loop (suc f) zero desc w k tail p q = elim q [ ]
decode_loop-encode_loop (suc f) (suc g) false w [] tail p q = refl
decode_loop-encode_loop (suc f) (suc g) false w (a ∷ []) tail p q = refl
decode_loop-encode_loop (suc f) (suc g) false w (a ∷ b ∷ []) tail p q = refl
decode_loop-encode_loop (suc f) (suc g) false w (a ∷ b ∷ c ∷ []) tail p q = refl
decode_loop-encode_loop (suc f) (suc g) false w (a ∷ b ∷ c ∷ d ∷ []) tail p q = refl
decode_loop-encode_loop (suc f) (suc g) false w (a ∷ b ∷ c ∷ d ∷ e ∷ []) tail p q = refl
decode_loop-encode_loop (suc f) (suc g) false w (a ∷ b ∷ c ∷ d ∷ e ∷ m ∷ []) tail p q = refl
decode_loop-encode_loop (suc f) (suc g) false w (a ∷ b ∷ c ∷ d ∷ e ∷ m ∷ i ∷ []) tail p q = refl
decode_loop-encode_loop (suc f) (suc g) false w (a ∷ b ∷ c ∷ d ∷ e ∷ m ∷ i ∷ j ∷ k) tail p q =
    let n = length (a ∷ b ∷ c ∷ d ∷ e ∷ m ∷ i ∷ j ∷ k) in
    let full : pad_of n ≡ 0 = ground arith in
    let more : leb 8 n ≡ true = ground arith in
    rw (full, more)
      (decode_loop-encode_loop f g false
          (w ++ adjust_bytes_order (a ∷ b ∷ c ∷ d ∷ e ∷ m ∷ i ∷ j ∷ []) false) k tail (omega arith)
          (omega arith)
        ∙ ap ok (
            ap (λ x. adjust_bytes_order x false)
              (append_assoc w (adjust_bytes_order (a ∷ b ∷ c ∷ d ∷ e ∷ m ∷ i ∷ j ∷ []) false)
                (adjust_bytes_order k false))))
decode_loop-encode_loop (suc f) (suc g) true w [] tail p q = refl
decode_loop-encode_loop (suc f) (suc g) true w (a ∷ []) tail p q = refl
decode_loop-encode_loop (suc f) (suc g) true w (a ∷ b ∷ []) tail p q = refl
decode_loop-encode_loop (suc f) (suc g) true w (a ∷ b ∷ c ∷ []) tail p q = refl
decode_loop-encode_loop (suc f) (suc g) true w (a ∷ b ∷ c ∷ d ∷ []) tail p q = refl
decode_loop-encode_loop (suc f) (suc g) true w (a ∷ b ∷ c ∷ d ∷ e ∷ []) tail p q = refl
decode_loop-encode_loop (suc f) (suc g) true w (a ∷ b ∷ c ∷ d ∷ e ∷ m ∷ []) tail p q = refl
decode_loop-encode_loop (suc f) (suc g) true w (a ∷ b ∷ c ∷ d ∷ e ∷ m ∷ i ∷ []) tail p q = refl
decode_loop-encode_loop (suc f) (suc g) true w (a ∷ b ∷ c ∷ d ∷ e ∷ m ∷ i ∷ j ∷ k) tail p q =
    let n = length (a ∷ b ∷ c ∷ d ∷ e ∷ m ∷ i ∷ j ∷ k) in
    let full : pad_of n ≡ 0 = ground arith in
    let more : leb 8 n ≡ true = ground arith in
    rw (full, more)
      (decode_loop-encode_loop f g true
          (w ++ adjust_bytes_order (a ∷ b ∷ c ∷ d ∷ e ∷ m ∷ i ∷ j ∷ []) true) k tail (omega arith)
          (omega arith)
        ∙ ap ok (
            ap (λ x. adjust_bytes_order x true)
              (append_assoc w (adjust_bytes_order (a ∷ b ∷ c ∷ d ∷ e ∷ m ∷ i ∷ j ∷ []) true)
                (adjust_bytes_order k true))))

invert_twice : (k : List ℕ) → All (λ b. b < 256) k → map invert (map invert k) ≡ k
invert_twice [] h = refl
invert_twice (b ∷ k) h = ground (arith, invert_twice k h.1)

adjust_twice :
    (k : List ℕ) (desc : Bool)
    → All (λ b. b < 256) k
    → adjust_bytes_order (adjust_bytes_order k desc) desc ≡ k
unfolding adjust_bytes_order
adjust_twice k false h = refl
adjust_twice k true h = invert_twice k h

decode_nonempty :
    (bytes : List ℕ) (desc : Bool)
    → 0 < length bytes
    → decode_bytes_in_place bytes desc ≡ decode_loop (suc (length bytes)) desc [] bytes
unfolding decode_bytes_in_place
decode_nonempty [] desc h = elim h [ ]
decode_nonempty (b ∷ bs) desc h = refl

-- The length of an encoding is the one that `max_encoded_bytes_size` reserves for it.
pub length-encode_bytes :
    (k : List ℕ) (desc : Bool) → length (encode_bytes k desc) ≡ max_encoded_bytes_size (length k)
unfolding encode_bytes
length-encode_bytes k desc = length-encode_loop (suc (length k)) desc k (omega arith)

-- A key of bytes, encoded in either order and followed by anything, decodes to itself.
pub decode_bytes-encode_bytes :
    (k tail : List ℕ) (desc : Bool)
    → All (λ b. b < 256) k
    → decode_bytes_in_place (encode_bytes k desc ++ tail) desc ≡ ok k
unfolding encode_bytes max_encoded_bytes_size
decode_bytes-encode_bytes k tail desc h =
    let bs = encode_bytes k desc ++ tail in
    let long = length-encode_bytes k desc in
    let whole = length-append (encode_bytes k desc) tail in
    decode_nonempty bs desc (omega (arith, long, whole))
    ∙ decode_loop-encode_loop (suc (length bs)) (suc (length k)) desc [] k tail
        (omega (arith, long, whole)) (omega arith)
    ∙ ap ok (adjust_twice k desc h)
