-- ===== src/Codec.antt =====
-- src/kv/codec.rs: the memcomparable encoding of byte strings, in groups of eight bytes with a
-- marker byte after each. A key is decoded in place: what the buffer holds after an error is not
-- part of the model.
pub mod Stream
pub mod RoundTrip
mod Tests
use rust_tikv_client.Prelude.{
  ℕ, zero, suc, ◌+◌, ◌-◌, ◌*◌, ◌/◌, Bool, true, false, Option, none, some, List, [], ◌∷◌, ◌++◌, map,
  ◌==◌, ltb, leb, if◌then◌else◌, length, take, drop, replicate, not,
}
use rust_tikv_client.Order.{bytes_ord, eqb}
use rust_tikv_client.Key.{Key}

abbrev pub enc_group_size : ℕ
enc_group_size = 8

abbrev pub enc_marker : ℕ
enc_marker = 255

unfoldable pub max_encoded_bytes_size : ℕ → ℕ
max_encoded_bytes_size n = (n / enc_group_size + 1) * (enc_group_size + 1)

-- `!b` on a byte.
abbrev pub invert : ℕ → ℕ
invert b = 255 - b

unfoldable pub adjust_bytes_order : List ℕ → Bool → List ℕ
adjust_bytes_order bs true = map invert bs
adjust_bytes_order bs false = bs

-- `ENC_DESC_PADDING[..pad]` and `ENC_ASC_PADDING[..pad]`
abbrev pub padding : Bool → ℕ → List ℕ
padding true pad = replicate pad 255
padding false pad = replicate pad 0

abbrev pub pad_of : ℕ → ℕ
pad_of remain = if ltb enc_group_size remain then 0 else enc_group_size - remain

-- One round of the loop, at the rest of the key.
abbrev pub encode_group : Bool → List ℕ → List ℕ
encode_group desc rest =
    let pad = pad_of (length rest) in
    adjust_bytes_order (take enc_group_size rest) desc
    ++ (padding desc pad ++ adjust_bytes_order ((enc_marker - pad) ∷ []) desc)

-- `while index <= len`, over the rest of the key: a further round if eight bytes are left.
encode_loop : ℕ → Bool → List ℕ → List ℕ
encode_loop zero desc rest = []
encode_loop (suc fuel) desc rest =
    let more = encode_loop fuel desc (drop enc_group_size rest) in
    encode_group desc rest ++ (if leb enc_group_size (length rest) then more else [])

-- Each round takes eight bytes, so the fuel is more than enough.
unfoldable pub encode_bytes : List ℕ → Bool → List ℕ
unfolding encode_loop adjust_bytes_order
encode_bytes key desc = encode_loop (suc (length key)) desc key

unfoldable pub to_encoded : Key → Key
unfolding encode_bytes
to_encoded k = encode_bytes k false

pub data DecodeError : Type 0 where
  unexpected_eof invalid_padding out_of_fuel : DecodeError

pub data Decoded : Type 0 where
  ok : List ℕ → Decoded
  err : DecodeError → Decoded

abbrev pub pad_size_of : Bool → ℕ → ℕ
pad_size_of true marker = marker
pad_size_of false marker = enc_marker - marker

-- The group that the marker ends: `written` is the decoded part before it.
abbrev pub finish : Bool → List ℕ → List ℕ → ℕ → Decoded
finish desc written group pad =
    if ltb enc_group_size pad
    then err invalid_padding
    else if eqb (drop (enc_group_size - pad) group) (padding desc pad)
    then ok (adjust_bytes_order (written ++ take (enc_group_size - pad) group) desc)
    else err invalid_padding

-- The loop over the encoded rest: its first eight bytes, the marker, and what follows.
decode_loop : ℕ → Bool → List ℕ → List ℕ → Decoded
decode_loop zero desc written rest = err out_of_fuel
decode_loop (suc fuel) desc written rest =
    let group = take enc_group_size rest in
    let more = decode_loop fuel desc (written ++ group) (drop (enc_group_size + 1) rest) in
    elim (drop enc_group_size rest) [
      | [] ↦ err unexpected_eof
      | marker ∷ _ ↦
          let pad = pad_size_of desc marker in
          if ltb 0 pad then finish desc written group pad else more
    ]

unfoldable pub decode_bytes_in_place : List ℕ → Bool → Decoded
unfolding decode_loop adjust_bytes_order
decode_bytes_in_place [] desc = ok []
decode_bytes_in_place (b ∷ bs) desc = decode_loop (suc (length (b ∷ bs))) desc [] (b ∷ bs)
