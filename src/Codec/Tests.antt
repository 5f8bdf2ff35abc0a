-- ===== src/Codec/Tests.antt =====
-- The encoding at concrete keys.
use rust_tikv_client.Prelude.{◌≡◌, refl, true, false, List, [], ◌∷◌, ◌++◌, arith, ℕ}
use rust_tikv_client.Order.{cmp_bytes}
use rust_tikv_client.Codec.{encode_bytes, decode_bytes_in_place, to_encoded, ok}
use rust_tikv_client.Codec.Stream.{cmp_bytes-to_encoded}
use rust_tikv_client.Codec.RoundTrip.{decode_bytes-encode_bytes}

abbrev nine : List ℕ
nine = 1 ∷ 2 ∷ 3 ∷ 4 ∷ 5 ∷ 6 ∷ 7 ∷ 8 ∷ 9 ∷ []

-- The vectors of the source's tests.
encode_three : encode_bytes (1 ∷ 2 ∷ 3 ∷ []) false ≡ 1 ∷ 2 ∷ 3 ∷ 0 ∷ 0 ∷ 0 ∷ 0 ∷ 0 ∷ 250 ∷ []
unfolding encode_bytes
encode_three = refl

cmp_bytes-to_encoded_example :
    cmp_bytes (to_encoded (1 ∷ 2 ∷ [])) (to_encoded nine) ≡ cmp_bytes (1 ∷ 2 ∷ []) nine
cmp_bytes-to_encoded_example = cmp_bytes-to_encoded (1 ∷ 2 ∷ []) nine

decode_bytes-encode_bytes_example :
    decode_bytes_in_place (encode_bytes nine true ++ 77 ∷ []) true ≡ ok nine
decode_bytes-encode_bytes_example = decode_bytes-encode_bytes nine (77 ∷ []) true (omega arith)
