-- ===== src/Buffer/Scan/Collect.antt =====
-- src/transaction/buffer.rs: the collection of the fetched pairs in a map.
use rust_tikv_client.Prelude.{ℕ, zero, suc, ◌≡◌, refl, sym, ap, ◌∙◌, [], ◌∷◌, ◌++◌, arith, take}
use rust_tikv_client.Order.{bytes_ord, cmp_bytes, cmp_bytes-flip}
use mathlib.Core.List.{append-nil, append_assoc}
use Prim.Native.Nat.Ordering.{lt}
use rust_tikv_client.OrdMap
use rust_tikv_client.OrdMap.{OrdMap}
use rust_tikv_client.OrdMap.Sorted.{IsSorted, Above}
use rust_tikv_client.Key.{Key, Value}
use rust_tikv_client.Buffer.Scan.{collect, to_pairs}

pub to_pairs-take : (n : ℕ) (m : OrdMap Key Value) → take n (to_pairs m) ≡ to_pairs (take n m)
to_pairs-take zero m = refl
to_pairs-take (suc n) [] = refl
to_pairs-take (suc n) ((k, v) ∷ m) = ap (◌∷◌ (record { key = k; value = v })) (to_pairs-take n m)

-- Every key of the map lies below `k`.
abbrev pub Below : Key → OrdMap Key Value → Type 0
Below k [] = Unit
Below k ((j, w) ∷ m) = (cmp_bytes j k ≡ lt) × Below k m

insert_last :
    (k : Key) (v : Value) (m : OrdMap Key Value)
    → Below k m
    → OrdMap.insert k v m ≡ m ++ (k, v) ∷ []
unfolding OrdMap.insert
insert_last k v [] b = refl
insert_last k v ((j, w) ∷ m) b = ground (arith, insert_last k v m b.1, cmp_bytes-flip j k)

Below-append :
    (k j : Key) (v : Value) (m : OrdMap Key Value)
    → Below k m
    → cmp_bytes j k ≡ lt
    → Below k (m ++ (j, v) ∷ [])
Below-append k j v [] b h = (h, tt)
Below-append k j v ((i, w) ∷ m) b h = (b.0, Below-append k j v m b.1 h)

Below-Above : (k j : Key) (m : OrdMap Key Value) → Below k m → cmp_bytes k j ≡ lt → Below j m
Below-Above k j [] b h = tt
Below-Above k j ((i, w) ∷ m) b h = (bytes_ord.cmp_trans i k j b.0 h, Below-Above k j m b.1 h)

abbrev pub AllBelow : OrdMap Key Value → OrdMap Key Value → Type 0
AllBelow acc [] = Unit
AllBelow acc ((k, v) ∷ m) = Below k acc × AllBelow acc m

AllBelow-append :
    (acc : OrdMap Key Value) (k : Key) (v : Value) (m : OrdMap Key Value)
    → AllBelow acc m
    → Above k m
    → AllBelow (acc ++ (k, v) ∷ []) m
AllBelow-append acc k v [] b a = tt
AllBelow-append acc k v ((j, w) ∷ m) b a =
    (Below-append j k v acc b.0 a.0, AllBelow-append acc k v m b.1 a.1)

pub collect-to_pairs :
    (acc m : OrdMap Key Value) → AllBelow acc m → IsSorted m → collect acc (to_pairs m) ≡ acc ++ m
unfolding collect
collect-to_pairs acc [] b s = sym (append-nil acc)
collect-to_pairs acc ((k, v) ∷ m) b s =
    ap (λ x. collect x (to_pairs m)) (insert_last k v acc b.0)
    ∙ collect-to_pairs (acc ++ (k, v) ∷ []) m (AllBelow-append acc k v m b.1 s.0) s.1
    ∙ append_assoc acc ((k, v) ∷ []) m

pub AllBelow-nil : (m : OrdMap Key Value) → AllBelow [] m
AllBelow-nil [] = tt
AllBelow-nil ((k, v) ∷ m) = (tt, AllBelow-nil m)
