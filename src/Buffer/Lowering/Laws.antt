-- ===== src/Buffer/Lowering/Laws.antt =====
-- The two ways to a key's mutation agree, and the chosen primary key is one that is committed.
use rust_tikv_client.Prelude.{
  ◌≡◌, refl, ◌≢◌, true, Option, none, some, List, [], ◌∷◌, arith, if◌then◌else◌, inl, inr,
  Bool-cases,
}
use rust_tikv_client.Order.{bytes_ord, eqb, eqb_iff}
use rust_tikv_client.OrdMap
use rust_tikv_client.OrdMap.{OrdMap}
use rust_tikv_client.OrdMap.Sorted.{IsSorted, Above}
use rust_tikv_client.Key.{Key}
use rust_tikv_client.Buffer.Entry.{BufferEntry, ProtoMutation, AssertionLevel, to_proto_with_key}
use rust_tikv_client.Buffer.{Buffer}
use rust_tikv_client.Buffer.Lowering.{
  to_proto_mutations, mutation_for_key, lower_all, lower, choose_primary, any_key,
}

-- The first mutation of a key.
unfoldable pub find : Key → List ProtoMutation → Option ProtoMutation
find k [] = none
find k (pb ∷ pbs) = if eqb k pb.key then some pb else find k pbs

find-Above :
    (b : Buffer) (level : AssertionLevel) (k : Key) (m : OrdMap Key BufferEntry)
    → Above k m
    → find k (lower_all b level m) ≡ none
unfolding find lower_all to_proto_with_key
find-Above b level k [] a = refl
find-Above b level k ((j, e) ∷ m) a = ground (arith, find-Above b level k m a.1, eqb_iff k j)

find-lower_all :
    (b : Buffer) (level : AssertionLevel) (k : Key) (m : OrdMap Key BufferEntry)
    → IsSorted m
    → find k (lower_all b level m)
      ≡ elim (OrdMap.get k m) [ none ↦ none | some e ↦ lower b level k e ]
unfolding find lower_all to_proto_with_key OrdMap.get
find-lower_all b level k [] s = refl
find-lower_all b level k ((j, e) ∷ m) s =
    ground (arith, find-lower_all b level k m s.1, eqb_iff k j, find-Above b level j m s.0)

-- The mutation of one key is its mutation among those of the commit, and there is none where the
-- commit has none.
pub mutation_for_key-find :
    (b : Buffer) (k : Key) (level : AssertionLevel)
    → IsSorted b.entry_map
    → mutation_for_key b k level ≡ find k (to_proto_mutations b level)
unfolding mutation_for_key to_proto_mutations
mutation_for_key-find b k level s = ground (arith, find-lower_all b level k b.entry_map s)

-- A commit of some keys has a primary key, one of them, and the buffer's own where that is one.
pub choose_primary_lem :
    (p : Option Key) (ks : List Key)
    → ks ≢ []
    → (q : Key) × (choose_primary p ks ≡ some q)
      × (any_key q ks ≡ true)
      × ((j : Key) → p ≡ some j → any_key j ks ≡ true → q ≡ j)
unfolding choose_primary any_key
choose_primary_lem p [] n = absurd (n refl)
choose_primary_lem none (k ∷ ks) n = (k, refl, ground (arith, eqb_iff k k), λ j e g. cc)
choose_primary_lem (some p) (k ∷ ks) n = elim (Bool-cases (any_key p (k ∷ ks))) [
  | inl e ↦ (p, rw e, e, λ j g h. cc)
  | inr e ↦ (k, rw e, ground (arith, eqb_iff k k), λ j g h. ground arith)
]
