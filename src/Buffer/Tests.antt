-- ===== src/Buffer/Tests.antt =====
-- The buffer at concrete inputs.
use rust_tikv_client.Prelude.{ℕ, ◌≡◌, refl, true, false, none, some, List, [], ◌∷◌, take}
use rust_tikv_client.Order.{bytes_ord}
use rust_tikv_client.OrdMap
use rust_tikv_client.OrdMap.{OrdMap}
use rust_tikv_client.Flags.Meaning.{empty_meaning, encode}
use rust_tikv_client.Key.{Key, Value, unbounded}
use rust_tikv_client.Range.{BoundRange, contains, range_panics}
use rust_tikv_client.Buffer.Entry.{
  BufferEntry, AssertionLevel, ProtoMutation, Op, Assertion, EntryKind, cache_mismatch, Result, ok,
  err, to_proto_with_key,
}
use rust_tikv_client.Buffer.{
  Buffer, new, put, delete, read_value_state, flags_of, get, update_read_cache, update_cache,
}
use rust_tikv_client.Buffer.Calls.{
  Call, puts, inserts, deletes, locks, unlocks, caches, run, step, replay, run-replay,
}
use rust_tikv_client.Buffer.Primary.{no_mutations-no_primary, unlock-primary}
use rust_tikv_client.Buffer.Lowering.{to_proto_mutations, is_committed}
use rust_tikv_client.Buffer.Lost.{lost_put}
use rust_tikv_client.Buffer.Fetch.{KvPair}
use rust_tikv_client.Buffer.Scan.{scan_and_fetch, override_local, range, to_pairs, count_deleted}
use rust_tikv_client.Buffer.Scan.Laws.{overlay, get-override_local}

abbrev history : List Call
history =
    puts (1 ∷ []) (11 ∷ [])
    ∷ inserts (2 ∷ []) (22 ∷ [])
    ∷ deletes (1 ∷ [])
    ∷ locks (3 ∷ [])
    ∷ caches (3 ∷ []) (some (33 ∷ [])) 7
    ∷ []

-- An optimistic transaction that has inserted one key.
abbrev inserted : Buffer
inserted = record {
  primary_key = some (1 ∷ []);
  entry_map = (1 ∷ [], BufferEntry.insert (11 ∷ [])) ∷ [];
  key_flags = [];
  read_commit_ts = [];
  is_pessimistic = false;
}

-- One put and one delete over a store of three keys.
abbrev written : OrdMap Key BufferEntry
written = (2 ∷ [], BufferEntry.del) ∷ (4 ∷ [], BufferEntry.put (44 ∷ [])) ∷ []

abbrev writer : Buffer
writer = record inserted { entry_map = written }

abbrev stored : OrdMap Key Value
stored = (1 ∷ [], 10 ∷ []) ∷ (2 ∷ [], 20 ∷ []) ∷ (5 ∷ [], 50 ∷ []) ∷ []

abbrev everything : BoundRange
everything = record { from = unbounded; to = unbounded }

abbrev answer : BoundRange → ℕ → Result (List KvPair)
answer r n = ok (take n (to_pairs stored))

run-replay_example :
    read_value_state (run (new false) history) ≡ replay (read_value_state (new false)) history
run-replay_example = run-replay (new false) history

no_mutations-no_primary_example : (run (new false) (caches (3 ∷ []) none 0 ∷ [])).primary_key ≡ none
unfolding to_proto_mutations run step update_read_cache to_proto_with_key OrdMap.get new
    OrdMap.insert
no_mutations-no_primary_example =
    no_mutations-no_primary false (caches (3 ∷ []) none 0 ∷ []) AssertionLevel.off (tt, tt) refl

unlock-primary_example :
    let b = run (new true) (locks (3 ∷ []) ∷ unlocks (3 ∷ []) ∷ []) in
    (to_proto_mutations b AssertionLevel.off ≡ []) × (b.primary_key ≡ some (3 ∷ []))
unlock-primary_example = unlock-primary true (3 ∷ []) AssertionLevel.off

lost_put_example :
    let c = put (delete inserted (1 ∷ [])) (1 ∷ []) (12 ∷ []) in
    (get c (1 ∷ []) ≡ some (12 ∷ []))
    × (OrdMap.get (1 ∷ []) c.entry_map ≡ some (BufferEntry.insert (12 ∷ [])))
    × ((pb : ProtoMutation) → pb.key ≡ 1 ∷ [] → is_committed c pb ≡ false)
unfolding OrdMap.get flags_of encode
lost_put_example = lost_put inserted (1 ∷ []) (11 ∷ []) (12 ∷ []) empty_meaning refl refl refl

abbrev put_two : ProtoMutation
put_two = record { op = Op.put; key = 2 ∷ []; value = 22 ∷ []; assertion = Assertion.unasserted }

-- A buffer that has read one key.
abbrev reader : Buffer
reader = record inserted {
  primary_key = none;
  entry_map = (7 ∷ [], BufferEntry.cached (some (70 ∷ []))) ∷ [];
}

abbrev fresh : Buffer
fresh = record reader { entry_map = [] }

abbrev seven : KvPair
seven = record { key = 7 ∷ []; value = 70 ∷ [] }

get-override_local_example :
    OrdMap.get (4 ∷ []) (override_local written stored)
    ≡ overlay (OrdMap.get (4 ∷ []) written) (OrdMap.get (4 ∷ []) stored)
get-override_local_example = get-override_local written stored (4 ∷ []) (((refl, tt), (tt, tt)))

-- A buffer that has cached that a key has no value, and a store that has one.
abbrev outdated : Buffer
outdated = record fresh { entry_map = (1 ∷ [], BufferEntry.cached none) ∷ [] }

scan_mismatch :
    (scan_and_fetch outdated everything 2 true false answer).1
    ≡ err (cache_mismatch EntryKind.cached 1)
unfolding scan_and_fetch update_cache OrdMap.get OrdMap.insert range count_deleted range_panics
    contains
scan_mismatch = refl
