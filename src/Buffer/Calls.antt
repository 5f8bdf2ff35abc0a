-- ===== src/Buffer/Calls.antt =====
-- Sequences of calls on a buffer, and what it reads after them.
use rust_tikv_client.Prelude.{ℕ, ◌≡◌, refl, ◌∙◌, ap, Option, none, some, List, [], ◌∷◌, arith}
use mathlib.Core.Path.{fun_ext}
use rust_tikv_client.Order.{bytes_ord}
use rust_tikv_client.Flags.{FlagsOp}
use rust_tikv_client.Key.{Key, Value}
use rust_tikv_client.Buffer.Entry.{ReadValueState, Assertion}
use rust_tikv_client.Buffer.View.{
  View, update, learn, put-view, insert-view, delete-view, lock-view, unlock-view,
  update_cache-view,
}
use rust_tikv_client.Buffer.{
  Buffer, put, insert, delete, lock, unlock, update_cache, update_read_cache, update_key_flags,
  set_assertion, read_value_state, primary_key_or,
}

-- `caches` is a read that came back from the store, with its commit timestamp.
pub data Call : Type 0 where
  puts inserts : Key → Value → Call
  deletes locks unlocks claims : Key → Call
  caches : Key → Option Value → ℕ → Call
  marks : Key → List FlagsOp → Call
  asserts : Key → Assertion → Call

unfoldable pub step : Buffer → Call → Buffer
step b (puts k v) = put b k v
step b (inserts k v) = insert b k v
step b (deletes k) = delete b k
step b (locks k) = lock b k
step b (unlocks k) = unlock b k
step b (claims k) = primary_key_or b k
step b (caches k v ts) = (update_read_cache b k v ts).0
step b (marks k ops) = update_key_flags b k ops
step b (asserts k a) = set_assertion b k a

unfoldable pub run : Buffer → List Call → Buffer
run b [] = b
run b (c ∷ cs) = run (step b c) cs

-- The same calls on a function from keys to what is known of them.
abbrev pub effect : Call → View → View
effect (puts k v) view = update k (ReadValueState.local (some v)) view
effect (inserts k v) view = update k (ReadValueState.local (some v)) view
effect (deletes k) view = update k (ReadValueState.local none) view
effect (caches k v ts) view = update k (learn v (view k)) view
effect (locks k) view = view
effect (unlocks k) view = view
effect (claims k) view = view
effect (marks k ops) view = view
effect (asserts k a) view = view

unfoldable pub replay : View → List Call → View
replay view [] = view
replay view (c ∷ cs) = replay (effect c view) cs

update_read_cache-view :
    (b : Buffer) (k : Key) (v : Option Value) (ts : ℕ) (j : Key)
    → read_value_state (update_read_cache b k v ts).0 j ≡ read_value_state (update_cache b k v).0 j
unfolding update_read_cache read_value_state
update_read_cache-view b k v ts j = ground arith

step-view :
    (b : Buffer) (c : Call) (j : Key)
    → read_value_state (step b c) j ≡ effect c (read_value_state b) j
unfolding step
step-view b (puts k v) j = put-view b k v j
step-view b (inserts k v) j = insert-view b k v j
step-view b (deletes k) j = delete-view b k j
step-view b (locks k) j = lock-view b k j
step-view b (unlocks k) j = unlock-view b k j
step-view b (claims k) j = unfold primary_key_or read_value_state in refl
step-view b (caches k v ts) j = update_read_cache-view b k v ts j ∙ update_cache-view b k v j
step-view b (marks k ops) j = unfold update_key_flags read_value_state in ground arith
step-view b (asserts k a) j = unfold set_assertion read_value_state in ground arith

-- After any calls the buffer reads as the replay of the calls on what it read before: the last
-- write of a key, else the first value that was read for it.
pub run-replay :
    (b : Buffer) (cs : List Call) → read_value_state (run b cs) ≡ replay (read_value_state b) cs
unfolding run replay
run-replay b [] = refl
run-replay b (c ∷ cs) = run-replay (step b c) cs ∙ ap (λ s. replay s cs) (fun_ext (step-view b c))
