-- ===== src/Transaction/Calls/Marks.antt =====
-- src/transaction/transaction.rs: the calls that mark keys, `set_key_assertion` and `update_key_flags`.
use rust_tikv_client.Prelude.{
  if-elim, arith, ◌==◌, ◌≡◌, refl, ap, ◌∙◌, List, [], ◌∷◌, if◌then◌else◌,
}
use rust_tikv_client.Order.{bytes_ord, eqb, eqb_iff}
use rust_tikv_client.Key.{Key}
use rust_tikv_client.Keyspace.{Keyspace, txn, encode_keyspace}
use rust_tikv_client.Flags.{
  KeyFlags, FlagsOp, apply_all, set_assert_exist, set_assert_not_exist, set_assert_none,
}
use rust_tikv_client.Buffer
use rust_tikv_client.Buffer.{Buffer, flags_of}
use rust_tikv_client.Buffer.Entry.{Assertion}
use rust_tikv_client.Buffer.Lost.{flags_of-update_key_flags}
use rust_tikv_client.Transaction.Results.{ok, returns}
use rust_tikv_client.Transaction.{Transaction, World, done, set_buffer, pipelined_record_key_change}
use rust_tikv_client.Transaction.Writes.{set_key_assertion, update_key_flags}
use rust_tikv_client.Transaction.Calls.{
  TxnCall, puts, inserts, deletes, mutates, locks, asserts, marks, commits, rolls_back, beats, step,
}

-- The transaction is the same but for the flags of its keys, and for what a pipelined one records of
-- them.
abbrev pub IsUnmoved : Transaction → Transaction → Type 0
IsUnmoved t u = u ≡ record t {
  buffer = record t.buffer { key_flags = u.buffer.key_flags };
  pipelined = u.pipelined;
}

abbrev pub assertion_ops : Assertion → List FlagsOp
assertion_ops Assertion.exist = set_assert_exist ∷ []
assertion_ops Assertion.not_exist = set_assert_not_exist ∷ []
assertion_ops Assertion.unasserted = set_assert_none ∷ []

-- The flags of the key `j` after calls, of which only those that mark `j` count.
abbrev pub marked : Keyspace → Key → List (World × TxnCall) → KeyFlags → KeyFlags
marked ks j [] f = f
marked ks j ((w, asserts k a) ∷ cs) f =
    marked ks j cs (if eqb j (encode_keyspace k ks txn) then apply_all f (assertion_ops a) else f)
marked ks j ((w, marks k ops) ∷ cs) f =
    marked ks j cs (if eqb j (encode_keyspace k ks txn) then apply_all f ops else f)
marked ks j ((w, c) ∷ cs) f = marked ks j cs f

set_assertion-ops :
    (b : Buffer) (k : Key) (a : Assertion)
    → Buffer.set_assertion b k a ≡ Buffer.update_key_flags b k (assertion_ops a)
unfolding Buffer.set_assertion
set_assertion-ops b k Assertion.exist = refl
set_assertion-ops b k Assertion.not_exist = refl
set_assertion-ops b k Assertion.unasserted = refl

pub asserts-marks :
    (w : World) (t : Transaction) (k : Key) (a : Assertion)
    → step w (asserts k a) t ≡ step w (marks k (assertion_ops a)) t
unfolding step set_key_assertion update_key_flags
asserts-marks w t k a =
    let j = encode_keyspace k t.keyspace txn in
    ap (λ b. done (pipelined_record_key_change (set_buffer t b) j) [] (returns (ok tt)))
      (set_assertion-ops t.buffer j a)

update_key_flags-rest :
    (b : Buffer) (k : Key) (ops : List FlagsOp)
    → let c = Buffer.update_key_flags b k ops in c ≡ record b { key_flags = c.key_flags }
unfolding Buffer.update_key_flags
update_key_flags-rest b k ops =
    if-elim (λ (c : Buffer). c ≡ record b { key_flags = c.key_flags })
      (apply_all (flags_of b k) ops == 0) _ _ (λ e. refl) (λ e. refl)

-- A call that marks a key.
module _ (w : World) (t : Transaction) (k : Key) (ops : List FlagsOp) where
  pub marks-IsUnmoved : IsUnmoved t (step w (marks k ops) t).txn
  unfolding step update_key_flags pipelined_record_key_change
  marks-IsUnmoved =
      let u = (step w (marks k ops) t).txn in
      ap (λ b. record t { buffer = b; pipelined = u.pipelined })
        (update_key_flags-rest t.buffer (encode_keyspace k t.keyspace txn) ops)

  pub marks-flags :
      (j : Key)
      → flags_of (step w (marks k ops) t).txn.buffer j ≡ (
          if eqb j (encode_keyspace k t.keyspace txn)
          then apply_all (flags_of t.buffer j) ops
          else flags_of t.buffer j)
  unfolding step update_key_flags pipelined_record_key_change
  marks-flags j =
      let i = encode_keyspace k t.keyspace txn in
      let old = flags_of t.buffer j in
      flags_of-update_key_flags t.buffer i j ops
      ∙ if-elim (λ f. f ≡ (if eqb j i then apply_all old ops else old)) (eqb j i) _ _
          (λ e. ground (arith, e, eqb_iff j i)) (λ e. ground (arith, e))

pub marked-cons :
    (ks : Keyspace) (j : Key) (w : World) (c : TxnCall) (cs : List (World × TxnCall)) (f : KeyFlags)
    → marked ks j cs (marked ks j ((w, c) ∷ []) f) ≡ marked ks j ((w, c) ∷ cs) f
marked-cons ks j w (puts k v) cs f = refl
marked-cons ks j w (inserts k v) cs f = refl
marked-cons ks j w (deletes k) cs f = refl
marked-cons ks j w (mutates ms) cs f = refl
marked-cons ks j w (locks force ls) cs f = refl
marked-cons ks j w (asserts k a) cs f = refl
marked-cons ks j w (marks k ops) cs f = refl
marked-cons ks j w commits cs f = refl
marked-cons ks j w rolls_back cs f = refl
marked-cons ks j w beats cs f = refl
