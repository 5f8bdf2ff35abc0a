-- ===== src/Transaction/Committer/Request.antt =====
-- src/transaction/transaction.rs: the timestamps and the time to live in the prewrite request of a
-- `Committer`, and what it makes of the answers.
use rust_tikv_client.Prelude.{
  ℕ, ◌+◌, ◌-◌, ◌/◌, ◌^◌, ◌≤◌, ◌<◌, max, ◌≡◌, if-elim, ◌&&◌, ◌||◌, true, if◌then◌else◌, arith,
}
use rust_tikv_client.Key.{Key}
use rust_tikv_client.Transaction.Options.{TransactionKind, optimistic, pessimistic, is_pessimistic}
use rust_tikv_client.Transaction.Requests.{u64_max, saturating_add, Store}
use rust_tikv_client.Transaction.Committer.{
  Committer, calc_txn_lock_ttl, default_lock_ttl, max_ttl, add_physical_ms, extract_physical_ms,
  min_commit_ts, max_commit_ts, prewrite_request, safe_ttl, after_for_update, base_request,
}

-- The time to live of a lock is between three and twenty seconds, whatever the size.
pub calc_txn_lock_ttl-bounds :
    (st : Store) (c : Committer)
    → (default_lock_ttl ≤ calc_txn_lock_ttl st c) × (calc_txn_lock_ttl st c ≤ max_ttl)
unfolding calc_txn_lock_ttl
calc_txn_lock_ttl-bounds st c = ground arith

-- What the request asks of the timestamp of the commit: it is after the start of the transaction
-- and, in a pessimistic one, after its last lock.
abbrev pub IsAfter : ℕ → TransactionKind → ℕ → Type 0
IsAfter start optimistic ts = start < ts
IsAfter start (pessimistic for_update_ts) ts = (start < ts) × (for_update_ts < ts)

abbrev pub IsVersion : TransactionKind → Type 0
IsVersion optimistic = Unit
IsVersion (pessimistic for_update_ts) = for_update_ts < u64_max

after_for_update-IsAfter :
    (kind : TransactionKind) (start : ℕ)
    → start < u64_max
    → IsVersion kind
    → IsAfter start kind (after_for_update kind (saturating_add start 1))
after_for_update-IsAfter optimistic start h k = omega (arith, h)
after_for_update-IsAfter (pessimistic ts) start h k = (omega (arith, h), omega (arith, h, k))

-- Every prewrite asks for a commit timestamp after the start of the transaction and, in a
-- pessimistic one, after its last lock, when these are below the largest `u64`.
pub prewrite_request-IsAfter :
    (st : Store) (c : Committer) (p : Key)
    → c.start_version < u64_max
    → IsVersion c.options.kind
    → IsAfter c.start_version c.options.kind (prewrite_request st c p).min_commit_ts
unfolding prewrite_request min_commit_ts
prewrite_request-IsAfter st c p h k = after_for_update-IsAfter c.options.kind c.start_version h k

max_commit_ts-le : (c : Committer) (elapsed : ℕ) → max_commit_ts c elapsed ≤ u64_max
unfolding max_commit_ts add_physical_ms
max_commit_ts-le c elapsed = omega arith

covers :
    (m s ttl : ℕ)
    → m ≤ u64_max
    → m / 2 ^ 18 < s / 2 ^ 18 + max ttl (saturating_add (m / 2 ^ 18 - s / 2 ^ 18) 1)
covers m s ttl h = omega (arith, h)

-- In an asynchronous commit of a pessimistic transaction the locks live longer than the largest
-- commit timestamp that the request allows: its physical part is less than the transaction's own
-- plus the time to live.
pub prewrite_request-ttl :
    (st : Store) (c : Committer) (p : Key)
    → c.options.async_commit ≡ true
    → is_pessimistic c.options ≡ true
    → let req = prewrite_request st c p in
      extract_physical_ms req.max_commit_ts < extract_physical_ms c.start_version + req.lock_ttl
unfolding prewrite_request extract_physical_ms
prewrite_request-ttl st c p a q =
    let o = c.options in
    let req = base_request st c p (saturating_add (calc_txn_lock_ttl st c) st.elapsed) o.kind in
    let top = max_commit_ts c st.elapsed in
    let R : ℕ → ℕ → Type 0 = λ m ttl. m / 2 ^ 18 < c.start_version / 2 ^ 18 + ttl in
    if-elim
      (λ m. R m (
        if o.async_commit && is_pessimistic o
        then max req.lock_ttl (safe_ttl c top)
        else req.lock_ttl))
      (o.async_commit || o.try_one_pc) _ _
      (λ e.
        if-elim (R top) (o.async_commit && is_pessimistic o) _ _
          (λ f. covers top c.start_version req.lock_ttl (max_commit_ts-le c st.elapsed))
          (λ f. absurd (ground (arith, a, q, f))))
      (λ e. absurd (ground (arith, a, e)))
