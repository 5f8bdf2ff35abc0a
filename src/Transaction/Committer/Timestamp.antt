-- ===== src/Transaction/Committer/Timestamp.antt =====
-- src/transaction/transaction.rs: `fetch_commit_timestamp` ends.
use rust_tikv_client.Prelude.{
  ℕ, zero, suc, ◌+◌, ◌*◌, ◌≤◌, ◌<◌, ◌≡◌, sym, subst, leb, leb→le, some, arith, if-elim,
}
use rust_tikv_client.Transaction.Results.{Result, Outcome, ok, err, returns, panics, pending}
use rust_tikv_client.Transaction.Requests.{Store}
use rust_tikv_client.Transaction.Committer.{Committer}
use rust_tikv_client.Transaction.Committer.Commit.{
  fetch, polled, fetch_loop, fetch_commit_timestamp,
}

-- A timestamp that is not below the target, or an error.
abbrev pub Reaches : ℕ → Outcome ℕ → Type 0
Reaches target (returns (ok ts)) = target ≤ ts
Reaches target (returns (err e)) = Unit
Reaches target panics = ⊥
Reaches target pending = ⊥

polled-Reaches :
    (target timeout waited : ℕ) (answer : Result ℕ) (again : Outcome ℕ)
    → (waited < timeout → Reaches target again)
    → Reaches target (polled target timeout waited answer again)
polled-Reaches target timeout waited (err e) again h = tt
polled-Reaches target timeout waited (ok ts) again h =
    if-elim (Reaches target) (leb target ts) _ _ (leb→le target ts)
      (λ e. if-elim (Reaches target) (leb timeout waited) _ _ (λ f. tt) (λ f. h (ground arith)))

fetch_loop-Reaches :
    (st : Store) (target timeout : ℕ)
    → ((n : ℕ) → 10 * n ≤ st.waited n)
    → (fuel n : ℕ) → timeout ≤ 10 * (fuel + n)
    → Reaches target (fetch_loop st target timeout (suc fuel) n)
unfolding fetch_loop
fetch_loop-Reaches st target timeout slow zero n h =
    polled-Reaches target timeout (st.waited n) (st.timestamps n) pending
      (λ w. absurd (omega (arith, h, w, slow n)))
fetch_loop-Reaches st target timeout slow (suc fuel) n h =
    polled-Reaches target timeout (st.waited n) (st.timestamps n)
      (fetch_loop st target timeout (suc fuel) (suc n))
      (λ w. fetch_loop-Reaches st target timeout slow fuel (suc n) (omega (arith, h)))

enough :
    (st : Store) (target timeout : ℕ)
    → ((n : ℕ) → 10 * n ≤ st.waited n)
    → (fuel : ℕ) → timeout + 10 ≤ 10 * fuel
    → Reaches target (fetch_loop st target timeout fuel 0)
enough st target timeout slow zero h = absurd (omega (arith, h))
enough st target timeout slow (suc fuel) h =
    fetch_loop-Reaches st target timeout slow fuel 0 (omega (arith, h))

-- When every answer of the placement driver takes the ten milliseconds that each turn sleeps and the
-- fuel is a tenth of the timeout and one more, the wait for a commit timestamp ends: with a timestamp
-- that has reached the target, or with an error, which is the answer's or that the timeout is over.
pub fetch_commit_timestamp-Reaches :
    (st : Store) (c : Committer) (target : ℕ)
    → c.options.commit_wait_until_tso ≡ some target
    → ((n : ℕ) → 10 * n ≤ st.waited n)
    → c.options.commit_wait_until_tso_timeout + 10 ≤ 10 * st.patience
    → Reaches target (fetch_commit_timestamp st c)
unfolding fetch_commit_timestamp
fetch_commit_timestamp-Reaches st c target e slow h =
    subst (λ o. Reaches target (fetch st c.options.commit_wait_until_tso_timeout o)) (sym e)
      (enough st target c.options.commit_wait_until_tso_timeout slow st.patience h)
