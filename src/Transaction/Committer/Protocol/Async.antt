-- ===== src/Transaction/Committer/Protocol/Async.antt =====
-- src/transaction/transaction.rs: when a commit is asynchronous.
use rust_tikv_client.Prelude.{
  ℕ, ◌≤◌, ◌≡◌, ◌≢◌, refl, sym, subst, true, false, ◌==◌, Option, some, List, [], ◌∷◌, ◌++◌, if-elim,
  arith,
}
use rust_tikv_client.Key.{Key}
use rust_tikv_client.Transaction.Results.{ok, returns}
use rust_tikv_client.Transaction.Requests.{Store, Sent, PrewriteResponse, prewrite_sent}
use rust_tikv_client.Transaction.Committer.{
  Committer, Run, prewrite, prewrite_with, prewrite_request, prewritten, accept, single, two_phases,
  max_min_commit_ts, no_one_pc, set_try_one_pc,
}
use rust_tikv_client.Transaction.Committer.Commit.{
  commit, finish, fix_commit_ts, after_prewrite, commit_secondary,
}

max_min_commit_ts-le :
    (xs : List PrewriteResponse) (r : PrewriteResponse) (ys : List PrewriteResponse)
    → r.min_commit_ts ≤ max_min_commit_ts (xs ++ r ∷ ys)
unfolding max_min_commit_ts
max_min_commit_ts-le [] r ys = omega arith
max_min_commit_ts-le (x ∷ xs) r ys = omega (arith, max_min_commit_ts-le xs r ys)

abbrev After : Store → Run (Option ℕ) → Run (Option ℕ)
After st p = after_prewrite st p.committer p.sent p.outcome

-- The commit answers with a timestamp, and sends nothing but the prewrite and the commit of all keys.
abbrev pub IsAsync : Committer → List Sent → ℕ → Run (Option ℕ) → Type 0
IsAsync c s ts r =
    (r.outcome ≡ returns (ok (some ts)))
    × (r.sent ≡ s ++ commit_secondary (set_try_one_pc c false) ts)

module _ (st : Store) (c : Committer) (rs : List PrewriteResponse)
    (async : c.options.async_commit ≡ true) (agreed : max_min_commit_ts rs ≢ 0)
    (tried : no_one_pc rs ≡ true) where
  two_phases-IsAsync :
      (s : List Sent) → IsAsync c s (max_min_commit_ts rs) (After st (two_phases c s rs))
  two_phases-IsAsync s =
      let I : Run (Option ℕ) → Type 0 = IsAsync c s (max_min_commit_ts rs) in
      let d = set_try_one_pc c false in
      if-elim (λ o. I (after_prewrite st d s o)) (no_one_pc rs) _ _
        (λ e.
          if-elim I c.options.async_commit _ _
            (λ f.
              if-elim (λ m. I (finish s (fix_commit_ts st d m))) (max_min_commit_ts rs == 0) _ _
                (λ z. absurd (ground (arith, z, agreed))) (λ z. (refl, refl)))
            (λ f. absurd (ground (arith, f, async))))
        (λ e. absurd (ground (arith, e, tried)))

  prewritten-IsAsync :
      (s : List Sent)
      → c.options.try_one_pc ≡ false
      → IsAsync c s (max_min_commit_ts rs) (After st (prewritten c s (ok rs)))
  prewritten-IsAsync s e =
      subst (λ b. IsAsync c s (max_min_commit_ts rs) (After st (accept c s rs (single b rs))))
        (sym e) (two_phases-IsAsync s)

-- An asynchronous commit goes ahead, without a timestamp from the placement driver, as soon as one
-- answer to the prewrite has a `min_commit_ts`, whatever the other answers have: also when they have
-- 0, with which the store says that their keys cannot be committed asynchronously.
pub commit-IsAsync :
    (st : Store) (c : Committer) (p : Key) (xs : List PrewriteResponse) (r : PrewriteResponse)
    (ys : List PrewriteResponse)
    → c.primary_key ≡ some p
    → c.options.async_commit ≡ true
    → c.options.try_one_pc ≡ false
    → st.prewrites (prewrite_request st c p) ≡ ok (xs ++ r ∷ ys)
    → no_one_pc (xs ++ r ∷ ys) ≡ true
    → r.min_commit_ts ≢ 0
    → (ts : ℕ) × IsAsync c (prewrite_sent (prewrite_request st c p) ∷ []) ts (commit st c)
      × (r.min_commit_ts ≤ ts)
unfolding commit prewrite
commit-IsAsync st c p xs r ys e async one h tried n =
    let rs = xs ++ r ∷ ys in
    let s = prewrite_sent (prewrite_request st c p) ∷ [] in
    let most = max_min_commit_ts rs in
    let le = max_min_commit_ts-le xs r ys in
    (
      most,
      subst (λ o. IsAsync c s most (After st (prewrite_with st c o))) (sym e)
          (subst (λ a. IsAsync c s most (After st (prewritten c s a))) (sym h)
            (prewritten-IsAsync st c rs async (λ z. n (omega (arith, z, le))) tried s one)),
      le,
    )
