-- ===== src/Transaction/Committer/Protocol/Laws.antt =====
-- src/transaction/transaction.rs: a commit follows the protocol.
use rust_tikv_client.Prelude.{
  ℕ, ◌≡◌, refl, sym, subst, Bool, true, false, not, ◌==◌, Option, none, some, List, [], ◌∷◌,
  if-elim, arith, ap, ◌∙◌,
}
use rust_tikv_client.Key.{Key}
use rust_tikv_client.Transaction.Results.{Result, Outcome, ok, err, returns, panics, pending}
use rust_tikv_client.Transaction.Options.{TransactionKind, optimistic, pessimistic}
use rust_tikv_client.Transaction.Requests.{
  saturating_add, new_prewrite_request, new_pessimistic_prewrite_request, PrewriteRequest,
  PrewriteResponse, Store, Sent, prewrite_sent,
}
use rust_tikv_client.Transaction.Committer.{
  base_request, calc_txn_lock_ttl, without, Committer, Run, prewrite, prewrite_request,
  prewrite_with, prewritten, accept, single, two_phases, max_min_commit_ts, set_async_commit,
  set_try_one_pc, no_one_pc, try_from_version,
}
use rust_tikv_client.Transaction.Committer.Commit.{
  commit, commit_primary_checked, finish, finished, fix_commit_ts, after_prewrite,
}
use rust_tikv_client.Transaction.Committer.Protocol.{
  Phase, LocksAll, AsksKind, Rest, idle, locked, refused, completed, locks, refuses, Steps, stop,
  step, Agrees, Follows,
}
use rust_tikv_client.Transaction.Committer.Protocol.Commits.{
  without-Rest, Steps-append, Primary, IsKept, commit_secondary-Ends, commit_secondary-async,
  commit_primary_checked-Primary,
}

async-IsKept : {c d : Committer} → IsKept c d → IsKept c (set_async_commit d false)
async-IsKept k = record {
  chosen = k.chosen;
  primary = k.primary;
  same = k.same;
  keys = k.keys;
  version = k.version;
  sure = k.sure;
  async = λ f. absurd (ground (arith, f));
}

one_pc-IsKept : {c d : Committer} → IsKept c d → IsKept c (set_try_one_pc d false)
one_pc-IsKept k = record {
  chosen = k.chosen;
  primary = k.primary;
  same = k.same;
  keys = k.keys;
  version = k.version;
  sure = k.sure;
  async = k.async;
}

self-IsKept :
    (c : Committer) (p : Key) → c.primary_key ≡ some p → c.undetermined ≡ false → IsKept c c
self-IsKept c p e sure = record {
  chosen = p;
  primary = e;
  same = refl;
  keys = refl;
  version = refl;
  sure = sure;
  async = λ f. f;
}

-- The requests of a commit whose prewrite has sent `q`.
module _ (st : Store) (c : Committer) (q : PrewriteRequest) (rs : List PrewriteResponse)
    (asks : LocksAll c q) (h : st.prewrites q ≡ ok rs) where
  begin :
      {p : Phase} {s : List Sent}
      → Steps st c (locked rs) s p
      → Steps st c idle (prewrite_sent q ∷ s) p
  begin g = step (locks asks h) g

  finished-Follows :
      (d : Committer) (s : List Sent) (o : Outcome ℕ)
      → Primary st c rs d s o
      → let r = finished (prewrite_sent q ∷ []) d s o in Follows st c r.sent r.outcome
  finished-Follows d s (returns (ok ts)) (g, k, sync) =
      let w = commit_secondary-Ends st c d k sync ts in (w.0, begin (Steps-append g w.1), w.2)
  finished-Follows d s (returns (err e)) (p, g, a) = (p, begin g, a)
  finished-Follows d s panics g = (locked rs, begin g, tt)
  finished-Follows d s pending g = (locked rs, begin g, tt)

  finish-Follows :
      (d : Committer)
      → IsKept c d
      → d.options.async_commit ≡ false
      → let r = finish (prewrite_sent q ∷ []) (commit_primary_checked st d) in
        Follows st c r.sent r.outcome
  finish-Follows d k sync =
      let r = commit_primary_checked st d in
      finished-Follows r.committer r.sent r.outcome
        (commit_primary_checked-Primary st c d k sync rs)

  fixed-Follows :
      (d : Committer)
      → IsKept c d
      → d.options.async_commit ≡ true
      → let r =
          finish
            (prewrite_sent q ∷ [])
            (fix_commit_ts st d (try_from_version (max_min_commit_ts rs))) in
        Follows st c r.sent r.outcome
  fixed-Follows d k e =
      let F : Option ℕ → Type 0 = λ o.
        let r = finish (prewrite_sent q ∷ []) (fix_commit_ts st d o) in
        Follows st c r.sent r.outcome in
      if-elim F (max_min_commit_ts rs == 0) _ _
        (λ z. finish-Follows (set_async_commit d false) (async-IsKept k) refl)
        (λ z. (
          completed (max_min_commit_ts rs),
          begin (
              commit_secondary-async st c d k rs (max_min_commit_ts rs) e refl
                (λ w. ground (arith, z, w))),
          refl,
        ))

  two_phases-Follows :
      (d : Committer)
      → IsKept c d
      → let p = two_phases d (prewrite_sent q ∷ []) rs in
        let r = after_prewrite st p.committer p.sent p.outcome in Follows st c r.sent r.outcome
  two_phases-Follows d k =
      let e = set_try_one_pc d false in
      let F : Outcome (Option ℕ) → Type 0 = λ o.
        let r = after_prewrite st e (prewrite_sent q ∷ []) o in Follows st c r.sent r.outcome in
      let G : Run (Option ℕ) → Type 0 = λ r. Follows st c r.sent r.outcome in
      if-elim F (no_one_pc rs) _ _
        (λ u.
          if-elim G d.options.async_commit _ _ (λ v. fixed-Follows e (one_pc-IsKept k) v)
            (λ v. finish-Follows e (one_pc-IsKept k) v))
        (λ u. (locked rs, begin stop, tt))

try_from_version-some : (n : ℕ) → (n == 0) ≡ false → try_from_version n ≡ some n
try_from_version-some n h = ground arith

base_request-kind :
    (st : Store) (c : Committer) (p : Key) (ttl : ℕ) (kind : TransactionKind)
    → let q = base_request st c p ttl kind in
      (q.mutations ≡ c.prewrite_mutations)
      × (q.primary_lock ≡ p)
      × (q.start_version ≡ c.start_version)
      × AsksKind kind q.mutations q.for_update_ts q.pessimistic_actions
unfolding new_prewrite_request new_pessimistic_prewrite_request
base_request-kind st c p ttl optimistic = (refl, refl, refl, (refl, refl))
base_request-kind st c p ttl (pessimistic ts) = (refl, refl, refl, (refl, refl))

-- The request of `prewrite` asks for all locks.
prewrite_request-LocksAll :
    (st : Store) (c : Committer) (p : Key)
    → c.primary_key ≡ some p
    → LocksAll c (prewrite_request st c p)
unfolding prewrite_request
prewrite_request-LocksAll st c p e =
    let (ms, key, version, kind) =
      base_request-kind st c p (saturating_add (calc_txn_lock_ttl st c) st.elapsed)
        c.options.kind in
    record {
      mutations = ms;
      primary = e ∙ ap some (sym key);
      version = version;
      others =
          subst (λ k. Rest k c.commit_keys (without p c.commit_keys)) (sym key)
            (without-Rest p c.commit_keys);
      async = refl;
      one_pc = refl;
      kind = kind;
    }

module _ (st : Store) (c : Committer) (sure : c.undetermined ≡ false) (p : Key)
    (known : c.primary_key ≡ some p) where
  accept-Follows :
      (q : PrewriteRequest) (rs : List PrewriteResponse)
      → LocksAll c q
      → st.prewrites q ≡ ok rs
      → (b : Bool) → c.options.try_one_pc ≡ b
      → let p = accept c (prewrite_sent q ∷ []) rs (single b rs) in
        let r = after_prewrite st p.committer p.sent p.outcome in Follows st c r.sent r.outcome
  accept-Follows q rs asks h false e =
      two_phases-Follows st c q rs asks h c (self-IsKept c p known sure)
  accept-Follows q [] asks h true e =
      two_phases-Follows st c q [] asks h c (self-IsKept c p known sure)
  accept-Follows q (r ∷ s ∷ rs) asks h true e =
      two_phases-Follows st c q (r ∷ s ∷ rs) asks h c (self-IsKept c p known sure)
  accept-Follows q (r ∷ []) asks h true e =
      let F : Run (Option ℕ) → Type 0 = λ p.
        let r = after_prewrite st p.committer p.sent p.outcome in Follows st c r.sent r.outcome in
      let G : Run (Option ℕ) → Type 0 = λ p. Follows st c p.sent p.outcome in
      if-elim F (not (r.one_pc_commit_ts == 0)) _ _
        (λ u.
          if-elim G c.options.try_one_pc _ _
            (λ v. (
              locked (r ∷ []),
              step (locks asks h) stop,
              subst (λ o. Agrees c (locked (r ∷ [])) (returns (ok o)))
                  (sym (try_from_version-some r.one_pc_commit_ts (ground (arith, u))))
                  (e, refl, λ w. ground (arith, u, w)),
            ))
            (λ v. absurd (ground (arith, e, v))))
        (λ u.
          if-elim F (not (r.min_commit_ts == 0)) _ _
            (λ v. (locked (r ∷ []), step (locks asks h) stop, tt))
            (λ v.
              two_phases-Follows st c q (r ∷ []) asks h (set_async_commit c false)
                (async-IsKept (self-IsKept c p known sure))))

  prewritten-Follows :
      (q : PrewriteRequest) (a : Result (List PrewriteResponse))
      → LocksAll c q
      → st.prewrites q ≡ a
      → let p = prewritten c (prewrite_sent q ∷ []) a in
        let r = after_prewrite st p.committer p.sent p.outcome in Follows st c r.sent r.outcome
  prewritten-Follows q (ok rs) asks h = accept-Follows q rs asks h c.options.try_one_pc refl
  prewritten-Follows q (err e) asks h = (refused e, step (refuses asks h) stop, refl)

module _ (st : Store) (c : Committer) (sure : c.undetermined ≡ false) where
  prewrite_with-Follows :
      (o : Option Key)
      → c.primary_key ≡ o
      → let p = prewrite_with st c o in
        let r = after_prewrite st p.committer p.sent p.outcome in Follows st c r.sent r.outcome
  prewrite_with-Follows none e = (idle, stop, refl)
  prewrite_with-Follows (some p) e =
      let q = prewrite_request st c p in
      prewritten-Follows st c sure p e q (st.prewrites q) (prewrite_request-LocksAll st c p e) refl

-- Every commit of a new committer follows the protocol, whatever the store answers: nothing is
-- committed before one prewrite has been answered that sends every mutation of the committer, under
-- its primary key, its start version and its kind, with exactly the keys other than the primary as
-- secondaries, and every commit is for that start version. The keys other than the primary are all committed after it
-- and at its timestamp, or all keys at the timestamp that an asynchronous prewrite has agreed on, and
-- the outcome tells what the requests have led to. When the commit of the primary fails, it is that
-- error, made undetermined if the transport failed.
pub commit-Follows :
    (st : Store) (c : Committer)
    → c.undetermined ≡ false
    → Follows st c (commit st c).sent (commit st c).outcome
unfolding commit prewrite
commit-Follows st c sure = prewrite_with-Follows st c sure c.primary_key refl
