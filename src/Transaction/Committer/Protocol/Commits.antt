-- ===== src/Transaction/Committer/Protocol/Commits.antt =====
-- src/transaction/transaction.rs: the requests after a prewrite, as steps of the protocol.
use rust_tikv_client.Prelude.{
  ==_iff, ℕ, ◌≡◌, ◌≢◌, refl, sym, ap, ◌∙◌, Bool, true, false, ◌==◌, ◌||◌, Option, none, some, List,
  [], ◌∷◌, ◌++◌, if◌then◌else◌, if-elim, arith, length, subst, ◌≢◌,
}
use rust_tikv_client.Order.{bytes_ord, eqb, eqb_iff}
use rust_tikv_client.Key.{Key}
use rust_tikv_client.Transaction.Results.{
  Result, Outcome, ok, err, returns, panics, pending, is_grpc, undetermined_error,
}
use rust_tikv_client.Transaction.Requests.{
  PrewriteResponse, Store, Sent, commit_sent, new_commit_request,
  new_commit_request_with_primary_key,
}
use rust_tikv_client.Transaction.Committer.{Committer, max_min_commit_ts, without}
use rust_tikv_client.Transaction.Committer.Commit.{
  commit_primary_checked, commit_primary, commit_at, answered, checked, commit_secondary,
  secondary_sent, option_keys, fetch_commit_timestamp, primary_request,
}
use rust_tikv_client.Transaction.Committer.Protocol.{
  Phase, locked, committed, completed, unsure, decides, fails, decides_async, completes, Steps,
  Rest, rest_nil, rest_drop, rest_keep, stop, step, Agrees,
}

pub Steps-append :
    {st : Store} {c : Committer} {p q r : Phase} {s t : List Sent}
    → Steps st c p s q
    → Steps st c q t r
    → Steps st c p (s ++ t) r
Steps-append stop h = h
Steps-append (step m g) h = step m (Steps-append g h)

-- `without` leaves out the primary key, and nothing else.
pub without-Rest : (p : Key) (ks : List Key) → Rest p ks (without p ks)
unfolding without
without-Rest p [] = rest_nil
without-Rest p (k ∷ ks) =
    if-elim (Rest p (k ∷ ks)) (eqb p k) _ _ (λ e. rest_drop ((eqb_iff p k).0 e) (without-Rest p ks))
      (λ e. rest_keep (λ h. ground (arith, eqb_iff p k, e, h)) (without-Rest p ks))

primary_request-parts :
    (c : Committer) (ts : ℕ) (o : Option Key)
    → c.primary_key ≡ o
    → ((primary_request c ts).keys ≡ option_keys o)
      × ((primary_request c ts).commit_version ≡ ts)
      × ((primary_request c ts).start_version ≡ c.start_version)
unfolding primary_request new_commit_request_with_primary_key new_commit_request
primary_request-parts c ts none e = ground (arith, e)
primary_request-parts c ts (some p) e = ground (arith, e)

-- The parts of a committer that `prewrite` leaves.
pub record IsKept (c d : Committer) : Type 0 where
  pub chosen : Key
  pub primary : c.primary_key ≡ some chosen
  pub same : d.primary_key ≡ c.primary_key
  pub keys : d.commit_keys ≡ c.commit_keys
  pub version : d.start_version ≡ c.start_version
  pub sure : d.undetermined ≡ false
  pub async : d.options.async_commit ≡ true → c.options.async_commit ≡ true

-- What the commit of the primary does after a prewrite, with the committer that it leaves.
abbrev pub Primary :
    Store → Committer → List PrewriteResponse → Committer → List Sent → Outcome ℕ → Type 0
Primary st c rs d s (returns (ok ts)) =
    Steps st c (locked rs) s (committed ts) × IsKept c d × (d.options.async_commit ≡ false)
Primary st c rs d s (returns (err e)) =
    (p : Phase) × Steps st c (locked rs) s p × Agrees c p (returns (err e))
Primary st c rs d s panics = Steps st c (locked rs) s (locked rs)
Primary st c rs d s pending = Steps st c (locked rs) s (locked rs)

-- The secondary keys are sent the timestamp that was decided, unless the primary is the only key.
module _ (st : Store) (c d : Committer) (k : IsKept c d) (sync : d.options.async_commit ≡ false)
    (ts : ℕ) where
  abbrev Ends : List Sent → Type 0
  Ends s = (p : Phase) × Steps st c (committed ts) s p × Agrees c p (returns (ok (some ts)))

  secondary-Ends : (o : Option Key) → o ≡ some k.chosen → Ends (secondary_sent d o ts)
  unfolding new_commit_request
  secondary-Ends none e = absurd (ground (arith, e))
  secondary-Ends (some p) e =
      let others : Rest p c.commit_keys (without p d.commit_keys) =
        subst (λ ks. Rest p ks (without p d.commit_keys)) k.keys (without-Rest p d.commit_keys) in
      (completed ts, step (completes (k.primary ∙ sym e) others refl k.version) stop, refl)

  pub commit_secondary-Ends : Ends (commit_secondary d ts)
  unfolding commit_secondary
  commit_secondary-Ends =
      if-elim Ends d.options.async_commit _ _ (λ e. absurd (ground (arith, e, sync)))
        (λ e.
          if-elim Ends (length d.commit_keys == 1) _ _
            (λ f. (
              committed ts,
              stop,
              (ap length (sym k.keys) ∙ (==_iff (length d.commit_keys) 1).0 f, refl),
            ))
            (λ f. secondary-Ends d.primary_key (k.same ∙ k.primary)))

or_false : (b : Bool) → (b || false) ≡ b
or_false true = refl
or_false false = refl

module _ (st : Store) (c d : Committer) (k : IsKept c d) (sync : d.options.async_commit ≡ false)
    (rs : List PrewriteResponse) where
  answered-Primary :
      (ts : ℕ) (a : Result (Unit {0}))
      → st.commits (primary_request d ts) ≡ a
      → let r = answered d (commit_sent (primary_request d ts) ∷ []) ts a in
        Primary st c rs r.committer r.sent (checked r.committer.undetermined r.outcome)
  answered-Primary ts (ok u) h =
      let parts = primary_request-parts d ts c.primary_key k.same in
      (step (decides parts.0 parts.1 (parts.2 ∙ k.version) h) stop, k, sync)
  answered-Primary ts (err e) h =
      let parts = primary_request-parts d ts c.primary_key k.same in
      (
        unsure e,
        step (fails parts.0 (parts.2 ∙ k.version) h) stop,
        ap (λ b. returns (err (if is_grpc e || b then undetermined_error e else e))) k.sure
            ∙ ap (λ b. returns (err (if b then undetermined_error e else e)))
                (or_false (is_grpc e)),
      )

  commit_at-Primary :
      (o : Outcome ℕ)
      → let r = commit_at st d o in
        Primary st c rs r.committer r.sent (checked r.committer.undetermined r.outcome)
  commit_at-Primary (returns (ok ts)) = answered-Primary ts (st.commits (primary_request d ts)) refl
  commit_at-Primary (returns (err e)) = (locked rs, stop, tt)
  commit_at-Primary panics = stop
  commit_at-Primary pending = stop

  pub commit_primary_checked-Primary :
      let r = commit_primary_checked st d in Primary st c rs r.committer r.sent r.outcome
  unfolding commit_primary_checked commit_primary
  commit_primary_checked-Primary = commit_at-Primary (fetch_commit_timestamp st d)

module _ (st : Store) (c d : Committer) (k : IsKept c d) (rs : List PrewriteResponse) where
  pub commit_secondary-async :
      (ts : ℕ)
      → d.options.async_commit ≡ true
      → ts ≡ max_min_commit_ts rs
      → ts ≢ 0
      → Steps st c (locked rs) (commit_secondary d ts) (completed ts)
  unfolding commit_secondary new_commit_request
  commit_secondary-async ts e h n =
      if-elim (λ s. Steps st c (locked rs) s (completed ts)) d.options.async_commit _ _
        (λ f. step (decides_async (k.async e) k.keys h k.version n) stop)
        (λ f. absurd (ground (arith, e, f)))
