-- ===== src/Resolver/Secondaries/Laws.antt =====
-- src/transaction/lock.rs: what the check of the secondary locks concludes.
use rust_tikv_client.Prelude.{
  ℕ, max, ◌≡◌, ◌⊎◌, refl, sym, ap, subst, ◌∙◌, true, false, not, ◌&&◌, ◌==◌, ltb, ==_iff, if-elim,
  inl, inr, Option, none, some, List, [], ◌∷◌, ◌++◌, length, All, arith,
}
use rust_tikv_client.Key.{Key}
use rust_tikv_client.Transaction.Results.{Result, ok, err}
use rust_tikv_client.Resolver.{LockInfo, SecondaryResponse, Servers}
use rust_tikv_client.Resolver.Secondaries.{
  SecondaryLocksStatus, Progress, Verdict, going, falls_back, fails, scan_locks, note_missing,
  response_step, continue, all_responses, try_from_version, conclude, judged, start, responded,
  check_all_secondaries,
}

abbrev pub IsAsync : LockInfo → Type 0
IsAsync l = l.use_async_commit ≡ true

-- Every key that was asked for is still locked, asynchronously.
abbrev pub IsComplete : SecondaryResponse → Type 0
IsComplete r = (ltb (length r.locks) r.expected ≡ false) × All IsAsync r.locks

unfoldable pub max_of_locks : ℕ → List LockInfo → ℕ
max_of_locks n [] = n
max_of_locks n (l ∷ ls) = max_of_locks (max n l.min_commit_ts) ls

unfoldable pub max_of_responses : ℕ → List SecondaryResponse → ℕ
unfolding max_of_locks
max_of_responses n [] = n
max_of_responses n (r ∷ rs) = max_of_responses (max_of_locks n r.locks) rs

scan_locks-max :
    (ls : List LockInfo) (n : ℕ)
    → All IsAsync ls
    → scan_locks (start n) ls ≡ going (start (max_of_locks n ls))
unfolding scan_locks max_of_locks
scan_locks-max [] n h = refl
scan_locks-max (l ∷ ls) n h =
    if-elim (λ v. v ≡ going (start (max_of_locks (max n l.min_commit_ts) ls)))
      (not l.use_async_commit) _ _ (λ e. absurd (ground (arith, e, h.0)))
      (λ e. scan_locks-max ls (max n l.min_commit_ts) h.1)

all_responses-max :
    (rs : List SecondaryResponse) (n : ℕ)
    → All IsComplete rs
    → all_responses (start n) rs ≡ going (start (max_of_responses n rs))
unfolding all_responses max_of_responses
all_responses-max [] n h = refl
all_responses-max (r ∷ rs) n h =
    if-elim
      (λ v.
        continue v (λ q. all_responses q rs)
        ≡ going (start (max_of_responses (max_of_locks n r.locks) rs)))
      (ltb (length r.locks) r.expected) _ _ (λ e. absurd (ground (arith, e, h.0.0)))
      (λ e.
        subst
          (λ v.
            continue v (λ q. all_responses q rs)
            ≡ going (start (max_of_responses (max_of_locks n r.locks) rs)))
          (sym (scan_locks-max r.locks n h.0.1))
          (all_responses-max rs (max_of_locks n r.locks) h.1))

-- When every secondary key is still locked asynchronously, the transaction is committed at the
-- largest `min_commit_ts` of its locks, the primary's included, whatever `commit_ts` the responses
-- carry.
pub check_all_secondaries-max :
    (srv : Servers) (keys : List Key) (txn_id primary_min : ℕ) (rs : List SecondaryResponse)
    → srv.secondaries keys txn_id ≡ ok rs
    → All IsComplete rs
    → check_all_secondaries srv keys txn_id primary_min
      ≡ ok (record {
        commit_ts = none;
        min_commit_ts = max_of_responses primary_min rs;
        fallback_2pc = false;
      })
unfolding check_all_secondaries
check_all_secondaries-max srv keys txn_id primary_min rs e h =
    subst
      (λ o. responded primary_min o ≡ ok (conclude (start (max_of_responses primary_min rs)) none))
      (sym e) (ap (judged primary_min) (all_responses-max rs primary_min h))

abbrev Holds : (Progress → Type 0) → Verdict → Type 0
Holds P (going p) = P p
Holds P falls_back = Unit
Holds P (fails e) = Unit

abbrev IsDetermined : ℕ → Progress → Type 0
IsDetermined ts p = p.determined_commit_ts ≡ some ts

continue-Holds :
    (P Q : Progress → Type 0) (v : Verdict) (f : Progress → Verdict)
    → Holds P v
    → ((p : Progress) → P p → Holds Q (f p))
    → Holds Q (continue v f)
continue-Holds P Q (going p) f h g = g p h
continue-Holds P Q falls_back f h g = tt
continue-Holds P Q (fails e) f h g = tt

-- A timestamp that is determined stays.
scan_locks-IsDetermined :
    (ls : List LockInfo) (p : Progress) (ts : ℕ)
    → IsDetermined ts p
    → Holds (IsDetermined ts) (scan_locks p ls)
unfolding scan_locks
scan_locks-IsDetermined [] p ts h = h
scan_locks-IsDetermined (l ∷ ls) p ts h =
    if-elim (Holds (IsDetermined ts)) (not l.use_async_commit) _ _ (λ e. tt)
      (λ e. scan_locks-IsDetermined ls _ ts h)

note_missing-IsDetermined :
    (p : Progress) (c ts : ℕ) (o : Option ℕ)
    → p.determined_commit_ts ≡ o
    → o ≡ some ts
    → Holds (IsDetermined ts) (note_missing p c o)
note_missing-IsDetermined p c ts none e h = absurd (ground (arith, h))
note_missing-IsDetermined p c ts (some prev) e h =
    if-elim (Holds (IsDetermined ts)) (prev == c) _ _ (λ g. e ∙ h) (λ g. tt)

-- A response with a missing lock determines the timestamp, or agrees with it, or the check fails.
note_missing-own :
    (p : Progress) (c : ℕ) (o : Option ℕ)
    → p.determined_commit_ts ≡ o
    → Holds (IsDetermined c) (note_missing p c o)
note_missing-own p c none e =
    if-elim (Holds (IsDetermined c)) (not (c == 0) && ltb c p.min_commit_ts) _ _ (λ g. tt)
      (λ g. refl)
note_missing-own p c (some prev) e =
    if-elim (Holds (IsDetermined c)) (prev == c) _ _ (λ g. e ∙ ap some ((==_iff prev c).0 g))
      (λ g. tt)

all_responses-IsDetermined :
    (rs : List SecondaryResponse) (p : Progress) (ts : ℕ)
    → IsDetermined ts p
    → Holds (IsDetermined ts) (all_responses p rs)
unfolding all_responses
all_responses-IsDetermined [] p ts h = h
all_responses-IsDetermined (r ∷ rs) p ts h =
    continue-Holds (IsDetermined ts) (IsDetermined ts) (response_step p r) (λ q. all_responses q rs)
      (if-elim (Holds (IsDetermined ts)) (ltb (length r.locks) r.expected) _ _
        (λ e. note_missing-IsDetermined p r.commit_ts ts p.determined_commit_ts refl h)
        (λ e. scan_locks-IsDetermined r.locks p ts h))
      (λ q g. all_responses-IsDetermined rs q ts g)

always : (v : Verdict) → Holds (λ p. Unit) v
always (going p) = tt
always falls_back = tt
always (fails e) = tt

all_responses-own :
    (xs : List SecondaryResponse) (r : SecondaryResponse) (ys : List SecondaryResponse)
    (p : Progress)
    → ltb (length r.locks) r.expected ≡ true
    → Holds (IsDetermined r.commit_ts) (all_responses p (xs ++ r ∷ ys))
unfolding all_responses
all_responses-own [] r ys p h =
    continue-Holds (IsDetermined r.commit_ts) (IsDetermined r.commit_ts) (response_step p r)
      (λ q. all_responses q ys)
      (if-elim (Holds (IsDetermined r.commit_ts)) (ltb (length r.locks) r.expected) _ _
        (λ e. note_missing-own p r.commit_ts p.determined_commit_ts refl)
        (λ e. absurd (ground (arith, e, h))))
      (λ q g. all_responses-IsDetermined ys q r.commit_ts g)
all_responses-own (x ∷ xs) r ys p h =
    continue-Holds (λ q. Unit) (IsDetermined r.commit_ts) (response_step p x)
      (λ q. all_responses q (xs ++ r ∷ ys)) (always (response_step p x))
      (λ q g. all_responses-own xs r ys q h)

-- The conclusion is the timestamp, or to fall back to two phases, or an error.
abbrev pub Recovers : ℕ → Result SecondaryLocksStatus → Type 0
Recovers ts (ok s) =
    (s.fallback_2pc ≡ true) ⊎ ((s.commit_ts ≡ try_from_version ts) × (s.min_commit_ts ≡ ts))
Recovers ts (err e) = Unit

judged-Recovers :
    (primary_min ts : ℕ) (v : Verdict)
    → Holds (IsDetermined ts) v
    → Recovers ts (judged primary_min v)
judged-Recovers primary_min ts (going p) h =
    subst (λ o. Recovers ts (ok (conclude p o))) (sym h) (inr (refl, refl))
judged-Recovers primary_min ts falls_back h = inl refl
judged-Recovers primary_min ts (fails e) h = tt

-- When a response misses a lock that was asked for, the transaction is committed at the timestamp of
-- that response, or rolled back when that is 0, unless it falls back to two phases or the check
-- fails. So all responses that miss a lock agree.
pub check_all_secondaries-Recovers :
    (srv : Servers) (keys : List Key) (txn_id primary_min : ℕ) (xs : List SecondaryResponse)
    (r : SecondaryResponse) (ys : List SecondaryResponse)
    → srv.secondaries keys txn_id ≡ ok (xs ++ r ∷ ys)
    → ltb (length r.locks) r.expected ≡ true
    → Recovers r.commit_ts (check_all_secondaries srv keys txn_id primary_min)
unfolding check_all_secondaries
check_all_secondaries-Recovers srv keys txn_id primary_min xs r ys e h =
    subst (λ o. Recovers r.commit_ts (responded primary_min o)) (sym e)
      (judged-Recovers primary_min r.commit_ts (all_responses (start primary_min) (xs ++ r ∷ ys))
        (all_responses-own xs r ys (start primary_min) h))
