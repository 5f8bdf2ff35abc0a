-- ===== src/Resolver/Cleanup/Stuck.antt =====
-- src/transaction/lock.rs: a lock that `cleanup_locks` does not clean.
use rust_tikv_client.Prelude.{
  ℕ, ◌≡◌, refl, sym, ap, subst, ◌∙◌, Bool, true, false, Option, none, some, if-elim, arith,
}
use rust_tikv_client.Order.{nat_ord}
use rust_tikv_client.OrdMap.{OrdMap, get-insert_self}
use rust_tikv_client.Transaction.Results.{Result, ok, err}
use rust_tikv_client.Resolver.{
  LockInfo, TransactionStatus, locked, CheckTxnStatusRequest, CheckTxnStatusResponse,
  ResolveLocksContext, Servers, Checked, check_txn_status, get_resolved, save_resolved,
  is_cacheable, check_ttl, status_of_response, keep_if, at_time, answered, from_cache,
}
use rust_tikv_client.Resolver.Secondaries.{SecondaryLocksStatus, check_all_secondaries}
use rust_tikv_client.Resolver.Cleanup.{
  Found, cleanup_request, resolve_lock_error, clean_lock, by_status, by_kind, by_secondaries,
  check_again, after_check, settled,
}

-- What a check has answered is in the cache when it may be cached.
abbrev Saves : ℕ → Checked → Type 0
Saves txn_id c =
    (s : TransactionStatus)
    → c.status ≡ ok s
    → is_cacheable s ≡ true
    → get_resolved c.ctx txn_id ≡ some s

ok-injective : {s t : TransactionStatus} → ◌≡◌ {A = Result TransactionStatus} (ok s) (ok t) → s ≡ t
ok-injective {s = s} e = ap (λ (r : Result TransactionStatus). elim r [ ok t ↦ t | err x ↦ s ]) e

keep_if-saves :
    (b : Bool) (ctx : ResolveLocksContext) (txn_id : ℕ) (s : TransactionStatus)
    → b ≡ true
    → get_resolved (keep_if b ctx txn_id s) txn_id ≡ some s
unfolding get_resolved save_resolved
keep_if-saves true ctx txn_id s h = get-insert_self txn_id s ctx.resolved
keep_if-saves false ctx txn_id s h = absurd (ground (arith, h))

at_time-Saves :
    (ctx : ResolveLocksContext) (txn_id : ℕ) (t : TransactionStatus) (r : Result ℕ)
    → Saves txn_id (at_time ctx txn_id t r)
at_time-Saves ctx txn_id t (ok current) s e c =
    let u = check_ttl t current in
    let same = ok-injective e in
    keep_if-saves (is_cacheable u) ctx txn_id u (ap is_cacheable same ∙ c) ∙ ap some same
at_time-Saves ctx txn_id t (err x) s e c = absurd (ground (arith, e))

answered-Saves :
    (srv : Servers) (ctx : ResolveLocksContext) (req : CheckTxnStatusRequest)
    (r : Result CheckTxnStatusResponse)
    → Saves req.lock_ts (answered srv ctx req r)
answered-Saves srv ctx req (ok r) s e c =
    at_time-Saves ctx req.lock_ts (status_of_response r) (srv.now req) s e c
answered-Saves srv ctx req (err x) s e c = absurd (ground (arith, e))

from_cache-Saves :
    (srv : Servers) (ctx : ResolveLocksContext) (req : CheckTxnStatusRequest)
    (o : Option TransactionStatus)
    → get_resolved ctx req.lock_ts ≡ o
    → Saves req.lock_ts (from_cache srv ctx req o)
from_cache-Saves srv ctx req (some t) h s e c = h ∙ ap some (ok-injective e)
from_cache-Saves srv ctx req none h s e c = answered-Saves srv ctx req (srv.checks req) s e c

check_txn_status-Saves :
    (srv : Servers) (ctx : ResolveLocksContext) (req : CheckTxnStatusRequest)
    → Saves req.lock_ts (check_txn_status srv ctx req)
unfolding check_txn_status
check_txn_status-Saves srv ctx req =
    from_cache-Saves srv ctx req (get_resolved ctx req.lock_ts) refl

check_again-stuck :
    (srv : Servers) (ctx : ResolveLocksContext) (infos : OrdMap ℕ ℕ) (l : LockInfo)
    (s : TransactionStatus) (ttl : ℕ) (info : LockInfo)
    → get_resolved ctx l.lock_version ≡ some s
    → s.kind ≡ locked ttl info
    → (check_again srv ctx infos l).txn_infos ≡ err resolve_lock_error
unfolding check_txn_status
check_again-stuck srv ctx infos l s ttl info h k =
    subst
      (λ o.
        let c = from_cache srv ctx (cleanup_request l true) o in
        (after_check infos l.lock_version c c.status).txn_infos ≡ err resolve_lock_error)
      (sym h)
      (subst (λ kind. (settled ctx infos l.lock_version kind).txn_infos ≡ err resolve_lock_error)
        (sym k) refl)

-- When the first check of a lock answers that the primary is still locked, with a status that may be
-- cached, and the secondary locks ask to fall back to two phases, the lock is not cleaned: the
-- second check, which would forbid the asynchronous commit, finds the cached status, whatever the
-- store would answer to it.
pub clean_lock-stuck :
    (srv : Servers) (ctx : ResolveLocksContext) (infos : OrdMap ℕ ℕ) (l : LockInfo)
    (s : TransactionStatus) (ttl : ℕ) (info : LockInfo) (t : SecondaryLocksStatus)
    → (check_txn_status srv ctx (cleanup_request l false)).status ≡ ok s
    → s.kind ≡ locked ttl info
    → is_cacheable s ≡ true
    → check_all_secondaries srv info.secondaries l.lock_version info.min_commit_ts ≡ ok t
    → t.fallback_2pc ≡ true
    → (clean_lock srv ctx infos l).txn_infos ≡ err resolve_lock_error
unfolding clean_lock
clean_lock-stuck srv ctx infos l s ttl info t e k c a f =
    let d = check_txn_status srv ctx (cleanup_request l false) in
    let saved = check_txn_status-Saves srv ctx (cleanup_request l false) s e c in
    let Stuck : Found → Type 0 = λ x. x.txn_infos ≡ err resolve_lock_error in
    subst (λ r. Stuck (by_status srv d.ctx infos l r)) (sym e)
      (subst (λ kind. Stuck (by_kind srv d.ctx infos l kind)) (sym k)
        (subst (λ r. Stuck (by_secondaries srv d.ctx infos l r)) (sym a)
          (if-elim Stuck t.fallback_2pc _ _
            (λ g. check_again-stuck srv d.ctx infos l s ttl info saved k)
            (λ g. absurd (ground (arith, f, g))))))
