-- ===== src/Resolver/Cache.antt =====
-- src/transaction/lock.rs: what the cache of statuses holds.
use rust_tikv_client.Prelude.{
  ℕ, ◌≡◌, ◌≢◌, refl, sym, subst, ap, ◌∙◌, if◌then◌else◌, Bool, true, false, Bool-cases, inl, inr,
  Option, none, some, List, [], ◌∷◌, arith,
}
use rust_tikv_client.Order.{nat_ord, eqb, eqb_iff}
use rust_tikv_client.OrdMap
use rust_tikv_client.OrdMap.{OrdMap, get-insert}
use rust_tikv_client.Transaction.Results.{Result, ok, err}
use rust_tikv_client.Resolver.{
  TransactionStatus, CheckTxnStatusRequest, CheckTxnStatusResponse, ResolveLocksContext, Servers,
  get_resolved, save_resolved, is_cacheable, check_ttl, status_of_response, at_time, answered,
  from_cache, keep_if, check_txn_status,
}

unfoldable pub run_checks :
    ResolveLocksContext → List (Servers × CheckTxnStatusRequest) → ResolveLocksContext
unfolding check_txn_status
run_checks ctx [] = ctx
run_checks ctx ((srv, req) ∷ rs) = run_checks (check_txn_status srv ctx req).ctx rs

abbrev pub empty : ResolveLocksContext
empty = record { resolved = []; clean_regions = [] }

-- What a check does to the cache: nothing, or it adds a status that may be cached, where there was
-- none.
data Caches (ctx : ResolveLocksContext) : ResolveLocksContext → Type 0 where
  leaves : Caches ctx ctx
  adds :
      (txn_id : ℕ) (s : TransactionStatus)
      → get_resolved ctx txn_id ≡ none
      → is_cacheable s ≡ true
      → Caches ctx (save_resolved ctx txn_id s)

keep_if-Caches :
    (b : Bool) (ctx : ResolveLocksContext) (txn_id : ℕ) (s : TransactionStatus)
    → get_resolved ctx txn_id ≡ none
    → is_cacheable s ≡ b
    → Caches ctx (keep_if b ctx txn_id s)
keep_if-Caches true ctx txn_id s h e = adds txn_id s h e
keep_if-Caches false ctx txn_id s h e = leaves

at_time-Caches :
    (ctx : ResolveLocksContext) (txn_id : ℕ) (s : TransactionStatus) (r : Result ℕ)
    → get_resolved ctx txn_id ≡ none
    → Caches ctx (at_time ctx txn_id s r).ctx
at_time-Caches ctx txn_id s (ok current) h =
    keep_if-Caches (is_cacheable (check_ttl s current)) ctx txn_id (check_ttl s current) h refl
at_time-Caches ctx txn_id s (err e) h = leaves

answered-Caches :
    (srv : Servers) (ctx : ResolveLocksContext) (req : CheckTxnStatusRequest)
    (r : Result CheckTxnStatusResponse)
    → get_resolved ctx req.lock_ts ≡ none
    → Caches ctx (answered srv ctx req r).ctx
answered-Caches srv ctx req (ok r) h =
    at_time-Caches ctx req.lock_ts (status_of_response r) (srv.now req) h
answered-Caches srv ctx req (err e) h = leaves

from_cache-Caches :
    (srv : Servers) (ctx : ResolveLocksContext) (req : CheckTxnStatusRequest)
    (o : Option TransactionStatus)
    → get_resolved ctx req.lock_ts ≡ o
    → Caches ctx (from_cache srv ctx req o).ctx
from_cache-Caches srv ctx req (some s) h = leaves
from_cache-Caches srv ctx req none h = answered-Caches srv ctx req (srv.checks req) h

check_txn_status-Caches :
    (srv : Servers) (ctx : ResolveLocksContext) (req : CheckTxnStatusRequest)
    → Caches ctx (check_txn_status srv ctx req).ctx
unfolding check_txn_status
check_txn_status-Caches srv ctx req =
    from_cache-Caches srv ctx req (get_resolved ctx req.lock_ts) refl

none-some : {s : TransactionStatus} → none ≢ some s
none-some e = ground (arith, e)

some-injective : {s t : TransactionStatus} → some s ≡ some t → s ≡ t
some-injective {s = s} e = ap (λ o. elim o [ none ↦ s | some t ↦ t ]) e

Caches-stable :
    {ctx d : ResolveLocksContext} (txn_id : ℕ) (s : TransactionStatus)
    → Caches ctx d
    → get_resolved ctx txn_id ≡ some s
    → get_resolved d txn_id ≡ some s
unfolding get_resolved save_resolved
Caches-stable txn_id s leaves h = h
Caches-stable {ctx = ctx} txn_id s (adds j t n c) h = elim (Bool-cases (eqb txn_id j)) [
  | inl e ↦ absurd (none-some (sym n ∙ ap (get_resolved ctx) (sym ((eqb_iff txn_id j).0 e)) ∙ h))
  | inr e ↦
      get-insert j txn_id t ctx.resolved
      ∙ ap (λ b. if b then some t else OrdMap.get txn_id ctx.resolved) e
      ∙ h
]

Caches-cacheable :
    {ctx d : ResolveLocksContext} (txn_id : ℕ) (s : TransactionStatus)
    → Caches ctx d
    → ((s : TransactionStatus) → get_resolved ctx txn_id ≡ some s → is_cacheable s ≡ true)
    → get_resolved d txn_id ≡ some s
    → is_cacheable s ≡ true
unfolding get_resolved save_resolved
Caches-cacheable txn_id s leaves h e = h s e
Caches-cacheable {ctx = ctx} txn_id s (adds j t n c) h e = elim (Bool-cases (eqb txn_id j)) [
  | inl g ↦
      subst (λ t. is_cacheable t ≡ true)
        (some-injective (
          sym (ap (λ b. if b then some t else OrdMap.get txn_id ctx.resolved) g)
          ∙ sym (get-insert j txn_id t ctx.resolved)
          ∙ e))
        c
  | inr g ↦ h s (
      sym (
        get-insert j txn_id t ctx.resolved
        ∙ ap (λ b. if b then some t else OrdMap.get txn_id ctx.resolved) g)
      ∙ e)
]

-- A status that is cached for a transaction is never replaced, whatever is checked afterwards and
-- whatever the servers answer.
pub run_checks-stable :
    (ctx : ResolveLocksContext) (rs : List (Servers × CheckTxnStatusRequest)) (txn_id : ℕ)
    (s : TransactionStatus)
    → get_resolved ctx txn_id ≡ some s
    → get_resolved (run_checks ctx rs) txn_id ≡ some s
unfolding run_checks
run_checks-stable ctx [] txn_id s h = h
run_checks-stable ctx ((srv, req) ∷ rs) txn_id s h =
    run_checks-stable (check_txn_status srv ctx req).ctx rs txn_id s
      (Caches-stable txn_id s (check_txn_status-Caches srv ctx req) h)

from_here :
    (ctx : ResolveLocksContext) (rs : List (Servers × CheckTxnStatusRequest)) (txn_id : ℕ)
    → ((s : TransactionStatus) → get_resolved ctx txn_id ≡ some s → is_cacheable s ≡ true)
    → (s : TransactionStatus) → get_resolved (run_checks ctx rs) txn_id ≡ some s
    → is_cacheable s ≡ true
unfolding run_checks
from_here ctx [] txn_id h s e = h s e
from_here ctx ((srv, req) ∷ rs) txn_id h s e =
    from_here (check_txn_status srv ctx req).ctx rs txn_id
      (λ t. Caches-cacheable txn_id t (check_txn_status-Caches srv ctx req) h) s e

-- What is cached from an empty cache on may be cached: the transaction is committed or rolled back,
-- or its lock has expired and the store has rolled it back or done nothing.
pub run_checks-cacheable :
    (rs : List (Servers × CheckTxnStatusRequest)) (txn_id : ℕ) (s : TransactionStatus)
    → get_resolved (run_checks empty rs) txn_id ≡ some s
    → is_cacheable s ≡ true
unfolding get_resolved OrdMap.get
run_checks-cacheable rs txn_id s h = from_here empty rs txn_id (λ t e. absurd (none-some e)) s h
