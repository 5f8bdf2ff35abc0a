-- ===== src/Transaction/Status.antt =====
-- src/transaction/transaction.rs: the status of a transaction, in an atomic byte, and the loop that
-- moves it on.
use rust_tikv_client.Prelude.{
  ℕ, Bool, true, false, ◌==◌, List, [], ◌∷◌, Option, none, some, ◌≡◌, refl, sym, ap, subst, ==_iff,
  if◌then◌else◌, All,
}

pub data TransactionStatus : Type 0 where
  read_only active committed started_commit : TransactionStatus
  rolledback started_rollback dropped : TransactionStatus

unfoldable pub status_of_u8 : ℕ → Option TransactionStatus
status_of_u8 n =
    if n == 0
    then some read_only
    else if n == 1
    then some active
    else if n == 2
    then some committed
    else if n == 3
    then some started_commit
    else if n == 4
    then some rolledback
    else if n == 5
    then some started_rollback
    else if n == 6
    then some dropped
    else none

abbrev pub status_as_u8 : TransactionStatus → ℕ
status_as_u8 read_only = 0
status_as_u8 active = 1
status_as_u8 committed = 2
status_as_u8 started_commit = 3
status_as_u8 rolledback = 4
status_as_u8 started_rollback = 5
status_as_u8 dropped = 6

abbrev pub same_status : TransactionStatus → TransactionStatus → Bool
same_status s t = status_as_u8 s == status_as_u8 t

-- The loop of `transit_status`. `failures` lists what each exchange that fails finds in the byte; a
-- weak exchange may fail although it finds the value that was loaded. When they are over the
-- exchange succeeds.
unfoldable pub transit_loop :
    (TransactionStatus → Bool)
    → TransactionStatus
    → List TransactionStatus
    → TransactionStatus
    → TransactionStatus × Bool
transit_loop check next [] current = if check current then (next, true) else (current, false)
transit_loop check next (found ∷ failures) current =
    let again = transit_loop check next failures found in
    if check current
    then if same_status current next then (next, true) else again
    else (current, false)

unfoldable pub can_commit : TransactionStatus → Bool
can_commit started_commit = true
can_commit active = true
can_commit _ = false

unfoldable pub can_rollback : TransactionStatus → Bool
can_rollback started_rollback = true
can_rollback active = true
can_rollback started_commit = true
can_rollback _ = false

unfoldable pub is_operable : TransactionStatus → Bool
is_operable read_only = true
is_operable active = true
is_operable _ = false

status_of_u8-status_as_u8 : (s : TransactionStatus) → status_of_u8 (status_as_u8 s) ≡ some s
unfolding status_of_u8
status_of_u8-status_as_u8 read_only = refl
status_of_u8-status_as_u8 active = refl
status_of_u8-status_as_u8 committed = refl
status_of_u8-status_as_u8 started_commit = refl
status_of_u8-status_as_u8 rolledback = refl
status_of_u8-status_as_u8 started_rollback = refl
status_of_u8-status_as_u8 dropped = refl

same_status-eq : (s t : TransactionStatus) → same_status s t ≡ true → s ≡ t
same_status-eq s t h = cc (
  status_of_u8-status_as_u8 s,
  status_of_u8-status_as_u8 t,
  ap status_of_u8 ((==_iff (status_as_u8 s) (status_as_u8 t)).0 h),
)

stays {ℓ} :
    {A : Type ℓ} (b d : Bool) (moved still again : A)
    → again ≡ (if b then moved else still)
    → (if b then if d then moved else again else still) ≡ (if b then moved else still)
stays true true moved still again h = refl
stays true false moved still again h = h
stays false d moved still again h = refl

-- When no one else stores into the byte, the loop makes the one move that the check allows.
pub transit_loop-alone :
    (check : TransactionStatus → Bool) (next s : TransactionStatus)
    (failures : List TransactionStatus)
    → All (λ t. t ≡ s) failures
    → transit_loop check next failures s ≡ (if check s then (next, true) else (s, false))
unfolding transit_loop
transit_loop-alone check next s [] h = refl
transit_loop-alone check next s (found ∷ failures) h =
    stays (check s) (same_status s next) (next, true) (s, false)
      (transit_loop check next failures found)
      (subst
        (λ t. transit_loop check next failures t ≡ (if check s then (next, true) else (s, false)))
        (sym h.0) (transit_loop-alone check next s failures h.1))
