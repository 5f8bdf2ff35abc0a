-- ===== src/Transaction/Results.antt =====
-- src/common/errors.rs and src/transaction/transaction.rs: the errors of a transaction, and how a
-- call ends. Errors that only pass through are `failed`, with a number that stands for the rest;
-- messages are left out.
use rust_tikv_client.Prelude.{ℕ, Bool, true, false, List}
use rust_tikv_client.Key.{Key}

mutual
  pub data Error : Type 0 where
    grpc failed : ℕ → Error
    operation_after_commit_error invalid_transaction_type no_primary_key : Error
    duplicate_key_insertion invalid_pessimistic_lock_options : Error
    invalid_pipelined_transaction string_error : Error
    commit_ts_lag : ℕ → ℕ → Error
    write_conflict_in_latch : ℕ → Error
    undetermined_error : Error → Error
    pessimistic_lock_error : Error → List Key → Error
    multiple_key_errors extracted_errors : Errors → Error

  pub data Errors : Type 0 where
    no_errors : Errors
    one_more : Error → Errors → Errors

pub data Result {ℓ} (A : Type ℓ) : Type ℓ where
  ok : A → Result A
  err : Error → Result A

-- `pending` is a loop that has run out of fuel.
pub data Outcome {ℓ} (A : Type ℓ) : Type ℓ where
  returns : Result A → Outcome A
  panics pending : Outcome A

-- `if let Error::Grpc(_) = e`.
abbrev pub is_grpc : Error → Bool
is_grpc (Error.grpc n) = true
is_grpc _ = false

abbrev pub is_ok {ℓ} : {A : Type ℓ} → Outcome A → Bool
is_ok (returns (ok a)) = true
is_ok _ = false

-- The arms for `MultipleKeyErrors` and `ExtractedErrors` after a prewrite.
abbrev pub one_or_all : Errors → Error
one_or_all (one_more e no_errors) = e
one_or_all es = multiple_key_errors es

unfoldable pub prewrite_error : Error → Error
prewrite_error (multiple_key_errors es) = one_or_all es
prewrite_error (extracted_errors es) = one_or_all es
prewrite_error e = e
