-- ===== src/Plan/Stores.antt =====
-- src/request/plan.rs: RetryableAllStores, and the merges that do not look into a response. What a
-- store answers is an argument, as is the generator; their numbers count the requests and sleeps of
-- the handler. The handlers of the stores share nothing.
pub mod Laws
use rust_tikv_client.Prelude.{
  ℕ, zero, suc, ◌+◌, ◌==◌, Bool, length, Option, none, some, List, [], ◌∷◌, map, if◌then◌else◌,
}
use rust_tikv_client.Backoff.{Backoff, Delay, waits, stopped, panicked, next_delay_duration}
use rust_tikv_client.Plan.{
  Response, ErrorPb, PlanError, Answer, ok, err, Ends, returns, is_grpc_error,
}

pub data StoreEvent : Type 0 where
  requested : StoreEvent
  slept : ℕ → StoreEvent

module _ {A : Type 0} (execute : ℕ → Answer (Response A)) (gen : ℕ → ℕ → ℕ) where
  -- The requests and sleeps in their order, and the result.
  abbrev pub Handled : Type 0
  Handled = List StoreEvent × Ends (Response A)

  abbrev pub after_event : StoreEvent → Handled → Handled
  after_event e h = (e ∷ h.0, h.1)

  abbrev pub on_region : Response A → Option ErrorPb → Answer (Response A)
  on_region resp (some e) = err (PlanError.region_error e)
  on_region resp none = ok resp

  abbrev pub on_response : Response A → Option ℕ → Answer (Response A)
  on_response resp (some e) = err (PlanError.key_errors e)
  on_response resp none = on_region resp resp.region_error

  abbrev pub on_delay : (ℕ → Backoff → Handled) → ℕ → PlanError → Backoff × Delay → Handled
  on_delay retry t e (b, waits d) = after_event (slept d) (retry (t + 1) b)
  on_delay retry t e (b, stopped) = ([], returns (err e))
  on_delay retry t e (b, panicked) = ([], Ends.panics)

  abbrev pub on_answer : (ℕ → Backoff → Handled) → ℕ → Backoff → Answer (Response A) → Handled
  on_answer retry t b (ok resp) = ([], returns (on_response resp resp.key_errors))
  on_answer retry t b (err e) =
      if is_grpc_error e
      then on_delay retry t e (next_delay_duration (gen t) b)
      else ([], returns (err e))

  -- The fuel counts the turns of the loop.
  unfoldable pub single_store_handler : ℕ → ℕ → Backoff → Handled
  unfolding next_delay_duration
  single_store_handler zero t b = ([], Ends.pending)
  single_store_handler (suc fuel) t b =
      after_event requested (on_answer (single_store_handler fuel) (t + 1) b (execute t))

-- `all_stores().await?`, and then one handler for each store.
unfoldable pub execute_all :
    {S A : Type 0}
    → (S → ℕ → Answer (Response A))
    → (ℕ → ℕ → ℕ)
    → ℕ
    → Backoff
    → Answer (List S)
    → Answer (List (Ends (Response A)))
unfolding single_store_handler
execute_all execute gen fuel b (err e) = err e
execute_all execute gen fuel b (ok stores) =
    ok (map (λ s. (single_store_handler (execute s) gen fuel 0 b).1) stores)

-- `CollectError`: the first error, or every response.
unfoldable pub collect_error : {T : Type 0} → List (Answer T) → Answer (List T)
collect_error [] = ok []
collect_error (err e ∷ rest) = err e
collect_error (ok x ∷ rest) = elim (collect_error rest) [ ok xs ↦ ok (x ∷ xs) | err e ↦ err e ]

-- `CollectSingle`: 0 stands for the error that there is not one response.
unfoldable pub collect_single : {T : Type 0} → List (Answer T) → Answer T
collect_single [] = err (PlanError.other 0)
collect_single (x ∷ []) = x
collect_single (x ∷ y ∷ rest) = err (PlanError.other 0)
