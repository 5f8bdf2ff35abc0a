-- ===== src/Plan/Pass/Recovers.antt =====
-- A pass of a read or write at the leader, when the servers recover.
use rust_tikv_client.Prelude.{
  ℕ, ◌+◌, ◌-◌, ◌≤◌, ◌<◌, ◌≡◌, sym, subst, true, false, ◌&&◌, ◌||◌, ltb, All, length, Option, none,
  some, [], if◌then◌else◌, if-elim, arith,
}
use rust_tikv_client.Order.{nat_ord}
use rust_tikv_client.Backoff.{Backoff, BackoffKind, next_delay_duration, delay_of}
use rust_tikv_client.Backoff.Doubling.{next_step}
use rust_tikv_client.Region.{RegionVerId, RegionWithLeader, ver_id, region_id, get_store_id}
use rust_tikv_client.Routing.{
  ReadRouting, is_replica_read_mode, pin_store_for_region, clear_pinned_store_for_region,
  mark_store_slow_for,
}
use rust_tikv_client.Plan.{
  World, State, RegionStore, Response, ErrorPb, PlanError, Answer, ok, err, is_grpc_error,
}
use rust_tikv_client.Plan.RegionError.{Handled, handle_region_error}
use rust_tikv_client.Plan.RegionError.Laws.{IsHandled, handle_region_error-IsHandled}
use rust_tikv_client.Plan.Pass.{
  Next, done, again, panic, set_routing, non_witness_peers, Passed, after_delay, handle_other_error,
  back_off, busy_store, fast_retry_or_back_off, after_handled, try_another, pin_store, pin_or_clear,
  not_ready, slow_store, on_region_error, on_clean, on_response, on_answer,
}

abbrev pub IsOk {ℓ} : {X : Type ℓ} → Answer X → Type 0
IsOk (ok x) = Unit {0}
IsOk (err e) = ⊥

-- Reads go to the leader, and no backoff is pending.
pub record IsCalm (r : ReadRouting) : Type 0 where
  pub at_leader : is_replica_read_mode r ≡ false
  pub paid : r.pending_backoffs ≡ []

-- The delays have no jitter, and there are as many as attempts are left below n.
pub record IsReady (n : ℕ) (b : Backoff) (attempt : ℕ) : Type 0 where
  pub plain : b.kind ≡ BackoffKind.no_jitter
  pub enough : b.current_attempts + (n - attempt) ≤ b.max_attempts

-- A response without an error, or, before attempt n, one with an error of the region that is neither
-- an entry too large for Raft nor data that is not ready.
abbrev pub Recovered : ℕ → ℕ → Option ErrorPb → Type 0
Recovered n attempt none = Unit {0}
Recovered n attempt (some e) =
    (attempt < n) × (e.raft_entry_too_large ≡ false) × (e.data_is_not_ready ≡ false)

-- An answer of a store that recovers: before attempt n the transport may fail.
abbrev pub Recovers : {A : Type 0} → ℕ → ℕ → Answer (Response A) → Type 0
Recovers n attempt (ok resp) = (resp.key_errors ≡ none) × Recovered n attempt resp.region_error
Recovers n attempt (err e) = (attempt < n) × (is_grpc_error e ≡ true)

-- How a pass ends then.
abbrev pub Good : {P A : Type 0} → ℕ → ℕ → State × Next P A → Type 0
Good n attempt (s, done (ok rs)) = IsCalm s.routing × All IsOk rs × (1 ≤ length rs)
Good n attempt (s, done (err e)) = ⊥
Good n attempt (s, again plan b later) =
    IsCalm s.routing × IsReady n b later × (n - later < n - attempt)
Good n attempt (s, panic) = ⊥

module _ {P A : Type 0} (w : World P A) (n : ℕ) where
  after_delay-Good :
      (s : State) (plan : P) (attempt later : ℕ) (e : PlanError) (gen : ℕ → ℕ) (b : Backoff)
      → IsCalm s.routing
      → IsReady n b attempt
      → attempt < n
      → attempt < later
      → Good n attempt (after_delay w s plan later e (next_delay_duration gen b))
  unfolding delay_of
  after_delay-Good s plan attempt later e gen b c r l m =
      subst (λ d. Good n attempt (after_delay w s plan later e d))
        (sym (next_step gen BackoffKind.no_jitter b r.plain (omega (arith, r.enough))))
        (c, record { plain = r.plain; enough = omega (arith, r.enough) }, omega arith)

  handle_other_error-Good :
      (s : State) (plan : P) (v : RegionVerId) (store : Option ℕ) (b : Backoff) (attempt later : ℕ)
      (e : PlanError)
      → IsCalm s.routing
      → IsReady n b attempt
      → attempt < n
      → attempt < later
      → Good n attempt (handle_other_error w s plan v store b later e)
  unfolding handle_other_error
  handle_other_error-Good s plan v store b attempt later e c r l m =
      after_delay-Good _ plan attempt (later + 1) e (w.gen s.ticks) b c r l (omega arith)

  clear-IsCalm : (i : ℕ) (r : ReadRouting) → IsCalm r → IsCalm (clear_pinned_store_for_region i r)
  unfolding clear_pinned_store_for_region
  clear-IsCalm i r c = record { at_leader = c.at_leader; paid = c.paid }

  mark-IsCalm :
      (now store d : ℕ) (r : ReadRouting) → IsCalm r → IsCalm (mark_store_slow_for now store d r)
  unfolding mark_store_slow_for
  mark-IsCalm now store d r c = record { at_leader = c.at_leader; paid = c.paid }

  pin_store-IsCalm :
      (region : RegionWithLeader) (o : Option ℕ) (r : ReadRouting)
      → IsCalm r
      → IsCalm (pin_store w region o r)
  unfolding pin_store_for_region
  pin_store-IsCalm region none r c = c
  pin_store-IsCalm region (some store) r c = record { at_leader = c.at_leader; paid = c.paid }

  pin_or_clear-IsCalm :
      (rs : RegionStore) (e : ErrorPb) (r : ReadRouting) → IsCalm r → IsCalm (pin_or_clear w rs e r)
  pin_or_clear-IsCalm rs e r c =
      if-elim IsCalm
        (e.max_timestamp_not_synced || e.read_index_not_ready || e.proposal_in_merging_mode)
        (pin_store w rs.region_with_leader (get_store_id rs.region_with_leader) r)
        (clear_pinned_store_for_region (region_id rs.region_with_leader) r)
        (λ _. pin_store-IsCalm rs.region_with_leader (get_store_id rs.region_with_leader) r c)
        (λ _. clear-IsCalm (region_id rs.region_with_leader) r c)

  slow_store-IsCalm :
      (s : State) (o : Option ℕ) → IsCalm s.routing → IsCalm (slow_store w s o).routing
  slow_store-IsCalm s none c = c
  slow_store-IsCalm s (some store) c = mark-IsCalm (w.now_ms s.ticks) store 500 s.routing c

  module _ (plan : P) (b : Backoff) (rs : RegionStore) (ready : IsReady n b rs.attempt) where
    abbrev Well : Passed w → Type 0
    Well r = Good n rs.attempt r

    module _ (e : ErrorPb) (early : rs.attempt < n) (small : e.raft_entry_too_large ≡ false)
        (data_ready : e.data_is_not_ready ≡ false) where
      fast_retry-Well :
          (s : State) → IsCalm s.routing → Well (fast_retry_or_back_off w s plan b rs e)
      fast_retry-Well s c =
          let peers = non_witness_peers rs.region_with_leader.region.peers in
          if-elim Well
            (is_replica_read_mode s.routing
              && e.server_is_busy
              && ltb 1 peers
              && ltb (rs.attempt + 1) peers)
            (
              set_routing s (busy_store w s (get_store_id rs.region_with_leader)),
              again plan b (rs.attempt + 1),
            )
            (back_off w s plan b rs e) (λ t. absurd (ground (arith, t, c.at_leader)))
            (λ _.
              after_delay-Good s plan rs.attempt (rs.attempt + 1) (PlanError.region_error e)
                (w.gen s.ticks) b c ready early (omega arith))

      after_handled-Well :
          (s : State) (h : Handled)
          → IsCalm s.routing
          → IsHandled (ver_id rs.region_with_leader) e s.cache h
          → Well (after_handled w s plan b rs e h)
      after_handled-Well s (c', ok true) c i =
          (c, record { plain = ready.plain; enough = omega (arith, ready.enough) }, omega arith)
      after_handled-Well s (c', ok false) c i = fast_retry-Well (record s { cache = c' }) c
      after_handled-Well s (c', err x) c i = absurd (ground (arith, i.2, small))

      on_region_error-Well : (s : State) → IsCalm s.routing → Well (on_region_error w s plan b rs e)
      unfolding on_region_error
      on_region_error-Well s c =
          let pinned = set_routing s (pin_or_clear w rs e s.routing) in
          let cleared =
            set_routing s
              (clear_pinned_store_for_region (region_id rs.region_with_leader) pinned.routing) in
          let handled =
            handle_region_error (w.gen s.ticks) (w.now_epoch_sec s.ticks) rs.region_with_leader e
              pinned.cache in
          let stale = is_replica_read_mode s.routing && e.stale_command in
          let rest =
            if stale
            then try_another w cleared plan b rs e
            else after_handled w pinned plan b rs e handled in
          if-elim Well (e.data_is_not_ready && rs.stale_read) (not_ready w s plan b rs e) rest
            (λ t. absurd (ground (arith, t, data_ready)))
            (λ _.
              if-elim Well stale (try_another w cleared plan b rs e)
                (after_handled w pinned plan b rs e handled)
                (λ t. absurd (ground (arith, t, c.at_leader)))
                (λ _. after_handled-Well pinned handled (pin_or_clear-IsCalm rs e s.routing c) (
                  handle_region_error-IsHandled (w.gen s.ticks) (w.now_epoch_sec s.ticks)
                    rs.region_with_leader e pinned.cache)))

    on_clean-Well :
        (s : State) (resp : Response A) (o : Option ErrorPb)
        → IsCalm s.routing
        → Recovered n rs.attempt o
        → Well (on_clean w s plan b rs resp o)
    on_clean-Well s resp none c g =
        (clear-IsCalm (region_id rs.region_with_leader) s.routing c, (tt, tt), omega arith)
    on_clean-Well s resp (some e) c g = on_region_error-Well e g.0 g.1 g.2 s c

    pub on_answer-Well :
        (s : State) (a : Answer (Response A))
        → IsCalm s.routing
        → Recovers n rs.attempt a
        → Well (on_answer w s plan b rs a)
    unfolding on_answer
    on_answer-Well s (ok resp) c g =
        subst (λ o. Well (on_response w s plan b rs resp o)) (sym g.0)
          (on_clean-Well s resp resp.region_error c g.1)
    on_answer-Well s (err e) c g =
        let store = get_store_id rs.region_with_leader in
        let v = ver_id rs.region_with_leader in
        subst
          (λ t. Well (
            if t
            then handle_other_error w (slow_store w s store) plan v store b (rs.attempt + 1) e
            else (s, done (err e))))
          (sym g.1)
          (handle_other_error-Good (slow_store w s store) plan v store b rs.attempt (rs.attempt + 1)
            e (slow_store-IsCalm s store c) ready g.0 (omega arith))
