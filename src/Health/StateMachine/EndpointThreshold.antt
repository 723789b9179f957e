-- ===== src/Health/StateMachine/EndpointThreshold.antt =====
-- How many failures degrade an endpoint, and what makes it active again.
use litellm_control_plane.Common.{
  ℕ, zero, suc, String, true, some, List, [], ◌∷◌, ◌≡◌, refl, ◌∙◌, arith, if◌then◌else◌, leb,
  length, All, ◌+◌,
}
use litellm_control_plane.Models.{Status, Endpoint}
use litellm_control_plane.World.{World, returned}
use litellm_control_plane.Store.Endpoints.{count_endpoint_failure, write_endpoint_status}
use litellm_control_plane.Health.StateMachine.{other, classify, failure_threshold}
use litellm_control_plane.Health.StateMachine.Signals.{
  Signal, failed, succeeded, kind, tally_status,
}
use litellm_control_plane.Health.StateMachine.Vocabulary.{endpoint_of, moved_endpoint}
use litellm_control_plane.Health.StateMachine.EndpointSteps.{to_endpoint_state}
use litellm_control_plane.Health.StateMachine.EndpointSignals.{failed_endpoint}
use litellm_control_plane.Health.StateMachine.EndpointRuns.{
  signal_all, FreshRun, signalled, endpoint_after, signal_all_endpoint_lem,
}

record Tallied (n : ℕ) (ep : Endpoint) : Type 0 where
  count : ep.failure_count ≡ n
  state : ep.status ≡ tally_status n

failed-Tallied :
    (n now : ℕ) (ep : Endpoint) → Tallied n ep → Tallied (suc n) (failed_endpoint other now ep)
unfolding failed_endpoint to_endpoint_state count_endpoint_failure moved_endpoint
    write_endpoint_status
failed-Tallied zero now ep t = rw t.count (record { count = refl; state = t.state })
failed-Tallied (suc zero) now ep t = rw t.count (record { count = refl; state = t.state })
failed-Tallied (suc (suc zero)) now ep t =
    rw t.count (rw t.state (record { count = refl; state = refl }))
failed-Tallied (suc (suc (suc n))) now ep t =
    let past : leb failure_threshold (suc (suc (suc n))) ≡ true = ground arith in
    let past_next : leb failure_threshold (suc (suc (suc (suc n)))) ≡ true = ground arith in
    let degraded : ep.status ≡ Status.degraded = t.state ∙ (rw past refl) in
    rw t.count (rw past_next (rw degraded (record { count = refl; state = rw past_next refl })))

signalled-Tallied :
    (n now : ℕ) (s : Signal) (ep : Endpoint)
    → kind s ≡ some other
    → Tallied n ep
    → Tallied (suc n) (signalled s now ep)
unfolding kind signalled
signalled-Tallied n now (failed code message actor raw) ep h t =
    let e : classify code message ≡ other = cc in rw e (failed-Tallied n now ep t)
signalled-Tallied n now (succeeded actor) ep h t = cc

endpoint_after-Tallied :
    (id : String) (ss : List Signal) (w : World) (n m : ℕ) (ep : Endpoint)
    → All (λ s. kind s ≡ some other) ss
    → m ≡ n + length ss
    → Tallied n ep
    → Tallied m (endpoint_after id ss w ep)
unfolding endpoint_after
endpoint_after-Tallied id [] w n m ep h e t = let same : m ≡ n = omega (arith, e) in rw same t
endpoint_after-Tallied id (s ∷ ss) w n m ep (h, hs) e t =
    endpoint_after-Tallied id ss _ (suc n) m _ hs (omega (arith, e))
      (signalled-Tallied n _ s ep h t)

-- An endpoint that is active and has no failures, after any number of failures that are neither
-- authentication errors nor rate limits, each with a new incident id: every handler returns, the
-- failure count is that number, and the endpoint is `degraded` from the third failure on and
-- `active` before.
pub endpoint_failures-degrade :
    (id : String) (ss : List Signal) (w : World) (ep : Endpoint)
    → endpoint_of id w.db ≡ some ep
    → ep.status ≡ Status.active
    → ep.failure_count ≡ 0
    → All (λ s. kind s ≡ some other) ss
    → FreshRun id ss w
    → ((signal_all id ss w).0 ≡ returned tt)
      × (ep' : Endpoint) × (endpoint_of id (signal_all id ss w).1.db ≡ some ep')
      × (ep'.failure_count ≡ length ss)
      × (ep'.status ≡ (if leb 3 (length ss) then Status.degraded else Status.active))
endpoint_failures-degrade id ss w ep found is_active no_failures all_other fresh =
    let run = signal_all_endpoint_lem id ss w ep found fresh in
    let t =
      endpoint_after-Tallied id ss w 0 (length ss) ep all_other (omega arith)
        (record { count = no_failures; state = is_active }) in
    (run.returns, endpoint_after id ss w ep, run.moved, t.count, t.state)
