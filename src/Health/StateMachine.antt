-- ===== src/Health/StateMachine.antt =====
-- src/health/state_machine.py. The log lines, the printed line and the metric of a transition are
-- not modelled: they read the arguments and write nothing that the program reads.
pub mod Keeps
pub mod Vocabulary
pub mod Incident
pub mod Signals
pub mod Accounts
pub mod AccountSteps
pub mod AccountSignals
pub mod AccountRuns
pub mod AccountThreshold
pub mod AccountCooldown
pub mod Edges
pub mod AccountEdges
pub mod EndpointEdges
pub mod Endpoints
pub mod EndpointSteps
pub mod EndpointSignals
pub mod EndpointRuns
pub mod EndpointThreshold
pub mod EndpointCooldown
use litellm_control_plane.Common.{
  ℕ, ◌+◌, ◌*◌, String, Bool, true, false, Option, none, some, ◌==◌, ◌||◌, leb, ltb, eqb,
  if◌then◌else◌,
}
use litellm_control_plane.Common.Text.{contains, contains_lower, concat, decimal}
use litellm_control_plane.Models.{Status, Account, Endpoint}
use litellm_control_plane.World.{Exec, pure, or_else, ◌>>=◌, ◌>>◌, utc_now}
use litellm_control_plane.Store.Accounts.{
  get_account, update_accounts, update_account_status, set_account_cooldown,
  increment_account_failure, clear_account_failures,
}
use litellm_control_plane.Store.Endpoints.{
  get_endpoint, update_endpoints, update_endpoint_status, set_endpoint_cooldown,
  increment_endpoint_failure, clear_endpoint_failures,
}
use litellm_control_plane.Store.Incidents.{create_incident}

-- 30 seconds, in microseconds
abbrev pub cooldown_duration : ℕ
cooldown_duration = 30 * 1000000

abbrev pub failure_threshold : ℕ
failure_threshold = 3

-- `a == b` on the texts of two states
abbrev pub status_eq : Status → Status → Bool
status_eq Status.active Status.active = true
status_eq Status.inactive Status.inactive = true
status_eq Status.cooldown Status.cooldown = true
status_eq Status.disabled Status.disabled = true
status_eq Status.degraded Status.degraded = true
status_eq Status.probe Status.probe = true
status_eq Status.recovered Status.recovered = true
status_eq _ _ = false

abbrev pub is_cooldown : Status → Bool
is_cooldown Status.cooldown = true
is_cooldown _ = false

-- The write at the end of a transition.
unfoldable pub write_account_state :
    String → Status → String → Option String → Exec (Option Account)
write_account_state account_id next_state actor reason =
    if is_cooldown next_state
    then (do
      now ← utc_now
      set_account_cooldown account_id (now + cooldown_duration) actor reason
      get_account account_id)
    else update_account_status account_id next_state actor reason

unfoldable pub transition_account_state :
    String → Status → String → (reason raw_response : Option String) → Exec (Option Account)
transition_account_state account_id next_state actor reason raw_response = do
  found ← get_account account_id
  or_else found (pure none) λ acc. if status_eq acc.status next_state then pure (some acc) else do
    create_incident "account" account_id acc.status next_state reason raw_response
    write_account_state account_id next_state actor reason

unfoldable pub write_endpoint_state :
    String → Status → String → Option String → Exec (Option Endpoint)
write_endpoint_state endpoint_id next_state actor reason =
    if is_cooldown next_state
    then (do
      now ← utc_now
      set_endpoint_cooldown endpoint_id (now + cooldown_duration) actor reason
      get_endpoint endpoint_id)
    else update_endpoint_status endpoint_id (some next_state) none actor reason

unfoldable pub transition_endpoint_state :
    String → Status → String → (reason raw_response : Option String) → Exec (Option Endpoint)
transition_endpoint_state endpoint_id next_state actor reason raw_response = do
  found ← get_endpoint endpoint_id
  or_else found (pure none) λ ep. if status_eq ep.status next_state then pure (some ep) else do
    create_incident "endpoint" endpoint_id ep.status next_state reason raw_response
    write_endpoint_state endpoint_id next_state actor reason

unfoldable pub is_auth_error : ℕ → String → Bool
is_auth_error error_code error_message =
    (eqb error_code 401 || eqb error_code 403)
    || (contains_lower "auth" error_message || contains_lower "api key" error_message)

-- The test of the second branch of the two failure handlers.
unfoldable pub is_rate_limit : ℕ → String → Bool
is_rate_limit error_code error_message =
    eqb error_code 429
    || (contains "429" error_message || contains_lower "rate limit" error_message)

-- The three kinds of failure, in the order in which the handlers test for them.
pub data Failure : Type 0 where
  auth rate_limit other : Failure

unfoldable pub classify : ℕ → String → Failure
classify error_code error_message =
    if is_auth_error error_code error_message
    then auth
    else if is_rate_limit error_code error_message
    then rate_limit
    else other

-- The reasons of the three kinds of failure.
unfoldable pub auth_reason : ℕ → String → Option String
auth_reason error_code error_message =
    some (concat "Auth Error (" (concat (decimal error_code) (concat "): " error_message)))

unfoldable pub rate_limit_reason : String → Option String
rate_limit_reason error_message = some (concat "Rate Limit (429): " error_message)

unfoldable pub failure_reason : ℕ → String → Option String
failure_reason failures error_message = some (
    concat "Elevated failure count ("
      (concat (decimal failures) (concat "): Last error: " error_message)))

-- `if failures >= FAILURE_THRESHOLD:`
unfoldable pub degrade_account : String → ℕ → String → String → Option String → Exec (Unit {0})
degrade_account account_id failures error_message actor raw_response =
    if leb failure_threshold failures
    then (do
      transition_account_state account_id Status.degraded actor
          (failure_reason failures error_message) raw_response
      pure tt)
    else pure tt

unfoldable pub fail_account :
    Failure → String → ℕ → String → String → Option String → Exec (Unit {0})
fail_account auth account_id error_code error_message actor raw_response = do
  transition_account_state account_id Status.disabled actor (auth_reason error_code error_message)
      raw_response
  pure tt
fail_account rate_limit account_id error_code error_message actor raw_response = do
  transition_account_state account_id Status.cooldown actor (rate_limit_reason error_message)
      raw_response
  pure tt
fail_account other account_id error_code error_message actor raw_response = do
  failures ← increment_account_failure account_id
  degrade_account account_id failures error_message actor raw_response

unfoldable pub handle_account_failure :
    String → ℕ → (error_message actor : String) → Option String → Exec (Unit {0})
handle_account_failure account_id error_code error_message actor raw_response =
    fail_account (classify error_code error_message) account_id error_code error_message actor
      raw_response

-- `if failures >= FAILURE_THRESHOLD:`
unfoldable pub degrade_endpoint : String → ℕ → String → String → Option String → Exec (Unit {0})
degrade_endpoint endpoint_id failures error_message actor raw_response =
    if leb failure_threshold failures
    then (do
      transition_endpoint_state endpoint_id Status.degraded actor
          (failure_reason failures error_message) raw_response
      pure tt)
    else pure tt

unfoldable pub fail_endpoint :
    Failure → String → ℕ → String → String → Option String → Exec (Unit {0})
fail_endpoint auth endpoint_id error_code error_message actor raw_response = do
  transition_endpoint_state endpoint_id Status.disabled actor (auth_reason error_code error_message)
      raw_response
  pure tt
fail_endpoint rate_limit endpoint_id error_code error_message actor raw_response = do
  transition_endpoint_state endpoint_id Status.cooldown actor (rate_limit_reason error_message)
      raw_response
  pure tt
fail_endpoint other endpoint_id error_code error_message actor raw_response = do
  failures ← increment_endpoint_failure endpoint_id
  degrade_endpoint endpoint_id failures error_message actor raw_response

unfoldable pub handle_endpoint_failure :
    String → ℕ → (error_message actor : String) → Option String → Exec (Unit {0})
handle_endpoint_failure endpoint_id error_code error_message actor raw_response =
    fail_endpoint (classify error_code error_message) endpoint_id error_code error_message actor
      raw_response

-- What a success does to an account in each state.
unfoldable pub succeed_account : Status → ℕ → String → String → Exec (Unit {0})
succeed_account Status.probe failure_count account_id actor =
    if actor == "probe"
    then (do
      transition_account_state account_id Status.active actor (some "Probe success") none
      pure tt)
    else pure tt
succeed_account Status.degraded failure_count account_id actor = do
  transition_account_state account_id Status.active actor (some "Success signal received") none
  pure tt
succeed_account Status.recovered failure_count account_id actor = do
  transition_account_state account_id Status.active actor (some "Success signal received") none
  pure tt
succeed_account Status.active failure_count account_id actor =
    if ltb 0 failure_count then update_accounts account_id clear_account_failures else pure tt
succeed_account _ failure_count account_id actor = pure tt

unfoldable pub handle_account_success : String → String → Exec (Unit {0})
handle_account_success account_id actor = do
  found ← get_account account_id
  or_else found (pure tt) λ acc. succeed_account acc.status acc.failure_count account_id actor

unfoldable pub succeed_endpoint : Status → ℕ → String → String → Exec (Unit {0})
succeed_endpoint Status.probe failure_count endpoint_id actor =
    if actor == "probe"
    then (do
      transition_endpoint_state endpoint_id Status.active actor (some "Probe success") none
      pure tt)
    else pure tt
succeed_endpoint Status.degraded failure_count endpoint_id actor = do
  transition_endpoint_state endpoint_id Status.active actor (some "Success signal received") none
  pure tt
succeed_endpoint Status.recovered failure_count endpoint_id actor = do
  transition_endpoint_state endpoint_id Status.active actor (some "Success signal received") none
  pure tt
succeed_endpoint Status.active failure_count endpoint_id actor =
    if ltb 0 failure_count then update_endpoints endpoint_id clear_endpoint_failures else pure tt
succeed_endpoint _ failure_count endpoint_id actor = pure tt

unfoldable pub handle_endpoint_success : String → String → Exec (Unit {0})
handle_endpoint_success endpoint_id actor = do
  found ← get_endpoint endpoint_id
  or_else found (pure tt) λ ep. succeed_endpoint ep.status ep.failure_count endpoint_id actor
