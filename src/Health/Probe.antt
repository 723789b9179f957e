-- ===== src/Health/Probe.antt =====
-- src/health/probe.py. Log lines are not modelled.
pub mod Requests
pub mod Keeps
pub mod Outcomes
pub mod Success
use litellm_control_plane.Common.{
  ℕ, String, Bool, true, false, Option, none, some, List, [], ◌∷◌, ◌==◌, ◌&&◌, ◌||◌, not, eqb, leb,
  if◌then◌else◌, map, select,
}
use litellm_control_plane.Common.Text.{concat, decimal, codes, lower_codes, has_prefix}
use litellm_control_plane.Table.{by, first}
use litellm_control_plane.Models.{Status, Model, Account, Endpoint, Provider}
use litellm_control_plane.World.{
  World, Error, Outcome, returned, raised, Exec, pure, gets, asks, or_else, ◌>>=◌, ◌>>◌, utc_now,
}
use litellm_control_plane.Store.Accounts.{get_account}
use litellm_control_plane.Store.Endpoints.{get_endpoint}
use litellm_control_plane.Store.Models.{get_model}
use litellm_control_plane.Health.StateMachine.{
  transition_account_state, transition_endpoint_state, handle_endpoint_failure,
  handle_endpoint_success,
}
use litellm_control_plane.Health.Probe.Requests.{ProbeRequest, request_to}

-- What the resolver of src/secrets/doppler.py gives: the key, or the text of an exception.
pub data Resolved : Type 0 where
  key refused : String → Resolved

-- What the HTTP client gives: a response, or the text of an exception.
pub data Reply : Type 0 where
  response : (status_code : ℕ) (text : String) → Reply
  broken : String → Reply

-- The environment of a `ProbeEngine`: its resolver and its client, which may answer differently in
-- each world, and the text of an exception.
pub record Upstream : Type 0 where
  pub resolve : World → String → Resolved
  pub post : World → ProbeRequest → Reply
  pub error_text : Error → String

module _ (upstream : Upstream) where
  abbrev pub rescue : {A : Type 0} → (String → Exec A) → Outcome A → Exec A
  rescue handler (returned a) w = (returned a, w)
  rescue handler (raised e) w = handler (upstream.error_text e) w

  -- `try: body` / `except Exception as e: handler(str(e))`
  unfoldable pub except_exception : {A : Type 0} → Exec A → (String → Exec A) → Exec A
  except_exception body handler w = let (r, w') = body w in rescue handler r w'

  -- `return False` after a failure
  abbrev pub fail_probe : String → ℕ → (message actor : String) → Exec Bool
  fail_probe endpoint_id code message actor = do
    handle_endpoint_failure endpoint_id code message actor none
    pure false

  -- `recovered`, then a success
  unfoldable pub pass_probe : (endpoint_id reason actor : String) → Exec Bool
  pass_probe endpoint_id reason actor = do
    transition_endpoint_state endpoint_id Status.recovered actor (some reason) none
    handle_endpoint_success endpoint_id actor
    pure true

  unfoldable pub connection_failed : (endpoint_id actor text : String) → Exec Bool
  connection_failed endpoint_id actor text =
      fail_probe endpoint_id 503 (concat "Probe connection exception: " text) actor

  -- The `try` block from the reply on.
  unfoldable pub judge_reply : (endpoint_id actor : String) → Reply → Exec Bool
  judge_reply endpoint_id actor (broken text) = connection_failed endpoint_id actor text
  judge_reply endpoint_id actor (response status_code text) =
      except_exception
        (if eqb status_code 200
          then pass_probe endpoint_id "Active probe validation passed" actor
          else fail_probe endpoint_id status_code
              (concat "Probe HTTP " (concat (decimal status_code) (concat ": " text))) actor)
        (connection_failed endpoint_id actor)

  -- `api_key == "mock-key" or api_key.startswith("mock-")`
  abbrev pub is_mock : String → Bool
  is_mock api_key = api_key == "mock-key" || has_prefix "mock-" api_key

  -- `prov[0].lower() if prov else "openai"`
  abbrev pub provider_type : Option Provider → List ℕ
  provider_type none = codes "openai"
  provider_type (some p) = lower_codes p.type

  -- From the key on.
  unfoldable pub probe_with : String → Account → Model → (actor api_key : String) → Exec Bool
  probe_with endpoint_id acc model actor api_key = do
    transition_endpoint_state endpoint_id Status.probe actor (some "Starting active health probe")
        none
    prov ← gets λ d. first (by (λ p. p.id) acc.provider_id) d.providers
    if is_mock api_key
        then pass_probe endpoint_id "Active probe validation passed (mocked)" actor
        else do
          reply ← asks λ w. upstream.post w (request_to (provider_type prov) api_key model.name)
          judge_reply endpoint_id actor reply

  abbrev pub probe_resolved : String → Account → Model → String → Resolved → Exec Bool
  probe_resolved endpoint_id acc model actor (refused text) =
      fail_probe endpoint_id 401 (concat "Secret resolution failure: " text) actor
  probe_resolved endpoint_id acc model actor (key api_key) =
      probe_with endpoint_id acc model actor api_key

  unfoldable pub probe_endpoint : (endpoint_id actor : String) → Exec Bool
  probe_endpoint endpoint_id actor = do
    found ← get_endpoint endpoint_id
    or_else found (pure false) λ ep. do
      account ← get_account ep.account_id
      row ← get_model ep.model_id
      or_else account (pure false) λ acc. or_else row (pure false) λ model. do
        resolved ← asks λ w. upstream.resolve w acc.secret_ref
        probe_resolved endpoint_id acc model actor resolved

  -- `status = 'cooldown' AND (cooldown_until IS NULL OR cooldown_until <= ?)`; the texts that
  -- `isoformat` gives of two times in UTC compare as the times do.
  abbrev pub is_expired : ℕ → Status → Option ℕ → Bool
  is_expired now Status.cooldown none = true
  is_expired now Status.cooldown (some until) = leb until now
  is_expired now _ until = false

  -- `for (ep_id,) in expired_endpoints`
  unfoldable pub probe_all : List String → String → Exec (Unit {0})
  probe_all [] actor = pure tt
  probe_all (ep_id ∷ ids) actor = do probe_endpoint ep_id actor; probe_all ids actor

  -- `account_id = ? AND status NOT IN ('disabled', 'cooldown', 'probe')`
  abbrev pub not_probeable : Status → Bool
  not_probeable Status.disabled = true
  not_probeable Status.cooldown = true
  not_probeable Status.probe = true
  not_probeable _ = false

  unfoldable pub can_probe : String → Endpoint → Bool
  can_probe acc_id e = e.account_id == acc_id && not (not_probeable e.status)

  -- What becomes of an account whose probe passed or failed.
  unfoldable pub conclude_account : String → String → Bool → Exec (Option Account)
  conclude_account acc_id actor true =
      transition_account_state acc_id Status.active actor
        (some "Account probe passed via endpoint probe") none
  conclude_account acc_id actor false =
      transition_account_state acc_id Status.degraded actor
        (some "Account probe failed via endpoint probe") none

  -- The body of the loop over the expired accounts.
  unfoldable pub reconcile_account : String → String → Exec (Option Account)
  reconcile_account acc_id actor = do
    transition_account_state acc_id Status.probe actor
        (some "Account cooldown expired, starting active probe") none
    row ← gets λ d. first (can_probe acc_id) d.endpoints
    or_else row
        (transition_account_state acc_id Status.degraded actor
          (some "Account cooldown expired but no endpoints available to probe") none)
        λ ep. do result ← probe_endpoint ep.id actor; conclude_account acc_id actor result

  unfoldable pub reconcile_accounts : List String → String → Exec (Unit {0})
  reconcile_accounts [] actor = pure tt
  reconcile_accounts (acc_id ∷ ids) actor = do
    reconcile_account acc_id actor
    reconcile_accounts ids actor

  unfoldable pub reconcile_cooldowns : String → Exec (Unit {0})
  reconcile_cooldowns actor = do
    now ← utc_now
    expired_endpoints ←
        gets
          λ d. map (λ e. e.id) (select (λ e. is_expired now e.status e.cooldown_until) d.endpoints)
    probe_all expired_endpoints actor
    expired_accounts ←
        gets
          λ d. map (λ a. a.id) (select (λ a. is_expired now a.status a.cooldown_until) d.accounts)
    reconcile_accounts expired_accounts actor
