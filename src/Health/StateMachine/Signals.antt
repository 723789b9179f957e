-- ===== src/Health/StateMachine/Signals.antt =====
-- What the statements on accounts and on endpoints share: the tests on states, the reasons, and the
-- signals.
use litellm_control_plane.Common.{
  ℕ, String, true, Option, none, some, List, [], ◌∷◌, ◌≡◌, refl, if◌then◌else◌, leb, ◌⊎◌,
}
use litellm_control_plane.Models.{Status, Incident}
use litellm_control_plane.World.{World}
use litellm_control_plane.Health.StateMachine.{
  status_eq, Failure, auth, rate_limit, other, classify, failure_threshold, auth_reason,
  rate_limit_reason, failure_reason,
}
use litellm_control_plane.Health.StateMachine.Vocabulary.{incident_at}

-- The incidents that a step leaves: one where the state differs, and none where it does not.
abbrev pub incidents_of :
    World
    → (target_type id : String) (from to : Status) (reason raw : Option String) → List Incident
incidents_of w target_type id from to reason raw =
    if status_eq from to then [] else incident_at w target_type id from to reason raw ∷ []

pub status_eq_refl : (s : Status) → status_eq s s ≡ true
status_eq_refl Status.active = refl
status_eq_refl Status.inactive = refl
status_eq_refl Status.cooldown = refl
status_eq_refl Status.disabled = refl
status_eq_refl Status.degraded = refl
status_eq_refl Status.probe = refl
status_eq_refl Status.recovered = refl

pub status_eq_sound : (s t : Status) → status_eq s t ≡ true → s ≡ t
status_eq_sound Status.active Status.active h = refl
status_eq_sound Status.inactive Status.inactive h = refl
status_eq_sound Status.cooldown Status.cooldown h = refl
status_eq_sound Status.disabled Status.disabled h = refl
status_eq_sound Status.degraded Status.degraded h = refl
status_eq_sound Status.probe Status.probe h = refl
status_eq_sound Status.recovered Status.recovered h = refl
status_eq_sound _ _ h = cc

unfoldable pub reason_of : Failure → (code failures : ℕ) → String → Option String
reason_of auth code failures message = auth_reason code message
reason_of rate_limit code failures message = rate_limit_reason message
reason_of other code failures message = failure_reason failures message

-- The reason of a success.
unfoldable pub success_reason : Status → Option String
success_reason Status.probe = some "Probe success"
success_reason _ = some "Success signal received"

pub data Signal : Type 0 where
  failed : (code : ℕ) (message actor : String) → Option String → Signal
  succeeded : (actor : String) → Signal

unfoldable pub signal_raw : Signal → Option String
signal_raw (failed code message actor raw) = raw
signal_raw (succeeded actor) = none

-- The kind of a signal that is a failure.
unfoldable pub kind : Signal → Option Failure
kind (failed code message actor raw) = some (classify code message)
kind (succeeded actor) = none

-- The state after `n` failures.
abbrev pub tally_status : ℕ → Status
tally_status n = if leb failure_threshold n then Status.degraded else Status.active

-- The states that a success does not leave.
abbrev pub IsExcluded : Status → Type 0
IsExcluded s = (s ≡ Status.cooldown) ⊎ (s ≡ Status.disabled) ⊎ (s ≡ Status.inactive)

abbrev pub successes : List String → List Signal
successes [] = []
successes (actor ∷ actors) = succeeded actor ∷ successes actors
