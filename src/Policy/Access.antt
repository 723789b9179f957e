-- ===== src/Policy/Access.antt =====
-- To whom the policy engine of src/policy/engine.py hands endpoints.
use litellm_control_plane.Common.{
  String, Bool, true, false, Option, none, some, List, [], ◌≡◌, refl, Option-cases, inl, inr, ◌⊎◌,
}
use mathlib.Core.List.{Memᴰ}
use litellm_control_plane.Table.{by, first}
use litellm_control_plane.Models.{ConsumerStatus, Endpoint, Consumer, PolicyProfile}
use litellm_control_plane.World.{Db, World, Outcome, returned, raised, ◌>>=◌, type_error}
use litellm_control_plane.Store.Consumers.{get_consumer}
use litellm_control_plane.Store.PolicyProfiles.{get_policy_profile}
use litellm_control_plane.Policy.{get_candidate_endpoints, group_allowed, given, candidates_of}

-- The consumer is active, and its profile lists the group.
pub record IsAuthorised (d : Db) (consumer_id group : String) : Type 0 where
  pub consumer : Consumer
  pub consumer_found : first (by (λ c. c.id) consumer_id) d.consumers ≡ some consumer
  pub active : consumer.status ≡ ConsumerStatus.active
  pub profile_id : String
  pub has_profile : given consumer.profile_id ≡ some profile_id
  pub profile : PolicyProfile
  pub profile_found : first (by (λ p. p.id) profile_id) d.policy_profiles ≡ some profile
  pub allowed : group_allowed group profile.allowed_model_groups ≡ some (some true)

ConsumerStatus-cases :
    (s : ConsumerStatus) → (s ≡ ConsumerStatus.active) ⊎ (s ≡ ConsumerStatus.disabled)
ConsumerStatus-cases ConsumerStatus.active = inl refl
ConsumerStatus-cases ConsumerStatus.disabled = inr refl

decision-cases :
    (o : Option (Option Bool))
    → (o ≡ none) ⊎ (o ≡ some none) ⊎ (o ≡ some (some false)) ⊎ (o ≡ some (some true))
decision-cases none = inl refl
decision-cases (some none) = inr (inl refl)
decision-cases (some (some false)) = inr (inr (inl refl))
decision-cases (some (some true)) = inr (inr (inr refl))

module _ (consumer_id group : String) (w : World) where
  pub authorised-candidates :
      IsAuthorised w.db consumer_id group
      → get_candidate_endpoints consumer_id group w ≡ (returned (candidates_of w.db group), w)
  unfolding get_candidate_endpoints get_consumer get_policy_profile ◌>>=◌
  authorised-candidates h =
      rw h.consumer_found (rw h.active (rw h.has_profile (rw h.profile_found (rw h.allowed refl))))

  -- What a request that hands out nothing gives.
  abbrev IsRefused : Outcome (List Endpoint) × World → Type 0
  IsRefused r = (r ≡ (returned [], w)) ⊎ (r ≡ (raised type_error, w))

  pub IsAuthorised-or_IsRefused :
      IsAuthorised w.db consumer_id group ⊎ IsRefused (get_candidate_endpoints consumer_id group w)
  unfolding get_candidate_endpoints get_consumer get_policy_profile ◌>>=◌
  IsAuthorised-or_IsRefused = elim (Option-cases (first (by (λ c. c.id) consumer_id) w.consumers)) [
    | inl missing ↦ inr (inl (rw missing refl))
    | inr (c, c_found) ↦ elim (ConsumerStatus-cases c.status) [
      | inr off ↦ inr (inl (rw c_found (rw off refl)))
      | inl on ↦ elim (Option-cases (given c.profile_id)) [
        | inl missing ↦ inr (inl (rw c_found (rw on (rw missing refl))))
        | inr (id, given_id) ↦ elim (Option-cases (first (by (λ p. p.id) id) w.policy_profiles)) [
          | inl missing ↦ inr (inl (rw c_found (rw on (rw given_id (rw missing refl)))))
          | inr (p, p_found) ↦ elim (decision-cases (group_allowed group p.allowed_model_groups)) [
            | inl d ↦ inr (inl (rw c_found (rw on (rw given_id (rw p_found (rw d refl))))))
            | inr (inl d) ↦ inr (inr (rw c_found (rw on (rw given_id (rw p_found (rw d refl))))))
            | inr (inr (inl d)) ↦
                inr (inl (rw c_found (rw on (rw given_id (rw p_found (rw d refl))))))
            | inr (inr (inr d)) ↦ inl (record {
              consumer = c;
              consumer_found = c_found;
              active = on;
              profile_id = id;
              has_profile = given_id;
              profile = p;
              profile_found = p_found;
              allowed = d;
            })
          ]
        ]
      ]
    ]
  ]

  -- The call returns a list in which the endpoint stands.
  abbrev pub HandsOut : Endpoint → Type 0
  HandsOut e =
      (es : List Endpoint) × ((get_candidate_endpoints consumer_id group w).0 ≡ returned es)
      × Memᴰ e es
