-- ===== src/Store/Deletion.antt =====
-- What the deletions of src/registry/store.py remove, and when they refuse.
use litellm_control_plane.Common.{
  String, true, false, Option, none, some, List, [], ◌∷◌, ◌≡◌, ◌≢◌, refl, Bool-cases, Option-cases,
  inl, inr, arith, select, length, ltb, ◌↔◌,
}
use mathlib.Core.List.{Memᴰ}
use litellm_control_plane.Table.{by, by_option, first, has, update}
use litellm_control_plane.Models.{Endpoint, ConsumerKey, Rollout, Consumer, ConsumerUpdate}
use litellm_control_plane.World.{Db, World, raised, integrity_error, ◌>>=◌, utc_now, modify}
use litellm_control_plane.Audit.{log_audit, insert_audit}
use litellm_control_plane.Store.Statements.{delete_policy_profile_row, dangling}
use litellm_control_plane.Store.Consumers.{
  get_consumer, update_consumer, update_consumer_row, no_consumer_fields,
}
use litellm_control_plane.Store.PolicyProfiles.{
  get_policy_profile, count_consumers_of, reject_if_referenced, delete_policy_profile,
}
use litellm_control_plane.Store.Creation.{refused}

-- What a deletion of the node leaves in the database.
pub record NodeDeleted (id : String) (d d' : Db) : Type 0 where
  pub gone : first (by (λ n. n.id) id) d'.nodes ≡ none
  pub endpoints_left :
      (e : Endpoint) → Memᴰ e d'.endpoints ↔ (Memᴰ e d.endpoints × (e.node_id ≢ id))
  pub keys_left :
      (k : ConsumerKey) → Memᴰ k d'.consumer_keys ↔ (Memᴰ k d.consumer_keys × (k.node_id ≢ id))
  pub rollouts_left : (r : Rollout) → Memᴰ r d'.rollouts ↔ (Memᴰ r d.rollouts × (r.node_id ≢ id))
  pub accounts_kept : d'.accounts ≡ d.accounts
  pub consumers_kept : d'.consumers ≡ d.consumers

unreferenced :
    (id : String) (cs : List Consumer)
    → ltb 0 (length (select (λ c. by_option c.profile_id id) cs)) ≡ false
    → update (λ c. by_option c.profile_id id) (λ c. record c { profile_id = none }) cs ≡ cs
unfolding select update
unreferenced id [] h = refl
unreferenced id (c ∷ cs) h = ground (arith, unreferenced id cs)

-- Whether it returns or raises, a deletion of a policy profile leaves the consumers as they were:
-- the ON DELETE SET NULL of the schema clears none.
pub delete_policy_profile-consumers :
    (id actor : String) (reason : Option String) (w : World)
    → (delete_policy_profile id actor reason w).1.consumers ≡ w.consumers
unfolding delete_policy_profile get_policy_profile ◌>>=◌ count_consumers_of reject_if_referenced
    delete_policy_profile_row modify log_audit insert_audit utc_now
delete_policy_profile-consumers id actor reason w =
    elim (Option-cases (first (by (λ p. p.id) id) w.policy_profiles)) [
      | inl missing ↦ rw missing refl
      | inr (p, found) ↦
          elim (Bool-cases (ltb 0 (length (select (λ c. by_option c.profile_id id) w.consumers)))) [
            | inl referenced ↦ rw found (rw referenced refl)
            | inr free ↦ rw found (rw free (unreferenced id w.consumers free))
          ]
    ]

given_profile :
    (fields : ConsumerUpdate) (profile : String)
    → fields.profile_id ≡ some profile
    → no_consumer_fields fields ≡ false
unfolding no_consumer_fields
given_profile fields profile h = rw h (ground arith)

-- An update that names a profile that is not there, of a consumer that is: it raises the
-- `IntegrityError` of SQLite, which no `ValueError` replaces, and writes nothing.
pub update_consumer-dangling :
    (id profile : String) (c : Consumer) (fields : ConsumerUpdate) (actor : String)
    (reason : Option String) (w : World)
    → first (by (λ c. c.id) id) w.consumers ≡ some c
    → fields.profile_id ≡ some profile
    → has (λ p. p.id) profile w.policy_profiles ≡ false
    → update_consumer id fields actor reason w ≡ (raised integrity_error, w)
unfolding update_consumer get_consumer ◌>>=◌ update_consumer_row dangling
update_consumer-dangling id profile c fields actor reason w found names missing =
    let violates : dangling fields.profile_id w.policy_profiles ≡ true =
      rw names (rw missing refl) in
    rw found (rw (given_profile fields profile names) (rw (refused _ _ w violates) refl))
