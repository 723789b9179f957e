-- ===== src/Api/Access/Deletion.antt =====
-- The deletion of a consumer through src/api/routes.py: its keys on the proxies are revoked before
-- its rows go.
use litellm_control_plane.Common.{
  String, Bool, true, false, Option, none, some, ◌≡◌, ◌≢◌, refl, ◌∙◌, select, ◌==◌, Option-cases,
  inl, inr,
}
use mathlib.Core.List.{Memᴰ}
use litellm_control_plane.Common.Text.{truthy}
use litellm_control_plane.Table.{by, first}
use litellm_control_plane.Models.{Consumer, ConsumerKey}
use litellm_control_plane.World.{World, returned, ◌>>=◌, pure, modify, utc_now}
use litellm_control_plane.World.Runs.{bind_run}
use litellm_control_plane.Store.Consumers.{get_consumer, delete_consumer}
use litellm_control_plane.Store.Statements.{delete_consumer_row}
use litellm_control_plane.Audit.{log_audit, insert_audit}
use litellm_control_plane.Table.Laws.{first-delete}
use litellm_control_plane.Table.Members.{delete-Memᴰ}
use litellm_control_plane.KeyManager.{Fleet, delete_consumer_from_all_nodes}
use litellm_control_plane.KeyManager.Deleted.{
  revocations, delete_consumer_from_all_nodes-revocations,
}
use litellm_control_plane.Api.{get_actor, found_or_404}
use litellm_control_plane.Api.Access.{delete_consumer_route}

-- Nothing is left of the consumer, and its keys are revoked.
pub record ConsumerRevoked (fleet : Fleet) (id : String) (w w' : World) : Type 0 where
  pub gone : first (by (λ c. c.id) id) w'.consumers ≡ none
  pub keys_gone : (k : ConsumerKey) → Memᴰ k w'.consumer_keys → k.consumer_id ≢ id
  pub revoked :
      w'.process.sent
      ≡ revocations fleet w.nodes
          (select (by (λ k. k.consumer_id) id) w.consumer_keys)
          w.process.sent

-- What the store deletes.
record Deleted (id : String) (w w' : World) : Type 0 where
  pub gone : first (by (λ c. c.id) id) w'.consumers ≡ none
  pub keys : (k : ConsumerKey) → Memᴰ k w'.consumer_keys → Memᴰ k w.consumer_keys
  pub sent : w'.process.sent ≡ w.process.sent

delete_consumer-Deleted :
    (id actor : String) (reason : Option String) (w : World)
    → (b : Bool) × ((delete_consumer id actor reason w).0 ≡ returned b)
      × Deleted id w (delete_consumer id actor reason w).1
unfolding delete_consumer get_consumer delete_consumer_row ◌>>=◌ log_audit insert_audit modify
    utc_now
delete_consumer-Deleted id actor reason w =
    elim (Option-cases (first (by (λ c. c.id) id) w.consumers)) [
      | inl missing ↦
          rw missing (false, refl, record { gone = missing; keys = λ k m. m; sent = refl })
      | inr (c, found) ↦ rw found (
        true,
        refl,
        record {
          gone = first-delete (by (λ c. c.id) id) w.consumers;
          keys = λ k m. ((delete-Memᴰ (λ k. k.consumer_id) id k w.consumer_keys).0 m).0;
          sent = refl;
        },
      )
    ]

rest_run :
    (fleet : Fleet) (id actor : String) (x_actor : Option String) (consumer : Consumer) (w : World)
    → get_actor x_actor w ≡ (returned actor, w)
    → first (by (λ c. c.id) id) w.consumers ≡ some consumer
    → delete_consumer_route fleet x_actor id w
      ≡ (delete_consumer_from_all_nodes fleet id >>= λ _.
            delete_consumer id actor none >>= λ _. pure tt)
          w
unfolding delete_consumer_route get_consumer found_or_404 ◌>>=◌
rest_run fleet id actor x_actor consumer w admitted found = rw (admitted, found) refl

-- Where `LITELLM_MASTER_KEY` is set and the actor is admitted, the deletion of a consumer that is
-- there, with an id that is not empty, returns, whatever the proxies answer. It has sent the
-- revocations of the keys of the consumer whose node is in the database and that are neither marked
-- pending-sync nor placeholders, and nothing else, and neither the consumer nor a key of it is left.
pub delete_consumer_route-ConsumerRevoked :
    (fleet : Fleet) (default actor id : String) (x_actor : Option String) (consumer : Consumer)
    (w : World)
    → truthy (fleet.getenv "LITELLM_MASTER_KEY") ≡ some default
    → (id == "") ≡ false
    → get_actor x_actor w ≡ (returned actor, w)
    → first (by (λ c. c.id) id) w.consumers ≡ some consumer
    → let m = delete_consumer_route fleet x_actor id w in
      (m.0 ≡ returned tt) × ConsumerRevoked fleet id w m.1
unfolding pure
delete_consumer_route-ConsumerRevoked fleet default actor id x_actor consumer w set named admitted
      found =
    let (done, sent, left) =
      delete_consumer_from_all_nodes-revocations fleet default id w set named in
    let w' = (delete_consumer_from_all_nodes fleet id w).1 in
    let (b, returns, d) = delete_consumer-Deleted id actor none w' in
    let run =
      rest_run fleet id actor x_actor consumer w admitted found
      ∙ bind_run (delete_consumer_from_all_nodes fleet id) _ w tt done
      ∙ bind_run (delete_consumer id actor none) (λ _. pure tt) w' b returns in
    rw run (
      refl,
      record {
        gone = d.gone;
        keys_gone = λ k m. ((left k).0 (d.keys k m)).1;
        revoked = d.sent ∙ sent;
      },
    )
