-- ===== src/KeyManager/NodeSync.antt =====
-- What one step of `sync_consumer_to_all_nodes` of src/registry/key_manager.py leaves.
use litellm_control_plane.Common.{String, Bool, Option, none, some, ◌∷◌, ◌≡◌, if◌then◌else◌}
use litellm_control_plane.Table.{first}
use litellm_control_plane.Models.{KeyStatus, JsonText, Node, Consumer, ConsumerKey}
use litellm_control_plane.Process.{Request, Value}
use litellm_control_plane.World.{World, returned, ◌>>=◌, send}
use litellm_control_plane.Store.Statements.{by_pair}
use litellm_control_plane.Store.KeyRows.{KeyWritten}
use litellm_control_plane.Adapter.{
  LiteLlmAdapter, KeyLimits, generate_key, post_request, limits_payload,
}
use litellm_control_plane.Adapter.Answers.{brought, accepts, brings, takes}
use litellm_control_plane.KeyManager.{Fleet, adapter_of, limits_of, pending_key, is_pending}

-- The row that the sync of a node leaves, by the row before it, the key that the proxy brings and
-- whether the proxy takes an update.
abbrev pub row_after :
    (consumer_id node_id : String)
    → Option ConsumerKey
    → (generated : Option String) → (ConsumerKey → Bool)
    → ConsumerKey
row_after c n none (some key) takes = record {
  consumer_id = c;
  node_id = n;
  virtual_key = key;
  status = KeyStatus.active;
}
row_after c n none none takes = record {
  consumer_id = c;
  node_id = n;
  virtual_key = pending_key n c;
  status = KeyStatus.pending_sync;
}
row_after c n (some k) generated takes =
    if is_pending k.status
    then elim generated [
      | some key ↦ record k { virtual_key = key; status = KeyStatus.active }
      | none ↦ k
    ]
    else if takes k
    then k
    else record k { status = KeyStatus.pending_sync }

module _ (fleet : Fleet) (consumer : Consumer) (node : Node) (allowed : JsonText)
    (key : String) where
  abbrev adapter : LiteLlmAdapter
  adapter = adapter_of fleet node key

  abbrev limits : KeyLimits
  limits = limits_of consumer allowed

  abbrev pub generate_request : Request
  generate_request = post_request fleet.proxies adapter "/key/generate" (limits_payload limits)

  abbrev pub update_request : ConsumerKey → Request
  update_request k =
      post_request fleet.proxies adapter "/key/update"
        (("key", Value.text k.virtual_key) ∷ limits_payload limits)

  -- The rows after the sync of the node.
  abbrev pub NodeSynced : World → World → Type 0
  NodeSynced w w' =
      KeyWritten consumer.id node.id
        (row_after consumer.id node.id (first (by_pair consumer.id node.id) w.consumer_keys)
          (brought (fleet.proxies w generate_request))
          (λ k. accepts (fleet.proxies w (update_request k))))
        w.db w'.db

  abbrev asked : Request → World → World
  asked r w = record w { process = record w.process { sent = r ∷ w.process.sent } }

  generated :
      (w : World) (virtual : String)
      → brought (fleet.proxies w generate_request) ≡ some virtual
      → generate_key fleet.proxies adapter limits w ≡ (returned virtual, asked generate_request w)
  unfolding generate_key send ◌>>=◌
  generated w virtual h = brings _ _ _ virtual _ _ h

  abbrev offered : Option String → String × KeyStatus
  offered (some virtual) = (virtual, KeyStatus.active)
  offered none = (pending_key node.id consumer.id, KeyStatus.pending_sync)
