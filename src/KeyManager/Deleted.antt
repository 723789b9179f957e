-- ===== src/KeyManager/Deleted.antt =====
-- What `delete_consumer_from_all_nodes` of src/registry/key_manager.py sends and what it leaves.
use litellm_control_plane.Common.{
  String, Bool, true, false, Option, none, some, List, [], ◌∷◌, ◌++◌, ◌≡◌, ◌≢◌, ◌↔◌, refl, sym, ◌∙◌,
  ap, subst, Bool-cases, inl, inr, if◌then◌else◌, ◌==◌, eq_iff, eq_refl, select,
}
use mathlib.Core.List.{Memᴰ}
use litellm_control_plane.Common.Text.{truthy}
use litellm_control_plane.Table.{by, first}
use litellm_control_plane.Table.Members.{every, delete_iff, select_mem}
use litellm_control_plane.Models.{Node, ConsumerKey}
use litellm_control_plane.Process.{Request}
use litellm_control_plane.World.{World, returned, pure, or_else, ◌>>=◌, send, raise}
use litellm_control_plane.World.Runs.{bind_run, bind_to, swallow_run}
use litellm_control_plane.Store.Statements.{by_pair}
use litellm_control_plane.Store.KeyRows.{delete_consumer_key-KeyDeleted}
use litellm_control_plane.Store.Nodes.{get_node}
use litellm_control_plane.Store.ConsumerKeys.{list_consumer_keys, delete_consumer_key}
use litellm_control_plane.Adapter.{Answer, LiteLlmAdapter, delete_request, delete_key, deleted}
use litellm_control_plane.KeyManager.{
  Fleet, master_key, get_node_master_key, adapter_of, is_placeholder, revoke_on, revoke,
  delete_keys_of, delete_consumer_from_all_nodes,
}
use litellm_control_plane.KeyManager.Synced.{default_key}

-- The revocation of a key on its node.
abbrev pub revocation_on : Fleet → String → Option Node → List Request
revocation_on fleet virtual_key none = []
revocation_on fleet virtual_key (some node) = elim (master_key fleet node.id) [
  | some key ↦ delete_request fleet.proxies (adapter_of fleet node key) virtual_key ∷ []
  | none ↦ []
]

abbrev pub revocation : Fleet → List Node → ConsumerKey → List Request
revocation fleet nodes key =
    if is_placeholder key
    then []
    else revocation_on fleet key.virtual_key (first (by (λ n. n.id) key.node_id) nodes)

revocation_on-some :
    (fleet : Fleet) (virtual_key : String) (node : Node) (key : String)
    → master_key fleet node.id ≡ some key
    → revocation_on fleet virtual_key (some node)
      ≡ delete_request fleet.proxies (adapter_of fleet node key) virtual_key ∷ []
revocation_on-some fleet virtual_key node key h = rw (h, revocation_on) refl

-- The requests after the revocation of the keys in their order, the latest first.
abbrev pub revocations : Fleet → List Node → List ConsumerKey → List Request → List Request
revocations fleet nodes [] sent = sent
revocations fleet nodes (key ∷ keys) sent =
    revocations fleet nodes keys (revocation fleet nodes key ++ sent)

-- Only the requests change.
record Sends (requests : List Request) (w w' : World) : Type 0 where
  pub sent : w'.process.sent ≡ requests ++ w.process.sent
  pub db_kept : w'.db ≡ w.db

deleted-world :
    (proxies : World → Request → Answer) (adapter : LiteLlmAdapter) (a : Answer) (w : World)
    → (deleted proxies adapter a w).1 ≡ w
unfolding raise pure
deleted-world proxies adapter Answer.broken w = refl
deleted-world proxies adapter (Answer.response code body) w = refl

delete_key-Sends :
    (proxies : World → Request → Answer) (adapter : LiteLlmAdapter) (key : String) (w : World)
    → Sends (delete_request proxies adapter key ∷ []) w (delete_key proxies adapter key w).1
unfolding delete_key send ◌>>=◌
delete_key-Sends proxies adapter key w =
    rw (deleted-world proxies adapter _ _) (record { sent = refl; db_kept = refl })

key_run :
    (fleet : Fleet) (id key : String) (w : World)
    → master_key fleet id ≡ some key
    → get_node_master_key fleet id w ≡ (returned key, w)
unfolding get_node_master_key or_else pure
key_run fleet id key w h = rw h refl

module _ (fleet : Fleet)
    (named : (id : String) → (key : String) × (master_key fleet id ≡ some key)) where
  revoke_on-Sends :
      (virtual_key : String) (found : Option Node) (w : World)
      → let m = revoke_on fleet virtual_key found w in
        (m.0 ≡ returned tt) × Sends (revocation_on fleet virtual_key found) w m.1
  unfolding revoke_on or_else pure
  revoke_on-Sends virtual_key none w = (refl, record { sent = refl; db_kept = refl })
  revoke_on-Sends virtual_key (some node) w =
      let (key, k) = named node.id in
      let m = delete_key fleet.proxies (adapter_of fleet node key) virtual_key in
      let step : revoke_on fleet virtual_key (some node) w ≡ (returned tt, (m w).1) =
        bind_to (get_node_master_key fleet node.id) _ (key_run fleet node.id key w k)
        ∙ swallow_run m w in
      rw (step, revocation_on-some fleet virtual_key node key k)
        (refl, delete_key-Sends fleet.proxies (adapter_of fleet node key) virtual_key w)

  revoke-Sends :
      (key : ConsumerKey) (w : World)
      → let m = revoke fleet key w in
        (m.0 ≡ returned tt) × Sends (revocation fleet w.nodes key) w m.1
  unfolding revoke get_node ◌>>=◌ pure
  revoke-Sends key w = elim (Bool-cases (is_placeholder key)) [
    | inl placeholder ↦ rw placeholder (refl, record { sent = refl; db_kept = refl })
    | inr real ↦
        rw real (revoke_on-Sends key.virtual_key (first (by (λ n. n.id) key.node_id) w.nodes) w)
  ]

  delete_keys_of-run :
      (c : String) (keys : List ConsumerKey) (w : World)
      → let m = delete_keys_of fleet c keys w in
        (m.0 ≡ returned tt)
        × (m.1.process.sent ≡ revocations fleet w.nodes keys w.process.sent)
        × ((x : ConsumerKey)
            → Memᴰ x m.1.consumer_keys ↔ (
                Memᴰ x w.consumer_keys
                × ((k : ConsumerKey) → Memᴰ k keys → by_pair c k.node_id x ≡ false)))
  unfolding delete_keys_of pure
  delete_keys_of-run c [] w = (refl, refl, λ x. (λ m. (m, λ k n. elim n [ ]), λ (m, all). m))
  delete_keys_of-run c (key ∷ keys) w =
      let (revoked, s) = revoke-Sends key w in
      let w1 = (revoke fleet key w).1 in
      let (gone, d) =
        delete_consumer_key-KeyDeleted c key.node_id "key-manager" (some "auto revoke key deletion")
          w1 in
      let w2 =
        (delete_consumer_key c key.node_id "key-manager" (some "auto revoke key deletion") w1).1 in
      let (done, sent, left) = delete_keys_of-run c keys w2 in
      let step =
        bind_run (revoke fleet key)
          (λ _.
            delete_consumer_key c key.node_id "key-manager" (some "auto revoke key deletion")
            >>= λ _. delete_keys_of fleet c keys)
          w tt revoked
        ∙ bind_run
            (delete_consumer_key c key.node_id "key-manager" (some "auto revoke key deletion"))
            (λ _. delete_keys_of fleet c keys) w1 _ gone in
      let nodes_same = d.nodes_kept ∙ ap (λ d. d.nodes) s.db_kept in
      let keys_same = ap (λ d. d.consumer_keys) s.db_kept in
      rw step (
        done,
        sent
            ∙ ap (λ n. revocations fleet n keys w2.process.sent) nodes_same
            ∙ ap (revocations fleet w.nodes keys) (d.sent_kept ∙ s.sent),
        λ x.
            let deletes = delete_iff (by_pair c key.node_id) x w1.consumer_keys in
            (
              λ m.
                  let (in2, rest) = (left x).0 m in
                  let (in1, apart) = deletes.0 (subst (Memᴰ x) d.keys in2) in
                  (
                    subst (Memᴰ x) keys_same in1,
                    every (λ k. by_pair c k.node_id x ≡ false) apart rest,
                  ),
              λ (m, all). (left x).1 (
                subst (Memᴰ x) (sym d.keys)
                    (deletes.1 (subst (Memᴰ x) (sym keys_same) m, all key (Memᴰ.head refl))),
                λ k n. all k (Memᴰ.tail n),
              ),
            ),
      )

absurd_test : {b : Bool} → b ≡ true → b ≡ false → ⊥
absurd_test h k = cc

owned : (c : String) (x : ConsumerKey) → x.consumer_id ≡ c → by (λ k. k.consumer_id) c x ≡ true
unfolding by
owned c x e = (eq_iff x.consumer_id c).1 e

own_pair : (c : String) (x : ConsumerKey) → x.consumer_id ≡ c → by_pair c x.node_id x ≡ true
unfolding by_pair
own_pair c x e = rw ((eq_iff x.consumer_id c).1 e, eq_refl x.node_id) refl

foreign : (c n : String) (x : ConsumerKey) → x.consumer_id ≢ c → by_pair c n x ≡ false
unfolding by_pair
foreign c n x h = elim (Bool-cases (x.consumer_id == c)) [
  | inl same ↦ elim (h ((eq_iff x.consumer_id c).0 same)) [ ]
  | inr other ↦ rw other refl
]

-- Where `LITELLM_MASTER_KEY` is set, the deletion of a consumer from the nodes returns, whatever
-- the proxies answer. It has sent one revocation for each key of the consumer whose node is in the
-- database and that is neither marked pending-sync nor a placeholder by its text, in the order of
-- the keys, and nothing else; and it leaves exactly the keys of the other consumers. The id of the
-- consumer is not empty.
pub delete_consumer_from_all_nodes-revocations :
    (fleet : Fleet) (default c : String) (w : World)
    → truthy (fleet.getenv "LITELLM_MASTER_KEY") ≡ some default
    → (c == "") ≡ false
    → let m = delete_consumer_from_all_nodes fleet c w in
      (m.0 ≡ returned tt)
      × (m.1.process.sent
          ≡ revocations fleet w.nodes
              (select (by (λ k. k.consumer_id) c) w.consumer_keys)
              w.process.sent)
      × ((x : ConsumerKey)
          → Memᴰ x m.1.consumer_keys ↔ (Memᴰ x w.consumer_keys × (x.consumer_id ≢ c)))
unfolding delete_consumer_from_all_nodes list_consumer_keys ◌>>=◌
delete_consumer_from_all_nodes-revocations fleet default c w set named =
    let keys = select (by (λ k. k.consumer_id) c) w.consumer_keys in
    let (done, sent, left) = delete_keys_of-run fleet (default_key fleet default set) c keys w in
    rw named (
      done,
      sent,
      λ x. (
        λ m.
            let (was, apart) = (left x).0 m in
            (
              was,
              λ e. absurd_test (own_pair c x e) (
                  apart x
                    (select_mem (by (λ k. k.consumer_id) c) x w.consumer_keys was (owned c x e))),
            ),
        λ (m, other). (left x).1 (m, λ k n. foreign c k.node_id x other),
      ),
    )
