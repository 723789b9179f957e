-- ===== src/Store/KeyRows.antt =====
-- What the writes of virtual keys of src/registry/store.py leave: the row of the pair, and every
-- other row of the consumer as it was.
use litellm_control_plane.Common.{
  String, Bool, true, false, Option, none, some, List, [], ◌∷◌, ◌≡◌, refl, sym, ◌∙◌, arith, any,
  eq_refl, ◌==◌, ◌||◌, not, eq_iff, is_some, Option-cases, inl, inr,
}
use litellm_control_plane.Table.{first, has, update, delete}
use litellm_control_plane.Table.Laws.{
  first-append, first-append_other, first-update, first-update_other,
}
use litellm_control_plane.Models.{KeyStatus, ConsumerKey}
use litellm_control_plane.World.{Db, World, returned, ◌>>=◌, modify, utc_now}
use litellm_control_plane.Audit.{log_audit, insert_audit}
use litellm_control_plane.Store.Statements.{by_pair, insert_consumer_key}
use litellm_control_plane.Store.Creation.{accepted}
use litellm_control_plane.Store.ConsumerKeys.{
  get_consumer_key, create_consumer_key, update_consumer_key, update_consumer_key_status,
  delete_consumer_key, delete_consumer_key_rows, update_consumer_key_rows, with_key_status,
  with_virtual_key,
}

-- After a write of the pair.
pub record KeyWritten (consumer_id node_id : String) (row : ConsumerKey) (d d' : Db) : Type 0 where
  pub key : first (by_pair consumer_id node_id) d'.consumer_keys ≡ some row
  pub others :
      (j : String)
      → (node_id == j) ≡ false
      → first (by_pair consumer_id j) d'.consumer_keys
        ≡ first (by_pair consumer_id j) d.consumer_keys
  pub consumers_kept : d'.consumers ≡ d.consumers
  pub nodes_kept : d'.nodes ≡ d.nodes

any-none : {A : Type 0} (p : A → Bool) (rows : List A) → first p rows ≡ none → any p rows ≡ false
unfolding first any
any-none p [] h = refl
any-none p (x ∷ rows) h = ground (arith, any-none p rows)

by_pair_self : (k : ConsumerKey) → by_pair k.consumer_id k.node_id k ≡ true
unfolding by_pair
by_pair_self k = rw (eq_refl k.consumer_id, eq_refl k.node_id) refl

by_pair_other :
    (c n j : String) (k : ConsumerKey)
    → (n == j) ≡ false
    → by_pair c n k ≡ true
    → by_pair c j k ≡ false
unfolding by_pair
by_pair_other c n j k apart h =
    let e : k.node_id ≡ n = (eq_iff k.node_id n).0 (ground arith) in rw e (ground arith)

pub create_consumer_key-KeyWritten :
    (k : ConsumerKey) (actor : String) (reason : Option String) (w : World)
    → first (by_pair k.consumer_id k.node_id) w.consumer_keys ≡ none
    → has (λ c. c.id) k.consumer_id w.consumers ≡ true
    → has (λ n. n.id) k.node_id w.nodes ≡ true
    → let m = create_consumer_key k actor reason w in
      (m.0 ≡ returned k) × KeyWritten k.consumer_id k.node_id k w.db m.1.db
unfolding create_consumer_key insert_consumer_key get_consumer_key ◌>>=◌ log_audit insert_audit
    utc_now modify
create_consumer_key-KeyWritten k actor reason w missing consumer node =
    let fine : (any (by_pair k.consumer_id k.node_id) w.consumer_keys
          || (not (has (λ c. c.id) k.consumer_id w.consumers)
              || not (has (λ n. n.id) k.node_id w.nodes)))
        ≡ false =
      rw (any-none _ w.consumer_keys missing, consumer, node) refl in
    let found =
      first-append (by_pair k.consumer_id k.node_id) k w.consumer_keys missing (by_pair_self k) in
    rw (accepted _ _ w fine) (
      rw found (
        refl,
        record {
          key = found;
          others = λ j apart.
              first-append_other (by_pair k.consumer_id j) k w.consumer_keys
                (by_pair_other k.consumer_id k.node_id j k apart (by_pair_self k));
          consumers_kept = refl;
          nodes_kept = refl;
        },
      ))

module _ (c n : String) (k : ConsumerKey) (actor : String) (reason : Option String) (w : World)
    (h : first (by_pair c n) w.consumer_keys ≡ some k) where
  others_kept :
      (f : ConsumerKey → ConsumerKey) (j : String)
      → ((x : ConsumerKey) → by_pair c j (f x) ≡ by_pair c j x)
      → (n == j) ≡ false
      → first (by_pair c j) (update (by_pair c n) f w.consumer_keys)
        ≡ first (by_pair c j) w.consumer_keys
  others_kept f j same apart =
      first-update_other (by_pair c n) (by_pair c j) f w.consumer_keys
        λ x hx. let out = by_pair_other c n j x apart hx in (out, same x ∙ out)

  pub update_consumer_key_status-KeyWritten :
      (status : KeyStatus)
      → let m = update_consumer_key_status c n status actor reason w in
        (m.0 ≡ returned (some (with_key_status status k)))
        × KeyWritten c n (with_key_status status k) w.db m.1.db
  unfolding update_consumer_key_status get_consumer_key ◌>>=◌ update_consumer_key_rows log_audit
      insert_audit utc_now modify by_pair with_key_status
  update_consumer_key_status-KeyWritten status =
      let f = with_key_status status in
      let found = first-update (by_pair c n) f k w.consumer_keys (λ x. refl) h in
      rw (h, found)
        (
          refl,
          record {
            key = found;
            others = λ j apart. others_kept f j (λ x. refl) apart;
            consumers_kept = refl;
            nodes_kept = refl;
          },
        )

  pub update_consumer_key-KeyWritten :
      (virtual_key : String) (status : KeyStatus)
      → let m = update_consumer_key c n virtual_key status actor reason w in
        (m.0 ≡ returned (some (with_virtual_key virtual_key status k)))
        × KeyWritten c n (with_virtual_key virtual_key status k) w.db m.1.db
  unfolding update_consumer_key get_consumer_key ◌>>=◌ update_consumer_key_rows log_audit
      insert_audit utc_now modify by_pair with_virtual_key
  update_consumer_key-KeyWritten virtual_key status =
      let f = with_virtual_key virtual_key status in
      let found = first-update (by_pair c n) f k w.consumer_keys (λ x. refl) h in
      rw (h, found)
        (
          refl,
          record {
            key = found;
            others = λ j apart. others_kept f j (λ x. refl) apart;
            consumers_kept = refl;
            nodes_kept = refl;
          },
        )

delete_missing :
    {A : Type 0} (p : A → Bool) (rows : List A) → first p rows ≡ none → delete p rows ≡ rows
unfolding first delete
delete_missing p [] h = refl
delete_missing p (x ∷ rows) h = ground (arith, delete_missing p rows)

-- After a deletion of the pair, which sends nothing.
pub record KeyDeleted (consumer_id node_id : String) (w w' : World) : Type 0 where
  pub keys : w'.consumer_keys ≡ delete (by_pair consumer_id node_id) w.consumer_keys
  pub nodes_kept : w'.nodes ≡ w.nodes
  pub sent_kept : w'.process.sent ≡ w.process.sent

pub delete_consumer_key-KeyDeleted :
    (c n actor : String) (reason : Option String) (w : World)
    → let m = delete_consumer_key c n actor reason w in
      (m.0 ≡ returned (is_some (first (by_pair c n) w.consumer_keys))) × KeyDeleted c n w m.1
unfolding delete_consumer_key get_consumer_key ◌>>=◌ delete_consumer_key_rows log_audit insert_audit
    utc_now modify
delete_consumer_key-KeyDeleted c n actor reason w =
    elim (Option-cases (first (by_pair c n) w.consumer_keys)) [
      | inl missing ↦ rw missing (
        refl,
        record {
          keys = sym (delete_missing (by_pair c n) w.consumer_keys missing);
          nodes_kept = refl;
          sent_kept = refl;
        },
      )
      | inr (k, found) ↦
          rw found (refl, record { keys = refl; nodes_kept = refl; sent_kept = refl })
    ]
