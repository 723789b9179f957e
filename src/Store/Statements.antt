-- ===== src/Store/Statements.antt =====
-- The `INSERT` and `DELETE` statements of src/registry/store.py under the constraints of
-- src/config/schema.sql, which a connection of src/config/db.py enforces
-- (`PRAGMA foreign_keys = ON`).
use litellm_control_plane.Common.{
  String, Bool, false, Option, none, some, List, [], ◌∷◌, ◌++◌, not, ◌||◌, ◌&&◌, ◌==◌, any,
}
use litellm_control_plane.Table.{by, by_option, update, delete, has}
use litellm_control_plane.Models.{
  Node, Provider, Model, Account, Endpoint, Consumer, ConsumerKey, PolicyProfile, Rollout, Incident,
}
use litellm_control_plane.World.{Db, Exec, modify, statement}

-- PRIMARY KEY (id)
unfoldable pub insert_node : Node → Exec (Unit {0})
insert_node n =
    statement (λ d. has (λ m. m.id) n.id d.nodes) λ d. record d { nodes = d.nodes ++ n ∷ [] }

-- ON DELETE CASCADE in `endpoints`, `consumer_keys` and `rollouts`
unfoldable pub cascade_node : String → Db → Db
cascade_node id d = record d {
  nodes = delete (by (λ n. n.id) id) d.nodes;
  endpoints = delete (by (λ e. e.node_id) id) d.endpoints;
  consumer_keys = delete (by (λ k. k.node_id) id) d.consumer_keys;
  rollouts = delete (by (λ r. r.node_id) id) d.rollouts;
}

unfoldable pub delete_node_row : String → Exec (Unit {0})
delete_node_row id = modify (cascade_node id)

unfoldable pub insert_provider : Provider → Exec (Unit {0})
insert_provider p =
    statement (λ d. has (λ q. q.id) p.id d.providers)
      λ d. record d { providers = d.providers ++ p ∷ [] }

-- ON DELETE RESTRICT in `accounts`
unfoldable pub delete_provider_row : String → Exec (Unit {0})
delete_provider_row id =
    statement (λ d. has (λ a. a.provider_id) id d.accounts)
      λ d. record d { providers = delete (by (λ p. p.id) id) d.providers }

unfoldable pub insert_model : Model → Exec (Unit {0})
insert_model m =
    statement (λ d. has (λ o. o.id) m.id d.models) λ d. record d { models = d.models ++ m ∷ [] }

-- ON DELETE RESTRICT in `endpoints`
unfoldable pub delete_model_row : String → Exec (Unit {0})
delete_model_row id =
    statement (λ d. has (λ e. e.model_id) id d.endpoints)
      λ d. record d { models = delete (by (λ m. m.id) id) d.models }

-- FOREIGN KEY (provider_id)
unfoldable pub insert_account : Account → Exec (Unit {0})
insert_account a =
    statement
      (λ d. has (λ b. b.id) a.id d.accounts || not (has (λ p. p.id) a.provider_id d.providers))
      λ d. record d { accounts = d.accounts ++ a ∷ [] }

-- ON DELETE RESTRICT in `endpoints`
unfoldable pub delete_account_row : String → Exec (Unit {0})
delete_account_row id =
    statement (λ d. has (λ e. e.account_id) id d.endpoints)
      λ d. record d { accounts = delete (by (λ a. a.id) id) d.accounts }

-- FOREIGN KEY (node_id), (account_id), (model_id)
unfoldable pub insert_endpoint : Endpoint → Exec (Unit {0})
insert_endpoint e =
    statement
      (λ d.
        has (λ f. f.id) e.id d.endpoints
        || (not (has (λ n. n.id) e.node_id d.nodes)
            || (not (has (λ a. a.id) e.account_id d.accounts)
                || not (has (λ m. m.id) e.model_id d.models))))
      λ d. record d { endpoints = d.endpoints ++ e ∷ [] }

unfoldable pub delete_endpoint_row : String → Exec (Unit {0})
delete_endpoint_row id = modify λ d. record d { endpoints = delete (by (λ e. e.id) id) d.endpoints }

-- A foreign key that is not NULL and names no row.
unfoldable pub dangling : Option String → List PolicyProfile → Bool
dangling none profiles = false
dangling (some k) profiles = not (has (λ p. p.id) k profiles)

-- FOREIGN KEY (profile_id)
unfoldable pub insert_consumer : Consumer → Exec (Unit {0})
insert_consumer c =
    statement (λ d. has (λ b. b.id) c.id d.consumers || dangling c.profile_id d.policy_profiles)
      λ d. record d { consumers = d.consumers ++ c ∷ [] }

-- ON DELETE CASCADE in `consumer_keys`
unfoldable pub delete_consumer_row : String → Exec (Unit {0})
delete_consumer_row id = modify λ d. record d {
  consumers = delete (by (λ c. c.id) id) d.consumers;
  consumer_keys = delete (by (λ k. k.consumer_id) id) d.consumer_keys;
}

-- `WHERE consumer_id = ? AND node_id = ?`
unfoldable pub by_pair : String → String → ConsumerKey → Bool
by_pair consumer_id node_id k = k.consumer_id == consumer_id && k.node_id == node_id

-- PRIMARY KEY (consumer_id, node_id), FOREIGN KEY (consumer_id), (node_id)
unfoldable pub insert_consumer_key : ConsumerKey → Exec (Unit {0})
insert_consumer_key k =
    statement
      (λ d.
        any (by_pair k.consumer_id k.node_id) d.consumer_keys
        || (not (has (λ c. c.id) k.consumer_id d.consumers)
            || not (has (λ n. n.id) k.node_id d.nodes)))
      λ d. record d { consumer_keys = d.consumer_keys ++ k ∷ [] }

-- ON DELETE SET NULL in `consumers`
unfoldable pub delete_policy_profile_row : String → Exec (Unit {0})
delete_policy_profile_row id = modify λ d. record d {
  policy_profiles = delete (by (λ p. p.id) id) d.policy_profiles;
  consumers =
      update (λ c. by_option c.profile_id id) (λ c. record c { profile_id = none }) d.consumers;
}

unfoldable pub insert_policy_profile : PolicyProfile → Exec (Unit {0})
insert_policy_profile p =
    statement (λ d. has (λ q. q.id) p.id d.policy_profiles)
      λ d. record d { policy_profiles = d.policy_profiles ++ p ∷ [] }

unfoldable pub insert_incident : Incident → Exec (Unit {0})
insert_incident i =
    statement (λ d. has (λ j. j.id) i.id d.incidents)
      λ d. record d { incidents = d.incidents ++ i ∷ [] }

-- FOREIGN KEY (node_id)
unfoldable pub insert_rollout : Rollout → Exec (Unit {0})
insert_rollout r =
    statement (λ d. has (λ s. s.id) r.id d.rollouts || not (has (λ n. n.id) r.node_id d.nodes))
      λ d. record d { rollouts = d.rollouts ++ r ∷ [] }
