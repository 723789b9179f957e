-- ===== src/Store/Consistency.antt =====
-- The PRIMARY KEY and FOREIGN KEY constraints of src/config/schema.sql as an invariant of the
-- database.
pub mod Rows
pub mod Updates
pub mod Writes
use litellm_control_plane.Table.References.{Distinct, Refers, OptionRefers}
use litellm_control_plane.Table.Pairs.{DistinctBy}
use litellm_control_plane.World.{Db}
use litellm_control_plane.Store.Statements.{by_pair}

pub record IsConsistent (d : Db) : Type 0 where
  pub node_ids : Distinct (λ n. n.id) d.nodes
  pub provider_ids : Distinct (λ p. p.id) d.providers
  pub model_ids : Distinct (λ m. m.id) d.models
  pub account_ids : Distinct (λ a. a.id) d.accounts
  pub endpoint_ids : Distinct (λ e. e.id) d.endpoints
  pub consumer_ids : Distinct (λ c. c.id) d.consumers
  pub profile_ids : Distinct (λ p. p.id) d.policy_profiles
  pub incident_ids : Distinct (λ i. i.id) d.incidents
  pub rollout_ids : Distinct (λ r. r.id) d.rollouts
  pub key_pairs : DistinctBy (λ k. by_pair k.consumer_id k.node_id) d.consumer_keys
  pub account_providers : Refers (λ a. a.provider_id) (λ p. p.id) d.accounts d.providers
  pub endpoint_nodes : Refers (λ e. e.node_id) (λ n. n.id) d.endpoints d.nodes
  pub endpoint_accounts : Refers (λ e. e.account_id) (λ a. a.id) d.endpoints d.accounts
  pub endpoint_models : Refers (λ e. e.model_id) (λ m. m.id) d.endpoints d.models
  pub consumer_profiles : OptionRefers (λ c. c.profile_id) (λ p. p.id) d.consumers d.policy_profiles
  pub key_consumers : Refers (λ k. k.consumer_id) (λ c. c.id) d.consumer_keys d.consumers
  pub key_nodes : Refers (λ k. k.node_id) (λ n. n.id) d.consumer_keys d.nodes
  pub rollout_nodes : Refers (λ r. r.node_id) (λ n. n.id) d.rollouts d.nodes
