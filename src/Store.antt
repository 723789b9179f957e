-- ===== src/Store.antt =====
-- src/registry/store.py, a child for each of its parts. The statements that the constraints of
-- src/config/schema.sql may refuse are in `Statements`.
pub mod Statements
pub mod Nodes
pub mod Providers
pub mod Models
pub mod Accounts
pub mod Endpoints
pub mod Consumers
pub mod ConsumerKeys
pub mod PolicyProfiles
pub mod Incidents
pub mod Rollouts
pub mod Timeline
pub mod KeyRows
pub mod Keeps
pub mod Consistency
pub mod AuditTrail
pub mod Creation
pub mod Deletion
pub mod Listings
