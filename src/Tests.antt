-- ===== src/Tests.antt =====
-- Runs on concrete rows: a node, a provider, a model, accounts and endpoints in several states, a
-- consumer and its profile.
mod Fixtures
mod Accounts
mod Endpoints
mod Registry
mod Requests
mod Probes
mod Secrets
mod Keys
mod Rollouts
mod Events
mod Api
