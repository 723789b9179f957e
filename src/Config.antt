-- ===== src/Config.antt =====
-- src/config, as far as it computes: the generation of a node's configuration.
pub mod Generator
