-- ===== src/Registry.antt =====
-- src/registry: how names, mirrors, tokens, manifests and blobs of upstream registries are handled.
pub mod Names
pub mod Http
pub mod Stats
pub mod Race
pub mod Events
pub mod Tokens
pub mod Transfer
pub mod Upstreams
pub mod Blob
pub mod Manifest
