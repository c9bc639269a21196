-- ===== src/Prepull.antt =====
-- src/prepull.rs: pulling images ahead of time.
pub mod Names
pub mod Layers
pub mod Manifests
pub mod Blobs
pub mod Images
pub mod Run
pub mod Charts
mod Tests
