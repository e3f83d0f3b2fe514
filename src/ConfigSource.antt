-- ===== src/ConfigSource.antt =====
-- configsource: where a service's configuration comes from, and the loop that applies it.
pub mod Types
pub mod Hash
pub mod Watcher
pub mod Http
pub mod Manifest
pub mod Resolver
pub mod Retry
pub mod Builder
pub mod Tests
