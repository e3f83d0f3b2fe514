-- ===== src/ReadCache.antt =====
-- readcache: bounded reuse of loads in flight (group.go), and of their results during one
-- bounded operation (scope.go).
pub mod Group
pub mod Scope
pub mod Tests
