-- ===== src/Paths.antt =====
-- Slash-separated paths: what the code uses of packages strings and path, and
-- internal/portablepath/save.go.
pub mod Slashes
pub mod SaveLogical
pub mod Portable
pub mod Reserved
pub mod Again
pub mod Tests
