-- ===== src/Config.antt =====
-- internal/config/config.go: the configuration of the daemon.
pub mod Yaml
pub mod Settings
mod Tests
