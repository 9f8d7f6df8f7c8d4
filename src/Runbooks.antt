-- ===== src/Runbooks.antt =====
-- internal/runbooks: the runbooks that change files and processes (RBK-PROC-001, RBK-TLS-001 and
-- RBK-CFG-001) and the catalog. The variables that the closures of a runbook share are a part of the
-- host, beside all else.
pub mod Files
pub mod Single
pub mod Syntax
pub mod Lkg
pub mod Rotation
pub mod Restart
pub mod Catalog
pub mod Toy
mod Tests
