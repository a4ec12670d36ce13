-- ===== src/Exec.antt =====
-- src/exec.rs and src/container_runtime.rs: running a command in a fork's container.
pub mod Config
pub mod Run
pub mod Secrets
