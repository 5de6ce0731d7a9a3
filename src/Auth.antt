-- ===== src/Auth.antt =====
-- Who may use the backend: its children.
pub mod Limiter
pub mod Sessions
pub mod Tokens
mod Samples
