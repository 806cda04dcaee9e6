-- ===== src/Auth.antt =====
-- Who may do what, and where (src/fathom/auth).
pub mod Principal
pub mod Scope
pub mod Sessions
pub mod Store
mod Tests
