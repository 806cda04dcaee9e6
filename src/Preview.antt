-- ===== src/Preview.antt =====
-- The preview of single files (src/fathom/preview).
pub mod Cache
pub mod Grant
