-- ===== src/Future.antt =====
-- include/libcopp/future: what a future polls for.
pub mod Storage
