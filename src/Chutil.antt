-- ===== src/Chutil.antt =====
-- The utility library, chutil.
pub mod Queue
pub mod HashMap
pub mod ArrayList
pub mod Utf8
