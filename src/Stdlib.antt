-- ===== src/Stdlib.antt =====
-- src/stdlib.c.
pub mod Sort
pub mod Bsearch
pub mod Atexit
