-- ===== src/Str.antt =====
-- src/string.c, in the order of its concerns: blocks of bytes, copies of strings, comparisons,
-- searches, tokens and duplicates.
pub mod Block
pub mod Compare
pub mod Scan
pub mod Token
pub mod Dup
pub mod Substring
pub mod Copy
