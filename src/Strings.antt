-- ===== src/Strings.antt =====
-- lib/string: comparisons of C strings, each given as the list of its bytes.
pub mod Compare
