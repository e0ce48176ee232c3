-- ===== src/Format.antt =====
-- lib/format: printing into a bounded buffer, and parsing.
pub mod Put
pub mod Write
pub mod Number
pub mod Parse
pub mod Pad
pub mod RoundTrip
