-- ===== src/Codec/RoundTrip.antt =====
-- codec/clove.go: what `Decode` makes of the bytes that `Encode` writes.
pub mod Numbers
pub mod Values
pub mod Refused
