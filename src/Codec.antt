-- ===== src/Codec.antt =====
-- The codec package: the values it carries, the Clove encoder and decoder, and the readers.
pub mod Value
pub mod Strings
pub mod DataType
pub mod Encoder
pub mod Decoder
pub mod Canonical
pub mod RoundTrip
pub mod SliceReader
pub mod MapReader
pub mod IntermediateValue
pub mod Json
pub mod Manager
pub mod Configuration
mod Tests
