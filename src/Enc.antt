-- ===== src/Enc.antt =====
-- The versioned samples-blob codec of internal/store/enc/enc.go. A byte is a number below 256, a
-- blob a list of them; samples are numbers (`uint32`) in version 1 and integers (`int32`) in
-- version 2. `binary.PutUvarint` and `binary.Uvarint` of Go's standard library are in `Varint`.
pub mod Varint
pub mod Samples
pub mod RoundTrip
pub mod Decoding
pub mod Signed
