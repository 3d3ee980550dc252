-- ===== src/VersionEdit/RoundTrip.antt =====
-- DecodeFrom reads back the edit that EncodeTo wrote.
mod Bytes
mod Apply
pub use Bytes.{IsValid, IsFresh, fields, encode_to-onto}
pub use Apply.{decode_edit-encode_to}
