-- ===== src/Utils.antt =====
-- The helpers of src/knd_utils.c.
pub mod Ids
pub mod Pack
pub mod Utf8
pub mod Text
pub mod Base64
mod Tests
