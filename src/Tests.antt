-- ===== src/Tests.antt =====
-- The theorems of the library at concrete inputs.
pub mod Sample
pub mod Checksum
pub mod Attributes
pub mod Archive
pub mod Blocks
pub mod Threads
pub mod SmallFiles
pub mod Codecs
pub mod Strings
pub mod Volumes
pub mod Settings
pub mod Files
pub mod Walk
pub mod Heads
pub mod Places
