-- ===== src/Cow.antt =====
-- src/cow_manager.c: the copy-on-write file of a snapshot device.
pub mod State
pub mod Io
pub mod Sections
pub mod Cleanup
pub mod Header
pub mod Mapping
pub mod Life
pub mod Inv
pub mod Snapshot
pub mod Sample
mod Tests
