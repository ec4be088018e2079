-- ===== src/Snapshots.antt =====
-- snapshot.c: the snapshots and the pointer files that link them, from the latest to the earliest.
pub mod Pointers
pub mod Walk
pub mod Manage
pub mod Chain
pub mod Earliest
pub mod Listing
pub mod Tests
pub mod Spec
pub mod Dropped
pub mod Destroy
pub mod Stored
pub mod Latest
pub mod Added
pub mod Create
