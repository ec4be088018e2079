-- ===== src/Dentries.antt =====
-- The requests on paths: fuse_path_write.c, fuse_path_open.c and the macros of util.c that tell the
-- main space from the snapshot space.
pub mod Spaces
pub mod Truncating
pub mod Modify
pub mod Opening
pub mod Run
pub mod Denied
pub mod Snapshotting
pub mod Look
pub mod Given
pub mod Tests
