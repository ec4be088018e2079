-- ===== src/Handle.antt =====
-- mfd.c: the handle of a file in the main space, and its map and dat files in the latest snapshot.
pub mod Mkpath
pub mod Open
pub mod Stage
pub mod Blocks
pub mod Opening
pub mod Tests
