-- ===== src/Steps.antt =====
-- mfd.c: the steps of a file or directory in a snapshot, from that snapshot to the main space.
pub mod Calls
pub mod Find
pub mod Data
pub mod Round
pub mod Opened
pub mod Tests
