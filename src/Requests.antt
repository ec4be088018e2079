-- ===== src/Requests.antt =====
-- fuse_fd_read.c, fuse_fd_write.c and fuse_fd_close.c: the requests on an open file or directory.
pub mod Write
pub mod Untouched
pub mod Views
pub mod Readdir
pub mod Fresh
pub mod Listed
pub mod Close
pub mod Tests
pub mod DirTests
