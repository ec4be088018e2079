-- ===== src/Lib.antt =====
-- Verification library of ESFS, a FUSE file system with snapshots (the C files of the repository's
-- root; `$` stands for esfs_ and `$$` for ESFS_ as in the sources).
--
-- A file of the mounted file system is a main file. While there are snapshots, each main file that is
-- opened for writing has a map and a dat file in the directory of the latest snapshot; before a block
-- of the main file is overwritten for the first time, it is appended to the dat file and its place is
-- noted in the map file. A file of a snapshot is read from the dat files of that snapshot and of the
-- later ones, and from the main file for blocks that nobody saved.
--
-- Parts and files:
--   Base        shared names, Boolean tests on the native numbers, lists, 64-bit words
--   Os, Files   the system calls, as parameters with their documented behaviour: what files hold
--               (Os), and opening, creating and removing them (Files). A file is seen as bytes, as
--               off_t values at offsets, and as a map header.
--   Types       types.h: handles ($mfd_t), steps ($sn_steps_t), map headers, errno values
--   Paths       util.c: Build ($map_path, $get_*_path), Snpath ($decompose_sn_path), Label
--               ($string2locklabel); Names: the name filters of mfd.c and snapshot.c
--   Block       block.c: Calc (block arithmetic), State and Save ($b_write, $b_truncate), Read
--               ($b_read); Kept, Round, Copy, Loop, Saving, Total prove what saving promises, Locking
--               says what the variable `lock` can hold; View describes what a snapshot shows, Reading,
--               Seen, Contents prove $b_read against it; Isolation relates saving and views
--   Handle      mfd.c: Open ($mfd_open_sn, $mfd_close_sn, $mfd_validate); Mkpath ($mkpath of
--               util_locking.c); Stage, Blocks, Opening prove what opening leaves in a handle
--   Snapshots   snapshot.c: Pointers ($read_sndir_from_file, $sn_get_latest, $sn_set_latest), Walk
--               ($sn_get_earliest, $sn_get_paths_to), Manage ($sn_create, $sn_destroy). Spec says
--               when a list of snapshots is recorded in the pointer files; Chain, Stored, Latest,
--               Earliest, Listing, Dropped, Destroy, Added, Create prove the operations against it
--   Steps       mfd.c: Calls ($mfd_destroy_sn_steps) and Find ($mfd_get_sn_steps); Data, Round and
--               Opened prove which files it opens
--   Dentries    the requests on paths. Spaces ($$IF_PATH_MAIN_ONLY, $$IF_PATH_SN of util.c),
--               Truncating ($_open_truncate_close), Modify (fuse_path_write.c), Look
--               (fuse_path_read.c), Opening (fuse_path_open.c), Run (the requests of esfs.c that modify
--               by path); Denied, Snapshotting, Given are about requests below /snapshots
--   Requests    fuse_fd_write.c, fuse_fd_read.c, fuse_fd_close.c: Write ($read, $write, $ftruncate),
--               Readdir and Close; Untouched and Views prove what writing leaves alone, Fresh and
--               Listed what a listing shows
--   Lock        mflock.c: one step of one thread is one access to the shared table or one call of
--               pthread_mutex; `after` runs any sequence of events. Invariant, Frame, Exclusion, Leak
--   Machine     two systems in memory on which the tests run: one of blocks, and Shelf, one of texts
--               at paths
--
-- A handler is a function from the handle, its arguments and the state to what it returns with the
-- handle and state left behind. Early returns and errno are values (`err e` is -e); undefined
-- behaviour is `none` or `undefined`, and is left visible in the results. Types have the widths of a
-- 64-bit Linux: off_t, size_t and unsigned long wrap at 2^64 (add64, sub64), int at 2^32.
--
-- Loops: the block loops run down their counter, the loop over snapshots runs down its index, so both
-- are structural. $mkpath recurses on fuel: one more than the bytes of its path, which is enough since
-- each level drops one byte at least. The loops of $mflock_lock have no bound; they are states of a
-- step function. Following pointer files takes as many rounds as $$MAX_SNAPSHOTS allows. A listing
-- runs down the names that the stream returns. A request of the block layer runs alone between its
-- calls: two requests that interleave are modelled in Lock only.
--
-- Memory: malloc may fail where a handle, a path or a block buffer is allocated; the growth of the
-- tables of steps and of seen names is taken to succeed. Local structs that the code reads before it
-- fills them are arguments (`junk`, `head`, `sn`).
--
-- Not modelled: logging, FUSE's dispatch but for the table of requests, the start of the program
-- (esfs.c), $mflock_destroy, and the allocation of the shared block buffer. nftw is a parameter.
-- pthread calls are taken not to fail.
pub mod Base
pub mod Block
pub mod Dentries
pub mod Files
pub mod Handle
pub mod Lock
pub mod Machine
pub mod Os
pub mod Paths
pub mod Requests
pub mod Snapshots
pub mod Steps
pub mod Types
