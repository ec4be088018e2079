-- ===== src/Dentries/Run.antt =====
-- The requests on paths that modify the file system: those of fuse_path_write.c and $create, as
-- the table of esfs.c names them.
use esfs.Base.{ℕ, Option, none, some, List}
use esfs.Os.{Os, Locks}
use esfs.Files.{Files}
use esfs.Types.{Result, Mfd}
use esfs.Paths.Snpath.{Snpath}
use esfs.Block.State.{Env}
use esfs.Handle.Open.{Fsdata}
use esfs.Snapshots.Pointers.{PointerFiles}
use esfs.Snapshots.Manage.{Trees}
use esfs.Steps.Calls.{Dirs}
use esfs.Dentries.Spaces.{Times, PathCalls, Done}
use esfs.Dentries.Modify.{
  mkdir, rmdir, chmod, chown, unlink, truncate, utimens, rename, symlink, link, mknod, setxattr,
  removexattr,
}
use esfs.Dentries.Opening.{create}

-- The arguments of the requests. A request on two paths has the one that it is called on first.
pub data Request : Type 0 where
  do_mkdir : List ℕ → ℕ → Request
  do_rmdir : List ℕ → Request
  do_chmod : List ℕ → ℕ → Request
  do_chown : List ℕ → ℕ → ℕ → Request
  do_unlink : List ℕ → Request
  do_truncate : List ℕ → ℕ → Request
  do_utimens : List ℕ → Times → Request
  do_rename : List ℕ → List ℕ → Request
  do_symlink : List ℕ → List ℕ → Request
  do_link : List ℕ → List ℕ → Request
  do_mknod : List ℕ → ℕ → ℕ → Request
  do_setxattr : List ℕ → List ℕ → List ℕ → ℕ → Request
  do_removexattr : List ℕ → List ℕ → Request
  do_create : List ℕ → ℕ → ℕ → Request

module _ (os : Os) (locks : Locks os) (files : Files os) (pointers : PointerFiles os files)
    (trees : Trees os locks files pointers) (dirs : Dirs os) (calls : PathCalls os) where
  open os use {World, Fd}

  -- A request that gives out a handle, seen by its value, fsdata and the state.
  abbrev pub given : Fsdata → Option (Result × Option (Mfd Fd) × Env World) → Done os
  given fs none = none
  given fs (some (r, mfd, env)) = some (r, fs, env)

  unfoldable pub run : Fsdata → Mfd Fd → Snpath → Request → Env World → Done os
  unfolding create mkdir rmdir chmod chown unlink truncate utimens rename symlink link mknod
      setxattr removexattr
  run fs junk sn (do_mkdir path mode) env =
      mkdir os locks files pointers trees calls fs junk sn path mode env
  run fs junk sn (do_rmdir path) env = rmdir os locks files pointers trees calls fs sn path env
  run fs junk sn (do_chmod path mode) env =
      chmod os locks files pointers trees calls fs junk path mode env
  run fs junk sn (do_chown path uid gid) env =
      chown os locks files pointers trees calls fs junk path uid gid env
  run fs junk sn (do_unlink path) env = unlink os locks files pointers trees calls fs junk path env
  run fs junk sn (do_truncate path newsize) env =
      truncate os locks files pointers trees calls fs junk path newsize env
  run fs junk sn (do_utimens path tv) env =
      utimens os locks files pointers trees calls fs path tv env
  run fs junk sn (do_rename path newpath) env =
      rename os locks files pointers trees calls fs path newpath env
  run fs junk sn (do_symlink dest path) env =
      symlink os locks files pointers trees calls fs dest path env
  run fs junk sn (do_link path newpath) env =
      link os locks files pointers trees calls fs path newpath env
  run fs junk sn (do_mknod path mode dev) env =
      mknod os locks files pointers trees calls fs path mode dev env
  run fs junk sn (do_setxattr path name value flags) env =
      setxattr os locks files pointers trees calls fs path name value flags env
  run fs junk sn (do_removexattr path name) env =
      removexattr os locks files pointers trees calls fs path name env
  run fs junk sn (do_create path mode flags) env =
      given fs (create os locks files pointers dirs calls fs junk path mode flags env)
