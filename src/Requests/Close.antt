-- ===== src/Requests/Close.antt =====
-- fuse_fd_close.c, and $fgetattr of fuse_fd_read.c.
use esfs.Base.{ℕ, suc, Bool, Option, none, some, if◌then◌else◌}
use esfs.Os.{Os, Locks, Ret, done, failed, Stat}
use esfs.Files.{Files, Stated, stated, lstat_failed}
use esfs.Types.{Result, ret, err, minus, MfdFd, open_fd, mfd_main, mfd_sn_root, mfd_sn_full, Mfd}
use esfs.Types.Errno.{ebade, ebadf}
use esfs.Handle.Open.{mfd_close_sn}
use esfs.Steps.Calls.{Dirs, mfd_destroy_sn_steps}

-- fsync, fdatasync and fstat.
pub record SyncCalls (os : Os) : Type 0 where
  pub fsync : os.Fd → os.World → Ret × os.World
  pub fdatasync : os.Fd → os.World → Ret × os.World
  pub fstat : os.Fd → os.World → Stated × os.World

module _ (os : Os) (locks : Locks os) (files : Files os) (dirs : Dirs os)
    (syncs : SyncCalls os) where
  open os use {World, Fd}

  unfoldable pub flush : Mfd Fd → World → Result × World
  flush mfd w = (ret 0, w)

  -- The main file is closed whatever $mfd_close_sn returned.
  unfoldable pub release_main : Mfd Fd → Result × World → Result × World
  release_main mfd (r, w) =
      let (q, v) = files.close mfd.mainfd w in
      elim q [ done _ ↦ (r, v) | failed e ↦ (err (suc e), v) ]

  unfoldable pub release : Mfd Fd → World → Result × World
  unfolding release_main mfd_close_sn mfd_destroy_sn_steps
  release mfd w = elim mfd.is_main [
    | mfd_main ↦ release_main mfd (mfd_close_sn os locks files mfd w)
    | mfd_sn_full ↦ mfd_destroy_sn_steps os files dirs mfd w
    | _ ↦ (err ebade, w)
  ]

  -- One call of fsync or fdatasync; the last error is kept.
  unfoldable pub sync_one : (Fd → World → Ret × World) → MfdFd Fd → ℕ × World → ℕ × World
  sync_one call (open_fd fd) (waserror, w) =
      let (r, v) = call fd w in elim r [ done _ ↦ (waserror, v) | failed e ↦ (suc e, v) ]
  sync_one call _ out = out

  unfoldable pub fsync : Mfd Fd → Bool → World → Result × World
  unfolding sync_one
  fsync mfd datasync w = elim mfd.is_main [
    | mfd_main ↦
        (let call : Fd → World → Ret × World = if datasync then syncs.fdatasync else syncs.fsync in
          let (waserror, v) =
            sync_one call mfd.datfd
              (sync_one call mfd.mapfd (sync_one call (open_fd mfd.mainfd) (0, w))) in
          (minus waserror, v))
    | _ ↦ (err ebade, w)
  ]

  -- A handle of a directory in the main space or of the directory of the snapshots has a stream.
  unfoldable pub close_maindir : Option Fd → World → Result × World
  close_maindir none w = (err ebadf, w)
  close_maindir (some d) w =
      let (r, v) = dirs.closedir d w in elim r [ done _ ↦ (ret 0, v) | failed e ↦ (err (suc e), v) ]

  unfoldable pub releasedir : Mfd Fd → World → Result × World
  unfolding close_maindir mfd_destroy_sn_steps
  releasedir mfd w = elim mfd.is_main [
    | mfd_main ↦ close_maindir mfd.maindir w
    | mfd_sn_root ↦ close_maindir mfd.maindir w
    | _ ↦ mfd_destroy_sn_steps os files dirs mfd w
  ]

  -- The attributes, into `statbuf`.
  unfoldable pub fgetattr : Mfd Fd → Stat → World → Result × Stat × World
  fgetattr mfd statbuf w = elim mfd.is_main [
    | mfd_sn_full ↦ (ret 0, mfd.mapheader.fstat, w)
    | _ ↦
        (let (r, v) = syncs.fstat mfd.mainfd w in
          elim r [ stated st ↦ (ret 0, st, v) | lstat_failed e ↦ (err (suc e), statbuf, v) ])
  ]

  unfoldable pub fsyncdir : Mfd Fd → Bool → World → Result × World
  fsyncdir mfd datasync w = (ret 0, w)
