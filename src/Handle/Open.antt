-- ===== src/Handle/Open.antt =====
-- mfd.c: opening, checking and closing the map and dat files of a handle in the main space.

use esfs.Base.{
  ℕ, suc, Bool, true, false, ◌&&◌, ◌||◌, Option, none, some, List, take, str_eq, ◌==◌,
  if◌then◌else◌,
}
use esfs.Os.{Os, Locks, done, failed, Stat, MapHeader, header_size}
use esfs.Files.{Files, fd_opened, open_failed, stated, lstat_failed}
use esfs.Types.{Result, ret, err, minus, mfd_main, MfdFd, open_fd, nosn, rdonly, enoent, zlen, Mfd}
use esfs.Types.Errno.{eio, efault, eexist, eisdir, enametoolong, eremchg}
use esfs.Paths.Build.{codes, map_path, get_map_prefix_path, get_dat_prefix_path}
use esfs.Paths.Label.{string2locklabel}
use esfs.Handle.Mkpath.{is_dir, mkpath}

-- What $fsdata_t says about the root and the latest snapshot.
pub record Fsdata : Type 0 where
  pub rootdir : List ℕ
  pub rootdir_len : ℕ
  pub sn_dir : List ℕ
  pub sn_number : ℕ
  pub sn_lat_dir : List ℕ
  pub sn_lat_dir_len : ℕ
  pub sn_is_any : ℕ

-- The variables of $mfd_open_sn: `mylock` is none for -1.
pub record Opening (World Fd : Type 0) : Type 0 where
  pub world : World
  pub mfd : Mfd Fd
  pub mylock : Option ℕ
  pub waserror : ℕ

abbrev pub header_version : ℕ
header_version = 12000

abbrev pub signature_text : List ℕ
signature_text = codes "ESFS"

module _ (os : Os) (locks : Locks os) (files : Files os) where
  open os use {World, Fd}

  unfoldable pub mfd_save_mapheader : Mfd Fd → World → Result × World
  mfd_save_mapheader mfd w = elim mfd.mapfd [
    | open_fd fd ↦
        (let (r, v) = files.pwrite_header fd mfd.mapheader w in
          elim r [
            | failed e ↦ (err (suc e), v)
            | done n ↦ (if n == header_size then ret 0 else err eio, v)
          ])
    | _ ↦ (ret 0, w)
  ]

  -- The value returned with the header as it was read.
  unfoldable pub mfd_load_mapheader : MapHeader → Fd → World → Result × MapHeader × World
  mfd_load_mapheader old fd w =
      let (r, h, v) = files.pread_header fd w in
      elim r [
        | failed e ↦ (err (suc e), old, v)
        | done n ↦ (
          if n == header_size
              then (if (h.version == header_version) && str_eq (take 4 h.signature) signature_text
                  then ret 0
                  else err efault)
              else err eio,
          h,
          v,
        )
      ]

  -- $$MFD_OPEN_DAT_FILE
  unfoldable pub open_dat_file : Fsdata → List ℕ → Opening World Fd → Opening World Fd
  open_dat_file fs vpath s =
      if s.mfd.mapheader.exists == 0
      then record s { mfd = record s.mfd { datfd = enoent } }
      else if s.mfd.mapheader.fstat.st_size == 0
      then record s { mfd = record s.mfd { datfd = zlen } }
      else elim (get_dat_prefix_path vpath fs.sn_lat_dir fs.sn_lat_dir_len) [
        | none ↦ record s { waserror = enametoolong }
        | some fdat ↦
            (let (r, v) = files.open_append fdat s.world in
              elim r [
                | open_failed e ↦ record s { world = v; waserror = suc e }
                | fd_opened fd ↦ record s { world = v; mfd = record s.mfd { datfd = open_fd fd } }
              ])
      ]

  -- Releasing the lock, and then the dat file.
  unfoldable pub unlock_and_open : Fsdata → List ℕ → ℕ → Opening World Fd → Opening World Fd
  unfolding open_dat_file
  unlock_and_open fs vpath id s =
      let (r, v) = locks.unlock id s.world in
      elim r [
        | failed e ↦ record s { world = v; waserror = suc e }
        | done _ ↦ open_dat_file fs vpath (record s { world = v; mylock = none })
      ]

  -- Block [B]: the map file was there before.
  unfoldable pub use_map : Fsdata → List ℕ → ℕ → Fd → Opening World Fd → Opening World Fd
  unfolding mfd_load_mapheader unlock_and_open
  use_map fs vpath id fd s =
      let (r, h, v) = mfd_load_mapheader s.mfd.mapheader fd s.world in
      let t : Opening World Fd = record s {
        world = v;
        mfd = record s.mfd { mapfd = open_fd fd; mapheader = h };
      } in
      elim r [ err e ↦ record t { waserror = e } | ret _ ↦ unlock_and_open fs vpath id t ]

  -- The rest of block [C], when the header is filled in.
  unfoldable pub save_and_open : Fsdata → List ℕ → ℕ → Opening World Fd → Opening World Fd
  unfolding mfd_save_mapheader unlock_and_open is_dir
  save_and_open fs vpath id s =
      if is_dir s.mfd.mapheader.fstat
      then record s { waserror = eisdir }
      else (let (r, v) = mfd_save_mapheader s.mfd s.world in
          elim r [
            | err e ↦ record s { world = v; waserror = e }
            | ret _ ↦ unlock_and_open fs vpath id (record s { world = v })
          ])

  -- Block [C]: the map file is new. Where the main file does not exist the attributes keep the
  -- bytes that stood there.
  unfoldable pub new_map : Fsdata → List ℕ → List ℕ → ℕ → Fd → Opening World Fd → Opening World Fd
  unfolding save_and_open
  new_map fs vpath fpath id fd s =
      let (r, v) = files.lstat fpath s.world in
      let old = s.mfd.mapheader in
      let fresh : Stat → ℕ → Opening World Fd = λ st exists. record s {
        world = v;
        mfd = record s.mfd {
          mapfd = open_fd fd;
          mapheader = record {
            version = header_version;
            exists = exists;
            fstat = st;
            signature = signature_text;
          };
        };
      } in
      elim r [
        | stated st ↦ save_and_open fs vpath id (fresh st 1)
        | lstat_failed e ↦ elim (suc e == 2) [
          | true ↦ save_and_open fs vpath id (fresh old.fstat 0)
          | false ↦ record (fresh old.fstat 1) { waserror = suc e }
        ]
      ]

  -- The cleanup of [B] and [C].
  unfoldable pub close_on_error : Fd → Opening World Fd → Opening World Fd
  close_on_error fd s =
      if s.waserror == 0 then s else record s { world = (files.close fd s.world).1 }

  unfoldable pub unlink_on_error : List ℕ → Opening World Fd → Opening World Fd
  unlink_on_error fmap s =
      if s.waserror == 0
      then s
      else elim s.mylock [ none ↦ s | some _ ↦ record s { world = (files.unlink fmap s.world).1 } ]

  -- Block [A].
  unfoldable pub open_map :
      Fsdata → List ℕ → List ℕ → List ℕ → ℕ → Opening World Fd → Opening World Fd
  unfolding use_map new_map close_on_error unlink_on_error
  open_map fs vpath fpath fmap id s =
      let (r, v) = files.open_new fmap s.world in
      elim r [
        | fd_opened fd ↦
            unlink_on_error fmap
              (close_on_error fd (new_map fs vpath fpath id fd (record s { world = v })))
        | open_failed e ↦ elim (suc e == eexist) [
          | false ↦ record s { world = v; waserror = suc e }
          | true ↦
              (let (q, u) = files.open_rdwr fmap v in
                elim q [
                  | open_failed e ↦ record s { world = u; waserror = suc e }
                  | fd_opened fd ↦
                      close_on_error fd (use_map fs vpath id fd (record s { world = u }))
                ])
        ]
      ]

  -- Releasing the lock if it is still held.
  unfoldable pub leftover : Opening World Fd → Opening World Fd
  leftover s = elim s.mylock [
    | none ↦ s
    | some id ↦
        (let (r, v) = locks.unlock id s.world in
          elim r [
            | done _ ↦ record s { world = v }
            | failed e ↦ record s { world = v; waserror = suc e }
          ])
  ]

  unfoldable pub with_lock :
      Fsdata → List ℕ → List ℕ → List ℕ → Mfd Fd → World → Result × Mfd Fd × World
  unfolding open_map leftover
  with_lock fs vpath fpath fmap mfd w =
      let (r, v) = locks.lock mfd.locklabel w in
      elim r [
        | failed e ↦ (err (suc e), mfd, v)
        | done id ↦
            (let s = leftover (
                open_map fs vpath fpath fmap id
                  (record { world = v; mfd = mfd; mylock = some id; waserror = 0 })) in
              (minus s.waserror, s.mfd, s.world))
      ]

  unfoldable pub with_map_path :
      Fsdata → List ℕ → List ℕ → Option (List ℕ) → Mfd Fd → World → Result × Mfd Fd × World
  unfolding with_lock mkpath
  with_map_path fs vpath fpath none mfd w = (err enametoolong, mfd, w)
  with_map_path fs vpath fpath (some fmap) mfd w =
      let (r, v) = mkpath os files fmap w in
      elim r [ err e ↦ (err e, mfd, v) | ret _ ↦ with_lock fs vpath fpath fmap mfd v ]

  -- The default values.
  unfoldable pub defaults : Fsdata → List ℕ → List ℕ → Mfd Fd → Mfd Fd
  defaults fs vpath fpath mfd = record mfd {
    sn_number = fs.sn_number;
    is_main = mfd_main;
    locklabel = string2locklabel fpath;
    latest_written_block_cache = 0;
    vpath = vpath;
  }

  unfoldable pub open_at : Fsdata → List ℕ → List ℕ → Mfd Fd → World → Result × Mfd Fd × World
  unfolding defaults with_map_path
  open_at fs vpath fpath mfd w =
      let m = defaults fs vpath fpath mfd in
      if fs.sn_is_any == 0
      then (ret 0, record m { mapfd = nosn; datfd = nosn }, w)
      else with_map_path fs vpath fpath (get_map_prefix_path vpath fs.sn_lat_dir fs.sn_lat_dir_len)
          m w

  -- $mfd_open_sn; `none` stands for an fpath_in of NULL.
  unfoldable pub mfd_open_sn :
      Fsdata → List ℕ → Option (List ℕ) → Mfd Fd → World → Result × Mfd Fd × World
  unfolding open_at
  mfd_open_sn fs vpath (some fpath) mfd w = open_at fs vpath fpath mfd w
  mfd_open_sn fs vpath none mfd w = elim (map_path vpath fs.rootdir fs.rootdir_len) [
    | none ↦ (err enametoolong, mfd, w)
    | some fpath ↦ open_at fs vpath fpath mfd w
  ]

  unfoldable pub mfd_open_sn_rdonly : Mfd Fd → Mfd Fd
  mfd_open_sn_rdonly mfd = record mfd { mapfd = rdonly; datfd = rdonly; is_main = mfd_main }

  unfoldable pub close_fd : MfdFd Fd → ℕ → World → ℕ × World
  close_fd (open_fd fd) waserror w =
      let (r, v) = files.close fd w in elim r [ done _ ↦ (waserror, v) | failed e ↦ (suc e, v) ]
  close_fd _ waserror w = (waserror, w)

  -- The dat file first; the error is the last one.
  unfoldable pub mfd_close_sn : Mfd Fd → World → Result × World
  unfolding close_fd
  mfd_close_sn mfd w =
      let (e, v) = close_fd mfd.datfd 0 w in let (e', u) = close_fd mfd.mapfd e v in (minus e', u)

  -- `mymfd` holds the bytes of the local variable before.
  unfoldable pub mfd_init_sn : Fsdata → List ℕ → List ℕ → Mfd Fd → World → Result × World
  unfolding mfd_open_sn mfd_close_sn
  mfd_init_sn fs vpath fpath mymfd w =
      let (r, m, v) = mfd_open_sn fs vpath (some fpath) mymfd w in
      elim r [ err e ↦ (err e, v) | ret n ↦ if n == 0 then mfd_close_sn m v else (ret n, v) ]

  unfoldable pub reopen : Fsdata → Result → Mfd Fd → World → Result × Mfd Fd × World
  unfolding mfd_open_sn
  reopen fs (err e) mfd w = (err e, mfd, w)
  reopen fs (ret n) mfd w =
      let (r, m, v) = mfd_open_sn fs mfd.vpath none mfd w in
      elim r [ err e ↦ (err e, m, v) | ret n ↦ (ret n, record m { sn_number = fs.sn_number }, v) ]

  unfoldable pub is_rdonly : MfdFd Fd → Bool
  is_rdonly rdonly = true
  is_rdonly _ = false

  unfoldable pub mfd_validate : Fsdata → Mfd Fd → World → Result × Mfd Fd × World
  unfolding reopen mfd_close_sn is_rdonly
  mfd_validate fs mfd w =
      if (fs.sn_number == mfd.sn_number) || is_rdonly mfd.mapfd
      then (ret 0, mfd, w)
      else (let (r, v) = mfd_close_sn mfd w in reopen fs r mfd v)

  unfoldable pub mfd_in_sn_validate : Fsdata → Mfd Fd → Result
  mfd_in_sn_validate fs mfd = if fs.sn_number == mfd.sn_number then ret 0 else err eremchg
