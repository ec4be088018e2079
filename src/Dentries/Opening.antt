-- ===== src/Dentries/Opening.antt =====
-- $open, $create and $opendir of fuse_path_open.c. Each ends with the value returned and the handle
-- put into fi->fh, if any; fi->keep_cache is then 1.
use esfs.Base.{
  ℕ, zero, suc, ◌+◌, ◌*◌, ◌/◌, ◌%◌, Bool, true, false, Option, none, some, List, ◌==◌,
  if◌then◌else◌,
}
use esfs.Os.{Os, Locks, MapHeader}
use esfs.Files.{Files, fd_opened, open_failed}
use esfs.Types.{Result, ret, err, open_fd, mfd_main, mfd_sn_root, mfd_sn_id, mfd_sn_full, Mfd}
use esfs.Types.Errno.{enoent, enomem, eacces}
use esfs.Paths.Snpath.{Snpath, snpath_root, snpath_full}
use esfs.Block.State.{Env}
use esfs.Handle.Open.{Fsdata, mfd_open_sn, mfd_open_sn_rdonly, mfd_close_sn}
use esfs.Snapshots.Pointers.{PointerFiles}
use esfs.Steps.Calls.{Dirs, Flags, mfd_destroy_sn_steps}
use esfs.Steps.Find.{mfd_get_sn_steps}
use esfs.Steps.Data.{open_flags}
use esfs.Dentries.Spaces.{PathCalls, main_only, path_sn}
use esfs.Dentries.Truncating.{open_truncate_close}

-- flags & O_ACCMODE, and its values O_RDONLY and O_WRONLY.
abbrev pub accmode : ℕ → ℕ
accmode flags = flags % 4

abbrev pub o_rdonly : ℕ
o_rdonly = 0

abbrev pub o_wronly : ℕ
o_wronly = 1

-- The access mode replaced by O_RDWR where it is O_WRONLY.
unfoldable pub for_reading_too : ℕ → ℕ
for_reading_too flags = if accmode flags == o_wronly then flags / 4 * 4 + 2 else flags

-- $$SN_STEPS_F_DIR
abbrev pub dir_flags : Flags
dir_flags = record {
  f_file = false;
  f_dir = true;
  f_type_unknown = false;
  f_firstonly = false;
  f_skipopendat = false;
  f_skipopendir = false;
  f_statdir = false;
}

module _ (os : Os) (locks : Locks os) (files : Files os) (pointers : PointerFiles os files)
    (dirs : Dirs os) (calls : PathCalls os) where
  open os use {World, Fd}

  abbrev pub Given : Type 0
  Given = Result × Option (Mfd Fd) × World

  -- malloc of a handle.
  unfoldable pub with_handle : World → (World → Given) → Given
  with_handle w go =
      let (m, v) = os.malloc w in elim m [ none ↦ (err enomem, none, v) | some _ ↦ go v ]

  unfoldable pub sn_handle : Result × Mfd Fd × World → Given
  sn_handle (err e, mfd, w) = (err e, none, w)
  sn_handle (ret (suc n), mfd, w) = (ret (suc n), none, w)
  sn_handle (ret zero, mfd, w) = (ret 0, some (record mfd { is_main = mfd_sn_full }), w)

  -- The block of $open for the snapshot space.
  unfoldable pub open_in_sn : Fsdata → Mfd Fd → MapHeader → ℕ → Snpath → List ℕ → World → Given
  unfolding with_handle sn_handle mfd_get_sn_steps
  open_in_sn fs junk head flags snpath fpath w =
      if accmode flags == o_rdonly
      then elim snpath.is_there [
        | snpath_full ↦ with_handle w λ v.
            sn_handle
              (mfd_get_sn_steps os locks files pointers dirs fs junk snpath open_flags head v)
        | _ ↦ (err eacces, none, w)
      ]
      else (err eacces, none, w)

  -- The main file opened for a handle.
  unfoldable pub open_main : List ℕ → ℕ → Mfd Fd → World → Given
  unfolding mfd_close_sn
  open_main fpath flags mfd w =
      let (r, v) = calls.open_path fpath flags w in
      elim r [
        | fd_opened fd ↦ (ret 0, some (record mfd { mainfd = fd; is_main = mfd_main }), v)
        | open_failed e ↦ (err (suc e), none, (mfd_close_sn os locks files mfd v).1)
      ]

  unfoldable pub open_in_main : Fsdata → Mfd Fd → List ℕ → ℕ → List ℕ → World → Given
  unfolding with_handle open_main mfd_open_sn mfd_open_sn_rdonly for_reading_too
  open_in_main fs junk path flags fpath w = with_handle w λ v.
      if accmode flags == o_rdonly
      then open_main fpath flags (mfd_open_sn_rdonly os locks files junk) v
      else (let (r, mfd, u) = mfd_open_sn os locks files fs path (some fpath) junk v in
          elim r [
            | err e ↦ (err e, none, u)
            | ret _ ↦ open_main fpath (for_reading_too flags) mfd u
          ])

  -- $open. `junk`, `head` and `sn` are the bytes of the structs before.
  unfoldable pub open_file : Fsdata → Mfd Fd → MapHeader → Snpath → List ℕ → ℕ → World → Given
  unfolding path_sn open_in_sn open_in_main
  open_file fs junk head sn path flags w =
      path_sn os fs path sn w (λ e v. (err e, none, v)) (open_in_sn fs junk head flags)
        (λ fpath. open_in_main fs junk path flags fpath w)

  -- The end of $create.
  unfoldable pub create_main :
      List ℕ → ℕ → ℕ → Mfd Fd → Env World → Result × Option (Mfd Fd) × Env World
  unfolding mfd_close_sn
  create_main fpath flags mode mfd env =
      let (r, v) = calls.open_creat fpath flags mode env.world in
      elim r [
        | fd_opened fd ↦
            (ret 0, some (record mfd { mainfd = fd; is_main = mfd_main }), record env { world = v })
        | open_failed e ↦
            (err (suc e), none, record env { world = (mfd_close_sn os locks files mfd v).1 })
      ]

  -- After $_open_truncate_close; `none` is undefined behaviour of the block layer.
  unfoldable pub create_cut :
      List ℕ
      → ℕ
      → ℕ
      → Mfd Fd
      → Option (Result × Env World)
      → Option (Result × Option (Mfd Fd) × Env World)
  unfolding create_main mfd_close_sn
  create_cut fpath flags mode mfd none = none
  create_cut fpath flags mode mfd (some (ret zero, env)) =
      some (create_main fpath flags mode mfd env)
  create_cut fpath flags mode mfd (some (r, env)) =
      some (r, none, record env { world = (mfd_close_sn os locks files mfd env.world).1 })

  unfoldable pub has_map : Mfd Fd → Bool
  has_map mfd = elim mfd.mapfd [ open_fd _ ↦ mfd.mapheader.exists == 1 | _ ↦ false ]

  unfoldable pub create_opened :
      Fsdata
      → Mfd Fd
      → List ℕ
      → List ℕ
      → ℕ
      → ℕ
      → Env World
      → Result × Mfd Fd × World
      → Option (Result × Option (Mfd Fd) × Env World)
  unfolding create_cut create_main has_map open_truncate_close
  create_opened fs junk path fpath mode flags env (err e, mfd, w) =
      some (err e, none, record env { world = w })
  create_opened fs junk path fpath mode flags env (ret _, mfd, w) = elim (has_map mfd) [
    | false ↦ some (create_main fpath flags mode mfd (record env { world = w }))
    | true ↦
        create_cut fpath flags mode mfd
          (open_truncate_close os locks files fs path fpath 0 junk (record env { world = w }))
  ]

  -- $create. `junk` are the bytes of its handle and of that of $_open_truncate_close before.
  unfoldable pub create :
      Fsdata → Mfd Fd → List ℕ → ℕ → ℕ → Env World → Option (Result × Option (Mfd Fd) × Env World)
  unfolding main_only create_opened mfd_open_sn
  create fs junk path mode flags env =
      main_only os fs path env.world (λ e v. some (err e, none, record env { world = v }))
        λ fpath.
          (let (m, v) = os.malloc env.world in
            elim m [
              | none ↦ some (err enomem, none, record env { world = v })
              | some _ ↦
                  create_opened fs junk path fpath mode flags env
                    (mfd_open_sn os locks files fs path (some fpath) junk v)
            ])

  -- The directory of the snapshots itself: every error of opendir is reported as ENOMEM.
  unfoldable pub opendir_root : Mfd Fd → List ℕ → World → Given
  opendir_root junk fpath w =
      let (r, v) = dirs.opendir fpath w in
      elim r [
        | open_failed _ ↦ (err enomem, none, v)
        | fd_opened d ↦ (ret 0, some (record junk { maindir = some d; is_main = mfd_sn_root }), v)
      ]

  unfoldable pub opendir_steps : Snpath → Result × Mfd Fd × World → Given
  unfolding mfd_destroy_sn_steps
  opendir_steps snpath (err e, mfd, w) = (err e, none, w)
  opendir_steps snpath (ret (suc n), mfd, w) = (ret (suc n), none, w)
  opendir_steps snpath (ret zero, mfd, w) = elim mfd.sn_first_file [
    | none ↦
        (let (r, v) = mfd_destroy_sn_steps os files dirs mfd w in
          elim r [ err e ↦ (err e, none, v) | ret _ ↦ (err enoent, none, v) ])
    | some _ ↦ (
      ret 0,
      some (record mfd {
        is_main = elim snpath.is_there [ snpath_full ↦ mfd_sn_full | _ ↦ mfd_sn_id ];
      }),
      w,
    )
  ]

  unfoldable pub opendir_in_sn : Fsdata → Mfd Fd → MapHeader → Snpath → List ℕ → World → Given
  unfolding with_handle opendir_root opendir_steps mfd_get_sn_steps
  opendir_in_sn fs junk head snpath fpath w = with_handle w λ v. elim snpath.is_there [
    | snpath_root ↦ opendir_root junk fpath v
    | _ ↦
        opendir_steps snpath
          (mfd_get_sn_steps os locks files pointers dirs fs junk snpath dir_flags head v)
  ]

  -- $opendir.
  unfoldable pub opendir : Fsdata → Mfd Fd → MapHeader → Snpath → List ℕ → World → Given
  unfolding path_sn opendir_in_sn with_handle
  opendir fs junk head sn path w =
      path_sn os fs path sn w (λ e v. (err e, none, v)) (opendir_in_sn fs junk head)
        (λ fpath. with_handle w λ v.
          (let (r, u) = dirs.opendir fpath v in
            elim r [
              | open_failed e ↦ (err (suc e), none, u)
              | fd_opened d ↦
                  (ret 0, some (record junk { maindir = some d; is_main = mfd_main }), u)
            ]))
