-- ===== src/Dentries/Look.antt =====
-- The requests of fuse_path_read.c.
use esfs.Base.{
  ℕ, zero, suc, ◌/◌, ◌%◌, ◌&&◌, not, Bool, true, false, none, some, List, ◌==◌, if◌then◌else◌,
}
use esfs.Os.{Os, Locks, done, failed, Stat, MapHeader}
use esfs.Files.{Files, stated, lstat_failed}
use esfs.Types.{Result, ret, err, Mfd}
use esfs.Types.Errno.{enoent, eacces, enotsup}
use esfs.Paths.Snpath.{Snpath, snpath_full}
use esfs.Handle.Open.{Fsdata}
use esfs.Snapshots.Pointers.{PointerFiles}
use esfs.Steps.Calls.{Dirs, Flags, mfd_destroy_sn_steps}
use esfs.Steps.Find.{mfd_get_sn_steps}
use esfs.Dentries.Spaces.{PathCalls, path_sn}

-- $$SN_STEPS_F_TYPE_UNKNOWN | $$SN_STEPS_F_FIRSTONLY | $$SN_STEPS_F_SKIPOPENDAT |
-- $$SN_STEPS_F_SKIPOPENDIR
abbrev pub look_flags : Flags
look_flags = record {
  f_file = false;
  f_dir = false;
  f_type_unknown = true;
  f_firstonly = true;
  f_skipopendat = true;
  f_skipopendir = true;
  f_statdir = false;
}

-- word & b, for a power of two b.
abbrev pub bit : ℕ → ℕ → Bool
bit word b = (word / b) % 2 == 1

abbrev pub r_ok : ℕ
r_ok = 4

abbrev pub w_ok : ℕ
w_ok = 2

abbrev pub x_ok : ℕ
x_ok = 1

-- S_IRUSR, S_IXUSR, S_IROTH and S_IXOTH.
abbrev pub s_irusr : ℕ
s_irusr = 256

abbrev pub s_ixusr : ℕ
s_ixusr = 64

abbrev pub s_iroth : ℕ
s_iroth = 4

abbrev pub s_ixoth : ℕ
s_ixoth = 1

-- The variable `p` of $access.
unfoldable pub granted : ℕ → ℕ → Stat → Bool
granted mask uid st =
    if uid == 0
    then true
    else if uid == st.st_uid
    then not (bit mask r_ok && not (bit st.st_mode s_irusr))
      && not (bit mask x_ok && not (bit st.st_mode s_ixusr))
    else not (bit mask r_ok && not (bit st.st_mode s_iroth))
      && not (bit mask x_ok && not (bit st.st_mode s_ixoth))

module _ (os : Os) (locks : Locks os) (files : Files os) (pointers : PointerFiles os files)
    (dirs : Dirs os) (calls : PathCalls os) where
  open os use {World, Fd}

  -- No file found anywhere, or the map file says that it did not exist.
  unfoldable pub missing : Mfd Fd → Bool
  missing mfd = elim mfd.sn_first_file [
    | none ↦ true
    | some zero ↦ false
    | some (suc _) ↦ mfd.mapheader.exists == 0
  ]

  -- if(snret == 0) { snret = ret; }, after $mfd_destroy_sn_steps.
  unfoldable pub destroyed : Result → Result × World → Result × World
  destroyed (ret zero) (r, w) = (r, w)
  destroyed (ret (suc n)) (r, w) = (ret (suc n), w)
  destroyed (err e) (r, w) = (err e, w)

  unfoldable pub found_stat : Stat → Mfd Fd → World → Result × Stat × World
  unfolding missing destroyed mfd_destroy_sn_steps
  found_stat statbuf mfd w =
      if missing mfd
      then (let (r, v) = destroyed (err enoent) (mfd_destroy_sn_steps os files dirs mfd w) in
          (r, statbuf, v))
      else (let (r, v) = destroyed (ret 0) (mfd_destroy_sn_steps os files dirs mfd w) in
          (r, mfd.mapheader.fstat, v))

  -- lstat, into `statbuf`.
  unfoldable pub stat_path : Stat → List ℕ → World → Result × Stat × World
  stat_path statbuf path w =
      let (r, v) = files.lstat path w in
      elim r [ stated st ↦ (ret 0, st, v) | lstat_failed e ↦ (err (suc e), statbuf, v) ]

  unfoldable pub after_steps : Stat → Result × Mfd Fd × World → Result × Stat × World
  unfolding found_stat
  after_steps statbuf (err e, mfd, w) = (err e, statbuf, w)
  after_steps statbuf (ret (suc n), mfd, w) = (ret (suc n), statbuf, w)
  after_steps statbuf (ret zero, mfd, w) = found_stat statbuf mfd w

  unfoldable pub getattr_in_sn :
      Fsdata → Mfd Fd → MapHeader → Stat → Snpath → List ℕ → World → Result × Stat × World
  unfolding stat_path after_steps mfd_get_sn_steps
  getattr_in_sn fs junk head statbuf snpath fpath w = elim snpath.is_there [
    | snpath_full ↦
        after_steps statbuf
          (mfd_get_sn_steps os locks files pointers dirs fs junk snpath look_flags head w)
    | _ ↦ stat_path statbuf fpath w
  ]

  -- $getattr. `junk`, `head` and `sn` are the bytes of the structs before.
  unfoldable pub getattr :
      Fsdata → Mfd Fd → MapHeader → Snpath → List ℕ → Stat → World → Result × Stat × World
  unfolding path_sn getattr_in_sn
  getattr fs junk head sn path statbuf w =
      path_sn os fs path sn w (λ e v. (err e, statbuf, v)) (getattr_in_sn fs junk head statbuf)
        (λ fpath. stat_path statbuf fpath w)

  unfoldable pub access_path : ℕ → List ℕ → World → Result × World
  access_path mask path w =
      let (r, v) = calls.access path mask w in
      elim r [ done _ ↦ (ret 0, v) | failed e ↦ (err (suc e), v) ]

  -- The inner do block of $access.
  unfoldable pub access_answer : ℕ → ℕ → Mfd Fd → Result
  unfolding missing granted
  access_answer mask uid mfd =
      if missing mfd
      then err enoent
      else if mask == 0
      then ret 0
      else if bit mask w_ok
      then err eacces
      else if granted mask uid mfd.mapheader.fstat
      then ret 0
      else err eacces

  unfoldable pub access_steps : ℕ → Result × Mfd Fd × World → Result × World
  unfolding destroyed mfd_destroy_sn_steps access_answer
  access_steps mask (err e, mfd, w) = (err e, w)
  access_steps mask (ret (suc n), mfd, w) = (ret (suc n), w)
  access_steps mask (ret zero, mfd, w) =
      destroyed (access_answer mask (calls.getuid w) mfd) (mfd_destroy_sn_steps os files dirs mfd w)

  unfoldable pub access_in_sn :
      Fsdata → Mfd Fd → MapHeader → ℕ → Snpath → List ℕ → World → Result × World
  unfolding access_path access_steps mfd_get_sn_steps
  access_in_sn fs junk head mask snpath fpath w = elim snpath.is_there [
    | snpath_full ↦
        access_steps mask
          (mfd_get_sn_steps os locks files pointers dirs fs junk snpath look_flags head w)
    | _ ↦ access_path mask fpath w
  ]

  -- $access.
  unfoldable pub access : Fsdata → Mfd Fd → MapHeader → Snpath → List ℕ → ℕ → World → Result × World
  unfolding path_sn access_in_sn
  access fs junk head sn path mask w =
      path_sn os fs path sn w (λ e v. (err e, v)) (access_in_sn fs junk head mask)
        (λ fpath. access_path mask fpath w)

  unfoldable pub readlink : List ℕ → ℕ → World → Result × World
  readlink path size w = (err enotsup, w)

  unfoldable pub getxattr : List ℕ → List ℕ → ℕ → World → Result × World
  getxattr path name size w = (err enotsup, w)

  unfoldable pub listxattr : List ℕ → ℕ → World → Result × World
  listxattr path size w = (err enotsup, w)
