-- ===== src/Snapshots/Manage.antt =====
-- Making and removing snapshots: $sn_check_dir, $sn_create and $sn_destroy of snapshot.c, with
-- $recursive_remove of util_locking.c.

use esfs.Base.{
  ℕ, zero, suc, ◌+◌, true, false, none, some, List, [], ◌∷◌, ◌++◌, length, ◌==◌, if◌then◌else◌, ◌≡◌,
}
use esfs.Os.{Os, Locks, Ret, done, failed}
use esfs.Files.{Files, fd_opened, open_failed, stated, lstat_failed}
use esfs.Types.{Result, ret, err, minus}
use esfs.Types.Errno.{enoent, eio, enomem, enametoolong}
use esfs.Paths.Build.{codes, dirsep_ch, get_hid_path, get_dir_hid_path}
use esfs.Paths.Label.{string2locklabel}
use esfs.Handle.Mkpath.{is_dir}
use esfs.Handle.Open.{Fsdata}
use esfs.Snapshots.Pointers.{PointerFiles, SetText, sn_set_latest}
use esfs.Snapshots.Walk.{Earliest, no_snapshots, earliest, earliest_error, sn_get_earliest}

-- A path below a directory.
abbrev pub Under : List ℕ → List ℕ → Type 0
Under dir q = (r : List ℕ) × (q ≡ dir ++ (dirsep_ch ∷ r))

-- rmdir, and nftw with $_univ_rm, which returns 0, the errno of the first call that failed, or -1.
-- Directories hold no text of their own, a tree is removed below its root only, and nothing is made
-- there.
pub record Trees (os : Os) (locks : Locks os) (files : Files os) (pointers : PointerFiles os files)
    : Type 0 where
  pub rmdir : List ℕ → os.World → Ret × os.World
  pub nftw_rm : List ℕ → os.World → Ret × os.World
  pub mkdir_same : (p : List ℕ) (w : os.World) → pointers.text (files.mkdir p w).1 ≡ pointers.text w
  pub rmdir_same : (p : List ℕ) (w : os.World) → pointers.text (rmdir p w).1 ≡ pointers.text w
  pub unlink_done :
      (p : List ℕ) (w : os.World) (n : ℕ)
      → (files.unlink p w).0 ≡ done n
      → SetText (pointers.text w) (pointers.text (files.unlink p w).1) p none
  pub nftw_rm_spared :
      (p q : List ℕ) (w : os.World)
      → ¬ Under p q
      → pointers.text (nftw_rm p w).1 q ≡ pointers.text w q
  pub nftw_rm_no_new :
      (p q : List ℕ) (w : os.World)
      → pointers.text w q ≡ none
      → pointers.text (nftw_rm p w).1 q ≡ none
  pub lock_same :
      (label : ℕ) (w : os.World) → pointers.text (locks.lock label w).1 ≡ pointers.text w
  pub unlock_same : (id : ℕ) (w : os.World) → pointers.text (locks.unlock id w).1 ≡ pointers.text w

-- $$LOCKLABEL_RMDIR.
abbrev pub locklabel_rmdir : List ℕ
locklabel_rmdir = codes "*rmdir"

module _ (os : Os) (locks : Locks os) (files : Files os) (pointers : PointerFiles os files)
    (trees : Trees os locks files pointers) where
  open os use {World}

  -- The report that the node is no directory is 1.
  unfoldable pub sn_check_dir : Fsdata → World → Result × World
  unfolding is_dir
  sn_check_dir fs w =
      let (r, v) = files.lstat fs.sn_dir w in
      elim r [
        | stated st ↦ (if is_dir st then ret 0 else ret 1, v)
        | lstat_failed e ↦ elim (suc e == enoent) [
          | false ↦ (err (suc e), v)
          | true ↦
              (let (q, u) = files.mkdir fs.sn_dir v in
                elim q [ done _ ↦ (ret 0, u) | failed x ↦ (err (suc x), u) ])
        ]
      ]

  -- What $recursive_remove makes of the value of nftw and of the unlocking.
  unfoldable pub removed : Ret → Ret → Result
  removed (failed _) (failed x) = err (suc x)
  removed (done _) (failed x) = err (suc x)
  removed (done n) (done _) = minus n
  removed (failed _) (done _) = err enomem

  unfoldable pub recursive_remove : List ℕ → World → Result × World
  unfolding removed string2locklabel
  recursive_remove path w =
      let (l, v) = locks.lock (string2locklabel locklabel_rmdir) w in
      elim l [
        | failed e ↦ (err (suc e), v)
        | done id ↦
            (let (r, u) = trees.nftw_rm path v in
              let (q, t) = locks.unlock id u in (removed r q, t))
      ]

  -- `waserror` is the first part of what the pieces of $sn_create return.
  unfoldable pub set_latest : Fsdata → List ℕ → World → ℕ × Fsdata × World
  unfolding sn_set_latest
  set_latest fs path w =
      let (r, fs', v) = sn_set_latest os files pointers fs path w in
      elim r [ err e ↦ (e, fs', v) | ret _ ↦ (0, fs', v) ]

  -- The text of the pointer to the snapshot before, and then the latest snapshot.
  unfoldable pub write_pointer_file : Fsdata → List ℕ → os.Fd → World → ℕ × Fsdata × World
  unfolding set_latest
  write_pointer_file fs path fd w =
      let (r, v) = pointers.pwrite_text fd (fs.sn_lat_dir ++ (0 ∷ [])) w in
      elim r [
        | failed e ↦ (suc e, fs, v)
        | done n ↦ elim (n == length fs.sn_lat_dir + 1) [
          | false ↦ (eio, fs, v)
          | true ↦ set_latest fs path v
        ]
      ]

  unfoldable pub unlink_failed : List ℕ → ℕ → World → World
  unlink_failed hid waserror w = if waserror == 0 then w else (files.unlink hid w).1

  unfoldable pub link_new : Fsdata → List ℕ → World → ℕ × Fsdata × World
  unfolding write_pointer_file unlink_failed
  link_new fs path w = elim (get_hid_path path) [
    | none ↦ (enametoolong, fs, w)
    | some hid ↦
        (let (r, v) = pointers.open_fresh hid w in
          elim r [
            | open_failed e ↦ (suc e, fs, v)
            | fd_opened fd ↦
                (let (e, fs', u) = write_pointer_file fs path fd v in
                  (e, fs', unlink_failed hid e (files.close fd u).1))
          ])
  ]

  -- The cleanup.
  unfoldable pub created : List ℕ → ℕ × Fsdata × World → Result × Fsdata × World
  created path (zero, fs, w) = (ret 0, fs, w)
  created path (suc e, fs, w) = (err (suc e), fs, (trees.rmdir path w).1)

  unfoldable pub sn_create : Fsdata → List ℕ → World → Result × Fsdata × World
  unfolding link_new set_latest created
  sn_create fs path w =
      let (r, v) = files.mkdir path w in
      elim r [
        | failed e ↦ (err (suc e), fs, v)
        | done _ ↦
            created path (if fs.sn_is_any == 0 then set_latest fs path v else link_new fs path v)
      ]

  -- Removing a pointer and then the snapshot.
  unfoldable pub remove_both : List ℕ → List ℕ → Fsdata → Fsdata → World → Result × Fsdata × World
  unfolding recursive_remove
  remove_both pointer snpath fs after w =
      let (r, v) = files.unlink pointer w in
      elim r [
        | failed e ↦ (err (suc e), fs, v)
        | done _ ↦
            (let (q, u) = recursive_remove snpath v in
              elim q [ err e ↦ (err e, fs, u) | ret n ↦ (ret n, after, u) ])
      ]

  unfoldable pub destroy_found : Fsdata → Earliest × World → Result × Fsdata × World
  unfolding remove_both
  destroy_found fs (no_snapshots, w) = (err enoent, fs, w)
  destroy_found fs (earliest_error e, w) = (err e, fs, w)
  destroy_found fs (earliest snpath (some prev), w) = remove_both prev snpath fs fs w
  destroy_found fs (earliest snpath none, w) = elim (get_dir_hid_path fs.sn_dir) [
    | none ↦ (err enametoolong, fs, w)
    | some pointer ↦ remove_both pointer snpath fs (record fs { sn_is_any = 0 }) w
  ]

  unfoldable pub sn_destroy : Fsdata → World → Result × Fsdata × World
  unfolding destroy_found sn_get_earliest
  sn_destroy fs w = destroy_found fs (sn_get_earliest os files pointers fs w)
