-- ===== src/Dentries/Given.antt =====
-- The handles that $open gives out for files of snapshots.
use esfs.Base.{
  ℕ, zero, suc, ◌≡◌, refl, Bool, true, false, Option, none, some, List, arith, ==_iff, ◌==◌,
  if◌then◌else◌,
}
use esfs.Os.{Os, Locks, MapHeader}
use esfs.Files.{Files}
use esfs.Types.{Result, ret, err, mfd_sn_full, Mfd}
use esfs.Types.Errno.{eacces, enomem}
use esfs.Paths.Snpath.{
  Snpath, SnpathTypes, snpath_root, snpath_id, snpath_full, is_path_in_sn, decompose_sn_path,
}
use esfs.Handle.Open.{Fsdata}
use esfs.Snapshots.Pointers.{PointerFiles}
use esfs.Steps.Calls.{Dirs}
use esfs.Steps.Find.{mfd_get_sn_steps}
use esfs.Steps.Data.{open_flags}
use esfs.Steps.Opened.{StepsOpen, Opens, mfd_get_sn_steps-Opens}
use esfs.Dentries.Spaces.{PathCalls, path_sn-in}
use esfs.Dentries.Opening.{Given, accmode, with_handle, sn_handle, open_in_sn, open_file}

module _ (os : Os) (locks : Locks os) (files : Files os) (pointers : PointerFiles os files)
    (dirs : Dirs os) (calls : PathCalls os) where
  open os use {World, Fd}

  -- An error without a handle, or a handle for reading a snapshot.
  abbrev pub ReadsSnapshot : ℕ → Given os locks files pointers dirs calls → Type 0
  ReadsSnapshot flags (err e, none, w) = Unit
  ReadsSnapshot flags (err e, some mfd, w) = ⊥
  ReadsSnapshot flags (ret n, none, w) = ⊥
  ReadsSnapshot flags (ret n, some mfd, w) =
      (accmode flags ≡ 0) × (mfd.is_main ≡ mfd_sn_full) × StepsOpen mfd 0

  handle-ReadsSnapshot :
      (flags : ℕ) (out : Result × Mfd Fd × World)
      → accmode flags ≡ 0
      → Opens os locks files pointers dirs out
      → ReadsSnapshot flags (sn_handle os locks files pointers dirs calls out)
  unfolding sn_handle
  handle-ReadsSnapshot flags (err e, mfd, w) a o = tt
  handle-ReadsSnapshot flags (ret (suc n), mfd, w) a o = absurd (omega (arith, o.0))
  handle-ReadsSnapshot flags (ret zero, mfd, w) a o =
      (a, refl, record { none_found = o.1.none_found; found = o.1.found })

  open_in_sn-ReadsSnapshot :
      (fs : Fsdata) (junk : Mfd Fd) (head : MapHeader) (flags : ℕ) (snpath : Snpath)
      (fpath : List ℕ) (w : World)
      → ReadsSnapshot flags
          (open_in_sn os locks files pointers dirs calls fs junk head flags snpath fpath w)
  unfolding open_in_sn with_handle
  open_in_sn-ReadsSnapshot fs junk head flags snpath fpath w = by_mode (accmode flags == 0) refl
    where
      steps : World → Given os locks files pointers dirs calls
      steps v =
          sn_handle os locks files pointers dirs calls
            (mfd_get_sn_steps os locks files pointers dirs fs junk snpath open_flags head v)

      by_malloc :
          (m : Option (ℕ → ℕ)) (v : World)
          → accmode flags ≡ 0
          → ReadsSnapshot flags (elim m [ none ↦ (err enomem, none, v) | some _ ↦ steps v ])
      by_malloc none v a = tt
      by_malloc (some f) v a =
          handle-ReadsSnapshot flags
            (mfd_get_sn_steps os locks files pointers dirs fs junk snpath open_flags head v) a
            (mfd_get_sn_steps-Opens os locks files pointers dirs fs junk snpath head v)

      by_kind :
          (k : SnpathTypes)
          → accmode flags ≡ 0
          → ReadsSnapshot flags (elim k [
            | snpath_full ↦ with_handle os locks files pointers dirs calls w steps
            | _ ↦ (err eacces, none, w)
          ])
      by_kind snpath_root a = tt
      by_kind snpath_id a = tt
      by_kind snpath_full a = by_malloc (os.malloc w).0 (os.malloc w).1 a

      by_mode :
          (b : Bool)
          → (accmode flags == 0) ≡ b
          → ReadsSnapshot flags (
              if b
              then elim snpath.is_there [
                | snpath_full ↦ with_handle os locks files pointers dirs calls w steps
                | _ ↦ (err eacces, none, w)
              ]
              else (err eacces, none, w))
      by_mode true e = by_kind snpath.is_there ((==_iff (accmode flags) 0).0 e)
      by_mode false e = tt

  -- For a path of the snapshot space, $open gives a handle only if it does not report an error and
  -- the access mode is O_RDONLY; the handle is then one of a file of a snapshot, whose
  -- sn_first_file is the first of its steps with a dat file or main file that could be opened,
  -- which is open, or is -1 where no step has one.
  pub open_file-ReadsSnapshot :
      (fs : Fsdata) (junk : Mfd Fd) (head : MapHeader) (sn : Snpath) (path : List ℕ) (flags : ℕ)
      (w : World)
      → is_path_in_sn path ≡ true
      → ReadsSnapshot flags
          (open_file os locks files pointers dirs calls fs junk head sn path flags w)
  unfolding open_file
  open_file-ReadsSnapshot fs junk head sn path flags w h =
      path_sn-in os fs path sn w (λ e v. (err e, none, v))
        (open_in_sn os locks files pointers dirs calls fs junk head flags) _ (ReadsSnapshot flags) h
        tt tt
        (λ fpath e.
          open_in_sn-ReadsSnapshot fs junk head flags (decompose_sn_path sn path).0 fpath
            (os.malloc w).1)
