-- ===== src/Handle/Opening.antt =====
-- What $mfd_open_sn leaves in a handle when it succeeds.
use esfs.Base.{
  ℕ, zero, suc, ◌≡◌, ◌≢◌, refl, Bool, true, false, Option, none, some, List, arith, ◌==◌,
  if◌then◌else◌,
}
use esfs.Os.{Os, Locks, Ret, done, failed}
use esfs.Files.{Files}
use esfs.Types.{Result, ret, err, minus, nosn, Mfd}
use esfs.Paths.Build.{get_map_prefix_path}
use esfs.Handle.Mkpath.{mkpath}
use esfs.Handle.Open.{
  Fsdata, Opening, open_map, leftover, with_lock, with_map_path, defaults, open_at, mfd_open_sn,
}
use esfs.Handle.Stage.{Current, MapOpen}
use esfs.Handle.Blocks.{open_map-Stage, leftover-Stage}

module _ (os : Os) (locks : Locks os) (files : Files os) (fs : Fsdata) (vpath fpath : List ℕ) where
  open os use {World, Fd}

  -- What a value of 0 from $mfd_open_sn says, with snapshots.
  abbrev Ok : Result × Mfd Fd × World → Type 0
  Ok x = x.0 ≡ ret 0 → Current fs vpath fpath x.1 × MapOpen x.1

  minus-zero : (n : ℕ) → minus n ≡ ret 0 → n ≡ 0
  minus-zero zero h = refl
  minus-zero (suc n) h = cc

  with_lock-Ok :
      (fmap : List ℕ) (m : Mfd Fd) (w : World)
      → Current fs vpath fpath m
      → Ok (with_lock os locks files fs vpath fpath fmap m w)
  unfolding with_lock
  with_lock-Ok fmap m w c = by_lock (locks.lock m.locklabel w).0 (locks.lock m.locklabel w).1
    where
      by_lock :
          (r : Ret) (v : World)
          → Ok (elim r [
            | failed e ↦ (err (suc e), m, v)
            | done id ↦
                (let s = leftover os locks files (
                    open_map os locks files fs vpath fpath fmap id
                      (record { world = v; mfd = m; mylock = some id; waserror = 0 })) in
                  (minus s.waserror, s.mfd, s.world))
          ])
      by_lock (failed e) v = λ h. cc
      by_lock (done id) v =
          let s : Opening World Fd = record {
            world = v;
            mfd = m;
            mylock = some id;
            waserror = 0;
          } in
          let t : Opening World Fd = open_map os locks files fs vpath fpath fmap id s in
          let g =
            leftover-Stage os locks files fs vpath fpath t
              (open_map-Stage os locks files fs vpath fpath fmap id s c) in
          λ h. (g.current, g.ready (minus-zero (leftover os locks files t).waserror h))

  with_map_path-Ok :
      (p : Option (List ℕ)) (m : Mfd Fd) (w : World)
      → Current fs vpath fpath m
      → Ok (with_map_path os locks files fs vpath fpath p m w)
  unfolding with_map_path
  with_map_path-Ok none m w c = λ h. cc
  with_map_path-Ok (some fmap) m w c = by_path (mkpath os files fmap w).0 (mkpath os files fmap w).1
    where
      by_path :
          (r : Result) (v : World)
          → Ok (elim r [
            | err e ↦ (err e, m, v)
            | ret _ ↦ with_lock os locks files fs vpath fpath fmap m v
          ])
      by_path (err e) v = λ h. cc
      by_path (ret n) v = with_lock-Ok fmap m v c

  -- If $mfd_open_sn, called with the real path of a file, returns 0 and there is a snapshot: the
  -- handle carries the number of the snapshots, the lock label of the real path, an empty cache
  -- and the path; its map file is open; and its dat file is open where the header says that the
  -- file existed with content when the snapshot was taken, while otherwise the handle says which
  -- of the two it was not.
  pub mfd_open_sn-MapOpen :
      (mfd : Mfd Fd) (w : World)
      → fs.sn_is_any ≢ 0
      → (mfd_open_sn os locks files fs vpath (some fpath) mfd w).0 ≡ ret 0
      → Current fs vpath fpath (mfd_open_sn os locks files fs vpath (some fpath) mfd w).1
        × MapOpen (mfd_open_sn os locks files fs vpath (some fpath) mfd w).1
  unfolding mfd_open_sn open_at defaults
  mfd_open_sn-MapOpen mfd w any h = by_any (fs.sn_is_any == 0) (ground (arith, any)) h
    where
      m : Mfd Fd
      m = defaults os locks files fs vpath fpath mfd

      by_any :
          (b : Bool)
          → b ≡ false
          → Ok (
              if b
              then (ret 0, record m { mapfd = nosn; datfd = nosn }, w)
              else with_map_path os locks files fs vpath fpath
                  (get_map_prefix_path vpath fs.sn_lat_dir fs.sn_lat_dir_len)
                  m
                  w)
      by_any true e = cc
      by_any false e =
          with_map_path-Ok (get_map_prefix_path vpath fs.sn_lat_dir fs.sn_lat_dir_len) m w (record {
            is_main = refl;
            sn_number = refl;
            locklabel = refl;
            cache = refl;
            path = refl;
          })
