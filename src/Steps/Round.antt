-- ===== src/Steps/Round.antt =====
-- What one round of $mfd_get_sn_steps opens, for a file that is opened in a snapshot.
use esfs.Base.{
  ℕ, suc, ◌+◌, ◌≡◌, refl, sym, ap, subst, Bool, true, false, Option, none, some, List, ◌++◌, length,
  leb, ◌==◌, if◌then◌else◌, arith,
}
use esfs.Os.{Os, Locks, MapHeader}
use esfs.Files.{Files, Opened, fd_opened, open_failed}
use esfs.Types.{Result, ret, err, opened, unused, main_space, SnStep, Mfd}
use esfs.Types.Errno.{enoent, enametoolong}
use esfs.Paths.Build.{path_max, get_map_path, get_dat_path}
use esfs.Paths.Label.{string2locklabel}
use esfs.Handle.Open.{mfd_load_mapheader}
use esfs.Snapshots.Pointers.{PointerFiles}
use esfs.Steps.Calls.{Dirs, Getting, again, stop, set_step, set_mapfd}
use esfs.Steps.Find.{
  both_unused, open_data, open_dat, load_header, snapshot_file, main_file, of_type, find_type,
  visit,
}
use esfs.Steps.Data.{open_flags, Kept, Kept-step, step_at, Good, open_data-Good}

module _ (os : Os) (locks : Locks os) (files : Files os) (pointers : PointerFiles os files)
    (dirs : Dirs os) where
  open os use {World, Fd}

  open_dat-Good :
      (i : ℕ) (m : Mfd Fd) (s : Getting World Fd)
      → Kept i m s.mfd
      → Good i m (open_dat os locks files pointers dirs open_flags i s)
  unfolding open_dat
  open_dat-Good i m s k = by_path (get_dat_path (s.mfd.sn_steps i).path)
    where
      by_path :
          (o : Option (List ℕ))
          → Good i m (elim o [
            | none ↦ stop (record s { waserror = enametoolong })
            | some fdat ↦ open_data os locks files pointers dirs open_flags i fdat s
          ])
      by_path none = omega arith
      by_path (some fdat) = open_data-Good os locks files pointers dirs i m fdat s k

  load_header-mfd :
      (fd : Fd) (s : Getting World Fd) → (load_header os locks files pointers dirs fd s).mfd ≡ s.mfd
  unfolding load_header
  load_header-mfd fd s = by_result (mfd_load_mapheader os locks files s.maphead fd s.world)
    where
      by_result :
          (out : Result × MapHeader × World)
          → (let t : Getting World Fd = record s { world = out.2; maphead = out.1 } in
              let u : Getting World Fd = elim out.0 [
                | err e ↦ record t { waserror = e }
                | ret _ ↦ t
              ] in
              u.mfd)
            ≡ s.mfd
      by_result (err e, h, v) = refl
      by_result (ret n, h, v) = refl

  snapshot_file-Good :
      (i : ℕ) (m : Mfd Fd) (s : Getting World Fd)
      → Kept i m s.mfd
      → Good i m (snapshot_file os locks files pointers dirs open_flags i s)
  unfolding snapshot_file
  snapshot_file-Good i m s k = by_path (get_map_path (s.mfd.sn_steps i).path)
    where
      with_map : World → Fd → Getting World Fd
      with_map v fd = record s { world = v; mfd = set_mapfd s.mfd i (opened fd) }

      by_errno :
          (v : World) (b : Bool) (e : ℕ)
          → Good i m (
              if b
              then again
                  (record s { world = v; mfd = both_unused os locks files pointers dirs s.mfd i })
              else stop (record s { world = v; waserror = suc e }))
      by_errno v true e = (
        Kept-step i m (set_mapfd s.mfd i unused) (λ x. record x { datfd = unused })
            (Kept-step i m s.mfd (λ x. record x { mapfd = unused }) k),
        ap (λ (x : SnStep Fd). x.datfd)
            (step_at (set_mapfd s.mfd i unused) i (λ x. record x { datfd = unused })),
      )
      by_errno v false e = omega arith

      by_open :
          (r : Opened Fd) (v : World)
          → Good i m (elim r [
            | open_failed e ↦
                if suc e == enoent
                then again
                    (record s { world = v; mfd = both_unused os locks files pointers dirs s.mfd i })
                else stop (record s { world = v; waserror = suc e })
            | fd_opened fd ↦
                open_dat os locks files pointers dirs open_flags i
                  (load_header os locks files pointers dirs fd (with_map v fd))
          ])
      by_open (open_failed e) v = by_errno v (suc e == enoent) e
      by_open (fd_opened fd) v =
          open_dat-Good i m (load_header os locks files pointers dirs fd (with_map v fd)) (
            subst (Kept i m) (sym (load_header-mfd fd (with_map v fd)))
              (Kept-step i m s.mfd (λ x. record x { mapfd = opened fd }) k))

      by_path :
          (o : Option (List ℕ))
          → Good i m (elim o [
            | none ↦ stop (record s { waserror = enametoolong })
            | some fmap ↦
                (let (r, v) = files.open_rdonly fmap s.world in
                  elim r [
                    | open_failed e ↦
                        if suc e == enoent
                        then again (record s {
                          world = v;
                          mfd = both_unused os locks files pointers dirs s.mfd i;
                        })
                        else stop (record s { world = v; waserror = suc e })
                    | fd_opened fd ↦
                        open_dat os locks files pointers dirs open_flags i
                          (load_header os locks files pointers dirs fd (with_map v fd))
                  ])
          ])
      by_path none = omega arith
      by_path (some fmap) =
          by_open (files.open_rdonly fmap s.world).0 (files.open_rdonly fmap s.world).1

  main_file-Good :
      (i : ℕ) (m : Mfd Fd) (s : Getting World Fd)
      → Kept i m s.mfd
      → Good i m (main_file os locks files pointers dirs open_flags i s)
  unfolding main_file
  main_file-Good i m s k =
      open_data-Good os locks files pointers dirs i m (s.mfd.sn_steps i).path
        (record s {
          mfd = record (set_mapfd s.mfd i main_space) {
            locklabel = string2locklabel (s.mfd.sn_steps i).path;
          };
        })
        (record { cur = there.cur; first = there.first; others = there.others })
    where
      there : Kept i m (set_mapfd s.mfd i main_space)
      there = Kept-step i m s.mfd (λ x. record x { mapfd = main_space }) k

  pub visit-Good :
      (mypath : List ℕ) (i : ℕ) (s : Getting World Fd)
      → Good i s.mfd (visit os locks files pointers dirs open_flags mypath i s)
  unfolding visit find_type of_type
  visit-Good mypath i s = by_room (leb path_max (length mypath + length (s.mfd.sn_steps i).path))
    where
      t : Getting World Fd
      t = record s { mfd = set_step s.mfd i (λ x. record x { path = x.path ++ mypath }) }

      kept : Kept i s.mfd t.mfd
      kept =
          Kept-step i s.mfd s.mfd (λ x. record x { path = x.path ++ mypath })
            (record { cur = refl; first = refl; others = λ j d. refl })

      by_place :
          (b : Bool)
          → Good i s.mfd (
              if b
              then main_file os locks files pointers dirs open_flags i t
              else snapshot_file os locks files pointers dirs open_flags i t)
      by_place true = main_file-Good i s.mfd t kept
      by_place false = snapshot_file-Good i s.mfd t kept

      by_room :
          (b : Bool)
          → Good i s.mfd (
              if b
              then stop (record s { waserror = enametoolong })
              else (if i == 0
                  then main_file os locks files pointers dirs open_flags i t
                  else snapshot_file os locks files pointers dirs open_flags i t))
      by_room true = omega arith
      by_room false = by_place (i == 0)
