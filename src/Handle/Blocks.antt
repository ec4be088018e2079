-- ===== src/Handle/Blocks.antt =====
-- The blocks [B], [C] and [A] of $mfd_open_sn keep what a stage needs.
use esfs.Base.{
  ℕ, suc, ◌≡◌, refl, ap, inl, inr, Bool, true, false, Option, none, some, List, ◌==◌, if◌then◌else◌,
  Bool-cases,
}
use esfs.Os.{Os, Locks, Ret, done, failed, Stat, MapHeader}
use esfs.Files.{Files, Opened, fd_opened, open_failed, Stated, stated, lstat_failed}
use esfs.Types.{Result, ret, err, open_fd}
use esfs.Handle.Mkpath.{is_dir}
use esfs.Handle.Open.{
  Fsdata, Opening, mfd_save_mapheader, mfd_load_mapheader, unlock_and_open, use_map, save_and_open,
  new_map, close_on_error, unlink_on_error, open_map, leftover, signature_text,
}
use esfs.Handle.Stage.{
  Current, Stage, failing, same_fields, unlock_and_open-Stage, load_error, save_error,
}

module _ (os : Os) (locks : Locks os) (files : Files os) (fs : Fsdata) (vpath fpath : List ℕ) where
  open os use {World, Fd}

  abbrev pub Good : Opening World Fd → Type 0
  Good s = Stage fs vpath fpath s

  pub use_map-Stage :
      (id : ℕ) (fd : Fd) (s : Opening World Fd)
      → Current fs vpath fpath s.mfd
      → Good (use_map os locks files fs vpath id fd s)
  unfolding use_map
  use_map-Stage id fd s c =
      by_load (mfd_load_mapheader os locks files s.mfd.mapheader fd s.world) refl
    where
      by_load :
          (x : Result × MapHeader × World)
          → mfd_load_mapheader os locks files s.mfd.mapheader fd s.world ≡ x
          → Good (
              let t : Opening World Fd = record s {
                world = x.2;
                mfd = record s.mfd { mapfd = open_fd fd; mapheader = x.1 };
              } in
              elim x.0 [
                | err e ↦ record t { waserror = e }
                | ret _ ↦ unlock_and_open os locks files fs vpath id t
              ])
      by_load (ret n, h, v) q =
          unlock_and_open-Stage os locks files fs vpath fpath id
            (record s { world = v; mfd = record s.mfd { mapfd = open_fd fd; mapheader = h } }) fd
            (same_fields os locks files fs vpath fpath s.mfd
              (record s.mfd { mapfd = open_fd fd; mapheader = h }) c refl)
            refl
      by_load (err e, h, v) q = record {
        current =
            same_fields os locks files fs vpath fpath s.mfd
              (record s.mfd { mapfd = open_fd fd; mapheader = h }) c refl;
        ready = λ z. absurd (
            load_error os locks files fs vpath fpath s.mfd.mapheader fd s.world e
              (ap (λ (y : Result × MapHeader × World). y.0) q) z);
      }

  pub save_and_open-Stage :
      (id : ℕ) (fd : Fd) (s : Opening World Fd)
      → Current fs vpath fpath s.mfd
      → s.mfd.mapfd ≡ open_fd fd
      → Good (save_and_open os locks files fs vpath id s)
  unfolding save_and_open
  save_and_open-Stage id fd s c m = elim (Bool-cases (is_dir s.mfd.mapheader.fstat)) [
    | inl e ↦ rw e (failing os locks files fs vpath fpath s s.world 20 c)
    | inr e ↦ rw e (
        by_save (mfd_save_mapheader os locks files s.mfd s.world).0
          (mfd_save_mapheader os locks files s.mfd s.world).1 refl)
  ]
    where
      by_save :
          (r : Result) (v : World)
          → (mfd_save_mapheader os locks files s.mfd s.world).0 ≡ r
          → Good (elim r [
            | err e ↦ record s { world = v; waserror = e }
            | ret _ ↦ unlock_and_open os locks files fs vpath id (record s { world = v })
          ])
      by_save (err e) v q = record {
        current = c;
        ready = λ z. absurd (save_error os locks files fs vpath fpath s.mfd s.world e q z);
      }
      by_save (ret n) v q =
          unlock_and_open-Stage os locks files fs vpath fpath id (record s { world = v }) fd c m

  -- The handle with a new header.
  abbrev pub fresh : Fd → Opening World Fd → World → Stat → ℕ → Opening World Fd
  fresh fd s v st exists = record s {
    world = v;
    mfd = record s.mfd {
      mapfd = open_fd fd;
      mapheader = record {
        version = 12000;
        exists = exists;
        fstat = st;
        signature = signature_text;
      };
    };
  }

  pub new_map-Stage :
      (id : ℕ) (fd : Fd) (s : Opening World Fd)
      → Current fs vpath fpath s.mfd
      → Good (new_map os locks files fs vpath fpath id fd s)
  unfolding new_map
  new_map-Stage id fd s c = by_stat (files.lstat fpath s.world).0 (files.lstat fpath s.world).1
    where
      fresh-Current :
          (v : World) (st : Stat) (exists : ℕ) → Current fs vpath fpath (fresh fd s v st exists).mfd
      fresh-Current v st exists =
          same_fields os locks files fs vpath fpath s.mfd (fresh fd s v st exists).mfd c refl

      by_error :
          (b : Bool) (e : ℕ) (v : World)
          → Good (elim b [
            | true ↦ save_and_open os locks files fs vpath id (fresh fd s v s.mfd.mapheader.fstat 0)
            | false ↦ record (fresh fd s v s.mfd.mapheader.fstat 1) { waserror = suc e }
          ])
      by_error true e v =
          save_and_open-Stage id fd (fresh fd s v s.mfd.mapheader.fstat 0)
            (fresh-Current v s.mfd.mapheader.fstat 0) refl
      by_error false e v =
          failing os locks files fs vpath fpath (fresh fd s v s.mfd.mapheader.fstat 1) v e
            (fresh-Current v s.mfd.mapheader.fstat 1)

      by_stat :
          (r : Stated) (v : World)
          → Good (elim r [
            | stated st ↦ save_and_open os locks files fs vpath id (fresh fd s v st 1)
            | lstat_failed e ↦ elim (suc e == 2) [
              | true ↦
                  save_and_open os locks files fs vpath id (fresh fd s v s.mfd.mapheader.fstat 0)
              | false ↦ record (fresh fd s v s.mfd.mapheader.fstat 1) { waserror = suc e }
            ]
          ])
      by_stat (stated st) v =
          save_and_open-Stage id fd (fresh fd s v st 1) (fresh-Current v st 1) refl
      by_stat (lstat_failed e) v = by_error (suc e == 2) e v

  pub close_on_error-Stage :
      (fd : Fd) (s : Opening World Fd) → Good s → Good (close_on_error os locks files fd s)
  unfolding close_on_error
  close_on_error-Stage fd s g = by_error (s.waserror == 0)
    where
      by_error :
          (b : Bool) → Good (if b then s else record s { world = (files.close fd s.world).1 })
      by_error true = g
      by_error false = record { current = g.current; ready = g.ready }

  pub unlink_on_error-Stage :
      (fmap : List ℕ) (s : Opening World Fd) → Good s → Good (unlink_on_error os locks files fmap s)
  unfolding unlink_on_error
  unlink_on_error-Stage fmap s g = by_error (s.waserror == 0) s.mylock
    where
      by_error :
          (b : Bool) (l : Option ℕ)
          → Good (
              if b then s else elim l [
                | none ↦ s
                | some _ ↦ record s { world = (files.unlink fmap s.world).1 }
              ])
      by_error true l = g
      by_error false none = g
      by_error false (some _) = record { current = g.current; ready = g.ready }

  pub leftover-Stage : (s : Opening World Fd) → Good s → Good (leftover os locks files s)
  unfolding leftover
  leftover-Stage s g = by_lock s.mylock
    where
      by_unlock :
          (r : Ret) (v : World)
          → Good (elim r [
            | done _ ↦ record s { world = v }
            | failed e ↦ record s { world = v; waserror = suc e }
          ])
      by_unlock (done _) v = record { current = g.current; ready = g.ready }
      by_unlock (failed e) v = failing os locks files fs vpath fpath s v e g.current

      by_lock :
          (l : Option ℕ)
          → Good (elim l [
            | none ↦ s
            | some id ↦
                (let (r, v) = locks.unlock id s.world in
                  elim r [
                    | done _ ↦ record s { world = v }
                    | failed e ↦ record s { world = v; waserror = suc e }
                  ])
          ])
      by_lock none = g
      by_lock (some id) = by_unlock (locks.unlock id s.world).0 (locks.unlock id s.world).1

  pub open_map-Stage :
      (fmap : List ℕ) (id : ℕ) (s : Opening World Fd)
      → Current fs vpath fpath s.mfd
      → Good (open_map os locks files fs vpath fpath fmap id s)
  unfolding open_map
  open_map-Stage fmap id s c =
      by_new (files.open_new fmap s.world).0 (files.open_new fmap s.world).1
    where
      by_old :
          (q : Opened Fd) (u : World)
          → Good (elim q [
            | open_failed e ↦ record s { world = u; waserror = suc e }
            | fd_opened fd ↦
                close_on_error os locks files fd
                  (use_map os locks files fs vpath id fd (record s { world = u }))
          ])
      by_old (open_failed e) u = failing os locks files fs vpath fpath s u e c
      by_old (fd_opened fd) u =
          close_on_error-Stage fd (use_map os locks files fs vpath id fd (record s { world = u }))
            (use_map-Stage id fd (record s { world = u }) c)

      by_error :
          (b : Bool) (e : ℕ) (v : World)
          → Good (elim b [
            | false ↦ record s { world = v; waserror = suc e }
            | true ↦
                (let (q, u) = files.open_rdwr fmap v in
                  elim q [
                    | open_failed e ↦ record s { world = u; waserror = suc e }
                    | fd_opened fd ↦
                        close_on_error os locks files fd
                          (use_map os locks files fs vpath id fd (record s { world = u }))
                  ])
          ])
      by_error false e v = failing os locks files fs vpath fpath s v e c
      by_error true e v = by_old (files.open_rdwr fmap v).0 (files.open_rdwr fmap v).1

      by_new :
          (r : Opened Fd) (v : World)
          → Good (elim r [
            | fd_opened fd ↦ unlink_on_error os locks files fmap (
                close_on_error os locks files fd
                  (new_map os locks files fs vpath fpath id fd (record s { world = v })))
            | open_failed e ↦ elim (suc e == 17) [
              | false ↦ record s { world = v; waserror = suc e }
              | true ↦
                  (let (q, u) = files.open_rdwr fmap v in
                    elim q [
                      | open_failed e ↦ record s { world = u; waserror = suc e }
                      | fd_opened fd ↦
                          close_on_error os locks files fd
                            (use_map os locks files fs vpath id fd (record s { world = u }))
                    ])
            ]
          ])
      by_new (open_failed e) v = by_error (suc e == 17) e v
      by_new (fd_opened fd) v =
          let t = new_map os locks files fs vpath fpath id fd (record s { world = v }) in
          unlink_on_error-Stage fmap (close_on_error os locks files fd t)
            (close_on_error-Stage fd t (new_map-Stage id fd (record s { world = v }) c))
