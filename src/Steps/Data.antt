-- ===== src/Steps/Data.antt =====
-- What opening a dat file or the main file does to the steps of a handle.
use esfs.Base.{
  ℕ, suc, ◌<◌, ◌≡◌, ◌≢◌, ◌⊎◌, inl, inr, refl, sym, ◌∙◌, ap, Bool, true, false, Option, none, some,
  List, ◌==◌, ==_refl, if◌then◌else◌, arith,
}
use esfs.Os.{Os, Locks}
use esfs.Files.{Files, Opened, fd_opened, open_failed, Stated, stated, lstat_failed}
use esfs.Types.{opened, unused, SnStep, Mfd}
use esfs.Types.Errno.{enoent}
use esfs.Snapshots.Pointers.{PointerFiles}
use esfs.Steps.Calls.{Dirs, Flags, Getting, Turn, ended, again, stop, set_step, set_datfd}
use esfs.Steps.Find.{set_fstat, first_file, open_data}

-- The flags of $open: $$SN_STEPS_F_FILE.
abbrev pub open_flags : Flags
open_flags = record {
  f_file = true;
  f_dir = false;
  f_type_unknown = false;
  f_firstonly = false;
  f_skipopendat = false;
  f_skipopendir = false;
  f_statdir = false;
}

module _ {Fd : Type 0} where
  -- Only step `i` differs, and no first file was found.
  pub record Kept (i : ℕ) (m m' : Mfd Fd) : Type 0 where
    pub cur : m'.sn_current ≡ m.sn_current
    pub first : m'.sn_first_file ≡ m.sn_first_file
    pub others : (j : ℕ) → j ≢ i → (m'.sn_steps j).datfd ≡ (m.sn_steps j).datfd

  pub step_others :
      (m : Mfd Fd) (i j : ℕ) (f : SnStep Fd → SnStep Fd)
      → j ≢ i
      → (set_step m i f).sn_steps j ≡ m.sn_steps j
  step_others m i j f d = ground (arith, d)

  pub step_at :
      (m : Mfd Fd) (i : ℕ) (f : SnStep Fd → SnStep Fd)
      → (set_step m i f).sn_steps i ≡ f (m.sn_steps i)
  step_at m i f = ground (arith, ==_refl i)

  pub Kept-step :
      (i : ℕ) (m m' : Mfd Fd) (f : SnStep Fd → SnStep Fd) → Kept i m m' → Kept i m (set_step m' i f)
  Kept-step i m m' f k = record {
    cur = k.cur;
    first = k.first;
    others = λ j d. ap (λ (s : SnStep Fd). s.datfd) (step_others m' i j f d) ∙ k.others j d;
  }

  -- A dat file or the main file is open at step `i`.
  abbrev pub HasData : Mfd Fd → ℕ → Type 0
  HasData m i = (fd : Fd) × ((m.sn_steps i).datfd ≡ opened fd)

  abbrev pub NoData : Mfd Fd → ℕ → Type 0
  NoData m i = (m.sn_steps i).datfd ≡ unused

  -- A round in which data was found at step `i`.
  pub record Visited (i : ℕ) (m m' : Mfd Fd) : Type 0 where
    pub cur : m'.sn_current ≡ m.sn_current
    pub others : (j : ℕ) → j ≢ i → (m'.sn_steps j).datfd ≡ (m.sn_steps j).datfd
    pub first :
        ((m.sn_first_file ≡ none) × (m'.sn_first_file ≡ some i) × HasData m' i)
        ⊎ ((k : ℕ) × (m.sn_first_file ≡ some k) × (m'.sn_first_file ≡ some k))

  abbrev pub Good : {World : Type 0} → ℕ → Mfd Fd → Turn (Getting World Fd) → Type 0
  Good i m (stop s) = 0 < s.waserror
  Good i m (again s) = Kept i m s.mfd × NoData s.mfd i
  Good i m (ended s) = Visited i m s.mfd

module _ (os : Os) (locks : Locks os) (files : Files os) (pointers : PointerFiles os files)
    (dirs : Dirs os) where
  open os use {World, Fd}

  first_file-Good :
      (i : ℕ) (m : Mfd Fd) (s : Getting World Fd)
      → Kept i m s.mfd
      → HasData s.mfd i
      → Good i m (first_file os locks files pointers dirs open_flags i s)
  unfolding first_file
  first_file-Good i m s k h = by_first s.mfd.sn_first_file refl
    where
      t : Getting World Fd
      t = record s { mfd = record s.mfd { sn_first_file = some i } }

      now : s.mfd.sn_first_file ≡ none → Visited i m t.mfd
      now e = record { cur = k.cur; others = k.others; first = inl (sym k.first ∙ e, refl, h) }

      by_lstat :
          (r : Stated) (v : World)
          → s.mfd.sn_first_file ≡ none
          → Good i m (elim r [
            | lstat_failed e ↦ stop (record t { world = v; waserror = suc e })
            | stated st ↦
                ended
                  (record t { world = v; mfd = set_fstat os locks files pointers dirs t.mfd st })
          ])
      by_lstat (lstat_failed e) v q = omega arith
      by_lstat (stated st) v q = record {
        cur = (now q).cur;
        others = (now q).others;
        first = (now q).first;
      }

      by_place :
          (b : Bool)
          → s.mfd.sn_first_file ≡ none
          → Good i m (
              if b
              then (let (r, v) = files.lstat (s.mfd.sn_steps i).path s.world in
                  elim r [
                    | lstat_failed e ↦ stop (record t { world = v; waserror = suc e })
                    | stated st ↦ ended (record t {
                      world = v;
                      mfd = set_fstat os locks files pointers dirs t.mfd st;
                    })
                  ])
              else ended (record t { mfd = record t.mfd { mapheader = s.maphead } }))
      by_place true q =
          by_lstat (files.lstat (s.mfd.sn_steps i).path s.world).0
            (files.lstat (s.mfd.sn_steps i).path s.world).1 q
      by_place false q = record {
        cur = (now q).cur;
        others = (now q).others;
        first = (now q).first;
      }

      by_first :
          (o : Option ℕ)
          → s.mfd.sn_first_file ≡ o
          → Good i m (elim o [
            | some _ ↦ ended s
            | none ↦
                (if i == 0
                  then (let (r, v) = files.lstat (s.mfd.sn_steps i).path s.world in
                      elim r [
                        | lstat_failed e ↦ stop (record t { world = v; waserror = suc e })
                        | stated st ↦ ended (record t {
                          world = v;
                          mfd = set_fstat os locks files pointers dirs t.mfd st;
                        })
                      ])
                  else ended (record t { mfd = record t.mfd { mapheader = s.maphead } }))
          ])
      by_first none q = by_place (i == 0) q
      by_first (some n) q = record {
        cur = k.cur;
        others = k.others;
        first = inr (n, sym k.first ∙ q, q);
      }

  pub open_data-Good :
      (i : ℕ) (m : Mfd Fd) (path : List ℕ) (s : Getting World Fd)
      → Kept i m s.mfd
      → Good i m (open_data os locks files pointers dirs open_flags i path s)
  unfolding open_data
  open_data-Good i m path s k = by_open (files.open_rdonly path s.world).0
    where
      v : World
      v = (files.open_rdonly path s.world).1

      by_errno :
          (b : Bool) (e : ℕ)
          → Good i m (
              if b
              then again (record s { world = v; mfd = set_datfd s.mfd i unused })
              else stop (record s { world = v; waserror = suc e }))
      by_errno true e = (
        Kept-step i m s.mfd (λ x. record x { datfd = unused }) k,
        ap (λ (x : SnStep Fd). x.datfd) (step_at s.mfd i (λ x. record x { datfd = unused })),
      )
      by_errno false e = omega arith

      by_open :
          (r : Opened Fd)
          → Good i m (elim r [
            | open_failed e ↦
                if suc e == enoent
                then again (record s { world = v; mfd = set_datfd s.mfd i unused })
                else stop (record s { world = v; waserror = suc e })
            | fd_opened fd ↦
                first_file os locks files pointers dirs open_flags i
                  (record s { world = v; mfd = set_datfd s.mfd i (opened fd) })
          ])
      by_open (open_failed e) = by_errno (suc e == enoent) e
      by_open (fd_opened fd) =
          first_file-Good i m (record s { world = v; mfd = set_datfd s.mfd i (opened fd) })
            (Kept-step i m s.mfd (λ x. record x { datfd = opened fd }) k)
            (
              fd,
              ap (λ (x : SnStep Fd). x.datfd)
                  (step_at s.mfd i (λ x. record x { datfd = opened fd })),
            )
