-- ===== src/Handle/Stage.antt =====
-- The stages of $mfd_open_sn: what holds of the handle after each, and the last one, which opens the
-- dat file.
use esfs.Base.{
  ℕ, suc, ◌≡◌, ◌≢◌, refl, sym, subst, inl, inr, Bool, true, false, Option, none, some, List, arith,
  ◌==◌, ◌&&◌, str_eq, take, if◌then◌else◌, Bool-cases,
}
use esfs.Os.{Os, Locks, Ret, done, failed, MapHeader, header_size}
use esfs.Files.{Files, Opened, fd_opened, open_failed}
use esfs.Types.{Result, ret, err, mfd_main, MfdFd, open_fd, nosn, rdonly, enoent, zlen, Mfd}
use esfs.Paths.Build.{get_dat_prefix_path}
use esfs.Paths.Label.{string2locklabel}
use esfs.Handle.Open.{
  Fsdata, Opening, mfd_save_mapheader, mfd_load_mapheader, open_dat_file, unlock_and_open,
  header_version, signature_text,
}

module _ {Fd : Type 0} where
  -- The handle of the file at `vpath`, really `fpath`, as of now.
  pub record Current (fs : Fsdata) (vpath fpath : List ℕ) (m : Mfd Fd) : Type 0 where
    pub is_main : m.is_main ≡ mfd_main
    pub sn_number : m.sn_number ≡ fs.sn_number
    pub locklabel : m.locklabel ≡ string2locklabel fpath
    pub cache : m.latest_written_block_cache ≡ 0
    pub path : m.vpath ≡ vpath

  -- The map file is open, and the dat file where the file had content in the snapshot.
  pub record MapOpen (m : Mfd Fd) : Type 0 where
    pub map : Fd
    pub mapfd : m.mapfd ≡ open_fd map
    pub nonexistent : m.mapheader.exists ≡ 0 → m.datfd ≡ enoent
    pub empty : m.mapheader.exists ≢ 0 → m.mapheader.fstat.st_size ≡ 0 → m.datfd ≡ zlen
    pub saved :
        m.mapheader.exists ≢ 0
        → m.mapheader.fstat.st_size ≢ 0
        → (dat : Fd) × (m.datfd ≡ open_fd dat)

-- A stage of $mfd_open_sn: the fields are current, and both files are open unless it failed.
pub record Stage {World Fd : Type 0} (fs : Fsdata) (vpath fpath : List ℕ) (s : Opening World Fd)
    : Type 0 where
  pub current : Current fs vpath fpath s.mfd
  pub ready : s.waserror ≡ 0 → MapOpen s.mfd

module _ (os : Os) (locks : Locks os) (files : Files os) (fs : Fsdata) (vpath fpath : List ℕ) where
  open os use {World, Fd}

  abbrev Good : Opening World Fd → Type 0
  Good s = Stage fs vpath fpath s

  pub failing :
      (s : Opening World Fd) (w : World) (e : ℕ)
      → Current fs vpath fpath s.mfd
      → Good (record s { world = w; waserror = suc e })
  failing s w e c = record { current = c; ready = λ z. absurd (omega (arith, z)) }

  pub same_fields :
      (m m' : Mfd Fd)
      → Current fs vpath fpath m
      → m' ≡ record m { mapfd = m'.mapfd; datfd = m'.datfd; mapheader = m'.mapheader }
      → Current fs vpath fpath m'
  same_fields m m' c e =
      subst (λ x. Current fs vpath fpath x) (sym e)
        (record {
          is_main = c.is_main;
          sn_number = c.sn_number;
          locklabel = c.locklabel;
          cache = c.cache;
          path = c.path;
        })

  pub open_dat_file-Stage :
      (s : Opening World Fd) (map : Fd)
      → Current fs vpath fpath s.mfd
      → s.mfd.mapfd ≡ open_fd map
      → Good (open_dat_file os locks files fs vpath s)
  unfolding open_dat_file
  open_dat_file-Stage s map c m = elim (Bool-cases (s.mfd.mapheader.exists == 0)) [
    | inl e ↦ rw e (record {
      current = same_fields s.mfd (record s.mfd { datfd = enoent }) c refl;
      ready = λ z. record {
        map = map;
        mapfd = m;
        nonexistent = λ q. refl;
        empty = λ q r. absurd (ground (arith, e, q));
        saved = λ q r. absurd (ground (arith, e, q));
      };
    })
    | inr e ↦ elim (Bool-cases (s.mfd.mapheader.fstat.st_size == 0)) [
      | inl f ↦
          rw (e, f)
            (record {
              current = same_fields s.mfd (record s.mfd { datfd = zlen }) c refl;
              ready = λ z. record {
                map = map;
                mapfd = m;
                nonexistent = λ q. absurd (ground (arith, e, q));
                empty = λ q r. refl;
                saved = λ q r. absurd (ground (arith, f, r));
              };
            })
      | inr f ↦ rw (e, f) (by_path e f (get_dat_prefix_path vpath fs.sn_lat_dir fs.sn_lat_dir_len))
    ]
  ]
    where
      by_open :
          (s.mfd.mapheader.exists == 0) ≡ false
          → (s.mfd.mapheader.fstat.st_size == 0) ≡ false
          → (r : Opened Fd) (v : World)
          → Good (elim r [
            | open_failed e ↦ record s { world = v; waserror = suc e }
            | fd_opened fd ↦ record s { world = v; mfd = record s.mfd { datfd = open_fd fd } }
          ])
      by_open e f (open_failed x) v = failing s v x c
      by_open e f (fd_opened fd) v = record {
        current = same_fields s.mfd (record s.mfd { datfd = open_fd fd }) c refl;
        ready = λ z. record {
          map = map;
          mapfd = m;
          nonexistent = λ q. absurd (ground (arith, e, q));
          empty = λ q r. absurd (ground (arith, f, r));
          saved = λ q r. (fd, refl);
        };
      }

      by_path :
          (s.mfd.mapheader.exists == 0) ≡ false
          → (s.mfd.mapheader.fstat.st_size == 0) ≡ false
          → (p : Option (List ℕ))
          → Good (elim p [
            | none ↦ record s { waserror = 36 }
            | some fdat ↦
                (let (r, v) = files.open_append fdat s.world in
                  elim r [
                    | open_failed e ↦ record s { world = v; waserror = suc e }
                    | fd_opened fd ↦ record s {
                      world = v;
                      mfd = record s.mfd { datfd = open_fd fd };
                    }
                  ])
          ])
      by_path e f none = failing s s.world 35 c
      by_path e f (some p) =
          by_open e f (files.open_append p s.world).0 (files.open_append p s.world).1

  pub unlock_and_open-Stage :
      (id : ℕ) (s : Opening World Fd) (map : Fd)
      → Current fs vpath fpath s.mfd
      → s.mfd.mapfd ≡ open_fd map
      → Good (unlock_and_open os locks files fs vpath id s)
  unfolding unlock_and_open
  unlock_and_open-Stage id s map c m =
      by_unlock (locks.unlock id s.world).0 (locks.unlock id s.world).1
    where
      by_unlock :
          (r : Ret) (v : World)
          → Good (elim r [
            | failed e ↦ record s { world = v; waserror = suc e }
            | done _ ↦ open_dat_file os locks files fs vpath (record s { world = v; mylock = none })
          ])
      by_unlock (failed e) v = failing s v e c
      by_unlock (done _) v = open_dat_file-Stage (record s { world = v; mylock = none }) map c m

  -- An error that is reported has a number.
  pub load_error :
      (old : MapHeader) (fd : Fd) (w : World) (e : ℕ)
      → (mfd_load_mapheader os locks files old fd w).0 ≡ err e
      → e ≢ 0
  unfolding mfd_load_mapheader
  load_error old fd w e h z = by_read (files.pread_header fd w).0 h
    where
      full : (b c : Bool) → (if b then (if c then ret 0 else err 14) else err 5) ≡ err e → ⊥
      full true true q = cc
      full true false q = ground (arith, q, z)
      full false c q = ground (arith, q, z)

      by_read :
          (r : Ret)
          → ◌≡◌ {A = Result}
              (elim r as (λ _. Result × MapHeader × World) [
                | failed x ↦ (err (suc x), old, (files.pread_header fd w).2)
                | done n ↦ (
                  if n == header_size
                      then (if ((files.pread_header fd w).1.version == header_version)
                            && str_eq (take 4 (files.pread_header fd w).1.signature) signature_text
                          then ret 0
                          else err 14)
                      else err 5,
                  (files.pread_header fd w).1,
                  (files.pread_header fd w).2,
                )
              ]).0
              (err e)
          → ⊥
      by_read (failed x) q = ground (arith, q, z)
      by_read (done n) q =
          full (n == header_size)
            (((files.pread_header fd w).1.version == header_version)
              && str_eq (take 4 (files.pread_header fd w).1.signature) signature_text)
            q

  pub save_error :
      (m : Mfd Fd) (w : World) (e : ℕ) → (mfd_save_mapheader os locks files m w).0 ≡ err e → e ≢ 0
  unfolding mfd_save_mapheader
  save_error m w e h z = by_fd m.mapfd h
    where
      full : (b : Bool) → (if b then ret 0 else err 5) ≡ err e → ⊥
      full true q = cc
      full false q = ground (arith, q, z)

      by_write :
          (r : Ret) (v : World)
          → ◌≡◌ {A = Result}
              (elim r as (λ _. Result × World) [
                | failed x ↦ (err (suc x), v)
                | done n ↦ (if n == header_size then ret 0 else err 5, v)
              ]).0
              (err e)
          → ⊥
      by_write (failed x) v q = ground (arith, q, z)
      by_write (done n) v q = full (n == header_size) q

      by_fd :
          (f : MfdFd Fd)
          → ◌≡◌ {A = Result}
              (elim f as (λ _. Result × World) [
                | open_fd fd ↦
                    (let (r, v) = files.pwrite_header fd m.mapheader w in
                      elim r [
                        | failed x ↦ (err (suc x), v)
                        | done n ↦ (if n == header_size then ret 0 else err 5, v)
                      ])
                | _ ↦ (ret 0, w)
              ]).0
              (err e)
          → ⊥
      by_fd (open_fd fd) q =
          by_write (files.pwrite_header fd m.mapheader w).0 (files.pwrite_header fd m.mapheader w).1
            q
      by_fd nosn q = cc
      by_fd rdonly q = cc
      by_fd enoent q = cc
      by_fd zlen q = cc
