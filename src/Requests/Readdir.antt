-- ===== src/Requests/Readdir.antt =====
-- $_sn_readdir and $readdir of fuse_fd_read.c.
use esfs.Base.{
  ℕ, zero, suc, ◌+◌, Bool, true, false, ◌||◌, Option, none, some, List, [], ◌∷◌, ◌++◌, length, drop,
  str_eq, ltb, ◌==◌, if◌then◌else◌,
}
use esfs.Os.{Os, Locks, Ret, done, failed, Stat, MapHeader}
use esfs.Files.{Files, fd_opened, open_failed, stated, lstat_failed}
use esfs.Types.{
  Result, ret, err, minus, unused, StepFd, SnStep, Mfd, mfd_main, mfd_sn_root, mfd_sn_id,
  mfd_sn_full,
}
use esfs.Types.Errno.{enomem, enametoolong}
use esfs.Paths.Build.{path_max, sn_dir_name, dirsep_ch}
use esfs.Paths.Names.{mfd_filter_name, sn_filter_name, strip_ext}
use esfs.Handle.Open.{mfd_load_mapheader}
use esfs.Steps.Calls.{Turn, ended, again, stop}

-- What the requests on directories use: the names that the calls of readdir on a stream return, with
-- the errno at the end (`done` for the end of the directory), which do not depend on the calls made
-- in between; and the function of FUSE that takes a name, true where it returns something else than 0.
pub record Streams (os : Os) : Type 0 where
  pub names : os.Fd → os.World → List (List ℕ) × Ret
  pub filler : List ℕ → Option Stat → os.World → Bool × os.World

-- The variables of $_sn_readdir: `marks` are the paths of pathmark, the latest first; `given` are the
-- names that FUSE has taken.
pub record Listing (World : Type 0) : Type 0 where
  pub world : World
  pub marks : List (List ℕ)
  pub given : List (List ℕ)
  pub maphead : MapHeader
  pub waserror : ℕ

-- The search for a name in pathmark.
abbrev pub seen : List ℕ → List (List ℕ) → Bool
seen name [] = false
seen name (m ∷ ms) = str_eq name m || seen name ms

module _ (os : Os) (locks : Locks os) (files : Files os) (streams : Streams os) where
  open os use {World, Fd}

  abbrev pub fail : ℕ → Listing World → World → Turn (Listing World)
  fail e s w = stop (record s { world = w; waserror = e })

  -- The name is stored as seen. The memory for it is taken to be there.
  abbrev pub store : List ℕ → Listing World → Listing World
  store name s = record s { marks = name ∷ s.marks }

  unfoldable pub fill : List ℕ → Listing World → Turn (Listing World)
  fill name s =
      let (full, w) = streams.filler name (some s.maphead.fstat) s.world in
      if full
      then fail enomem s w
      else ended (store name (record s { world = w; given = name ∷ s.given }))

  -- A name that is not that of a map file.
  unfoldable pub fill_new : List ℕ → List ℕ → Listing World → Turn (Listing World)
  unfolding fill
  fill_new fpath name s =
      if seen name s.marks
      then again s
      else (let (r, w) = files.lstat fpath s.world in
          elim r [
            | lstat_failed e ↦ fail (suc e) s w
            | stated st ↦
                fill name (record s { world = w; maphead = record s.maphead { fstat = st } })
          ])

  -- The header of a map file was read; `name` is marked as seen where it did not exist.
  unfoldable pub with_header :
      Fd → List ℕ → Result × MapHeader × World → Listing World → Turn (Listing World)
  unfolding fill
  with_header fd name (err e, h, w) s = fail e (record s { maphead = h }) (files.close fd w).1
  with_header fd name (ret _, h, w) s =
      let (r, v) = files.close fd w in
      let t : Listing World = record s { world = v; maphead = h } in
      elim r [
        | failed e ↦ fail (suc e) t v
        | done _ ↦ if h.exists == 1 then fill name t else ended (store name t)
      ]

  unfoldable pub map_entry : List ℕ → List ℕ → Listing World → Turn (Listing World)
  unfolding with_header mfd_load_mapheader
  map_entry fpath name s =
      if seen name s.marks
      then again s
      else (let (r, w) = files.open_rdonly fpath s.world in
          elim r [
            | open_failed e ↦ fail (suc e) s w
            | fd_opened fd ↦
                with_header fd name (mfd_load_mapheader os locks files s.maphead fd w) s
          ])

  -- One round of while(1), at snapshot `sni`.
  unfoldable pub read_entry : ℕ → List ℕ → List ℕ → Listing World → Turn (Listing World)
  unfolding fill_new map_entry mfd_filter_name strip_ext
  read_entry sni path d_name s =
      let fpath = path ++ (dirsep_ch ∷ d_name) in
      if ltb path_max (length path + 1 + length d_name)
      then fail enametoolong s s.world
      else if sni == 0
      then fill_new fpath d_name s
      else (let j = mfd_filter_name d_name in
          if j == 0
          then again s
          else if j == 2
          then map_entry fpath (strip_ext d_name) s
          else fill_new fpath d_name s)

  -- while(1), over the names that are left, and the errno at the end. True stands for a break with
  -- an error.
  unfoldable pub read_names :
      ℕ → List ℕ → List (List ℕ) → Ret → Listing World → Bool × Listing World
  unfolding read_entry
  read_names sni path [] (done _) s = (false, s)
  read_names sni path [] (failed e) s = (true, record s { waserror = suc e })
  read_names sni path (d_name ∷ names) last s = elim (read_entry sni path d_name s) [
    | stop t ↦ (true, t)
    | again t ↦ read_names sni path names last t
    | ended t ↦ read_names sni path names last t
  ]

  unfoldable pub is_unused : StepFd Fd → Bool
  is_unused unused = true
  is_unused _ = false

  -- A step that is not unused has a stream.
  unfoldable pub read_step : ℕ → SnStep Fd → Listing World → Bool × Listing World
  unfolding read_names is_unused
  read_step sni step s = if is_unused step.mapfd then (false, s) else elim step.dirfd [
    | none ↦ (false, s)
    | some d ↦
        (let (names, last) = streams.names d s.world in read_names sni step.path names last s)
  ]

  -- for(sni = mfd->sn_current; sni >= 0; sni--)
  unfoldable pub read_steps : (ℕ → SnStep Fd) → ℕ → Listing World → Listing World
  unfolding read_step
  read_steps steps zero s = (read_step 0 (steps 0) s).1
  read_steps steps (suc n) s =
      let (broken, t) = read_step (suc n) (steps (suc n)) s in
      elim broken [ true ↦ t | false ↦ read_steps steps n t ]

  -- The names that are marked at the start: that of the directory of the snapshots, without its
  -- separator, for $$READDIR_F_SKIP_SNROOT.
  abbrev pub first_marks : Bool → List (List ℕ)
  first_marks true = drop 1 sn_dir_name ∷ []
  first_marks false = []

  -- $_sn_readdir. `head` are the bytes of `maphead` before.
  unfoldable pub sn_readdir : Mfd Fd → Bool → MapHeader → World → Listing World
  unfolding read_steps
  sn_readdir mfd skip_snroot head w = read_steps mfd.sn_steps mfd.sn_current (record {
    world = w;
    marks = first_marks skip_snroot;
    given = [];
    maphead = head;
    waserror = 0;
  })

  -- The loops of $readdir over one stream; `shown` tells the names that are not skipped.
  unfoldable pub read_all :
      (List ℕ → Bool) → List (List ℕ) → Ret → List (List ℕ) → World → Result × List (List ℕ) × World
  read_all shown [] (done _) given w = (ret 0, given, w)
  read_all shown [] (failed e) given w = (err (suc e), given, w)
  read_all shown (name ∷ names) last given w = elim (shown name) [
    | false ↦ read_all shown names last given w
    | true ↦
        (let (full, v) = streams.filler name none w in
          elim full [
            | true ↦ (err enomem, given, v)
            | false ↦ read_all shown names last (name ∷ given) v
          ])
  ]

  unfoldable pub read_maindir : (List ℕ → Bool) → Mfd Fd → World → Result × List (List ℕ) × World
  unfolding read_all
  read_maindir shown mfd w = elim mfd.maindir [
    | none ↦ (ret 0, [], w)
    | some d ↦ (let (names, last) = streams.names d w in read_all shown names last [] w)
  ]

  abbrev pub listed : Listing World → Result × List (List ℕ) × World
  listed s = (minus s.waserror, s.given, s.world)

  -- $readdir: the value returned and the names given to FUSE, the last one first.
  unfoldable pub readdir : Mfd Fd → MapHeader → World → Result × List (List ℕ) × World
  unfolding read_maindir sn_readdir sn_filter_name
  readdir mfd head w = elim mfd.is_main [
    | mfd_main ↦ read_maindir (λ name. true) mfd w
    | mfd_sn_root ↦ read_maindir (λ name. if sn_filter_name name == 0 then false else true) mfd w
    | mfd_sn_id ↦ listed (sn_readdir mfd true head w)
    | mfd_sn_full ↦ listed (sn_readdir mfd false head w)
  ]
