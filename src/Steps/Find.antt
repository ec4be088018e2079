-- ===== src/Steps/Find.antt =====
-- $mfd_get_sn_steps of mfd.c.
use esfs.Base.{
  ℕ, zero, suc, ◌+◌, ◌-◌, true, false, ◌||◌, none, some, List, [], ◌∷◌, ◌++◌, length, leb, ◌==◌,
  if◌then◌else◌,
}
use esfs.Os.{Os, Locks, Stat, MapHeader}
use esfs.Files.{Files, fd_opened, open_failed, stated, lstat_failed}
use esfs.Types.{Result, ret, err, opened, unused, notopen, main_space, Mfd}
use esfs.Types.Errno.{enoent, ebade, enametoolong}
use esfs.Paths.Build.{path_max, get_map_path, get_dat_path}
use esfs.Paths.Snpath.{Snpath, snpath_full}
use esfs.Paths.Label.{string2locklabel}
use esfs.Handle.Mkpath.{is_dir}
use esfs.Handle.Open.{Fsdata, mfd_load_mapheader}
use esfs.Snapshots.Pointers.{PointerFiles}
use esfs.Snapshots.Walk.{sn_get_paths_to}
use esfs.Steps.Calls.{
  Dirs, Flags, KnownType, unknown, known_dir, known_file, Getting, Turn, ended, again, stop,
  set_step, set_mapfd, set_datfd, mfd_destroy_sn_steps,
}

abbrev pub path_at : List (List ℕ) → ℕ → List ℕ
path_at [] n = []
path_at (p ∷ ps) zero = p
path_at (p ∷ ps) (suc n) = path_at ps n

module _ (os : Os) (locks : Locks os) (files : Files os) (pointers : PointerFiles os files)
    (dirs : Dirs os) where
  open os use {World, Fd}

  abbrev pub State : Type 0
  State = Getting World Fd

  abbrev pub fail : ℕ → State → Turn State
  fail e s = stop (record s { waserror = e })

  abbrev pub path_of_step : ℕ → State → List ℕ
  path_of_step i s = (s.mfd.sn_steps i).path

  abbrev pub set_fstat : Mfd Fd → Stat → Mfd Fd
  set_fstat mfd st = record mfd { mapheader = record mfd.mapheader { fstat = st } }

  abbrev pub both_unused : Mfd Fd → ℕ → Mfd Fd
  both_unused mfd i = set_datfd (set_mapfd mfd i unused) i unused

  -- if(flags & $$SN_STEPS_F_FIRSTONLY) { break; }
  abbrev pub after_first : Flags → State → Turn State
  after_first flags s = if flags.f_firstonly then stop s else ended s

  -- The attributes of the first directory found.
  unfoldable pub stat_dir : Flags → ℕ → KnownType → State → Turn State
  stat_dir flags i (known_dir st) s = after_first flags (record s { mfd = set_fstat s.mfd st })
  stat_dir flags i _ s =
      let (r, v) = files.lstat (path_of_step i s) s.world in
      elim r [
        | stated st ↦ after_first flags (record s { world = v; mfd = set_fstat s.mfd st })
        | lstat_failed e ↦
            if suc e == enoent
            then after_first flags (record s { world = v; mfd = both_unused s.mfd i })
            else fail (suc e) (record s { world = v })
      ]

  unfoldable pub first_dir : Flags → ℕ → KnownType → State → Turn State
  unfolding stat_dir
  first_dir flags i known s = elim s.mfd.sn_first_file [
    | some _ ↦ ended s
    | none ↦
        (let t : State = record s { mfd = record s.mfd { sn_first_file = some i } } in
          if flags.f_statdir || flags.f_skipopendir
          then stat_dir flags i known t
          else after_first flags t)
  ]

  unfoldable pub directory : Flags → ℕ → KnownType → State → Turn State
  unfolding first_dir
  directory flags i known s =
      if flags.f_skipopendir
      then first_dir flags i known s
      else (let (r, v) = dirs.opendir (path_of_step i s) s.world in
          elim r [
            | open_failed e ↦
                if suc e == enoent
                then again (record s { world = v; mfd = both_unused s.mfd i })
                else fail (suc e) (record s { world = v })
            | fd_opened d ↦
                first_dir flags i known (record s {
                  world = v;
                  mfd = set_step s.mfd i (λ x. record x { dirfd = some d });
                })
          ])

  -- The first existing file found.
  unfoldable pub first_file : Flags → ℕ → State → Turn State
  first_file flags i s = elim s.mfd.sn_first_file [
    | some _ ↦ ended s
    | none ↦
        (let t : State = record s { mfd = record s.mfd { sn_first_file = some i } } in
          if i == 0
          then (let (r, v) = files.lstat (path_of_step i s) s.world in
              elim r [
                | lstat_failed e ↦ fail (suc e) (record t { world = v })
                | stated st ↦ after_first flags (record t { world = v; mfd = set_fstat t.mfd st })
              ])
          else after_first flags (record t { mfd = record t.mfd { mapheader = s.maphead } }))
  ]

  -- A dat file or the main file, at a path.
  unfoldable pub open_data : Flags → ℕ → List ℕ → State → Turn State
  unfolding first_file
  open_data flags i path s =
      let (r, v) = files.open_rdonly path s.world in
      elim r [
        | open_failed e ↦
            if suc e == enoent
            then again (record s { world = v; mfd = set_datfd s.mfd i unused })
            else fail (suc e) (record s { world = v })
        | fd_opened fd ↦
            first_file flags i (record s { world = v; mfd = set_datfd s.mfd i (opened fd) })
      ]

  -- After the map file: an error of its header is kept, and the loop goes on to the dat file.
  unfoldable pub open_dat : Flags → ℕ → State → Turn State
  unfolding open_data
  open_dat flags i s =
      if flags.f_skipopendat then first_file flags i s else elim (get_dat_path (path_of_step i s)) [
        | none ↦ fail enametoolong s
        | some fdat ↦ open_data flags i fdat s
      ]

  unfoldable pub load_header : os.Fd → State → State
  unfolding mfd_load_mapheader
  load_header fd s =
      let (r, h, v) = mfd_load_mapheader os locks files s.maphead fd s.world in
      let t : State = record s { world = v; maphead = h } in
      elim r [ err e ↦ record t { waserror = e } | ret _ ↦ t ]

  unfoldable pub snapshot_file : Flags → ℕ → State → Turn State
  unfolding open_dat load_header
  snapshot_file flags i s = elim (get_map_path (path_of_step i s)) [
    | none ↦ fail enametoolong s
    | some fmap ↦
        (let (r, v) = files.open_rdonly fmap s.world in
          elim r [
            | open_failed e ↦
                if suc e == enoent
                then again (record s { world = v; mfd = both_unused s.mfd i })
                else fail (suc e) (record s { world = v })
            | fd_opened fd ↦
                open_dat flags i
                  (load_header fd (record s { world = v; mfd = set_mapfd s.mfd i (opened fd) }))
          ])
  ]

  unfoldable pub main_file : Flags → ℕ → State → Turn State
  unfolding open_data
  main_file flags i s =
      let m : Mfd Fd = record (set_mapfd s.mfd i main_space) {
        locklabel = string2locklabel (path_of_step i s);
      } in
      if flags.f_skipopendat
      then first_file flags i (record s { mfd = set_datfd m i notopen })
      else open_data flags i (path_of_step i s) (record s { mfd = m })

  unfoldable pub of_type : Flags → ℕ → KnownType → State → Turn State
  unfolding directory snapshot_file main_file
  of_type flags i (known_dir st) s = directory flags i (known_dir st) s
  of_type flags i known s =
      if flags.f_dir
      then directory flags i known s
      else if elim known [ known_file ↦ true | _ ↦ false ] || flags.f_file
      then (if i == 0 then main_file flags i s else snapshot_file flags i s)
      else ended (record s { waserror = ebade })

  unfoldable pub find_type : Flags → ℕ → State → Turn State
  unfolding of_type is_dir
  find_type flags i s =
      if flags.f_type_unknown
      then (let (r, v) = files.lstat (path_of_step i s) s.world in
          elim r [
            | stated st ↦
                of_type flags i (if is_dir st then known_dir st else known_file)
                  (record s { world = v })
            | lstat_failed e ↦
                if suc e == enoent
                then of_type flags i known_file (record s { world = v })
                else fail (suc e) (record s { world = v })
          ])
      else of_type flags i unknown s

  -- One round, at step `i`.
  unfoldable pub visit : Flags → List ℕ → ℕ → State → Turn State
  unfolding find_type
  visit flags mypath i s =
      if leb path_max (length mypath + length (path_of_step i s))
      then fail enametoolong s
      else find_type flags i
          (record s { mfd = set_step s.mfd i (λ x. record x { path = x.path ++ mypath }) })

  -- The end of a round.
  unfoldable pub next_round : (State → State) → Turn State → State
  next_round go (stop s) = s
  next_round go (again s) = go s
  next_round go (ended s) = elim s.waserror [ zero ↦ go s | suc _ ↦ s ]

  -- for(sni = mfd->sn_current; sni >= 0; sni--)
  unfoldable pub get_steps : Flags → List ℕ → ℕ → State → State
  unfolding visit next_round
  get_steps flags mypath zero s = next_round (λ t. t) (visit flags mypath 0 s)
  get_steps flags mypath (suc i) s =
      next_round (get_steps flags mypath i) (visit flags mypath (suc i) s)

  -- The handle before the loop.
  unfoldable pub with_paths : Mfd Fd → List (List ℕ) → Mfd Fd
  with_paths mfd paths = record mfd {
    sn_current = length paths - 1;
    sn_first_file = none;
    sn_steps =
        λ j. record { path = path_at paths j; mapfd = notopen; datfd = notopen; dirfd = none };
  }

  unfoldable pub finish : State → Result × Mfd Fd × World
  unfolding mfd_destroy_sn_steps
  finish s = elim s.waserror [
    | zero ↦ (ret 0, s.mfd, s.world)
    | suc e ↦ (err (suc e), s.mfd, (mfd_destroy_sn_steps os files dirs s.mfd s.world).1)
  ]

  -- `junk` are the bytes of the local `maphead` before.
  unfoldable pub mfd_get_sn_steps :
      Fsdata → Mfd Fd → Snpath → Flags → MapHeader → World → Result × Mfd Fd × World
  unfolding sn_get_paths_to get_steps with_paths finish
  mfd_get_sn_steps fs mfd snpath flags junk w =
      let (ps, e, v) = sn_get_paths_to os files pointers fs snpath w in
      let m : Mfd Fd = record mfd { sn_number = fs.sn_number } in
      elim ps [
        | none ↦ (err e, m, v)
        | some paths ↦ finish (
            get_steps flags (elim snpath.is_there [ snpath_full ↦ snpath.inpath | _ ↦ [] ])
              (length paths - 1)
              (record { world = v; mfd = with_paths m paths; maphead = junk; waserror = 0 }))
      ]
