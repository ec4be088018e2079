-- ===== src/Requests/Listed.antt =====
-- The names that $_sn_readdir gives to FUSE for a directory in a snapshot.
use esfs.Base.{
  ℕ, zero, suc, ◌+◌, refl, Bool, true, false, Option, none, some, List, [], ◌∷◌, ◌++◌, length, ltb,
  ◌==◌, if◌then◌else◌,
}
use esfs.Os.{Os, Locks, Ret, done, failed, MapHeader}
use esfs.Files.{Files}
use esfs.Types.{SnStep, Mfd}
use esfs.Types.Errno.{enametoolong}
use esfs.Paths.Build.{path_max, dirsep_ch}
use esfs.Paths.Names.{mfd_filter_name, strip_ext}
use esfs.Snapshots.Spec.{Distinct}
use esfs.Steps.Calls.{Turn, ended, again, stop}
use esfs.Requests.Readdir.{
  Streams, Listing, fill_new, map_entry, read_entry, read_names, is_unused, read_step, read_steps,
  first_marks, sn_readdir,
}
use esfs.Requests.Fresh.{Fresh, Turned, fill_new-Fresh, map_entry-Fresh}

module _ (os : Os) (locks : Locks os) (files : Files os) (streams : Streams os)
    (hidden : List (List ℕ)) where
  open os use {World, Fd}

  read_entry-Fresh :
      (sni : ℕ) (path d_name : List ℕ) (s : Listing World)
      → Fresh hidden s
      → Turned hidden (read_entry os locks files streams sni path d_name s)
  unfolding read_entry
  read_entry-Fresh sni path d_name s f = by_room (ltb path_max (length path + 1 + length d_name))
    where
      fpath : List ℕ
      fpath = path ++ (dirsep_ch ∷ d_name)

      by_map :
          (b : Bool)
          → Turned hidden (
              if b
              then map_entry os locks files streams fpath (strip_ext d_name) s
              else fill_new os locks files streams fpath d_name s)
      by_map true = map_entry-Fresh os locks files streams hidden fpath (strip_ext d_name) s f
      by_map false = fill_new-Fresh os locks files streams hidden fpath d_name s f

      by_dat :
          (b : Bool)
          → Turned hidden (
              if b
              then again s
              else if mfd_filter_name d_name == 2
              then map_entry os locks files streams fpath (strip_ext d_name) s
              else fill_new os locks files streams fpath d_name s)
      by_dat true = f
      by_dat false = by_map (mfd_filter_name d_name == 2)

      by_main :
          (b : Bool)
          → Turned hidden (
              if b
              then fill_new os locks files streams fpath d_name s
              else if mfd_filter_name d_name == 0
              then again s
              else if mfd_filter_name d_name == 2
              then map_entry os locks files streams fpath (strip_ext d_name) s
              else fill_new os locks files streams fpath d_name s)
      by_main true = fill_new-Fresh os locks files streams hidden fpath d_name s f
      by_main false = by_dat (mfd_filter_name d_name == 0)

      by_room :
          (b : Bool)
          → Turned hidden (
              if b
              then stop (record s { waserror = enametoolong })
              else if sni == 0
              then fill_new os locks files streams fpath d_name s
              else if mfd_filter_name d_name == 0
              then again s
              else if mfd_filter_name d_name == 2
              then map_entry os locks files streams fpath (strip_ext d_name) s
              else fill_new os locks files streams fpath d_name s)
      by_room true = record { distinct = f.distinct; marked = f.marked }
      by_room false = by_main (sni == 0)

  read_names-Fresh :
      (sni : ℕ) (path : List ℕ) (names : List (List ℕ)) (last : Ret) (s : Listing World)
      → Fresh hidden s
      → Fresh hidden (read_names os locks files streams sni path names last s).1
  unfolding read_names
  read_names-Fresh sni path [] (done n) s f = f
  read_names-Fresh sni path [] (failed e) s f = record { distinct = f.distinct; marked = f.marked }
  read_names-Fresh sni path (d_name ∷ names) last s f =
      by_turn (read_names-Fresh sni path names last)
        (read_entry os locks files streams sni path d_name s) (read_entry-Fresh sni path d_name s f)
    where
      by_turn :
          ((t : Listing World)
            → Fresh hidden t
            → Fresh hidden (read_names os locks files streams sni path names last t).1)
          → (r : Turn (Listing World)) → Turned hidden r
          → Fresh hidden (
              let out : Bool × Listing World = elim r [
                | stop t ↦ (true, t)
                | again t ↦ read_names os locks files streams sni path names last t
                | ended t ↦ read_names os locks files streams sni path names last t
              ] in
              out.1)
      by_turn ih (stop t) g = g
      by_turn ih (again t) g = ih t g
      by_turn ih (ended t) g = ih t g

  read_step-Fresh :
      (sni : ℕ) (step : SnStep Fd) (s : Listing World)
      → Fresh hidden s
      → Fresh hidden (read_step os locks files streams sni step s).1
  unfolding read_step
  read_step-Fresh sni step s f = by_unused (is_unused os locks files streams step.mapfd)
    where
      by_dir :
          (d : Option Fd)
          → Fresh hidden (
              let out : Bool × Listing World = elim d [
                | none ↦ (false, s)
                | some d ↦
                    (let (names, last) = streams.names d s.world in
                      read_names os locks files streams sni step.path names last s)
              ] in
              out.1)
      by_dir none = f
      by_dir (some d) =
          read_names-Fresh sni step.path (streams.names d s.world).0 (streams.names d s.world).1 s f

      by_unused :
          (b : Bool)
          → Fresh hidden (
              let out : Bool × Listing World = if b then (false, s) else elim step.dirfd [
                | none ↦ (false, s)
                | some d ↦
                    (let (names, last) = streams.names d s.world in
                      read_names os locks files streams sni step.path names last s)
              ] in
              out.1)
      by_unused true = f
      by_unused false = by_dir step.dirfd

  read_steps-Fresh :
      (steps : ℕ → SnStep Fd) (n : ℕ) (s : Listing World)
      → Fresh hidden s
      → Fresh hidden (read_steps os locks files streams steps n s)
  unfolding read_steps
  read_steps-Fresh steps zero s f = read_step-Fresh 0 (steps 0) s f
  read_steps-Fresh steps (suc n) s f =
      by_broken (read_steps-Fresh steps n)
        (read_step os locks files streams (suc n) (steps (suc n)) s)
        (read_step-Fresh (suc n) (steps (suc n)) s f)
    where
      by_broken :
          ((t : Listing World)
            → Fresh hidden t
            → Fresh hidden (read_steps os locks files streams steps n t))
          → (out : Bool × Listing World) → Fresh hidden out.1
          → Fresh hidden (elim out.0 [
            | true ↦ out.1
            | false ↦ read_steps os locks files streams steps n out.1
          ])
      by_broken ih (true, t) g = g
      by_broken ih (false, t) g = ih t g

module _ (os : Os) (locks : Locks os) (files : Files os) (streams : Streams os) where
  open os use {World, Fd}

  first-Fresh :
      (b : Bool) (head : MapHeader) (w : World)
      → Fresh (first_marks os locks files streams b) (record {
        world = w;
        marks = first_marks os locks files streams b;
        given = [];
        maphead = head;
        waserror = 0;
      })
  first-Fresh true head w = record { distinct = (tt, tt); marked = (refl, tt) }
  first-Fresh false head w = record { distinct = tt; marked = tt }

  -- The names that $_sn_readdir gives to FUSE are all different, and with $$READDIR_F_SKIP_SNROOT
  -- none is that of the directory of the snapshots, whatever the directories of the steps hold and
  -- whether or not an error ends it.
  pub sn_readdir-Distinct :
      (mfd : Mfd Fd) (skip : Bool) (head : MapHeader) (w : World)
      → Distinct (
          (sn_readdir os locks files streams mfd skip head w).given
          ++ first_marks os locks files streams skip)
  unfolding sn_readdir
  sn_readdir-Distinct mfd skip head w =
      (read_steps-Fresh os locks files streams (first_marks os locks files streams skip)
        mfd.sn_steps mfd.sn_current _ (first-Fresh skip head w)).distinct
