-- ===== src/Snapshots/Walk.antt =====
-- Following the pointer files: $sn_get_earliest and $sn_get_paths_to of snapshot.c.
use esfs.Base.{
  ℕ, zero, suc, ◌+◌, ◌-◌, ◌*◌, Option, none, some, List, [], ◌∷◌, ◌++◌, length, leb, ◌==◌, str_eq,
  if◌then◌else◌,
}
use esfs.Os.{Os}
use esfs.Files.{Files}
use esfs.Types.Errno.{eio, efault, enametoolong}
use esfs.Paths.Build.{path_max, get_hid_path}
use esfs.Paths.Snpath.{Snpath, snpath_root}
use esfs.Handle.Open.{Fsdata}
use esfs.Snapshots.Pointers.{
  PointerFiles, sndir_found, sndir_absent, sndir_empty, sndir_error, read_sndir_from_file,
}

-- $$MAX_SNAPSHOTS.
abbrev pub max_snapshots : ℕ
max_snapshots = 1024 * 1024

-- The ends of $sn_get_earliest: the earliest snapshot with the pointer file to it, if it is not the
-- only one.
pub data Earliest : Type 0 where
  no_snapshots : Earliest
  earliest : List ℕ → Option (List ℕ) → Earliest
  earliest_error : ℕ → Earliest

module _ (os : Os) (files : Files os) (pointers : PointerFiles os files) where
  open os use {World}

  -- while(p < $$MAX_SNAPSHOTS), with `n` rounds left; `prev` is the pointer file read last.
  unfoldable pub earliest_from : ℕ → List ℕ → Option (List ℕ) → World → Earliest × World
  unfolding read_sndir_from_file
  earliest_from zero snpath prev w = (earliest_error eio, w)
  earliest_from (suc n) snpath prev w = elim (get_hid_path snpath) [
    | none ↦ (earliest_error enametoolong, w)
    | some pointerpath ↦
        (let (r, v) = read_sndir_from_file os files pointers pointerpath w in
          elim r [
            | sndir_absent ↦ (earliest snpath prev, v)
            | sndir_empty ↦ (earliest [] prev, v)
            | sndir_error e _ ↦ (earliest_error e, v)
            | sndir_found path len ↦ earliest_from n path (some pointerpath) v
          ])
  ]

  unfoldable pub sn_get_earliest : Fsdata → World → Earliest × World
  unfolding earliest_from
  sn_get_earliest fs w =
      if fs.sn_is_any == 0
      then (no_snapshots, w)
      else earliest_from max_snapshots fs.sn_lat_dir none w

  -- The loop of $sn_get_paths_to: the paths from the latest snapshot to the one asked for, with `n`
  -- steps allowed before $$MAX_SNAPSHOTS. The memory for them is taken to be there.
  unfoldable pub paths_from : ℕ → List ℕ → List ℕ → World → Option (List (List ℕ)) × ℕ × World
  unfolding read_sndir_from_file
  paths_from zero mysnroot path w =
      if str_eq mysnroot path
      then (some (path ∷ []), 0, w)
      else elim (get_hid_path path) [ none ↦ (none, enametoolong, w) | some _ ↦ (none, eio, w) ]
  paths_from (suc n) mysnroot path w =
      if str_eq mysnroot path then (some (path ∷ []), 0, w) else elim (get_hid_path path) [
        | none ↦ (none, enametoolong, w)
        | some pointerpath ↦
            (let (r, v) = read_sndir_from_file os files pointers pointerpath w in
              elim r [
                | sndir_absent ↦ (none, efault, v)
                | sndir_empty ↦ (none, efault, v)
                | sndir_error e _ ↦ (none, e, v)
                | sndir_found next len ↦
                    (let (rest, e, u) = paths_from n mysnroot next v in
                      (elim rest [ none ↦ none | some ps ↦ some (path ∷ ps) ], e, u))
              ])
      ]

  -- $sn_get_paths_to: the paths of the steps from 0 on, or the errno.
  unfoldable pub sn_get_paths_to : Fsdata → Snpath → World → Option (List (List ℕ)) × ℕ × World
  unfolding paths_from
  sn_get_paths_to fs snpath w = elim snpath.is_there [
    | snpath_root ↦ (none, efault, w)
    | _ ↦
        if leb path_max (length snpath.id + length fs.sn_dir)
        then (none, enametoolong, w)
        else (let (ps, e, v) =
              paths_from (max_snapshots - 2) (fs.sn_dir ++ snpath.id) fs.sn_lat_dir w in
            (elim ps [ none ↦ none | some qs ↦ some (fs.rootdir ∷ qs) ], e, v))
  ]
