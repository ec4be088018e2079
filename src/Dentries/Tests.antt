-- ===== src/Dentries/Tests.antt =====
-- Requests below /snapshots, where one or two snapshots are recorded.
use esfs.Base.{ℕ, ◌≡◌, refl, false, some, none, List, [], ◌∷◌, arith, Option, sub64}
use esfs.Types.{Result, ret}
use esfs.Machine.Sample.{header}
use esfs.Machine.Shelf.{
  shelf, shelf_locks, shelf_files, shelf_pointers, shelf_trees, shelf_calls, shelf_dirs, set_text,
}
use esfs.Paths.Build.{codes, sn_dir_name, map_path, get_hid_path, get_dir_hid_path}
use esfs.Paths.Snpath.{Snpath, snpath_root, strchr, is_path_in_sn, decompose_sn_path}
use esfs.Block.State.{Env}
use esfs.Handle.Open.{Fsdata}
use esfs.Snapshots.Pointers.{Texts, c_string, sn_set_latest}
use esfs.Snapshots.Manage.{
  sn_create, set_latest, link_new, write_pointer_file, unlink_failed, created,
}
use esfs.Snapshots.Tests.{
  path_a, path_b, files_a, fsdata_a, files_b, fsdata_b, one-Recorded, two-Recorded, b_differs,
}
use esfs.Steps.Tests.{files, junk}
use esfs.Dentries.Modify.{mkdir, rmdir, make_snapshot}
use esfs.Dentries.Run.{do_create, run}
use esfs.Dentries.Spaces.{path_sn}
use esfs.Dentries.Denied.{Refused, run-Refused}
use esfs.Dentries.Opening.{open_file}
use esfs.Dentries.Given.{ReadsSnapshot, open_file-ReadsSnapshot}
use esfs.Dentries.Snapshotting.{Mounted, Made, mkdir-Made, Unmade, rmdir-Unmade}

abbrev env : Texts → Env Texts
env w = record { world = w; block_buffer = λ i. 0; shared_freed = false; live = 0 }

abbrev no_snpath : Snpath
no_snpath = record { is_there = snpath_root; id = []; inpath = [] }

fsdata_a-Mounted : Mounted fsdata_a
fsdata_a-Mounted = record { rootdir_len = refl; sn_dir = refl; short = omega arith }

-- What the request for the snapshot returns, with the list after it.
abbrev answer : Option (Result × Fsdata × Env Texts) → Option (Result × List ℕ)
answer (some (r, fs, e)) = some (r, fs.sn_lat_dir)
answer none = none

succeeds :
    answer (
      mkdir shelf shelf_locks shelf_files shelf_pointers shelf_trees shelf_calls fsdata_a junk
        no_snpath
        (codes "/snapshots/b")
        493
        (env files_a))
    ≡ some (ret 0, path_b)
unfolding mkdir path_sn make_snapshot sn_create link_new write_pointer_file unlink_failed set_latest
    sn_set_latest created get_dir_hid_path get_hid_path set_text map_path is_path_in_sn
    decompose_sn_path strchr sub64
succeeds = refl

run-Refused_example :
    Refused shelf shelf_locks shelf_files shelf_pointers shelf_trees shelf_dirs shelf_calls fsdata_a
      (env files_a)
      (run shelf shelf_locks shelf_files shelf_pointers shelf_trees shelf_dirs shelf_calls fsdata_a
        junk no_snpath
        (do_create (codes "/snapshots/a/f") 420 65)
        (env files_a))
unfolding is_path_in_sn
run-Refused_example =
    run-Refused shelf shelf_locks shelf_files shelf_pointers shelf_trees shelf_dirs shelf_calls
      fsdata_a junk no_snpath (do_create (codes "/snapshots/a/f") 420 65) (env files_a) refl refl

mkdir-Made_example :
    Made shelf shelf_locks shelf_files shelf_pointers shelf_trees shelf_calls fsdata_a path_b
      (path_a ∷ [])
      (mkdir shelf shelf_locks shelf_files shelf_pointers shelf_trees shelf_calls fsdata_a junk
        no_snpath
        (codes "/snapshots/b")
        493
        (env files_a))
unfolding strchr c_string
mkdir-Made_example =
    mkdir-Made shelf shelf_locks shelf_files shelf_pointers shelf_trees shelf_calls fsdata_a junk
      no_snpath (codes "b") 493 (path_a ∷ []) (env files_a) fsdata_a-Mounted refl (omega arith) refl
      (b_differs, tt) one-Recorded

rmdir-Unmade_example :
    Unmade shelf shelf_locks shelf_files shelf_pointers shelf_trees shelf_calls fsdata_b
      (path_b ∷ path_a ∷ [])
      (rmdir shelf shelf_locks shelf_files shelf_pointers shelf_trees shelf_calls fsdata_b no_snpath
        sn_dir_name
        (env files_b))
rmdir-Unmade_example =
    rmdir-Unmade shelf shelf_locks shelf_files shelf_pointers shelf_trees shelf_calls fsdata_b
      no_snpath (path_b ∷ path_a ∷ []) (env files_b) two-Recorded

open_file-ReadsSnapshot_example :
    ReadsSnapshot shelf shelf_locks shelf_files shelf_pointers shelf_dirs shelf_calls 0 (
      open_file shelf shelf_locks shelf_files shelf_pointers shelf_dirs shelf_calls fsdata_b junk
        header no_snpath
        (codes "/snapshots/a/f")
        0
        files)
unfolding is_path_in_sn
open_file-ReadsSnapshot_example =
    open_file-ReadsSnapshot shelf shelf_locks shelf_files shelf_pointers shelf_dirs shelf_calls
      fsdata_b junk header no_snpath (codes "/snapshots/a/f") 0 files refl
