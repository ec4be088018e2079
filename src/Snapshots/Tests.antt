-- ===== src/Snapshots/Tests.antt =====
-- Two snapshots made and the first one of them destroyed.
use esfs.Base.{ℕ, ◌≡◌, ◌≢◌, refl, ap, true, false, str_eq, none, some, List, [], ◌∷◌, arith}
use esfs.Types.{Result, ret}
use esfs.Paths.Build.{codes, get_hid_path, get_dir_hid_path}
use esfs.Paths.Snpath.{Snpath, snpath_id, strchr}
use esfs.Handle.Open.{Fsdata}
use esfs.Machine.Shelf.{shelf, shelf_locks, shelf_files, shelf_pointers, shelf_trees, set_text}
use esfs.Snapshots.Pointers.{Texts, sn_set_latest, sn_get_latest, c_string}
use esfs.Snapshots.Manage.{
  sn_create, sn_destroy, set_latest, link_new, write_pointer_file, unlink_failed, created,
}
use esfs.Snapshots.Listing.{Steps, sn_get_paths_to-Steps}
use esfs.Snapshots.Walk.{sn_get_paths_to}
use esfs.Snapshots.Spec.{EntryOf, Recorded}
use esfs.Snapshots.Stored.{IsPath}
use esfs.Snapshots.Latest.{GetsLatest, sn_get_latest-sn_set_latest, with_latest}
use esfs.Snapshots.Create.{Creates, sn_create-Creates}
use esfs.Snapshots.Destroy.{Destroys, sn_destroy-Destroys}

abbrev pub fsdata : Fsdata
fsdata = record {
  rootdir = codes "/d";
  rootdir_len = 2;
  sn_dir = codes "/d/snapshots";
  sn_number = 0;
  sn_lat_dir = [];
  sn_lat_dir_len = 0;
  sn_is_any = 0;
}

abbrev pub path_a : List ℕ
path_a = codes "/d/snapshots/a"

abbrev pub path_b : List ℕ
path_b = codes "/d/snapshots/b"

abbrev pub no_files : Texts
no_files q = none

path_a-EntryOf : EntryOf fsdata.sn_dir path_a
unfolding strchr
path_a-EntryOf = record { id = codes "a"; joined = refl; one_name = refl; some_name = omega arith }

path_b-EntryOf : EntryOf fsdata.sn_dir path_b
unfolding strchr
path_b-EntryOf = record { id = codes "b"; joined = refl; one_name = refl; some_name = omega arith }

path_a-IsPath : IsPath path_a
unfolding c_string
path_a-IsPath = record { nul_free = refl; room = omega arith }

path_b-IsPath : IsPath path_b
unfolding c_string
path_b-IsPath = record { nul_free = refl; room = omega arith }

none-Recorded : Recorded fsdata no_files []
none-Recorded = record {
  entries = tt;
  distinct = tt;
  linked = tt;
  latest = (refl, refl);
  free = λ q e d. refl;
}

abbrev pub make : Fsdata → List ℕ → Texts → Result × Fsdata × Texts
make fs path w = sn_create shelf shelf_locks shelf_files shelf_pointers shelf_trees fs path w

abbrev pub files_a : Texts
files_a = (make fsdata path_a no_files).2

abbrev pub fsdata_a : Fsdata
fsdata_a = with_latest fsdata path_a

pub one-Recorded : Recorded fsdata_a files_a (path_a ∷ [])
unfolding sn_create set_latest sn_set_latest created get_dir_hid_path
one-Recorded =
    (sn_create-Creates shelf shelf_locks shelf_files shelf_pointers shelf_trees fsdata path_a []
      no_files path_a-EntryOf path_a-IsPath tt none-Recorded).2

pub b_differs : path_b ≢ path_a
b_differs h = apart (ap (str_eq path_b) h)
  where
    apart : true ≡ false → ⊥
    apart e = cc

sn_create-Creates_example :
    Creates shelf shelf_locks shelf_files shelf_pointers shelf_trees fsdata_a path_b
      (path_a ∷ [])
      (make fsdata_a path_b files_a)
sn_create-Creates_example =
    sn_create-Creates shelf shelf_locks shelf_files shelf_pointers shelf_trees fsdata_a path_b
      (path_a ∷ []) files_a path_b-EntryOf path_b-IsPath (b_differs, tt) one-Recorded

abbrev pub files_b : Texts
files_b = (make fsdata_a path_b files_a).2

abbrev pub fsdata_b : Fsdata
fsdata_b = with_latest fsdata_a path_b

succeeds : (make fsdata_a path_b files_a).0 ≡ ret 0
unfolding sn_create link_new write_pointer_file unlink_failed set_latest sn_set_latest created
    get_dir_hid_path get_hid_path set_text
succeeds = refl

pub two-Recorded : Recorded fsdata_b files_b (path_b ∷ path_a ∷ [])
unfolding sn_create link_new write_pointer_file unlink_failed set_latest sn_set_latest created
    get_dir_hid_path get_hid_path set_text
two-Recorded =
    (sn_create-Creates shelf shelf_locks shelf_files shelf_pointers shelf_trees fsdata_a path_b
      (path_a ∷ []) files_a path_b-EntryOf path_b-IsPath (b_differs, tt) one-Recorded).2

sn_destroy-Destroys_example :
    Destroys shelf shelf_locks shelf_files shelf_pointers shelf_trees fsdata_b files_b
      (path_b ∷ path_a ∷ [])
      (sn_destroy shelf shelf_locks shelf_files shelf_pointers shelf_trees fsdata_b files_b)
sn_destroy-Destroys_example =
    sn_destroy-Destroys shelf shelf_locks shelf_files shelf_pointers shelf_trees fsdata_b
      (path_b ∷ path_a ∷ []) files_b two-Recorded

abbrev asked : Snpath
asked = record { is_there = snpath_id; id = codes "/a"; inpath = [] }

sn_get_paths_to-Steps_example :
    Steps shelf shelf_files shelf_pointers files_b fsdata_b path_a
      (path_b ∷ path_a ∷ [])
      (sn_get_paths_to shelf shelf_files shelf_pointers fsdata_b asked files_b)
sn_get_paths_to-Steps_example =
    sn_get_paths_to-Steps shelf shelf_files shelf_pointers fsdata_b asked path_b (path_a ∷ [])
      files_b refl two-Recorded.linked

sn_get_latest-sn_set_latest_example :
    GetsLatest shelf shelf_files shelf_pointers fsdata
      (some path_a)
      (sn_set_latest shelf shelf_files shelf_pointers fsdata path_a no_files).2
      (sn_get_latest shelf shelf_files shelf_pointers fsdata []
        (sn_set_latest shelf shelf_files shelf_pointers fsdata path_a no_files).2)
unfolding sn_set_latest get_dir_hid_path
sn_get_latest-sn_set_latest_example =
    sn_get_latest-sn_set_latest shelf shelf_files shelf_pointers fsdata fsdata path_a [] no_files
      (sn_set_latest shelf shelf_files shelf_pointers fsdata path_a no_files).2 0 fsdata_a
      path_a-IsPath (omega arith) refl refl
