-- ===== src/Paths/Tests.antt =====
-- Runs of the path functions.

use esfs.Base.{ℕ, ◌<◌, ◌≡◌, ◌≢◌, refl, arith, List, [], ◌++◌, ◌^◌}
use esfs.Paths.Build.{
  codes, Fits, map_path, get_map_prefix_path, get_dat_prefix_path, get_dir_hid_path, ext_hid,
  sn_dir_name, map_path-Fits, get_map_prefix_path-Fits, get_dir_hid_path-Fits,
}
use esfs.Paths.Names.{
  mfd_filter_name, sn_filter_name, strip_ext, mfd_filter_name-ext, sn_filter_name-hid,
}
use esfs.Paths.Label.{string2locklabel, string2locklabel_bounds}
use esfs.Paths.Snpath.{
  strchr, Snpath, snpath_root, snpath_id, snpath_full, is_path_in_sn, decompose_sn_path,
  decompose_sn_path_lem, decompose_sn_path-append,
}

abbrev root : List ℕ
root = codes "/data"

abbrev file : List ℕ
file = codes "/a/b"

map_path-Fits_example : Fits (codes "/data/a/b") (map_path file root 5)
map_path-Fits_example = map_path-Fits file root (omega arith)

get_map_prefix_path-Fits_example :
    Fits (codes "/data/a/b.map") (get_map_prefix_path file root 5)
    × Fits (codes "/data/a/b.dat") (get_dat_prefix_path file root 5)
get_map_prefix_path-Fits_example = get_map_prefix_path-Fits file root (omega arith)

get_dir_hid_path-Fits_example : Fits (codes "/a/b/.hid") (get_dir_hid_path file)
get_dir_hid_path-Fits_example = get_dir_hid_path-Fits file

mfd_filter_name-ext_example :
    (mfd_filter_name (codes "b.dat") ≡ 0)
    × (mfd_filter_name (codes "b.map") ≡ 2)
    × (strip_ext (codes "b.map") ≡ codes "b")
mfd_filter_name-ext_example = mfd_filter_name-ext (codes "b") (omega arith)

sn_filter_name-hid_example :
    (sn_filter_name (codes "first.hid") ≡ 0)
    × (sn_filter_name (codes "first") ≡ 0 → codes "first" ≡ strip_ext (codes "first") ++ ext_hid)
sn_filter_name-hid_example = sn_filter_name-hid (codes "first")

string2locklabel_bounds_example : (string2locklabel file ≢ 0) × (string2locklabel file < 2 ^ 64)
string2locklabel_bounds_example = string2locklabel_bounds file

abbrev blank : Snpath
blank = record { is_there = snpath_root; id = []; inpath = [] }

decompose_sn_path_lem_example :
    let sn = record blank { is_there = snpath_id; id = codes "/first" } in
    (decompose_sn_path blank (codes "/snapshots/first") ≡ (sn, 1))
    × (decompose_sn_path blank (codes "/snapshots/first/") ≡ (sn, 1))
    × (decompose_sn_path blank (codes "/snapshots/first/a/b")
        ≡ (record { is_there = snpath_full; id = codes "/first"; inpath = codes "/a/b" }, 0))
unfolding strchr
decompose_sn_path_lem_example =
    decompose_sn_path_lem blank (codes "first") (codes "a/b") refl (omega arith) (omega arith)

decompose_sn_path-append_example :
    sn_dir_name
      ++ ((decompose_sn_path blank (codes "/snapshots/first/a")).0.id
          ++ (decompose_sn_path blank (codes "/snapshots/first/a")).0.inpath)
    ≡ codes "/snapshots/first/a"
unfolding decompose_sn_path is_path_in_sn
decompose_sn_path-append_example =
    decompose_sn_path-append blank (codes "/snapshots/first/a") refl refl
