-- ===== src/Handle/Tests.antt =====
-- Opening the sample file.

use esfs.Base.{◌≡◌, ◌≢◌, refl, arith, none, some, sub64}
use esfs.Types.{ret}
use esfs.Machine.{machine, machine_locks, machine_files}
use esfs.Machine.Sample.{disk, handle}
use esfs.Paths.Build.{codes, get_map_prefix_path, get_dat_prefix_path}
use esfs.Paths.Label.{string2locklabel, djb2, djb2_passes, djb2_pass}
use esfs.Handle.Mkpath.{mkpath, mkpath_fuel, seen, parent, last_slash, is_dir, mkpath_fuel-total}
use esfs.Handle.Open.{
  Fsdata, mfd_open_sn, open_at, with_map_path, with_lock, open_map, use_map, mfd_load_mapheader,
  unlock_and_open, open_dat_file, close_on_error, leftover, defaults,
}
use esfs.Handle.Stage.{Current, MapOpen}
use esfs.Handle.Opening.{mfd_open_sn-MapOpen}

abbrev fsdata : Fsdata
fsdata = record {
  rootdir = codes "/data";
  rootdir_len = 5;
  sn_dir = codes "/data/snapshots";
  sn_number = 1;
  sn_lat_dir = codes "/data/snapshots/first";
  sn_lat_dir_len = 21;
  sn_is_any = 1;
}

mkpath_fuel-total_example : mkpath_fuel machine machine_files 9 (codes "/a/b/c") disk ≢ none
mkpath_fuel-total_example =
    mkpath_fuel-total machine machine_files 9 (codes "/a/b/c") disk (omega arith)

succeeds :
    (mfd_open_sn machine machine_locks machine_files fsdata
      (codes "/f")
      (some (codes "/data/f"))
      handle
      disk).0
    ≡ ret 0
unfolding mfd_open_sn open_at with_map_path with_lock open_map use_map mfd_load_mapheader
    unlock_and_open open_dat_file close_on_error leftover defaults mkpath mkpath_fuel seen parent
    last_slash is_dir get_map_prefix_path get_dat_prefix_path string2locklabel djb2 djb2_passes
    djb2_pass sub64
succeeds = refl

mfd_open_sn-MapOpen_example :
    Current fsdata
      (codes "/f")
      (codes "/data/f")
      (mfd_open_sn machine machine_locks machine_files fsdata
        (codes "/f")
        (some (codes "/data/f"))
        handle
        disk).1
    × MapOpen
        (mfd_open_sn machine machine_locks machine_files fsdata
          (codes "/f")
          (some (codes "/data/f"))
          handle
          disk).1
mfd_open_sn-MapOpen_example =
    mfd_open_sn-MapOpen machine machine_locks machine_files fsdata (codes "/f") (codes "/data/f")
      handle disk (λ e. absurd (omega arith)) succeeds
