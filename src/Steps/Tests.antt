-- ===== src/Steps/Tests.antt =====
-- A file of which the first of two snapshots holds a map and a dat file.
use esfs.Base.{ℕ, some, none, List, []}
use esfs.Types.{Result, Mfd, nosn, mfd_main, notopen}
use esfs.Machine.Sample.{header}
use esfs.Machine.Shelf.{shelf, shelf_locks, shelf_files, shelf_pointers, shelf_dirs, set_text}
use esfs.Paths.Build.{codes}
use esfs.Paths.Snpath.{Snpath, snpath_full}
use esfs.Snapshots.Pointers.{Texts}
use esfs.Snapshots.Tests.{files_b, fsdata_b}
use esfs.Steps.Find.{mfd_get_sn_steps}
use esfs.Steps.Data.{open_flags}
use esfs.Steps.Opened.{Opens, mfd_get_sn_steps-Opens}

abbrev pub files : Texts
files =
    set_text (set_text files_b (codes "/d/snapshots/a/f.map") (some []))
      (codes "/d/snapshots/a/f.dat") (some [])

abbrev snpath : Snpath
snpath = record { is_there = snpath_full; id = codes "/a"; inpath = codes "/f" }

abbrev pub junk : Mfd (List ℕ)
junk = record {
  is_main = mfd_main;
  mapheader = header;
  locklabel = 0;
  sn_number = 0;
  mainfd = [];
  maindir = none;
  mapfd = nosn;
  datfd = nosn;
  vpath = [];
  latest_written_block_cache = 0;
  sn_current = 0;
  sn_first_file = none;
  sn_steps = λ n. record { path = []; mapfd = notopen; datfd = notopen; dirfd = none };
}

abbrev outcome : Result × Mfd (List ℕ) × Texts
outcome =
    mfd_get_sn_steps shelf shelf_locks shelf_files shelf_pointers shelf_dirs fsdata_b junk snpath
      open_flags header files

mfd_get_sn_steps-Opens_example :
    Opens shelf shelf_locks shelf_files shelf_pointers shelf_dirs outcome
mfd_get_sn_steps-Opens_example =
    mfd_get_sn_steps-Opens shelf shelf_locks shelf_files shelf_pointers shelf_dirs fsdata_b junk
      snpath header files
