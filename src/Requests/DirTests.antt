-- ===== src/Requests/DirTests.antt =====
-- Listing a directory of a snapshot that the main space has too.
use esfs.Base.{ℕ, ◌≡◌, refl, true, false, some, [], ◌∷◌, ◌++◌}
use esfs.Os.{done}
use esfs.Types.{Mfd, notopen}
use esfs.Machine.{machine, machine_locks, machine_files}
use esfs.Machine.Sample.{disk, handle, header}
use esfs.Paths.Build.{codes}
use esfs.Paths.Names.{mfd_filter_name, strip_ext}
use esfs.Handle.Open.{mfd_load_mapheader}
use esfs.Snapshots.Spec.{Distinct}
use esfs.Requests.Readdir.{
  Streams, first_marks, sn_readdir, read_steps, read_step, is_unused, read_names, read_entry,
  map_entry, with_header, fill_new, fill,
}
use esfs.Requests.Listed.{sn_readdir-Distinct}

-- Two directories that both hold the same names.
abbrev streams : Streams machine
streams = record {
  names = λ d w. (codes "f" ∷ codes "g.map" ∷ codes "snapshots" ∷ [], done 0);
  filler = λ name st w. (false, w);
}

abbrev two_dirs : Mfd ℕ
two_dirs = record handle {
  sn_steps = λ i. record { path = codes "/data"; mapfd = notopen; datfd = notopen; dirfd = some i };
}

lists_once :
    (sn_readdir machine machine_locks machine_files streams two_dirs true header disk).given
    ≡ codes "g.map" ∷ codes "g" ∷ codes "f" ∷ []
unfolding sn_readdir read_steps read_step is_unused read_names read_entry mfd_filter_name strip_ext
    map_entry with_header mfd_load_mapheader fill_new fill
lists_once = refl

sn_readdir-Distinct_example : Distinct (
    (sn_readdir machine machine_locks machine_files streams two_dirs true header disk).given
    ++ first_marks machine machine_locks machine_files streams true)
sn_readdir-Distinct_example =
    sn_readdir-Distinct machine machine_locks machine_files streams two_dirs true header disk
