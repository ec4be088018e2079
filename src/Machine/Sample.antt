-- ===== src/Machine/Sample.antt =====
-- A file of 200000 bytes, of which a snapshot was just taken, and a handle of it.
use esfs.Base.{ℕ, zero, suc, ◌%◌, refl, false, none, some, [], ◌∷◌, arith, ◌==◌, if◌then◌else◌}
use esfs.Os.{Disk, Stat, MapHeader}
use esfs.Types.{mfd_main, open_fd, opened, notopen, SnStep, Mfd}
use esfs.Machine.{machine}
use esfs.Block.State.{Env}
use esfs.Block.Saving.{IsOpen}

abbrev pub stat : Stat
stat = record { st_mode = 33188; st_uid = 0; st_size = 200000 }

abbrev pub header : MapHeader
header = record { version = 12000; exists = 1; fstat = stat; signature = 69 ∷ 83 ∷ 70 ∷ 83 ∷ [] }

-- File 0 is the main file, 1 and 2 are the map and the dat file.
abbrev pub disk : Disk ℕ
disk = record {
  size = λ f. if f == 0 then 200000 else if f == 1 then 160 else 0;
  byte = λ f i. if f == 0 then i % 256 else 0;
  word = λ f o. 0;
  header = λ f. header;
}

abbrev pub env : Env (Disk ℕ)
env = record { world = disk; block_buffer = λ i. 0; shared_freed = false; live = 0 }

abbrev pub step : ℕ → SnStep ℕ
step zero = record { path = []; mapfd = notopen; datfd = opened 0; dirfd = none }
step (suc n) = record { path = []; mapfd = opened 1; datfd = opened 2; dirfd = none }

abbrev pub handle : Mfd ℕ
handle = record {
  is_main = mfd_main;
  mapheader = header;
  locklabel = 7;
  sn_number = 1;
  mainfd = 0;
  maindir = none;
  mapfd = open_fd 1;
  datfd = open_fd 2;
  vpath = [];
  latest_written_block_cache = 0;
  sn_current = 1;
  sn_first_file = some 1;
  sn_steps = step;
}

pub handle-IsOpen : IsOpen machine handle 1 2
handle-IsOpen = record {
  mapfd = refl;
  datfd = refl;
  apart = (λ e. omega arith, λ e. omega arith, λ e. omega arith);
}
