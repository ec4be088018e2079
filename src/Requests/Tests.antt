-- ===== src/Requests/Tests.antt =====
-- Runs of the requests on the sample file.
use esfs.Base.{ℕ, ◌%◌, ◌≡◌, refl, Option, none, some, [], arith, add64, sub64}
use esfs.Os.{Disk}
use esfs.Types.{Result, ret, Mfd}
use esfs.Machine.{machine, machine_locks, machine_files, put_word, put_bytes, cut_bytes}
use esfs.Machine.Sample.{disk, env, step, handle, handle-IsOpen}
use esfs.Block.Calc.{calc_blocks, map_offset, trim_size}
use esfs.Block.State.{
  Env, skip_cached, skip_saved, set_cache, block_read, free_buf, got_lock, pointer_read, size_read,
  skip_if_saved, unlocked, use_malloc, wrote_all,
}
use esfs.Block.Save.{
  b_write, b_truncate, b_write_to, finish, new_buffer, recheck, save_trimmed, take_lock, save_range,
  release, save_blocks, save_block, read_pointer, recheck_lock, get_buffer, read_block, dat_size,
  append_block, write_pointer,
}
use esfs.Block.Kept.{Kept}
use esfs.Block.View.{view}
use esfs.Block.Isolation.{Chain}
use esfs.Handle.Open.{Fsdata, mfd_validate}
use esfs.Requests.Write.{
  write, write_valid, write_data, after_save, call_result, ftruncate, cut_valid, cut_file,
  cut_result,
}
use esfs.Requests.Views.{write-view, ftruncate-view}

abbrev fsdata : Fsdata
fsdata = record {
  rootdir = [];
  rootdir_len = 0;
  sn_dir = [];
  sn_number = 1;
  sn_lat_dir = [];
  sn_lat_dir_len = 0;
  sn_is_any = 1;
}

abbrev outcome : {A : Type 0} → Option (Result × A × Env (Disk ℕ)) → A → A × Env (Disk ℕ)
outcome none a = (a, env)
outcome (some (r, m, e)) a = (m, e)

sample-Kept : Kept 0 1 2 200000 (λ i. i % 256) disk
unfolding map_offset
sample-Kept = record {
  unsaved = λ k i a b z. (b, refl);
  saved = λ k i p a b z. absurd (omega (arith, z));
}

sample-Chain : Chain machine step 0 1 2 1
sample-Chain = record {
  main_step = refl;
  latest_map = refl;
  latest_dat = refl;
  older_map = λ j a b. absurd (omega (arith, a, b));
  older_dat = λ j a b. absurd (omega (arith, a, b));
}

written : Option (Result × Mfd ℕ × Env (Disk ℕ))
written = write machine machine_locks machine_files fsdata (λ i. 7) 10 131070 handle env

written-eq : written ≡ some (ret 10, (outcome written handle).0, (outcome written handle).1)
unfolding written write write_valid write_data after_save call_result mfd_validate b_write trim_size
    save_range release save_blocks calc_blocks save_block skip_cached read_pointer skip_saved
    recheck_lock get_buffer read_block dat_size append_block write_pointer set_cache put_word
    put_bytes add64 sub64 map_offset b_write_to finish new_buffer recheck save_trimmed take_lock
    block_read free_buf got_lock pointer_read size_read skip_if_saved unlocked use_malloc wrote_all
written-eq = refl

write-view_example :
    view machine step (outcome written handle).1.world 1 131071 ≡ view machine step disk 1 131071
unfolding written
write-view_example =
    write-view machine machine_locks machine_files handle 1 2 handle-IsOpen step 1 sample-Chain
      (λ i. i % 256) fsdata (λ i. 7) 10 131070 env (ret 10) (outcome written handle).0
      (outcome written handle).1 1 131071 refl (omega arith, omega arith)
      (λ k e. absurd (omega arith)) sample-Kept written-eq (λ z. cc) (omega arith) (omega arith)
      (λ _. omega arith)

cut : Option (Result × Mfd ℕ × Env (Disk ℕ))
cut = ftruncate machine machine_locks machine_files fsdata 150000 handle env

cut-eq : cut ≡ some (ret 0, (outcome cut handle).0, (outcome cut handle).1)
unfolding cut ftruncate cut_valid cut_file cut_result after_save mfd_validate b_truncate b_write
    trim_size save_range release save_blocks calc_blocks save_block skip_cached read_pointer
    skip_saved recheck_lock get_buffer read_block dat_size append_block write_pointer set_cache
    put_word put_bytes cut_bytes add64 sub64 map_offset b_write_to finish new_buffer recheck
    save_trimmed take_lock block_read free_buf got_lock pointer_read size_read skip_if_saved
    unlocked use_malloc wrote_all
cut-eq = refl

ftruncate-view_example :
    view machine step (outcome cut handle).1.world 1 199999 ≡ view machine step disk 1 199999
unfolding cut
ftruncate-view_example =
    ftruncate-view machine machine_locks machine_files handle 1 2 handle-IsOpen step 1 sample-Chain
      (λ i. i % 256) fsdata 150000 env (ret 0) (outcome cut handle).0 (outcome cut handle).1 1
      199999 refl refl (omega arith, omega arith) (λ k e. absurd (omega arith)) sample-Kept cut-eq
      (λ z. cc) (omega arith) (omega arith) (λ _. omega arith)
