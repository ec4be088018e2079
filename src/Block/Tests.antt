-- ===== src/Block/Tests.antt =====
-- Runs of the block layer on a file of 200000 bytes, of which a snapshot was just taken.
use esfs.Base.{
  ℕ, ◌+◌, ◌*◌, ◌-◌, ◌≡◌, ◌≤◌, ◌<◌, refl, false, Option, none, some, arith, add64, sub64,
}
use Prim.Native.Nat.{min}
use esfs.Os.{Disk}
use esfs.Types.{Result, ret, Mfd}
use esfs.Machine.{machine, machine_locks, put_word, put_bytes}
use esfs.Machine.Sample.{disk, env, step, handle, handle-IsOpen}
use esfs.Block.Calc.{
  bl_s, calc_blocks, calc_blocks-covers, map_offset, map_offset-apart, trim_size, trim_size_lem,
}
use esfs.Block.State.{
  Env, no_lock, skip_cached, skip_saved, set_cache, block_read, free_buf, got_lock, pointer_read,
  size_read, skip_if_saved, unlocked, use_malloc, wrote_all,
}
use esfs.Block.Save.{
  b_write, b_truncate, b_write_to, finish, new_buffer, recheck, save_trimmed, take_lock, save_range,
  release, save_blocks, save_block, read_pointer, recheck_lock, get_buffer, read_block, dat_size,
  append_block, write_pointer,
}
use esfs.Block.Saving.{Secured, b_write-Secured, b_truncate-Secured}
use esfs.Block.Read.{b_read}
use esfs.Block.Total.{Total, b_write-Total}
use esfs.Block.Contents.{Ends, b_read-Ends}

abbrev outcome : {A : Type 0} → Option (Result × A × Env (Disk ℕ)) → A → A × Env (Disk ℕ)
outcome none a = (a, env)
outcome (some (r, m, e)) a = (m, e)

-- Ten bytes about to be written across the border of two blocks.
written : Option (Result × Mfd ℕ × Env (Disk ℕ))
written = b_write machine machine_locks handle 10 131070 false env

written-eq : written ≡ some (ret 0, (outcome written handle).0, (outcome written handle).1)
unfolding written b_write trim_size save_range release save_blocks calc_blocks save_block
    skip_cached read_pointer skip_saved recheck_lock get_buffer read_block dat_size append_block
    write_pointer set_cache put_word put_bytes add64 sub64 map_offset b_write_to finish new_buffer
    recheck save_trimmed take_lock block_read free_buf got_lock pointer_read size_read skip_if_saved
    unlocked use_malloc wrote_all
written-eq = refl

b_write-Secured_example :
    Secured machine machine_locks handle 1 2 131070 10 env
      (ret 0)
      (outcome written handle).0
      (outcome written handle).1
unfolding written
b_write-Secured_example =
    b_write-Secured machine machine_locks handle 1 2 handle-IsOpen 131070 10 false env (ret 0)
      (outcome written handle).0 (outcome written handle).1 (omega arith, omega arith)
      (λ k e. absurd (omega arith)) written-eq

-- The file about to be cut to 150000 bytes.
cut : Option (Result × Mfd ℕ × Env (Disk ℕ))
cut = b_truncate machine machine_locks handle 150000 false env

cut-eq : cut ≡ some (ret 0, (outcome cut handle).0, (outcome cut handle).1)
unfolding cut b_truncate b_write trim_size save_range release save_blocks calc_blocks save_block
    skip_cached read_pointer skip_saved recheck_lock get_buffer read_block dat_size append_block
    write_pointer set_cache put_word put_bytes add64 sub64 map_offset b_write_to finish new_buffer
    recheck save_trimmed take_lock block_read free_buf got_lock pointer_read size_read skip_if_saved
    unlocked use_malloc wrote_all
cut-eq = refl

b_truncate-Secured_example :
    Secured machine machine_locks handle 1 2 150000 50000 env
      (ret 0)
      (outcome cut handle).0
      (outcome cut handle).1
unfolding cut
b_truncate-Secured_example =
    b_truncate-Secured machine machine_locks handle 1 2 handle-IsOpen 150000 false env (ret 0)
      (outcome cut handle).0 (outcome cut handle).1 (omega arith, omega arith) refl
      (λ k e. absurd (omega arith)) cut-eq

b_read-Ends_example :
    Ends machine machine_locks step handle.locklabel 1 131070 10
      (record { world = disk; buf = λ i. 0; lock = no_lock; waserror = 0 })
      (b_read machine machine_locks handle 10 131070 (λ i. 0) disk)
b_read-Ends_example =
    b_read-Ends machine machine_locks handle 1 refl 10 131070 (λ i. 0) disk (omega arith)
      (omega arith) (omega arith)

calc_blocks-covers_example :
    let (first, count) = calc_blocks 131070 10 in
    (first * bl_s ≤ 131070)
    × (131070 < (first + 1) * bl_s)
    × ((first + count - 1) * bl_s < 131070 + 10)
    × (131070 + 10 ≤ (first + count) * bl_s)
calc_blocks-covers_example = calc_blocks-covers 131070 10 (omega arith) (omega arith)

map_offset-apart_example : (160 ≤ map_offset 3) × (map_offset 3 + 8 ≤ map_offset 5)
map_offset-apart_example = map_offset-apart 3 5 (omega arith)

trim_size_lem_example :
    (trim_size 100 90 20 ≡ none → 100 ≤ 90)
    × ((n : ℕ) → trim_size 100 90 20 ≡ some n → (0 < n) × (90 + n ≡ min (90 + 20) 100))
trim_size_lem_example = trim_size_lem 100 90 20 (omega arith) (omega arith) (omega arith)

b_write-Total_example :
    Total machine machine_locks handle false
      (b_write machine machine_locks handle 10 131070 false env)
b_write-Total_example = b_write-Total machine machine_locks handle false 10 131070 env
