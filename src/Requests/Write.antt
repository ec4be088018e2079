-- ===== src/Requests/Write.antt =====
-- $write and $ftruncate of fuse_fd_write.c and $read of fuse_fd_read.c.
use esfs.Base.{ℕ, zero, suc, false, Option, none, some}
use esfs.Os.{Os, Locks, Ret, done, failed}
use esfs.Files.{Files}
use esfs.Types.{Result, ret, err, mfd_main, mfd_sn_full, Mfd}
use esfs.Types.Errno.{eacces, ebade}
use esfs.Block.State.{Env, no_lock}
use esfs.Block.Save.{b_write, b_truncate}
use esfs.Block.Read.{Looked, returned, b_read, fill_at}
use esfs.Handle.Open.{Fsdata, mfd_validate, mfd_in_sn_validate}

module _ (os : Os) (locks : Locks os) (files : Files os) where
  open os use {World, Fd}

  abbrev pub Answer : Type 0
  Answer = Option (Result × Mfd Fd × Env World)

  abbrev pub in_world : Env World → World → Env World
  in_world env w = record env { world = w }

  -- What the last call returns. On Linux it transfers less than 2^31 bytes.
  unfoldable pub call_result : Ret → Result
  call_result (done k) = ret k
  call_result (failed e) = err (suc e)

  unfoldable pub write_data : (ℕ → ℕ) → ℕ → ℕ → Mfd Fd → Env World → Answer
  unfolding call_result
  write_data buf size offset mfd env =
      let (r, w) = os.pwrite mfd.mainfd buf size offset env.world in
      some (call_result r, mfd, in_world env w)

  -- After $b_write: its value is returned where it is not 0.
  unfoldable pub after_save : (Mfd Fd → Env World → Answer) → Answer → Answer
  after_save go none = none
  after_save go (some (err e, mfd, env)) = some (err e, mfd, env)
  after_save go (some (ret zero, mfd, env)) = go mfd env
  after_save go (some (ret (suc n), mfd, env)) = some (ret (suc n), mfd, env)

  unfoldable pub write_valid : (ℕ → ℕ) → ℕ → ℕ → Result × Mfd Fd × World → Env World → Answer
  unfolding after_save write_data
  write_valid buf size offset (err e, mfd, w) env = some (err e, mfd, in_world env w)
  write_valid buf size offset (ret _, mfd, w) env =
      after_save (write_data buf size offset)
        (b_write os locks mfd size offset false (in_world env w))

  -- $write.
  unfoldable pub write : Fsdata → (ℕ → ℕ) → ℕ → ℕ → Mfd Fd → Env World → Answer
  unfolding write_valid
  write fs buf size offset mfd env = elim mfd.is_main [
    | mfd_main ↦ write_valid buf size offset (mfd_validate os locks files fs mfd env.world) env
    | _ ↦ some (err eacces, mfd, env)
  ]

  unfoldable pub cut_result : Ret → Result
  cut_result (done _) = ret 0
  cut_result (failed e) = err (suc e)

  unfoldable pub cut_file : ℕ → Mfd Fd → Env World → Answer
  unfolding cut_result
  cut_file newsize mfd env =
      let (r, w) = files.ftruncate mfd.mainfd newsize env.world in
      some (cut_result r, mfd, in_world env w)

  unfoldable pub cut_valid : ℕ → Result × Mfd Fd × World → Env World → Answer
  unfolding after_save cut_file
  cut_valid newsize (err e, mfd, w) env = some (err e, mfd, in_world env w)
  cut_valid newsize (ret _, mfd, w) env =
      after_save (cut_file newsize) (b_truncate os locks mfd newsize false (in_world env w))

  -- $ftruncate.
  unfoldable pub ftruncate : Fsdata → ℕ → Mfd Fd → Env World → Answer
  unfolding cut_valid
  ftruncate fs newsize mfd env =
      cut_valid newsize (mfd_validate os locks files fs mfd env.world) env

  -- $read: the value with the buffer and the state left behind.
  unfoldable pub read_main : ℕ → ℕ → (ℕ → ℕ) → Mfd Fd → World → Looked World
  unfolding call_result
  read_main size offset buf mfd w =
      let (r, d, v) = os.pread mfd.mainfd size offset w in
      elim r [
        | done k ↦
            returned (ret k)
              (record { world = v; buf = fill_at buf 0 k d; lock = no_lock; waserror = 0 })
        | failed e ↦
            returned (err (suc e)) (record { world = v; buf = buf; lock = no_lock; waserror = 0 })
      ]

  unfoldable pub read : Fsdata → ℕ → ℕ → (ℕ → ℕ) → Mfd Fd → World → Looked World
  unfolding read_main mfd_in_sn_validate
  read fs size offset buf mfd w = elim mfd.is_main [
    | mfd_main ↦ read_main size offset buf mfd w
    | mfd_sn_full ↦ elim (mfd_in_sn_validate os locks files fs mfd) [
      | err e ↦ returned (err e) (record { world = w; buf = buf; lock = no_lock; waserror = 0 })
      | ret _ ↦ b_read os locks mfd size offset buf w
    ]
    | _ ↦ returned (err ebade) (record { world = w; buf = buf; lock = no_lock; waserror = 0 })
  ]
