-- ===== src/Block/Save.antt =====
-- $b_write and $b_truncate of block.c: saving the blocks of a main file that are about to change.
use esfs.Base.{
  ℕ, zero, suc, ◌+◌, ◌-◌, ◌*◌, ◌/◌, Bool, ◌&&◌, Option, none, some, ltb, ◌==◌, if◌then◌else◌,
}
use esfs.Os.{Os, Locks, blp_s}
use esfs.Types.Errno.{ebadf}
use esfs.Types.{Result, ret, minus, MfdFd, open_fd, Mfd}
use esfs.Block.Calc.{bl_s, trim_size, calc_blocks, map_offset}
use esfs.Block.State.{
  LockVar, Env, Save, Flow, ◌>>=◌, ◌>>◌, set_world, break_with, bytes, skip_cached, skip_saved,
  pointer_read, skip_if_saved, got_lock, use_malloc, block_read, size_read, wrote_all, set_cache,
  unlocked, no_lock, preset, held, null, shared, next, again, stop,
}

module _ (os : Os) (locks : Locks os) where
  open os use {World, Fd, pread, pread_pointer, pwrite_pointer, lseek_end, append, malloc}
  open locks use {lock, unlock}

  -- $$BLOCK_READ_POINTER. A read from a negative mapfd fails with EBADF.
  unfoldable pub read_pointer : MfdFd Fd → ℕ → Save World → Flow (Save World) ℕ
  unfolding pointer_read
  read_pointer (open_fd fd) o s =
      let (r, p, w) = pread_pointer fd o s.env.world in pointer_read r p (set_world s w)
  read_pointer _ o s = break_with ebadf s

  unfoldable pub take_lock : ℕ → Save World → Flow (Save World) (Unit {0})
  unfolding got_lock
  take_lock label s = let (r, w) = lock label s.env.world in got_lock r (set_world s w)

  -- if(lock == -1) { ... }: take the lock and read the pointer again.
  unfoldable pub recheck : LockVar → ℕ → MfdFd Fd → ℕ → Save World → Flow (Save World) (Unit {0})
  unfolding take_lock read_pointer skip_if_saved
  recheck no_lock label mapfd o = do take_lock label; p ← read_pointer mapfd o; skip_if_saved p
  recheck _ label mapfd o = next tt

  unfoldable pub recheck_lock : ℕ → MfdFd Fd → ℕ → Save World → Flow (Save World) (Unit {0})
  unfolding recheck
  recheck_lock label mapfd o s = recheck s.lock label mapfd o s

  -- The choice of a buffer where buf == NULL: the shared one goes with lock 0.
  unfoldable pub new_buffer : LockVar → Save World → Flow (Save World) (Unit {0})
  unfolding use_malloc
  new_buffer (held zero) s = next tt (record s { buf = shared })
  new_buffer _ s = let (b, w) = malloc s.env.world in use_malloc b (set_world s w)

  unfoldable pub get_buffer : Save World → Flow (Save World) (Unit {0})
  unfolding new_buffer
  get_buffer s = elim s.buf [ null ↦ new_buffer s.lock s | _ ↦ next tt s ]

  unfoldable pub read_block : Fd → ℕ → Save World → Flow (Save World) (Unit {0})
  unfolding block_read
  read_block mainfd k s =
      let (r, d, w) = pread mainfd bl_s (k * bl_s) s.env.world in block_read r d (set_world s w)

  unfoldable pub dat_size : Fd → Save World → Flow (Save World) ℕ
  unfolding size_read
  dat_size datfd s = let (r, w) = lseek_end datfd s.env.world in size_read r (set_world s w)

  unfoldable pub append_block : Fd → Save World → Flow (Save World) (Unit {0})
  unfolding wrote_all
  append_block datfd s =
      let (r, w) = append datfd (bytes s.buf s) bl_s s.env.world in wrote_all bl_s r (set_world s w)

  unfoldable pub write_pointer : MfdFd Fd → ℕ → ℕ → Save World → Flow (Save World) (Unit {0})
  unfolding wrote_all
  write_pointer (open_fd fd) pointer o s =
      let (r, w) = pwrite_pointer fd pointer o s.env.world in wrote_all blp_s r (set_world s w)
  write_pointer _ pointer o s = break_with ebadf s

  -- The body of the block loop.
  unfoldable pub save_block : Fd → MfdFd Fd → Fd → ℕ → ℕ → Save World → Flow (Save World) (Unit {0})
  save_block mainfd mapfd datfd label k = do
    skip_cached k
    p ← read_pointer mapfd (map_offset k)
    skip_saved k p
    recheck_lock label mapfd (map_offset k)
    get_buffer
    read_block mainfd k
    datsize ← dat_size datfd
    append_block datfd
    write_pointer mapfd (datsize / bl_s + 1) (map_offset k)
    set_cache k

  -- for(; blocknumber > 0; blocknumber--, blockoffset++)
  unfoldable pub save_blocks : Fd → MfdFd Fd → Fd → ℕ → ℕ → ℕ → Save World → Save World
  save_blocks mainfd mapfd datfd label zero k s = s
  save_blocks mainfd mapfd datfd label (suc n) k s =
      elim (save_block mainfd mapfd datfd label k s) [
        | next _ t ↦ save_blocks mainfd mapfd datfd label n (k + 1) t
        | again t ↦ save_blocks mainfd mapfd datfd label n (k + 1) t
        | stop t ↦ t
      ]

  -- The end of $b_write. Unlocking a lock number that is negative, -2 or an errno, reads outside the
  -- table of locks (`none`).
  unfoldable pub release : LockVar → Save World → Option (Save World)
  unfolding unlocked
  release (held id) s = let (r, w) = unlock id s.env.world in some (unlocked r (set_world s w))
  release no_lock s = some s
  release _ s = none

  abbrev pub start : Mfd Fd → Bool → Env World → Save World
  start mfd has_lock env = record {
    env = env;
    cache = mfd.latest_written_block_cache;
    lock = if has_lock then preset else no_lock;
    buf = null;
    own_bytes = λ i. 0;
    waserror = 0;
  }

  unfoldable pub finish : Mfd Fd → Option (Save World) → Option (Result × Mfd Fd × Env World)
  finish mfd none = none
  finish mfd (some s) =
      some (minus s.waserror, record mfd { latest_written_block_cache = s.cache }, s.env)

  -- From the computation of the blocks to the end.
  unfoldable pub save_range :
      Mfd Fd → Fd → ℕ → ℕ → Bool → Env World → Option (Result × Mfd Fd × Env World)
  unfolding finish
  save_range mfd datfd offset size has_lock env =
      let (first, count) = calc_blocks offset size in
      let s =
        save_blocks mfd.mainfd mfd.mapfd datfd mfd.locklabel count first (start mfd has_lock env) in
      finish mfd (if has_lock then some s else release s.lock s)

  unfoldable pub save_trimmed :
      Mfd Fd → Fd → ℕ → Option ℕ → Bool → Env World → Option (Result × Mfd Fd × Env World)
  save_trimmed mfd datfd offset none has_lock env = some (ret 0, mfd, env)
  save_trimmed mfd datfd offset (some size) has_lock env =
      save_range mfd datfd offset size has_lock env

  unfoldable pub b_write_to :
      MfdFd Fd → Mfd Fd → ℕ → ℕ → Bool → Env World → Option (Result × Mfd Fd × Env World)
  unfolding save_trimmed
  b_write_to (open_fd datfd) mfd writesize writeoffset has_lock env =
      if writesize == 0
      then some (ret 0, mfd, env)
      else save_trimmed mfd datfd writeoffset
          (trim_size mfd.mapheader.fstat.st_size writeoffset writesize) has_lock env
  b_write_to _ mfd writesize writeoffset has_lock env = some (ret 0, mfd, env)

  -- $b_write: what it returns, the file handle and the state left behind; `none` is undefined
  -- behaviour. It does nothing where datfd < 0, at writesize 0, and past the size in the snapshot.
  unfoldable pub b_write : Mfd Fd → ℕ → ℕ → Bool → Env World → Option (Result × Mfd Fd × Env World)
  unfolding b_write_to
  b_write mfd writesize writeoffset has_lock env =
      b_write_to mfd.datfd mfd writesize writeoffset has_lock env

  unfoldable pub b_truncate : Mfd Fd → ℕ → Bool → Env World → Option (Result × Mfd Fd × Env World)
  b_truncate mfd newsize has_lock env =
      if mfd.mapheader.exists == 1 && ltb newsize mfd.mapheader.fstat.st_size
      then b_write mfd (mfd.mapheader.fstat.st_size - newsize) newsize has_lock env
      else some (ret 0, mfd, env)
