-- ===== src/Block/Read.antt =====
-- $b_read of block.c: reading a file of a snapshot from the dat files of that snapshot and of later
-- ones, and from the main file.
use esfs.Base.{
  ℕ, zero, suc, ◌+◌, ◌-◌, ◌*◌, ◌%◌, ◌^◌, ◌&&◌, Option, none, some, ltb, leb, ◌==◌, if◌then◌else◌,
  sub64,
}
use esfs.Os.{Ret, done, failed, Os, Locks, blp_s}
use esfs.Types.Errno.{enxio, ebadf}
use esfs.Types.{Result, ret, err, StepFd, opened, SnStep, Mfd}
use esfs.Block.Calc.{bl_s, trim_size, calc_blocks, map_offset}
use esfs.Block.State.{LockVar, no_lock, held, lock_error, Flow, next, again, stop, ◌>>=◌, ◌>>◌}

-- The variables of $b_read that change under the loop over the snapshots: the buffer, `lock`, and
-- `waserror` where it is positive. `next` is a block that was found, `again` one that is not in the
-- step at hand, `stop` an error.
pub record Reading (World : Type 0) : Type 0 where
  pub world : World
  pub buf : ℕ → ℕ
  pub lock : LockVar
  pub waserror : ℕ

-- How the loop over the snapshots ends: with the block, without it, or by a return; `undefined` is
-- undefined behaviour.
pub data Looked (World : Type 0) : Type 0 where
  copied : Reading World → Looked World
  missed : Reading World → Looked World
  returned : Result → Reading World → Looked World
  undefined : Looked World

-- The part of a block that is read: blocknumber, blockoffset, copyto, and the bytes asked for.
unfoldable pub copy_from : ℕ → ℕ → ℕ → ℕ
unfolding sub64
copy_from blockoffset copyto readoffset =
    if copyto == 0 then sub64 readoffset (blockoffset * bl_s) else 0

unfoldable pub copy_length : ℕ → ℕ → ℕ → ℕ → ℕ → ℕ
unfolding sub64 copy_from
copy_length blocknumber blockoffset copyto readoffset readsize =
    let full : ℕ =
      if copyto == 0 then sub64 bl_s (copy_from blockoffset copyto readoffset) else bl_s in
    if blocknumber == 1
    then sub64 full (sub64 (sub64 ((blockoffset + 1) * bl_s) readoffset) readsize)
    else full

-- `return (int)copyto`.
unfoldable pub to_int : ℕ → Result
to_int n = if ltb (n % 2 ^ 32) (2 ^ 31) then ret (n % 2 ^ 32) else err (2 ^ 32 - n % 2 ^ 32)

-- `n` bytes read into a buffer at `o`.
abbrev pub fill_at : (ℕ → ℕ) → ℕ → ℕ → (ℕ → ℕ) → ℕ → ℕ
fill_at old o n new i = if leb o i && ltb i (o + n) then new (i - o) else old i

-- The rounds of the loop over the snapshots, from mfd->sn_first_file down to 0.
abbrev pub rounds : Option ℕ → ℕ
rounds none = 0
rounds (some n) = suc n

module _ {World : Type 0} where
  abbrev pub put_world : Reading World → World → Reading World
  put_world s w = record s { world = w }

  abbrev pub fail_with : {A : Type 0} → ℕ → Reading World → Flow (Reading World) A
  fail_with e s = stop (record s { waserror = e })

  unfoldable pub lock_taken : Ret → Reading World → Flow (Reading World) (Unit {0})
  unfolding lock_error
  lock_taken (done id) s = next tt (record s { lock = held id })
  lock_taken (failed e) s = stop (record s { lock = lock_error (suc e); waserror = suc e })

  -- The pointer read from the map file: 0 at its end.
  unfoldable pub step_read : Ret → ℕ → Reading World → Flow (Reading World) ℕ
  step_read (done n) pointer s =
      if n == blp_s then next pointer s else if n == 0 then next 0 s else fail_with enxio s
  step_read (failed e) pointer s = fail_with (suc e) s

  unfoldable pub copy_done : ℕ → ℕ → Ret → (ℕ → ℕ) → Reading World → Flow (Reading World) (Unit {0})
  copy_done copyto copylength (done n) d s =
      let t = record s { buf = fill_at s.buf copyto n d } in
      if n == copylength then next tt t else fail_with enxio t
  copy_done copyto copylength (failed e) d s = fail_with (suc e) s

  unfoldable pub nonzero : ℕ → Reading World → Flow (Reading World) ℕ
  nonzero zero s = again s
  nonzero (suc p) s = next p s

  -- Releasing the lock. Where $mflock_unlock fails, its negated negative value is returned.
  unfoldable pub lock_released : Ret → Reading World → Looked World → Looked World
  lock_released (done _) s after = after
  lock_released (failed e) s after = returned (ret (suc e)) s

module _ (os : Os) (locks : Locks os) where
  open os use {World, Fd, pread, pread_pointer}
  open locks use {lock, unlock}

  unfoldable pub lock_step : ℕ → LockVar → ℕ → Reading World → Flow (Reading World) (Unit {0})
  unfolding lock_taken
  lock_step sni no_lock label s =
      if leb sni 1
      then (let (r, w) = lock label s.world in lock_taken r (put_world s w))
      else next tt s
  lock_step sni _ label s = next tt s

  -- A step with no map file has nothing: `break`.
  unfoldable pub map_pointer : StepFd Fd → ℕ → Reading World → Flow (Reading World) ℕ
  unfolding step_read
  map_pointer (opened fd) o s =
      let (r, p, w) = pread_pointer fd o s.world in step_read r p (put_world s w)
  map_pointer _ o s = again s

  -- A read from a handle that is not open fails with EBADF.
  unfoldable pub copy_bytes :
      StepFd Fd → ℕ → ℕ → ℕ → Reading World → Flow (Reading World) (Unit {0})
  unfolding copy_done
  copy_bytes (opened fd) copyto copylength from s =
      let (r, d, w) = pread fd copylength from s.world in
      copy_done copyto copylength r d (put_world s w)
  copy_bytes _ copyto copylength from s = fail_with ebadf s

  -- The do block of the loop over the snapshots, at snapshot `sni`, for block `k`.
  unfoldable pub try_step :
      ℕ → SnStep Fd → ℕ → ℕ → ℕ → ℕ → ℕ → Reading World → Flow (Reading World) (Unit {0})
  try_step zero step label k copyfrom copyto copylength s =
      (lock_step zero s.lock label >> copy_bytes step.datfd copyto copylength (copyfrom + k * bl_s))
        s
  try_step (suc n) step label k copyfrom copyto copylength s =
      (lock_step (suc n) s.lock label
          >> (map_pointer step.mapfd (map_offset k) >>= (λ p.
              nonzero p >>= (λ q. copy_bytes step.datfd copyto copylength (copyfrom + q * bl_s)))))
        s

  -- After a block that was found, and after an error. Unlocking a lock number that is negative reads
  -- outside the table of locks.
  unfoldable pub found_block : LockVar → Reading World → Looked World
  unfolding lock_released
  found_block (held id) s =
      let (r, w) = unlock id s.world in
      lock_released r (put_world s w)
        (copied (record s { world = w; lock = no_lock; waserror = 0 }))
  found_block no_lock s = copied (record s { waserror = 0 })
  found_block _ s = undefined

  unfoldable pub found_error : LockVar → Reading World → Looked World
  unfolding lock_released
  found_error (held id) s =
      let (r, w) = unlock id s.world in
      lock_released r (put_world s w) (returned (err s.waserror) (put_world s w))
  found_error no_lock s = returned (err s.waserror) s
  found_error _ s = undefined

  -- for(sni = ...; sni >= 0; sni--), with sni + 1 rounds left.
  unfoldable pub look : (ℕ → SnStep Fd) → ℕ → ℕ → ℕ → ℕ → ℕ → ℕ → Reading World → Looked World
  unfolding found_block found_error
  look steps label k copyfrom copyto copylength zero s = missed s
  look steps label k copyfrom copyto copylength (suc sni) s =
      elim (try_step sni (steps sni) label k copyfrom copyto copylength s) [
        | next _ t ↦ found_block t.lock t
        | again t ↦ look steps label k copyfrom copyto copylength sni t
        | stop t ↦ found_error t.lock t
      ]

  -- for(; blocknumber > 0; blocknumber--, blockoffset++, copyto += copylength)
  unfoldable pub read_blocks : Mfd Fd → ℕ → ℕ → ℕ → ℕ → ℕ → Reading World → Looked World
  unfolding to_int
  read_blocks mfd readoffset readsize zero k copyto s = returned (to_int copyto) s
  read_blocks mfd readoffset readsize (suc n) k copyto s =
      let len = copy_length (suc n) k copyto readoffset readsize in
      elim (look mfd.sn_steps mfd.locklabel k (copy_from k copyto readoffset) copyto len
        (rounds mfd.sn_first_file) s) [
          | copied t ↦ read_blocks mfd readoffset readsize n (k + 1) (copyto + len) t
          | missed t ↦ read_blocks mfd readoffset readsize n (k + 1) (copyto + len) t
          | returned r t ↦ returned r t
          | undefined ↦ undefined
        ]

  unfoldable pub read_trimmed : Mfd Fd → ℕ → Option ℕ → Reading World → Looked World
  read_trimmed mfd readoffset none s = returned (ret 0) s
  read_trimmed mfd readoffset (some size) s =
      let (first, count) = calc_blocks readoffset size in
      read_blocks mfd readoffset size count first 0 s

  -- $b_read: the value returned with the buffer and the state left behind.
  unfoldable pub b_read : Mfd Fd → ℕ → ℕ → (ℕ → ℕ) → World → Looked World
  unfolding read_trimmed
  b_read mfd readsize readoffset buf w =
      let s : Reading World = record { world = w; buf = buf; lock = no_lock; waserror = 0 } in
      if readsize == 0
      then returned (ret 0) s
      else read_trimmed mfd readoffset (trim_size mfd.mapheader.fstat.st_size readoffset readsize) s
