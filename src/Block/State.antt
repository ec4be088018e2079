-- ===== src/Block/State.antt =====
-- The variables of $b_write (block.c), and the pieces of its block loop that make no system call.
use esfs.Base.{
  ℕ, zero, suc, ◌+◌, ◌-◌, ◌%◌, Bool, true, Option, none, some, ltb, ◌==◌, if◌then◌else◌,
}
use esfs.Os.{Ret, done, failed, blp_s}
use esfs.Types.Errno.{enxio, efault, enomem}
use esfs.Block.Calc.{bl_s}

-- The variable `lock`: -1, -2 ($$B_WRITE_HAS_LOCK), a lock number, or another negative errno.
pub data LockVar : Type 0 where
  no_lock preset : LockVar
  held : ℕ → LockVar
  bad : ℕ → LockVar

-- `lock` after $mflock_lock returned -e: the error -1 (EPERM) cannot be told from having no lock.
unfoldable pub lock_error : ℕ → LockVar
lock_error e = if e == 1 then no_lock else bad e

-- The variable `buf`: NULL, fsdata->block_buffer, or memory of its own.
pub data Buf : Type 0 where
  null shared own : Buf

-- The state outside a request that the block layer touches: the system, the bytes of
-- fsdata->block_buffer, whether that buffer was freed, and how many buffers malloc gave are live.
pub record Env (World : Type 0) : Type 0 where
  pub world : World
  pub block_buffer : ℕ → ℕ
  pub shared_freed : Bool
  pub live : ℕ

-- The variables of $b_write, with mfd->latest_written_block_cache.
pub record Save (World : Type 0) : Type 0 where
  pub env : Env World
  pub cache : ℕ
  pub lock : LockVar
  pub buf : Buf
  pub own_bytes : ℕ → ℕ
  pub waserror : ℕ

-- How a piece of the block loop ends: it goes on with a value, or it says `continue` or `break`.
pub data Flow (S A : Type 0) : Type 0 where
  next : A → S → Flow S A
  again : S → Flow S A
  stop : S → Flow S A

module _ {S A B : Type 0} where
  infixl 5 ◌>>=◌ ◌>>◌
  abbrev pub ◌>>=◌ : (S → Flow S A) → (A → S → Flow S B) → S → Flow S B
  ◌>>=◌ m f s = elim (m s) [ next a t ↦ f a t | again t ↦ again t | stop t ↦ stop t ]

  abbrev pub ◌>>◌ : (S → Flow S A) → (S → Flow S B) → S → Flow S B
  ◌>>◌ m f s = elim (m s) [ next a t ↦ f t | again t ↦ again t | stop t ↦ stop t ]

-- A buffer after a read of `n` bytes into it.
abbrev pub fill : (ℕ → ℕ) → ℕ → (ℕ → ℕ) → ℕ → ℕ
fill old n new i = if ltb i n then new i else old i

module _ {World : Type 0} where
  abbrev pub set_world : Save World → World → Save World
  set_world s w = record s { env = record s.env { world = w } }

  -- waserror = e; break
  abbrev pub break_with : {A : Type 0} → ℕ → Save World → Flow (Save World) A
  break_with e s = stop (record s { waserror = e })

  -- The bytes that `buf` points to, and a read of `n` bytes into it.
  abbrev pub bytes : Buf → Save World → ℕ → ℕ
  bytes shared s = s.env.block_buffer
  bytes _ s = s.own_bytes

  abbrev pub read_into : Buf → ℕ → (ℕ → ℕ) → Save World → Save World
  read_into shared n d s = record s {
    env = record s.env { block_buffer = fill s.env.block_buffer n d };
  }
  read_into _ n d s = record s { own_bytes = fill s.own_bytes n d }

  -- The cache test of the block loop.
  unfoldable pub skip_cached : ℕ → Save World → Flow (Save World) (Unit {0})
  skip_cached k s = if s.cache == k + 1 then again s else next tt s

  -- if(pointer != 0): the block is saved, remember it and go on with the next.
  unfoldable pub skip_saved : ℕ → ℕ → Save World → Flow (Save World) (Unit {0})
  skip_saved k pointer s = if pointer == 0 then next tt s else again (record s { cache = k + 1 })

  unfoldable pub pointer_read : Ret → ℕ → Save World → Flow (Save World) ℕ
  pointer_read (done n) pointer s =
      if n == blp_s then next pointer s else if n == 0 then next 0 s else break_with enxio s
  pointer_read (failed e) pointer s = break_with (suc e) s

  -- if(pointer != 0) { continue; }
  unfoldable pub skip_if_saved : ℕ → Save World → Flow (Save World) (Unit {0})
  skip_if_saved pointer s = if pointer == 0 then next tt s else again s

  unfoldable pub got_lock : Ret → Save World → Flow (Save World) (Unit {0})
  unfolding lock_error
  got_lock (done id) s = next tt (record s { lock = held id })
  got_lock (failed e) s = stop (record s { lock = lock_error (suc e); waserror = suc e })

  unfoldable pub use_malloc : Option (ℕ → ℕ) → Save World → Flow (Save World) (Unit {0})
  use_malloc none s = break_with enomem s
  use_malloc (some b) s =
      next tt (record s { env = record s.env { live = s.env.live + 1 }; buf = own; own_bytes = b })

  -- Reading the old block from the main file: at least one byte.
  unfoldable pub block_read : Ret → (ℕ → ℕ) → Save World → Flow (Save World) (Unit {0})
  block_read (done zero) d s = break_with enxio s
  block_read (done (suc n)) d s = next tt (read_into s.buf (suc n) d s)
  block_read (failed e) d s = break_with (suc e) s

  -- The size of the dat file, which a whole number of blocks must make up.
  unfoldable pub size_read : Ret → Save World → Flow (Save World) ℕ
  size_read (done n) s = if n % bl_s == 0 then next n s else break_with efault s
  size_read (failed e) s = break_with (suc e) s

  -- A call that must transfer `n` bytes.
  unfoldable pub wrote_all : ℕ → Ret → Save World → Flow (Save World) (Unit {0})
  wrote_all n (done k) s = if k == n then next tt s else break_with enxio s
  wrote_all n (failed e) s = break_with (suc e) s

  unfoldable pub set_cache : ℕ → Save World → Flow (Save World) (Unit {0})
  set_cache k s = next tt (record s { cache = k + 1 })

  -- if(buf != NULL && lock != 0) { free(buf); }, where `lock` is not 0.
  unfoldable pub free_buf : Buf → Save World → Save World
  free_buf null s = s
  free_buf shared s = record s { env = record s.env { shared_freed = true } }
  free_buf own s = record s { env = record s.env { live = s.env.live - 1 } }

  -- After a successful unlock `lock` is 0, after a failed one it is a negative errno.
  unfoldable pub unlocked : Ret → Save World → Save World
  unfolding free_buf
  unlocked (done _) s = s
  unlocked (failed e) s =
      free_buf s.buf (record s { waserror = if s.waserror == 0 then suc e else s.waserror })
