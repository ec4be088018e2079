-- ===== src/Block/Total.antt =====
-- $b_write comes to its end, but where $mflock_lock fails.
use esfs.Base.{
  ℕ, zero, suc, ◌+◌, ◌*◌, ◌/◌, ◌%◌, ◌≡◌, ◌≢◌, ◌⊎◌, inl, inr, refl, Bool, true, false, Option, none,
  some, ◌==◌, if◌then◌else◌,
}
use esfs.Os.{Os, Locks, Ret, done, failed, blp_s}
use esfs.Types.{ret, MfdFd, open_fd, nosn, rdonly, enoent, zlen, Mfd}
use esfs.Block.Calc.{bl_s, trim_size, calc_blocks, map_offset}
use esfs.Block.State.{
  LockVar, no_lock, preset, held, bad, Buf, null, shared, own, Env, Save, Flow, next, again, stop,
  ◌>>=◌, set_world, skip_cached, skip_saved, pointer_read, skip_if_saved, got_lock, use_malloc,
  block_read, size_read, wrote_all, set_cache, read_into, bytes,
}
use esfs.Block.Locking.{LockFailed, LockOk, lock_error-LockOk}
use esfs.Block.Save.{
  read_pointer, take_lock, recheck, recheck_lock, new_buffer, get_buffer, read_block, dat_size,
  append_block, write_pointer, save_block, save_blocks, release, start, finish, save_range,
  save_trimmed, b_write_to, b_write,
}
use esfs.Block.Round.{Leaves, goes_on, continues, breaks, after}

-- However a piece of the loop is left, the lock variable has `U`.
abbrev Safe : {World A : Type 0} → (LockVar → Type 0) → Flow (Save World) A → Type 0
Safe U r = Leaves (λ _ t. U t.lock) (λ t. U t.lock) (λ t. U t.lock) r

Safe-if :
    {World A : Type 0} (U : LockVar → Type 0) (b : Bool) {x y : Flow (Save World) A}
    → Safe U x
    → Safe U y
    → Safe U (if b then x else y)
Safe-if U true p q = p
Safe-if U false p q = q

module _ {World : Type 0} (U : LockVar → Type 0) (s : Save World) (u : U s.lock) where
  skip_cached-Safe : (k : ℕ) → Safe U (skip_cached k s)
  unfolding skip_cached
  skip_cached-Safe k = Safe-if U (s.cache == k + 1) (continues u) (goes_on u)

  skip_saved-Safe : (k p : ℕ) → Safe U (skip_saved k p s)
  unfolding skip_saved
  skip_saved-Safe k p = Safe-if U (p == 0) (goes_on u) (continues u)

  skip_if_saved-Safe : (p : ℕ) → Safe U (skip_if_saved p s)
  unfolding skip_if_saved
  skip_if_saved-Safe p = Safe-if U (p == 0) (goes_on u) (continues u)

  pointer_read-Safe : (r : Ret) (p : ℕ) → Safe U (pointer_read r p s)
  unfolding pointer_read
  pointer_read-Safe (done n) p =
      Safe-if U (n == blp_s) (goes_on u) (Safe-if U (n == 0) (goes_on u) (breaks u))
  pointer_read-Safe (failed e) p = breaks u

  use_malloc-Safe : (b : Option (ℕ → ℕ)) → Safe U (use_malloc b s)
  unfolding use_malloc
  use_malloc-Safe none = breaks u
  use_malloc-Safe (some b) = goes_on u

  read_into-Usable : (b : Buf) (n : ℕ) (d : ℕ → ℕ) → U (read_into b n d s).lock
  read_into-Usable null n d = u
  read_into-Usable shared n d = u
  read_into-Usable own n d = u

  block_read-Safe : (r : Ret) (d : ℕ → ℕ) → Safe U (block_read r d s)
  unfolding block_read
  block_read-Safe (done zero) d = breaks u
  block_read-Safe (done (suc n)) d = goes_on (read_into-Usable s.buf (suc n) d)
  block_read-Safe (failed e) d = breaks u

  size_read-Safe : (r : Ret) → Safe U (size_read r s)
  unfolding size_read
  size_read-Safe (done n) = Safe-if U (n % bl_s == 0) (goes_on u) (breaks u)
  size_read-Safe (failed e) = breaks u

  wrote_all-Safe : (n : ℕ) (r : Ret) → Safe U (wrote_all n r s)
  unfolding wrote_all
  wrote_all-Safe n (done k) = Safe-if U (k == n) (goes_on u) (breaks u)
  wrote_all-Safe n (failed e) = breaks u

module _ (os : Os) (locks : Locks os) (mfd : Mfd os.Fd) (has_lock : Bool) where
  open os use {World, Fd}

  abbrev label : ℕ
  label = mfd.locklabel

  -- The lock variable is preset only for a caller that has the lock.
  abbrev Usable : LockVar → Type 0
  Usable l = LockOk os locks label (has_lock ≡ true) l

  read_pointer-Safe :
      (m : MfdFd Fd) (o : ℕ) (s : Save World)
      → Usable s.lock
      → Safe Usable (read_pointer os locks m o s)
  unfolding read_pointer
  read_pointer-Safe (open_fd fd) o s u =
      pointer_read-Safe Usable (set_world s (os.pread_pointer fd o s.env.world).2) u
        (os.pread_pointer fd o s.env.world).0 (os.pread_pointer fd o s.env.world).1
  read_pointer-Safe nosn o s u = breaks u
  read_pointer-Safe rdonly o s u = breaks u
  read_pointer-Safe enoent o s u = breaks u
  read_pointer-Safe zlen o s u = breaks u

  take_lock-Safe : (s : Save World) → Safe Usable (take_lock os locks label s)
  unfolding take_lock got_lock
  take_lock-Safe s = by_result (locks.lock label s.env.world).0 refl
    where
      by_result :
          (r : Ret)
          → (locks.lock label s.env.world).0 ≡ r
          → Safe Usable (got_lock r (set_world s (locks.lock label s.env.world).1))
      by_result (done id) e = goes_on tt
      by_result (failed x) e =
          breaks (lock_error-LockOk os locks label (has_lock ≡ true) s.env.world x e)

  recheck-Safe :
      (l : LockVar) (m : MfdFd Fd) (o : ℕ) (s : Save World)
      → Usable s.lock
      → Safe Usable (recheck os locks l label m o s)
  unfolding recheck
  recheck-Safe no_lock m o s u =
      after (λ _ t. (read_pointer os locks m o >>= (λ p. skip_if_saved p)) t)
        (take_lock os locks label s) (take_lock-Safe s)
        λ _ t v.
          after (λ p. skip_if_saved p) (read_pointer os locks m o t) (read_pointer-Safe m o t v)
            λ p x w. skip_if_saved-Safe Usable x w p
  recheck-Safe preset m o s u = goes_on u
  recheck-Safe (held id) m o s u = goes_on u
  recheck-Safe (bad e) m o s u = goes_on u

  new_buffer-Safe :
      (l : LockVar) (s : Save World) → Usable s.lock → Safe Usable (new_buffer os locks l s)
  unfolding new_buffer
  new_buffer-Safe (held zero) s u = goes_on u
  new_buffer-Safe (held (suc n)) s u =
      use_malloc-Safe Usable (set_world s (os.malloc s.env.world).1) u (os.malloc s.env.world).0
  new_buffer-Safe no_lock s u =
      use_malloc-Safe Usable (set_world s (os.malloc s.env.world).1) u (os.malloc s.env.world).0
  new_buffer-Safe preset s u =
      use_malloc-Safe Usable (set_world s (os.malloc s.env.world).1) u (os.malloc s.env.world).0
  new_buffer-Safe (bad e) s u =
      use_malloc-Safe Usable (set_world s (os.malloc s.env.world).1) u (os.malloc s.env.world).0

  get_buffer-Safe : (s : Save World) → Usable s.lock → Safe Usable (get_buffer os locks s)
  unfolding get_buffer
  get_buffer-Safe s u = by_buf s.buf
    where
      by_buf :
          (b : Buf) → Safe Usable (elim b [ null ↦ new_buffer os locks s.lock s | _ ↦ next tt s ])
      by_buf null = new_buffer-Safe s.lock s u
      by_buf shared = goes_on u
      by_buf own = goes_on u

  write_pointer-Safe :
      (m : MfdFd Fd) (p o : ℕ) (s : Save World)
      → Usable s.lock
      → Safe Usable (write_pointer os locks m p o s)
  unfolding write_pointer
  write_pointer-Safe (open_fd fd) p o s u =
      wrote_all-Safe Usable (set_world s (os.pwrite_pointer fd p o s.env.world).1) u blp_s
        (os.pwrite_pointer fd p o s.env.world).0
  write_pointer-Safe nosn p o s u = breaks u
  write_pointer-Safe rdonly p o s u = breaks u
  write_pointer-Safe enoent p o s u = breaks u
  write_pointer-Safe zlen p o s u = breaks u

  read_block-Safe :
      (main : Fd) (k : ℕ) (s : Save World)
      → Usable s.lock
      → Safe Usable (read_block os locks main k s)
  unfolding read_block
  read_block-Safe main k s u =
      block_read-Safe Usable (set_world s (os.pread main bl_s (k * bl_s) s.env.world).2) u
        (os.pread main bl_s (k * bl_s) s.env.world).0 (os.pread main bl_s (k * bl_s) s.env.world).1

  dat_size-Safe :
      (dat : Fd) (s : Save World) → Usable s.lock → Safe Usable (dat_size os locks dat s)
  unfolding dat_size
  dat_size-Safe dat s u =
      size_read-Safe Usable (set_world s (os.lseek_end dat s.env.world).1) u
        (os.lseek_end dat s.env.world).0

  append_block-Safe :
      (dat : Fd) (s : Save World) → Usable s.lock → Safe Usable (append_block os locks dat s)
  unfolding append_block
  append_block-Safe dat s u =
      wrote_all-Safe Usable (set_world s (os.append dat (bytes s.buf s) bl_s s.env.world).1) u bl_s
        (os.append dat (bytes s.buf s) bl_s s.env.world).0

  set_cache-Safe : (k : ℕ) (s : Save World) → Usable s.lock → Safe Usable (set_cache k s)
  unfolding set_cache
  set_cache-Safe k s u = goes_on u

  save_block-Safe :
      (main dat : Fd) (m : MfdFd Fd) (k : ℕ) (s : Save World)
      → Usable s.lock
      → Safe Usable (save_block os locks main m dat label k s)
  unfolding save_block recheck_lock
  save_block-Safe main dat m k s u = after _ _ (skip_cached-Safe Usable s u k) λ _ t₁ u₁.
      after _ _ (read_pointer-Safe m (map_offset k) t₁ u₁) λ p t₂ u₂.
        after _ _ (skip_saved-Safe Usable t₂ u₂ k p) λ _ t₃ u₃.
          after _ _ (recheck-Safe t₃.lock m (map_offset k) t₃ u₃) λ _ t₄ u₄.
            after _ _ (get_buffer-Safe t₄ u₄) λ _ t₅ u₅.
              after _ _ (read_block-Safe main k t₅ u₅) λ _ t₆ u₆.
                after _ _ (dat_size-Safe dat t₆ u₆) λ n t₇ u₇.
                  after _ _ (append_block-Safe dat t₇ u₇) λ _ t₈ u₈.
                    after _ _ (write_pointer-Safe m (n / bl_s + 1) (map_offset k) t₈ u₈)
                      λ _ t₉ u₉. set_cache-Safe k t₉ u₉

  save_blocks-Usable :
      (main dat : Fd) (m : MfdFd Fd) (n k : ℕ) (s : Save World)
      → Usable s.lock
      → Usable (save_blocks os locks main m dat label n k s).lock
  unfolding save_blocks
  save_blocks-Usable main dat m zero k s u = u
  save_blocks-Usable main dat m (suc n) k s u =
      by_flow (save_blocks-Usable main dat m n (k + 1)) (save_block os locks main m dat label k s)
        (save_block-Safe main dat m k s u)
    where
      by_flow :
          ((t : Save World)
            → Usable t.lock
            → Usable (save_blocks os locks main m dat label n (k + 1) t).lock)
          → (r : Flow (Save World) (Unit {0})) → Safe Usable r
          → Usable
              (elim r as (λ _. Save World) [
                | next _ t ↦ save_blocks os locks main m dat label n (k + 1) t
                | again t ↦ save_blocks os locks main m dat label n (k + 1) t
                | stop t ↦ t
              ]).lock
      by_flow ih (next _ t) (goes_on v) = ih t v
      by_flow ih (again t) (continues v) = ih t v
      by_flow ih (stop t) (breaks v) = v

  -- The result of a call is there, or the caller does not have the lock and it can be refused.
  abbrev pub Total : {A : Type 0} → Option A → Type 0
  Total o = (o ≢ none) ⊎ ((has_lock ≡ false) × LockFailed os locks label)

  release-Total :
      (l : LockVar) (s : Save World) → has_lock ≡ false → Usable l → Total (release os locks l s)
  unfolding release
  release-Total (held id) s f u = inl (λ q. cc)
  release-Total no_lock s f u = inl (λ q. cc)
  release-Total preset s f u = absurd cc
  release-Total (bad e) s f u = inr (f, u)

  finish-Total : (e : Option (Save World)) → Total e → Total (finish os locks mfd e)
  unfolding finish
  finish-Total none (inl h) = absurd (h refl)
  finish-Total (some s) (inl h) = inl (λ q. cc)
  finish-Total e (inr f) = inr f

  save_range-Total :
      (dat : Fd) (offset size : ℕ) (env : Env World)
      → Total (save_range os locks mfd dat offset size has_lock env)
  unfolding save_range
  save_range-Total dat offset size env =
      finish-Total (if has_lock then some t else release os locks t.lock t) (by_flag has_lock refl)
    where
      s : Save World
      s = start os locks mfd has_lock env

      t : Save World
      t =
          save_blocks os locks mfd.mainfd mfd.mapfd dat mfd.locklabel (calc_blocks offset size).1
            (calc_blocks offset size).0 s

      first : (b : Bool) → has_lock ≡ b → Usable (if b then preset else no_lock)
      first true e = e
      first false e = tt

      usable : Usable t.lock
      usable =
          save_blocks-Usable mfd.mainfd dat mfd.mapfd (calc_blocks offset size).1
            (calc_blocks offset size).0 s (first has_lock refl)

      by_flag : (b : Bool) → has_lock ≡ b → Total (if b then some t else release os locks t.lock t)
      by_flag true e = inl (λ q. cc)
      by_flag false e = release-Total t.lock t e usable

  save_trimmed-Total :
      (dat : Fd) (offset : ℕ) (m : Option ℕ) (env : Env World)
      → Total (save_trimmed os locks mfd dat offset m has_lock env)
  unfolding save_trimmed
  save_trimmed-Total dat offset none env = inl (λ q. cc)
  save_trimmed-Total dat offset (some size) env = save_range-Total dat offset size env

  b_write_to-Total :
      (d : MfdFd Fd) (size offset : ℕ) (env : Env World)
      → Total (b_write_to os locks d mfd size offset has_lock env)
  unfolding b_write_to
  b_write_to-Total (open_fd dat) size offset env = by_size (size == 0)
    where
      by_size :
          (b : Bool)
          → Total (
              if b
              then some (ret 0, mfd, env)
              else save_trimmed os locks mfd dat offset
                  (trim_size mfd.mapheader.fstat.st_size offset size)
                  has_lock
                  env)
      by_size true = inl (λ q. cc)
      by_size false =
          save_trimmed-Total dat offset (trim_size mfd.mapheader.fstat.st_size offset size) env
  b_write_to-Total nosn size offset env = inl (λ q. cc)
  b_write_to-Total rdonly size offset env = inl (λ q. cc)
  b_write_to-Total enoent size offset env = inl (λ q. cc)
  b_write_to-Total zlen size offset env = inl (λ q. cc)

  -- Whatever the system calls do, $b_write comes to its end with a result, and so unlocks no
  -- negative lock number, for a caller that has the lock; and for one that does not have it,
  -- unless $mflock_lock can fail for the label of the handle with an error other than EPERM.
  pub b_write-Total :
      (size offset : ℕ) (env : Env World) → Total (b_write os locks mfd size offset has_lock env)
  unfolding b_write
  b_write-Total size offset env = b_write_to-Total mfd.datfd size offset env
