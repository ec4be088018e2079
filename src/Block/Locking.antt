-- ===== src/Block/Locking.antt =====
-- What the variable `lock` of $b_read and $b_write can hold.
use esfs.Base.{ℕ, suc, ◌≡◌, ◌≢◌, refl, Bool, true, false, ◌==◌, if◌then◌else◌, arith}
use esfs.Os.{Os, Locks, failed}
use esfs.Block.State.{LockVar, no_lock, preset, held, bad, lock_error}

module _ (os : Os) (locks : Locks os) (label : ℕ) where
  -- $mflock_lock fails for the label, in some state, with an error other than EPERM.
  abbrev pub LockFailed : Type 0
  LockFailed = (w : os.World) × (e : ℕ) × ((locks.lock label w).0 ≡ failed e) × (suc e ≢ 1)

  -- No lock or a lock number, where it is not preset under `P`; a negative errno comes from
  -- $mflock_lock.
  abbrev pub LockOk : Type 0 → LockVar → Type 0
  LockOk P no_lock = Unit
  LockOk P (held id) = Unit
  LockOk P preset = P
  LockOk P (bad e) = LockFailed

  pub lock_error-LockOk :
      (P : Type 0) (w : os.World) (e : ℕ)
      → (locks.lock label w).0 ≡ failed e
      → LockOk P (lock_error (suc e))
  unfolding lock_error
  lock_error-LockOk P w e h = by_errno (suc e == 1) refl
    where
      by_errno : (b : Bool) → (suc e == 1) ≡ b → LockOk P (if b then no_lock else bad (suc e))
      by_errno true q = tt
      by_errno false q = (w, e, h, ground (arith, q))

  -- No lock or a lock number.
  abbrev pub NoError : LockVar → Type 0
  NoError no_lock = Unit
  NoError (held id) = Unit
  NoError _ = ⊥

  pub NoError-LockOk : (l : LockVar) → NoError l → LockOk ⊥ l
  NoError-LockOk no_lock h = tt
  NoError-LockOk (held id) h = tt
  NoError-LockOk preset h = h
  NoError-LockOk (bad e) h = absurd h
