-- ===== src/Block/Seen.antt =====
-- The loops of $b_read: whatever it returns as read is the view of the snapshot.

use esfs.Base.{ℕ, zero, suc, ◌+◌, ◌*◌, ◌≤◌, ◌≡◌, refl, sym, ◌∙◌, ap}
use esfs.Os.{Os, Locks, Ret, done, failed}
use esfs.Types.{ret, err, SnStep}
use esfs.Block.Calc.{bl_s}
use esfs.Block.State.{LockVar, no_lock, preset, held, bad, Flow, next, again, stop}
use esfs.Block.Round.{Leaves, goes_on, continues, breaks, after}
use esfs.Block.Read.{
  Reading, Looked, copied, missed, returned, undefined, put_world, try_step, lock_released,
  found_block, found_error, look,
}
use esfs.Block.Locking.{LockFailed, LockOk, NoError}
use esfs.Block.View.{pointer_in, view}
use esfs.Block.Reading.{Filled, Still, Failed, view-pointer, try_main-Filled, try_snapshot-Filled}

module _ (os : Os) (locks : Locks os) where
  open os use {World, File, Fd, file, disk}

  -- How $b_read can end: it read what `P` says, or returns -errno, or the lock could not be
  -- released and it returns that errno with its sign lost, or the lock could not be taken and its
  -- behaviour is undefined.
  pub data Seen (label : ℕ) (P : Reading World → Type 0) : Looked World → Type 0 where
    seen : {t : Reading World} → P t → Seen label P (copied t)
    error : {t : Reading World} (e : ℕ) → Seen label P (returned (err e) t)
    unlock_error :
        {t : Reading World} (id e : ℕ) (w : World)
        → (locks.unlock id w).0 ≡ failed e
        → Seen label P (returned (ret (suc e)) t)
    undefined_lock : LockFailed os locks label → Seen label P undefined

  map-Seen :
      {label : ℕ} {P Q : Reading World → Type 0} (r : Looked World)
      → Seen label P r
      → ((t : Reading World) → P t → Q t)
      → Seen label Q r
  map-Seen (copied t) (seen p) f = seen (f t p)
  map-Seen (missed t) h f = elim h [ ]
  map-Seen (returned _ t) (error e) f = error e
  map-Seen (returned _ t) (unlock_error id e w h) f = unlock_error id e w h
  map-Seen undefined (undefined_lock h) f = undefined_lock h

  module _ (steps : ℕ → SnStep Fd) (label : ℕ) (k from copyto len : ℕ)
      (fits : from + len ≤ bl_s) where
    released-Seen :
        {P : Reading World → Type 0} (id : ℕ) (w : World) (r : Ret) (t : Reading World)
        (after : Looked World)
        → (locks.unlock id w).0 ≡ r
        → Seen label P after
        → Seen label P (lock_released r t after)
    unfolding lock_released
    released-Seen id w (done n) t after e p = p
    released-Seen id w (failed x) t after e p = unlock_error id x w e

    abbrev pub AtLevel : ℕ → Reading World → Reading World → Type 0
    AtLevel n s t = Filled os locks steps label (k * bl_s + from) copyto len n s t

    found_block-Seen :
        (n : ℕ) (s : Reading World) (l : LockVar) (t : Reading World)
        → NoError os locks label l
        → AtLevel n s t
        → Seen label (AtLevel n s) (found_block os locks l t)
    unfolding found_block
    found_block-Seen n s (held id) t ok f =
        released-Seen id t.world (locks.unlock id t.world).0
          (put_world t (locks.unlock id t.world).1) _ refl
          (seen (record {
            same = locks.unlock_disk id t.world ∙ f.same;
            data_read = f.data_read;
            outside = f.outside;
            lock = tt;
          }))
    found_block-Seen n s no_lock t ok f =
        seen (record { same = f.same; data_read = f.data_read; outside = f.outside; lock = f.lock })
    found_block-Seen n s preset t ok f = absurd ok
    found_block-Seen n s (bad e) t ok f = absurd ok

    found_error-Seen :
        {P : Reading World → Type 0} (l : LockVar) (t : Reading World)
        → LockOk os locks label ⊥ l
        → Seen label P (found_error os locks l t)
    unfolding found_error
    found_error-Seen (held id) t ok =
        released-Seen id t.world (locks.unlock id t.world).0
          (put_world t (locks.unlock id t.world).1) _ refl (error t.waserror)
    found_error-Seen no_lock t ok = error t.waserror
    found_error-Seen preset t ok = absurd ok
    found_error-Seen (bad e) t ok = undefined_lock ok

    -- A block without a pointer at a snapshot is that of the next later step.
    seen_below :
        (n : ℕ) (s u t : Reading World)
        → NoError os locks label s.lock
        → Still os locks steps label s u
        → pointer_in os (disk s.world) (steps (suc n)).mapfd k ≡ 0
        → AtLevel n u t
        → AtLevel (suc n) s t
    seen_below n s u t ok q z f = record {
      same = f.same ∙ q.same;
      data_read = λ j h.
          f.data_read j h
          ∙ ap (λ d. view os steps d n (k * bl_s + from + j)) q.same
          ∙ sym (view-pointer os locks steps label s ok k from copyto len fits n 0 j z h);
      outside = λ i h. f.outside i h ∙ ap (λ b. b i) q.buf;
      lock = f.lock;
    }

    pub look-Seen :
        (n : ℕ) (s : Reading World)
        → NoError os locks label s.lock
        → Seen label (AtLevel n s) (look os locks steps label k from copyto len (suc n) s)
    unfolding look
    look-Seen zero s ok =
        by_flow (try_step os locks zero (steps zero) label k from copyto len s)
          (try_main-Filled os locks steps label s ok k from copyto len fits)
      where
        by_flow :
            (r : Flow (Reading World) (Unit {0}))
            → Leaves (λ _ u. AtLevel zero s u) (λ _. ⊥) (Failed os locks steps label s) r
            → Seen label (AtLevel zero s) (elim r [
              | next _ t ↦ found_block os locks t.lock t
              | again t ↦ missed t
              | stop t ↦ found_error os locks t.lock t
            ])
        by_flow (next _ t) (goes_on f) = found_block-Seen zero s t.lock t f.lock f
        by_flow (again t) (continues f) = absurd f
        by_flow (stop t) (breaks f) = found_error-Seen t.lock t f
    look-Seen (suc n) s ok =
        by_flow (look-Seen n) (try_step os locks (suc n) (steps (suc n)) label k from copyto len s)
          (try_snapshot-Filled os locks steps label s ok k from copyto len fits n)
      where
        by_flow :
            ((u : Reading World)
              → NoError os locks label u.lock
              → Seen label (AtLevel n u) (look os locks steps label k from copyto len (suc n) u))
            → (r : Flow (Reading World) (Unit {0}))
            → Leaves
                (λ _ u. AtLevel (suc n) s u)
                (λ u.
                  Still os locks steps label s u
                  × (pointer_in os (disk s.world) (steps (suc n)).mapfd k ≡ 0))
                (Failed os locks steps label s)
                r
            → Seen label (AtLevel (suc n) s) (elim r [
              | next _ t ↦ found_block os locks t.lock t
              | again t ↦ look os locks steps label k from copyto len (suc n) t
              | stop t ↦ found_error os locks t.lock t
            ])
        by_flow ih (next _ t) (goes_on f) = found_block-Seen (suc n) s t.lock t f.lock f
        by_flow ih (again u) (continues f) =
            map-Seen _ (ih u f.0.lock) (λ t g. seen_below n s u t ok f.0 f.1 g)
        by_flow ih (stop t) (breaks f) = found_error-Seen t.lock t f
