-- ===== src/Block/Reading.antt =====
-- $b_read returns the bytes of the view.

use esfs.Base.{
  ℕ, zero, suc, ◌+◌, ◌-◌, ◌*◌, ◌/◌, ◌%◌, ◌^◌, ◌≤◌, ◌<◌, ◌≡◌, ◌≢◌, ◌⊎◌, inl, inr, refl, sym, ◌∙◌, ap,
  ap₂, subst, true, false, ◌&&◌, arith, ltb, leb, ◌==◌, Bool-cases, sub64,
}
use esfs.Os.{Os, Locks, Ret, done, failed, blp_s}
use esfs.Types.{StepFd, opened, unused, notopen, main_space, SnStep}
use esfs.Block.Calc.{bl_s, map_offset}
use esfs.Block.State.{LockVar, no_lock, preset, held, bad, lock_error, Flow, next, again, stop}
use esfs.Block.Round.{Leaves, goes_on, continues, breaks, after}
use esfs.Block.Read.{
  Reading, copy_from, copy_length, fill_at, put_world, lock_taken, step_read, copy_done, lock_step,
  map_pointer, nonzero, copy_bytes, try_step,
}
use esfs.Block.Locking.{LockOk, lock_error-LockOk, NoError, NoError-LockOk}
use esfs.Block.View.{pointer_in, byte_in, from_block, view}

-- Where the loop over the blocks stands, with `n` blocks left from block `k`, and `copyto` bytes of
-- `size` copied.
pub record Position (off size n k copyto : ℕ) : Type 0 where
  pub ended : n ≡ 0 → copyto ≡ size
  pub started : n ≢ 0 → copyto ≡ 0 → (k * bl_s ≤ off) × (off < (k + 1) * bl_s)
  pub running : n ≢ 0 → copyto ≢ 0 → k * bl_s ≡ off + copyto
  pub last : n ≢ 0 → ((k + n - 1) * bl_s < off + size) × (off + size ≤ (k + n) * bl_s)

-- The part of a block that is copied lies in the block, follows what was copied before, and the
-- position after it is that of the next block.
pub copy_length_lem :
    (off size n k copyto : ℕ)
    → 0 < size
    → off + size < 2 ^ 63
    → Position off size (suc n) k copyto
    → let from = copy_from k copyto off in
      let len = copy_length (suc n) k copyto off size in
      (k * bl_s + from ≡ off + copyto)
      × (0 < len)
      × (from + len ≤ bl_s)
      × (copyto + len ≤ size)
      × ((n ≡ 0 → copyto + len ≡ size) × (n ≢ 0 → (k + 1) * bl_s ≡ off + (copyto + len)))
unfolding copy_length copy_from sub64
copy_length_lem off size n k copyto pos h p =
    ground (arith, p.started (omega arith), p.running (omega arith), p.last (omega arith))

weaken :
    {S A : Type 0} {N N' : A → S → Type 0} {C K : S → Type 0} (r : Flow S A)
    → Leaves N C K r
    → ((a : A) (t : S) → N a t → N' a t)
    → Leaves N' C K r
weaken (next a t) (goes_on n) f = goes_on (f a t n)
weaken (again t) (continues c) f = continues c
weaken (stop t) (breaks b) f = breaks b

pub fill_at_in :
    (old : ℕ → ℕ) (o n : ℕ) (new : ℕ → ℕ) (j : ℕ) → j < n → fill_at old o n new (o + j) ≡ new j
fill_at_in old o n new j h =
    let inside : (leb o (o + j) && ltb (o + j) (o + n)) ≡ true = ground arith in
    rw inside (ap new (omega arith))

fill_at_out :
    (old : ℕ → ℕ) (o n : ℕ) (new : ℕ → ℕ) (i : ℕ)
    → (i < o) ⊎ (o + n ≤ i)
    → fill_at old o n new i ≡ old i
fill_at_out old o n new i h =
    let outside : (leb o i && ltb i (o + n)) ≡ false = ground arith in rw outside

module _ (os : Os) (locks : Locks os) (steps : ℕ → SnStep os.Fd) (label : ℕ) where
  open os use {World, File, Fd, file, disk}

  -- `len` bytes from `o` on were put at `copyto`, and nothing else changed in the buffer.
  pub record Filled (o copyto len level : ℕ) (s t : Reading World) : Type 0 where
    pub same : disk t.world ≡ disk s.world
    pub data_read :
        (j : ℕ) → j < len → t.buf (copyto + j) ≡ view os steps (disk s.world) level (o + j)
    pub outside : (i : ℕ) → (i < copyto) ⊎ (copyto + len ≤ i) → t.buf i ≡ s.buf i
    pub lock : NoError os locks label t.lock

  -- Nothing but the lock and the system's state changed.
  pub record Still (s t : Reading World) : Type 0 where
    pub same : disk t.world ≡ disk s.world
    pub buf : t.buf ≡ s.buf
    pub lock : NoError os locks label t.lock

  pub Still-refl : (s : Reading World) → NoError os locks label s.lock → Still s s
  Still-refl s l = record { same = refl; buf = refl; lock = l }

  module _ (s : Reading World) where
    -- After an error the lock variable is that of a lock that failed, if it is an error.
    abbrev pub Failed : Reading World → Type 0
    Failed t = LockOk os locks label ⊥ t.lock

    Still-Failed : (t : Reading World) → Still s t → Failed t
    Still-Failed t q = NoError-LockOk os locks label t.lock q.lock

    lock_taken-Still :
        {C : Reading World → Type 0} (t : Reading World) (r : Ret)
        → Still s t
        → ((e : ℕ) → r ≡ failed e → LockOk os locks label ⊥ (lock_error (suc e)))
        → Leaves (λ _ u. Still s u) C Failed (lock_taken r t)
    unfolding lock_taken
    lock_taken-Still t (done id) q l = goes_on (record { same = q.same; buf = q.buf; lock = tt })
    lock_taken-Still t (failed e) q l = breaks (l e refl)

    lock_step-Still :
        {C : Reading World → Type 0} (sni : ℕ) (l : LockVar) (t : Reading World)
        → Still s t
        → Leaves (λ _ u. Still s u) C Failed (lock_step os locks sni l label t)
    unfolding lock_step
    lock_step-Still sni no_lock t q = elim (Bool-cases (leb sni 1)) [
      | inl e ↦
          let (r, w) = locks.lock label t.world in
          rw e (
            lock_taken-Still (put_world t w) r
              (record { same = locks.lock_disk label t.world ∙ q.same; buf = q.buf; lock = q.lock })
              (λ x h. lock_error-LockOk os locks label ⊥ t.world x h))
      | inr e ↦ rw e (goes_on q)
    ]
    lock_step-Still sni preset t q = goes_on q
    lock_step-Still sni (held id) t q = goes_on q
    lock_step-Still sni (bad e) t q = goes_on q

    step_read-Still :
        {C : Reading World → Type 0} (t : Reading World) (r : Ret) (p want : ℕ)
        → Still s t
        → (r ≡ done blp_s → p ≡ want)
        → (r ≡ done 0 → want ≡ 0)
        → Leaves (λ v u. Still s u × (v ≡ want)) C Failed (step_read r p t)
    unfolding step_read
    step_read-Still t (done n) p want q full eof = elim (Bool-cases (n == blp_s)) [
      | inl e ↦ rw e (goes_on (q, full (ground (arith, e))))
      | inr e ↦ elim (Bool-cases (n == 0)) [
        | inl z ↦ rw (e, z) (goes_on (q, sym (eof (ground (arith, z)))))
        | inr z ↦ rw (e, z) (breaks (Still-Failed t q))
      ]
    ]
    step_read-Still t (failed e) p want q full eof = breaks (Still-Failed t q)

    -- At a step without the block, its pointer on the disk is 0.
    map_pointer-Still :
        (t : Reading World) (m : StepFd Fd) (k : ℕ)
        → Still s t
        → Leaves
            (λ v u. Still s u × (v ≡ pointer_in os (disk s.world) m k))
            (λ u. Still s u × (pointer_in os (disk s.world) m k ≡ 0))
            Failed
            (map_pointer os locks m (map_offset k) t)
    unfolding map_pointer
    map_pointer-Still t (opened fd) k q =
        let o = map_offset k in
        let w = t.world in
        step_read-Still (put_world t (os.pread_pointer fd o w).2) (os.pread_pointer fd o w).0
          (os.pread_pointer fd o w).1 ((disk s.world).word (file fd) o)
          (record { same = os.pread_pointer_disk fd o w ∙ q.same; buf = q.buf; lock = q.lock })
          (λ e. os.pread_pointer_full fd o w e ∙ ap (λ d. d.word (file fd) o) q.same)
          (λ e. ap (λ d. d.word (file fd) o) (sym q.same) ∙ os.pread_pointer_eof fd o w e)
    map_pointer-Still t unused k q = continues (q, refl)
    map_pointer-Still t notopen k q = continues (q, refl)
    map_pointer-Still t main_space k q = continues (q, refl)

    -- `len` bytes of an open file, from `at` on, put at `copyto`.
    record Got (datfd : StepFd Fd) (copyto len at : ℕ) (t : Reading World) : Type 0 where
      same : disk t.world ≡ disk s.world
      data_read : (j : ℕ) → j < len → t.buf (copyto + j) ≡ byte_in os (disk s.world) datfd (at + j)
      outside : (i : ℕ) → (i < copyto) ⊎ (copyto + len ≤ i) → t.buf i ≡ s.buf i
      lock : NoError os locks label t.lock

    copy_done-Got :
        {C : Reading World → Type 0} (t : Reading World) (datfd : StepFd Fd) (copyto len at : ℕ)
        (r : Ret) (d : ℕ → ℕ)
        → Still s t
        → ((n j : ℕ) → r ≡ done n → j < n → d j ≡ byte_in os (disk s.world) datfd (at + j))
        → Leaves (λ _ u. Got datfd copyto len at u) C Failed (copy_done copyto len r d t)
    unfolding copy_done
    copy_done-Got t datfd copyto len at (failed e) d q bytes = breaks (Still-Failed t q)
    copy_done-Got t datfd copyto len at (done n) d q bytes = elim (Bool-cases (n == len)) [
      | inl e ↦
          let full : n ≡ len = ground (arith, e) in
          rw e (
            goes_on (record {
              same = q.same;
              data_read = λ j h.
                  let h' : j < n = omega arith in
                  fill_at_in t.buf copyto n d j h' ∙ bytes n j refl h';
              outside = λ i h.
                  fill_at_out t.buf copyto n d i
                    (subst (λ m. (i < copyto) ⊎ (copyto + m ≤ i)) (sym full) h)
                  ∙ ap (λ b. b i) q.buf;
              lock = q.lock;
            }))
      | inr e ↦ rw e (breaks (Still-Failed t q))
    ]

    copy_bytes-Got :
        {C : Reading World → Type 0} (t : Reading World) (datfd : StepFd Fd) (copyto len at : ℕ)
        → Still s t
        → Leaves
            (λ _ u. Got datfd copyto len at u)
            C
            Failed
            (copy_bytes os locks datfd copyto len at t)
    unfolding copy_bytes
    copy_bytes-Got t (opened fd) copyto len at q =
        let w = t.world in
        copy_done-Got (put_world t (os.pread fd len at w).2) (opened fd) copyto len at
          (os.pread fd len at w).0 (os.pread fd len at w).1
          (record { same = os.pread_disk fd len at w ∙ q.same; buf = q.buf; lock = q.lock })
          (λ n j e h.
            os.pread_bytes fd len at w n j e h ∙ ap (λ d. d.byte (file fd) (at + j)) q.same)
    copy_bytes-Got t unused copyto len at q = breaks (Still-Failed t q)
    copy_bytes-Got t notopen copyto len at q = breaks (Still-Failed t q)
    copy_bytes-Got t main_space copyto len at q = breaks (Still-Failed t q)

    nonzero-Still :
        (t : Reading World) (p : ℕ) (z : ℕ)
        → Still s t × (p ≡ z)
        → Leaves (λ q u. Still s u × (z ≡ suc q)) (λ u. Still s u × (z ≡ 0)) Failed (nonzero p t)
    unfolding nonzero
    nonzero-Still t zero z (q, e) = continues (q, sym e)
    nonzero-Still t (suc p) z (q, e) = goes_on (q, sym e)

    module _ (ok : NoError os locks label s.lock) (k from copyto len : ℕ)
        (fits : from + len ≤ bl_s) where
      abbrev pub start : ℕ
      start = k * bl_s + from

      pub view-pointer :
          (n p j : ℕ)
          → pointer_in os (disk s.world) (steps (suc n)).mapfd k ≡ p
          → j < len
          → view os steps (disk s.world) (suc n) (start + j)
            ≡ from_block os
                (disk s.world)
                (steps (suc n)).datfd
                p
                (from + j)
                (view os steps (disk s.world) n (start + j))
      unfolding view
      view-pointer n p j e h =
          let block : (start + j) / bl_s ≡ k = omega arith in
          let inside : (start + j) % bl_s ≡ from + j = omega arith in
          ap₂
            (λ b i.
              from_block os (disk s.world) (steps (suc n)).datfd
                (pointer_in os (disk s.world) (steps (suc n)).mapfd b) i
                (view os steps (disk s.world) n (start + j)))
            block inside
          ∙ ap
              (λ q.
                from_block os (disk s.world) (steps (suc n)).datfd q (from + j)
                  (view os steps (disk s.world) n (start + j)))
              e

      pub try_main-Filled :
          Leaves
            (λ _ u. Filled start copyto len 0 s u)
            (λ _. ⊥)
            Failed
            (try_step os locks zero (steps 0) label k from copyto len s)
      unfolding try_step view
      try_main-Filled = after _ _ (lock_step-Still zero s.lock s (Still-refl s ok)) λ _ t q.
          weaken _ (copy_bytes-Got t (steps 0).datfd copyto len (from + k * bl_s) q) λ _ u g.
            record {
              same = g.same;
              data_read = λ j h.
                  g.data_read j h ∙ ap (byte_in os (disk s.world) (steps 0).datfd) (omega arith);
              outside = g.outside;
              lock = g.lock;
            }

      -- At a snapshot the block is found there, or it has no pointer there.
      pub try_snapshot-Filled :
          (n : ℕ)
          → Leaves
              (λ _ u. Filled start copyto len (suc n) s u)
              (λ u. Still s u × (pointer_in os (disk s.world) (steps (suc n)).mapfd k ≡ 0))
              Failed
              (try_step os locks (suc n) (steps (suc n)) label k from copyto len s)
      unfolding try_step
      try_snapshot-Filled n =
          let m = (steps (suc n)).mapfd in
          after _ _ (lock_step-Still (suc n) s.lock s (Still-refl s ok)) λ _ t q.
            after _ _ (map_pointer-Still t m k q) λ p u q.
              after _ _ (nonzero-Still u p (pointer_in os (disk s.world) m k) q) λ p v q.
                weaken _ (copy_bytes-Got v (steps (suc n)).datfd copyto len (from + p * bl_s) q.0)
                  λ _ x g. record {
                    same = g.same;
                    data_read = λ j h.
                        g.data_read j h
                        ∙ ap (byte_in os (disk s.world) (steps (suc n)).datfd) (omega arith)
                        ∙ sym (view-pointer n (suc p) j q.1 h);
                    outside = g.outside;
                    lock = g.lock;
                  }
