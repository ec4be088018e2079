-- ===== src/Block/Contents.antt =====
-- $b_read as a whole: the part of the view that was asked for, cut at the size in the snapshot.
use Prim.Native.Nat.{min}
use esfs.Base.{
  ℕ, zero, suc, ◌+◌, ◌-◌, ◌*◌, ◌^◌, ◌≤◌, ◌<◌, ◌≡◌, ◌≢◌, inl, inr, refl, sym, ◌∙◌, ap, ap₂, subst,
  Option, none, some, arith, ◌==◌, Bool-cases,
}
use esfs.Os.{Os, Locks, failed}
use esfs.Types.{ret, err, SnStep, Mfd}
use esfs.Block.Calc.{bl_s, trim_size, trim_size_lem, calc_blocks, calc_blocks-covers}
use esfs.Block.State.{no_lock}
use esfs.Block.Read.{
  Reading, Looked, copied, missed, returned, undefined, copy_from, copy_length, to_int, look,
  rounds, read_blocks, read_trimmed, b_read,
}
use esfs.Block.Locking.{LockFailed, NoError}
use esfs.Block.View.{view}
use native.Mathlib.Decide.{dec_lt}
use esfs.Block.Reading.{Position, copy_length_lem, Filled}
use esfs.Block.Seen.{Seen, seen, error, unlock_error, undefined_lock, look-Seen, AtLevel}

module _ (os : Os) (locks : Locks os) where
  open os use {World, File, Fd, file, disk}

  -- `copied` bytes of the view at `off` stand at the front of the buffer, the rest of it and the
  -- disk are as they were in `s`.
  pub record Holding (steps : ℕ → SnStep Fd) (label level off count : ℕ) (s t : Reading World)
      : Type 0 where
    pub same : disk t.world ≡ disk s.world
    pub front : (j : ℕ) → j < count → t.buf j ≡ view os steps (disk s.world) level (off + j)
    pub rest : (i : ℕ) → count ≤ i → t.buf i ≡ s.buf i
    pub lock : NoError os locks label t.lock

  -- How $b_read ends: it returns `count` with these bytes in the buffer, or minus an errno. Where
  -- the lock cannot be released the errno is returned with its sign lost, and where it cannot be
  -- taken, for another reason than EPERM, the behaviour is undefined.
  pub data Ends (steps : ℕ → SnStep Fd) (label level off count : ℕ) (s : Reading World)
      : Looked World → Type 0 where
    all_read :
        {t : Reading World}
        → Holding steps label level off count s t
        → Ends steps label level off count s (returned (ret count) t)
    read_error :
        {t : Reading World} (e : ℕ) → Ends steps label level off count s (returned (err e) t)
    release_error :
        {t : Reading World} (id e : ℕ) (w : World)
        → (locks.unlock id w).0 ≡ failed e
        → Ends steps label level off count s (returned (ret (suc e)) t)
    no_lock_taken : LockFailed os locks label → Ends steps label level off count s undefined

  module _ (mfd : Mfd Fd) (level : ℕ) (first_file : mfd.sn_first_file ≡ some level) where
    next_block :
        (off size n k copyto : ℕ) (s t u : Reading World)
        → let from = copy_from k copyto off in
          let len = copy_length (suc n) k copyto off size in
          k * bl_s + from ≡ off + copyto
          → Holding mfd.sn_steps mfd.locklabel level off copyto s t
          → Filled os locks mfd.sn_steps mfd.locklabel (k * bl_s + from) copyto len level t u
          → Holding mfd.sn_steps mfd.locklabel level off (copyto + len) s u
    next_block off size n k copyto s t u e h f = record {
      same = f.same ∙ h.same;
      front = λ j l. elim (dec_lt j copyto) [
        | yes p ↦ f.outside j (inl p) ∙ h.front j p
        | no p ↦
            let i : ℕ = j - copyto in
            ap u.buf (omega arith)
            ∙ f.data_read i (omega arith)
            ∙ ap₂ (λ d o. view os mfd.sn_steps d level o) h.same (omega arith)
      ];
      rest = λ i l. f.outside i (inr l) ∙ h.rest i (omega arith);
      lock = f.lock;
    }

    next-Position :
        (off size n k copyto : ℕ)
        → 0 < size
        → off + size < 2 ^ 63
        → Position off size (suc n) k copyto
        → Position off size n (k + 1) (copyto + copy_length (suc n) k copyto off size)
    next-Position off size n k copyto pos small p =
        let l = copy_length_lem off size n k copyto pos small p in
        record {
          ended = l.4.0;
          started = λ a b. absurd (omega (arith, l.1));
          running = λ a b. l.4.1 a;
          last = λ a. omega (arith, p.last (omega arith));
        }

    to_int-lt : (n : ℕ) → n < 2 ^ 31 → to_int n ≡ ret n
    unfolding to_int
    to_int-lt n h = ground arith

    read_blocks-Ends :
        (off size n k copyto : ℕ) (s t : Reading World)
        → 0 < size
        → off + size < 2 ^ 63
        → size < 2 ^ 31
        → Position off size n k copyto
        → Holding mfd.sn_steps mfd.locklabel level off copyto s t
        → Ends mfd.sn_steps mfd.locklabel level off size s
            (read_blocks os locks mfd off size n k copyto t)
    unfolding read_blocks
    read_blocks-Ends off size zero k copyto s t pos small int p h =
        let all : copyto ≡ size = p.ended refl in
        subst (λ r. Ends mfd.sn_steps mfd.locklabel level off size s (returned r t))
          (sym (ap to_int all ∙ to_int-lt size int))
          (all_read (subst (λ c. Holding mfd.sn_steps mfd.locklabel level off c s t) all h))
    read_blocks-Ends off size (suc n) k copyto s t pos small int p h =
        by_look (read_blocks-Ends off size n (k + 1) (copyto + len))
          (look os locks mfd.sn_steps mfd.locklabel k from copyto len (rounds mfd.sn_first_file) t)
          (subst
            (λ f.
              Seen os locks mfd.locklabel
                (AtLevel os locks mfd.sn_steps mfd.locklabel k from copyto len l.2 level t)
                (look os locks mfd.sn_steps mfd.locklabel k from copyto len (rounds f) t))
            (sym first_file)
            (look-Seen os locks mfd.sn_steps mfd.locklabel k from copyto len l.2 level t h.lock))
      where
        from : ℕ
        from = copy_from k copyto off

        len : ℕ
        len = copy_length (suc n) k copyto off size

        l :
            (k * bl_s + from ≡ off + copyto)
            × (0 < len)
            × (from + len ≤ bl_s)
            × (copyto + len ≤ size)
            × ((n ≡ 0 → copyto + len ≡ size) × (n ≢ 0 → (k + 1) * bl_s ≡ off + (copyto + len)))
        l = copy_length_lem off size n k copyto pos small p

        by_look :
            ((s' u : Reading World)
              → 0 < size
              → off + size < 2 ^ 63
              → size < 2 ^ 31
              → Position off size n (k + 1) (copyto + len)
              → Holding mfd.sn_steps mfd.locklabel level off (copyto + len) s' u
              → Ends mfd.sn_steps mfd.locklabel level off size s'
                  (read_blocks os locks mfd off size n (k + 1) (copyto + len) u))
            → (r : Looked World)
            → Seen os locks mfd.locklabel
                (AtLevel os locks mfd.sn_steps mfd.locklabel k from copyto len l.2 level t)
                r
            → Ends mfd.sn_steps mfd.locklabel level off size s (elim r [
              | copied u ↦ read_blocks os locks mfd off size n (k + 1) (copyto + len) u
              | missed u ↦ read_blocks os locks mfd off size n (k + 1) (copyto + len) u
              | returned v u ↦ returned v u
              | undefined ↦ undefined
            ])
        by_look ih (copied u) (seen f) =
            ih s u pos small int (next-Position off size n k copyto pos small p)
              (next_block off size n k copyto s t u l.0 h f)
        by_look ih (missed u) f = elim f [ ]
        by_look ih (returned _ u) (error e) = read_error e
        by_look ih (returned _ u) (unlock_error id e w x) = release_error id e w x
        by_look ih undefined (undefined_lock x) = no_lock_taken x

    abbrev sn_size : ℕ
    sn_size = mfd.mapheader.fstat.st_size

    -- Reading `size` bytes at `off` of a file that a snapshot has, for a size below 2^31 and a
    -- range and a snapshot size below 2^63: $b_read returns the number of these bytes below the
    -- size in the snapshot, with exactly the bytes of the view in the buffer, the rest of the
    -- buffer and the disk unchanged; or it returns minus an errno; or, where the lock could not be
    -- released, that errno with its sign lost; or, if $mflock_lock can fail for the label of the
    -- handle with an error other than EPERM, its behaviour is undefined.
    pub b_read-Ends :
        (size off : ℕ) (buf : ℕ → ℕ) (w : World)
        → off + size < 2 ^ 63
        → sn_size < 2 ^ 63
        → size < 2 ^ 31
        → Ends mfd.sn_steps mfd.locklabel level off
            (min (off + size) sn_size - off)
            (record { world = w; buf = buf; lock = no_lock; waserror = 0 })
            (b_read os locks mfd size off buf w)
    unfolding b_read read_trimmed
    b_read-Ends size off buf w small file_small int = elim (Bool-cases (size == 0)) [
      | inl z ↦ rw z (nothing (ground (arith, z)))
      | inr z ↦ rw z (by_trim (ground (arith, z)) (trim_size sn_size off size) refl)
    ]
      where
        s : Reading World
        s = record { world = w; buf = buf; lock = no_lock; waserror = 0 }

        empty : Holding mfd.sn_steps mfd.locklabel level off 0 s s
        empty = record { same = refl; front = λ j h. elim h [ ]; rest = λ i h. refl; lock = tt }

        nothing :
            min (off + size) sn_size - off ≡ 0
            → Ends mfd.sn_steps mfd.locklabel level off
                (min (off + size) sn_size - off)
                s
                (returned (ret 0) s)
        nothing e =
            subst (λ c. Ends mfd.sn_steps mfd.locklabel level off c s (returned (ret 0) s)) (sym e)
              (all_read empty)

        by_trim :
            0 < size
            → (m : Option ℕ) → trim_size sn_size off size ≡ m
            → Ends mfd.sn_steps mfd.locklabel level off
                (min (off + size) sn_size - off)
                s
                (read_trimmed os locks mfd off m s)
        by_trim pos none q =
            nothing (omega (arith, (trim_size_lem sn_size off size small file_small pos).0 q))
        by_trim pos (some n) q =
            let l = (trim_size_lem sn_size off size small file_small pos).1 n q in
            let c = calc_blocks-covers off n l.0 (omega (arith, l.1)) in
            subst
              (λ r.
                Ends mfd.sn_steps mfd.locklabel level off r s
                  (read_trimmed os locks mfd off (some n) s))
              (omega (arith, l.1))
              (read_blocks-Ends off n (calc_blocks off n).1 (calc_blocks off n).0 0 s s l.0
                (omega (arith, l.1)) (omega (arith, l.1))
                (record {
                  ended = λ e. absurd (omega (arith, c, l.0));
                  started = λ a b. (c.0, c.1);
                  running = λ a b. absurd (b refl);
                  last = λ a. (c.2, c.3);
                })
                empty)
