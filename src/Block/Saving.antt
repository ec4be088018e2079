-- ===== src/Block/Saving.antt =====
-- What $b_write promises: the snapshot keeps its content on every way out but after a write that
-- was not whole, and success means that the blocks to be overwritten are saved.
use Prim.Native.Nat.{min}
use esfs.Base.{
  ℕ, zero, suc, ◌+◌, ◌-◌, ◌*◌, ◌/◌, ◌^◌, ◌≤◌, ◌<◌, ◌≡◌, ◌≢◌, inl, inr, refl, sym, ◌∙◌, ap, subst,
  Option, none, some, Bool, true, false, arith, ltb, ◌==◌, if◌then◌else◌, Bool-cases,
}
use mathlib.Core.Option.{some_inj}
use esfs.Os.{Disk, SameFile, Os, Locks, Ret, done, failed}
use esfs.Types.Errno.{enxio}
use esfs.Types.{Result, ret, err, minus, Mfd, open_fd}
use esfs.Block.Calc.{bl_s, trim_size, trim_size_lem, calc_blocks, calc_blocks-covers}
use esfs.Block.State.{
  LockVar, no_lock, preset, held, bad, Buf, null, shared, own, Env, Save, set_world, free_buf,
  unlocked,
}
use esfs.Block.Save.{
  save_blocks, release, start, finish, save_range, save_trimmed, b_write_to, b_write, b_truncate,
}
use esfs.Block.Kept.{Kept, SameFile-refl, Later, Later-refl}
use esfs.Block.Round.{pointer, CacheOk, Moved, Outside}
use esfs.Block.Loop.{Looped, save_blocks-Looped}

-- A handle for writing in a file system with snapshots: its map and dat files are open, and they
-- and the main file are three files.
pub record IsOpen (os : Os) (mfd : Mfd os.Fd) (map dat : os.Fd) : Type 0 where
  pub mapfd : mfd.mapfd ≡ open_fd map
  pub datfd : mfd.datfd ≡ open_fd dat
  pub apart :
      (os.file mfd.mainfd ≢ os.file map)
      × (os.file mfd.mainfd ≢ os.file dat)
      × (os.file map ≢ os.file dat)

-- Sizes and offsets are those of files: below 2^63.
abbrev pub InRange : ℕ → ℕ → ℕ → Type 0
InRange sn_size offset size = (offset + size < 2 ^ 63) × (sn_size < 2 ^ 63)

module _ (os : Os) (locks : Locks os) (mfd : Mfd os.Fd) (map dat : os.Fd) where
  open os use {World, File, Fd, file, disk}

  abbrev main : Fd
  main = mfd.mainfd

  abbrev label : ℕ
  label = mfd.locklabel

  abbrev sn_size : ℕ
  sn_size = mfd.mapheader.fstat.st_size

  -- The handle's cache is true of the disk.
  abbrev pub CacheIsOk : Mfd Fd → Disk File → Type 0
  CacheIsOk m d = CacheOk os locks main map dat label m.latest_written_block_cache d

  -- The outcome of $b_write, asked to save `size` bytes from `offset`. After -ENXIO a pointer may have
  -- been written in part.
  pub record Secured (offset size : ℕ) (env : Env World) (r : Result) (mfd' : Mfd Fd)
      (env' : Env World) : Type 0 where
    pub later :
        r ≢ err enxio → Later (file main) (file map) (file dat) (disk env.world) (disk env'.world)
    pub kept :
        r ≢ err enxio
        → (orig : ℕ → ℕ) → Kept (file main) (file map) (file dat) sn_size orig (disk env.world)
        → Kept (file main) (file map) (file dat) sn_size orig (disk env'.world)
    pub cached : r ≢ err enxio → CacheIsOk mfd' (disk env'.world)
    pub outside : Outside os locks main map dat label (disk env.world) (disk env'.world)
    pub handle : mfd' ≡ record mfd { latest_written_block_cache = mfd'.latest_written_block_cache }
    pub pointers :
        r ≡ ret 0
        → (o : ℕ) → offset ≤ o
        → o < offset + size
        → o < sn_size
        → pointer os locks main map dat label (disk env'.world) (o / bl_s) ≢ 0

  record Released (s t : Save World) : Type 0 where
    same : disk t.env.world ≡ disk s.env.world
    cache : t.cache ≡ s.cache
    waserror : t.waserror ≡ 0 → s.waserror ≡ 0
    whole : t.waserror ≢ enxio → s.waserror ≢ enxio

  free_buf-same :
      (b : Buf) (s : Save World)
      → (disk (free_buf b s).env.world ≡ disk s.env.world)
        × ((free_buf b s).cache ≡ s.cache)
        × ((free_buf b s).waserror ≡ s.waserror)
  unfolding free_buf
  free_buf-same null s = (refl, refl, refl)
  free_buf-same shared s = (refl, refl, refl)
  free_buf-same own s = (refl, refl, refl)

  unlocked-Released : (r : Ret) (s : Save World) → Released s (unlocked r s)
  unfolding unlocked
  unlocked-Released (done n) s = record {
    same = refl;
    cache = refl;
    waserror = λ h. h;
    whole = λ h. h;
  }
  unlocked-Released (failed e) s =
      let u = record s { waserror = if s.waserror == 0 then suc e else s.waserror } in
      let f = free_buf-same s.buf u in
      record {
        same = f.0;
        cache = f.1;
        waserror = λ h. ground (arith, h, f.2);
        whole = λ h z. h (f.2 ∙ ground (arith, z));
      }

  Released-refl : (s : Save World) → Released s s
  Released-refl s = record { same = refl; cache = refl; waserror = λ h. h; whole = λ h. h }

  release-Released : (l : LockVar) (s t : Save World) → release os locks l s ≡ some t → Released s t
  unfolding release
  release-Released (held id) s t e =
      let (r, w) = locks.unlock id s.env.world in
      let u = unlocked-Released r (set_world s w) in
      subst (λ v. Released s v) (some_inj.0 e)
        (record {
          same = u.same ∙ locks.unlock_disk id s.env.world;
          cache = u.cache;
          waserror = u.waserror;
          whole = u.whole;
        })
  release-Released no_lock s t e = subst (λ v. Released s v) (some_inj.0 e) (Released-refl s)
  release-Released preset s t e = cc
  release-Released (bad n) s t e = cc

  ended-Released :
      (has_lock : Bool) (s t : Save World)
      → (if has_lock then some s else release os locks s.lock s) ≡ some t
      → Released s t
  ended-Released true s t e = subst (λ v. Released s v) (some_inj.0 e) (Released-refl s)
  ended-Released false s t e = release-Released s.lock s t e

  minus-eq-zero : (e : ℕ) → minus e ≡ ret 0 → e ≡ 0
  minus-eq-zero zero h = refl
  minus-eq-zero (suc e) h = cc

  minus-enxio : (e : ℕ) → minus e ≢ err enxio → e ≢ enxio
  minus-enxio e h z = h (ap minus z)

  -- A handle left with nothing done.
  idle :
      (offset size : ℕ) (env : Env World)
      → CacheIsOk mfd (disk env.world)
      → (offset < offset + size → sn_size ≤ offset)
      → Secured offset size env (ret 0) mfd env
  idle offset size env c h = record {
    later = λ _. Later-refl (file main) (file map) (file dat) (disk env.world);
    kept = λ _ orig k. k;
    cached = λ _. c;
    outside = λ g p q. SameFile-refl (disk env.world) g;
    handle = refl;
    pointers = λ _ o a b l. absurd (omega (arith, h (omega arith)));
  }

  module _ (is : IsOpen os mfd map dat) where
    save_range-Secured :
        (offset size size' : ℕ) (has_lock : Bool) (env : Env World) (r : Result) (mfd' : Mfd Fd)
        (env' : Env World)
        → InRange sn_size offset size
        → 0 < size'
        → offset + size' ≡ min (offset + size) sn_size
        → CacheIsOk mfd (disk env.world)
        → save_range os locks mfd dat offset size' has_lock env ≡ some (r, mfd', env')
        → Secured offset size env r mfd' env'
    unfolding save_range finish
    save_range-Secured offset size size' has_lock env r mfd' env' range pos trim c e =
        by_end (if has_lock then some t else release os locks t.lock t) refl e
      where
        s : Save World
        s = start os locks mfd has_lock env

        first : ℕ
        first = (calc_blocks offset size').0

        count : ℕ
        count = (calc_blocks offset size').1

        t : Save World
        t = save_blocks os locks main mfd.mapfd dat label count first s

        looped : Looped os locks main map dat label is.apart s first count t
        looped =
            subst
              (λ m.
                Looped os locks main map dat label is.apart s first count
                  (save_blocks os locks main m dat label count first s))
              (sym is.mapfd)
              (save_blocks-Looped os locks main map dat label is.apart count first s c refl)

        covers :
            (first * bl_s ≤ offset)
            × (offset < (first + 1) * bl_s)
            × ((first + count - 1) * bl_s < offset + size')
            × (offset + size' ≤ (first + count) * bl_s)
        covers = calc_blocks-covers offset size' pos (omega arith)

        at_end :
            (u : Save World)
            → Released t u
            → Secured offset size env
                (minus u.waserror)
                (record mfd { latest_written_block_cache = u.cache })
                u.env
        at_end u rel = record {
          later = λ h.
              subst (λ d. Later (file main) (file map) (file dat) (disk env.world) d) (sym rel.same)
                (moved h).later;
          kept = λ h orig k.
              subst (λ d. Kept (file main) (file map) (file dat) sn_size orig d) (sym rel.same)
                ((moved h).kept sn_size orig k);
          cached = λ h.
              subst (λ d. CacheOk os locks main map dat label u.cache d) (sym rel.same)
                (subst (λ n. CacheOk os locks main map dat label n (disk t.env.world))
                  (sym rel.cache) ((moved h).cached c));
          outside = λ g p q.
              subst (λ d. SameFile (disk env.world) d g) (sym rel.same) (looped.outside g p q);
          handle = refl;
          pointers = λ z o a b l.
              subst (λ d. pointer os locks main map dat label d (o / bl_s) ≢ 0) (sym rel.same)
                (looped.pointers (rel.waserror (minus-eq-zero u.waserror z)) (o / bl_s)
                  (omega (arith, covers)) (omega (arith, covers)));
        }
          where
            moved : minus u.waserror ≢ err enxio → Moved os locks main map dat label s t
            moved h = looped.moved (rel.whole (minus-enxio u.waserror h))

        by_end :
            (end : Option (Save World))
            → (if has_lock then some t else release os locks t.lock t) ≡ end
            → finish os locks mfd end ≡ some (r, mfd', env')
            → Secured offset size env r mfd' env'
        by_end none q h = cc
        by_end (some u) q h =
            subst (λ (x : Result × Mfd Fd × Env World). Secured offset size env x.0 x.1 x.2)
              (some_inj.0 h) (at_end u (ended-Released has_lock t u q))

    -- For a handle whose map and dat files are open and, with the main file, three different
    -- files, for a range and a snapshot size below 2^63 and a cache that is true of the disk:
    -- whatever $b_write returns but -ENXIO, other errors included, the content of the snapshot is
    -- kept, pointers are only added, the dat file only grows and the cache stays true. Whatever it
    -- returns, no file but the map and dat files changes, and the handle only in its cache. If it
    -- returns 0, every byte of the range below the size in the snapshot lies in a block with a
    -- pointer.
    pub b_write-Secured :
        (offset size : ℕ) (has_lock : Bool) (env : Env World) (r : Result) (mfd' : Mfd Fd)
        (env' : Env World)
        → InRange sn_size offset size
        → CacheIsOk mfd (disk env.world)
        → b_write os locks mfd size offset has_lock env ≡ some (r, mfd', env')
        → Secured offset size env r mfd' env'
    unfolding b_write b_write_to save_trimmed
    b_write-Secured offset size has_lock env r mfd' env' range c e = by_size (
        subst (λ m. b_write_to os locks m mfd size offset has_lock env ≡ some (r, mfd', env'))
          is.datfd e)
      where
        by_trim :
            0 < size
            → (m : Option ℕ) → trim_size sn_size offset size ≡ m
            → save_trimmed os locks mfd dat offset m has_lock env ≡ some (r, mfd', env')
            → Secured offset size env r mfd' env'
        by_trim pos none q h =
            subst (λ (x : Result × Mfd Fd × Env World). Secured offset size env x.0 x.1 x.2)
              (some_inj.0 h)
              (idle offset size env c
                (λ _. (trim_size_lem sn_size offset size range.0 range.1 pos).0 q))
        by_trim pos (some n) q h =
            let l = (trim_size_lem sn_size offset size range.0 range.1 pos).1 n q in
            save_range-Secured offset size n has_lock env r mfd' env' range l.0 l.1 c h

        by_size :
            b_write_to os locks (open_fd dat) mfd size offset has_lock env ≡ some (r, mfd', env')
            → Secured offset size env r mfd' env'
        by_size h = elim (Bool-cases (size == 0)) [
          | inl z ↦
              subst (λ (x : Result × Mfd Fd × Env World). Secured offset size env x.0 x.1 x.2)
                (some_inj.0 (rw z at h)) (idle offset size env c (λ l. absurd (ground (arith, z))))
          | inr z ↦ by_trim (ground (arith, z)) (trim_size sn_size offset size) refl (rw z at h)
        ]

    -- For a handle as in b_write-Secured, of a file that existed in the snapshot: whatever
    -- $b_truncate returns but -ENXIO, the content of the snapshot is kept, pointers are only
    -- added, the dat file only grows and the cache stays true. Whatever it returns, no file but
    -- the map and dat files changes, and the handle only in its cache. If it returns 0, every byte
    -- from the new size up to the size in the snapshot lies in a block with a pointer.
    pub b_truncate-Secured :
        (newsize : ℕ) (has_lock : Bool) (env : Env World) (r : Result) (mfd' : Mfd Fd)
        (env' : Env World)
        → InRange sn_size newsize 0
        → mfd.mapheader.exists ≡ 1
        → CacheIsOk mfd (disk env.world)
        → b_truncate os locks mfd newsize has_lock env ≡ some (r, mfd', env')
        → Secured newsize (sn_size - newsize) env r mfd' env'
    unfolding b_truncate
    b_truncate-Secured newsize has_lock env r mfd' env' range there c e =
        let exists : (mfd.mapheader.exists == 1) ≡ true = ground (arith, there) in
        elim (Bool-cases (ltb newsize sn_size)) [
          | inl l ↦
              b_write-Secured newsize (sn_size - newsize) has_lock env r mfd' env'
                (ground (arith, l)) c (rw (exists, l) at e)
          | inr l ↦
              subst
                (λ (x : Result × Mfd Fd × Env World).
                  Secured newsize (sn_size - newsize) env x.0 x.1 x.2)
                (some_inj.0 (rw (exists, l) at e))
                (idle newsize (sn_size - newsize) env c (λ _. ground (arith, l)))
        ]
