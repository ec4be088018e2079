-- ===== src/Block/Round.antt =====
-- The first half of a round of the block loop of $b_write: cache, pointer, lock and buffer, none of
-- which changes a file.
use esfs.Base.{
  ℕ, zero, suc, ◌+◌, ◌≡◌, ◌≢◌, inl, inr, refl, sym, ◌∙◌, ap, subst, Option, none, some, arith, ◌==◌,
  Bool-cases,
}
use esfs.Os.{Disk, SameFile, Os, Locks, Ret, done, failed, blp_s}
use esfs.Types.{open_fd}
use esfs.Types.Errno.{enxio}
use esfs.Block.Calc.{map_offset}
use esfs.Block.State.{
  LockVar, no_lock, preset, held, bad, Buf, null, shared, own, Save, Flow, next, again, stop,
  set_world, skip_cached, skip_saved, pointer_read, skip_if_saved, got_lock, use_malloc,
}
use esfs.Block.Save.{read_pointer, take_lock, recheck, new_buffer, get_buffer}
use esfs.Block.Kept.{Kept, Later, Later-refl}

-- Where a piece leaves the loop's variables: going on, at `continue`, at `break`.
pub data Leaves {S A : Type 0} (N : A → S → Type 0) (C K : S → Type 0) : Flow S A → Type 0 where
  goes_on : {a : A} {s : S} → N a s → Leaves N C K (next a s)
  continues : {s : S} → C s → Leaves N C K (again s)
  breaks : {s : S} → K s → Leaves N C K (stop s)

module _ {S A B : Type 0} {N : A → S → Type 0} {N' : B → S → Type 0} {C K : S → Type 0} where
  pub after :
      (f : A → S → Flow S B) (r : Flow S A)
      → Leaves N C K r
      → ((a : A) (t : S) → N a t → Leaves N' C K (f a t))
      → Leaves N' C K (elim r [ next a t ↦ f a t | again t ↦ again t | stop t ↦ stop t ])
  after f (next a t) (goes_on n) k = k a t n
  after f (again t) (continues c) k = continues c
  after f (stop t) (breaks b) k = breaks b

module _ (os : Os) (locks : Locks os) (main map dat : os.Fd) (label : ℕ) where
  open os use {World, File, Fd, file, disk}
  open locks use {lock}

  -- The pointer of block `k`.
  abbrev pub pointer : Disk File → ℕ → ℕ
  pointer d k = d.word (file map) (map_offset k)

  -- The cached block, if there is one, has its pointer.
  abbrev pub CacheOk : ℕ → Disk File → Type 0
  CacheOk cache d = (k : ℕ) → cache ≡ k + 1 → pointer d k ≢ 0

  -- Variables and disk before the first write of a round.
  pub record Quiet (s t : Save World) : Type 0 where
    pub same : disk t.env.world ≡ disk s.env.world
    pub cache : t.cache ≡ s.cache
    pub waserror : t.waserror ≡ s.waserror

  -- No file but the map and dat files changed.
  abbrev pub Outside : Disk File → Disk File → Type 0
  Outside d d' = (g : File) → g ≢ file map → g ≢ file dat → SameFile d d' g

  -- What every way out of the loop keeps, but for a pointer written in part.
  pub record Moved (s t : Save World) : Type 0 where
    pub later : Later (file main) (file map) (file dat) (disk s.env.world) (disk t.env.world)
    pub kept :
        (size : ℕ) (orig : ℕ → ℕ)
        → Kept (file main) (file map) (file dat) size orig (disk s.env.world)
        → Kept (file main) (file map) (file dat) size orig (disk t.env.world)
    pub cached : CacheOk s.cache (disk s.env.world) → CacheOk t.cache (disk t.env.world)

  -- Going on with the next block: block `k` has its pointer.
  pub record Finished (s : Save World) (k : ℕ) (t : Save World) : Type 0 where
    pub moved : Moved s t
    pub waserror : t.waserror ≡ s.waserror
    pub has_pointer : pointer (disk t.env.world) k ≢ 0

  -- Leaving the loop. ENXIO is the error of a write that was not whole.
  pub record Broken (s t : Save World) : Type 0 where
    pub moved : t.waserror ≢ enxio → Moved s t
    pub outside : Outside (disk s.env.world) (disk t.env.world)
    pub waserror : t.waserror ≢ 0

  abbrev pub Round :
      {A : Type 0} → Save World → ℕ → (A → Save World → Type 0) → Flow (Save World) A → Type 0
  Round s k N r = Leaves N (Finished s k) (Broken s) r

  pub Moved-by :
      {s t : Save World}
      → disk t.env.world ≡ disk s.env.world
      → (CacheOk s.cache (disk s.env.world) → CacheOk t.cache (disk s.env.world))
      → Moved s t
  Moved-by {s} {t} e c = record {
    later =
        subst (λ d. Later (file main) (file map) (file dat) (disk s.env.world) d) (sym e)
          (Later-refl (file main) (file map) (file dat) (disk s.env.world));
    kept = λ size orig h. subst (λ d. Kept (file main) (file map) (file dat) size orig d) (sym e) h;
    cached = λ h. subst (λ d. CacheOk t.cache d) (sym e) (c h);
  }

  pub Quiet-Moved : {s t : Save World} → Quiet s t → Moved s t
  Quiet-Moved {s} {t} q =
      Moved-by q.same (λ h. subst (λ c. CacheOk c (disk s.env.world)) (sym q.cache) h)

  pub Quiet-Broken :
      {s t : Save World} → Quiet s t → (e : ℕ) → Broken s (record t { waserror = suc e })
  Quiet-Broken q e = record {
    moved =
        λ _. let m = Quiet-Moved q in record { later = m.later; kept = m.kept; cached = m.cached };
    outside = (Quiet-Moved q).later.others;
    waserror = omega arith;
  }

  Quiet-refl : (s : Save World) → Quiet s s
  Quiet-refl s = record { same = refl; cache = refl; waserror = refl }

  pub Quiet-world :
      {s t : Save World}
      → Quiet s t
      → (w : World) → disk w ≡ disk t.env.world
      → Quiet s (set_world t w)
  Quiet-world q w e = record { same = e ∙ q.same; cache = q.cache; waserror = q.waserror }

  pub skip_cached-Round :
      (s : Save World) (k : ℕ)
      → CacheOk s.cache (disk s.env.world)
      → Round s k (λ _ t. Quiet s t) (skip_cached k s)
  unfolding skip_cached
  skip_cached-Round s k c = elim (Bool-cases (s.cache == k + 1)) [
    | inl e ↦ rw e (
        continues (record {
          moved = Quiet-Moved (Quiet-refl s);
          waserror = refl;
          has_pointer = c k (ground (arith, e));
        }))
    | inr e ↦ rw e (goes_on (Quiet-refl s))
  ]

  -- A pointer read from the map file is the pointer on the disk.
  abbrev pub Read : Save World → ℕ → ℕ → Save World → Type 0
  Read s k p t = Quiet s t × (p ≡ pointer (disk s.env.world) k)

  pointer_read-Round :
      {s t : Save World} (k : ℕ) (r : Ret) (p : ℕ)
      → Quiet s t
      → (r ≡ done blp_s → p ≡ pointer (disk s.env.world) k)
      → (r ≡ done 0 → pointer (disk s.env.world) k ≡ 0)
      → Round s k (Read s k) (pointer_read r p t)
  unfolding pointer_read
  pointer_read-Round k (done n) p q full eof = elim (Bool-cases (n == blp_s)) [
    | inl e ↦ rw e (goes_on (q, full (ground (arith, e))))
    | inr e ↦ elim (Bool-cases (n == 0)) [
      | inl z ↦ rw (e, z) (goes_on (q, sym (eof (ground (arith, z)))))
      | inr z ↦ rw (e, z) (breaks (Quiet-Broken q _))
    ]
  ]
  pointer_read-Round k (failed e) p q full eof = breaks (Quiet-Broken q e)

  pub read_pointer-Round :
      {s t : Save World} (k : ℕ)
      → Quiet s t
      → Round s k (Read s k) (read_pointer os locks (open_fd map) (map_offset k) t)
  unfolding read_pointer
  read_pointer-Round {s} {t} k q =
      let o = map_offset k in
      let w = t.env.world in
      pointer_read-Round k (os.pread_pointer map o w).0 (os.pread_pointer map o w).1
        (Quiet-world q (os.pread_pointer map o w).2 (os.pread_pointer_disk map o w))
        (λ e. os.pread_pointer_full map o w e ∙ ap (λ d. pointer d k) q.same)
        (λ e. ap (λ d. pointer d k) (sym q.same) ∙ os.pread_pointer_eof map o w e)

  abbrev pub Unsaved : Save World → ℕ → Save World → Type 0
  Unsaved s k t = Quiet s t × (pointer (disk s.env.world) k ≡ 0)

  -- The same ways out from a state that is still quiet.
  leave_saved :
      (s t : Save World) (k : ℕ) → Quiet s t → pointer (disk s.env.world) k ≢ 0 → Finished s k t
  leave_saved s t k q h = record {
    moved = Quiet-Moved q;
    waserror = q.waserror;
    has_pointer = λ z. h (ap (λ d. pointer d k) (sym q.same) ∙ z);
  }

  pub skip_saved-Round :
      (s t : Save World) (k p : ℕ)
      → Read s k p t
      → Round s k (λ _ u. Unsaved s k u) (skip_saved k p t)
  unfolding skip_saved
  skip_saved-Round s t k p (q, r) = elim (Bool-cases (p == 0)) [
    | inl e ↦ rw e (goes_on (q, ground (arith, e)))
    | inr e ↦
        let no_zero : pointer (disk s.env.world) k ≢ 0 = ground (arith, e) in
        rw e (
          continues (record {
            moved =
                Moved-by q.same
                  (λ h j m z. no_zero (ap (pointer (disk s.env.world)) (omega arith) ∙ z));
            waserror = q.waserror;
            has_pointer = (leave_saved s t k q no_zero).has_pointer;
          }))
  ]

  skip_if_saved-Round :
      (s t : Save World) (k p : ℕ)
      → Read s k p t
      → Round s k (λ _ u. Unsaved s k u) (skip_if_saved p t)
  unfolding skip_if_saved
  skip_if_saved-Round s t k p (q, r) = elim (Bool-cases (p == 0)) [
    | inl e ↦ rw e (goes_on (q, ground (arith, e)))
    | inr e ↦ rw e (continues (leave_saved s t k q (ground (arith, e))))
  ]

  got_lock-Round :
      (s t : Save World) (k : ℕ) (r : Ret) → Quiet s t → Round s k (λ _ u. Quiet s u) (got_lock r t)
  unfolding got_lock
  got_lock-Round s t k (done id) q =
      goes_on (record { same = q.same; cache = q.cache; waserror = q.waserror })
  got_lock-Round s t k (failed e) q = breaks (record {
    moved =
        λ _. let m = Quiet-Moved q in record { later = m.later; kept = m.kept; cached = m.cached };
    outside = (Quiet-Moved q).later.others;
    waserror = omega arith;
  })

  take_lock-Round :
      (s t : Save World) (k : ℕ)
      → Quiet s t
      → Round s k (λ _ u. Quiet s u) (take_lock os locks label t)
  unfolding take_lock
  take_lock-Round s t k q =
      got_lock-Round s (set_world t (lock label t.env.world).1) k (lock label t.env.world).0
        (Quiet-world q (lock label t.env.world).1 (locks.lock_disk label t.env.world))

  pub recheck-Round :
      (s t : Save World) (k : ℕ) (l : LockVar)
      → Unsaved s k t
      → Round s k (λ _ u. Unsaved s k u) (recheck os locks l label (open_fd map) (map_offset k) t)
  unfolding recheck
  recheck-Round s t k no_lock (q, z) =
      after _ (take_lock os locks label t) (take_lock-Round s t k q) λ _ u q'.
        after _ (read_pointer os locks (open_fd map) (map_offset k) u) (read_pointer-Round k q')
          λ p v r. skip_if_saved-Round s v k p r
  recheck-Round s t k preset u = goes_on u
  recheck-Round s t k (held id) u = goes_on u
  recheck-Round s t k (bad e) u = goes_on u

  use_malloc-Round :
      (s t : Save World) (k : ℕ) (b : Option (ℕ → ℕ))
      → Unsaved s k t
      → Round s k (λ _ u. Unsaved s k u) (use_malloc b t)
  unfolding use_malloc
  use_malloc-Round s t k none (q, z) = breaks (Quiet-Broken q _)
  use_malloc-Round s t k (some b) (q, z) =
      goes_on (record { same = q.same; cache = q.cache; waserror = q.waserror }, z)

  new_buffer-Round :
      (s t : Save World) (k : ℕ) (l : LockVar)
      → Unsaved s k t
      → Round s k (λ _ u. Unsaved s k u) (new_buffer os locks l t)
  unfolding new_buffer
  new_buffer-Round s t k (held zero) (q, z) =
      goes_on (record { same = q.same; cache = q.cache; waserror = q.waserror }, z)
  new_buffer-Round s t k other (q, z) =
      use_malloc-Round s (set_world t (os.malloc t.env.world).1) k (os.malloc t.env.world).0
        (Quiet-world q (os.malloc t.env.world).1 (os.malloc_disk t.env.world), z)

  pub get_buffer-Round :
      (s t : Save World) (k : ℕ)
      → Unsaved s k t
      → Round s k (λ _ u. Unsaved s k u) (get_buffer os locks t)
  unfolding get_buffer
  get_buffer-Round s t k u = by_buf t.buf refl
    where
      by_buf :
          (b : Buf)
          → t.buf ≡ b
          → Round s k
              (λ _ v. Unsaved s k v)
              (elim t.buf [ null ↦ new_buffer os locks t.lock t | _ ↦ next tt t ])
      by_buf null e = rw e (new_buffer-Round s t k t.lock u)
      by_buf shared e = rw e (goes_on u)
      by_buf own e = rw e (goes_on u)
