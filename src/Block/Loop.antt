-- ===== src/Block/Loop.antt =====
-- The writes of a round of the block loop of $b_write, the round as a whole, and the loop.
use esfs.Base.{
  ℕ, zero, suc, ◌+◌, ◌*◌, ◌/◌, ◌≤◌, ◌<◌, ◌≡◌, ◌≢◌, inl, inr, refl, sym, ◌∙◌, ap, subst, arith, ◌==◌,
  Bool-cases,
}
use native.Mathlib.Decide.{ℕ_discrete}
use esfs.Os.{Disk, SameFile, WroteWord, Appended, Os, Locks, Ret, done, failed, blp_s}
use esfs.Types.Errno.{enxio}
use esfs.Types.{open_fd}
use esfs.Block.Calc.{bl_s, map_offset}
use esfs.Block.State.{Save, Flow, next, again, stop, set_world, bytes, wrote_all, set_cache}
use esfs.Block.Save.{recheck_lock, append_block, write_pointer, save_block, save_blocks}
use esfs.Block.Kept.{
  Kept, SameFile-refl, SameFile-trans, Later, Later-trans, Later-append, Kept-append, Later-word,
  Kept-word,
}
use esfs.Block.Round.{
  goes_on, continues, breaks, after, pointer, CacheOk, Moved, Finished, Broken, Outside, Round,
  Quiet-Broken, Quiet-world, skip_cached-Round, read_pointer-Round, skip_saved-Round, recheck-Round,
  get_buffer-Round, Moved-by,
}
use esfs.Block.Copy.{Sized, read_block-Round, dat_size-Round}

module _ (os : Os) (locks : Locks os) (main map dat : os.Fd) (label : ℕ)
    (apart : (os.file main ≢ os.file map)
      × (os.file main ≢ os.file dat)
      × (os.file map ≢ os.file dat)) where
  open os use {World, File, Fd, file, disk}

  abbrev Here :
      {A : Type 0} → Save World → ℕ → (A → Save World → Type 0) → Flow (Save World) A → Type 0
  Here = Round os locks main map dat label

  -- The block stands whole at the end of the dat file, and the rest of the disk is as before.
  record Stored (s : Save World) (k n : ℕ) (t : Save World) : Type 0 where
    later : Later (file main) (file map) (file dat) (disk s.env.world) (disk t.env.world)
    kept :
        (size : ℕ) (orig : ℕ → ℕ)
        → Kept (file main) (file map) (file dat) size orig (disk s.env.world)
        → Kept (file main) (file map) (file dat) size orig (disk t.env.world)
    cache : t.cache ≡ s.cache
    waserror : t.waserror ≡ s.waserror
    none_before : pointer os locks main map dat label (disk s.env.world) k ≡ 0
    none_yet : pointer os locks main map dat label (disk t.env.world) k ≡ 0
    room : n / bl_s * bl_s + bl_s ≤ (disk t.env.world).size (file dat)
    stored :
        (i : ℕ)
        → i < bl_s
        → k * bl_s + i < (disk s.env.world).size (file main)
        → (disk t.env.world).byte (file dat) (n / bl_s * bl_s + i)
          ≡ (disk s.env.world).byte (file main) (k * bl_s + i)

  cache-Later :
      {d d' : Disk File} (c : ℕ)
      → Later (file main) (file map) (file dat) d d'
      → CacheOk os locks main map dat label c d
      → CacheOk os locks main map dat label c d'
  cache-Later c l h k e z = h k e (sym (l.pointers k (h k e)) ∙ z)

  Moved-Later :
      {s t : Save World}
      → Later (file main) (file map) (file dat) (disk s.env.world) (disk t.env.world)
      → ((size : ℕ) (orig : ℕ → ℕ)
          → Kept (file main) (file map) (file dat) size orig (disk s.env.world)
          → Kept (file main) (file map) (file dat) size orig (disk t.env.world))
      → t.cache ≡ s.cache
      → Moved os locks main map dat label s t
  Moved-Later {s} {t} l kept e = record {
    later = l;
    kept = kept;
    cached = λ h.
        cache-Later t.cache l
          (subst (λ c. CacheOk os locks main map dat label c (disk s.env.world)) (sym e) h);
  }

  append_block-Round :
      (s t : Save World) (k n : ℕ)
      → Sized os locks main map dat label s k n t
      → Here s k (λ _ u. Stored s k n u) (append_block os locks dat t)
  unfolding append_block wrote_all
  append_block-Round s t k n (c, z, e) =
      by_ret (os.append dat (bytes t.buf t) bl_s t.env.world).0 refl
    where
      w : World
      w = (os.append dat (bytes t.buf t) bl_s t.env.world).1

      grown :
          (m : ℕ)
          → (os.append dat (bytes t.buf t) bl_s t.env.world).0 ≡ done m
          → Appended (disk s.env.world) (disk w) (file dat) (bytes t.buf t) m
      grown m q =
          subst (λ d. Appended d (disk w) (file dat) (bytes t.buf t) m) c.unsaved.0.same
            (os.append_done dat (bytes t.buf t) bl_s t.env.world m q)

      whole :
          Appended (disk s.env.world) (disk w) (file dat) (bytes t.buf t) bl_s
          → Stored s k n (set_world t w)
      whole a =
          let none_later : pointer os locks main map dat label (disk w) k ≡ 0 =
            (a.others (file map) apart.2).word (map_offset k) ∙ c.unsaved.1 in
          record {
            later = Later-append (file main) (file map) (file dat) apart a;
            kept = λ size orig h. Kept-append (file main) (file map) (file dat) apart a h;
            cache = c.unsaved.0.cache;
            waserror = c.unsaved.0.waserror;
            none_before = c.unsaved.1;
            none_yet = none_later;
            room = omega (arith, a.size);
            stored = λ i l h.
                ap (λ o. (disk w).byte (file dat) (o + i)) (e ∙ z) ∙ a.new i l ∙ c.holds i l h;
          }

      part :
          (m : ℕ)
          → Appended (disk s.env.world) (disk w) (file dat) (bytes t.buf t) m
          → Broken os locks main map dat label s (record (set_world t w) { waserror = enxio })
      part m a = record {
        moved = λ _.
            Moved-Later (Later-append (file main) (file map) (file dat) apart a)
              (λ size orig h. Kept-append (file main) (file map) (file dat) apart a h)
              c.unsaved.0.cache;
        outside = (Later-append (file main) (file map) (file dat) apart a).others;
        waserror = omega arith;
      }

      by_ret :
          (r : Ret)
          → (os.append dat (bytes t.buf t) bl_s t.env.world).0 ≡ r
          → Here s k (λ _ u. Stored s k n u) (wrote_all bl_s r (set_world t w))
      by_ret (done m) q = elim (Bool-cases (m == bl_s)) [
        | inl y ↦
            let full : m ≡ bl_s = ground (arith, y) in
            rw y (
              goes_on (
                whole (
                  subst (λ j. Appended (disk s.env.world) (disk w) (file dat) (bytes t.buf t) j)
                    full (grown m q))))
        | inr y ↦ rw y (breaks (part m (grown m q)))
      ]
      by_ret (failed x) q = breaks (
          Quiet-Broken os locks main map dat label
            (Quiet-world os locks main map dat label c.unsaved.0 w
              (os.append_failed dat (bytes t.buf t) bl_s t.env.world x q))
            x)

  write_pointer-Round :
      (s t : Save World) (k n : ℕ)
      → Stored s k n t
      → Here s k
          (λ _ u. Finished os locks main map dat label s k u)
          (write_pointer os locks (open_fd map) (n / bl_s + 1) (map_offset k) t)
  unfolding write_pointer wrote_all
  write_pointer-Round s t k n c = by_ret (os.pwrite_pointer map v o t.env.world).0 refl
    where
      v : ℕ
      v = n / bl_s + 1

      o : ℕ
      o = map_offset k

      w : World
      w = (os.pwrite_pointer map v o t.env.world).1

      written :
          WroteWord (disk t.env.world) (disk w) (file map) v o
          → Finished os locks main map dat label s k (set_world t w)
      written a = record {
        moved =
            Moved-Later
              (Later-trans (file main) (file map) (file dat) c.later
                (Later-word (file main) (file map) (file dat) apart k a c.none_yet))
              (λ size orig h.
                Kept-word (file main) (file map) (file dat) apart k (n / bl_s)
                  (subst (λ x. WroteWord (disk t.env.world) (disk w) (file map) x o) (omega arith)
                    a)
                  c.room
                  (λ i l y. let u = h.unsaved k i l y c.none_before in c.stored i l u.0 ∙ u.1)
                  (c.kept size orig h))
              c.cache;
        waserror = c.waserror;
        has_pointer = λ x. omega (arith, a.at);
      }

      broken :
          (e : ℕ)
          → disk w ≡ disk t.env.world
          → Broken os locks main map dat label s (record (set_world t w) { waserror = suc e })
      broken e same = record {
        moved = λ _.
            Moved-Later
              (subst (λ d. Later (file main) (file map) (file dat) (disk s.env.world) d) (sym same)
                c.later)
              (λ size orig h.
                subst (λ d. Kept (file main) (file map) (file dat) size orig d) (sym same)
                  (c.kept size orig h))
              c.cache;
        outside =
            λ g p q. subst (λ d. SameFile (disk s.env.world) d g) (sym same) (c.later.others g p q);
        waserror = omega arith;
      }

      -- A pointer written in part.
      torn :
          (x : ℕ)
          → WroteWord (disk t.env.world) (disk w) (file map) x o
          → Broken os locks main map dat label s (record (set_world t w) { waserror = enxio })
      torn x a = record {
        moved = λ h. absurd (h refl);
        outside = λ g p q. SameFile-trans (c.later.others g p q) (a.others g p);
        waserror = omega arith;
      }

      by_ret :
          (r : Ret)
          → (os.pwrite_pointer map v o t.env.world).0 ≡ r
          → Here s k
              (λ _ u. Finished os locks main map dat label s k u)
              (wrote_all blp_s r (set_world t w))
      by_ret (done m) q = elim (Bool-cases (m == blp_s)) [
        | inl y ↦
            let full : m ≡ blp_s = ground (arith, y) in
            rw y (goes_on (written (os.pwrite_pointer_full map v o t.env.world (q ∙ ap done full))))
        | inr y ↦
            let a = os.pwrite_pointer_short map v o t.env.world m q in rw y (breaks (torn a.0 a.1))
      ]
      by_ret (failed x) q = breaks (broken x (os.pwrite_pointer_failed map v o t.env.world x q))

  set_cache-Round :
      (s t : Save World) (k : ℕ)
      → Finished os locks main map dat label s k t
      → Here s k (λ _ u. Finished os locks main map dat label s k u) (set_cache k t)
  unfolding set_cache
  set_cache-Round s t k f = goes_on (record {
    moved = record {
      later = f.moved.later;
      kept = f.moved.kept;
      cached = λ h j e z.
          f.has_pointer
            (ap (pointer os locks main map dat label (disk t.env.world)) (omega arith) ∙ z);
    };
    waserror = f.waserror;
    has_pointer = f.has_pointer;
  })

  -- One round: block `k` gets its pointer, or the loop is left with an error.
  save_block-Round :
      (s : Save World) (k : ℕ)
      → CacheOk os locks main map dat label s.cache (disk s.env.world)
      → Here s k
          (λ _ u. Finished os locks main map dat label s k u)
          (save_block os locks main (open_fd map) dat label k s)
  unfolding save_block recheck_lock
  save_block-Round s k c =
      after _ _ (skip_cached-Round os locks main map dat label s k c) λ _ t₁ q₁.
        after _ _ (read_pointer-Round os locks main map dat label k q₁) λ p t₂ q₂.
          after _ _ (skip_saved-Round os locks main map dat label s t₂ k p q₂) λ _ t₃ q₃.
            after _ _ (recheck-Round os locks main map dat label s t₃ k t₃.lock q₃) λ _ t₄ q₄.
              after _ _ (get_buffer-Round os locks main map dat label s t₄ k q₄) λ _ t₅ q₅.
                after _ _ (read_block-Round os locks main map dat label s t₅ k q₅) λ _ t₆ q₆.
                  after _ _ (dat_size-Round os locks main map dat label s t₆ k q₆) λ n t₇ q₇.
                    after _ _ (append_block-Round s t₇ k n q₇) λ _ t₈ q₈.
                      after _ _ (write_pointer-Round s t₈ k n q₈)
                        λ _ t₉ q₉. set_cache-Round s t₉ k q₉

  Moved-trans :
      {s t u : Save World}
      → Moved os locks main map dat label s t
      → Moved os locks main map dat label t u
      → Moved os locks main map dat label s u
  Moved-trans a b = record {
    later = Later-trans (file main) (file map) (file dat) a.later b.later;
    kept = λ size orig h. b.kept size orig (a.kept size orig h);
    cached = λ h. b.cached (a.cached h);
  }

  -- The state after the loop over the blocks `k` to `k + n`: without an error, all have pointers.
  pub record Looped (s : Save World) (k n : ℕ) (t : Save World) : Type 0 where
    pub moved : t.waserror ≢ enxio → Moved os locks main map dat label s t
    pub outside : Outside os locks main map dat label (disk s.env.world) (disk t.env.world)
    pub pointers :
        t.waserror ≡ 0
        → (j : ℕ) → k ≤ j
        → j < k + n
        → pointer os locks main map dat label (disk t.env.world) j ≢ 0

  Looped-next :
      {s t u : Save World} (k n : ℕ)
      → Finished os locks main map dat label s k t
      → Looped t (k + 1) n u
      → Looped s k (suc n) u
  Looped-next {u} k n f l = record {
    moved = λ h. Moved-trans f.moved (l.moved h);
    outside = λ g p q. SameFile-trans (f.moved.later.others g p q) (l.outside g p q);
    pointers = λ e j lo hi. elim (ℕ_discrete j k) [
      | yes h ↦
          let here = f.has_pointer in
          λ z. here (
            sym ((l.moved (λ x. omega (arith, e, x))).later.pointers k here)
            ∙ ap (pointer os locks main map dat label (disk u.env.world)) (sym h)
            ∙ z)
      | no h ↦ l.pointers e j (omega arith) (omega arith)
    ];
  }

  pub save_blocks-Looped :
      (n k : ℕ) (s : Save World)
      → CacheOk os locks main map dat label s.cache (disk s.env.world)
      → s.waserror ≡ 0
      → Looped s k n (save_blocks os locks main (open_fd map) dat label n k s)
  unfolding save_blocks
  save_blocks-Looped zero k s c e = record {
    moved = λ _. Moved-by os locks main map dat label refl (λ h. h);
    outside = λ g p q. SameFile-refl (disk s.env.world) g;
    pointers = λ _ j lo hi. absurd (omega arith);
  }
  save_blocks-Looped (suc n) k s c e =
      by_flow (save_blocks-Looped n (k + 1)) (save_block os locks main (open_fd map) dat label k s)
        (save_block-Round s k c)
    where
      by_flow :
          ((t : Save World)
            → CacheOk os locks main map dat label t.cache (disk t.env.world)
            → t.waserror ≡ 0
            → Looped t (k + 1) n (save_blocks os locks main (open_fd map) dat label n (k + 1) t))
          → (r : Flow (Save World) (Unit {0}))
          → Here s k (λ _ u. Finished os locks main map dat label s k u) r
          → Looped s k (suc n) (elim r [
            | next _ t ↦ save_blocks os locks main (open_fd map) dat label n (k + 1) t
            | again t ↦ save_blocks os locks main (open_fd map) dat label n (k + 1) t
            | stop t ↦ t
          ])
      by_flow ih (next _ t) (goes_on f) =
          Looped-next k n f (ih t (f.moved.cached c) (f.waserror ∙ e))
      by_flow ih (again t) (continues f) =
          Looped-next k n f (ih t (f.moved.cached c) (f.waserror ∙ e))
      by_flow ih (stop t) (breaks b) = record {
        moved = b.moved;
        outside = b.outside;
        pointers = λ z. absurd (b.waserror z);
      }
