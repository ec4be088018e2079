-- ===== src/Block/Copy.antt =====
-- The second half of a round of the block loop of $b_write: the old block goes to the dat file and
-- its pointer to the map file.
use esfs.Base.{
  ℕ, zero, suc, ◌+◌, ◌-◌, ◌*◌, ◌/◌, ◌%◌, ◌<◌, ◌≡◌, inl, inr, refl, ◌∙◌, ap, arith, ltb, ◌==◌,
  if◌then◌else◌, Bool-cases, lt→ltb,
}
use Prim.Native.Nat.{min}
use esfs.Os.{Os, Locks, Ret, done, failed}
use esfs.Block.Calc.{bl_s}
use esfs.Block.State.{
  Buf, null, shared, own, Save, Flow, set_world, bytes, read_into, block_read, size_read,
}
use esfs.Block.Save.{read_block, dat_size}
use esfs.Block.Round.{goes_on, breaks, Quiet, Round, Unsaved, Quiet-Broken, Quiet-world}

bytes-read_into :
    {World : Type 0} (b : Buf) (n : ℕ) (d : ℕ → ℕ) (s : Save World) (i : ℕ)
    → bytes b (read_into b n d s) i ≡ (if ltb i n then d i else bytes b s i)
bytes-read_into null n d s i = refl
bytes-read_into shared n d s i = refl
bytes-read_into own n d s i = refl

same_buf :
    {World : Type 0} (b : Buf) (n : ℕ) (d : ℕ → ℕ) (s : Save World)
    → (read_into b n d s).buf ≡ s.buf
same_buf null n d s = refl
same_buf shared n d s = refl
same_buf own n d s = refl

bytes-set_world :
    {World : Type 0} (b : Buf) (s : Save World) (w : World) (i : ℕ)
    → bytes b (set_world s w) i ≡ bytes b s i
bytes-set_world null s w i = refl
bytes-set_world shared s w i = refl
bytes-set_world own s w i = refl

module _ (os : Os) (locks : Locks os) (main map dat : os.Fd) (label : ℕ) where
  open os use {World, File, Fd, file, disk}

  abbrev Here :
      {A : Type 0} → Save World → ℕ → (A → Save World → Type 0) → Flow (Save World) A → Type 0
  Here = Round os locks main map dat label

  -- The buffer holds block `k` of the main file, as far as the file goes.
  pub record Copied (s : Save World) (k : ℕ) (t : Save World) : Type 0 where
    pub unsaved : Unsaved os locks main map dat label s k t
    pub holds :
        (i : ℕ)
        → i < bl_s
        → k * bl_s + i < (disk s.env.world).size (file main)
        → bytes t.buf t i ≡ (disk s.env.world).byte (file main) (k * bl_s + i)

  Quiet-read :
      {s t : Save World} (b : Buf) (n : ℕ) (d : ℕ → ℕ)
      → Quiet os locks main map dat label s t
      → Quiet os locks main map dat label s (read_into b n d t)
  Quiet-read null n d q = record { same = q.same; cache = q.cache; waserror = q.waserror }
  Quiet-read shared n d q = record { same = q.same; cache = q.cache; waserror = q.waserror }
  Quiet-read own n d q = record { same = q.same; cache = q.cache; waserror = q.waserror }

  block_read-Round :
      (s t : Save World) (k : ℕ) (r : Ret) (d : ℕ → ℕ)
      → Unsaved os locks main map dat label s k t
      → ((n : ℕ) → r ≡ done n → n ≡ min bl_s ((disk s.env.world).size (file main) - k * bl_s))
      → ((n i : ℕ) → r ≡ done n → i < n → d i ≡ (disk s.env.world).byte (file main) (k * bl_s + i))
      → Here s k (λ _ u. Copied s k u) (block_read r d t)
  unfolding block_read
  block_read-Round s t k (done zero) d (q, z) count bytes_read =
      breaks (Quiet-Broken os locks main map dat label q _)
  block_read-Round s t k (failed e) d (q, z) count bytes_read =
      breaks (Quiet-Broken os locks main map dat label q e)
  block_read-Round s t k (done (suc n)) d (q, z) count bytes_read = goes_on (record {
    unsaved = (Quiet-read t.buf (suc n) d q, z);
    holds = λ i l h.
        ap (λ b. bytes b (read_into t.buf (suc n) d t) i) (same_buf t.buf (suc n) d t)
        ∙ bytes-read_into t.buf (suc n) d t i
        ∙ rw (lt→ltb i (suc n) (omega (arith, count (suc n) refl)))
            (bytes_read (suc n) i refl (omega (arith, count (suc n) refl)));
  })

  pub read_block-Round :
      (s t : Save World) (k : ℕ)
      → Unsaved os locks main map dat label s k t
      → Here s k (λ _ u. Copied s k u) (read_block os locks main k t)
  unfolding read_block
  read_block-Round s t k (q, z) =
      let w = t.env.world in
      let o = k * bl_s in
      block_read-Round s (set_world t (os.pread main bl_s o w).2) k (os.pread main bl_s o w).0
        (os.pread main bl_s o w).1
        (
          Quiet-world os locks main map dat label q (os.pread main bl_s o w).2
              (os.pread_disk main bl_s o w),
          z,
        )
        (λ n e.
          os.pread_count main bl_s o w n e ∙ ap (λ d. min bl_s (d.size (file main) - o)) q.same)
        (λ n i e l.
          os.pread_bytes main bl_s o w n i e l ∙ ap (λ d. d.byte (file main) (o + i)) q.same)

  -- The size of the dat file, a whole number of blocks.
  abbrev pub Sized : Save World → ℕ → ℕ → Save World → Type 0
  Sized s k n t = Copied s k t × (n ≡ (disk s.env.world).size (file dat)) × (n / bl_s * bl_s ≡ n)

  size_read-Round :
      (s t : Save World) (k : ℕ) (r : Ret)
      → Copied s k t
      → ((n : ℕ) → r ≡ done n → n ≡ (disk s.env.world).size (file dat))
      → Here s k (Sized s k) (size_read r t)
  unfolding size_read
  size_read-Round s t k (failed e) c size =
      breaks (Quiet-Broken os locks main map dat label c.unsaved.0 e)
  size_read-Round s t k (done n) c size = elim (Bool-cases (n % bl_s == 0)) [
    | inl e ↦
        let whole : n % bl_s ≡ 0 = ground (arith, e) in rw e (goes_on (c, size n refl, omega arith))
    | inr e ↦ rw e (breaks (Quiet-Broken os locks main map dat label c.unsaved.0 _))
  ]

  pub dat_size-Round :
      (s t : Save World) (k : ℕ) → Copied s k t → Here s k (Sized s k) (dat_size os locks dat t)
  unfolding dat_size
  dat_size-Round s t k c =
      let w = t.env.world in
      let q = c.unsaved.0 in
      size_read-Round s (set_world t (os.lseek_end dat w).1) k (os.lseek_end dat w).0
        (record {
          unsaved = (
            Quiet-world os locks main map dat label q (os.lseek_end dat w).1
                (os.lseek_end_disk dat w),
            c.unsaved.1,
          );
          holds = λ i l h. bytes-set_world t.buf t (os.lseek_end dat w).1 i ∙ c.holds i l h;
        })
        (λ n e. os.lseek_end_size dat w n e ∙ ap (λ d. d.size (file dat)) q.same)
