-- ===== src/Block/Isolation.antt =====
-- Changing a main file after its blocks were saved leaves every snapshot as it was.
use esfs.Base.{
  ℕ, zero, suc, ◌+◌, ◌*◌, ◌/◌, ◌%◌, ◌≤◌, ◌<◌, ◌≡◌, ◌≢◌, ◌⊎◌, inl, inr, refl, sym, ◌∙◌, ap, arith,
}
use native.Mathlib.Decide.{dec_lt}
use esfs.Os.{Disk, SameFile, Wrote, Truncated, Os}
use esfs.Types.{StepFd, opened, unused, notopen, main_space, SnStep}
use esfs.Block.Calc.{bl_s, map_offset}
use esfs.Block.Kept.{Kept}
use esfs.Block.View.{pointer_in, byte_in, from_block, view}

module _ {File : Type 0} (main map dat : File) (apart : (main ≢ map) × (main ≢ dat) × (map ≢ dat))
    {size : ℕ} {orig : ℕ → ℕ} {d d' : Disk File} (h : Kept main map dat size orig d) where
  -- A change of the main file alone that spares every byte of a block without a pointer.
  Kept-main :
      ((g : File) → g ≢ main → SameFile d d' g)
      → ((o : ℕ)
          → o < size
          → o < d.size main
          → d.word map (map_offset (o / bl_s)) ≡ 0
          → (o < d'.size main) × (d'.byte main o ≡ d.byte main o))
      → Kept main map dat size orig d'
  Kept-main others spared = record {
    unsaved = λ k i l q z.
        let old = h.unsaved k i l q (sym (same_map.word (map_offset k)) ∙ z) in
        let now = spared (k * bl_s + i) q old.0 (
          ap (λ b. d.word map (map_offset b)) (omega arith)
          ∙ sym (same_map.word (map_offset k))
          ∙ z) in
        (now.0, now.1 ∙ old.1);
    saved = λ k i p l q z.
        let old = h.saved k i p l q (sym (same_map.word (map_offset k)) ∙ z) in
        (omega (arith, old.0, same_dat.size), same_dat.byte (p * bl_s + i) ∙ old.1);
  }
    where
      same_map : SameFile d d' map
      same_map = others map (λ e. apart.0 (sym e))

      same_dat : SameFile d d' dat
      same_dat = others dat (λ e. apart.1 (sym e))

  pub Kept-write :
      {b : ℕ → ℕ} {n o : ℕ}
      → Wrote d d' main b n o
      → ((i : ℕ) → o ≤ i → i < o + n → i < size → d.word map (map_offset (i / bl_s)) ≢ 0)
      → Kept main map dat size orig d'
  Kept-write {n} {o} a safe =
      Kept-main a.others λ i l q z. (omega (arith, a.grown), a.apart i q (outside i l z))
    where
      outside : (i : ℕ) → i < size → d.word map (map_offset (i / bl_s)) ≡ 0 → (i < o) ⊎ (o + n ≤ i)
      outside i l z = elim (dec_lt i o) [
        | yes p ↦ inl p
        | no p ↦ elim (dec_lt i (o + n)) [
          | yes q ↦ absurd (safe i (omega arith) q l z)
          | no q ↦ inr (omega arith)
        ]
      ]

  pub Kept-truncate :
      {n : ℕ}
      → Truncated d d' main n
      → ((i : ℕ) → n ≤ i → i < size → d.word map (map_offset (i / bl_s)) ≢ 0)
      → Kept main map dat size orig d'
  Kept-truncate {n} a safe = Kept-main a.others λ i l q z. elim (dec_lt i n) [
    | yes p ↦ (omega (arith, a.size), a.below i p q)
    | no p ↦ absurd (safe i (omega arith) l z)
  ]

module _ (os : Os) (steps : ℕ → SnStep os.Fd) (main map dat : os.File) where
  open os use {File, Fd, file}

  abbrev pub Is : StepFd Fd → File → Type 0
  Is (opened fd) f = file fd ≡ f
  Is _ f = ⊥

  -- A handle of another file than these three, or none.
  abbrev pub Foreign : StepFd Fd → Type 0
  Foreign (opened fd) = (file fd ≢ main) × (file fd ≢ map) × (file fd ≢ dat)
  Foreign _ = Unit

  -- The handles of a file in a snapshot: the main file, the map and dat files of the latest
  -- snapshot, and files of their own for the earlier snapshots up to step `level`.
  pub record Chain (level : ℕ) : Type 0 where
    pub main_step : Is (steps 0).datfd main
    pub latest_map : Is (steps 1).mapfd map
    pub latest_dat : Is (steps 1).datfd dat
    pub older_map : (j : ℕ) → 2 ≤ j → j ≤ level → Foreign (steps j).mapfd
    pub older_dat : (j : ℕ) → 2 ≤ j → j ≤ level → Foreign (steps j).datfd

  -- No step from `n` down to 2 has the block of the byte `o`, so that it is read from the latest
  -- snapshot or from the main file.
  abbrev pub Passes : Disk File → ℕ → ℕ → Type 0
  Passes d zero o = ⊥
  Passes d (suc zero) o = Unit
  Passes d (suc (suc n)) o =
      (pointer_in os d (steps (suc (suc n))).mapfd (o / bl_s) ≡ 0) × Passes d (suc n) o

  byte-Is :
      (d : Disk File) (m : StepFd Fd) (f : File) (o : ℕ) → Is m f → byte_in os d m o ≡ d.byte f o
  byte-Is d (opened fd) f o e = ap (λ g. d.byte g o) e
  byte-Is d unused f o e = absurd e
  byte-Is d notopen f o e = absurd e
  byte-Is d main_space f o e = absurd e

  pointer-Is :
      (d : Disk File) (m : StepFd Fd) (f : File) (k : ℕ)
      → Is m f
      → pointer_in os d m k ≡ d.word f (map_offset k)
  pointer-Is d (opened fd) f k e = ap (λ g. d.word g (map_offset k)) e
  pointer-Is d unused f k e = absurd e
  pointer-Is d notopen f k e = absurd e
  pointer-Is d main_space f k e = absurd e

  -- The view from the latest snapshot is the content that is kept.
  pub view-Kept :
      {level size : ℕ} {orig : ℕ → ℕ} {d : Disk File} (o : ℕ)
      → Chain level
      → Kept main map dat size orig d
      → o < size
      → view os steps d 1 o ≡ orig o
  unfolding view
  view-Kept {size} {orig} {d} o c h l = by_pointer (d.word map (map_offset (o / bl_s))) refl
    where
      by_pointer :
          (p : ℕ)
          → d.word map (map_offset (o / bl_s)) ≡ p
          → from_block os d
              (steps 1).datfd
              (pointer_in os d (steps 1).mapfd (o / bl_s))
              (o % bl_s)
              (byte_in os d (steps 0).datfd o)
            ≡ orig o
      by_pointer p q =
          rw (pointer-Is d (steps 1).mapfd map (o / bl_s) c.latest_map ∙ q) (by_value p q)
        where
          by_value :
              (p : ℕ)
              → d.word map (map_offset (o / bl_s)) ≡ p
              → from_block os d (steps 1).datfd p (o % bl_s) (byte_in os d (steps 0).datfd o)
                ≡ orig o
          by_value zero q =
              byte-Is d (steps 0).datfd main o c.main_step
              ∙ ap (d.byte main) (omega arith)
              ∙ (h.unsaved (o / bl_s) (o % bl_s) (omega arith) (omega arith) q).1
              ∙ ap orig (omega arith)
          by_value (suc p) q =
              byte-Is d (steps 1).datfd dat (p * bl_s + o % bl_s) c.latest_dat
              ∙ (h.saved (o / bl_s) (o % bl_s) p (omega arith) (omega arith) q).1
              ∙ ap orig (omega arith)

  -- Where the files of earlier snapshots are as before, and the view from the latest snapshot is
  -- the same at the bytes that are read from there, every view is the same.
  module _ {level : ℕ} {d d' : Disk File} (c : Chain level)
      (same : (g : File) → g ≢ main → g ≢ map → g ≢ dat → SameFile d d' g) where
    Foreign-pointer :
        (m : StepFd Fd) (k : ℕ) → Foreign m → pointer_in os d' m k ≡ pointer_in os d m k
    Foreign-pointer (opened fd) k f = (same (file fd) f.0 f.1 f.2).word (map_offset k)
    Foreign-pointer unused k f = refl
    Foreign-pointer notopen k f = refl
    Foreign-pointer main_space k f = refl

    Foreign-byte : (m : StepFd Fd) (o : ℕ) → Foreign m → byte_in os d' m o ≡ byte_in os d m o
    Foreign-byte (opened fd) o f = (same (file fd) f.0 f.1 f.2).byte o
    Foreign-byte unused o f = refl
    Foreign-byte notopen o f = refl
    Foreign-byte main_space o f = refl

    pub view_stays :
        (n o : ℕ)
        → 1 ≤ n
        → n ≤ level
        → (Passes d n o → view os steps d' 1 o ≡ view os steps d 1 o)
        → view os steps d' n o ≡ view os steps d n o
    unfolding view
    view_stays zero o lo hi h = elim lo [ ]
    view_stays (suc zero) o lo hi h = h tt
    view_stays (suc (suc n)) o lo hi h =
        by_pointer (view_stays (suc n) o (omega arith) (omega arith)) (pointer_in os d m (o / bl_s))
          refl
      where
        m : StepFd Fd
        m = (steps (suc (suc n))).mapfd

        f : StepFd Fd
        f = (steps (suc (suc n))).datfd

        by_value :
            (p : ℕ)
            → (p ≡ 0 → view os steps d' (suc n) o ≡ view os steps d (suc n) o)
            → from_block os d' f p (o % bl_s) (view os steps d' (suc n) o)
              ≡ from_block os d f p (o % bl_s) (view os steps d (suc n) o)
        by_value zero q = q refl
        by_value (suc p) q =
            Foreign-byte f (p * bl_s + o % bl_s) (c.older_dat (suc (suc n)) (omega arith) hi)

        by_pointer :
            ((Passes d (suc n) o → view os steps d' 1 o ≡ view os steps d 1 o)
              → view os steps d' (suc n) o ≡ view os steps d (suc n) o)
            → (p : ℕ) → pointer_in os d m (o / bl_s) ≡ p
            → from_block os d' f
                (pointer_in os d' m (o / bl_s))
                (o % bl_s)
                (view os steps d' (suc n) o)
              ≡ from_block os d f
                  (pointer_in os d m (o / bl_s))
                  (o % bl_s)
                  (view os steps d (suc n) o)
        by_pointer ih p e =
            rw (Foreign-pointer m (o / bl_s) (c.older_map (suc (suc n)) (omega arith) hi) ∙ e, e)
              (by_value p (λ z. ih (λ s. h (e ∙ z, s))))

    -- So it is where the latest snapshot keeps the same content before and after.
    pub view-eq :
        {size : ℕ} {orig : ℕ → ℕ}
        → Kept main map dat size orig d
        → Kept main map dat size orig d'
        → (n o : ℕ) → 1 ≤ n
        → n ≤ level
        → (Passes d n o → o < size)
        → view os steps d' n o ≡ view os steps d n o
    view-eq k k' n o lo hi inside =
        view_stays n o lo hi λ p. view-Kept o c k' (inside p) ∙ sym (view-Kept o c k (inside p))
