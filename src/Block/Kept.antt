-- ===== src/Block/Kept.antt =====
-- What the map and dat files of a snapshot keep of a main file, and how a disk may change while
-- blocks are saved.
use esfs.Base.{ℕ, suc, ◌+◌, ◌*◌, ◌≤◌, ◌<◌, ◌≡◌, ◌≢◌, inl, inr, refl, sym, ◌∙◌, ap, arith}
use esfs.Os.{Disk, SameFile, WroteWord, Appended}
use esfs.Block.Calc.{bl_s, map_offset, map_offset-apart}
use native.Mathlib.Decide.{ℕ_discrete, dec_lt}

module _ {File : Type 0} where
  pub SameFile-refl : (d : Disk File) (g : File) → SameFile d d g
  SameFile-refl d g = record { size = refl; byte = λ i. refl; word = λ o. refl; header = refl }

  pub SameFile-trans :
      {d e f : Disk File} {g : File} → SameFile d e g → SameFile e f g → SameFile d f g
  SameFile-trans a b = record {
    size = b.size ∙ a.size;
    byte = λ i. b.byte i ∙ a.byte i;
    word = λ o. b.word o ∙ a.word o;
    header = b.header ∙ a.header;
  }

module _ {File : Type 0} (main map dat : File) where
  -- `orig` are the bytes of the main file in the snapshot, where its size was `size`. A block with
  -- no pointer is still unchanged in the main file; the pointer p + 1 of another leads to a whole
  -- block of the dat file that holds it.
  pub record Kept (size : ℕ) (orig : ℕ → ℕ) (d : Disk File) : Type 0 where
    pub unsaved :
        (k i : ℕ)
        → i < bl_s
        → k * bl_s + i < size
        → d.word map (map_offset k) ≡ 0
        → (k * bl_s + i < d.size main) × (d.byte main (k * bl_s + i) ≡ orig (k * bl_s + i))
    pub saved :
        (k i p : ℕ)
        → i < bl_s
        → k * bl_s + i < size
        → d.word map (map_offset k) ≡ suc p
        → (p * bl_s + bl_s ≤ d.size dat) × (d.byte dat (p * bl_s + i) ≡ orig (k * bl_s + i))

  -- From `d` to `d'` pointers were only added, the dat file only grew, and no other file changed.
  pub record Later (d d' : Disk File) : Type 0 where
    pub others : (g : File) → g ≢ map → g ≢ dat → SameFile d d' g
    pub dat_size : d.size dat ≤ d'.size dat
    pub dat_old : (i : ℕ) → i < d.size dat → d'.byte dat i ≡ d.byte dat i
    pub pointers :
        (k : ℕ)
        → d.word map (map_offset k) ≢ 0
        → d'.word map (map_offset k) ≡ d.word map (map_offset k)
    pub header : d'.header map ≡ d.header map

  pub Later-refl : (d : Disk File) → Later d d
  Later-refl d = record {
    others = λ g p q. SameFile-refl d g;
    dat_size = omega arith;
    dat_old = λ i h. refl;
    pointers = λ k h. refl;
    header = refl;
  }

  pub Later-trans : {d e f : Disk File} → Later d e → Later e f → Later d f
  Later-trans a b = record {
    others = λ g p q. SameFile-trans (a.others g p q) (b.others g p q);
    dat_size = omega (arith, a.dat_size, b.dat_size);
    dat_old = λ i h. b.dat_old i (omega (arith, a.dat_size)) ∙ a.dat_old i h;
    pointers = λ k h. ground (arith, b.pointers k, a.pointers k h);
    header = b.header ∙ a.header;
  }

  module _ (apart : (main ≢ map) × (main ≢ dat) × (map ≢ dat)) where
    pub Later-append : {d d' : Disk File} {b : ℕ → ℕ} {n : ℕ} → Appended d d' dat b n → Later d d'
    Later-append a = record {
      others = λ g p q. a.others g q;
      dat_size = omega (arith, a.size);
      dat_old = a.old;
      pointers = λ k h. (a.others map apart.2).word (map_offset k);
      header = (a.others map apart.2).header;
    }

    pub Kept-append :
        {size : ℕ} {orig : ℕ → ℕ} {d d' : Disk File} {b : ℕ → ℕ} {n : ℕ}
        → Appended d d' dat b n
        → Kept size orig d
        → Kept size orig d'
    Kept-append a h = record {
      unsaved = λ k i p q z.
          let m = a.others main apart.1 in
          let o = h.unsaved k i p q (sym ((a.others map apart.2).word (map_offset k)) ∙ z) in
          (omega (arith, o.0, m.size), m.byte (k * bl_s + i) ∙ o.1);
      saved = λ k i p l q z.
          let o = h.saved k i p l q (sym ((a.others map apart.2).word (map_offset k)) ∙ z) in
          (omega (arith, o.0, a.size), a.old (p * bl_s + i) (omega (arith, o.0)) ∙ o.1);
    }

    -- Pointers of other blocks are not touched by writing one.
    pub word_apart :
        {d d' : Disk File} {v : ℕ} (j k : ℕ)
        → WroteWord d d' map v (map_offset k)
        → j ≢ k
        → d'.word map (map_offset j) ≡ d.word map (map_offset j)
    word_apart j k a ne = elim (dec_lt j k) [
      | yes p ↦ a.apart (map_offset j) (inl (map_offset-apart j k p).1)
      | no p ↦ a.apart (map_offset j) (inr (map_offset-apart k j (omega arith)).1)
    ]

    pub Later-word :
        {d d' : Disk File} {v : ℕ} (k : ℕ)
        → WroteWord d d' map v (map_offset k)
        → d.word map (map_offset k) ≡ 0
        → Later d d'
    Later-word {d} {d'} k a z = record {
      others = λ g p q. a.others g p;
      dat_size = omega (arith, (a.others dat (λ e. apart.2 (sym e))).size);
      dat_old = λ i h. (a.others dat (λ e. apart.2 (sym e))).byte i;
      pointers = λ j h. word_apart j k a (λ e. h (ap (λ n. d.word map (map_offset n)) e ∙ z));
      header = a.header (map_offset-apart k (suc k) (omega arith)).0;
    }

    -- The pointer of a block is written when the dat file already holds the block.
    pub Kept-word :
        {size : ℕ} {orig : ℕ → ℕ} {d d' : Disk File} (k p : ℕ)
        → WroteWord d d' map (suc p) (map_offset k)
        → p * bl_s + bl_s ≤ d.size dat
        → ((i : ℕ)
            → i < bl_s
            → k * bl_s + i < size
            → d.byte dat (p * bl_s + i) ≡ orig (k * bl_s + i))
        → Kept size orig d
        → Kept size orig d'
    Kept-word {size} {orig} {d} {d'} k p a fits holds h = record {
      unsaved = old_block;
      saved = any_block;
    }
      where
        same_dat : SameFile d d' dat
        same_dat = a.others dat (λ e. apart.2 (sym e))

        same_main : SameFile d d' main
        same_main = a.others main apart.0

        old_block :
            (j i : ℕ)
            → i < bl_s
            → j * bl_s + i < size
            → d'.word map (map_offset j) ≡ 0
            → (j * bl_s + i < d'.size main) × (d'.byte main (j * bl_s + i) ≡ orig (j * bl_s + i))
        old_block j i l q z = elim (ℕ_discrete j k) [
          | yes e ↦ absurd (omega (arith, a.at, z, ap (λ n. d'.word map (map_offset n)) e))
          | no e ↦
              let o = h.unsaved j i l q (sym (word_apart j k a e) ∙ z) in
              (omega (arith, o.0, same_main.size), same_main.byte (j * bl_s + i) ∙ o.1)
        ]

        any_block :
            (j i r : ℕ)
            → i < bl_s
            → j * bl_s + i < size
            → d'.word map (map_offset j) ≡ suc r
            → (r * bl_s + bl_s ≤ d'.size dat) × (d'.byte dat (r * bl_s + i) ≡ orig (j * bl_s + i))
        any_block j i r l q z = elim (ℕ_discrete j k) [
          | yes e ↦
              let same : r ≡ p = omega (arith, a.at, z, ap (λ n. d'.word map (map_offset n)) e) in
              (
                omega (arith, same_dat.size),
                rw (same, e) (same_dat.byte (p * bl_s + i) ∙ holds i l (rw e at q)),
              )
          | no e ↦
              let o = h.saved j i r l q (sym (word_apart j k a e) ∙ z) in
              (omega (arith, o.0, same_dat.size), same_dat.byte (r * bl_s + i) ∙ o.1)
        ]
