-- ===== src/Snapshots/Dropped.antt =====
-- Taking the earliest snapshot off the list, by what it does to the pointer files.
use esfs.Base.{
  ℕ, ◌≡◌, ◌≢◌, refl, sym, ◌∙◌, subst, none, some, List, [], ◌∷◌, ◌++◌, arith, Bool-cases, str_eq,
  str_eq_refl, eq_of_str_eq, inl, inr,
}
use mathlib.Core.Option.{some_inj}
use esfs.Paths.Build.{ext_hid}
use esfs.Handle.Open.{Fsdata}
use esfs.Snapshots.Pointers.{Texts}
use esfs.Snapshots.Manage.{Under}
use esfs.Snapshots.Chain.{Leads, Linked}
use esfs.Snapshots.Earliest.{last_of, but_last, pointer_to}
use esfs.Snapshots.Spec.{
  EntryOf, Entries, Differs, Distinct, main_pointer, Recorded, hid-Under, main_pointer-Under,
  main_pointer-differs, hid-differs,
}

-- The file `pointer` is removed, and files below `root` may be too.
pub record Dropped (t t' : Texts) (pointer root : List ℕ) : Type 0 where
  pub at : t' pointer ≡ none
  pub kept : (q : List ℕ) → q ≢ pointer → ¬ Under root q → t' q ≡ t q
  pub no_new : (q : List ℕ) → t q ≡ none → t' q ≡ none

Differs-last : (q p : List ℕ) (ps : List (List ℕ)) → Differs q (p ∷ ps) → q ≢ last_of p ps
Differs-last q p [] d = d.0
Differs-last q p (r ∷ ps) d = Differs-last q r ps d.1

Differs-but_last :
    (q p : List ℕ) (ps : List (List ℕ)) → Differs q (p ∷ ps) → Differs q (but_last p ps)
Differs-but_last q p [] d = tt
Differs-but_last q p (r ∷ ps) d = (d.0, Differs-but_last q r ps d.1)

Distinct-but_last : (p : List ℕ) (ps : List (List ℕ)) → Distinct (p ∷ ps) → Distinct (but_last p ps)
Distinct-but_last p [] d = tt
Distinct-but_last p (q ∷ ps) (d, e) = (Differs-but_last p q ps d, Distinct-but_last q ps e)

-- Off the list is the last one, or in none of it.
Differs-back :
    (q p : List ℕ) (ps : List (List ℕ))
    → q ≢ last_of p ps
    → Differs q (but_last p ps)
    → Differs q (p ∷ ps)
Differs-back q p [] n d = (n, tt)
Differs-back q p (r ∷ ps) n d = (d.0, Differs-back q r ps n d.1)

pub pointer_to-Differs :
    (p q s : List ℕ) (ps : List (List ℕ)) (pointer : List ℕ)
    → pointer_to none q (s ∷ ps) ≡ some pointer
    → Differs p (q ∷ s ∷ ps)
    → p ++ ext_hid ≢ pointer
pointer_to-Differs p q s [] pointer h d e = hid-differs p q d.0 (e ∙ sym (some_inj.0 h))
pointer_to-Differs p q s (u ∷ ps) pointer h d e = pointer_to-Differs p s u ps pointer h d.1 e

pointer_to-main :
    (dir q s : List ℕ) (ps : List (List ℕ)) (pointer : List ℕ)
    → pointer_to none q (s ∷ ps) ≡ some pointer
    → Entries dir (q ∷ s ∷ ps)
    → main_pointer dir ≢ pointer
pointer_to-main dir q s [] pointer h e m = main_pointer-differs dir q e.0 (m ∙ sym (some_inj.0 h))
pointer_to-main dir q s (u ∷ ps) pointer h e m = pointer_to-main dir s u ps pointer h e.1 m

Linked-last :
    (t : Texts) (p : List ℕ) (ps : List (List ℕ))
    → Linked t (p ∷ ps)
    → t (last_of p ps ++ ext_hid) ≡ none
Linked-last t p [] l = l
Linked-last t p (q ∷ ps) l = Linked-last t q ps l.1

pub Leads-same : (t t' : Texts) (h q : List ℕ) → t' h ≡ t h → Leads t h q → Leads t' h q
Leads-same t t' h q e (s, f, g) = (s, e ∙ f, g)

module _ (dir : List ℕ) where
  Entries-last :
      (p : List ℕ) (ps : List (List ℕ)) → Entries dir (p ∷ ps) → EntryOf dir (last_of p ps)
  Entries-last p [] e = e.0
  Entries-last p (q ∷ ps) e = Entries-last q ps e.1

  Entries-but_last :
      (p : List ℕ) (ps : List (List ℕ)) → Entries dir (p ∷ ps) → Entries dir (but_last p ps)
  Entries-but_last p [] e = tt
  Entries-but_last p (q ∷ ps) e = (e.0, Entries-but_last q ps e.1)

  -- The snapshots but the earliest stay linked where the pointer to that is removed.
  Linked-but_last :
      (t t' : Texts) (p q : List ℕ) (ps : List (List ℕ)) (pointer root : List ℕ)
      → Dropped t t' pointer root
      → pointer_to none p (q ∷ ps) ≡ some pointer
      → EntryOf dir root
      → Entries dir (p ∷ q ∷ ps)
      → Distinct (p ∷ q ∷ ps)
      → Linked t (p ∷ q ∷ ps)
      → Linked t' (but_last p (q ∷ ps))
  Linked-but_last t t' p q [] pointer root d h r e n l =
      subst (λ x. t' x ≡ none) (sym (some_inj.0 h)) d.at
  Linked-but_last t t' p q (s ∷ ps) pointer root d h r e n l = (
    Leads-same t t' (p ++ ext_hid) q
        (d.kept (p ++ ext_hid) (pointer_to-Differs p q s ps pointer h n.0)
          (hid-Under dir p root e.0 r))
        l.0,
    Linked-but_last t t' q s ps pointer root d h r e.1 n.1 l.1,
  )

-- Nor has the earliest snapshot a pointer file.
Recorded-free :
    (fs : Fsdata) (t : Texts) (p : List ℕ) (ps : List (List ℕ))
    → Recorded fs t (p ∷ ps)
    → (x : List ℕ) → EntryOf fs.sn_dir x
    → Differs x (but_last p ps)
    → t (x ++ ext_hid) ≡ none
Recorded-free fs t p ps k x e d = elim (Bool-cases (str_eq x (last_of p ps))) [
  | inl h ↦
      subst (λ y. t (y ++ ext_hid) ≡ none) (sym (eq_of_str_eq x (last_of p ps) h))
        (Linked-last t p ps k.linked)
  | inr h ↦ k.free x e (Differs-back x p ps (λ s. ground (arith, str_eq_refl x)) d)
]

-- Only the earliest snapshot is off the list where the pointer to it and then its tree are removed.
pub Dropped-Recorded :
    (fs : Fsdata) (t t' : Texts) (p q : List ℕ) (ps : List (List ℕ)) (pointer : List ℕ)
    → Recorded fs t (p ∷ q ∷ ps)
    → pointer_to none p (q ∷ ps) ≡ some pointer
    → Dropped t t' pointer (last_of q ps)
    → Recorded fs t' (p ∷ but_last q ps)
Dropped-Recorded fs t t' p q ps pointer k h d = record {
  entries = Entries-but_last fs.sn_dir p (q ∷ ps) k.entries;
  distinct = Distinct-but_last p (q ∷ ps) k.distinct;
  linked =
      Linked-but_last fs.sn_dir t t' p q ps pointer (last_of q ps) d h
        (Entries-last fs.sn_dir q ps k.entries.1) k.entries k.distinct k.linked;
  latest = (
    k.latest.0,
    k.latest.1,
    Leads-same t t' (main_pointer fs.sn_dir) p
        (d.kept (main_pointer fs.sn_dir) (pointer_to-main fs.sn_dir p q ps pointer h k.entries)
          (main_pointer-Under fs.sn_dir (last_of q ps) (Entries-last fs.sn_dir q ps k.entries.1)))
        k.latest.2,
  );
  free = λ x e f. d.no_new (x ++ ext_hid) (Recorded-free fs t p (q ∷ ps) k x e f);
}

-- No snapshot is on the list where the pointer to the latest one and the tree of the only one are
-- removed.
pub Dropped-Recorded_none :
    (fs : Fsdata) (t t' : Texts) (p : List ℕ)
    → Recorded fs t (p ∷ [])
    → Dropped t t' (main_pointer fs.sn_dir) p
    → Recorded (record fs { sn_is_any = 0 }) t' []
Dropped-Recorded_none fs t t' p k d = record {
  entries = tt;
  distinct = tt;
  linked = tt;
  latest = (refl, d.at);
  free = λ x e f. d.no_new (x ++ ext_hid) (Recorded-free fs t p [] k x e f);
}
