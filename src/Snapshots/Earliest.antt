-- ===== src/Snapshots/Earliest.antt =====
-- What $sn_get_earliest finds where the snapshots are linked.
use esfs.Base.{
  ℕ, zero, suc, ◌≡◌, ◌≢◌, refl, sym, ◌∙◌, subst, Bool, true, false, Option, none, some, List, [],
  ◌∷◌, ◌++◌, ◌==◌, if◌then◌else◌, arith,
}
use esfs.Os.{Os}
use esfs.Files.{Files}
use esfs.Handle.Open.{Fsdata}
use esfs.Paths.Build.{ext_hid, get_hid_path}
use esfs.Snapshots.Pointers.{
  Texts, PointerFiles, Sndir, sndir_found, sndir_absent, sndir_empty, sndir_error,
  read_sndir_from_file,
}
use esfs.Snapshots.Walk.{
  Earliest, no_snapshots, earliest, earliest_error, earliest_from, sn_get_earliest, max_snapshots,
}
use esfs.Snapshots.Chain.{
  Leads, Unreadable, Leads-Unreadable, Linked, ReadsAs, read_sndir_from_file-Reads,
}

-- The earliest of the snapshots `p ∷ ps`.
abbrev pub last_of : List ℕ → List (List ℕ) → List ℕ
last_of p [] = p
last_of p (q ∷ ps) = last_of q ps

-- All but the earliest.
abbrev pub but_last : List ℕ → List (List ℕ) → List (List ℕ)
but_last p [] = []
but_last p (q ∷ ps) = p ∷ but_last q ps

-- The pointer file that leads to the earliest of `p ∷ ps`, where `prev` leads to `p`.
abbrev pub pointer_to : Option (List ℕ) → List ℕ → List (List ℕ) → Option (List ℕ)
pointer_to prev p [] = prev
pointer_to prev p (q ∷ ps) = pointer_to (some (p ++ ext_hid)) q ps

-- `r` is the right earliest snapshot and the pointer to it, or an error.
abbrev pub IsEarliest : Option (List ℕ) → List ℕ → List (List ℕ) → Earliest → Type 0
IsEarliest prev p ps no_snapshots = ⊥
IsEarliest prev p ps (earliest s pointer) = (s ≡ last_of p ps) × (pointer ≡ pointer_to prev p ps)
IsEarliest prev p ps (earliest_error e) = Unit

pub get_hid_path-some : (p h : List ℕ) → get_hid_path p ≡ some h → h ≡ p ++ ext_hid
unfolding get_hid_path
get_hid_path-some p h e = ground arith

-- A path that is led to is the only one.
pub Leads-unique : (t : Texts) (h p q : List ℕ) → Leads t h p → Leads t h q → p ≡ q
Leads-unique t h p q (s, a, b) (r, c, d) = cc

module _ (os : Os) (files : Files os) (pointers : PointerFiles os files) where
  open os use {World}
  open pointers use {text}

  -- The right answer, and no file written.
  abbrev pub Found : World → Option (List ℕ) → List ℕ → List (List ℕ) → Earliest × World → Type 0
  Found w prev p ps (r, v) = (text v ≡ text w) × IsEarliest prev p ps r

  -- What `n` rounds find.
  abbrev Rounds : ℕ → Type 0
  Rounds n =
      (p : List ℕ) (ps : List (List ℕ)) (prev : Option (List ℕ)) (w : World)
      → Linked (text w) (p ∷ ps)
      → Found w prev p ps (earliest_from os files pointers n p prev w)

  -- The value `r` for the pointer file of `p`, read in `w`.
  after_read :
      (n : ℕ)
      → Rounds n
      → (p : List ℕ) (ps : List (List ℕ)) (prev : Option (List ℕ)) (w v : World)
      → Linked (text w) (p ∷ ps)
      → (r : Sndir) → text v ≡ text w
      → ReadsAs (text w) (p ++ ext_hid) r
      → Found w prev p ps (elim r [
        | sndir_absent ↦ (earliest p prev, v)
        | sndir_empty ↦ (earliest [] prev, v)
        | sndir_error e _ ↦ (earliest_error e, v)
        | sndir_found path len ↦ earliest_from os files pointers n path (some (p ++ ext_hid)) v
      ])
  after_read n ih p [] prev w v l sndir_absent s f = (s, (refl, refl))
  after_read n ih p (q ∷ ps) prev w v l sndir_absent s f = absurd (by_none l.0)
    where
      by_none : Leads (text w) (p ++ ext_hid) q → ⊥
      by_none (b, g, h) = cc
  after_read n ih p [] prev w v l sndir_empty s f = absurd (by_some f)
    where
      by_some : Unreadable (text w) (p ++ ext_hid) → ⊥
      by_some (b, g, h) = cc
  after_read n ih p (q ∷ ps) prev w v l sndir_empty s f =
      absurd (Leads-Unreadable (text w) (p ++ ext_hid) q l.0 f)
  after_read n ih p ps prev w v l (sndir_error e b) s f = (s, tt)
  after_read n ih p [] prev w v l (sndir_found next len) s f = absurd (by_some f.0)
    where
      by_some : Leads (text w) (p ++ ext_hid) next → ⊥
      by_some (b, g, h) = cc
  after_read n ih p (q ∷ ps) prev w v l (sndir_found next len) s f =
      subst
        (λ x. Found w prev p (q ∷ ps) (earliest_from os files pointers n x (some (p ++ ext_hid)) v))
        (Leads-unique (text w) (p ++ ext_hid) q next l.0 f.0)
        (
          (ih q ps (some (p ++ ext_hid)) v (subst (λ t. Linked t (q ∷ ps)) (sym s) l.1)).0 ∙ s,
          (ih q ps (some (p ++ ext_hid)) v (subst (λ t. Linked t (q ∷ ps)) (sym s) l.1)).1,
        )

  earliest_from-IsEarliest : (n : ℕ) → Rounds n
  unfolding earliest_from
  earliest_from-IsEarliest zero p ps prev w l = (refl, tt)
  earliest_from-IsEarliest (suc n) p ps prev w l =
      by_path (earliest_from-IsEarliest n) (get_hid_path p) refl
    where
      by_path :
          Rounds n
          → (o : Option (List ℕ)) → get_hid_path p ≡ o
          → Found w prev p ps (elim o [
            | none ↦ (earliest_error 36, w)
            | some pointerpath ↦
                (let (r, v) = read_sndir_from_file os files pointers pointerpath w in
                  elim r [
                    | sndir_absent ↦ (earliest p prev, v)
                    | sndir_empty ↦ (earliest [] prev, v)
                    | sndir_error e _ ↦ (earliest_error e, v)
                    | sndir_found path len ↦
                        earliest_from os files pointers n path (some pointerpath) v
                  ])
          ])
      by_path ih none e = (refl, tt)
      by_path ih (some h) e =
          subst
            (λ h'. Found w prev p ps (
              let (r, v) = read_sndir_from_file os files pointers h' w in
              elim r [
                | sndir_absent ↦ (earliest p prev, v)
                | sndir_empty ↦ (earliest [] prev, v)
                | sndir_error e _ ↦ (earliest_error e, v)
                | sndir_found path len ↦ earliest_from os files pointers n path (some h') v
              ]))
            (sym (get_hid_path-some p h e))
            (after_read n ih p ps prev w (read_sndir_from_file os files pointers (p ++ ext_hid) w).1
              l (read_sndir_from_file os files pointers (p ++ ext_hid) w).0
              (read_sndir_from_file-Reads os files pointers (p ++ ext_hid) w).0
              (read_sndir_from_file-Reads os files pointers (p ++ ext_hid) w).1)

  -- Where there are snapshots and their pointer files link them, whatever earliest snapshot
  -- $sn_get_earliest finds is the last of them, with the pointer file that leads to it.
  pub sn_get_earliest-IsEarliest :
      (fs : Fsdata) (p : List ℕ) (ps : List (List ℕ)) (w : World)
      → fs.sn_is_any ≢ 0
      → fs.sn_lat_dir ≡ p
      → Linked (text w) (p ∷ ps)
      → Found w none p ps (sn_get_earliest os files pointers fs w)
  unfolding sn_get_earliest
  sn_get_earliest-IsEarliest fs p ps w a d l = by_test (fs.sn_is_any == 0) (ground (arith, a))
    where
      by_test :
          (b : Bool)
          → b ≡ false
          → Found w none p ps (
              if b
              then (no_snapshots, w)
              else earliest_from os files pointers max_snapshots fs.sn_lat_dir none w)
      by_test true e = absurd (cc)
      by_test false e =
          subst (λ x. Found w none p ps (earliest_from os files pointers max_snapshots x none w))
            (sym d) (earliest_from-IsEarliest max_snapshots p ps none w l)

  pub sn_get_earliest-none :
      (fs : Fsdata) (w : World)
      → fs.sn_is_any ≡ 0
      → sn_get_earliest os files pointers fs w ≡ (no_snapshots, w)
  unfolding sn_get_earliest
  sn_get_earliest-none fs w e = by_test (fs.sn_is_any == 0) (ground (arith, e))
    where
      by_test :
          (b : Bool)
          → b ≡ true
          → ◌≡◌ {A = Earliest × World}
              (if b
                then (no_snapshots, w)
                else earliest_from os files pointers max_snapshots fs.sn_lat_dir none w)
              (no_snapshots, w)
      by_test true h = refl
      by_test false h = absurd cc
