-- ===== src/Snapshots/Spec.antt =====
-- What snapshot.c keeps: a list of snapshots, the latest first, recorded in the pointer files and in
-- $fsdata_t.
use esfs.Base.{
  ℕ, ◌+◌, ◌<◌, ◌≡◌, ◌≢◌, refl, sym, ◌∙◌, ap, none, some, List, [], ◌∷◌, ◌++◌, length, arith,
  append_assoc, append_cancel_left, append_cancel_right, length-append,
}
use esfs.Handle.Open.{Fsdata}
use esfs.Paths.Build.{dirsep_ch, ext_hid}
use esfs.Paths.Snpath.{strchr, strchr-append}
use esfs.Snapshots.Pointers.{Texts}
use esfs.Snapshots.Manage.{Under}
use esfs.Snapshots.Chain.{Leads, Linked}

-- The path of an entry of the directory `dir` with a name that is not empty.
pub record EntryOf (dir path : List ℕ) : Type 0 where
  pub id : List ℕ
  pub joined : path ≡ dir ++ (dirsep_ch ∷ id)
  pub one_name : strchr id dirsep_ch ≡ none
  pub some_name : 0 < length id

abbrev pub Entries : List ℕ → List (List ℕ) → Type 0
Entries dir [] = Unit
Entries dir (p ∷ ps) = EntryOf dir p × Entries dir ps

abbrev pub Differs : List ℕ → List (List ℕ) → Type 0
Differs q [] = Unit
Differs q (p ∷ ps) = (q ≢ p) × Differs q ps

abbrev pub Distinct : List (List ℕ) → Type 0
Distinct [] = Unit
Distinct (p ∷ ps) = Differs p ps × Distinct ps

-- .../snapshots/.hid
abbrev pub main_pointer : List ℕ → List ℕ
main_pointer dir = (dir ++ (dirsep_ch ∷ [])) ++ ext_hid

-- What $fsdata_t and the pointer to the latest snapshot say.
abbrev pub Latest : Fsdata → Texts → List (List ℕ) → Type 0
Latest fs t [] = (fs.sn_is_any ≡ 0) × (t (main_pointer fs.sn_dir) ≡ none)
Latest fs t (p ∷ ps) = (fs.sn_is_any ≢ 0) × (fs.sn_lat_dir ≡ p) × Leads t (main_pointer fs.sn_dir) p

-- The snapshots `ps` are recorded, and no other pointer file stands in the directory.
pub record Recorded (fs : Fsdata) (t : Texts) (ps : List (List ℕ)) : Type 0 where
  pub entries : Entries fs.sn_dir ps
  pub distinct : Distinct ps
  pub linked : Linked t ps
  pub latest : Latest fs t ps
  pub free : (q : List ℕ) → EntryOf fs.sn_dir q → Differs q ps → t (q ++ ext_hid) ≡ none

strchr-append_none :
    (s t : List ℕ) (c : ℕ) → strchr s c ≡ none → strchr t c ≡ none → strchr (s ++ t) c ≡ none
unfolding strchr
strchr-append_none [] t c h k = k
strchr-append_none (x ∷ s) t c h k = ground (arith, strchr-append_none s t c)

-- The pointer file of an entry, as an entry.
hid-entry :
    (dir p : List ℕ) (e : EntryOf dir p) → p ++ ext_hid ≡ dir ++ (dirsep_ch ∷ (e.id ++ ext_hid))
hid-entry dir p e = ap (λ s. s ++ ext_hid) e.joined ∙ append_assoc dir (dirsep_ch ∷ e.id) ext_hid

main-entry : (dir : List ℕ) → main_pointer dir ≡ dir ++ (dirsep_ch ∷ ext_hid)
main-entry dir = append_assoc dir (dirsep_ch ∷ []) ext_hid

same_tail : (x : ℕ) (s t : List ℕ) → x ∷ s ≡ x ∷ t → s ≡ t
same_tail x s t h = cc

-- What has one name in `dir` is not below an entry of it.
entry-Under :
    (dir q s : List ℕ)
    → EntryOf dir q
    → strchr s dirsep_ch ≡ none
    → ¬ Under q (dir ++ (dirsep_ch ∷ s))
entry-Under dir q s e n (r, u) = by_search names (strchr-append e.id r dirsep_ch e.one_name)
  where
    names : s ≡ e.id ++ (dirsep_ch ∷ r)
    names = same_tail dirsep_ch s (e.id ++ (dirsep_ch ∷ r)) (
        append_cancel_left dir (dirsep_ch ∷ s) (dirsep_ch ∷ (e.id ++ (dirsep_ch ∷ r))) (
          u
          ∙ ap (λ x. x ++ (dirsep_ch ∷ r)) e.joined
          ∙ append_assoc dir (dirsep_ch ∷ e.id) (dirsep_ch ∷ r)))

    by_search :
        s ≡ e.id ++ (dirsep_ch ∷ r)
        → strchr (e.id ++ (dirsep_ch ∷ r)) dirsep_ch ≡ some (length e.id)
        → ⊥
    by_search k f = cc

module _ (dir : List ℕ) where
  pub hid-Under : (p q : List ℕ) → EntryOf dir p → EntryOf dir q → ¬ Under q (p ++ ext_hid)
  hid-Under p q e f (r, u) =
      entry-Under dir q (e.id ++ ext_hid) f
        (strchr-append_none e.id ext_hid dirsep_ch e.one_name (unfold strchr in refl))
        (r, sym (hid-entry dir p e) ∙ u)

  pub main_pointer-Under : (q : List ℕ) → EntryOf dir q → ¬ Under q (main_pointer dir)
  main_pointer-Under q f (r, u) =
      entry-Under dir q ext_hid f (unfold strchr in refl) (r, sym (main-entry dir) ∙ u)

  -- The pointer to the latest snapshot is no entry's pointer.
  pub main_pointer-differs : (p : List ℕ) → EntryOf dir p → main_pointer dir ≢ p ++ ext_hid
  main_pointer-differs p e h = absurd (
      by_length (length-append e.id ext_hid) (
        ap length (
          same_tail dirsep_ch ext_hid (e.id ++ ext_hid) (
            append_cancel_left dir (dirsep_ch ∷ ext_hid) (dirsep_ch ∷ (e.id ++ ext_hid))
              (sym (main-entry dir) ∙ h ∙ hid-entry dir p e)))))
    where
      by_length :
          length (e.id ++ ext_hid) ≡ length e.id + length ext_hid
          → length ext_hid ≡ length (e.id ++ ext_hid)
          → ⊥
      by_length a b = omega (arith, a, b, e.some_name)

pub hid-differs : (p q : List ℕ) → p ≢ q → p ++ ext_hid ≢ q ++ ext_hid
hid-differs p q d h = d (append_cancel_right p q ext_hid h)
