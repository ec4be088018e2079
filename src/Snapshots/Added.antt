-- ===== src/Snapshots/Added.antt =====
-- Putting a snapshot at the front of the list, by what it does to the pointer files.
use esfs.Base.{
  ℕ, ◌<◌, length, length-append, subst, ◌≡◌, ◌≢◌, refl, sym, ◌∙◌, ap, some, List, [], ◌∷◌, ◌++◌,
  arith,
}
use esfs.Paths.Build.{ext_hid, dirsep_ch}
use esfs.Handle.Open.{Fsdata}
use esfs.Snapshots.Pointers.{Texts, SetText}
use esfs.Snapshots.Chain.{Linked}
use esfs.Snapshots.Spec.{
  EntryOf, Entries, Differs, main_pointer, Recorded, main_pointer-differs, hid-differs,
}
use esfs.Snapshots.Stored.{IsPath, stored-nul, stored-IsPath}
use esfs.Snapshots.Latest.{with_latest}
use esfs.Snapshots.Dropped.{Leads-same}

module _ (dir path : List ℕ) (t t' : Texts)
    (kept : (x : List ℕ) → EntryOf dir x → x ≢ path → t' (x ++ ext_hid) ≡ t (x ++ ext_hid)) where
  -- Snapshots whose pointer files are kept stay linked.
  Linked-kept : (ps : List (List ℕ)) → Entries dir ps → Differs path ps → Linked t ps → Linked t' ps
  Linked-kept [] e d l = tt
  Linked-kept (p ∷ []) e d l = kept p e.0 (λ h. d.0 (sym h)) ∙ l
  Linked-kept (p ∷ q ∷ ps) e d l = (
    Leads-same t t' (p ++ ext_hid) q (kept p e.0 (λ h. d.0 (sym h))) l.0,
    Linked-kept (q ∷ ps) e.1 d.1 l.1,
  )

entry_length : {dir path : List ℕ} → EntryOf dir path → 0 < length path
entry_length {dir} {path} e =
    subst (λ x. 0 < length x) (sym e.joined) (omega (arith, length-append dir (dirsep_ch ∷ e.id)))

-- The first snapshot.
pub first-Recorded :
    (fs : Fsdata) (path : List ℕ) (t t' : Texts)
    → EntryOf fs.sn_dir path
    → IsPath path
    → Recorded fs t []
    → SetText t t' (main_pointer fs.sn_dir) (some (path ++ (0 ∷ [])))
    → Recorded (with_latest fs path) t' (path ∷ [])
first-Recorded fs path t t' e i k s = record {
  entries = (e, tt);
  distinct = (tt, tt);
  linked = kept path e ∙ k.free path e tt;
  latest =
      (λ h. omega (arith, h), refl, (path ++ (0 ∷ []), s.at, stored-nul path i (entry_length e)));
  free = λ x f d. kept x f ∙ k.free x f tt;
}
  where
    kept : (x : List ℕ) → EntryOf fs.sn_dir x → t' (x ++ ext_hid) ≡ t (x ++ ext_hid)
    kept x f = s.others (x ++ ext_hid) (λ h. main_pointer-differs fs.sn_dir x f (sym h))

-- A further snapshot.
pub next-Recorded :
    (fs : Fsdata) (path p : List ℕ) (ps : List (List ℕ)) (t u t' : Texts)
    → EntryOf fs.sn_dir path
    → IsPath path
    → Differs path (p ∷ ps)
    → Recorded fs t (p ∷ ps)
    → SetText t u (path ++ ext_hid) (some (fs.sn_lat_dir ++ (0 ∷ [])))
    → SetText u t' (main_pointer fs.sn_dir) (some (path ++ (0 ∷ [])))
    → Recorded (with_latest fs path) t' (path ∷ p ∷ ps)
next-Recorded fs path p ps t u t' e i d k a b = record {
  entries = (e, k.entries);
  distinct = (d, k.distinct);
  linked = (
    (
      p ++ (0 ∷ []),
      there e ∙ a.at ∙ ap (λ x. some (x ++ (0 ∷ []))) k.latest.1,
      stored-nul p p_path (entry_length k.entries.0),
    ),
    Linked-kept fs.sn_dir path t t' kept (p ∷ ps) k.entries d k.linked,
  );
  latest =
      (λ h. omega (arith, h), refl, (path ++ (0 ∷ []), b.at, stored-nul path i (entry_length e)));
  free = λ x f n. kept x f n.0 ∙ k.free x f n.1;
}
  where
    there : {x : List ℕ} → EntryOf fs.sn_dir x → t' (x ++ ext_hid) ≡ u (x ++ ext_hid)
    there {x} f = b.others (x ++ ext_hid) (λ h. main_pointer-differs fs.sn_dir x f (sym h))

    kept : (x : List ℕ) → EntryOf fs.sn_dir x → x ≢ path → t' (x ++ ext_hid) ≡ t (x ++ ext_hid)
    kept x f n = there f ∙ a.others (x ++ ext_hid) (hid-differs x path n)

    p_path : IsPath p
    p_path = stored-IsPath k.latest.2.0 p k.latest.2.2
