-- ===== src/Snapshots/Listing.antt =====
-- What $sn_get_paths_to lists where the snapshots are linked.
use esfs.Base.{
  ℕ, zero, suc, ◌+◌, ◌-◌, ◌≡◌, ◌≢◌, refl, sym, ◌∙◌, subst, Bool, true, false, Option, none, some,
  List, [], ◌∷◌, ◌++◌, length, if◌then◌else◌, arith, str_eq, eq_of_str_eq, str_eq_refl, leb,
}
use esfs.Os.{Os}
use esfs.Files.{Files}
use esfs.Handle.Open.{Fsdata}
use esfs.Paths.Build.{path_max, ext_hid, get_hid_path}
use esfs.Paths.Snpath.{Snpath, snpath_root, snpath_id, snpath_full, SnpathTypes}
use esfs.Snapshots.Pointers.{
  PointerFiles, Sndir, sndir_found, sndir_absent, sndir_empty, sndir_error, read_sndir_from_file,
}
use esfs.Snapshots.Walk.{paths_from, sn_get_paths_to, max_snapshots}
use esfs.Snapshots.Chain.{Leads, Linked, ReadsAs, read_sndir_from_file-Reads}
use esfs.Snapshots.Earliest.{get_hid_path-some, Leads-unique}

-- `qs` are the snapshots `ps` from the first one up to the one at `root`.
abbrev pub IsUpTo : List ℕ → List (List ℕ) → List (List ℕ) → Type 0
IsUpTo root ps [] = ⊥
IsUpTo root [] (q ∷ qs) = ⊥
IsUpTo root (p ∷ ps) (q ∷ []) = (q ≡ p) × (root ≡ p)
IsUpTo root (p ∷ ps) (q ∷ r ∷ qs) = (q ≡ p) × (root ≢ p) × IsUpTo root ps (r ∷ qs)

add_path :
    (root p : List ℕ) (ps qs : List (List ℕ))
    → root ≢ p
    → IsUpTo root ps qs
    → IsUpTo root (p ∷ ps) (p ∷ qs)
add_path root p ps [] d h = elim h [ ]
add_path root p ps (q ∷ qs) d h = (refl, d, h)

module _ (os : Os) (files : Files os) (pointers : PointerFiles os files) where
  open os use {World}
  open pointers use {text}

  -- The right paths, if any, and no file written.
  abbrev Listed : World → List ℕ → List (List ℕ) → Option (List (List ℕ)) × ℕ × World → Type 0
  Listed w root ps (none, e, v) = text v ≡ text w
  Listed w root ps (some qs, e, v) = (text v ≡ text w) × IsUpTo root ps qs

  abbrev Rounds : ℕ → List ℕ → Type 0
  Rounds n root =
      (p : List ℕ) (ps : List (List ℕ)) (w : World)
      → Linked (text w) (p ∷ ps)
      → Listed w root (p ∷ ps) (paths_from os files pointers n root p w)

  -- The rest of the paths behind `p`.
  behind :
      (root p : List ℕ) (ps : List (List ℕ)) (w v : World)
      → root ≢ p
      → text v ≡ text w
      → (r : Option (List (List ℕ)) × ℕ × World) → Listed v root ps r
      → Listed w root (p ∷ ps) (elim r.0 [ none ↦ none | some qs ↦ some (p ∷ qs) ], r.1, r.2)
  behind root p ps w v d s (none, e, u) h = h ∙ s
  behind root p ps w v d s (some qs, e, u) h = (h.0 ∙ s, add_path root p ps qs d h.1)

  after_read :
      (n : ℕ) (root : List ℕ)
      → Rounds n root
      → (p : List ℕ) (ps : List (List ℕ)) (w v : World) → Linked (text w) (p ∷ ps)
      → root ≢ p
      → (r : Sndir) → text v ≡ text w
      → ReadsAs (text w) (p ++ ext_hid) r
      → Listed w root (p ∷ ps) (elim r [
        | sndir_absent ↦ (none, 14, v)
        | sndir_empty ↦ (none, 14, v)
        | sndir_error e _ ↦ (none, e, v)
        | sndir_found next len ↦
            (let (rest, e, u) = paths_from os files pointers n root next v in
              (elim rest [ none ↦ none | some qs ↦ some (p ∷ qs) ], e, u))
      ])
  after_read n root ih p ps w v l d sndir_absent s f = s
  after_read n root ih p ps w v l d sndir_empty s f = s
  after_read n root ih p ps w v l d (sndir_error e b) s f = s
  after_read n root ih p [] w v l d (sndir_found next len) s f = absurd (by_some f.0)
    where
      by_some : Leads (text w) (p ++ ext_hid) next → ⊥
      by_some (b, g, h) = cc
  after_read n root ih p (q ∷ ps) w v l d (sndir_found next len) s f =
      behind root p (q ∷ ps) w v d s (paths_from os files pointers n root next v) (
        subst (λ x. Listed v root (q ∷ ps) (paths_from os files pointers n root x v))
          (Leads-unique (text w) (p ++ ext_hid) q next l.0 f.0)
          (ih q ps v (subst (λ t. Linked t (q ∷ ps)) (sym s) l.1)))

  paths_from-Listed : (n : ℕ) (root : List ℕ) → Rounds n root
  unfolding paths_from
  paths_from-Listed zero root p ps w l = by_test (str_eq root p) refl
    where
      by_path :
          (o : Option (List ℕ))
          → Listed w root (p ∷ ps) (elim o [ none ↦ (none, 36, w) | some _ ↦ (none, 5, w) ])
      by_path none = refl
      by_path (some h) = refl

      by_test :
          (b : Bool)
          → str_eq root p ≡ b
          → Listed w root (p ∷ ps) (
              if b
              then (some (p ∷ []), 0, w)
              else elim (get_hid_path p) [ none ↦ (none, 36, w) | some _ ↦ (none, 5, w) ])
      by_test true e = (refl, (refl, eq_of_str_eq root p e))
      by_test false e = by_path (get_hid_path p)
  paths_from-Listed (suc n) root p ps w l = by_test (paths_from-Listed n root) (str_eq root p) refl
    where
      by_path :
          Rounds n root
          → root ≢ p
          → (o : Option (List ℕ)) → get_hid_path p ≡ o
          → Listed w root (p ∷ ps) (elim o [
            | none ↦ (none, 36, w)
            | some pointerpath ↦
                (let (r, v) = read_sndir_from_file os files pointers pointerpath w in
                  elim r [
                    | sndir_absent ↦ (none, 14, v)
                    | sndir_empty ↦ (none, 14, v)
                    | sndir_error e _ ↦ (none, e, v)
                    | sndir_found next len ↦
                        (let (rest, e, u) = paths_from os files pointers n root next v in
                          (elim rest [ none ↦ none | some qs ↦ some (p ∷ qs) ], e, u))
                  ])
          ])
      by_path ih d none e = refl
      by_path ih d (some h) e =
          subst
            (λ h'. Listed w root (p ∷ ps) (
              let (r, v) = read_sndir_from_file os files pointers h' w in
              elim r [
                | sndir_absent ↦ (none, 14, v)
                | sndir_empty ↦ (none, 14, v)
                | sndir_error e _ ↦ (none, e, v)
                | sndir_found next len ↦
                    (let (rest, e, u) = paths_from os files pointers n root next v in
                      (elim rest [ none ↦ none | some qs ↦ some (p ∷ qs) ], e, u))
              ]))
            (sym (get_hid_path-some p h e))
            (after_read n root ih p ps w (read_sndir_from_file os files pointers (p ++ ext_hid) w).1
              l d (read_sndir_from_file os files pointers (p ++ ext_hid) w).0
              (read_sndir_from_file-Reads os files pointers (p ++ ext_hid) w).0
              (read_sndir_from_file-Reads os files pointers (p ++ ext_hid) w).1)

      by_test :
          Rounds n root
          → (b : Bool) → str_eq root p ≡ b
          → Listed w root (p ∷ ps) (
              if b then (some (p ∷ []), 0, w) else elim (get_hid_path p) [
                | none ↦ (none, 36, w)
                | some pointerpath ↦
                    (let (r, v) = read_sndir_from_file os files pointers pointerpath w in
                      elim r [
                        | sndir_absent ↦ (none, 14, v)
                        | sndir_empty ↦ (none, 14, v)
                        | sndir_error e _ ↦ (none, e, v)
                        | sndir_found next len ↦
                            (let (rest, e, u) = paths_from os files pointers n root next v in
                              (elim rest [ none ↦ none | some qs ↦ some (p ∷ qs) ], e, u))
                      ])
              ])
      by_test ih true e = (refl, (refl, eq_of_str_eq root p e))
      by_test ih false e = by_path ih (λ q. absurd (differ q)) (get_hid_path p) refl
        where
          differ : root ≡ p → ⊥
          differ q = ground (arith, str_eq_refl p)

  -- The root of the main space and the right paths, if any, and no file written.
  abbrev pub Steps :
      World → Fsdata → List ℕ → List (List ℕ) → Option (List (List ℕ)) × ℕ × World → Type 0
  Steps w fs root ps (none, e, v) = text v ≡ text w
  Steps w fs root ps (some [], e, v) = ⊥
  Steps w fs root ps (some (r ∷ qs), e, v) =
      (text v ≡ text w) × (r ≡ fs.rootdir) × IsUpTo root ps qs

  with_root :
      (w : World) (fs : Fsdata) (root : List ℕ) (ps : List (List ℕ))
      → (r : Option (List (List ℕ)) × ℕ × World) → Listed w root ps r
      → Steps w fs root ps (elim r.0 [ none ↦ none | some qs ↦ some (fs.rootdir ∷ qs) ], r.1, r.2)
  with_root w fs root ps (none, e, v) h = h
  with_root w fs root ps (some qs, e, v) h = (h.0, refl, h.1)

  -- Where there are snapshots and their pointer files link them, the paths that $sn_get_paths_to
  -- lists, if it lists any, are the root of the main space and then the snapshots from the latest
  -- one up to the first that has the path asked for, and no file is written.
  pub sn_get_paths_to-Steps :
      (fs : Fsdata) (snpath : Snpath) (p : List ℕ) (ps : List (List ℕ)) (w : World)
      → fs.sn_lat_dir ≡ p
      → Linked (text w) (p ∷ ps)
      → Steps w fs (fs.sn_dir ++ snpath.id) (p ∷ ps) (sn_get_paths_to os files pointers fs snpath w)
  unfolding sn_get_paths_to
  sn_get_paths_to-Steps fs snpath p ps w d l = by_kind snpath.is_there
    where
      root : List ℕ
      root = fs.sn_dir ++ snpath.id

      found :
          Listed w root
            (p ∷ ps)
            (paths_from os files pointers (max_snapshots - 2) root fs.sn_lat_dir w)
      found =
          subst
            (λ x.
              Listed w root (p ∷ ps) (paths_from os files pointers (max_snapshots - 2) root x w))
            (sym d) (paths_from-Listed (max_snapshots - 2) root p ps w l)

      by_room :
          (b : Bool)
          → Steps w fs root (p ∷ ps) (
              if b
              then (none, 36, w)
              else (let (qs, e, v) =
                    paths_from os files pointers (max_snapshots - 2) root fs.sn_lat_dir w in
                  (elim qs [ none ↦ none | some r ↦ some (fs.rootdir ∷ r) ], e, v)))
      by_room true = refl
      by_room false =
          with_root w fs root (p ∷ ps)
            (paths_from os files pointers (max_snapshots - 2) root fs.sn_lat_dir w) found

      by_kind :
          (k : SnpathTypes)
          → Steps w fs root (p ∷ ps) (elim k [
            | snpath_root ↦ (none, 14, w)
            | _ ↦
                if leb path_max (length snpath.id + length fs.sn_dir)
                then (none, 36, w)
                else (let (qs, e, v) =
                      paths_from os files pointers (max_snapshots - 2) root fs.sn_lat_dir w in
                    (elim qs [ none ↦ none | some r ↦ some (fs.rootdir ∷ r) ], e, v))
          ])
      by_kind snpath_root = refl
      by_kind snpath_id = by_room (leb path_max (length snpath.id + length fs.sn_dir))
      by_kind snpath_full = by_room (leb path_max (length snpath.id + length fs.sn_dir))
