-- ===== src/Snapshots/Latest.antt =====
-- $sn_set_latest, and $sn_get_latest after it.
use esfs.Base.{
  ℕ, suc, ◌+◌, ◌<◌, ◌≡◌, refl, sym, ◌∙◌, ap, ap₂, subst, Bool, true, false, Option, none, some,
  List, [], ◌∷◌, ◌++◌, length, take, arith, ==_iff, ◌==◌,
}
use esfs.Os.{Os, Ret, done, failed}
use esfs.Files.{Files, Opened, fd_opened, open_failed}
use esfs.Types.{Result, ret, err}
use esfs.Types.Errno.{eio, enametoolong}
use esfs.Paths.Build.{get_dir_hid_path, get_dir_hid_path-Fits}
use esfs.Handle.Open.{Fsdata}
use esfs.Snapshots.Pointers.{
  Texts, PointerFiles, SetText, Sndir, sndir_found, sndir_absent, sndir_empty, sndir_error,
  read_sndir_from_file, read_over, sn_set_latest, sn_get_latest,
}
use esfs.Snapshots.Chain.{ReadsAs, Unreadable, Leads-Unreadable, read_sndir_from_file-Reads}
use esfs.Snapshots.Earliest.{Leads-unique}
use esfs.Snapshots.Spec.{main_pointer}
use esfs.Snapshots.Stored.{IsPath, take-nul, stored-nul, length-stored}

-- A file written whole after it was emptied.
pub SetText-twice :
    (t u v : Texts) (p : List ℕ) (a s : Option (List ℕ))
    → SetText t u p a
    → SetText u v p s
    → SetText t v p s
SetText-twice t u v p a s x y = record { at = y.at; others = λ q d. y.others q d ∙ x.others q d }

-- What $fsdata_t says once `path` is the latest snapshot.
abbrev pub with_latest : Fsdata → List ℕ → Fsdata
with_latest fs path = record fs {
  sn_lat_dir = path;
  sn_lat_dir_len = length path;
  sn_is_any = 1;
  sn_number = fs.sn_number + 1;
}

module _ (os : Os) (files : Files os) (pointers : PointerFiles os files) where
  open os use {World, Fd}
  open pointers use {text, place}

  -- A path and its NUL written whole to a file that is empty.
  pub pwrite-nul :
      (fd : Fd) (path at : List ℕ) (n : ℕ) (t : Texts) (v : World)
      → (pointers.pwrite_text fd (path ++ (0 ∷ [])) v).0 ≡ done n
      → n ≡ length path + 1
      → place fd v ≡ at
      → SetText t (text v) at (some [])
      → SetText t
          (text (pointers.pwrite_text fd (path ++ (0 ∷ [])) v).1)
          at
          (some (path ++ (0 ∷ [])))
  pwrite-nul fd path at n t v h e l s =
      SetText-twice t (text v) (text (pointers.pwrite_text fd (path ++ (0 ∷ [])) v).1) at (some [])
        (some (path ++ (0 ∷ []))) s
        (subst
          (λ x.
            SetText (text v) (text (pointers.pwrite_text fd (path ++ (0 ∷ [])) v).1) at (some x))
          (take-nul path n e)
          (subst
            (λ x.
              SetText (text v) (text (pointers.pwrite_text fd (path ++ (0 ∷ [])) v).1) x
                (some (take n (path ++ (0 ∷ [])))))
            l (pointers.pwrite_text_done fd (path ++ (0 ∷ [])) v n h (ap (text v) l ∙ s.at))))

  -- Where there is no error, `path` is recorded as the latest snapshot, and no other file written.
  abbrev pub SetsLatest : Fsdata → List ℕ → World → Result × Fsdata × World → Type 0
  SetsLatest fs path w (err e, fs', v) = (fs' ≡ fs) × (0 < e)
  SetsLatest fs path w (ret n, fs', v) =
      (fs' ≡ with_latest fs path)
      × SetText (text w) (text v) (main_pointer fs.sn_dir) (some (path ++ (0 ∷ [])))

  pub sn_set_latest-SetsLatest :
      (fs : Fsdata) (path : List ℕ) (w : World)
      → SetsLatest fs path w (sn_set_latest os files pointers fs path w)
  unfolding sn_set_latest
  sn_set_latest-SetsLatest fs path w = by_path (get_dir_hid_path fs.sn_dir) refl
    where
      by_count :
          (pointer : List ℕ) (fd : Fd) (u : World) (n : ℕ) (b : Bool)
          → (n == (length path + 1)) ≡ b
          → (n ≡ length path + 1
              → SetText (text w) (text u) (main_pointer fs.sn_dir) (some (path ++ (0 ∷ []))))
          → SetsLatest fs path w (elim b [
            | false ↦ (err eio, fs, u)
            | true ↦ (ret 0, with_latest fs path, (files.close fd u).1)
          ])
      by_count pointer fd u n false h s = (refl, omega arith)
      by_count pointer fd u n true h s = (
        refl,
        subst (λ t. SetText (text w) t (main_pointer fs.sn_dir) (some (path ++ (0 ∷ []))))
            (sym (pointers.close_same fd u)) (s ((==_iff n (length path + 1)).0 h)),
      )

      by_write :
          (pointer : List ℕ)
          → pointer ≡ main_pointer fs.sn_dir
          → (fd : Fd) (v : World)
          → (place fd v ≡ pointer) × SetText (text w) (text v) pointer (some [])
          → (q : Ret) → (pointers.pwrite_text fd (path ++ (0 ∷ [])) v).0 ≡ q
          → SetsLatest fs path w (elim q [
            | failed e ↦ (err (suc e), fs, (pointers.pwrite_text fd (path ++ (0 ∷ [])) v).1)
            | done n ↦ elim (n == length path + 1) [
              | false ↦ (err eio, fs, (pointers.pwrite_text fd (path ++ (0 ∷ [])) v).1)
              | true ↦ (
                ret 0,
                with_latest fs path,
                (files.close fd (pointers.pwrite_text fd (path ++ (0 ∷ [])) v).1).1,
              )
            ]
          ])
      by_write pointer m fd v o (failed e) h = (refl, omega arith)
      by_write pointer m fd v o (done n) h =
          by_count pointer fd (pointers.pwrite_text fd (path ++ (0 ∷ [])) v).1 n
            (n == length path + 1) refl
            (λ e.
              subst
                (λ x.
                  SetText (text w) (text (pointers.pwrite_text fd (path ++ (0 ∷ [])) v).1) x
                    (some (path ++ (0 ∷ []))))
                m (pwrite-nul fd path pointer n (text w) v h e o.0 o.1))

      by_open :
          (pointer : List ℕ)
          → pointer ≡ main_pointer fs.sn_dir
          → (r : Opened Fd) → (pointers.open_trunc pointer w).0 ≡ r
          → SetsLatest fs path w (elim r [
            | open_failed e ↦ (err (suc e), fs, (pointers.open_trunc pointer w).1)
            | fd_opened fd ↦
                (let (q, u) =
                    pointers.pwrite_text fd (path ++ (0 ∷ [])) (pointers.open_trunc pointer w).1 in
                  elim q [
                    | failed e ↦ (err (suc e), fs, u)
                    | done n ↦ elim (n == length path + 1) [
                      | false ↦ (err eio, fs, u)
                      | true ↦ (ret 0, with_latest fs path, (files.close fd u).1)
                    ]
                  ])
          ])
      by_open pointer m (open_failed e) h = (refl, omega arith)
      by_open pointer m (fd_opened fd) h =
          by_write pointer m fd (pointers.open_trunc pointer w).1
            (pointers.open_trunc_done pointer w fd h)
            (pointers.pwrite_text fd (path ++ (0 ∷ [])) (pointers.open_trunc pointer w).1).0 refl

      by_path :
          (o : Option (List ℕ))
          → get_dir_hid_path fs.sn_dir ≡ o
          → SetsLatest fs path w (elim o [
            | none ↦ (err enametoolong, fs, w)
            | some pointer ↦
                (let (r, v) = pointers.open_trunc pointer w in
                  elim r [
                    | open_failed e ↦ (err (suc e), fs, v)
                    | fd_opened fd ↦
                        (let (q, u) = pointers.pwrite_text fd (path ++ (0 ∷ [])) v in
                          elim q [
                            | failed e ↦ (err (suc e), fs, u)
                            | done n ↦ elim (n == length path + 1) [
                              | false ↦ (err eio, fs, u)
                              | true ↦ (ret 0, with_latest fs path, (files.close fd u).1)
                            ]
                          ])
                  ])
          ])
      by_path none h = (refl, omega arith)
      by_path (some pointer) h =
          by_open pointer ((get_dir_hid_path-Fits fs.sn_dir).text pointer h)
            (pointers.open_trunc pointer w).0 refl

  -- $fsdata_t tells of the snapshot at `path`, or of none.
  abbrev pub Tells : Fsdata → Option (List ℕ) → Fsdata → Type 0
  Tells fs none fs' = fs' ≡ record fs { sn_is_any = 0 }
  Tells fs (some path) fs' =
      fs' ≡ record fs { sn_is_any = 1; sn_lat_dir = path; sn_lat_dir_len = length path }

  -- No file is written, and where there is no error, `path` is the latest snapshot found.
  abbrev pub GetsLatest : Fsdata → Option (List ℕ) → World → Result × Fsdata × World → Type 0
  GetsLatest fs path w (err e, fs', v) = (text v ≡ text w) × (fs' ≡ fs)
  GetsLatest fs path w (ret n, fs', v) = (text v ≡ text w) × Tells fs path fs'

  -- A pointer file as $sn_set_latest leaves it, or its absence.
  abbrev pub Points : Texts → List ℕ → Option (List ℕ) → Type 0
  Points t h none = t h ≡ none
  Points t h (some path) = (t h ≡ some (path ++ (0 ∷ []))) × IsPath path × (0 < length path)

  sn_get_latest-GetsLatest :
      (fs : Fsdata) (rest : List ℕ) (path : Option (List ℕ)) (w : World)
      → Points (text w) (main_pointer fs.sn_dir) path
      → GetsLatest fs path w (sn_get_latest os files pointers fs rest w)
  unfolding sn_get_latest read_over
  sn_get_latest-GetsLatest fs rest path w k = by_path (get_dir_hid_path fs.sn_dir) refl
    where
      apart :
          (b : List ℕ)
          → text w (main_pointer fs.sn_dir) ≡ some b
          → text w (main_pointer fs.sn_dir) ≡ none
          → ⊥
      apart b g f = cc

      leads :
          (p : List ℕ)
          → Points (text w) (main_pointer fs.sn_dir) (some p)
          → Unreadable (text w) (main_pointer fs.sn_dir)
          → ⊥
      leads p j =
          Leads-Unreadable (text w) (main_pointer fs.sn_dir) p
            (p ++ (0 ∷ []), j.0, stored-nul p j.1 j.2)

      by_read :
          (path : Option (List ℕ))
          → Points (text w) (main_pointer fs.sn_dir) path
          → (r : Sndir) (v : World) → text v ≡ text w
          → ReadsAs (text w) (main_pointer fs.sn_dir) r
          → GetsLatest fs path w (elim r [
            | sndir_absent ↦ (ret 0, record fs { sn_is_any = 0 }, v)
            | sndir_empty ↦ (ret 0, record fs { sn_is_any = 0; sn_lat_dir = [] }, v)
            | sndir_error e bytes ↦
                (err e, record fs { sn_lat_dir = read_over bytes fs.sn_lat_dir rest }, v)
            | sndir_found latest len ↦
                (ret 0, record fs { sn_is_any = 1; sn_lat_dir = latest; sn_lat_dir_len = len }, v)
          ])
      by_read none k sndir_absent v s f = (s, refl)
      by_read (some p) j sndir_absent v s f = absurd (apart (p ++ (0 ∷ [])) j.0 f)
      by_read none k sndir_empty v s f = absurd (apart f.0 f.1 k)
      by_read (some p) j sndir_empty v s f = absurd (leads p j f)
      by_read path k (sndir_error e []) v s f = (s, refl)
      by_read none k (sndir_error e (x ∷ b)) v s f = absurd (apart f.0 f.1 k)
      by_read (some p) j (sndir_error e (x ∷ b)) v s f = absurd (leads p j f)
      by_read none j (sndir_found q len) v s f = absurd (apart f.0.0 f.0.1 j)
      by_read (some p) j (sndir_found q len) v s f = (
        s,
        ap₂ (λ x n. record fs { sn_is_any = 1; sn_lat_dir = x; sn_lat_dir_len = n })
            (Leads-unique (text w) (main_pointer fs.sn_dir) q p f.0
              (p ++ (0 ∷ []), j.0, stored-nul p j.1 j.2))
            (f.1 (p ++ (0 ∷ [])) j.0 ∙ length-stored p j.1),
      )

      by_path :
          (o : Option (List ℕ))
          → get_dir_hid_path fs.sn_dir ≡ o
          → GetsLatest fs path w (elim o [
            | none ↦ (err enametoolong, fs, w)
            | some p ↦
                (let (r, v) = read_sndir_from_file os files pointers p w in
                  elim r [
                    | sndir_absent ↦ (ret 0, record fs { sn_is_any = 0 }, v)
                    | sndir_empty ↦ (ret 0, record fs { sn_is_any = 0; sn_lat_dir = [] }, v)
                    | sndir_error e bytes ↦
                        (err e, record fs { sn_lat_dir = read_over bytes fs.sn_lat_dir rest }, v)
                    | sndir_found latest len ↦ (
                      ret 0,
                      record fs { sn_is_any = 1; sn_lat_dir = latest; sn_lat_dir_len = len },
                      v,
                    )
                  ])
          ])
      by_path none h = (refl, refl)
      by_path (some p) h =
          subst
            (λ p. GetsLatest fs path w (
              let (r, v) = read_sndir_from_file os files pointers p w in
              elim r [
                | sndir_absent ↦ (ret 0, record fs { sn_is_any = 0 }, v)
                | sndir_empty ↦ (ret 0, record fs { sn_is_any = 0; sn_lat_dir = [] }, v)
                | sndir_error e bytes ↦
                    (err e, record fs { sn_lat_dir = read_over bytes fs.sn_lat_dir rest }, v)
                | sndir_found latest len ↦ (
                  ret 0,
                  record fs { sn_is_any = 1; sn_lat_dir = latest; sn_lat_dir_len = len },
                  v,
                )
              ]))
            (sym ((get_dir_hid_path-Fits fs.sn_dir).text p h))
            (by_read path k (read_sndir_from_file os files pointers (main_pointer fs.sn_dir) w).0
              (read_sndir_from_file os files pointers (main_pointer fs.sn_dir) w).1
              (read_sndir_from_file-Reads os files pointers (main_pointer fs.sn_dir) w).0
              (read_sndir_from_file-Reads os files pointers (main_pointer fs.sn_dir) w).1)

  -- For a path that is not empty, has no NUL and fits PATH_MAX bytes with one: where
  -- $sn_set_latest returns no error, $sn_get_latest afterwards, from whatever $fsdata_t of the
  -- same snapshot directory, finds that path and its length, or reports an error and keeps its
  -- fsdata; it writes no file.
  pub sn_get_latest-sn_set_latest :
      (fs old : Fsdata) (path rest : List ℕ) (w v : World) (n : ℕ) (fs' : Fsdata)
      → IsPath path
      → 0 < length path
      → old.sn_dir ≡ fs.sn_dir
      → sn_set_latest os files pointers fs path w ≡ (ret n, fs', v)
      → GetsLatest old (some path) v (sn_get_latest os files pointers old rest v)
  sn_get_latest-sn_set_latest fs old path rest w v n fs' k l d h =
      sn_get_latest-GetsLatest old rest (some path) v
        (subst (λ x. text v (main_pointer x) ≡ some (path ++ (0 ∷ []))) (sym d) set.1.at, k, l)
    where
      set : SetsLatest fs path w (ret n, fs', v)
      set = subst (SetsLatest fs path w) h (sn_set_latest-SetsLatest fs path w)
