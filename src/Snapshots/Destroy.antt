-- ===== src/Snapshots/Destroy.antt =====
-- $sn_destroy takes the earliest snapshot off the list.
use esfs.Base.{
  ℕ, suc, ◌≡◌, refl, sym, ◌∙◌, ap, ap₂, subst, inl, inr, Bool-cases, str_eq, str_eq_refl,
  eq_of_str_eq, Option, none, some, List, [], ◌∷◌, ◌++◌, arith,
}
use esfs.Os.{Os, Locks, Ret, done, failed}
use esfs.Files.{Files}
use esfs.Types.{Result, ret, err}
use esfs.Paths.Build.{ext_hid, get_dir_hid_path, get_dir_hid_path-Fits}
use esfs.Paths.Label.{string2locklabel}
use esfs.Handle.Open.{Fsdata}
use esfs.Snapshots.Pointers.{Texts, PointerFiles, SetText}
use esfs.Snapshots.Walk.{Earliest, no_snapshots, earliest, earliest_error, sn_get_earliest}
use esfs.Snapshots.Manage.{
  Under, Trees, recursive_remove, removed, locklabel_rmdir, remove_both, destroy_found, sn_destroy,
}
use esfs.Snapshots.Earliest.{
  last_of, but_last, pointer_to, IsEarliest, sn_get_earliest-none, sn_get_earliest-IsEarliest,
}
use esfs.Snapshots.Spec.{Recorded, main_pointer}
use esfs.Snapshots.Dropped.{Dropped, Dropped-Recorded, Dropped-Recorded_none}

pointer_to-some :
    (y p : List ℕ) (ps : List (List ℕ)) → (x : List ℕ) × (pointer_to (some y) p ps ≡ some x)
pointer_to-some y p [] = (y, refl)
pointer_to-some y p (q ∷ ps) = pointer_to-some (p ++ ext_hid) q ps

module _ (os : Os) (locks : Locks os) (files : Files os) (pointers : PointerFiles os files)
    (trees : Trees os locks files pointers) where
  open os use {World}
  open pointers use {text}

  -- What stands in the files where a tree may be gone.
  record Cleared (t t' : Texts) (root : List ℕ) : Type 0 where
    pub kept : (q : List ℕ) → ¬ Under root q → t' q ≡ t q
    pub no_new : (q : List ℕ) → t q ≡ none → t' q ≡ none

  recursive_remove-Cleared :
      (path : List ℕ) (w : World)
      → Cleared (text w) (text (recursive_remove os locks files pointers trees path w).1) path
  unfolding recursive_remove
  recursive_remove-Cleared path w =
      by_lock (locks.lock (string2locklabel locklabel_rmdir) w).0
        (locks.lock (string2locklabel locklabel_rmdir) w).1
        (trees.lock_same (string2locklabel locklabel_rmdir) w)
    where
      by_lock :
          (l : Ret) (v : World)
          → text v ≡ text w
          → Cleared
              (text w)
              (text (
                let out : Result × World = elim l [
                  | failed e ↦ (err (suc e), v)
                  | done id ↦
                      (let (r, u) = trees.nftw_rm path v in
                        let (q, t) = locks.unlock id u in
                        (removed os locks files pointers trees r q, t))
                ] in
                out.1))
              path
      by_lock (failed e) v s = record {
        kept = λ q u. ap (λ t. t q) s;
        no_new = λ q h. ap (λ t. t q) s ∙ h;
      }
      by_lock (done id) v s = record {
        kept = λ q u.
            ap (λ t. t q) (trees.unlock_same id (trees.nftw_rm path v).1)
            ∙ trees.nftw_rm_spared path q v u
            ∙ ap (λ t. t q) s;
        no_new = λ q h.
            ap (λ t. t q) (trees.unlock_same id (trees.nftw_rm path v).1)
            ∙ trees.nftw_rm_no_new path q v (ap (λ t. t q) s ∙ h);
      }

  -- The pointer file is set to nothing and then the tree is cleared.
  set-Dropped :
      (t u v : Texts) (pointer root : List ℕ)
      → SetText t u pointer none
      → Cleared u v root
      → Dropped t v pointer root
  set-Dropped t u v pointer root s c = record {
    at = c.no_new pointer s.at;
    kept = λ q d b. c.kept q b ∙ s.others q d;
    no_new = λ q h. elim (Bool-cases (str_eq q pointer)) [
      | inl e ↦ c.no_new q (subst (λ x. u x ≡ none) (sym (eq_of_str_eq q pointer e)) s.at)
      | inr e ↦ c.no_new q (s.others q (λ x. ground (arith, str_eq_refl q)) ∙ h)
    ];
  }

  -- Where the value is not an error, the pointer and the tree are removed and `after` is kept.
  abbrev Removes : List ℕ → List ℕ → Fsdata → Fsdata → World → Result × Fsdata × World → Type 0
  Removes pointer root fs after w (err e, fs', v) = fs' ≡ fs
  Removes pointer root fs after w (ret n, fs', v) =
      (fs' ≡ after) × Dropped (text w) (text v) pointer root

  remove_both-Removes :
      (pointer root : List ℕ) (fs after : Fsdata) (w : World)
      → Removes pointer root fs after w
          (remove_both os locks files pointers trees pointer root fs after w)
  unfolding remove_both
  remove_both-Removes pointer root fs after w = by_unlink (files.unlink pointer w).0 refl
    where
      v : World
      v = (files.unlink pointer w).1

      by_tree :
          (q : Result) (n : ℕ)
          → (files.unlink pointer w).0 ≡ done n
          → Removes pointer root fs after w (elim q [
            | err e ↦ (err e, fs, (recursive_remove os locks files pointers trees root v).1)
            | ret n ↦ (ret n, after, (recursive_remove os locks files pointers trees root v).1)
          ])
      by_tree (err e) n h = refl
      by_tree (ret m) n h = (
        refl,
        set-Dropped (text w) (text v)
            (text (recursive_remove os locks files pointers trees root v).1) pointer root
            (trees.unlink_done pointer w n h) (recursive_remove-Cleared root v),
      )

      by_unlink :
          (r : Ret)
          → (files.unlink pointer w).0 ≡ r
          → Removes pointer root fs after w (elim r [
            | failed e ↦ (err (suc e), fs, v)
            | done _ ↦
                (let (q, u) = recursive_remove os locks files pointers trees root v in
                  elim q [ err e ↦ (err e, fs, u) | ret n ↦ (ret n, after, u) ])
          ])
      by_unlink (failed e) h = refl
      by_unlink (done n) h = by_tree (recursive_remove os locks files pointers trees root v).0 n h

  -- What $sn_destroy makes of a list of snapshots.
  abbrev pub Destroys : Fsdata → World → List (List ℕ) → Result × Fsdata × World → Type 0
  Destroys fs w [] out = out ≡ (err 2, fs, w)
  Destroys fs w (p ∷ ps) (err e, fs', v) = fs' ≡ fs
  Destroys fs w (p ∷ ps) (ret n, fs', v) = Recorded fs' (text v) (but_last p ps)

  from_removal :
      (fs : Fsdata) (w u : World) (p q : List ℕ) (ps : List (List ℕ)) (pointer : List ℕ)
      → Recorded fs (text w) (p ∷ q ∷ ps)
      → text u ≡ text w
      → pointer_to none p (q ∷ ps) ≡ some pointer
      → (out : Result × Fsdata × World) → Removes pointer (last_of q ps) fs fs u out
      → Destroys fs w (p ∷ q ∷ ps) out
  from_removal fs w u p q ps pointer k s h (err e, fs', v) d = d
  from_removal fs w u p q ps pointer k s h (ret n, fs', v) (e, d) =
      subst (λ f. Recorded f (text v) (p ∷ but_last q ps)) (sym e)
        (Dropped-Recorded fs (text w) (text v) p q ps pointer k h
          (subst (λ t. Dropped t (text v) pointer (last_of q ps)) s d))

  from_only :
      (fs : Fsdata) (w u : World) (p : List ℕ)
      → Recorded fs (text w) (p ∷ [])
      → text u ≡ text w
      → (out : Result × Fsdata × World)
      → Removes (main_pointer fs.sn_dir) p fs (record fs { sn_is_any = 0 }) u out
      → Destroys fs w (p ∷ []) out
  from_only fs w u p k s (err e, fs', v) d = d
  from_only fs w u p k s (ret n, fs', v) (e, d) =
      subst (λ f. Recorded f (text v) []) (sym e)
        (Dropped-Recorded_none fs (text w) (text v) p k
          (subst (λ t. Dropped t (text v) (main_pointer fs.sn_dir) p) s d))

  destroy_found-Destroys :
      (fs : Fsdata) (w u : World) (p : List ℕ) (ps : List (List ℕ))
      → Recorded fs (text w) (p ∷ ps)
      → text u ≡ text w
      → Destroys fs w (p ∷ ps) (
          destroy_found os locks files pointers trees fs
            (earliest (last_of p ps) (pointer_to none p ps), u))
  unfolding destroy_found
  destroy_found-Destroys fs w u p [] k s = by_path (get_dir_hid_path fs.sn_dir) refl
    where
      by_path :
          (o : Option (List ℕ))
          → get_dir_hid_path fs.sn_dir ≡ o
          → Destroys fs w (p ∷ []) (elim o [
            | none ↦ (err 36, fs, u)
            | some pointer ↦
                remove_both os locks files pointers trees pointer p fs
                  (record fs { sn_is_any = 0 })
                  u
          ])
      by_path none h = refl
      by_path (some m) h =
          subst
            (λ m.
              Destroys fs w (p ∷ [])
                (remove_both os locks files pointers trees m p fs (record fs { sn_is_any = 0 }) u))
            (sym ((get_dir_hid_path-Fits fs.sn_dir).text m h))
            (from_only fs w u p k s
              (remove_both os locks files pointers trees (main_pointer fs.sn_dir) p fs
                (record fs { sn_is_any = 0 }) u)
              (remove_both-Removes (main_pointer fs.sn_dir) p fs (record fs { sn_is_any = 0 }) u))
  destroy_found-Destroys fs w u p (q ∷ ps) k s =
      by_pointer (pointer_to none p (q ∷ ps)) refl (pointer_to-some (p ++ ext_hid) q ps)
    where
      by_pointer :
          (o : Option (List ℕ))
          → pointer_to none p (q ∷ ps) ≡ o
          → ((x : List ℕ) × (pointer_to none p (q ∷ ps) ≡ some x))
          → Destroys fs w
              (p ∷ q ∷ ps)
              (destroy_found os locks files pointers trees fs (earliest (last_of q ps) o, u))
      by_pointer none h (x, e) = absurd cc
      by_pointer (some x) h e =
          from_removal fs w u p q ps x k s h
            (remove_both os locks files pointers trees x (last_of q ps) fs fs u)
            (remove_both-Removes x (last_of q ps) fs fs u)

  -- Where the snapshots are recorded, $sn_destroy reports ENOENT and changes nothing if there are
  -- none; if there are and it returns no error, those recorded afterwards are all but the
  -- earliest; and on an error it leaves fsdata as it was.
  pub sn_destroy-Destroys :
      (fs : Fsdata) (ps : List (List ℕ)) (w : World)
      → Recorded fs (text w) ps
      → Destroys fs w ps (sn_destroy os locks files pointers trees fs w)
  unfolding sn_destroy destroy_found
  sn_destroy-Destroys fs [] w k =
      ap (destroy_found os locks files pointers trees fs)
        (sn_get_earliest-none os files pointers fs w k.latest.0)
  sn_destroy-Destroys fs (p ∷ ps) w k =
      by_earliest (sn_get_earliest os files pointers fs w).0
        (sn_get_earliest os files pointers fs w).1
        (sn_get_earliest-IsEarliest os files pointers fs p ps w k.latest.0 k.latest.1 k.linked)
    where
      by_earliest :
          (r : Earliest) (u : World)
          → (text u ≡ text w) × IsEarliest none p ps r
          → Destroys fs w (p ∷ ps) (destroy_found os locks files pointers trees fs (r, u))
      by_earliest no_snapshots u (s, f) = elim f [ ]
      by_earliest (earliest_error e) u (s, f) = refl
      by_earliest (earliest x pointer) u (s, (e, f)) =
          subst
            (λ z. Destroys fs w (p ∷ ps) (destroy_found os locks files pointers trees fs (z, u)))
            (sym (ap₂ earliest e f)) (destroy_found-Destroys fs w u p ps k s)
