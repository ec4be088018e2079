-- ===== src/Steps/Opened.antt =====
-- Which files $mfd_get_sn_steps leaves open for a file that is opened in a snapshot.
use esfs.Base.{
  ℕ, zero, suc, ◌-◌, ◌≤◌, ◌<◌, ◌≡◌, ◌≢◌, ◌⊎◌, inl, inr, refl, sym, ◌∙◌, subst, false, Option, none,
  some, List, [], length, ◌==◌, ==_iff, arith, Bool-cases,
}
use mathlib.Core.Option.{some_inj}
use esfs.Os.{Os, Locks, MapHeader}
use esfs.Files.{Files}
use esfs.Types.{Result, ret, err, Mfd}
use esfs.Paths.Snpath.{Snpath, snpath_full}
use esfs.Handle.Open.{Fsdata}
use esfs.Snapshots.Pointers.{PointerFiles}
use esfs.Snapshots.Walk.{sn_get_paths_to}
use esfs.Steps.Calls.{Dirs, Getting, Turn, ended, again, stop, mfd_destroy_sn_steps}
use esfs.Steps.Find.{visit, next_round, get_steps, with_paths, finish, mfd_get_sn_steps}
use esfs.Steps.Data.{open_flags, Kept, HasData, NoData, Visited, Good}
use esfs.Steps.Round.{visit-Good}

module _ {Fd : Type 0} where
  -- Of the steps from `lo` to sn_current, sn_first_file is the last one with data that can be read; it
  -- is none where there is no such step.
  pub record StepsOpen (m : Mfd Fd) (lo : ℕ) : Type 0 where
    pub none_found : m.sn_first_file ≡ none → (j : ℕ) → lo ≤ j → j ≤ m.sn_current → NoData m j
    pub found :
        (k : ℕ)
        → m.sn_first_file ≡ some k
        → (lo ≤ k)
          × (k ≤ m.sn_current)
          × HasData m k
          × ((j : ℕ) → k < j → j ≤ m.sn_current → NoData m j)

  Kept-StepsOpen :
      (m m' : Mfd Fd) (i : ℕ) → Kept i m m' → NoData m' i → StepsOpen m (suc i) → StepsOpen m' i
  Kept-StepsOpen m m' i k n o = record {
    none_found = λ e j l c. elim (Bool-cases (j == i)) [
      | inl h ↦ subst (NoData m') (sym ((==_iff j i).0 h)) n
      | inr h ↦
          k.others j (differs j h)
          ∙ o.none_found (sym k.first ∙ e) j (omega (arith, above j l (differs j h)))
              (omega (arith, c, k.cur))
    ];
    found = λ x e. (
      omega (arith, (o.found x (sym k.first ∙ e)).0),
      omega (arith, (o.found x (sym k.first ∙ e)).1, k.cur),
      (
        (o.found x (sym k.first ∙ e)).2.0,
        k.others x (λ h. absurd (omega (arith, h, (o.found x (sym k.first ∙ e)).0)))
            ∙ (o.found x (sym k.first ∙ e)).2.1,
      ),
      λ j l c.
          k.others j (λ h. absurd (omega (arith, h, l, (o.found x (sym k.first ∙ e)).0)))
          ∙ (o.found x (sym k.first ∙ e)).3 j l (omega (arith, c, k.cur)),
    );
  }
    where
      differs : (j : ℕ) → (j == i) ≡ false → j ≢ i
      differs j h e = absurd (ground (arith, h, e))

      above : (j : ℕ) → i ≤ j → j ≢ i → suc i ≤ j
      above j l d = omega (arith, l, d)

  Visited-StepsOpen :
      (m m' : Mfd Fd) (i : ℕ)
      → Visited i m m'
      → i ≤ m.sn_current
      → StepsOpen m (suc i)
      → StepsOpen m' i
  Visited-StepsOpen m m' i v c o = record {
    none_found = λ e j l d. absurd (by_none e v.first);
    found = λ x e. by_found x e v.first;
  }
    where
      Here : Type 0
      Here = (m.sn_first_file ≡ none) × (m'.sn_first_file ≡ some i) × HasData m' i

      There : Type 0
      There = (k : ℕ) × (m.sn_first_file ≡ some k) × (m'.sn_first_file ≡ some k)

      by_none : m'.sn_first_file ≡ none → Here ⊎ There → ⊥
      by_none e (inl (a, b, h)) = cc
      by_none e (inr (k, a, b)) = cc

      at_first :
          m.sn_first_file ≡ none
          → HasData m' i
          → (i ≤ i)
            × (i ≤ m'.sn_current)
            × HasData m' i
            × ((j : ℕ) → i < j → j ≤ m'.sn_current → NoData m' j)
      at_first a h = (
        omega arith,
        omega (arith, c, v.cur),
        h,
        λ j l d.
            v.others j (λ q. absurd (omega (arith, l, q)))
            ∙ o.none_found a j (omega (arith, l)) (omega (arith, d, v.cur)),
      )

      by_found :
          (x : ℕ)
          → m'.sn_first_file ≡ some x
          → Here ⊎ There
          → (i ≤ x)
            × (x ≤ m'.sn_current)
            × HasData m' x
            × ((j : ℕ) → x < j → j ≤ m'.sn_current → NoData m' j)
      by_found x e (inl (a, b, h)) =
          subst
            (λ x.
              (i ≤ x)
              × (x ≤ m'.sn_current)
              × HasData m' x
              × ((j : ℕ) → x < j → j ≤ m'.sn_current → NoData m' j))
            (some_inj.0 (sym b ∙ e)) (at_first a h)
      by_found x e (inr (k, a, b)) =
          subst
            (λ x.
              (i ≤ x)
              × (x ≤ m'.sn_current)
              × HasData m' x
              × ((j : ℕ) → x < j → j ≤ m'.sn_current → NoData m' j))
            (some_inj.0 (sym b ∙ e))
            (
              omega (arith, (o.found k a).0),
              omega (arith, (o.found k a).1, v.cur),
              (
                (o.found k a).2.0,
                v.others k (λ h. absurd (omega (arith, h, (o.found k a).0))) ∙ (o.found k a).2.1,
              ),
              λ j l d.
                  v.others j (λ h. absurd (omega (arith, h, l, (o.found k a).0)))
                  ∙ (o.found k a).3 j l (omega (arith, d, v.cur)),
            )

module _ (os : Os) (locks : Locks os) (files : Files os) (pointers : PointerFiles os files)
    (dirs : Dirs os) where
  open os use {World, Fd}

  -- How the loop leaves the handle, where it has no error.
  abbrev Leaves : Getting World Fd → Type 0
  Leaves s = s.waserror ≡ 0 → StepsOpen s.mfd 0

  -- A round and those after it.
  after_round :
      (i : ℕ) (m : Mfd Fd) (go : Getting World Fd → Getting World Fd)
      → i ≤ m.sn_current
      → StepsOpen m (suc i)
      → ((s : Getting World Fd)
          → s.mfd.sn_current ≡ m.sn_current
          → StepsOpen s.mfd i
          → Leaves (go s))
      → (t : Turn (Getting World Fd)) → Good i m t
      → Leaves (next_round os locks files pointers dirs go t)
  unfolding next_round
  after_round i m go c o f (stop s) g e = absurd (omega (arith, g, e))
  after_round i m go c o f (again s) (k, n) e = f s k.cur (Kept-StepsOpen m s.mfd i k n o) e
  after_round i m go c o f (ended s) v e = by_error s.waserror refl e
    where
      by_error : (n : ℕ) → s.waserror ≡ n → Leaves (elim n [ zero ↦ go s | suc _ ↦ s ])
      by_error zero h e = f s v.cur (Visited-StepsOpen m s.mfd i v c o) e
      by_error (suc n) h e = absurd (omega (arith, h, e))

  get_steps-Leaves :
      (mypath : List ℕ) (i : ℕ) (s : Getting World Fd)
      → i ≤ s.mfd.sn_current
      → StepsOpen s.mfd (suc i)
      → Leaves (get_steps os locks files pointers dirs open_flags mypath i s)
  unfolding get_steps
  get_steps-Leaves mypath zero s c o =
      after_round 0 s.mfd (λ t. t) c o (λ t d q e. q)
        (visit os locks files pointers dirs open_flags mypath 0 s)
        (visit-Good os locks files pointers dirs mypath 0 s)
  get_steps-Leaves mypath (suc i) s c o =
      after_round (suc i) s.mfd (get_steps os locks files pointers dirs open_flags mypath i) c o
        (λ t d q. get_steps-Leaves mypath i t (omega (arith, c, d)) q)
        (visit os locks files pointers dirs open_flags mypath (suc i) s)
        (visit-Good os locks files pointers dirs mypath (suc i) s)

  -- A handle that is returned without an error.
  abbrev pub Opens : Result × Mfd Fd × World → Type 0
  Opens (err e, mfd, w) = Unit
  Opens (ret n, mfd, w) = (n ≡ 0) × StepsOpen mfd 0

  finish-Opens : (s : Getting World Fd) → Leaves s → Opens (finish os locks files pointers dirs s)
  unfolding finish
  finish-Opens s l = by_error s.waserror refl
    where
      by_error :
          (n : ℕ)
          → s.waserror ≡ n
          → Opens (elim n [
            | zero ↦ (ret 0, s.mfd, s.world)
            | suc e ↦ (err (suc e), s.mfd, (mfd_destroy_sn_steps os files dirs s.mfd s.world).1)
          ])
      by_error zero h = (refl, l h)
      by_error (suc n) h = tt

  -- Where $mfd_get_sn_steps returns no error for the flags of $open, it returns 0, and
  -- sn_first_file is the first of the steps, from the snapshot asked for down to the main space,
  -- whose dat file (for the last, the main file) could be opened, and that is open; the dat files
  -- of the steps before it are marked as unused, and those of all steps where it is -1.
  pub mfd_get_sn_steps-Opens :
      (fs : Fsdata) (mfd : Mfd Fd) (snpath : Snpath) (junk : MapHeader) (w : World)
      → Opens (mfd_get_sn_steps os locks files pointers dirs fs mfd snpath open_flags junk w)
  unfolding mfd_get_sn_steps
  mfd_get_sn_steps-Opens fs mfd snpath junk w =
      by_paths (sn_get_paths_to os files pointers fs snpath w).0
        (sn_get_paths_to os files pointers fs snpath w).1
        (sn_get_paths_to os files pointers fs snpath w).2
    where
      m : Mfd Fd
      m = record mfd { sn_number = fs.sn_number }

      mypath : List ℕ
      mypath = elim snpath.is_there [ snpath_full ↦ snpath.inpath | _ ↦ [] ]

      fresh :
          (paths : List (List ℕ))
          → StepsOpen (with_paths os locks files pointers dirs m paths) (suc (length paths - 1))
      fresh paths =
          unfold with_paths in
          record {
            none_found = λ e j l c. absurd (omega (arith, l, c));
            found = λ k e. absurd (apart k e);
          }
        where
          apart : (k : ℕ) → ◌≡◌ {A = Option ℕ} none (some k) → ⊥
          apart k h = cc

      by_paths :
          (ps : Option (List (List ℕ))) (e : ℕ) (v : World)
          → Opens (elim ps [
            | none ↦ (err e, m, v)
            | some paths ↦ finish os locks files pointers dirs (
                get_steps os locks files pointers dirs open_flags mypath
                  (length paths - 1)
                  (record {
                    world = v;
                    mfd = with_paths os locks files pointers dirs m paths;
                    maphead = junk;
                    waserror = 0;
                  }))
          ])
      by_paths none e v = tt
      by_paths (some paths) e v =
          finish-Opens
            (get_steps os locks files pointers dirs open_flags mypath (length paths - 1) (record {
              world = v;
              mfd = with_paths os locks files pointers dirs m paths;
              maphead = junk;
              waserror = 0;
            }))
            (get_steps-Leaves mypath (length paths - 1)
              (record {
                world = v;
                mfd = with_paths os locks files pointers dirs m paths;
                maphead = junk;
                waserror = 0;
              })
              (unfold with_paths in omega arith) (fresh paths))
