-- ===== src/Requests/Fresh.antt =====
-- One name in $_sn_readdir: what was given to FUSE stays distinct and marked as seen.
use esfs.Base.{
  ℕ, suc, ◌≡◌, ◌≢◌, refl, sym, ap, subst, Bool, true, false, ◌||◌, some, List, [], ◌∷◌, ◌++◌,
  str_eq, str_eq_refl, ◌==◌, if◌then◌else◌,
}
use esfs.Os.{Os, Locks, Ret, done, failed, MapHeader}
use esfs.Files.{Files, Opened, fd_opened, open_failed, Stated, stated, lstat_failed}
use esfs.Types.{Result, ret, err}
use esfs.Types.Errno.{enomem}
use esfs.Handle.Open.{mfd_load_mapheader}
use esfs.Snapshots.Spec.{Differs, Distinct}
use esfs.Steps.Calls.{Turn, ended, again, stop}
use esfs.Requests.Readdir.{Streams, Listing, seen, fill, fill_new, with_header, map_entry}

-- All of these names are marked as seen.
abbrev pub Marked : List (List ℕ) → List (List ℕ) → Type 0
Marked [] marks = Unit
Marked (n ∷ ns) marks = (seen n marks ≡ true) × Marked ns marks

seen-cons : (n m : List ℕ) (ms : List (List ℕ)) → seen n ms ≡ true → seen n (m ∷ ms) ≡ true
seen-cons n m ms h = by_test (str_eq n m)
  where
    by_test : (b : Bool) → (b || seen n ms) ≡ true
    by_test true = refl
    by_test false = h

seen-first : (n : List ℕ) (ms : List (List ℕ)) → seen n (n ∷ ms) ≡ true
seen-first n ms = ap (λ b. b || seen n ms) (str_eq_refl n)

Marked-cons : (m : List ℕ) (ns marks : List (List ℕ)) → Marked ns marks → Marked ns (m ∷ marks)
Marked-cons m [] marks h = tt
Marked-cons m (n ∷ ns) marks (h, k) = (seen-cons n m marks h, Marked-cons m ns marks k)

Marked-Differs :
    (name : List ℕ) (ns marks : List (List ℕ))
    → seen name marks ≡ false
    → Marked ns marks
    → Differs name ns
Marked-Differs name [] marks h k = tt
Marked-Differs name (n ∷ ns) marks h (k, l) = (apart k, Marked-Differs name ns marks h l)
  where
    apart : seen n marks ≡ true → name ≢ n
    apart k e = absurd (clash (subst (λ x. seen x marks ≡ true) (sym e) k))
      where
        clash : seen name marks ≡ true → ⊥
        clash q = cc

module _ {World : Type 0} (hidden : List (List ℕ)) where
  -- The names given so far and those that are hidden are distinct, and all of them are marked.
  pub record Fresh (s : Listing World) : Type 0 where
    pub distinct : Distinct (s.given ++ hidden)
    pub marked : Marked (s.given ++ hidden) s.marks

  abbrev pub Turned : Turn (Listing World) → Type 0
  Turned (stop s) = Fresh s
  Turned (again s) = Fresh s
  Turned (ended s) = Fresh s

  -- The same names in another state.
  Fresh-same : (s t : Listing World) → t.given ≡ s.given → t.marks ≡ s.marks → Fresh s → Fresh t
  Fresh-same s t e m f = record {
    distinct = subst (λ g. Distinct (g ++ hidden)) (sym e) f.distinct;
    marked =
        subst (λ g. Marked (g ++ hidden) t.marks) (sym e)
          (subst (Marked (s.given ++ hidden)) (sym m) f.marked);
  }

module _ (os : Os) (locks : Locks os) (files : Files os) (streams : Streams os)
    (hidden : List (List ℕ)) where
  open os use {World, Fd}

  fill-Fresh :
      (name : List ℕ) (s : Listing World)
      → seen name s.marks ≡ false
      → Fresh hidden s
      → Turned hidden (fill os locks files streams name s)
  unfolding fill
  fill-Fresh name s n f =
      by_filler (streams.filler name (some s.maphead.fstat) s.world).0
        (streams.filler name (some s.maphead.fstat) s.world).1
    where
      by_filler :
          (full : Bool) (w : World)
          → Turned hidden (
              if full
              then stop (record s { world = w; waserror = enomem })
              else ended (record s { world = w; given = name ∷ s.given; marks = name ∷ s.marks }))
      by_filler true w = record { distinct = f.distinct; marked = f.marked }
      by_filler false w = record {
        distinct = (Marked-Differs name (s.given ++ hidden) s.marks n f.marked, f.distinct);
        marked = (seen-first name s.marks, Marked-cons name (s.given ++ hidden) s.marks f.marked);
      }

  pub fill_new-Fresh :
      (fpath name : List ℕ) (s : Listing World)
      → Fresh hidden s
      → Turned hidden (fill_new os locks files streams fpath name s)
  unfolding fill_new
  fill_new-Fresh fpath name s f = by_seen (seen name s.marks) refl
    where
      by_lstat :
          (r : Stated) (w : World)
          → seen name s.marks ≡ false
          → Turned hidden (elim r [
            | lstat_failed e ↦ stop (record s { world = w; waserror = suc e })
            | stated st ↦
                fill os locks files streams name
                  (record s { world = w; maphead = record s.maphead { fstat = st } })
          ])
      by_lstat (lstat_failed e) w n = record { distinct = f.distinct; marked = f.marked }
      by_lstat (stated st) w n =
          fill-Fresh name (record s { world = w; maphead = record s.maphead { fstat = st } }) n
            (record { distinct = f.distinct; marked = f.marked })

      by_seen :
          (b : Bool)
          → seen name s.marks ≡ b
          → Turned hidden (
              if b
              then again s
              else (let (r, w) = files.lstat fpath s.world in
                  elim r [
                    | lstat_failed e ↦ stop (record s { world = w; waserror = suc e })
                    | stated st ↦
                        fill os locks files streams name
                          (record s { world = w; maphead = record s.maphead { fstat = st } })
                  ]))
      by_seen true n = f
      by_seen false n = by_lstat (files.lstat fpath s.world).0 (files.lstat fpath s.world).1 n

  with_header-Fresh :
      (fd : Fd) (name : List ℕ) (out : Result × MapHeader × World) (s : Listing World)
      → seen name s.marks ≡ false
      → Fresh hidden s
      → Turned hidden (with_header os locks files streams fd name out s)
  unfolding with_header
  with_header-Fresh fd name (err e, h, w) s n f = record {
    distinct = f.distinct;
    marked = f.marked;
  }
  with_header-Fresh fd name (ret k, h, w) s n f = by_close (files.close fd w).0
    where
      t : Listing World
      t = record s { world = (files.close fd w).1; maphead = h }

      by_exists :
          (b : Bool)
          → Turned hidden (
              if b
              then fill os locks files streams name t
              else ended (record t { marks = name ∷ t.marks }))
      by_exists true = fill-Fresh name t n (record { distinct = f.distinct; marked = f.marked })
      by_exists false = record {
        distinct = f.distinct;
        marked = Marked-cons name (s.given ++ hidden) s.marks f.marked;
      }

      by_close :
          (r : Ret)
          → Turned hidden (elim r [
            | failed e ↦ stop (record t { world = (files.close fd w).1; waserror = suc e })
            | done _ ↦
                if h.exists == 1
                then fill os locks files streams name t
                else ended (record t { marks = name ∷ t.marks })
          ])
      by_close (failed e) = record { distinct = f.distinct; marked = f.marked }
      by_close (done x) = by_exists (h.exists == 1)

  pub map_entry-Fresh :
      (fpath name : List ℕ) (s : Listing World)
      → Fresh hidden s
      → Turned hidden (map_entry os locks files streams fpath name s)
  unfolding map_entry
  map_entry-Fresh fpath name s f = by_seen (seen name s.marks) refl
    where
      by_open :
          (r : Opened Fd) (w : World)
          → seen name s.marks ≡ false
          → Turned hidden (elim r [
            | open_failed e ↦ stop (record s { world = w; waserror = suc e })
            | fd_opened fd ↦
                with_header os locks files streams fd name
                  (mfd_load_mapheader os locks files s.maphead fd w)
                  s
          ])
      by_open (open_failed e) w n = record { distinct = f.distinct; marked = f.marked }
      by_open (fd_opened fd) w n =
          with_header-Fresh fd name (mfd_load_mapheader os locks files s.maphead fd w) s n f

      by_seen :
          (b : Bool)
          → seen name s.marks ≡ b
          → Turned hidden (
              if b
              then again s
              else (let (r, w) = files.open_rdonly fpath s.world in
                  elim r [
                    | open_failed e ↦ stop (record s { world = w; waserror = suc e })
                    | fd_opened fd ↦
                        with_header os locks files streams fd name
                          (mfd_load_mapheader os locks files s.maphead fd w)
                          s
                  ]))
      by_seen true n = f
      by_seen false n =
          by_open (files.open_rdonly fpath s.world).0 (files.open_rdonly fpath s.world).1 n
