-- ===== src/Snapshots/Create.antt =====
-- $sn_create puts a snapshot at the front of the list.
use esfs.Base.{
  ℕ, zero, suc, ◌+◌, ◌≡◌, refl, sym, ◌∙◌, subst, Bool, true, false, Option, none, some, List, [],
  ◌∷◌, ◌++◌, length, arith, ==_iff, if◌then◌else◌, ◌==◌,
}
use esfs.Os.{Os, Locks, Ret, done, failed}
use esfs.Files.{Files, Opened, fd_opened, open_failed}
use esfs.Types.{Result, ret, err}
use esfs.Types.Errno.{eio, enametoolong}
use esfs.Paths.Build.{ext_hid, get_hid_path}
use esfs.Handle.Open.{Fsdata}
use esfs.Snapshots.Pointers.{Texts, PointerFiles, SetText, sn_set_latest}
use esfs.Snapshots.Manage.{
  Trees, set_latest, write_pointer_file, unlink_failed, link_new, created, sn_create,
}
use esfs.Snapshots.Earliest.{get_hid_path-some}
use esfs.Snapshots.Spec.{EntryOf, Differs, main_pointer, Recorded}
use esfs.Snapshots.Stored.{IsPath}
use esfs.Snapshots.Latest.{with_latest, SetsLatest, sn_set_latest-SetsLatest, pwrite-nul}
use esfs.Snapshots.Added.{first-Recorded, next-Recorded}

module _ (os : Os) (locks : Locks os) (files : Files os) (pointers : PointerFiles os files)
    (trees : Trees os locks files pointers) where
  open os use {World, Fd}
  open pointers use {text, place}

  -- What a piece of $sn_create makes of fsdata and the pointer files, given what it does without an
  -- error.
  abbrev Makes : Fsdata → List ℕ → (Texts → Type 0) → ℕ × Fsdata × World → Type 0
  Makes fs path want (zero, fs', v) = (fs' ≡ with_latest fs path) × want (text v)
  Makes fs path want (suc e, fs', v) = fs' ≡ fs

  set_latest-Makes :
      (fs : Fsdata) (path : List ℕ) (w : World)
      → Makes fs path
          (λ t. SetText (text w) t (main_pointer fs.sn_dir) (some (path ++ (0 ∷ []))))
          (set_latest os locks files pointers trees fs path w)
  unfolding set_latest
  set_latest-Makes fs path w =
      by_result (sn_set_latest os files pointers fs path w)
        (sn_set_latest-SetsLatest os files pointers fs path w)
    where
      by_result :
          (out : Result × Fsdata × World)
          → SetsLatest os files pointers fs path w out
          → Makes fs path
              (λ t. SetText (text w) t (main_pointer fs.sn_dir) (some (path ++ (0 ∷ []))))
              (elim out.0 [ err e ↦ (e, out.1, out.2) | ret _ ↦ (0, out.1, out.2) ])
      by_result (err zero, fs', v) (e, p) = absurd (omega (arith, p))
      by_result (err (suc x), fs', v) (e, p) = e
      by_result (ret n, fs', v) s = s

  -- The pointer to the snapshot before, at `hid`, and then that to the latest.
  record Linking (fs : Fsdata) (path hid : List ℕ) (t t' : Texts) : Type 0 where
    pub between : Texts
    pub pointer : SetText t between hid (some (fs.sn_lat_dir ++ (0 ∷ [])))
    pub latest : SetText between t' (main_pointer fs.sn_dir) (some (path ++ (0 ∷ [])))

  write_pointer_file-Makes :
      (fs : Fsdata) (path hid : List ℕ) (fd : Fd) (t : Texts) (w : World)
      → place fd w ≡ hid
      → SetText t (text w) hid (some [])
      → Makes fs path
          (Linking fs path hid t)
          (write_pointer_file os locks files pointers trees fs path fd w)
  unfolding write_pointer_file
  write_pointer_file-Makes fs path hid fd t w l s = by_write q refl
    where
      q : Ret
      q = (pointers.pwrite_text fd (fs.sn_lat_dir ++ (0 ∷ [])) w).0

      v : World
      v = (pointers.pwrite_text fd (fs.sn_lat_dir ++ (0 ∷ [])) w).1

      by_latest :
          (out : ℕ × Fsdata × World)
          → SetText t (text v) hid (some (fs.sn_lat_dir ++ (0 ∷ [])))
          → Makes fs path
              (λ x. SetText (text v) x (main_pointer fs.sn_dir) (some (path ++ (0 ∷ []))))
              out
          → Makes fs path (Linking fs path hid t) out
      by_latest (zero, fs', u) a (e, b) = (e, record { between = text v; pointer = a; latest = b })
      by_latest (suc x, fs', u) a e = e

      by_count :
          (n : ℕ) (b : Bool)
          → (pointers.pwrite_text fd (fs.sn_lat_dir ++ (0 ∷ [])) w).0 ≡ done n
          → (n == length fs.sn_lat_dir + 1) ≡ b
          → Makes fs path (Linking fs path hid t) (elim b [
            | false ↦ (eio, fs, v)
            | true ↦ set_latest os locks files pointers trees fs path v
          ])
      by_count n false h e = refl
      by_count n true h e =
          by_latest (set_latest os locks files pointers trees fs path v)
            (pwrite-nul os files pointers fd fs.sn_lat_dir hid n t w h
              ((==_iff n (length fs.sn_lat_dir + 1)).0 e) l s)
            (set_latest-Makes fs path v)

      by_write :
          (q : Ret)
          → (pointers.pwrite_text fd (fs.sn_lat_dir ++ (0 ∷ [])) w).0 ≡ q
          → Makes fs path (Linking fs path hid t) (elim q [
            | failed e ↦ (suc e, fs, v)
            | done n ↦ elim (n == length fs.sn_lat_dir + 1) [
              | false ↦ (eio, fs, v)
              | true ↦ set_latest os locks files pointers trees fs path v
            ]
          ])
      by_write (failed e) h = refl
      by_write (done n) h = by_count n (n == length fs.sn_lat_dir + 1) h refl

  link_new-Makes :
      (fs : Fsdata) (path : List ℕ) (w : World)
      → Makes fs path
          (Linking fs path (path ++ ext_hid) (text w))
          (link_new os locks files pointers trees fs path w)
  unfolding link_new unlink_failed
  link_new-Makes fs path w = by_path (get_hid_path path) refl
    where
      by_close :
          (hid : List ℕ) (fd : Fd) (out : ℕ × Fsdata × World)
          → Makes fs path (Linking fs path (path ++ ext_hid) (text w)) out
          → Makes fs path (Linking fs path (path ++ ext_hid) (text w)) (
            out.0,
            out.1,
            unlink_failed os locks files pointers trees hid out.0 (files.close fd out.2).1,
          )
      by_close hid fd (zero, fs', u) (e, l) =
          (e, subst (Linking fs path (path ++ ext_hid) (text w)) (sym (pointers.close_same fd u)) l)
      by_close hid fd (suc x, fs', u) e = e

      by_open :
          (hid : List ℕ)
          → hid ≡ path ++ ext_hid
          → (r : Opened Fd) → (pointers.open_fresh hid w).0 ≡ r
          → Makes fs path (Linking fs path (path ++ ext_hid) (text w)) (elim r [
            | open_failed e ↦ (suc e, fs, (pointers.open_fresh hid w).1)
            | fd_opened fd ↦
                (let (e, fs', u) =
                    write_pointer_file os locks files pointers trees fs path fd
                      (pointers.open_fresh hid w).1 in
                  (e, fs', unlink_failed os locks files pointers trees hid e (files.close fd u).1))
          ])
      by_open hid m (open_failed e) h = refl
      by_open hid m (fd_opened fd) h =
          by_close hid fd
            (write_pointer_file os locks files pointers trees fs path fd
              (pointers.open_fresh hid w).1)
            (write_pointer_file-Makes fs path (path ++ ext_hid) fd (text w)
              (pointers.open_fresh hid w).1 ((pointers.open_fresh_done hid w fd h).1 ∙ m)
              (subst (λ x. SetText (text w) (text (pointers.open_fresh hid w).1) x (some [])) m
                (pointers.open_fresh_done hid w fd h).2))

      by_path :
          (o : Option (List ℕ))
          → get_hid_path path ≡ o
          → Makes fs path (Linking fs path (path ++ ext_hid) (text w)) (elim o [
            | none ↦ (enametoolong, fs, w)
            | some hid ↦
                (let (r, v) = pointers.open_fresh hid w in
                  elim r [
                    | open_failed e ↦ (suc e, fs, v)
                    | fd_opened fd ↦
                        (let (e, fs', u) =
                            write_pointer_file os locks files pointers trees fs path fd v in
                          (
                            e,
                            fs',
                            unlink_failed os locks files pointers trees hid e (files.close fd u).1,
                          ))
                  ])
          ])
      by_path none h = refl
      by_path (some hid) h =
          by_open hid (get_hid_path-some path hid h) (pointers.open_fresh hid w).0 refl

  -- What $sn_create makes of a list of snapshots.
  abbrev pub Creates : Fsdata → List ℕ → List (List ℕ) → Result × Fsdata × World → Type 0
  Creates fs path ps (err e, fs', v) = fs' ≡ fs
  Creates fs path ps (ret n, fs', v) =
      (n ≡ 0) × (fs' ≡ with_latest fs path) × Recorded fs' (text v) (path ∷ ps)

  created-Creates :
      (fs : Fsdata) (path : List ℕ) (ps : List (List ℕ)) (want : Texts → Type 0)
      → ((t : Texts) → want t → Recorded (with_latest fs path) t (path ∷ ps))
      → (out : ℕ × Fsdata × World) → Makes fs path want out
      → Creates fs path ps (created os locks files pointers trees path out)
  unfolding created
  created-Creates fs path ps want f (zero, fs', v) (e, m) =
      (refl, e, subst (λ x. Recorded x (text v) (path ∷ ps)) (sym e) (f (text v) m))
  created-Creates fs path ps want f (suc x, fs', v) e = e

  -- Where the snapshots are recorded, for a new path that is an entry of the snapshot directory
  -- and none of them, has no NUL and fits PATH_MAX bytes with one: if $sn_create returns no error,
  -- the snapshots recorded afterwards are the new one and then those before; on an error it leaves
  -- fsdata as it was.
  pub sn_create-Creates :
      (fs : Fsdata) (path : List ℕ) (ps : List (List ℕ)) (w : World)
      → EntryOf fs.sn_dir path
      → IsPath path
      → Differs path ps
      → Recorded fs (text w) ps
      → Creates fs path ps (sn_create os locks files pointers trees fs path w)
  unfolding sn_create
  sn_create-Creates fs path ps w e i d k = by_mkdir (files.mkdir path w).0
    where
      v : World
      v = (files.mkdir path w).1

      by_list :
          (ps : List (List ℕ)) (b : Bool)
          → (fs.sn_is_any == 0) ≡ b
          → Differs path ps
          → Recorded fs (text v) ps
          → Creates fs path ps (
              created os locks files pointers trees path (
                if b
                then set_latest os locks files pointers trees fs path v
                else link_new os locks files pointers trees fs path v))
      by_list [] true h d k =
          created-Creates fs path []
            (λ t. SetText (text v) t (main_pointer fs.sn_dir) (some (path ++ (0 ∷ []))))
            (λ t s. first-Recorded fs path (text v) t e i k s)
            (set_latest os locks files pointers trees fs path v) (set_latest-Makes fs path v)
      by_list [] false h d k = absurd (ground (arith, h, k.latest.0))
      by_list (p ∷ ps) true h d k = absurd (k.latest.0 ((==_iff fs.sn_is_any 0).0 h))
      by_list (p ∷ ps) false h d k =
          created-Creates fs path (p ∷ ps) (Linking fs path (path ++ ext_hid) (text v))
            (λ t l. next-Recorded fs path p ps (text v) l.between t e i d k l.pointer l.latest)
            (link_new os locks files pointers trees fs path v) (link_new-Makes fs path v)

      by_mkdir :
          (r : Ret)
          → Creates fs path ps (elim r [
            | failed x ↦ (err (suc x), fs, v)
            | done _ ↦ created os locks files pointers trees path (
                if fs.sn_is_any == 0
                then set_latest os locks files pointers trees fs path v
                else link_new os locks files pointers trees fs path v)
          ])
      by_mkdir (failed x) = refl
      by_mkdir (done n) =
          by_list ps (fs.sn_is_any == 0) refl d
            (subst (λ t. Recorded fs t ps) (sym (trees.mkdir_same path w)) k)
