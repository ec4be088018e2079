-- ===== src/Dentries/Snapshotting.antt =====
-- $mkdir and $rmdir in the snapshot space, down to the list of snapshots.
use esfs.Base.{
  ℕ, zero, suc, ◌-◌, ◌≤◌, ◌<◌, ◌≡◌, ◌≢◌, refl, sym, ◌∙◌, ap, subst, true, none, some, List, [], ◌∷◌,
  ◌++◌, length, append_assoc, arith,
}
use esfs.Os.{Os, Locks}
use esfs.Files.{Files}
use esfs.Types.{Result, ret, err, Mfd}
use esfs.Types.Errno.{efault}
use esfs.Paths.Build.{map_path, map_path-Fits, Fits, sn_dir_name, dirsep_ch, path_max}
use esfs.Paths.Snpath.{
  Snpath, SnpathTypes, snpath_root, snpath_id, snpath_full, is_path_in_sn, decompose_sn_path,
  decompose_sn_path_lem, strchr,
}
use esfs.Block.State.{Env}
use esfs.Handle.Open.{Fsdata}
use esfs.Snapshots.Pointers.{PointerFiles, c_string}
use esfs.Snapshots.Manage.{Trees, sn_create, sn_destroy}
use esfs.Snapshots.Spec.{EntryOf, Differs, Recorded}
use esfs.Snapshots.Stored.{IsPath}
use esfs.Snapshots.Create.{Creates, sn_create-Creates}
use esfs.Snapshots.Destroy.{Destroys, sn_destroy-Destroys}
use esfs.Snapshots.Earliest.{but_last}
use esfs.Dentries.Spaces.{PathCalls, Done, path_sn-in, fails}
use esfs.Dentries.Modify.{mkdir, rmdir, make_snapshot, remove_snapshot}

-- The directories as the program sets them up: the stored length is the root's own, and the
-- snapshots are below the root.
pub record Mounted (fs : Fsdata) : Type 0 where
  pub rootdir_len : fs.rootdir_len ≡ length fs.rootdir
  pub sn_dir : fs.sn_dir ≡ fs.rootdir ++ sn_dir_name
  pub short : length fs.rootdir ≤ path_max - 4

in_sn_name : (name : List ℕ) → is_path_in_sn (sn_dir_name ++ (dirsep_ch ∷ name)) ≡ true
unfolding is_path_in_sn
in_sn_name name = ground arith

in_sn_root : is_path_in_sn sn_dir_name ≡ true
unfolding is_path_in_sn
in_sn_root = refl

module _ (os : Os) (locks : Locks os) (files : Files os) (pointers : PointerFiles os files)
    (trees : Trees os locks files pointers) (calls : PathCalls os) where
  open os use {World, Fd}
  open pointers use {text}

  -- What a mkdir makes of the snapshots `ps`: a further one at `path`, or fsdata as it was, with an
  -- error that is not EFAULT.
  abbrev pub Made : Fsdata → List ℕ → List (List ℕ) → Done os → Type 0
  Made fs path ps none = ⊥
  Made fs path ps (some (err e, fs', env)) = (fs' ≡ fs) × (e ≢ efault)
  Made fs path ps (some (ret n, fs', env)) = Recorded fs' (text env.world) (path ∷ ps)

  make_snapshot-Made :
      (fs : Fsdata) (sn : Snpath) (path : List ℕ) (ps : List (List ℕ)) (env : Env World)
      → sn.is_there ≡ snpath_id
      → EntryOf fs.sn_dir path
      → IsPath path
      → Differs path ps
      → Recorded fs (text env.world) ps
      → Made fs path ps (make_snapshot os locks files pointers trees calls fs sn path env)
  unfolding make_snapshot
  make_snapshot-Made fs sn path ps env t e i d k = by_kind sn.is_there t
    where
      by_result :
          (out : Result × Fsdata × World)
          → Creates os locks files pointers trees fs path ps out
          → Made fs path ps (
              some (
                elim out.0 [ err _ ↦ err 5 | ret zero ↦ ret 0 | ret (suc _) ↦ err 5 ],
                out.1,
                record env { world = out.2 },
              ))
      by_result (err x, fs', v) c = (c, λ h. absurd (omega (arith, h)))
      by_result (ret zero, fs', v) c = c.2
      by_result (ret (suc n), fs', v) c = absurd (omega (arith, c.0))

      by_kind :
          (k : SnpathTypes)
          → k ≡ snpath_id
          → Made fs path ps (elim k [
            | snpath_id ↦
                (let (r, fs', w) = sn_create os locks files pointers trees fs path env.world in
                  some (
                    elim r [ err _ ↦ err 5 | ret zero ↦ ret 0 | ret (suc _) ↦ err 5 ],
                    fs',
                    record env { world = w },
                  ))
            | _ ↦ some (err 14, fs, env)
          ])
      by_kind snpath_root h = absurd cc
      by_kind snpath_id h =
          by_result (sn_create os locks files pointers trees fs path env.world)
            (sn_create-Creates os locks files pointers trees fs path ps env.world e i d k)
      by_kind snpath_full h = absurd cc

  -- In a file system set up with its snapshots recorded, for a name with no separator that is not
  -- empty, no NUL in the path of the new snapshot, and no snapshot of that path yet: where mkdir
  -- of /snapshots/NAME returns no error, the snapshots recorded afterwards are ROOT/snapshots/NAME
  -- and then those before, and where it returns one, that is not EFAULT and fsdata is as it was.
  pub mkdir-Made :
      (fs : Fsdata) (junk : Mfd Fd) (sn : Snpath) (name : List ℕ) (mode : ℕ) (ps : List (List ℕ))
      (env : Env World)
      → Mounted fs
      → strchr name dirsep_ch ≡ none
      → 0 < length name
      → c_string (fs.sn_dir ++ (dirsep_ch ∷ name)) ≡ fs.sn_dir ++ (dirsep_ch ∷ name)
      → Differs (fs.sn_dir ++ (dirsep_ch ∷ name)) ps
      → Recorded fs (text env.world) ps
      → Made fs (fs.sn_dir ++ (dirsep_ch ∷ name)) ps (
          mkdir os locks files pointers trees calls fs junk sn
            (sn_dir_name ++ (dirsep_ch ∷ name))
            mode
            env)
  unfolding mkdir
  mkdir-Made fs junk sn name mode ps env m s l c d k =
      path_sn-in os fs (sn_dir_name ++ (dirsep_ch ∷ name)) sn env.world (fails os fs env)
        (λ parts fpath w.
          make_snapshot os locks files pointers trees calls fs parts fpath
            (record env { world = w }))
        _ (Made fs (fs.sn_dir ++ (dirsep_ch ∷ name)) ps) (in_sn_name name)
        (refl, λ h. absurd (omega (arith, h))) (refl, λ h. absurd (omega (arith, h))) by_path
    where
      fits :
          Fits
            (fs.rootdir ++ (sn_dir_name ++ (dirsep_ch ∷ name)))
            (map_path (sn_dir_name ++ (dirsep_ch ∷ name)) fs.rootdir fs.rootdir_len)
      fits =
          subst
            (λ n.
              Fits (fs.rootdir ++ (sn_dir_name ++ (dirsep_ch ∷ name)))
                (map_path (sn_dir_name ++ (dirsep_ch ∷ name)) fs.rootdir n))
            (sym m.rootdir_len)
            (map_path-Fits (sn_dir_name ++ (dirsep_ch ∷ name)) fs.rootdir m.short)

      joined : fs.rootdir ++ (sn_dir_name ++ (dirsep_ch ∷ name)) ≡ fs.sn_dir ++ (dirsep_ch ∷ name)
      joined =
          sym (append_assoc fs.rootdir sn_dir_name (dirsep_ch ∷ name))
          ∙ ap (λ x. x ++ (dirsep_ch ∷ name)) (sym m.sn_dir)

      by_path :
          (fpath : List ℕ)
          → map_path (sn_dir_name ++ (dirsep_ch ∷ name)) fs.rootdir fs.rootdir_len ≡ some fpath
          → Made fs (fs.sn_dir ++ (dirsep_ch ∷ name)) ps (
              make_snapshot os locks files pointers trees calls fs
                (decompose_sn_path sn (sn_dir_name ++ (dirsep_ch ∷ name))).0
                fpath
                (record env { world = (os.malloc env.world).1 }))
      by_path fpath h =
          subst
            (λ x. Made fs (fs.sn_dir ++ (dirsep_ch ∷ name)) ps (
              make_snapshot os locks files pointers trees calls fs
                (decompose_sn_path sn (sn_dir_name ++ (dirsep_ch ∷ name))).0 x
                (record env { world = (os.malloc env.world).1 })))
            (sym (fits.text fpath h ∙ joined))
            (make_snapshot-Made fs (decompose_sn_path sn (sn_dir_name ++ (dirsep_ch ∷ name))).0
              (fs.sn_dir ++ (dirsep_ch ∷ name)) ps (record env { world = (os.malloc env.world).1 })
              (ap (λ (x : Snpath × ℕ). x.0.is_there) (decompose_sn_path_lem sn name name s l l).0)
              (record { id = name; joined = refl; one_name = s; some_name = l })
              (record {
                nul_free = c;
                room =
                    subst (λ x. length x < path_max) (fits.text fpath h ∙ joined)
                      (fits.room fpath h);
              })
              d (subst (λ t. Recorded fs t ps) (sym (pointers.malloc_same env.world)) k))

  -- What an rmdir makes of the snapshots `ps`: all but the earliest, or fsdata as it was.
  abbrev pub Unmade : Fsdata → List (List ℕ) → Done os → Type 0
  Unmade fs ps none = ⊥
  Unmade fs [] (some (err e, fs', env)) = fs' ≡ fs
  Unmade fs [] (some (ret n, fs', env)) = ⊥
  Unmade fs (p ∷ ps) (some (err e, fs', env)) = fs' ≡ fs
  Unmade fs (p ∷ ps) (some (ret n, fs', env)) = Recorded fs' (text env.world) (but_last p ps)

  remove_snapshot-Unmade :
      (fs : Fsdata) (sn : Snpath) (path : List ℕ) (ps : List (List ℕ)) (env : Env World)
      → sn.is_there ≡ snpath_root
      → Recorded fs (text env.world) ps
      → Unmade fs ps (remove_snapshot os locks files pointers trees calls fs sn path env)
  unfolding remove_snapshot
  remove_snapshot-Unmade fs sn path ps env t k = by_kind sn.is_there t
    where
      by_result :
          (ps : List (List ℕ)) (out : Result × Fsdata × World)
          → Destroys os locks files pointers trees fs env.world ps out
          → Unmade fs ps (some (out.0, out.1, record env { world = out.2 }))
      by_result [] (err e, fs', v) d = ap (λ (x : Result × Fsdata × World). x.1) d
      by_result [] (ret n, fs', v) d = absurd (apart (ap (λ (x : Result × Fsdata × World). x.0) d))
        where
          apart : ret n ≡ err 2 → ⊥
          apart h = cc
      by_result (p ∷ ps) (err e, fs', v) d = d
      by_result (p ∷ ps) (ret n, fs', v) d = d

      by_kind :
          (k : SnpathTypes)
          → k ≡ snpath_root
          → Unmade fs ps (elim k [
            | snpath_root ↦
                (let (r, fs', w) = sn_destroy os locks files pointers trees fs env.world in
                  some (r, fs', record env { world = w }))
            | _ ↦ some (err 14, fs, env)
          ])
      by_kind snpath_root h =
          by_result ps (sn_destroy os locks files pointers trees fs env.world)
            (sn_destroy-Destroys os locks files pointers trees fs ps env.world k)
      by_kind snpath_id h = absurd cc
      by_kind snpath_full h = absurd cc

  -- Where the snapshots are recorded and rmdir of /snapshots returns no error, there was a
  -- snapshot, and those recorded afterwards are all but the earliest; where it returns one, fsdata
  -- is as it was.
  pub rmdir-Unmade :
      (fs : Fsdata) (sn : Snpath) (ps : List (List ℕ)) (env : Env World)
      → Recorded fs (text env.world) ps
      → Unmade fs ps (rmdir os locks files pointers trees calls fs sn sn_dir_name env)
  unfolding rmdir decompose_sn_path
  rmdir-Unmade fs sn ps env k =
      path_sn-in os fs sn_dir_name sn env.world (fails os fs env)
        (λ parts fpath w.
          remove_snapshot os locks files pointers trees calls fs parts fpath
            (record env { world = w }))
        _ (Unmade fs ps) in_sn_root (kept 36 ps env)
        (kept 12 ps (record env { world = (os.malloc env.world).1 }))
        (λ fpath h.
          remove_snapshot-Unmade fs (decompose_sn_path sn sn_dir_name).0 fpath ps
            (record env { world = (os.malloc env.world).1 }) refl
            (subst (λ t. Recorded fs t ps) (sym (pointers.malloc_same env.world)) k))
    where
      kept : (e : ℕ) (ps : List (List ℕ)) (env : Env World) → Unmade fs ps (some (err e, fs, env))
      kept e [] env = refl
      kept e (p ∷ ps) env = refl
