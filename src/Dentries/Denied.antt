-- ===== src/Dentries/Denied.antt =====
-- In the snapshot space nothing is written but by making and destroying snapshots.
use esfs.Base.{ℕ, zero, suc, ◌≡◌, refl, ◌∙◌, sym, subst, Bool, true, false, none, some, List}
use esfs.Os.{Os, Locks}
use esfs.Files.{Files}
use esfs.Types.{ret, err, Mfd}
use esfs.Paths.Snpath.{
  Snpath, SnpathTypes, snpath_root, snpath_id, snpath_full, is_path_in_sn, decompose_sn_path,
}
use esfs.Block.State.{Env}
use esfs.Handle.Open.{Fsdata}
use esfs.Snapshots.Pointers.{PointerFiles}
use esfs.Snapshots.Manage.{Trees, sn_create, sn_destroy}
use esfs.Dentries.Spaces.{PathCalls, Done, main_only, path_sn, path_sn-in, main_only-in, fails}
use esfs.Dentries.Modify.{
  mkdir, rmdir, chmod, chown, unlink, truncate, utimens, rename, symlink, link, mknod, setxattr,
  removexattr, make_snapshot, remove_snapshot,
}
use esfs.Steps.Calls.{Dirs}
use esfs.Dentries.Opening.{create}
use esfs.Dentries.Run.{
  Request, do_mkdir, do_rmdir, do_chmod, do_chown, do_unlink, do_truncate, do_utimens, do_rename,
  do_symlink, do_link, do_mknod, do_setxattr, do_removexattr, do_create, given, run,
}

-- The path that a request is called on.
abbrev pub path_of : Request → List ℕ
path_of (do_mkdir path mode) = path
path_of (do_rmdir path) = path
path_of (do_chmod path mode) = path
path_of (do_chown path uid gid) = path
path_of (do_unlink path) = path
path_of (do_truncate path newsize) = path
path_of (do_utimens path tv) = path
path_of (do_rename path newpath) = path
path_of (do_symlink dest path) = path
path_of (do_link path newpath) = path
path_of (do_mknod path mode dev) = path
path_of (do_setxattr path name value flags) = path
path_of (do_removexattr path name) = path
path_of (do_create path mode flags) = path

abbrev pub is_id : SnpathTypes → Bool
is_id snpath_id = true
is_id _ = false

abbrev pub is_root : SnpathTypes → Bool
is_root snpath_root = true
is_root _ = false

-- The commands that stand for making and destroying a snapshot.
abbrev pub is_command : Snpath → Request → Bool
is_command sn (do_mkdir path mode) = is_id (decompose_sn_path sn path).0.is_there
is_command sn (do_rmdir path) = is_root (decompose_sn_path sn path).0.is_there
is_command sn _ = false

module _ (os : Os) (locks : Locks os) (files : Files os) (pointers : PointerFiles os files)
    (trees : Trees os locks files pointers) (dirs : Dirs os) (calls : PathCalls os) where
  open os use {World, Fd}

  -- An error, with fsdata and all files as they were.
  abbrev pub Refused : Fsdata → Env World → Done os → Type 0
  Refused fs env none = ⊥
  Refused fs env (some (ret n, fs', env')) = ⊥
  Refused fs env (some (err e, fs', env')) = (fs' ≡ fs) × (os.disk env'.world ≡ os.disk env.world)

  main_only-Refused :
      (fs : Fsdata) (path : List ℕ) (env : Env World) (go : List ℕ → Done os)
      → is_path_in_sn path ≡ true
      → Refused fs env (main_only os fs path env.world (fails os fs env) go)
  main_only-Refused fs path env go h =
      subst (Refused fs env) (sym (main_only-in os fs path env.world (fails os fs env) go h))
        (refl, refl)

  create-Refused :
      (fs : Fsdata) (junk : Mfd Fd) (path : List ℕ) (mode flags : ℕ) (env : Env World)
      → is_path_in_sn path ≡ true
      → Refused fs env (
          given os locks files pointers trees dirs calls fs
            (create os locks files pointers dirs calls fs junk path mode flags env))
  unfolding create
  create-Refused fs junk path mode flags env h =
      subst (λ out. Refused fs env (given os locks files pointers trees dirs calls fs out))
        (sym (
          main_only-in os fs path env.world (λ e v. some (err e, none, record env { world = v })) _
            h))
        (refl, refl)

  path_sn-Refused :
      (fs : Fsdata) (path : List ℕ) (sn : Snpath) (env : Env World)
      → (in_sn : Snpath → List ℕ → World → Done os) (in_main : List ℕ → Done os)
      → is_path_in_sn path ≡ true
      → ((fpath : List ℕ) (w : World)
          → Refused fs (record env { world = w }) (in_sn (decompose_sn_path sn path).0 fpath w))
      → Refused fs env (path_sn os fs path sn env.world (fails os fs env) in_sn in_main)
  path_sn-Refused fs path sn env in_sn in_main h r =
      path_sn-in os fs path sn env.world (fails os fs env) in_sn in_main (Refused fs env) h
        (refl, refl) (refl, os.malloc_disk env.world)
        (λ fpath e.
          moved (in_sn (decompose_sn_path sn path).0 fpath (os.malloc env.world).1)
            (r fpath (os.malloc env.world).1))
    where
      moved :
          (out : Done os)
          → Refused fs (record env { world = (os.malloc env.world).1 }) out
          → Refused fs env out
      moved none x = x
      moved (some (ret n, fs', env')) x = x
      moved (some (err e, fs', env')) x = (x.0, x.1 ∙ os.malloc_disk env.world)

  make_snapshot-Refused :
      (fs : Fsdata) (sn : Snpath) (fpath : List ℕ) (env : Env World)
      → is_id sn.is_there ≡ false
      → Refused fs env (make_snapshot os locks files pointers trees calls fs sn fpath env)
  unfolding make_snapshot
  make_snapshot-Refused fs sn fpath env h = by_kind sn.is_there h
    where
      by_kind :
          (k : SnpathTypes)
          → is_id k ≡ false
          → Refused fs env (elim k [
            | snpath_id ↦
                (let (r, fs', w) = sn_create os locks files pointers trees fs fpath env.world in
                  some (
                    elim r [ err _ ↦ err 5 | ret zero ↦ ret 0 | ret (suc _) ↦ err 5 ],
                    fs',
                    record env { world = w },
                  ))
            | _ ↦ some (err 14, fs, env)
          ])
      by_kind snpath_root e = (refl, refl)
      by_kind snpath_id e = absurd cc
      by_kind snpath_full e = (refl, refl)

  remove_snapshot-Refused :
      (fs : Fsdata) (sn : Snpath) (fpath : List ℕ) (env : Env World)
      → is_root sn.is_there ≡ false
      → Refused fs env (remove_snapshot os locks files pointers trees calls fs sn fpath env)
  unfolding remove_snapshot
  remove_snapshot-Refused fs sn fpath env h = by_kind sn.is_there h
    where
      by_kind :
          (k : SnpathTypes)
          → is_root k ≡ false
          → Refused fs env (elim k [
            | snpath_root ↦
                (let (r, fs', w) = sn_destroy os locks files pointers trees fs env.world in
                  some (r, fs', record env { world = w }))
            | _ ↦ some (err 14, fs, env)
          ])
      by_kind snpath_root e = absurd cc
      by_kind snpath_id e = (refl, refl)
      by_kind snpath_full e = (refl, refl)

  -- $create, or a request of fuse_path_write.c, on a path of the snapshot space, that is neither a
  -- mkdir of a snapshot nor an rmdir of the directory of the snapshots returns an error and leaves
  -- fsdata and what the files hold as they were.
  pub run-Refused :
      (fs : Fsdata) (junk : Mfd Fd) (sn : Snpath) (r : Request) (env : Env World)
      → is_path_in_sn (path_of r) ≡ true
      → is_command sn r ≡ false
      → Refused fs env (run os locks files pointers trees dirs calls fs junk sn r env)
  unfolding run
  run-Refused fs junk sn (do_mkdir path mode) env h c =
      unfold mkdir in
      path_sn-Refused fs path sn env
        (λ parts fpath w.
          make_snapshot os locks files pointers trees calls fs parts fpath
            (record env { world = w }))
        _ h
        (λ fpath w.
          make_snapshot-Refused fs (decompose_sn_path sn path).0 fpath (record env { world = w }) c)
  run-Refused fs junk sn (do_rmdir path) env h c =
      unfold rmdir in
      path_sn-Refused fs path sn env
        (λ parts fpath w.
          remove_snapshot os locks files pointers trees calls fs parts fpath
            (record env { world = w }))
        _ h
        (λ fpath w.
          remove_snapshot-Refused fs (decompose_sn_path sn path).0 fpath (record env { world = w })
            c)
  run-Refused fs junk sn (do_chmod path mode) env h c =
      unfold chmod in main_only-Refused fs path env _ h
  run-Refused fs junk sn (do_chown path uid gid) env h c =
      unfold chown in main_only-Refused fs path env _ h
  run-Refused fs junk sn (do_unlink path) env h c =
      unfold unlink in main_only-Refused fs path env _ h
  run-Refused fs junk sn (do_truncate path newsize) env h c =
      unfold truncate in main_only-Refused fs path env _ h
  run-Refused fs junk sn (do_utimens path tv) env h c =
      unfold utimens in main_only-Refused fs path env _ h
  run-Refused fs junk sn (do_rename path newpath) env h c = unfold rename in (refl, refl)
  run-Refused fs junk sn (do_symlink dest path) env h c = unfold symlink in (refl, refl)
  run-Refused fs junk sn (do_link path newpath) env h c = unfold link in (refl, refl)
  run-Refused fs junk sn (do_mknod path mode dev) env h c = unfold mknod in (refl, refl)
  run-Refused fs junk sn (do_setxattr path name value flags) env h c =
      unfold setxattr in (refl, refl)
  run-Refused fs junk sn (do_removexattr path name) env h c = unfold removexattr in (refl, refl)
  run-Refused fs junk sn (do_create path mode flags) env h c =
      create-Refused fs junk path mode flags env h
