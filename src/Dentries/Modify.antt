-- ===== src/Dentries/Modify.antt =====
-- The requests of fuse_path_write.c.
use esfs.Base.{ℕ, zero, suc, Option, none, some, List}
use esfs.Os.{Os, Locks, Ret, done, failed}
use esfs.Files.{Files}
use esfs.Types.{Result, ret, err, Mfd}
use esfs.Types.Errno.{efault, eio, enotsup}
use esfs.Paths.Snpath.{Snpath, snpath_root, snpath_id}
use esfs.Block.State.{Env}
use esfs.Handle.Open.{Fsdata, mfd_init_sn}
use esfs.Snapshots.Pointers.{PointerFiles}
use esfs.Snapshots.Manage.{Trees, sn_create, sn_destroy}
use esfs.Dentries.Spaces.{Times, PathCalls, Done, fails, main_only, path_sn}
use esfs.Dentries.Truncating.{open_truncate_close}

module _ (os : Os) (locks : Locks os) (files : Files os) (pointers : PointerFiles os files)
    (trees : Trees os locks files pointers) (calls : PathCalls os) where
  open os use {World, Fd}

  -- if(call(...) == 0) { return 0; } return -errno;
  unfoldable pub passed_on : Fsdata → Env World → Ret × World → Done os
  passed_on fs env (done _, w) = some (ret 0, fs, record env { world = w })
  passed_on fs env (failed e, w) = some (err (suc e), fs, record env { world = w })

  -- A call after one that has to return 0.
  unfoldable pub after_init : Fsdata → Env World → (World → Ret × World) → Result × World → Done os
  unfolding passed_on
  after_init fs env call (err e, w) = some (err e, fs, record env { world = w })
  after_init fs env call (ret (suc n), w) = some (ret (suc n), fs, record env { world = w })
  after_init fs env call (ret zero, w) = passed_on fs env (call w)

  unfoldable pub after_cut : Fsdata → (World → Ret × World) → Option (Result × Env World) → Done os
  unfolding passed_on
  after_cut fs call none = none
  after_cut fs call (some (err e, env)) = some (err e, fs, env)
  after_cut fs call (some (ret (suc n), env)) = some (ret (suc n), fs, env)
  after_cut fs call (some (ret zero, env)) = passed_on fs env (call env.world)

  -- The block of $mkdir for the snapshot space: every error of $sn_create is reported as EIO.
  unfoldable pub make_snapshot : Fsdata → Snpath → List ℕ → Env World → Done os
  unfolding sn_create
  make_snapshot fs snpath fpath env = elim snpath.is_there [
    | snpath_id ↦
        (let (r, fs', w) = sn_create os locks files pointers trees fs fpath env.world in
          some (
            elim r [ err _ ↦ err eio | ret zero ↦ ret 0 | ret (suc _) ↦ err eio ],
            fs',
            record env { world = w },
          ))
    | _ ↦ some (err efault, fs, env)
  ]

  -- The block of $rmdir for the snapshot space.
  unfoldable pub remove_snapshot : Fsdata → Snpath → List ℕ → Env World → Done os
  unfolding sn_destroy
  remove_snapshot fs snpath fpath env = elim snpath.is_there [
    | snpath_root ↦
        (let (r, fs', w) = sn_destroy os locks files pointers trees fs env.world in
          some (r, fs', record env { world = w }))
    | _ ↦ some (err efault, fs, env)
  ]

  -- The requests. `junk` and `sn` are the bytes of their structs before.
  unfoldable pub mkdir : Fsdata → Mfd Fd → Snpath → List ℕ → ℕ → Env World → Done os
  unfolding path_sn make_snapshot after_init mfd_init_sn
  mkdir fs junk sn path mode env =
      path_sn os fs path sn env.world (fails os fs env)
        (λ parts fpath w. make_snapshot fs parts fpath (record env { world = w }))
        (λ fpath.
          after_init fs env (calls.mkdir fpath mode)
            (mfd_init_sn os locks files fs path fpath junk env.world))

  unfoldable pub rmdir : Fsdata → Snpath → List ℕ → Env World → Done os
  unfolding path_sn remove_snapshot passed_on
  rmdir fs sn path env =
      path_sn os fs path sn env.world (fails os fs env)
        (λ parts fpath w. remove_snapshot fs parts fpath (record env { world = w }))
        (λ fpath. passed_on fs env (trees.rmdir fpath env.world))

  unfoldable pub chmod : Fsdata → Mfd Fd → List ℕ → ℕ → Env World → Done os
  unfolding main_only after_init mfd_init_sn
  chmod fs junk path mode env = main_only os fs path env.world (fails os fs env) λ fpath.
      after_init fs env (calls.chmod fpath mode)
        (mfd_init_sn os locks files fs path fpath junk env.world)

  unfoldable pub chown : Fsdata → Mfd Fd → List ℕ → ℕ → ℕ → Env World → Done os
  unfolding main_only after_init mfd_init_sn
  chown fs junk path uid gid env = main_only os fs path env.world (fails os fs env) λ fpath.
      after_init fs env (calls.chown fpath uid gid)
        (mfd_init_sn os locks files fs path fpath junk env.world)

  unfoldable pub unlink : Fsdata → Mfd Fd → List ℕ → Env World → Done os
  unfolding main_only after_cut open_truncate_close
  unlink fs junk path env = main_only os fs path env.world (fails os fs env) λ fpath.
      after_cut fs (files.unlink fpath)
        (open_truncate_close os locks files fs path fpath 0 junk env)

  unfoldable pub truncate : Fsdata → Mfd Fd → List ℕ → ℕ → Env World → Done os
  unfolding main_only after_cut open_truncate_close
  truncate fs junk path newsize env = main_only os fs path env.world (fails os fs env) λ fpath.
      after_cut fs (calls.truncate fpath newsize)
        (open_truncate_close os locks files fs path fpath newsize junk env)

  -- $$SAVE_ON_UTIMENSAT is 0.
  unfoldable pub utimens : Fsdata → List ℕ → Times → Env World → Done os
  unfolding main_only passed_on
  utimens fs path tv env =
      main_only os fs path env.world (fails os fs env)
        λ fpath. passed_on fs env (calls.utimensat fpath tv env.world)

  unfoldable pub rename : Fsdata → List ℕ → List ℕ → Env World → Done os
  rename fs path newpath env = some (err enotsup, fs, env)

  unfoldable pub symlink : Fsdata → List ℕ → List ℕ → Env World → Done os
  symlink fs dest path env = some (err enotsup, fs, env)

  unfoldable pub link : Fsdata → List ℕ → List ℕ → Env World → Done os
  link fs path newpath env = some (err enotsup, fs, env)

  unfoldable pub mknod : Fsdata → List ℕ → ℕ → ℕ → Env World → Done os
  mknod fs path mode dev env = some (err enotsup, fs, env)

  unfoldable pub setxattr : Fsdata → List ℕ → List ℕ → List ℕ → ℕ → Env World → Done os
  setxattr fs path name value flags env = some (err enotsup, fs, env)

  unfoldable pub removexattr : Fsdata → List ℕ → List ℕ → Env World → Done os
  removexattr fs path name env = some (err enotsup, fs, env)
