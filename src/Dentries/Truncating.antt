-- ===== src/Dentries/Truncating.antt =====
-- $_open_truncate_close of fuse_path_open.c.
use esfs.Base.{ℕ, zero, suc, Bool, true, false, Option, none, some, List, ◌==◌, if◌then◌else◌}
use esfs.Os.{Os, Locks}
use esfs.Files.{Files, fd_opened, open_failed}
use esfs.Types.{Result, ret, err, MfdFd, nosn, Mfd}
use esfs.Types.Errno.{enoent}
use esfs.Block.State.{Env}
use esfs.Block.Save.{b_truncate}
use esfs.Handle.Open.{Fsdata, mfd_open_sn, mfd_close_sn}

module _ (os : Os) (locks : Locks os) (files : Files os) where
  open os use {World, Fd}

  unfoldable pub is_nosn : MfdFd Fd → Bool
  is_nosn nosn = true
  is_nosn _ = false

  -- After $b_truncate: the main file is closed.
  unfoldable pub close_main :
      Fd → Option (Result × Mfd Fd × Env World) → Option (Result × Mfd Fd × Env World)
  close_main fd none = none
  close_main fd (some (r, mfd, env)) =
      some (r, mfd, record env { world = (files.close fd env.world).1 })

  -- The block `do ... while(0)`, with the value that -waserror has after it.
  unfoldable pub save_cut : List ℕ → ℕ → Mfd Fd → Env World → Option (Result × Mfd Fd × Env World)
  unfolding is_nosn close_main
  save_cut fpath newsize mfd env =
      if is_nosn mfd.mapfd
      then some (ret 0, mfd, env)
      else if mfd.mapheader.exists == 0
      then some (ret 0, mfd, env)
      else (let (r, w) = files.open_rdonly fpath env.world in
          elim r [
            | open_failed e ↦
                some (if suc e == enoent then ret 0 else err (suc e), mfd, record env { world = w })
            | fd_opened fd ↦ close_main fd (
                b_truncate os locks (record mfd { mainfd = fd }) newsize false
                  (record env { world = w }))
          ])

  -- $mfd_close_sn at the end, whose error is returned first.
  unfoldable pub close_saved :
      Fsdata → Option (Result × Mfd Fd × Env World) → Option (Result × Env World)
  unfolding mfd_close_sn
  close_saved fs none = none
  close_saved fs (some (r, mfd, env)) =
      let (q, w) = mfd_close_sn os locks files mfd env.world in
      some (elim q [ err e ↦ err e | ret _ ↦ r ], record env { world = w })

  -- `junk` are the bytes of the local `myfd` before.
  unfoldable pub open_truncate_close :
      Fsdata → List ℕ → List ℕ → ℕ → Mfd Fd → Env World → Option (Result × Env World)
  unfolding mfd_open_sn save_cut close_saved
  open_truncate_close fs path fpath newsize junk env =
      let (r, mfd, w) = mfd_open_sn os locks files fs path (some fpath) junk env.world in
      elim r [
        | err e ↦ some (err e, record env { world = w })
        | ret (suc n) ↦ some (ret (suc n), record env { world = w })
        | ret zero ↦ close_saved fs (save_cut fpath newsize mfd (record env { world = w }))
      ]
