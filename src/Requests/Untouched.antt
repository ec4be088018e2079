-- ===== src/Requests/Untouched.antt =====
-- What $write and $ftruncate leave as it is: everything that any snapshot shows, where no pointer was
-- written in part.
use esfs.Base.{ℕ, zero, suc, ◌-◌, ◌≡◌, ◌≢◌, refl, sym, ◌∙◌, ap, subst, none, some, false, arith}
use mathlib.Core.Option.{some_inj}
use esfs.Os.{SameFile, Os, Locks, Ret, done, failed}
use esfs.Files.{Files}
use esfs.Types.{Result, ret, err, MfdTypes, mfd_main, mfd_sn_root, mfd_sn_id, mfd_sn_full, Mfd}
use esfs.Types.Errno.{enxio}
use esfs.Block.Calc.{map_offset}
use esfs.Block.State.{Env}
use esfs.Block.Save.{b_write, b_truncate}
use esfs.Block.Kept.{Kept, SameFile-refl, SameFile-trans}
use esfs.Block.Saving.{IsOpen, InRange, Secured, CacheIsOk, b_write-Secured, b_truncate-Secured}
use esfs.Block.Isolation.{Kept-write, Kept-truncate}
use esfs.Handle.Open.{Fsdata, mfd_validate}
use esfs.Requests.Write.{
  Answer, in_world, write_data, after_save, write_valid, write, cut_file, cut_valid, ftruncate,
}

module _ (os : Os) (locks : Locks os) (files : Files os) (mfd : Mfd os.Fd) (map dat : os.Fd) where
  open os use {World, File, Fd, file, disk}

  abbrev main : Fd
  main = mfd.mainfd

  abbrev sn_size : ℕ
  sn_size = mfd.mapheader.fstat.st_size

  -- The snapshot keeps `orig`, and no file but the main file and its map and dat files changed.
  pub record Untouched (orig : ℕ → ℕ) (env : Env World) (mfd' : Mfd Fd) (env' : Env World)
      : Type 0 where
    pub kept : Kept (file main) (file map) (file dat) sn_size orig (disk env'.world)
    pub cached : CacheIsOk os locks mfd map dat mfd' (disk env'.world)
    pub others :
        (g : File)
        → g ≢ file main
        → g ≢ file map
        → g ≢ file dat
        → SameFile (disk env.world) (disk env'.world) g

  Secured-Untouched :
      {orig : ℕ → ℕ} {offset size : ℕ} {env env' : Env World} {r : Result} {mfd' : Mfd Fd}
      → Secured os locks mfd map dat offset size env r mfd' env'
      → r ≢ err enxio
      → Kept (file main) (file map) (file dat) sn_size orig (disk env.world)
      → Untouched orig env mfd' env'
  Secured-Untouched {orig} s whole k = record {
    kept = s.kept whole orig k;
    cached = s.cached whole;
    others = λ g a b c. s.outside g b c;
  }

  -- A change of the main file after the blocks were secured.
  Untouched-main :
      {orig : ℕ → ℕ} {env env' : Env World} {mfd' : Mfd Fd} {w : World}
      → (file main ≢ file map)
      → Untouched orig env mfd' env'
      → Kept (file main) (file map) (file dat) sn_size orig (disk w)
      → ((g : File) → g ≢ file main → SameFile (disk env'.world) (disk w) g)
      → Untouched orig env mfd' (in_world os locks files env' w)
  Untouched-main apart u k same = record {
    kept = k;
    cached = λ j e z.
        u.cached j e (sym ((same (file map) (λ q. apart (sym q))).word (map_offset j)) ∙ z);
    others = λ g a b c. SameFile-trans (u.others g a b c) (same g a);
  }

  Untouched-disk :
      {orig : ℕ → ℕ} {env env' : Env World} {mfd' : Mfd Fd} (w : World)
      → disk w ≡ disk env'.world
      → Untouched orig env mfd' env'
      → Untouched orig env mfd' (in_world os locks files env' w)
  Untouched-disk {orig} {env} {env'} {mfd'} w e u = record {
    kept = subst (λ d. Kept (file main) (file map) (file dat) sn_size orig d) (sym e) u.kept;
    cached = subst (λ d. CacheIsOk os locks mfd map dat mfd' d) (sym e) u.cached;
    others = λ g a b c. subst (λ d. SameFile (disk env.world) d g) (sym e) (u.others g a b c);
  }

  module _ (is : IsOpen os mfd map dat) (orig : ℕ → ℕ) where
    write_data-Untouched :
        (buf : ℕ → ℕ) (size offset : ℕ) (env env' : Env World) (mfd' : Mfd Fd)
        → Secured os locks mfd map dat offset size env (ret 0) mfd' env'
        → Kept (file main) (file map) (file dat) sn_size orig (disk env.world)
        → Untouched orig env mfd'
            (in_world os locks files env' (os.pwrite main buf size offset env'.world).1)
    write_data-Untouched buf size offset env env' mfd' s k =
        by_result (os.pwrite main buf size offset env'.world).0 refl
      where
        u : Untouched orig env mfd' env'
        u = Secured-Untouched s (λ z. cc) k

        by_result :
            (r : Ret)
            → (os.pwrite main buf size offset env'.world).0 ≡ r
            → Untouched orig env mfd'
                (in_world os locks files env' (os.pwrite main buf size offset env'.world).1)
        by_result (failed e) q =
            Untouched-disk (os.pwrite main buf size offset env'.world).1
              (os.pwrite_failed main buf size offset env'.world e q) u
        by_result (done n) q =
            let w = os.pwrite_done main buf size offset env'.world n q in
            Untouched-main is.apart.0 u
              (Kept-write (file main) (file map) (file dat) is.apart u.kept w.1
                (λ i a b c. s.pointers refl i a (omega (arith, b, w.0)) c))
              w.1.others

    cut_file-Untouched :
        (newsize : ℕ) (env env' : Env World) (mfd' : Mfd Fd)
        → Secured os locks mfd map dat newsize (sn_size - newsize) env (ret 0) mfd' env'
        → Kept (file main) (file map) (file dat) sn_size orig (disk env.world)
        → Untouched orig env mfd'
            (in_world os locks files env' (files.ftruncate main newsize env'.world).1)
    cut_file-Untouched newsize env env' mfd' s k =
        by_result (files.ftruncate main newsize env'.world).0 refl
      where
        u : Untouched orig env mfd' env'
        u = Secured-Untouched s (λ z. cc) k

        by_result :
            (r : Ret)
            → (files.ftruncate main newsize env'.world).0 ≡ r
            → Untouched orig env mfd'
                (in_world os locks files env' (files.ftruncate main newsize env'.world).1)
        by_result (failed e) q =
            Untouched-disk (files.ftruncate main newsize env'.world).1
              (files.ftruncate_failed main newsize env'.world e q) u
        by_result (done n) q =
            let w = files.ftruncate_done main newsize env'.world n q in
            Untouched-main is.apart.0 u
              (Kept-truncate (file main) (file map) (file dat) is.apart u.kept w
                (λ i a c. s.pointers refl i a (omega (arith, a, c)) c))
              w.others

    mainfd-eq :
        {offset size : ℕ} {env env' : Env World} {r : Result} {mfd' : Mfd Fd}
        → Secured os locks mfd map dat offset size env r mfd' env'
        → mfd'.mainfd ≡ main
    mainfd-eq s = ap (λ (m : Mfd Fd). m.mainfd) s.handle

    saved-Untouched :
        (go : Mfd Fd → Env World → Answer os locks files) (offset size : ℕ) (env : Env World)
        (saved : Answer os locks files)
        → ((r : Result) (m : Mfd Fd) (e : Env World)
            → saved ≡ some (r, m, e)
            → Secured os locks mfd map dat offset size env r m e)
        → Kept (file main) (file map) (file dat) sn_size orig (disk env.world)
        → ((m : Mfd Fd) (e : Env World) (r : Result) (m' : Mfd Fd) (e' : Env World)
            → Secured os locks mfd map dat offset size env (ret 0) m e
            → go m e ≡ some (r, m', e')
            → Untouched orig env m' e')
        → (r : Result) (m' : Mfd Fd) (e' : Env World)
        → after_save os locks files go saved ≡ some (r, m', e')
        → r ≢ err enxio
        → Untouched orig env m' e'
    unfolding after_save
    saved-Untouched go offset size env none secured k step r m' e' h whole = cc
    saved-Untouched go offset size env (some (err e, m, v)) secured k step r m' e' h whole =
        subst (λ (x : Result × Mfd Fd × Env World). Untouched orig env x.1 x.2) (some_inj.0 h)
          (Secured-Untouched (secured (err e) m v refl)
            (λ z. whole (ap (λ (x : Result × Mfd Fd × Env World). x.0) (sym (some_inj.0 h)) ∙ z)) k)
    saved-Untouched go offset size env (some (ret zero, m, v)) secured k step r m' e' h whole =
        step m v r m' e' (secured (ret 0) m v refl) h
    saved-Untouched go offset size env (some (ret (suc n), m, v)) secured k step r m' e' h whole =
        subst (λ (x : Result × Mfd Fd × Env World). Untouched orig env x.1 x.2) (some_inj.0 h)
          (Secured-Untouched (secured (ret (suc n)) m v refl) (λ z. cc) k)

    write_data-step :
        (buf : ℕ → ℕ) (size offset : ℕ) (env env' : Env World) (mfd' m : Mfd Fd) (r : Result)
        (e : Env World)
        → Secured os locks mfd map dat offset size env (ret 0) mfd' env'
        → Kept (file main) (file map) (file dat) sn_size orig (disk env.world)
        → write_data os locks files buf size offset mfd' env' ≡ some (r, m, e)
        → Untouched orig env m e
    unfolding write_data
    write_data-step buf size offset env env' mfd' m r e s k h =
        subst (λ (x : Result × Mfd Fd × Env World). Untouched orig env x.1 x.2) (some_inj.0 h)
          (subst
            (λ fd.
              Untouched orig env mfd'
                (in_world os locks files env' (os.pwrite fd buf size offset env'.world).1))
            (sym (mainfd-eq s)) (write_data-Untouched buf size offset env env' mfd' s k))

    cut_file-step :
        (newsize : ℕ) (env env' : Env World) (mfd' m : Mfd Fd) (r : Result) (e : Env World)
        → Secured os locks mfd map dat newsize (sn_size - newsize) env (ret 0) mfd' env'
        → Kept (file main) (file map) (file dat) sn_size orig (disk env.world)
        → cut_file os locks files newsize mfd' env' ≡ some (r, m, e)
        → Untouched orig env m e
    unfolding cut_file
    cut_file-step newsize env env' mfd' m r e s k h =
        subst (λ (x : Result × Mfd Fd × Env World). Untouched orig env x.1 x.2) (some_inj.0 h)
          (subst
            (λ fd.
              Untouched orig env mfd'
                (in_world os locks files env' (files.ftruncate fd newsize env'.world).1))
            (sym (mainfd-eq s)) (cut_file-Untouched newsize env env' mfd' s k))

    -- The handle belongs to the latest snapshot: $mfd_validate leaves it as it is.
    mfd_validate-eq :
        (fs : Fsdata) (w : World)
        → fs.sn_number ≡ mfd.sn_number
        → mfd_validate os locks files fs mfd w ≡ (ret 0, mfd, w)
    unfolding mfd_validate
    mfd_validate-eq fs w e = ground (arith, e)

    pub write-Untouched :
        (fs : Fsdata) (buf : ℕ → ℕ) (size offset : ℕ) (env : Env World) (r : Result) (mfd' : Mfd Fd)
        (env' : Env World)
        → fs.sn_number ≡ mfd.sn_number
        → InRange sn_size offset size
        → CacheIsOk os locks mfd map dat mfd (disk env.world)
        → Kept (file main) (file map) (file dat) sn_size orig (disk env.world)
        → write os locks files fs buf size offset mfd env ≡ some (r, mfd', env')
        → r ≢ err enxio
        → Untouched orig env mfd' env'
    unfolding write write_valid
    write-Untouched fs buf size offset env r mfd' env' number range c k h whole =
        by_type mfd.is_main h
      where
        unchanged :
            ◌≡◌ {A = Answer os locks files} (some (err 13, mfd, env)) (some (r, mfd', env'))
            → Untouched orig env mfd' env'
        unchanged q =
            subst (λ (x : Result × Mfd Fd × Env World). Untouched orig env x.1 x.2) (some_inj.0 q)
              (record {
                kept = k;
                cached = c;
                others = λ g x y z. SameFile-refl (disk env.world) g;
              })

        valid :
            (x : Result × Mfd Fd × World)
            → x ≡ (ret 0, mfd, env.world)
            → write_valid os locks files buf size offset x env ≡ some (r, mfd', env')
            → Untouched orig env mfd' env'
        valid x e q =
            saved-Untouched (write_data os locks files buf size offset) offset size env
              (b_write os locks mfd size offset false env)
              (λ v m t z.
                b_write-Secured os locks mfd map dat is offset size false env v m t range c z)
              k (λ m t v m' t' s z. write_data-step buf size offset env t m m' v t' s k z) r mfd'
              env'
              (subst (λ y. write_valid os locks files buf size offset y env ≡ some (r, mfd', env'))
                e q)
              whole

        by_type :
            (y : MfdTypes)
            → ◌≡◌ {A = Answer os locks files}
                (elim y [
                  | mfd_main ↦
                      write_valid os locks files buf size offset
                        (mfd_validate os locks files fs mfd env.world)
                        env
                  | _ ↦ some (err 13, mfd, env)
                ])
                (some (r, mfd', env'))
            → Untouched orig env mfd' env'
        by_type mfd_main q =
            valid (mfd_validate os locks files fs mfd env.world)
              (mfd_validate-eq fs env.world number) q
        by_type mfd_sn_root q = unchanged q
        by_type mfd_sn_id q = unchanged q
        by_type mfd_sn_full q = unchanged q

    pub ftruncate-Untouched :
        (fs : Fsdata) (newsize : ℕ) (env : Env World) (r : Result) (mfd' : Mfd Fd)
        (env' : Env World)
        → fs.sn_number ≡ mfd.sn_number
        → mfd.mapheader.exists ≡ 1
        → InRange sn_size newsize 0
        → CacheIsOk os locks mfd map dat mfd (disk env.world)
        → Kept (file main) (file map) (file dat) sn_size orig (disk env.world)
        → ftruncate os locks files fs newsize mfd env ≡ some (r, mfd', env')
        → r ≢ err enxio
        → Untouched orig env mfd' env'
    unfolding ftruncate cut_valid
    ftruncate-Untouched fs newsize env r mfd' env' number there range c k h whole =
        valid (mfd_validate os locks files fs mfd env.world) (mfd_validate-eq fs env.world number) h
      where
        valid :
            (x : Result × Mfd Fd × World)
            → x ≡ (ret 0, mfd, env.world)
            → cut_valid os locks files newsize x env ≡ some (r, mfd', env')
            → Untouched orig env mfd' env'
        valid x e q =
            saved-Untouched (cut_file os locks files newsize) newsize (sn_size - newsize) env
              (b_truncate os locks mfd newsize false env)
              (λ v m t z.
                b_truncate-Secured os locks mfd map dat is newsize false env v m t range there c z)
              k (λ m t v m' t' s z. cut_file-step newsize env t m m' v t' s k z) r mfd' env'
              (subst (λ y. cut_valid os locks files newsize y env ≡ some (r, mfd', env')) e q) whole
