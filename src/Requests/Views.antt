-- ===== src/Requests/Views.antt =====
-- The views of the snapshots before and after a request that changes the main file.
use esfs.Base.{ℕ, ◌≤◌, ◌<◌, ◌≡◌, ◌≢◌, some}
use esfs.Os.{Os, Locks}
use esfs.Files.{Files}
use esfs.Types.Errno.{enxio}
use esfs.Types.{Result, err, Mfd, SnStep}
use esfs.Block.State.{Env}
use esfs.Block.Kept.{Kept}
use esfs.Block.Saving.{IsOpen, InRange, CacheIsOk}
use esfs.Block.View.{view}
use esfs.Block.Isolation.{Chain, Passes, view-eq}
use esfs.Handle.Open.{Fsdata}
use esfs.Requests.Write.{write, ftruncate}
use esfs.Requests.Untouched.{write-Untouched, ftruncate-Untouched}

module _ (os : Os) (locks : Locks os) (files : Files os) (mfd : Mfd os.Fd) (map dat : os.Fd)
    (is : IsOpen os mfd map dat) (steps : ℕ → SnStep os.Fd) (level : ℕ)
    (chain : Chain os steps (os.file mfd.mainfd) (os.file map) (os.file dat) level)
    (orig : ℕ → ℕ) where
  open os use {World, Fd, file, disk}

  abbrev sn_size : ℕ
  sn_size = mfd.mapheader.fstat.st_size

  abbrev KeptIn : Env World → Type 0
  KeptIn env = Kept (file mfd.mainfd) (file map) (file dat) sn_size orig (disk env.world)

  -- For a handle of the latest snapshot whose map and dat files are open and, with the main file,
  -- three different files, for a range and a snapshot size below 2^63 and a cache that is true of
  -- the disk, while the latest snapshot keeps its content: whatever $write returns but -ENXIO, a
  -- byte that a snapshot of the chain shows is the same after it, where the byte lies below the
  -- size in the latest snapshot if it is read from there or from the main file.
  pub write-view :
      (fs : Fsdata) (buf : ℕ → ℕ) (size offset : ℕ) (env : Env World) (r : Result) (mfd' : Mfd Fd)
      (env' : Env World) (n o : ℕ)
      → fs.sn_number ≡ mfd.sn_number
      → InRange sn_size offset size
      → CacheIsOk os locks mfd map dat mfd (disk env.world)
      → KeptIn env
      → write os locks files fs buf size offset mfd env ≡ some (r, mfd', env')
      → r ≢ err enxio
      → 1 ≤ n
      → n ≤ level
      → (Passes os steps (file mfd.mainfd) (file map) (file dat) (disk env.world) n o → o < sn_size)
      → view os steps (disk env'.world) n o ≡ view os steps (disk env.world) n o
  write-view fs buf size offset env r mfd' env' n o number range c k h whole lo hi inside =
      let u =
        write-Untouched os locks files mfd map dat is orig fs buf size offset env r mfd' env' number
          range c k h whole in
      view-eq os steps (file mfd.mainfd) (file map) (file dat) chain u.others k u.kept n o lo hi
        inside

  -- The same for $ftruncate, of a file that existed when the latest snapshot was taken: whatever
  -- it returns but -ENXIO, a byte that a snapshot of the chain shows is the same after it, where
  -- the byte lies below the size in the latest snapshot if it is read from there or from the main
  -- file.
  pub ftruncate-view :
      (fs : Fsdata) (newsize : ℕ) (env : Env World) (r : Result) (mfd' : Mfd Fd) (env' : Env World)
      (n o : ℕ)
      → fs.sn_number ≡ mfd.sn_number
      → mfd.mapheader.exists ≡ 1
      → InRange sn_size newsize 0
      → CacheIsOk os locks mfd map dat mfd (disk env.world)
      → KeptIn env
      → ftruncate os locks files fs newsize mfd env ≡ some (r, mfd', env')
      → r ≢ err enxio
      → 1 ≤ n
      → n ≤ level
      → (Passes os steps (file mfd.mainfd) (file map) (file dat) (disk env.world) n o → o < sn_size)
      → view os steps (disk env'.world) n o ≡ view os steps (disk env.world) n o
  ftruncate-view fs newsize env r mfd' env' n o number there range c k h whole lo hi inside =
      let u =
        ftruncate-Untouched os locks files mfd map dat is orig fs newsize env r mfd' env' number
          there range c k h whole in
      view-eq os steps (file mfd.mainfd) (file map) (file dat) chain u.others k u.kept n o lo hi
        inside
