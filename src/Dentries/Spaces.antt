-- ===== src/Dentries/Spaces.antt =====
-- What the requests on paths use of the system, and the macros that map a path: $$IF_PATH_MAIN_ONLY,
-- $$IF_PATH_SN and $$ELIF_PATH_MAIN of util.c.
use esfs.Base.{ℕ, ◌≡◌, refl, Bool, true, false, Option, none, some, List, if◌then◌else◌}
use esfs.Os.{Os, Ret}
use esfs.Files.{Opened}
use esfs.Types.{Result, err}
use esfs.Types.Errno.{eacces, enomem, enametoolong}
use esfs.Paths.Build.{map_path}
use esfs.Paths.Snpath.{Snpath, is_path_in_sn, decompose_sn_path}
use esfs.Block.State.{Env}
use esfs.Handle.Open.{Fsdata}

-- The two times of utimensat: seconds and nanoseconds.
pub record Times : Type 0 where
  pub atime : ℕ × ℕ
  pub mtime : ℕ × ℕ

-- The calls on paths that only pass a request on.
pub record PathCalls (os : Os) : Type 0 where
  pub mkdir : List ℕ → ℕ → os.World → Ret × os.World
  pub chmod : List ℕ → ℕ → os.World → Ret × os.World
  pub chown : List ℕ → ℕ → ℕ → os.World → Ret × os.World
  pub truncate : List ℕ → ℕ → os.World → Ret × os.World
  -- open with the flags of the request, and with those, O_CREAT and O_TRUNC, and a mode.
  pub open_path : List ℕ → ℕ → os.World → Opened os.Fd × os.World
  pub open_creat : List ℕ → ℕ → ℕ → os.World → Opened os.Fd × os.World
  pub access : List ℕ → ℕ → os.World → Ret × os.World
  pub getuid : os.World → ℕ
  -- utimensat with AT_FDCWD and AT_SYMLINK_NOFOLLOW.
  pub utimensat : List ℕ → Times → os.World → Ret × os.World

module _ (os : Os) where
  open os use {World}

  -- What a request returns and leaves behind; `none` is undefined behaviour of the block layer.
  abbrev pub Done : Type 0
  Done = Option (Result × Fsdata × Env World)

  -- A request that ends with an errno in a world.
  abbrev pub fails : Fsdata → Env World → ℕ → World → Done
  fails fs env e w = some (err e, fs, record env { world = w })

  -- `fail` is what the request makes of an errno.
  unfoldable pub main_only :
      {A : Type 0} → Fsdata → List ℕ → World → (ℕ → World → A) → (List ℕ → A) → A
  main_only fs path w fail go =
      if is_path_in_sn path then fail eacces w else elim (map_path path fs.rootdir fs.rootdir_len) [
        | none ↦ fail enametoolong w
        | some fpath ↦ go fpath
      ]

  -- The block for the snapshot space gets the parts of the path; `junk` are the bytes of the struct
  -- that malloc gave.
  unfoldable pub path_sn :
      {A : Type 0}
      → Fsdata
      → List ℕ
      → Snpath
      → World
      → (ℕ → World → A)
      → (Snpath → List ℕ → World → A)
      → (List ℕ → A)
      → A
  path_sn fs path junk w fail in_sn in_main = elim (map_path path fs.rootdir fs.rootdir_len) [
    | none ↦ fail enametoolong w
    | some fpath ↦ elim (is_path_in_sn path) [
      | false ↦ in_main fpath
      | true ↦
          (let (m, v) = os.malloc w in
            elim m [
              | none ↦ fail enomem v
              | some _ ↦ in_sn (decompose_sn_path junk path).0 fpath v
            ])
    ]
  ]

  -- A path of the snapshot space is refused in the main space.
  pub main_only-in :
      {A : Type 0} (fs : Fsdata) (path : List ℕ) (w : World)
      → (fail : ℕ → World → A) (go : List ℕ → A) → is_path_in_sn path ≡ true
      → main_only fs path w fail go ≡ fail eacces w
  unfolding main_only
  main_only-in {A} fs path w fail go h = by_test (is_path_in_sn path) h
    where
      by_test :
          (b : Bool)
          → b ≡ true
          → ◌≡◌ {A = A}
              (if b then fail eacces w else elim (map_path path fs.rootdir fs.rootdir_len) [
                | none ↦ fail enametoolong w
                | some fpath ↦ go fpath
              ])
              (fail eacces w)
      by_test true e = refl
      by_test false e = absurd cc

  -- What holds of each way through the block for the snapshot space holds of the request.
  pub path_sn-in :
      {A : Type 0} (fs : Fsdata) (path : List ℕ) (junk : Snpath) (w : World)
      → (fail : ℕ → World → A) (in_sn : Snpath → List ℕ → World → A) (in_main : List ℕ → A)
      → (P : A → Type 0) → is_path_in_sn path ≡ true
      → P (fail enametoolong w)
      → P (fail enomem (os.malloc w).1)
      → ((fpath : List ℕ)
          → map_path path fs.rootdir fs.rootdir_len ≡ some fpath
          → P (in_sn (decompose_sn_path junk path).0 fpath (os.malloc w).1))
      → P (path_sn fs path junk w fail in_sn in_main)
  unfolding path_sn
  path_sn-in fs path junk w fail in_sn in_main P h long full go =
      by_map (map_path path fs.rootdir fs.rootdir_len) refl
    where
      v : World
      v = (os.malloc w).1

      by_malloc :
          (fpath : List ℕ) (m : Option (ℕ → ℕ))
          → P (in_sn (decompose_sn_path junk path).0 fpath v)
          → P (elim m [
            | none ↦ fail enomem v
            | some _ ↦ in_sn (decompose_sn_path junk path).0 fpath v
          ])
      by_malloc fpath none p = full
      by_malloc fpath (some f) p = p

      by_test :
          (fpath : List ℕ) (b : Bool)
          → b ≡ true
          → P (in_sn (decompose_sn_path junk path).0 fpath v)
          → P (elim b [
            | false ↦ in_main fpath
            | true ↦
                (let (m, v) = os.malloc w in
                  elim m [
                    | none ↦ fail enomem v
                    | some _ ↦ in_sn (decompose_sn_path junk path).0 fpath v
                  ])
          ])
      by_test fpath true e p = by_malloc fpath (os.malloc w).0 p
      by_test fpath false e p = absurd cc

      by_map :
          (o : Option (List ℕ))
          → map_path path fs.rootdir fs.rootdir_len ≡ o
          → P (elim o [
            | none ↦ fail enametoolong w
            | some fpath ↦ elim (is_path_in_sn path) [
              | false ↦ in_main fpath
              | true ↦
                  (let (m, v) = os.malloc w in
                    elim m [
                      | none ↦ fail enomem v
                      | some _ ↦ in_sn (decompose_sn_path junk path).0 fpath v
                    ])
            ]
          ])
      by_map none e = long
      by_map (some fpath) e = by_test fpath (is_path_in_sn path) h (go fpath e)
