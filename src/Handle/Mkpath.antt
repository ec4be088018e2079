-- ===== src/Handle/Mkpath.antt =====
-- $mkpath of util_locking.c: mkdir -p of the parent of a path.
use esfs.Base.{
  ℕ, zero, suc, ◌/◌, ◌%◌, Bool, Option, none, some, List, [], ◌∷◌, length, take, length-take, ◌==◌,
  if◌then◌else◌, ◌≡◌, ◌≢◌, ◌<◌, refl, ap, arith,
}
use mathlib.Core.Option.{some_inj}
use esfs.Os.{Os, done, failed, Stat}
use esfs.Files.{Files, Stated, stated, lstat_failed}
use esfs.Types.{Result, ret, err}
use esfs.Types.Errno.{enoent, eexist, ebade, enotdir}
use esfs.Paths.Build.{dirsep_ch}

-- S_ISDIR.
unfoldable pub is_dir : Stat → Bool
is_dir st = (st.st_mode / 4096) % 16 == 4

-- The offset of the last separator, by `n` bytes from the front.
unfoldable pub last_slash : List ℕ → Option ℕ
last_slash [] = none
last_slash (c ∷ s) = elim (last_slash s) [
  | some k ↦ some (suc k)
  | none ↦ if c == dirsep_ch then some 0 else none
]

-- slashpos > 0
unfoldable pub parent : List ℕ → Option (List ℕ)
unfolding last_slash
parent path = elim (last_slash path) [
  | none ↦ none
  | some zero ↦ none
  | some (suc k) ↦ some (take (suc k) path)
]

module _ (os : Os) (files : Files os) where
  open os use {World}
  open files use {lstat, mkdir}

  unfoldable pub make_dir : List ℕ → World → Result × World
  make_dir prepath w =
      let (r, v) = mkdir prepath w in
      elim r [
        | done _ ↦ (ret 1, v)
        | failed e ↦ (if suc e == eexist then ret 1 else err (suc e), v)
      ]

  -- mkdir, after the parents.
  unfoldable pub after_parents : List ℕ → Result × World → Result × World
  unfolding make_dir
  after_parents prepath (ret _, w) = make_dir prepath w
  after_parents prepath (err e, w) = (err e, w)

  -- What lstat said of the parent, with what making the parents of the parent gave.
  unfoldable pub seen : Stated → World → List ℕ → Option (Result × World) → Option (Result × World)
  unfolding after_parents is_dir
  seen (stated st) w prepath rest = some (if is_dir st then ret 0 else err enotdir, w)
  seen (lstat_failed e) w prepath none = if suc e == enoent then none else some (err (suc e), w)
  seen (lstat_failed e) w prepath (some r) =
      some (if suc e == enoent then after_parents prepath r else (err (suc e), w))

  -- The mode and the report of the first directory created are left out. Each level takes a byte
  -- off the path at least, so the length of the path is enough fuel.
  unfoldable pub mkpath_fuel : ℕ → List ℕ → World → Option (Result × World)
  unfolding parent seen
  mkpath_fuel zero path w = none
  mkpath_fuel (suc n) path w = elim (parent path) [
    | none ↦ some (err ebade, w)
    | some prepath ↦ (let (r, v) = lstat prepath w in seen r v prepath (mkpath_fuel n prepath v))
  ]

  unfoldable pub mkpath : List ℕ → World → Result × World
  unfolding mkpath_fuel
  mkpath path w = elim (mkpath_fuel (suc (length path)) path w) [
    | none ↦ (err ebade, w)
    | some r ↦ r
  ]

last_slash-lt : (s : List ℕ) (k : ℕ) → last_slash s ≡ some k → k < length s
unfolding last_slash
last_slash-lt [] k h = cc
last_slash-lt (c ∷ s) k h = by_rest (last_slash s) (last_slash-lt s) h
  where
    by_rest :
        (r : Option ℕ)
        → ((j : ℕ) → r ≡ some j → j < length s)
        → elim r [ some j ↦ some (suc j) | none ↦ if c == dirsep_ch then some 0 else none ] ≡ some k
        → k < suc (length s)
    by_rest none f e = ground (arith, e)
    by_rest (some j) f e = ground (arith, e, f j refl)

parent-lt : (path prepath : List ℕ) → parent path ≡ some prepath → length prepath < length path
unfolding parent
parent-lt path prepath h = by_slash (last_slash path) (last_slash-lt path) h
  where
    by_slash :
        (r : Option ℕ)
        → ((j : ℕ) → r ≡ some j → j < length path)
        → elim r [ none ↦ none | some zero ↦ none | some (suc k) ↦ some (take (suc k) path) ]
          ≡ some prepath
        → length prepath < length path
    by_slash none f e = cc
    by_slash (some zero) f e = cc
    by_slash (some (suc k)) f e =
        ground (arith, f (suc k) refl, length-take (suc k) path, ap length (some_inj.0 e))

module _ (os : Os) (files : Files os) where
  seen-total :
      (r : Stated) (w : os.World) (prepath : List ℕ) (rest : Option (Result × os.World))
      → rest ≢ none
      → seen os files r w prepath rest ≢ none
  unfolding seen
  seen-total (stated st) w prepath rest h = λ q. cc
  seen-total (lstat_failed e) w prepath none h = absurd (h refl)
  seen-total (lstat_failed e) w prepath (some r) h = λ q. cc

  -- $mkpath ends for every path and every behaviour of the file system: with more fuel than the
  -- path has bytes it gives a result.
  pub mkpath_fuel-total :
      (n : ℕ) (path : List ℕ) (w : os.World)
      → length path < n
      → mkpath_fuel os files n path w ≢ none
  unfolding mkpath_fuel
  mkpath_fuel-total zero path w l = absurd (omega arith)
  mkpath_fuel-total (suc n) path w l =
      by_parent (mkpath_fuel-total n) (parent path) (parent-lt path)
    where
      by_parent :
          ((q : List ℕ) (v : os.World) → length q < n → mkpath_fuel os files n q v ≢ none)
          → (p : Option (List ℕ))
          → ((prepath : List ℕ) → p ≡ some prepath → length prepath < length path)
          → ◌≢◌ {A = Option (Result × os.World)}
              (elim p [
                | none ↦ some (err ebade, w)
                | some prepath ↦
                    (let (r, v) = files.lstat prepath w in
                      seen os files r v prepath (mkpath_fuel os files n prepath v))
              ])
              none
      by_parent ih none f = λ q. cc
      by_parent ih (some prepath) f =
          seen-total (files.lstat prepath w).0 (files.lstat prepath w).1 prepath
            (mkpath_fuel os files n prepath (files.lstat prepath w).1)
            (ih prepath (files.lstat prepath w).1 (omega (arith, f prepath refl)))
