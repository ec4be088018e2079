-- ===== src/Paths/Build.antt =====
-- The functions of util.c that build real paths in buffers of PATH_MAX bytes.

use Prim.Native.String.{String}
use Prim.Native.Char.{code}
use esfs.Base.{
  ℕ, ◌≤◌, ◌<◌, ◌≡◌, Option, none, some, List, [], ◌∷◌, ◌++◌, arith, ltb, if◌then◌else◌, length,
  take, length-append, take_all, sub64, ◌-◌,
}

abbrev pub codes : String → List ℕ
codes String.[] = []
codes (String.◌∷◌ c s) = code c ∷ codes s

-- PATH_MAX of the C library's limits.h.
abbrev pub path_max : ℕ
path_max = 4096

abbrev pub sn_dir_name : List ℕ
sn_dir_name = codes "/snapshots"

abbrev pub sn_dir_name_len : ℕ
sn_dir_name_len = 10

abbrev pub ext_dat : List ℕ
ext_dat = codes ".dat"

abbrev pub ext_map : List ℕ
ext_map = codes ".map"

abbrev pub ext_hid : List ℕ
ext_hid = codes ".hid"

abbrev pub ext_len : ℕ
ext_len = 4

abbrev pub dirsep_ch : ℕ
dirsep_ch = b'/'

-- The comparison of strlen(oldpath) is unsigned, so the bound on its right wraps round.
unfoldable pub get_prefix_path : List ℕ → List ℕ → ℕ → Option (List ℕ)
get_prefix_path oldpath prefix prefixlen =
    if ltb (length oldpath) (sub64 path_max prefixlen)
    then some (take prefixlen prefix ++ oldpath)
    else none

unfoldable pub get_map_prefix_path : List ℕ → List ℕ → ℕ → Option (List ℕ)
get_map_prefix_path oldpath prefix prefixlen =
    if ltb (length oldpath) (sub64 (path_max - ext_len) prefixlen)
    then some ((take prefixlen prefix ++ oldpath) ++ ext_map)
    else none

unfoldable pub get_dat_prefix_path : List ℕ → List ℕ → ℕ → Option (List ℕ)
get_dat_prefix_path oldpath prefix prefixlen =
    if ltb (length oldpath) (sub64 (path_max - ext_len) prefixlen)
    then some ((take prefixlen prefix ++ oldpath) ++ ext_dat)
    else none

unfoldable pub get_hid_path : List ℕ → Option (List ℕ)
get_hid_path oldpath =
    if ltb (length oldpath) (path_max - ext_len) then some (oldpath ++ ext_hid) else none

unfoldable pub get_map_path : List ℕ → Option (List ℕ)
get_map_path oldpath =
    if ltb (length oldpath) (path_max - ext_len) then some (oldpath ++ ext_map) else none

unfoldable pub get_dat_path : List ℕ → Option (List ℕ)
get_dat_path oldpath =
    if ltb (length oldpath) (path_max - ext_len) then some (oldpath ++ ext_dat) else none

unfoldable pub get_dir_hid_path : List ℕ → Option (List ℕ)
get_dir_hid_path oldpath =
    if ltb (length oldpath) (path_max - ext_len - 1)
    then some ((oldpath ++ (dirsep_ch ∷ [])) ++ ext_hid)
    else none

-- rootdir and its stored length come from fsdata.
unfoldable pub map_path : List ℕ → List ℕ → ℕ → Option (List ℕ)
map_path path rootdir rootdir_len =
    if ltb (length path) (sub64 path_max rootdir_len)
    then some (take rootdir_len rootdir ++ path)
    else none

-- A path that one of these functions wrote: it is the given text, and fits the buffer of PATH_MAX
-- bytes with its terminating NUL.
pub record Fits (want : List ℕ) (out : Option (List ℕ)) : Type 0 where
  pub text : (p : List ℕ) → out ≡ some p → p ≡ want
  pub room : (p : List ℕ) → out ≡ some p → length p < path_max
  pub error : out ≡ none → path_max ≤ length want

module _ (old prefix : List ℕ) (short : length prefix ≤ path_max - ext_len) where
  -- For a root of at most PATH_MAX - 4 bytes whose stored length is its own, map_path gives the
  -- root followed by the path when that and its NUL fit PATH_MAX bytes, and fails only when they
  -- do not.
  pub map_path-Fits : Fits (prefix ++ old) (map_path old prefix (length prefix))
  unfolding map_path sub64
  map_path-Fits = record {
    text = λ p h. ground (arith, take_all prefix);
    room = λ p h. ground (arith, take_all prefix, length-append prefix old);
    error = λ h. ground (arith, length-append prefix old);
  }

  -- For a prefix of at most PATH_MAX - 4 bytes whose stored length is its own, the map path and
  -- the dat path of a file are the prefix, the path and the extension when that and its NUL fit
  -- PATH_MAX bytes, and each fails only when they do not.
  pub get_map_prefix_path-Fits :
      Fits ((prefix ++ old) ++ ext_map) (get_map_prefix_path old prefix (length prefix))
      × Fits ((prefix ++ old) ++ ext_dat) (get_dat_prefix_path old prefix (length prefix))
  unfolding get_map_prefix_path get_dat_prefix_path sub64
  get_map_prefix_path-Fits = (
    record {
      text = λ p h. ground (arith, take_all prefix);
      room = λ p h.
          ground (
            arith,
            take_all prefix,
            length-append prefix old,
            length-append (prefix ++ old) ext_map,
          );
      error = λ h. ground (arith, length-append prefix old, length-append (prefix ++ old) ext_map);
    },
    record {
      text = λ p h. ground (arith, take_all prefix);
      room = λ p h.
          ground (
            arith,
            take_all prefix,
            length-append prefix old,
            length-append (prefix ++ old) ext_dat,
          );
      error = λ h. ground (arith, length-append prefix old, length-append (prefix ++ old) ext_dat);
    },
  )

-- The path of the main snapshot pointer is the directory, a separator and ".hid" when that and its
-- NUL fit PATH_MAX bytes, and get_dir_hid_path fails only when they do not.
pub get_dir_hid_path-Fits :
    (old : List ℕ) → Fits ((old ++ (dirsep_ch ∷ [])) ++ ext_hid) (get_dir_hid_path old)
unfolding get_dir_hid_path
get_dir_hid_path-Fits old = record {
  text = λ p h. ground arith;
  room = λ p h.
      ground (
        arith,
        length-append old (dirsep_ch ∷ []),
        length-append (old ++ (dirsep_ch ∷ [])) ext_hid,
      );
  error = λ h.
      ground (
        arith,
        length-append old (dirsep_ch ∷ []),
        length-append (old ++ (dirsep_ch ∷ [])) ext_hid,
      );
}
