-- ===== src/Paths/Names.antt =====
-- The file name filters: $mfd_filter_name (mfd.c) and $sn_filter_name (snapshot.c).
use esfs.Base.{
  ℕ, ◌-◌, ◌≡◌, refl, ap, ◌∙◌, List, ◌++◌, arith, leb, ltb, if◌then◌else◌, length, take, drop,
  length-append, take-append, drop-append, str_eq, eq_of_str_eq, take-append-drop, ◌<◌,
}
use esfs.Paths.Build.{ext_dat, ext_map, ext_hid, ext_len}

-- 0: not shown; 1: shown; 2: shown without the last ext_len characters.
unfoldable pub mfd_filter_name : List ℕ → ℕ
mfd_filter_name name =
    if leb (length name) ext_len
    then 1
    else (let tail = drop (length name - ext_len) name in
        if str_eq tail ext_dat then 0 else if str_eq tail ext_map then 2 else 1)

unfoldable pub sn_filter_name : List ℕ → ℕ
sn_filter_name name =
    if ltb (length name) ext_len
    then 1
    else if str_eq name ext_hid
    then 0
    else if str_eq (drop (length name - ext_len) name) ext_hid
    then 0
    else 1

-- name[strlen(name) - EXT_LEN] = '\0', in $_sn_readdir.
unfoldable pub strip_ext : List ℕ → List ℕ
strip_ext name = take (length name - ext_len) name

drop-ext :
    (name ext : List ℕ)
    → length ext ≡ ext_len
    → drop (length (name ++ ext) - ext_len) (name ++ ext) ≡ ext
drop-ext name ext h =
    ap (λ k. drop k (name ++ ext)) (omega (arith, length-append name ext)) ∙ drop-append name ext

take-ext :
    (name ext : List ℕ)
    → length ext ≡ ext_len
    → take (length (name ++ ext) - ext_len) (name ++ ext) ≡ name
take-ext name ext h =
    ap (λ k. take k (name ++ ext)) (omega (arith, length-append name ext)) ∙ take-append name ext

module _ (name : List ℕ) (nonempty : 0 < length name) where
  -- In a listing of a snapshot directory the two files that stand for a file with a non-empty name
  -- show as one entry: the dat file is hidden, and the map file is shown under the name itself.
  pub mfd_filter_name-ext :
      (mfd_filter_name (name ++ ext_dat) ≡ 0)
      × (mfd_filter_name (name ++ ext_map) ≡ 2)
      × (strip_ext (name ++ ext_map) ≡ name)
  unfolding mfd_filter_name strip_ext
  mfd_filter_name-ext = (
    ground (arith, length-append name ext_dat, drop-ext name ext_dat refl),
    ground (arith, length-append name ext_map, drop-ext name ext_map refl),
    take-ext name ext_map refl,
  )

-- Every name that ends in ".hid" is hidden in the listing of /snapshots, and a name that is hidden
-- ends in ".hid".
pub sn_filter_name-hid :
    (name : List ℕ)
    → (sn_filter_name (name ++ ext_hid) ≡ 0)
      × (sn_filter_name name ≡ 0 → name ≡ strip_ext name ++ ext_hid)
unfolding sn_filter_name strip_ext
sn_filter_name-hid name = (
  ground (arith, length-append name ext_hid, drop-ext name ext_hid refl),
  λ h. ground (
    arith,
    eq_of_str_eq name ext_hid,
    eq_of_str_eq (drop (length name - ext_len) name) ext_hid,
    take-append-drop (length name - ext_len) name,
  ),
)
