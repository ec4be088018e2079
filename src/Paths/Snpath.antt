-- ===== src/Paths/Snpath.antt =====
-- Paths in the snapshot space: $$_IS_PATH_IN_SN and $decompose_sn_path of util.c.
use esfs.Base.{
  ℕ, zero, suc, ◌+◌, ◌-◌, ◌≡◌, ◌<◌, ap, ◌∙◌, Bool, true, ◌&&◌, Option, none, some, List, [], ◌∷◌,
  ◌++◌, arith, leb, ◌==◌, if◌then◌else◌, length, take, drop, length-append, take-append,
  drop-append, take-append-drop, str_eq, eq_of_str_eq, inl, inr, Option-cases,
}
use esfs.Paths.Build.{sn_dir_name, sn_dir_name_len, dirsep_ch}

pub data SnpathTypes : Type 0 where
  snpath_root snpath_id snpath_full : SnpathTypes

-- struct $snpath_t. The strings are meaningful only as `is_there` says.
pub record Snpath : Type 0 where
  pub is_there : SnpathTypes
  pub id : List ℕ
  pub inpath : List ℕ

-- strncmp with the whole of "/snapshots", and then a separator or the end.
ends_name : List ℕ → Bool
ends_name [] = true
ends_name (c ∷ s) = c == dirsep_ch

unfoldable pub is_path_in_sn : List ℕ → Bool
unfolding ends_name
is_path_in_sn path =
    str_eq (take sn_dir_name_len path) sn_dir_name && ends_name (drop sn_dir_name_len path)

-- strchr, as an offset.
unfoldable pub strchr : List ℕ → ℕ → Option ℕ
strchr [] c = none
strchr (x ∷ s) c =
    if x == c then some 0 else elim (strchr s c) [ none ↦ none | some k ↦ some (suc k) ]

-- The new contents of *snpath and the value returned.
unfoldable pub decompose_sn_path : Snpath → List ℕ → Snpath × ℕ
unfolding strchr
decompose_sn_path snpath path =
    if leb (length path) (sn_dir_name_len + 1)
    then (record snpath { is_there = snpath_root }, 0)
    else elim (strchr (drop 1 idstart) dirsep_ch) [
      | none ↦ (record snpath { is_there = snpath_id; id = idstart }, 1)
      | some k ↦
          if k == 0
          then (record snpath { is_there = snpath_root }, 0)
          else if sn_dir_name_len + 1 + k == length path - 1
          then (
            record snpath {
              is_there = snpath_id;
              id = take (length path - sn_dir_name_len - 1) idstart;
            },
            1,
          )
          else (
            record {
              is_there = snpath_full;
              id = take (k + 1) idstart;
              inpath = drop (k + 1) idstart;
            },
            0,
          )
    ]
  where
    idstart : List ℕ
    idstart = drop sn_dir_name_len path

pub strchr-append :
    (s t : List ℕ) (c : ℕ) → strchr s c ≡ none → strchr (s ++ (c ∷ t)) c ≡ some (length s)
unfolding strchr
strchr-append [] t c h = ground arith
strchr-append (x ∷ s) t c h = ground (arith, strchr-append s t c)

take_name : (s t : List ℕ) (k : ℕ) → k ≡ length s + 1 → take k (dirsep_ch ∷ s ++ t) ≡ dirsep_ch ∷ s
take_name s t zero e = absurd (omega arith)
take_name s t (suc k) e =
    ap (λ (n : ℕ). dirsep_ch ∷ take n (s ++ t)) (omega arith)
    ∙ ap (λ (r : List ℕ). dirsep_ch ∷ r) (take-append s t)

drop_name : (s t : List ℕ) (k : ℕ) → k ≡ length s + 1 → drop k (dirsep_ch ∷ s ++ t) ≡ t
drop_name s t zero e = absurd (omega arith)
drop_name s t (suc k) e = ap (λ (n : ℕ). drop n (s ++ t)) (omega arith) ∙ drop-append s t

-- For a non-empty snapshot name with no separator and a non-empty rest: the path of the name, with
-- or without a trailing separator, is taken for that snapshot, and the path with the rest after a
-- separator for both parts.
pub decompose_sn_path_lem :
    (s : Snpath) (name rest : List ℕ)
    → strchr name dirsep_ch ≡ none
    → 0 < length name
    → 0 < length rest
    → let sn = record s { is_there = snpath_id; id = dirsep_ch ∷ name } in
      (decompose_sn_path s (sn_dir_name ++ (dirsep_ch ∷ name)) ≡ (sn, 1))
      × (decompose_sn_path s (sn_dir_name ++ (dirsep_ch ∷ name ++ (dirsep_ch ∷ []))) ≡ (sn, 1))
      × (decompose_sn_path s (sn_dir_name ++ (dirsep_ch ∷ name ++ (dirsep_ch ∷ rest))) ≡ (
        record { is_there = snpath_full; id = dirsep_ch ∷ name; inpath = dirsep_ch ∷ rest },
        0,
      ))
unfolding decompose_sn_path
decompose_sn_path_lem s name rest h n r = (
  ground (arith, h),
  ground (
    arith,
    strchr-append name [] dirsep_ch h,
    length-append name (dirsep_ch ∷ []),
    take_name name (dirsep_ch ∷ []) (length name + 12 - 10 - 1),
  ),
  ground (
    arith,
    strchr-append name rest dirsep_ch h,
    length-append name (dirsep_ch ∷ rest),
    take_name name (dirsep_ch ∷ rest) (length name + 1),
    drop_name name (dirsep_ch ∷ rest) (length name + 1),
  ),
)

-- Whatever path of the snapshot space is taken apart into a snapshot and a path inside it,
-- "/snapshots" and the two parts make up the path again.
pub decompose_sn_path-append :
    (s : Snpath) (path : List ℕ)
    → is_path_in_sn path ≡ true
    → (decompose_sn_path s path).0.is_there ≡ snpath_full
    → sn_dir_name ++ ((decompose_sn_path s path).0.id ++ (decompose_sn_path s path).0.inpath) ≡ path
unfolding decompose_sn_path is_path_in_sn
decompose_sn_path-append s path h e =
    elim (Option-cases (strchr (drop 1 (drop 10 path)) dirsep_ch)) [
      | inl q ↦ ground (arith, q)
      | inr (k, q) ↦ ground (
        arith,
        q,
        eq_of_str_eq (take sn_dir_name_len path) sn_dir_name,
        take-append-drop sn_dir_name_len path,
        take-append-drop (k + 1) (drop sn_dir_name_len path),
      )
    ]
