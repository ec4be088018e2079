-- ===== src/Snapshots/Stored.antt =====
-- The text of a pointer file: a path and its NUL.
use esfs.Base.{
  ℕ, zero, suc, ◌+◌, ◌-◌, ◌≤◌, ◌<◌, ◌≡◌, refl, ap, Bool, true, false, Bool-cases, inl, inr, some,
  List, [], ◌∷◌, ◌++◌, length, take, length-append, length-take, ◌⊎◌, false, subst, arith, ◌==◌,
}
use mathlib.Core.Option.{some_inj}
use esfs.Paths.Build.{path_max}
use esfs.Snapshots.Pointers.{c_string, ends_in_nul}
use esfs.Snapshots.Chain.{stored}

-- A path as C keeps it: no NUL in it, and room for one behind it in PATH_MAX bytes.
pub record IsPath (p : List ℕ) : Type 0 where
  pub nul_free : c_string p ≡ p
  pub room : length p < path_max

take_long : (n : ℕ) (s : List ℕ) → length s ≤ n → take n s ≡ s
take_long zero [] h = refl
take_long zero (x ∷ s) h = absurd (omega arith)
take_long (suc n) [] h = refl
take_long (suc n) (x ∷ s) h = ap (λ r. x ∷ r) (take_long n s (omega arith))

ends_in_nul-append : (s : List ℕ) → ends_in_nul (s ++ (0 ∷ [])) ≡ true
unfolding ends_in_nul
ends_in_nul-append [] = refl
ends_in_nul-append (x ∷ []) = refl
ends_in_nul-append (x ∷ y ∷ s) = ends_in_nul-append (y ∷ s)

c_string_idem : (s : List ℕ) → c_string (c_string s) ≡ c_string s
unfolding c_string
c_string_idem [] = refl
c_string_idem (x ∷ s) = ground (arith, c_string_idem s)

c_string-append : (s : List ℕ) → c_string s ≡ s → c_string (s ++ (0 ∷ [])) ≡ s
unfolding c_string
c_string-append [] h = refl
c_string-append (x ∷ s) h = ground (arith, c_string-append s)

c_string-short : (s : List ℕ) → ends_in_nul s ≡ true → length (c_string s) < length s
unfolding c_string ends_in_nul
c_string-short [] h = absurd cc
c_string-short (x ∷ []) h = ground arith
c_string-short (x ∷ y ∷ s) h = ground (arith, c_string-short (y ∷ s) h)

pub take-nul : (p : List ℕ) (n : ℕ) → n ≡ length p + 1 → take n (p ++ (0 ∷ [])) ≡ p ++ (0 ∷ [])
take-nul p n e = take_long n (p ++ (0 ∷ [])) (omega (arith, length-append p (0 ∷ [])))

pub stored-nul : (p : List ℕ) → IsPath p → 0 < length p → stored (p ++ (0 ∷ [])) ≡ some p
unfolding stored
stored-nul p k l =
    let whole : take path_max (p ++ (0 ∷ [])) ≡ p ++ (0 ∷ []) =
      take_long path_max (p ++ (0 ∷ [])) (omega (arith, length-append p (0 ∷ []), k.room)) in
    rw (whole, ends_in_nul-append p, longer, c_string-append p k.nul_free) refl
  where
    longer : (length (p ++ (0 ∷ [])) == 1) ≡ false
    longer = ground (arith, length-append p (0 ∷ []), l)

pub stored-IsPath : (s p : List ℕ) → stored s ≡ some p → IsPath p
unfolding stored
stored-IsPath s p h = by_end (Bool-cases (ends_in_nul (take path_max s)))
  where
    by_length :
        ends_in_nul (take path_max s) ≡ true
        → (b : Bool) → (length (take path_max s) == 1) ≡ b
        → IsPath p
    by_length e true l = absurd (ground (arith, e, l, h))
    by_length e false l = subst IsPath (some_inj.0 (ground (arith, e, l, h))) (record {
      nul_free = c_string_idem (take path_max s);
      room = omega (arith, c_string-short (take path_max s) e, length-take path_max s);
    })

    by_end :
        (ends_in_nul (take path_max s) ≡ true) ⊎ (ends_in_nul (take path_max s) ≡ false) → IsPath p
    by_end (inl e) = by_length e (length (take path_max s) == 1) refl
    by_end (inr e) = absurd (ground (arith, e, h))

pub length-stored : (p : List ℕ) → IsPath p → length (take path_max (p ++ (0 ∷ []))) - 1 ≡ length p
length-stored p k =
    omega (arith, k.room, length-append p (0 ∷ []), length-take path_max (p ++ (0 ∷ [])))
