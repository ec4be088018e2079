-- ===== src/Paths/Label.antt =====
-- Lock labels: $djb2 and $string2locklabel of util.c.
use esfs.Base.{
  ℕ, zero, suc, ◌+◌, ◌*◌, ◌%◌, ◌^◌, ◌<◌, ◌≢◌, List, [], ◌∷◌, arith, ◌==◌, if◌then◌else◌,
}

-- One pass of the inner loop: key = ((key << 5) + key) + s[j], in unsigned long.
unfoldable pub djb2_pass : ℕ → List ℕ → ℕ
djb2_pass key [] = key
djb2_pass key (c ∷ s) = djb2_pass ((((key * 32) % 2 ^ 64 + key) % 2 ^ 64 + c) % 2 ^ 64) s

unfoldable pub djb2_passes : ℕ → ℕ → List ℕ → ℕ
djb2_passes zero key s = key
djb2_passes (suc n) key s = djb2_passes n (djb2_pass key s) s

unfoldable pub djb2 : List ℕ → ℕ
unfolding djb2_pass djb2_passes
djb2 s = djb2_passes 5 5381 s

unfoldable pub string2locklabel : List ℕ → ℕ
unfolding djb2
string2locklabel s = let key = djb2 s in if key == 0 then 1 else key

djb2_pass-lt : (key : ℕ) (s : List ℕ) → key < 2 ^ 64 → djb2_pass key s < 2 ^ 64
unfolding djb2_pass
djb2_pass-lt key [] h = h
djb2_pass-lt key (c ∷ s) h =
    djb2_pass-lt ((((key * 32) % 2 ^ 64 + key) % 2 ^ 64 + c) % 2 ^ 64) s (omega arith)

djb2_passes-lt : (n key : ℕ) (s : List ℕ) → key < 2 ^ 64 → djb2_passes n key s < 2 ^ 64
unfolding djb2_passes
djb2_passes-lt zero key s h = h
djb2_passes-lt (suc n) key s h = djb2_passes-lt n (djb2_pass key s) s (djb2_pass-lt key s h)

-- A lock label is a value below 2^64 other than 0, which marks an unlabelled mutex.
pub string2locklabel_bounds :
    (s : List ℕ) → (string2locklabel s ≢ 0) × (string2locklabel s < 2 ^ 64)
unfolding string2locklabel
string2locklabel_bounds s = unfold djb2 in ground (arith, djb2_passes-lt 5 5381 s)
