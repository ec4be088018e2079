-- ===== src/Block/Calc.antt =====
-- Block arithmetic of block.c. The types are those of a 64-bit Linux: off_t and size_t have 64 bits.
use Prim.Native.Nat.{min}
use esfs.Base.{
  ℕ, ◌+◌, ◌-◌, ◌*◌, ◌/◌, ◌%◌, ◌^◌, ◌≤◌, ◌<◌, ◌≡◌, Option, none, some, ltb, leb, if◌then◌else◌,
  arith, add64, sub64,
}
use esfs.Os.{header_size, blp_s}

abbrev pub bl_s : ℕ
bl_s = 131072

-- $$B_CALC_BLOCKS: the number of the first block, and how many blocks the bytes touch.
unfoldable pub calc_blocks : ℕ → ℕ → ℕ × ℕ
unfolding add64 sub64
calc_blocks byteoffset bytesize =
    (byteoffset / bl_s, add64 (sub64 (add64 bytesize (byteoffset % bl_s)) 1 / bl_s) 1)

-- The size adjusted to the size of the file in the snapshot; `none` if the offset is past that.
unfoldable pub trim_size : ℕ → ℕ → ℕ → Option ℕ
unfolding add64 sub64
trim_size sn_size offset size =
    if ltb sn_size (add64 offset size)
    then (if leb sn_size offset then none else some (sub64 sn_size offset))
    else some size

-- Where the map file keeps the pointer of a block.
unfoldable pub map_offset : ℕ → ℕ
map_offset blockoffset = header_size + blockoffset * blp_s

-- A non-empty range of bytes below 2^63 touches exactly the blocks that calc_blocks counts: they
-- cover it, and neither the first nor the last of them is outside it.
pub calc_blocks-covers :
    (offset size : ℕ)
    → 0 < size
    → offset + size < 2 ^ 63
    → let (first, count) = calc_blocks offset size in
      (first * bl_s ≤ offset)
      × (offset < (first + 1) * bl_s)
      × ((first + count - 1) * bl_s < offset + size)
      × (offset + size ≤ (first + count) * bl_s)
unfolding calc_blocks
calc_blocks-covers offset size h k = omega arith

-- The pointers of different blocks do not overlap, and none overlaps the header.
pub map_offset-apart :
    (j k : ℕ) → j < k → (header_size ≤ map_offset j) × (map_offset j + blp_s ≤ map_offset k)
unfolding map_offset
map_offset-apart j k h = omega arith

-- For a non-empty range and a size in the snapshot below 2^63, what is left of the range is its
-- part below that size, not empty, and nothing is left only if the whole range is at or past it.
pub trim_size_lem :
    (sn_size offset size : ℕ)
    → offset + size < 2 ^ 63
    → sn_size < 2 ^ 63
    → 0 < size
    → (trim_size sn_size offset size ≡ none → sn_size ≤ offset)
      × ((n : ℕ)
          → trim_size sn_size offset size ≡ some n
          → (0 < n) × (offset + n ≡ min (offset + size) sn_size))
unfolding trim_size
trim_size_lem sn_size offset size h k z = (λ e. ground arith, λ n e. ground arith)
