-- ===== src/Block/View.antt =====
-- What a file of a snapshot holds, described on the disk: a byte comes from the first snapshot, from
-- the one being read towards later ones, that has saved its block, and from the main file if none has.
use esfs.Base.{ℕ, zero, suc, ◌+◌, ◌*◌, ◌/◌, ◌%◌}
use esfs.Os.{Disk, Os}
use esfs.Types.{StepFd, opened, SnStep}
use esfs.Block.Calc.{bl_s, map_offset}

module _ (os : Os) where
  open os use {File, Fd, file}

  -- The pointer that a step has for a block: 0 without a map file.
  abbrev pub pointer_in : Disk File → StepFd Fd → ℕ → ℕ
  pointer_in d (opened fd) k = d.word (file fd) (map_offset k)
  pointer_in d _ k = 0

  abbrev pub byte_in : Disk File → StepFd Fd → ℕ → ℕ
  byte_in d (opened fd) o = d.byte (file fd) o
  byte_in d _ o = 0

  abbrev pub from_block : Disk File → StepFd Fd → ℕ → ℕ → ℕ → ℕ
  from_block d datfd zero i otherwise = otherwise
  from_block d datfd (suc p) i otherwise = byte_in d datfd (p * bl_s + i)

  -- The byte at an offset, seen from step `n`.
  unfoldable pub view : (ℕ → SnStep Fd) → Disk File → ℕ → ℕ → ℕ
  view steps d zero o = byte_in d (steps 0).datfd o
  view steps d (suc n) o =
      from_block d (steps (suc n)).datfd (pointer_in d (steps (suc n)).mapfd (o / bl_s)) (o % bl_s)
        (view steps d n o)
