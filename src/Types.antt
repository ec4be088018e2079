-- ===== src/Types.antt =====
-- types.h: the state that ESFS keeps for an open file and for the whole file system.
pub mod Errno
use esfs.Base.{ℕ, zero, suc, Bool, Option, List}
use esfs.Os.{MapHeader}

-- What an int function returns: a value that is not negative, or minus an errno.
pub data Result : Type 0 where
  ret : ℕ → Result
  err : ℕ → Result

-- `return -waserror`.
abbrev pub minus : ℕ → Result
minus zero = ret 0
minus (suc e) = err (suc e)

-- enum $$mfd_types.
pub data MfdTypes : Type 0 where
  mfd_main mfd_sn_root mfd_sn_id mfd_sn_full : MfdTypes

-- mfd->mapfd and mfd->datfd: a file handle, or one of the negative $$MFD_FD_* values.
pub data MfdFd (Fd : Type 0) : Type 0 where
  open_fd : Fd → MfdFd Fd
  nosn rdonly enoent zlen : MfdFd Fd

-- A handle of struct $sn_steps_t, or one of the negative $$SN_STEPS_* values.
pub data StepFd (Fd : Type 0) : Type 0 where
  opened : Fd → StepFd Fd
  unused notopen main_space : StepFd Fd

-- struct $sn_steps_t.
pub record SnStep (Fd : Type 0) : Type 0 where
  pub path : List ℕ
  pub mapfd : StepFd Fd
  pub datfd : StepFd Fd
  pub dirfd : Option Fd

-- struct $mfd_t. `sn_first_file` is `none` for -1.
pub record Mfd (Fd : Type 0) : Type 0 where
  pub is_main : MfdTypes
  pub mapheader : MapHeader
  pub locklabel : ℕ
  pub sn_number : ℕ
  pub mainfd : Fd
  pub maindir : Option Fd
  pub mapfd : MfdFd Fd
  pub datfd : MfdFd Fd
  pub vpath : List ℕ
  pub latest_written_block_cache : ℕ
  pub sn_current : ℕ
  pub sn_first_file : Option ℕ
  pub sn_steps : ℕ → SnStep Fd
