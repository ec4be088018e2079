-- ===== src/Steps/Calls.antt =====
-- The calls on directory streams, the flags and the variables of $mfd_get_sn_steps, and
-- $mfd_destroy_sn_steps.
use esfs.Base.{ℕ, zero, suc, Bool, Option, none, some, List, ◌==◌, if◌then◌else◌}
use esfs.Os.{Os, Ret, done, failed, Stat, MapHeader}
use esfs.Files.{Files, Opened}
use esfs.Types.{Result, ret, err, StepFd, opened, SnStep, Mfd}

-- opendir and closedir.
pub record Dirs (os : Os) : Type 0 where
  pub opendir : List ℕ → os.World → Opened os.Fd × os.World
  pub closedir : os.Fd → os.World → Ret × os.World

-- The bits of `flags`: $$SN_STEPS_F_*.
pub record Flags : Type 0 where
  pub f_file : Bool
  pub f_dir : Bool
  pub f_type_unknown : Bool
  pub f_firstonly : Bool
  pub f_skipopendat : Bool
  pub f_skipopendir : Bool
  pub f_statdir : Bool

-- The variable `knowntype`, with `mystat` where it is set.
pub data KnownType : Type 0 where
  unknown : KnownType
  known_dir : Stat → KnownType
  known_file : KnownType

-- The variables of the loop; `waserror` where it is positive.
pub record Getting (World Fd : Type 0) : Type 0 where
  pub world : World
  pub mfd : Mfd Fd
  pub maphead : MapHeader
  pub waserror : ℕ

-- How a round ends: at its end, by `continue`, or by `break`.
pub data Turn (S : Type 0) : Type 0 where
  ended : S → Turn S
  again : S → Turn S
  stop : S → Turn S

module _ {Fd : Type 0} where
  abbrev pub set_step : Mfd Fd → ℕ → (SnStep Fd → SnStep Fd) → Mfd Fd
  set_step mfd i f = record mfd {
    sn_steps = λ j. if j == i then f (mfd.sn_steps j) else mfd.sn_steps j;
  }

  abbrev pub set_mapfd : Mfd Fd → ℕ → StepFd Fd → Mfd Fd
  set_mapfd mfd i fd = set_step mfd i (λ s. record s { mapfd = fd })

  abbrev pub set_datfd : Mfd Fd → ℕ → StepFd Fd → Mfd Fd
  set_datfd mfd i fd = set_step mfd i (λ s. record s { datfd = fd })

module _ (os : Os) (files : Files os) (dirs : Dirs os) where
  open os use {World, Fd}

  -- The last error is kept.
  unfoldable pub close_step : StepFd Fd → Result × World → Result × World
  close_step (opened fd) (waserror, w) =
      let (r, v) = files.close fd w in
      elim r [ done _ ↦ (waserror, v) | failed e ↦ (err (suc e), v) ]
  close_step _ out = out

  unfoldable pub close_dir : Option Fd → Result × World → Result × World
  close_dir none out = out
  close_dir (some d) (waserror, w) =
      let (r, v) = dirs.closedir d w in
      elim r [ done _ ↦ (waserror, v) | failed e ↦ (err (suc e), v) ]

  unfoldable pub close_one : SnStep Fd → Result × World → Result × World
  unfolding close_step close_dir
  close_one s out = close_dir s.dirfd (close_step s.datfd (close_step s.mapfd out))

  -- for(i = mfd->sn_current; i >= 0; i--)
  unfoldable pub close_steps : (ℕ → SnStep Fd) → ℕ → Result × World → Result × World
  unfolding close_one
  close_steps steps zero out = close_one (steps 0) out
  close_steps steps (suc n) out = close_steps steps n (close_one (steps (suc n)) out)

  unfoldable pub mfd_destroy_sn_steps : Mfd Fd → World → Result × World
  unfolding close_steps
  mfd_destroy_sn_steps mfd w = elim mfd.sn_first_file [
    | none ↦ (ret 0, w)
    | some _ ↦ close_steps mfd.sn_steps mfd.sn_current (ret 0, w)
  ]
