-- ===== src/Lock/Invariant.antt =====
-- What each thread may rely on at each point of mflock.c.
use esfs.Base.{ℕ, ◌%◌, ◌≡◌, ◌≢◌, ◌≤◌, ◌<◌, true, false, some}
use esfs.Lock.{
  Pc, Table, lock_num, idle, scan, found, want_load, want_store, want_stored, unwant_load,
  unwant_store, recheck, get_mod, find, try, tried, set, unmod, untry, holding, leave, leave_label,
  leave_mod, leave_recheck, clear, drop, drop_mod, keep, pass,
}

module _ (s : Table) (t : ℕ) where
  abbrev pub Owns : ℕ → Type 0
  Owns i = s.mutex i ≡ some t

  abbrev pub HasMod : ℕ → Type 0
  HasMod label = s.mod_mutex (label % lock_num) ≡ some t

  -- No entry before `i` has the label.
  abbrev pub Absent : ℕ → ℕ → Type 0
  Absent label i = (j : ℕ) → j < i → s.label j ≢ label

  -- The claim to put a label into the table.
  abbrev pub MayAdd : ℕ → Type 0
  MayAdd label = (label ≢ 0) × HasMod label × Absent label lock_num

  abbrev pub At : ℕ → ℕ → Type 0
  At label i = (label ≢ 0) × (i < lock_num)

  abbrev pub Local : Pc → Type 0
  Local idle = Unit
  Local (scan label true i) = (label ≢ 0) × (i ≤ lock_num) × HasMod label × Absent label i
  Local (scan label false i) = (label ≢ 0) × (i ≤ lock_num)
  Local (found label true i) = At label i × HasMod label
  Local (found label false i) = At label i
  Local (want_load label i) = At label i
  Local (want_store label i n) = At label i
  Local (want_stored label i) = At label i
  Local (unwant_load label i) = At label i × Owns i
  Local (unwant_store label i n) = At label i × Owns i
  Local (recheck label i) = At label i × Owns i
  Local (get_mod label) = label ≢ 0
  Local (find label i) = MayAdd label × (i ≤ lock_num)
  Local (try label i) = MayAdd label × (i < lock_num)
  Local (tried label i) = MayAdd label × (i < lock_num) × Owns i
  Local (set label i) = MayAdd label × (i < lock_num) × Owns i
  Local (unmod label i) = At label i × Owns i × HasMod label × (s.label i ≡ label)
  Local (untry label i) = MayAdd label × (i < lock_num) × Owns i
  Local (holding label i) = At label i × Owns i × (s.label i ≡ label)
  Local (leave i) = Owns i
  Local (leave_label i) = Owns i
  Local (leave_mod i m) = Owns i
  Local (leave_recheck i m) = Owns i × HasMod m
  Local (clear i m) = Owns i × HasMod m
  Local (drop i m) = Owns i × HasMod m
  Local (drop_mod m) = HasMod m
  Local (keep i m) = Owns i × HasMod m
  Local (pass i) = Owns i

-- No label stands twice in the table.
abbrev pub Unique : Table → Type 0
Unique s = (i j : ℕ) → i < lock_num → j < lock_num → s.label i ≡ s.label j → s.label i ≢ 0 → i ≡ j

pub record Sound (s : Table) : Type 0 where
  pub local : (t : ℕ) → Local s t (s.pc t)
  pub unique : Unique s
