-- ===== src/Lock.antt =====
-- mflock.c: the table of labelled mutexes, under any interleaving of any number of threads. One step
-- is one access to the shared table or one call of pthread_mutex, which are assumed not to fail.
pub mod Invariant
pub mod Frame
pub mod Exclusion
pub mod Leak
pub mod Tests
use esfs.Base.{
  ℕ, zero, suc, ◌+◌, ◌-◌, ◌%◌, ◌^◌, Bool, true, false, Option, none, some, List, [], ◌∷◌, ◌==◌,
  if◌then◌else◌,
}
use esfs.Paths.Label.{string2locklabel}

abbrev pub lock_num : ℕ
lock_num = 64

-- Where a thread is. `scan label has_mod i` is the first for loop of $mflock_lock at entry `i`,
-- `has_mod` says whether modmutex is held, and `holding label i` is between the return of
-- $mflock_lock and the call of $mflock_unlock; from `leave` on it is in $mflock_unlock.
pub data Pc : Type 0 where
  idle : Pc
  scan : ℕ → Bool → ℕ → Pc
  found : ℕ → Bool → ℕ → Pc
  want_load want_stored : ℕ → ℕ → Pc
  want_store : ℕ → ℕ → ℕ → Pc
  unwant_load : ℕ → ℕ → Pc
  unwant_store : ℕ → ℕ → ℕ → Pc
  recheck : ℕ → ℕ → Pc
  get_mod : ℕ → Pc
  find try tried set unmod untry : ℕ → ℕ → Pc
  holding : ℕ → ℕ → Pc
  leave leave_label pass : ℕ → Pc
  leave_mod leave_recheck clear drop keep : ℕ → ℕ → Pc
  drop_mod : ℕ → Pc

-- fsdata->mflocks, with the thread that has locked each mutex, and the threads.
pub record Table : Type 0 where
  pub label : ℕ → ℕ
  pub want : ℕ → ℕ
  pub mutex : ℕ → Option ℕ
  pub mod_mutex : ℕ → Option ℕ
  pub pc : ℕ → Pc

abbrev pub upd : {A : Type 0} → (ℕ → A) → ℕ → A → ℕ → A
upd f i v j = if j == i then v else f j

-- $mflock_init.
abbrev pub mflock_init : Table
mflock_init = record {
  label = λ i. 0;
  want = λ i. 0;
  mutex = λ i. none;
  mod_mutex = λ i. none;
  pc = λ t. idle;
}

abbrev pub goto : ℕ → Pc → Table → Table
goto t p s = record s { pc = upd s.pc t p }

abbrev pub set_label : ℕ → ℕ → Table → Table
set_label i v s = record s { label = upd s.label i v }

abbrev pub set_want : ℕ → ℕ → Table → Table
set_want i v s = record s { want = upd s.want i v }

abbrev pub set_mutex : ℕ → Option ℕ → Table → Table
set_mutex i v s = record s { mutex = upd s.mutex i v }

-- The modmutex of a label: label & ($$LOCK_NUM - 1).
abbrev pub set_mod : ℕ → Option ℕ → Table → Table
set_mod label v s = record s { mod_mutex = upd s.mod_mutex (label % lock_num) v }

-- pthread_mutex_lock waits: the state stays as it is until the mutex is free.
unfoldable pub take_mutex : ℕ → ℕ → Pc → Option ℕ → Table → Table
take_mutex t i p none s = goto t p (set_mutex i (some t) s)
take_mutex t i p (some _) s = s

unfoldable pub take_mod : ℕ → ℕ → Pc → Option ℕ → Table → Table
take_mod t label p none s = goto t p (set_mod label (some t) s)
take_mod t label p (some _) s = s

-- pthread_mutex_trylock: busy, on to the next entry.
unfoldable pub try_mutex : ℕ → ℕ → Pc → Pc → Option ℕ → Table → Table
try_mutex t i p busy none s = goto t p (set_mutex i (some t) s)
try_mutex t i p busy (some _) s = goto t busy s

-- One step of thread `t`.
unfoldable pub act : ℕ → Pc → Table → Table
unfolding take_mutex take_mod try_mutex
act t idle s = s
act t (scan label has_mod i) s =
    if i == lock_num
    then goto t (if has_mod then find label 0 else get_mod label) s
    else goto t (if s.label i == label then found label has_mod i else scan label has_mod (i + 1)) s
act t (found label true i) s = goto t (want_load label i) (set_mod label none s)
act t (found label false i) s = goto t (want_load label i) s
act t (want_load label i) s = goto t (want_store label i (s.want i)) s
act t (want_store label i n) s = goto t (want_stored label i) (set_want i ((n + 1) % 2 ^ 32) s)
act t (want_stored label i) s = take_mutex t i (unwant_load label i) (s.mutex i) s
act t (unwant_load label i) s = goto t (unwant_store label i (s.want i)) s
act t (unwant_store label i n) s =
    goto t (recheck label i) (set_want i ((n + (2 ^ 32 - 1)) % 2 ^ 32) s)
act t (recheck label i) s =
    goto t (if s.label i == label then holding label i else scan label false 0) s
act t (get_mod label) s = take_mod t label (scan label true 0) (s.mod_mutex (label % lock_num)) s
act t (find label i) s =
    if i == lock_num
    then goto t (find label 0) s
    else goto t (if s.label i == 0 then try label i else find label (i + 1)) s
act t (try label i) s = try_mutex t i (tried label i) (find label (i + 1)) (s.mutex i) s
act t (tried label i) s = goto t (if s.label i == 0 then set label i else untry label i) s
act t (set label i) s = goto t (unmod label i) (set_label i label s)
act t (unmod label i) s = goto t (holding label i) (set_mod label none s)
act t (untry label i) s = goto t (find label 0) (set_mutex i none s)
act t (holding label i) s = s
act t (leave i) s = goto t (if s.want i == 0 then leave_label i else pass i) s
act t (leave_label i) s = goto t (leave_mod i (s.label i)) s
act t (leave_mod i m) s = take_mod t m (leave_recheck i m) (s.mod_mutex (m % lock_num)) s
act t (leave_recheck i m) s = goto t (if s.want i == 0 then clear i m else keep i m) s
act t (clear i m) s = goto t (drop i m) (set_label i 0 s)
act t (drop i m) s = goto t (drop_mod m) (set_mutex i none s)
act t (drop_mod m) s = goto t idle (set_mod m none s)
act t (keep i m) s = goto t (pass i) (set_mod m none s)
act t (pass i) s = goto t idle (set_mutex i none s)

-- What happens next: a thread calls $mflock_lock for the label of a path, or $mflock_unlock with the
-- lock that it holds, or runs on for one step.
pub data Event : Type 0 where
  call_lock : ℕ → List ℕ → Event
  call_unlock run : ℕ → Event

unfoldable pub enter : ℕ → ℕ → Pc → Table → Table
enter t label idle s = goto t (scan label false 0) s
enter t label _ s = s

unfoldable pub exit : ℕ → Pc → Table → Table
exit t (holding label i) s = goto t (leave i) s
exit t _ s = s

unfoldable pub happen : Event → Table → Table
unfolding act enter exit
happen (call_lock t path) s = enter t (string2locklabel path) (s.pc t) s
happen (call_unlock t) s = exit t (s.pc t) s
happen (run t) s = act t (s.pc t) s

-- The events in their order, the first one first.
unfoldable pub after : List Event → Table → Table
unfolding happen
after [] s = s
after (e ∷ es) s = after es (happen e s)
