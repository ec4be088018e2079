-- ===== src/Lock/Tests.antt =====
-- Schedules of two threads that lock the same and different files.

use esfs.Base.{ℕ, zero, suc, ◌≡◌, ◌≢◌, refl, arith, some, List, [], ◌∷◌, ◌++◌}
use esfs.Paths.Build.{codes}
use esfs.Paths.Label.{string2locklabel, djb2, djb2_pass, djb2_passes}
use esfs.Lock.{
  mflock_init, act, enter, exit, Event, call_lock, call_unlock, run, happen, after, take_mutex,
  take_mod, try_mutex, recheck, holding,
}
use esfs.Lock.Exclusion.{after-holding}
use esfs.Lock.Leak.{after-recheck}

abbrev runs : ℕ → ℕ → List Event
runs zero t = []
runs (suc n) t = run t ∷ runs n t

abbrev file_a : List ℕ
file_a = codes "/a"

abbrev file_b : List ℕ
file_b = codes "/b"

abbrev label_a : ℕ
label_a = 8243746411406268277

abbrev label_b : ℕ
label_b = 8243747819107541498

-- Thread 1 locks one file and thread 2 another.
abbrev two_files : List Event
two_files = (call_lock 1 file_a ∷ runs 200 1) ++ (call_lock 2 file_b ∷ runs 250 2)

first_holds : (after two_files mflock_init).pc 1 ≡ holding label_a 0
unfolding after happen act enter exit take_mutex take_mod try_mutex string2locklabel djb2
    djb2_passes djb2_pass
first_holds = refl

second_holds : (after two_files mflock_init).pc 2 ≡ holding label_b 1
unfolding after happen act enter exit take_mutex take_mod try_mutex string2locklabel djb2
    djb2_passes djb2_pass
second_holds = refl

after-holding_example : (label_a ≢ label_b) × (◌≢◌ {A = ℕ} 0 1)
after-holding_example =
    after-holding two_files 1 2 label_a label_b 0 1 first_holds second_holds (omega arith)

-- Thread 2 finds the label of the file that thread 1 has locked, but asks for the handover only
-- after thread 1 has unlocked it and taken the label away.
abbrev late_want : List Event
late_want =
    (call_lock 1 file_a ∷ runs 200 1)
    ++ ((call_lock 2 file_a ∷ runs 2 2) ++ ((call_unlock 1 ∷ runs 20 1) ++ runs 5 2))

rechecks : (after late_want mflock_init).pc 2 ≡ recheck label_a 0
unfolding after happen act enter exit take_mutex take_mod try_mutex string2locklabel djb2
    djb2_passes djb2_pass
rechecks = refl

label_gone : (after late_want mflock_init).label 0 ≡ 0
unfolding after happen act enter exit take_mutex take_mod try_mutex string2locklabel djb2
    djb2_passes djb2_pass
label_gone = refl

-- Thread 2 then gets another lock and returns it.
after-recheck_example :
    let s =
      after
        ((runs 250 2 ++ (call_unlock 2 ∷ runs 20 2)))
        (happen (run 2) (after late_want mflock_init)) in
    (s.mutex 0 ≡ some 2)
    × (s.label 0 ≡ (after late_want mflock_init).label 0)
    × ((u label' : ℕ) → s.pc u ≢ holding label' 0)
after-recheck_example =
    after-recheck late_want (runs 250 2 ++ (call_unlock 2 ∷ runs 20 2)) 2 label_a 0 rechecks
      (λ e. absurd (omega (arith, e, label_gone)))
