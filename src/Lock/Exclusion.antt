-- ===== src/Lock/Exclusion.antt =====
-- Mutual exclusion of the locks of mflock.c, for every sequence of events.
use esfs.Base.{
  ℕ, ◌+◌, ◌%◌, ◌≡◌, ◌≢◌, ◌⊎◌, inl, inr, Bool, true, false, Option, none, some, List, [], ◌∷◌, refl,
  sym, ◌∙◌, subst, arith, ◌==◌, Bool-cases,
}
use native.Mathlib.Decide.{ℕ_discrete}
use esfs.Paths.Label.{string2locklabel, string2locklabel_bounds}
use esfs.Lock.{
  Pc, Table, lock_num, mflock_init, goto, set_label, set_want, set_mutex, set_mod, take_mutex,
  take_mod, try_mutex, act, enter, exit, Event, call_lock, call_unlock, run, happen, after, idle,
  scan, found, want_load, want_store, want_stored, unwant_load, unwant_store, recheck, get_mod,
  find, try, tried, set, unmod, untry, holding, leave, leave_label, leave_mod, leave_recheck, clear,
  drop, drop_mod, keep, pass,
}
use esfs.Lock.Invariant.{Owns, HasMod, MayAdd, At, Local, Unique, Sound}
use esfs.Lock.Frame.{
  Frame, Sound-step, goto-pc, goto-Frame, want-Frame, mutex-Frame, mod-Frame, label-Frame,
}

moved :
    {t : ℕ} {s : Table} (p : Pc) (s' : Table)
    → Sound s
    → Frame t s (goto t p s')
    → Local s' t p
    → Unique s'
    → Sound (goto t p s')
moved {t} p s' h f l q =
    Sound-step h f (subst (λ r. Local (goto t p s') t r) (sym (goto-pc t p s' s')) l) q

-- Nothing but the place of the thread changes.
gone : (t : ℕ) {s : Table} (p : Pc) → Sound s → Local s t p → Sound (goto t p s)
gone t {s} p h l = moved p s h (goto-Frame t p s) l h.unique

-- The label is in no other entry, so it may be put into this one.
Unique-set :
    {t : ℕ} {s : Table} (label i : ℕ) → Sound s → MayAdd s t label → Unique (set_label i label s)
Unique-set {t} {s} label i h (a, b, c) j k lj lk e z =
    ground (arith, lj, lk, e, z, c j lj, c k lk, h.unique j k lj lk)

Unique-clear : {s : Table} (i : ℕ) → Sound s → Unique (set_label i 0 s)
Unique-clear i h j k lj lk e z = ground (arith, lj, lk, e, z, h.unique j k lj lk)

own : (s : Table) (t i : ℕ) → Owns s t i → (s.mutex i ≡ none) ⊎ Owns s t i
own s t i h = inr h

module _ (t : ℕ) (s : Table) (h : Sound s) where
  take_mutex-Sound :
      (i : ℕ) (p : Pc) (m : Option ℕ)
      → s.mutex i ≡ m
      → Local (set_mutex i (some t) s) t p
      → Sound (take_mutex t i p m s)
  unfolding take_mutex
  take_mutex-Sound i p none e l =
      moved p (set_mutex i (some t) s) h (mutex-Frame t p s i (some t) (inl e)) l h.unique
  take_mutex-Sound i p (some _) e l = h

  take_mod-Sound :
      (label : ℕ) (p : Pc) (m : Option ℕ)
      → s.mod_mutex (label % lock_num) ≡ m
      → Local (set_mod label (some t) s) t p
      → Sound (take_mod t label p m s)
  unfolding take_mod
  take_mod-Sound label p none e l =
      moved p (set_mod label (some t) s) h (mod-Frame t p s label (some t) (inl e)) l h.unique
  take_mod-Sound label p (some _) e l = h

  try_mutex-Sound :
      (i : ℕ) (p busy : Pc) (m : Option ℕ)
      → s.mutex i ≡ m
      → Local (set_mutex i (some t) s) t p
      → Local s t busy
      → Sound (try_mutex t i p busy m s)
  unfolding try_mutex
  try_mutex-Sound i p busy none e l b =
      moved p (set_mutex i (some t) s) h (mutex-Frame t p s i (some t) (inl e)) l h.unique
  try_mutex-Sound i p busy (some _) e l b = gone t busy h b

  -- Giving a mutex or a modmutex back.
  give_mutex :
      (i : ℕ) (p : Pc)
      → Owns s t i
      → Local (set_mutex i none s) t p
      → Sound (goto t p (set_mutex i none s))
  give_mutex i p o l = moved p (set_mutex i none s) h (mutex-Frame t p s i none (inr o)) l h.unique

  give_mod :
      (label : ℕ) (p : Pc)
      → HasMod s t label
      → Local (set_mod label none s) t p
      → Sound (goto t p (set_mod label none s))
  give_mod label p o l =
      moved p (set_mod label none s) h (mod-Frame t p s label none (inr o)) l h.unique

  scan-Sound :
      (label : ℕ) (has_mod : Bool) (i : ℕ)
      → Local s t (scan label has_mod i)
      → Sound (act t (scan label has_mod i) s)
  unfolding act
  scan-Sound label true i (a, b, c, d) = elim (Bool-cases (i == lock_num)) [
    | inl e ↦
        rw e (gone t (find label 0) h ((a, c, λ j l. d j (ground (arith, e, l))), omega arith))
    | inr e ↦ elim (Bool-cases (s.label i == label)) [
      | inl f ↦ rw (e, f) (gone t (found label true i) h ((a, ground (arith, e, b)), c))
      | inr f ↦
          rw (e, f)
            (gone t (scan label true (i + 1)) h (
              a,
              ground (arith, e, b),
              c,
              λ j l. elim (ℕ_discrete j i) [
                | yes q ↦ ground (arith, q, f)
                | no q ↦ d j (omega arith)
              ],
            ))
    ]
  ]
  scan-Sound label false i (a, b) = elim (Bool-cases (i == lock_num)) [
    | inl e ↦ rw e (gone t (get_mod label) h a)
    | inr e ↦ elim (Bool-cases (s.label i == label)) [
      | inl f ↦ rw (e, f) (gone t (found label false i) h (a, ground (arith, e, b)))
      | inr f ↦ rw (e, f) (gone t (scan label false (i + 1)) h (a, ground (arith, e, b)))
    ]
  ]

  find-Sound : (label i : ℕ) → Local s t (find label i) → Sound (act t (find label i) s)
  unfolding act
  find-Sound label i (a, b) = elim (Bool-cases (i == lock_num)) [
    | inl e ↦ rw e (gone t (find label 0) h (a, omega arith))
    | inr e ↦ elim (Bool-cases (s.label i == 0)) [
      | inl f ↦ rw (e, f) (gone t (try label i) h (a, ground (arith, e, b)))
      | inr f ↦ rw (e, f) (gone t (find label (i + 1)) h (a, ground (arith, e, b)))
    ]
  ]

  act-Sound : (p : Pc) → Local s t p → Sound (act t p s)
  unfolding act
  act-Sound idle l = h
  act-Sound (scan label has_mod i) l = scan-Sound label has_mod i l
  act-Sound (found label true i) (a, b) = give_mod label (want_load label i) b a
  act-Sound (found label false i) l = gone t (want_load label i) h l
  act-Sound (want_load label i) l = gone t (want_store label i (s.want i)) h l
  act-Sound (want_store label i n) l =
      moved (want_stored label i) (set_want i ((n + 1) % 4294967296) s) h
        (want-Frame t (want_stored label i) s i ((n + 1) % 4294967296)) l h.unique
  act-Sound (want_stored label i) l =
      take_mutex-Sound i (unwant_load label i) (s.mutex i) refl (l, ground arith)
  act-Sound (unwant_load label i) l = gone t (unwant_store label i (s.want i)) h l
  act-Sound (unwant_store label i n) l =
      moved (recheck label i) (set_want i ((n + 4294967295) % 4294967296) s) h
        (want-Frame t (recheck label i) s i ((n + 4294967295) % 4294967296)) l h.unique
  act-Sound (recheck label i) (a, b) = elim (Bool-cases (s.label i == label)) [
    | inl f ↦ rw f (gone t (holding label i) h (a, b, ground (arith, f)))
    | inr f ↦ rw f (gone t (scan label false 0) h (a.0, omega arith))
  ]
  act-Sound (get_mod label) l =
      take_mod-Sound label (scan label true 0) (s.mod_mutex (label % lock_num)) refl
        (l, omega arith, ground arith, λ j e. absurd (omega arith))
  act-Sound (find label i) l = find-Sound label i l
  act-Sound (try label i) (a, b) =
      try_mutex-Sound i (tried label i) (find label (i + 1)) (s.mutex i) refl (a, b, ground arith)
        (a, omega (arith, b))
  act-Sound (tried label i) l = elim (Bool-cases (s.label i == 0)) [
    | inl f ↦ rw f (gone t (set label i) h l)
    | inr f ↦ rw f (gone t (untry label i) h l)
  ]
  act-Sound (set label i) (a, b, c) =
      moved (unmod label i) (set_label i label s) h
        (label-Frame t (unmod label i) s i label c (inr a.1)) ((a.0, b), c, a.1, ground arith)
        (Unique-set label i h a)
  act-Sound (unmod label i) (a, b, c, d) = give_mod label (holding label i) c (a, b, d)
  act-Sound (untry label i) (a, b, c) = give_mutex i (find label 0) c (a, omega arith)
  act-Sound (holding label i) l = h
  act-Sound (leave i) l = elim (Bool-cases (s.want i == 0)) [
    | inl f ↦ rw f (gone t (leave_label i) h l)
    | inr f ↦ rw f (gone t (pass i) h l)
  ]
  act-Sound (leave_label i) l = gone t (leave_mod i (s.label i)) h l
  act-Sound (leave_mod i m) l =
      take_mod-Sound m (leave_recheck i m) (s.mod_mutex (m % lock_num)) refl (l, ground arith)
  act-Sound (leave_recheck i m) l = elim (Bool-cases (s.want i == 0)) [
    | inl f ↦ rw f (gone t (clear i m) h l)
    | inr f ↦ rw f (gone t (keep i m) h l)
  ]
  act-Sound (clear i m) (a, b) =
      moved (drop i m) (set_label i 0 s) h (label-Frame t (drop i m) s i 0 a (inl refl)) (a, b)
        (Unique-clear i h)
  act-Sound (drop i m) (a, b) = give_mutex i (drop_mod m) a b
  act-Sound (drop_mod m) l = give_mod m idle l tt
  act-Sound (keep i m) (a, b) = give_mod m (pass i) b a
  act-Sound (pass i) l = give_mutex i idle l tt

  enter-Sound : (label : ℕ) (p : Pc) → label ≢ 0 → Sound (enter t label p s)
  unfolding enter
  enter-Sound label idle z = gone t (scan label false 0) h (z, omega arith)
  enter-Sound label _ z = h

  exit-Sound : (p : Pc) → Local s t p → Sound (exit t p s)
  unfolding exit
  exit-Sound (holding label i) (a, b, c) = gone t (leave i) h b
  exit-Sound _ l = h

happen-Sound : (e : Event) (s : Table) → Sound s → Sound (happen e s)
unfolding happen
happen-Sound (call_lock t path) s h =
    enter-Sound t s h (string2locklabel path) (s.pc t) (string2locklabel_bounds path).0
happen-Sound (call_unlock t) s h = exit-Sound t s h (s.pc t) (h.local t)
happen-Sound (run t) s h = act-Sound t s h (s.pc t) (h.local t)

pub after-Sound : (es : List Event) (s : Table) → Sound s → Sound (after es s)
unfolding after
after-Sound [] s h = h
after-Sound (e ∷ es) s h = after-Sound es (happen e s) (happen-Sound e s h)

pub mflock_init-Sound : Sound mflock_init
mflock_init-Sound = record { local = λ t. tt; unique = λ i j li lj e z. absurd (z refl) }

-- After any events of any number of threads from the table of $mflock_init: two different threads
-- between the return of $mflock_lock and the call of $mflock_unlock have different labels and
-- different lock numbers.
pub after-holding :
    (es : List Event) (t u label label' i j : ℕ)
    → (after es mflock_init).pc t ≡ holding label i
    → (after es mflock_init).pc u ≡ holding label' j
    → t ≢ u
    → (label ≢ label') × (i ≢ j)
after-holding es t u label label' i j p q ne =
    (λ e. other (h.unique i j a.0.1 b.0.1 (a.2 ∙ e ∙ sym b.2) (λ z. a.0.0 (sym a.2 ∙ z))), other)
  where
    h : Sound (after es mflock_init)
    h = after-Sound es mflock_init mflock_init-Sound

    a :
        At (after es mflock_init) t label i
        × Owns (after es mflock_init) t i
        × ((after es mflock_init).label i ≡ label)
    a = subst (λ r. Local (after es mflock_init) t r) p (h.local t)

    b :
        At (after es mflock_init) u label' j
        × Owns (after es mflock_init) u j
        × ((after es mflock_init).label j ≡ label')
    b = subst (λ r. Local (after es mflock_init) u r) q (h.local u)

    other : i ≢ j
    other e = ne (cc (a.1, b.1, e))
