-- ===== src/Lock/Leak.antt =====
-- What becomes of a mutex of mflock.c when a thread has taken it over and finds another label.
use esfs.Base.{
  ℕ, ◌+◌, ◌%◌, ◌≡◌, ◌≢◌, inl, inr, Bool, true, false, Option, none, some, List, [], ◌∷◌, refl,
  subst, arith, ◌==◌, if◌then◌else◌, Bool-cases,
}
use native.Mathlib.Decide.{ℕ_discrete}
use esfs.Paths.Label.{string2locklabel}
use esfs.Lock.{
  Pc, Table, lock_num, mflock_init, goto, set_label, set_want, set_mutex, set_mod, take_mutex,
  take_mod, try_mutex, act, enter, exit, Event, call_lock, call_unlock, run, happen, after, idle,
  scan, found, want_load, want_store, want_stored, unwant_load, unwant_store, recheck, get_mod,
  find, try, tried, set, unmod, untry, holding, leave, leave_label, leave_mod, leave_recheck, clear,
  drop, drop_mod, keep, pass,
}
use esfs.Lock.Invariant.{Owns, Local, Sound}
use esfs.Lock.Exclusion.{after-Sound, mflock_init-Sound}

-- A thread that is not at a point where it has entry `i` for its lock.
abbrev pub Away : ℕ → Pc → Type 0
Away i (unwant_load label k) = k ≢ i
Away i (unwant_store label k n) = k ≢ i
Away i (recheck label k) = k ≢ i
Away i (tried label k) = k ≢ i
Away i (set label k) = k ≢ i
Away i (unmod label k) = k ≢ i
Away i (untry label k) = k ≢ i
Away i (holding label k) = k ≢ i
Away i (leave k) = k ≢ i
Away i (leave_label k) = k ≢ i
Away i (leave_mod k m) = k ≢ i
Away i (leave_recheck k m) = k ≢ i
Away i (clear k m) = k ≢ i
Away i (drop k m) = k ≢ i
Away i (keep k m) = k ≢ i
Away i (pass k) = k ≢ i
Away i _ = Unit

-- Entry `i` has the mutex locked by `t`, which no thread can unlock any more.
pub record Lost (s : Table) (i t v : ℕ) : Type 0 where
  pub owner : s.mutex i ≡ some t
  pub label : s.label i ≡ v
  pub away : (u : ℕ) → Away i (s.pc u)

module _ (i t v : ℕ) where
  lost : {s : Table} (u : ℕ) (p : Pc) → Lost s i t v → Away i p → Lost (goto u p s) i t v
  lost {s} u p h a = record {
    owner = h.owner;
    label = h.label;
    away = λ w. elim (Bool-cases (w == u)) [ inl e ↦ rw e a | inr e ↦ rw e (h.away w) ];
  }

  -- Writing another entry.
  Lost-label : {s : Table} (k x : ℕ) → Lost s i t v → k ≢ i → Lost (set_label k x s) i t v
  Lost-label k x h ne = record {
    owner = h.owner;
    label = ground (arith, ne, h.label);
    away = h.away;
  }

  Lost-mutex :
      {s : Table} (k : ℕ) (x : Option ℕ) → Lost s i t v → k ≢ i → Lost (set_mutex k x s) i t v
  Lost-mutex k x h ne = record {
    owner = ground (arith, ne, h.owner);
    label = h.label;
    away = h.away;
  }

  Lost-mod : {s : Table} (k : ℕ) (x : Option ℕ) → Lost s i t v → Lost (set_mod k x s) i t v
  Lost-mod k x h = record { owner = h.owner; label = h.label; away = h.away }

  Lost-want : {s : Table} (k x : ℕ) → Lost s i t v → Lost (set_want k x s) i t v
  Lost-want k x h = record { owner = h.owner; label = h.label; away = h.away }

  module _ (u : ℕ) (s : Table) (h : Lost s i t v) where
    free_apart : (k : ℕ) → s.mutex k ≡ none → k ≢ i
    free_apart k e q = ground (arith, e, q, h.owner)

    take_mutex-Lost :
        (k : ℕ) (p : Pc) (m : Option ℕ)
        → s.mutex k ≡ m
        → (k ≢ i → Away i p)
        → Lost (take_mutex u k p m s) i t v
    unfolding take_mutex
    take_mutex-Lost k p none e a =
        lost u p (Lost-mutex k (some u) h (free_apart k e)) (a (free_apart k e))
    take_mutex-Lost k p (some _) e a = h

    take_mod-Lost : (k : ℕ) (p : Pc) (m : Option ℕ) → Away i p → Lost (take_mod u k p m s) i t v
    unfolding take_mod
    take_mod-Lost k p none a = lost u p (Lost-mod k (some u) h) a
    take_mod-Lost k p (some _) a = h

    try_mutex-Lost :
        (k : ℕ) (p busy : Pc) (m : Option ℕ)
        → s.mutex k ≡ m
        → (k ≢ i → Away i p)
        → Away i busy
        → Lost (try_mutex u k p busy m s) i t v
    unfolding try_mutex
    try_mutex-Lost k p busy none e a b =
        lost u p (Lost-mutex k (some u) h (free_apart k e)) (a (free_apart k e))
    try_mutex-Lost k p busy (some _) e a b = lost u busy h b

    -- Going on to one of two points.
    either :
        (b : Bool) (p q : Pc) → Away i p → Away i q → Lost (goto u (if b then p else q) s) i t v
    either true p q x y = lost u p h x
    either false p q x y = lost u q h y

    act-Lost : (p : Pc) → Away i p → Lost (act u p s) i t v
    unfolding act
    act-Lost idle a = h
    act-Lost (scan label true k) a = elim (Bool-cases (k == lock_num)) [
      | inl e ↦ rw e (lost u (find label 0) h tt)
      | inr e ↦
          rw e (either (s.label k == label) (found label true k) (scan label true (k + 1)) tt tt)
    ]
    act-Lost (scan label false k) a = elim (Bool-cases (k == lock_num)) [
      | inl e ↦ rw e (lost u (get_mod label) h tt)
      | inr e ↦
          rw e (either (s.label k == label) (found label false k) (scan label false (k + 1)) tt tt)
    ]
    act-Lost (found label true k) a = lost u (want_load label k) (Lost-mod label none h) tt
    act-Lost (found label false k) a = lost u (want_load label k) h tt
    act-Lost (want_load label k) a = lost u (want_store label k (s.want k)) h tt
    act-Lost (want_store label k n) a =
        lost u (want_stored label k) (Lost-want k ((n + 1) % 4294967296) h) tt
    act-Lost (want_stored label k) a =
        take_mutex-Lost k (unwant_load label k) (s.mutex k) refl (λ ne. ne)
    act-Lost (unwant_load label k) a = lost u (unwant_store label k (s.want k)) h a
    act-Lost (unwant_store label k n) a =
        lost u (recheck label k) (Lost-want k ((n + 4294967295) % 4294967296) h) a
    act-Lost (recheck label k) a =
        either (s.label k == label) (holding label k) (scan label false 0) a tt
    act-Lost (get_mod label) a =
        take_mod-Lost label (scan label true 0) (s.mod_mutex (label % lock_num)) tt
    act-Lost (find label k) a = elim (Bool-cases (k == lock_num)) [
      | inl e ↦ rw e (lost u (find label 0) h tt)
      | inr e ↦ rw e (either (s.label k == 0) (try label k) (find label (k + 1)) tt tt)
    ]
    act-Lost (try label k) a =
        try_mutex-Lost k (tried label k) (find label (k + 1)) (s.mutex k) refl (λ ne. ne) tt
    act-Lost (tried label k) a = either (s.label k == 0) (set label k) (untry label k) a a
    act-Lost (set label k) a = lost u (unmod label k) (Lost-label k label h a) a
    act-Lost (unmod label k) a = lost u (holding label k) (Lost-mod label none h) a
    act-Lost (untry label k) a = lost u (find label 0) (Lost-mutex k none h a) tt
    act-Lost (holding label k) a = h
    act-Lost (leave k) a = either (s.want k == 0) (leave_label k) (pass k) a a
    act-Lost (leave_label k) a = lost u (leave_mod k (s.label k)) h a
    act-Lost (leave_mod k m) a = take_mod-Lost m (leave_recheck k m) (s.mod_mutex (m % lock_num)) a
    act-Lost (leave_recheck k m) a = either (s.want k == 0) (clear k m) (keep k m) a a
    act-Lost (clear k m) a = lost u (drop k m) (Lost-label k 0 h a) a
    act-Lost (drop k m) a = lost u (drop_mod m) (Lost-mutex k none h a) tt
    act-Lost (drop_mod m) a = lost u idle (Lost-mod m none h) tt
    act-Lost (keep k m) a = lost u (pass k) (Lost-mod m none h) a
    act-Lost (pass k) a = lost u idle (Lost-mutex k none h a) tt

    enter-Lost : (label : ℕ) (p : Pc) → Lost (enter u label p s) i t v
    unfolding enter
    enter-Lost label idle = lost u (scan label false 0) h tt
    enter-Lost label _ = h

    exit-Lost : (p : Pc) → Away i p → Lost (exit u p s) i t v
    unfolding exit
    exit-Lost (holding label k) a = lost u (leave k) h a
    exit-Lost _ a = h

  happen-Lost : (e : Event) (s : Table) → Lost s i t v → Lost (happen e s) i t v
  unfolding happen
  happen-Lost (call_lock u path) s h = enter-Lost u s h (string2locklabel path) (s.pc u)
  happen-Lost (call_unlock u) s h = exit-Lost u s h (s.pc u) (h.away u)
  happen-Lost (run u) s h = act-Lost u s h (s.pc u) (h.away u)

  after-Lost : (es : List Event) (s : Table) → Lost s i t v → Lost (after es s) i t v
  unfolding after
  after-Lost [] s h = h
  after-Lost (e ∷ es) s h = after-Lost es (happen e s) (happen-Lost e s h)

module _ (s : Table) (i t u : ℕ) (o : s.mutex i ≡ some t) (ne : u ≢ t) where
  owner_apart : (k : ℕ) → Owns s u k → k ≢ i
  owner_apart k b e = ne (ground (arith, o, b, e))

  -- A point that needs the mutex `i` belongs to its owner.
  owner-Away : (p : Pc) → Local s u p → Away i p
  owner-Away (unwant_load label k) (a, b) = owner_apart k b
  owner-Away (unwant_store label k n) (a, b) = owner_apart k b
  owner-Away (recheck label k) (a, b) = owner_apart k b
  owner-Away (tried label k) (a, b, c) = owner_apart k c
  owner-Away (set label k) (a, b, c) = owner_apart k c
  owner-Away (unmod label k) (a, b, c, d) = owner_apart k b
  owner-Away (untry label k) (a, b, c) = owner_apart k c
  owner-Away (holding label k) (a, b, c) = owner_apart k b
  owner-Away (leave k) b = owner_apart k b
  owner-Away (leave_label k) b = owner_apart k b
  owner-Away (leave_mod k m) b = owner_apart k b
  owner-Away (leave_recheck k m) (b, c) = owner_apart k b
  owner-Away (clear k m) (b, c) = owner_apart k b
  owner-Away (drop k m) (b, c) = owner_apart k b
  owner-Away (keep k m) (b, c) = owner_apart k b
  owner-Away (pass k) b = owner_apart k b
  owner-Away _ b = tt

-- The step that finds another label goes back to the start with the mutex still locked.
recheck-Lost :
    (s : Table) (t label i : ℕ)
    → Sound s
    → s.pc t ≡ recheck label i
    → s.label i ≢ label
    → Lost (happen (run t) s) i t (s.label i)
unfolding happen act
recheck-Lost s t label i h at ne =
    rw (at, other)
      (record {
        owner = owns;
        label = refl;
        away = λ w. elim (ℕ_discrete w t) [
          | yes e ↦ ground (arith, e)
          | no e ↦ rw (apart w e) (owner-Away s i t w owns e (s.pc w) (h.local w))
        ];
      })
  where
    owns : Owns s t i
    owns = (subst (λ r. Local s t r) at (h.local t)).1

    other : (s.label i == label) ≡ false
    other = ground (arith, ne)

    apart : (w : ℕ) → w ≢ t → (w == t) ≡ false
    apart w e = ground (arith, e)

-- If, after any events from the table of $mflock_init, a thread that took over the mutex of an
-- entry finds another label there than its own, then from its next step on, whatever follows, the
-- mutex stays locked by that thread, the label of the entry never changes, and no thread ever gets
-- this lock.
pub after-recheck :
    (es es' : List Event) (t label i : ℕ)
    → (after es mflock_init).pc t ≡ recheck label i
    → (after es mflock_init).label i ≢ label
    → let s = after es' (happen (run t) (after es mflock_init)) in
      (s.mutex i ≡ some t)
      × (s.label i ≡ (after es mflock_init).label i)
      × ((u label' : ℕ) → s.pc u ≢ holding label' i)
after-recheck es es' t label i at ne =
    (end.owner, end.label, λ u label' e. subst (λ p. Away i p) e (end.away u) refl)
  where
    s : Table
    s = after es mflock_init

    end : Lost (after es' (happen (run t) s)) i t (s.label i)
    end =
        after-Lost i t (s.label i) es' (happen (run t) s)
          (recheck-Lost s t label i (after-Sound es mflock_init mflock_init-Sound) at ne)
