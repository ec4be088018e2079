-- ===== src/Lock/Frame.antt =====
-- A step of one thread of mflock.c leaves the others what they rely on.
use esfs.Base.{ℕ, ◌%◌, ◌≡◌, ◌≢◌, ◌⊎◌, true, false, Option, none, some, refl, sym, ◌∙◌, subst, arith}
use native.Mathlib.Decide.{ℕ_discrete}
use esfs.Lock.{
  Pc, Table, lock_num, goto, set_label, set_want, set_mutex, set_mod, idle, scan, found, want_load,
  want_store, want_stored, unwant_load, unwant_store, recheck, get_mod, find, try, tried, set,
  unmod, untry, holding, leave, leave_label, leave_mod, leave_recheck, clear, drop, drop_mod, keep,
  pass,
}
use esfs.Lock.Invariant.{Owns, HasMod, MayAdd, Local, Unique, Sound}

pub record Frame (t : ℕ) (s s' : Table) : Type 0 where
  pub pc : (u : ℕ) → u ≢ t → s'.pc u ≡ s.pc u
  pub mutex : (i u : ℕ) → u ≢ t → Owns s u i → Owns s' u i
  pub mod_mutex : (label u : ℕ) → u ≢ t → HasMod s u label → HasMod s' u label
  pub label : (i u : ℕ) → u ≢ t → Owns s u i → s'.label i ≡ s.label i
  pub absent :
      (i u label : ℕ)
      → u ≢ t
      → label ≢ 0
      → HasMod s u label
      → s.label i ≢ label
      → s'.label i ≢ label

module _ {t : ℕ} {s s' : Table} (f : Frame t s s') (u : ℕ) (other : u ≢ t) where
  MayAdd-Frame : {label : ℕ} → MayAdd s u label → MayAdd s' u label
  MayAdd-Frame {label} (a, b, c) =
      (a, f.mod_mutex label u other b, λ j l. f.absent j u label other a b (c j l))

  pub Local-Frame : (p : Pc) → Local s u p → Local s' u p
  Local-Frame idle h = h
  Local-Frame (scan label true i) (a, b, c, d) =
      (a, b, f.mod_mutex label u other c, λ j l. f.absent j u label other a c (d j l))
  Local-Frame (scan label false i) h = h
  Local-Frame (found label true i) (a, b) = (a, f.mod_mutex label u other b)
  Local-Frame (found label false i) h = h
  Local-Frame (want_load label i) h = h
  Local-Frame (want_store label i n) h = h
  Local-Frame (want_stored label i) h = h
  Local-Frame (unwant_load label i) (a, b) = (a, f.mutex i u other b)
  Local-Frame (unwant_store label i n) (a, b) = (a, f.mutex i u other b)
  Local-Frame (recheck label i) (a, b) = (a, f.mutex i u other b)
  Local-Frame (get_mod label) h = h
  Local-Frame (find label i) (a, b) = (MayAdd-Frame a, b)
  Local-Frame (try label i) (a, b) = (MayAdd-Frame a, b)
  Local-Frame (tried label i) (a, b, c) = (MayAdd-Frame a, b, f.mutex i u other c)
  Local-Frame (set label i) (a, b, c) = (MayAdd-Frame a, b, f.mutex i u other c)
  Local-Frame (unmod label i) (a, b, c, d) =
      (a, f.mutex i u other b, f.mod_mutex label u other c, f.label i u other b ∙ d)
  Local-Frame (untry label i) (a, b, c) = (MayAdd-Frame a, b, f.mutex i u other c)
  Local-Frame (holding label i) (a, b, c) = (a, f.mutex i u other b, f.label i u other b ∙ c)
  Local-Frame (leave i) h = f.mutex i u other h
  Local-Frame (leave_label i) h = f.mutex i u other h
  Local-Frame (leave_mod i m) h = f.mutex i u other h
  Local-Frame (leave_recheck i m) (a, b) = (f.mutex i u other a, f.mod_mutex m u other b)
  Local-Frame (clear i m) (a, b) = (f.mutex i u other a, f.mod_mutex m u other b)
  Local-Frame (drop i m) (a, b) = (f.mutex i u other a, f.mod_mutex m u other b)
  Local-Frame (drop_mod m) h = f.mod_mutex m u other h
  Local-Frame (keep i m) (a, b) = (f.mutex i u other a, f.mod_mutex m u other b)
  Local-Frame (pass i) h = f.mutex i u other h

-- The table after the step of a thread whose own point is right, and no label twice.
pub Sound-step :
    {t : ℕ} {s s' : Table} → Sound s → Frame t s s' → Local s' t (s'.pc t) → Unique s' → Sound s'
Sound-step {t} {s} {s'} h f l q = record {
  local = λ u. elim (ℕ_discrete u t) [
    | yes e ↦ subst (λ v. Local s' v (s'.pc v)) (sym e) l
    | no e ↦ subst (λ p. Local s' u p) (sym (f.pc u e)) (Local-Frame f u e (s.pc u) (h.local u))
  ];
  unique = q;
}

module _ (t : ℕ) (p : Pc) (s : Table) where
  pub goto-pc : (s' : Table) → (goto t p s').pc t ≡ p
  goto-pc s' = ground arith

  pub goto-Frame : Frame t s (goto t p s)
  goto-Frame = record {
    pc = λ u e. ground (arith, e);
    mutex = λ i u e h. h;
    mod_mutex = λ l u e h. h;
    label = λ i u e h. refl;
    absent = λ i u l e z m h. h;
  }

  pub want-Frame : (i v : ℕ) → Frame t s (goto t p (set_want i v s))
  want-Frame i v = record {
    pc = λ u e. ground (arith, e);
    mutex = λ i u e h. h;
    mod_mutex = λ l u e h. h;
    label = λ i u e h. refl;
    absent = λ i u l e z m h. h;
  }

  pub mutex-Frame :
      (i : ℕ) (v : Option ℕ)
      → (s.mutex i ≡ none) ⊎ (s.mutex i ≡ some t)
      → Frame t s (goto t p (set_mutex i v s))
  mutex-Frame i v free = record {
    pc = λ u e. ground (arith, e);
    mutex = λ j u e h. ground (arith, e, h, free);
    mod_mutex = λ l u e h. h;
    label = λ i u e h. refl;
    absent = λ i u l e z m h. h;
  }

  pub mod-Frame :
      (label : ℕ) (v : Option ℕ)
      → (s.mod_mutex (label % lock_num) ≡ none) ⊎ (s.mod_mutex (label % lock_num) ≡ some t)
      → Frame t s (goto t p (set_mod label v s))
  mod-Frame label v free = record {
    pc = λ u e. ground (arith, e);
    mutex = λ i u e h. h;
    mod_mutex = λ l u e h. ground (arith, e, h, free);
    label = λ i u e h. refl;
    absent = λ i u l e z m h. h;
  }

  -- A label is written by the owner of the entry, and is 0 or one that the thread may add.
  pub label-Frame :
      (i v : ℕ) → Owns s t i → (v ≡ 0) ⊎ HasMod s t v → Frame t s (goto t p (set_label i v s))
  label-Frame i v own ok = record {
    pc = λ u e. ground (arith, e);
    mutex = λ i u e h. h;
    mod_mutex = λ l u e h. h;
    label = λ j u e h. ground (arith, e, h, own);
    absent = λ j u l e z m h. ground (arith, e, z, m, h, ok);
  }
