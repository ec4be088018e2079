-- ===== src/Snapshots/Chain.antt =====
-- The snapshots as a list, from the latest to the earliest, and what reading a pointer file says of it.
use esfs.Base.{
  ℕ, suc, ◌-◌, ◌≡◌, refl, sym, ◌∙◌, ap, Bool, true, false, Option, none, some, List, [], ◌∷◌, ◌++◌,
  length, take, ◌==◌, if◌then◌else◌, arith,
}
use mathlib.Core.Option.{some_inj}
use esfs.Os.{Os, Ret, done, failed}
use esfs.Files.{Files, Opened, fd_opened, open_failed}
use esfs.Paths.Build.{path_max, ext_hid}
use esfs.Snapshots.Pointers.{
  Texts, PointerFiles, c_string, ends_in_nul, Sndir, sndir_found, sndir_absent, sndir_empty,
  sndir_error, sndir_read, read_sndir_from_file,
}

-- The path that a pointer file with these bytes leads to. A NUL alone leads nowhere.
unfoldable pub stored : List ℕ → Option (List ℕ)
unfolding c_string ends_in_nul
stored s =
    if ends_in_nul (take path_max s)
    then if length (take path_max s) == 1 then none else some (c_string (take path_max s))
    else none

-- A pointer file at `h` leads to `q`.
abbrev pub Leads : Texts → List ℕ → List ℕ → Type 0
Leads t h q = (s : List ℕ) × (t h ≡ some s) × (stored s ≡ some q)

-- There is a pointer file at `h`, which leads nowhere.
abbrev pub Unreadable : Texts → List ℕ → Type 0
Unreadable t h = (s : List ℕ) × (t h ≡ some s) × (stored s ≡ none)

pub Leads-Unreadable : (t : Texts) (h q : List ℕ) → Leads t h q → Unreadable t h → ⊥
Leads-Unreadable t h q (s, a, b) (r, c, d) = cc

-- Each snapshot has a pointer file that leads to the one before it, and the last of them has none.
abbrev pub Linked : Texts → List (List ℕ) → Type 0
Linked t [] = Unit
Linked t (p ∷ []) = t (p ++ ext_hid) ≡ none
Linked t (p ∷ q ∷ ps) = Leads t (p ++ ext_hid) q × Linked t (q ∷ ps)

-- What a value of $read_sndir_from_file says of the file read.
abbrev pub ReadsAs : Texts → List ℕ → Sndir → Type 0
ReadsAs t h (sndir_found q len) =
    Leads t h q × ((s : List ℕ) → t h ≡ some s → len ≡ length (take path_max s) - 1)
ReadsAs t h sndir_absent = t h ≡ none
ReadsAs t h sndir_empty = Unreadable t h
ReadsAs t h (sndir_error e []) = Unit
ReadsAs t h (sndir_error e (x ∷ b)) = Unreadable t h

module _ (os : Os) (files : Files os) (pointers : PointerFiles os files) where
  open os use {World, Fd}
  open pointers use {text, content, pread_text}

  abbrev pub Reads : List ℕ → World → Sndir × World → Type 0
  Reads h w (r, v) = (text v ≡ text w) × ReadsAs (text w) h r

  pub read_sndir_from_file-Reads :
      (h : List ℕ) (w : World) → Reads h w (read_sndir_from_file os files pointers h w)
  unfolding read_sndir_from_file sndir_read
  read_sndir_from_file-Reads h w = by_open (files.open_rdonly h w).0 refl
    where
      v : World
      v = (files.open_rdonly h w).1

      same : text v ≡ text w
      same = pointers.open_rdonly_same h w

      by_nul :
          (fd : Fd) (b : Bool) (buf : List ℕ) (u : World)
          → text u ≡ text w
          → text w h ≡ some (content fd v)
          → buf ≡ take path_max (content fd v)
          → ends_in_nul buf ≡ b
          → Reads h w (elim b [
            | false ↦ (sndir_error 5 buf, u)
            | true ↦ (sndir_read buf, (files.close fd u).1)
          ])
      by_nul fd false buf u t f e n = (t, unreadable buf e n)
        where
          unreadable :
              (buf : List ℕ)
              → buf ≡ take path_max (content fd v)
              → ends_in_nul buf ≡ false
              → ReadsAs (text w) h (sndir_error 5 buf)
          unreadable [] e n = tt
          unreadable (x ∷ buf) e n = (content fd v, f, unfold stored in rw (← e, n) refl)
      by_nul fd true buf u t f e n =
          (pointers.close_same fd u ∙ t, by_length (length buf == 1) refl)
        where
          by_length :
              (b : Bool)
              → (length buf == 1) ≡ b
              → ReadsAs
                  (text w)
                  h
                  (if b then sndir_empty else sndir_found (c_string buf) (length buf - 1))
          by_length true l = (content fd v, f, unfold stored in rw (← e, n, l) refl)
          by_length false l = (
            (content fd v, f, unfold stored in rw (← e, n, l) refl),
            λ s g. ap (λ x. length x - 1) (e ∙ ap (take path_max) (some_inj.0 (sym f ∙ g))),
          )

      by_read :
          (fd : Fd)
          → text w h ≡ some (content fd v)
          → (q : Ret) → (pread_text fd path_max v).0 ≡ q
          → Reads h w (elim q [
            | failed e ↦ (sndir_error (suc e) [], (pread_text fd path_max v).2)
            | done n ↦ elim (ends_in_nul (pread_text fd path_max v).1) [
              | false ↦ (sndir_error 5 (pread_text fd path_max v).1, (pread_text fd path_max v).2)
              | true ↦ (
                sndir_read (pread_text fd path_max v).1,
                (files.close fd (pread_text fd path_max v).2).1,
              )
            ]
          ])
      by_read fd f (failed e) h' = (pointers.pread_text_same fd path_max v ∙ same, tt)
      by_read fd f (done n) h' =
          by_nul fd (ends_in_nul (pread_text fd path_max v).1) (pread_text fd path_max v).1
            (pread_text fd path_max v).2 (pointers.pread_text_same fd path_max v ∙ same) f
            (pointers.pread_text_done fd path_max v n h') refl

      by_errno :
          (b : Bool) (e : ℕ)
          → (b ≡ true → text w h ≡ none)
          → Reads h w (if b then sndir_absent else sndir_error (suc e) [], v)
      by_errno true e f = (same, f refl)
      by_errno false e f = (same, tt)

      by_open :
          (r : Opened Fd)
          → (files.open_rdonly h w).0 ≡ r
          → Reads h w (elim r [
            | open_failed e ↦ (if suc e == 2 then sndir_absent else sndir_error (suc e) [], v)
            | fd_opened fd ↦
                (let (q, buf, u) = pread_text fd path_max v in
                  elim q [
                    | failed e ↦ (sndir_error (suc e) [], u)
                    | done n ↦ elim (ends_in_nul buf) [
                      | false ↦ (sndir_error 5 buf, u)
                      | true ↦ (sndir_read buf, (files.close fd u).1)
                    ]
                  ])
          ])
      by_open (open_failed e) o =
          by_errno (suc e == 2) e
            λ b. pointers.open_rdonly_absent h w (o ∙ ap open_failed (ground (arith, b)))
      by_open (fd_opened fd) o =
          by_read fd (pointers.open_rdonly_found h w fd o) (pread_text fd path_max v).0 refl
