-- ===== src/Machine/Shelf.antt =====
-- An operating system whose files are texts at paths, to run the snapshots on: every call on a whole
-- file succeeds, and no call on a part of one does.
use esfs.Base.{
  ℕ, ◌≡◌, refl, sym, ◌∙◌, ap, subst, Option, none, some, List, [], length, take, take_all, arith,
  str_eq, str_eq_refl, eq_of_str_eq, if◌then◌else◌,
}
use esfs.Os.{header_size, Os, Locks, Disk, done, failed}
use esfs.Files.{Files, fd_opened, open_failed, lstat_failed, Opened}
use esfs.Machine.{done_inj}
use esfs.Machine.Sample.{header}
use esfs.Snapshots.Pointers.{Texts, SetText, PointerFiles}
use esfs.Snapshots.Manage.{Trees}
use esfs.Steps.Calls.{Dirs}
use esfs.Dentries.Spaces.{PathCalls}

unfoldable pub set_text : Texts → List ℕ → Option (List ℕ) → Texts
set_text t p s q = if str_eq q p then s else t q

pub set_text-SetText :
    (t : Texts) (p : List ℕ) (s : Option (List ℕ)) → SetText t (set_text t p s) p s
unfolding set_text
set_text-SetText t p s = record {
  at = ground (arith, str_eq_refl p);
  others = λ q d. ground (arith, d, eq_of_str_eq q p);
}

abbrev disk : Disk Unit
disk = record { size = λ f. 0; byte = λ f i. 0; word = λ f o. 0; header = λ f. header }

abbrev pub shelf : Os
shelf = record {
  World = Texts;
  File = Unit;
  Fd = List ℕ;
  file = λ fd. tt;
  disk = λ w. disk;
  pread = λ fd n o w. (failed 4, (λ i. 0), w);
  pread_disk = λ fd n o w. refl;
  pread_count = λ fd n o w k h. absurd cc;
  pread_bytes = λ fd n o w k i h l. absurd cc;
  pread_pointer = λ fd o w. (failed 4, 0, w);
  pread_pointer_disk = λ fd o w. refl;
  pread_pointer_full = λ fd o w h. refl;
  pread_pointer_eof = λ fd o w h. refl;
  pwrite_pointer = λ fd v o w. (failed 4, w);
  pwrite_pointer_full = λ fd v o w h. absurd cc;
  pwrite_pointer_short = λ fd v o w k h. absurd cc;
  pwrite_pointer_failed = λ fd v o w e h. refl;
  lseek_end = λ fd w. (failed 4, w);
  lseek_end_disk = λ fd w. refl;
  lseek_end_size = λ fd w n h. absurd cc;
  append = λ fd b n w. (failed 4, w);
  append_done = λ fd b n w k h. absurd cc;
  append_failed = λ fd b n w e h. refl;
  pwrite = λ fd b n o w. (failed 4, w);
  pwrite_done = λ fd b n o w k h. absurd cc;
  pwrite_failed = λ fd b n o w e h. refl;
  malloc = λ w. (some (λ i. 0), w);
  malloc_disk = λ w. refl;
}

abbrev pub shelf_locks : Locks shelf
shelf_locks = record {
  lock = λ label w. (done 0, w);
  lock_disk = λ label w. refl;
  unlock = λ id w. (done 0, w);
  unlock_disk = λ id w. refl;
}

abbrev pub open_text : List ℕ → Texts → Opened (List ℕ) × Texts
open_text p w = (elim (w p) [ none ↦ open_failed 1 | some s ↦ fd_opened p ], w)

abbrev pub shelf_files : Files shelf
shelf_files = record {
  open_new = λ path w. (open_failed 16, w);
  open_rdwr = λ path w. (open_failed 16, w);
  open_rdonly = open_text;
  open_append = λ path w. (open_failed 16, w);
  close = λ fd w. (done 0, w);
  lstat = λ path w. (lstat_failed 1, w);
  mkdir = λ path w. (done 0, w);
  unlink = λ path w. (done 0, set_text w path none);
  pread_header = λ fd w. (done header_size, header, w);
  pread_header_full = λ fd w e. refl;
  pwrite_header = λ fd h w. (failed 4, w);
  pwrite_header_full = λ fd h w e. absurd cc;
  ftruncate = λ fd n w. (failed 4, w);
  ftruncate_done = λ fd n w k e. absurd cc;
  ftruncate_failed = λ fd n w k e. refl;
}

abbrev pub text_of : Option (List ℕ) → List ℕ
text_of none = []
text_of (some s) = s

pub open_text-found :
    (p : List ℕ) (w : Texts) (fd : List ℕ)
    → (open_text p w).0 ≡ fd_opened fd
    → w p ≡ some (text_of ((open_text p w).1 fd))
open_text-found p w fd h = by_text (w p) refl h
  where
    opened_inj : fd_opened p ≡ fd_opened fd → p ≡ fd
    opened_inj h = cc

    by_text :
        (o : Option (List ℕ))
        → w p ≡ o
        → ◌≡◌ {A = Opened (List ℕ)}
            (elim o [ none ↦ open_failed 1 | some s ↦ fd_opened p ])
            (fd_opened fd)
        → w p ≡ some (text_of (w fd))
    by_text none e h = absurd cc
    by_text (some s) e h = e ∙ ap some (sym (ap text_of (ap w (sym (opened_inj h)) ∙ e)))

pub open_text-absent : (p : List ℕ) (w : Texts) → (open_text p w).0 ≡ open_failed 1 → w p ≡ none
open_text-absent p w h = by_text (w p) refl h
  where
    by_text :
        (o : Option (List ℕ))
        → w p ≡ o
        → ◌≡◌ {A = Opened (List ℕ)}
            (elim o [ none ↦ open_failed 1 | some s ↦ fd_opened p ])
            (open_failed 1)
        → w p ≡ none
    by_text none e h = e
    by_text (some s) e h = absurd cc

abbrev pub open_fresh_text : List ℕ → Texts → Opened (List ℕ) × Texts
open_fresh_text p w = elim (w p) [
  | none ↦ (fd_opened p, set_text w p (some []))
  | some s ↦ (open_failed 16, w)
]

pub open_fresh_text-done :
    (p : List ℕ) (w : Texts) (fd : List ℕ)
    → (open_fresh_text p w).0 ≡ fd_opened fd
    → (w p ≡ none) × (fd ≡ p) × SetText w (open_fresh_text p w).1 p (some [])
open_fresh_text-done p w fd h = by_text (w p) refl h
  where
    by_text :
        (o : Option (List ℕ))
        → w p ≡ o
        → let out : Opened (List ℕ) × Texts = elim o [
          | none ↦ (fd_opened p, set_text w p (some []))
          | some s ↦ (open_failed 16, w)
        ] in
          out.0 ≡ fd_opened fd → (w p ≡ none) × (fd ≡ p) × SetText w out.1 p (some [])
    by_text none e h = (e, cc, set_text-SetText w p (some []))
    by_text (some s) e h = absurd cc

abbrev pub shelf_pointers : PointerFiles shelf shelf_files
shelf_pointers = record {
  text = λ w. w;
  place = λ fd w. fd;
  content = λ fd w. text_of (w fd);
  open_rdonly_same = λ p w. refl;
  open_rdonly_found = open_text-found;
  open_rdonly_absent = open_text-absent;
  close_same = λ fd w. refl;
  malloc_same = λ w. refl;
  pread_text = λ fd n w. (done (length (take n (text_of (w fd)))), take n (text_of (w fd)), w);
  pread_text_same = λ fd n w. refl;
  pread_text_done = λ fd n w k h. refl;
  open_trunc = λ p w. (fd_opened p, set_text w p (some []));
  open_trunc_done = λ p w fd h. (cc, set_text-SetText w p (some []));
  open_trunc_failed = λ p w e h. absurd cc;
  open_fresh = open_fresh_text;
  open_fresh_done = open_fresh_text-done;
  pwrite_text = λ fd s w. (done (length s), set_text w fd (some s));
  pwrite_text_done = λ fd s w k h e.
      subst (λ n. SetText w (set_text w fd (some s)) fd (some (take n s))) (done_inj (length s) k h)
        (subst (λ x. SetText w (set_text w fd (some s)) fd (some x)) (sym (take_all s))
          (set_text-SetText w fd (some s)));
}

-- A tree holds no pointer files.
abbrev pub shelf_trees : Trees shelf shelf_locks shelf_files shelf_pointers
shelf_trees = record {
  rmdir = λ p w. (done 0, w);
  nftw_rm = λ p w. (done 0, w);
  mkdir_same = λ p w. refl;
  rmdir_same = λ p w. refl;
  unlink_done = λ p w n h. set_text-SetText w p none;
  nftw_rm_spared = λ p q w u. refl;
  nftw_rm_no_new = λ p q w h. h;
  lock_same = λ label w. refl;
  unlock_same = λ id w. refl;
}

abbrev pub shelf_calls : PathCalls shelf
shelf_calls = record {
  mkdir = λ p mode w. (done 0, w);
  chmod = λ p mode w. (done 0, w);
  chown = λ p uid gid w. (done 0, w);
  truncate = λ p n w. (done 0, w);
  open_path = λ p flags w. open_text p w;
  open_creat = λ p flags mode w. (fd_opened p, set_text w p (some []));
  access = λ p mask w. (done 0, w);
  getuid = λ w. 0;
  utimensat = λ p tv w. (done 0, w);
}

abbrev pub shelf_dirs : Dirs shelf
shelf_dirs = record { opendir = open_text; closedir = λ d w. (done 0, w) }
