-- ===== src/Snapshots/Pointers.antt =====
-- Pointer files: $read_sndir_from_file of util.c, $sn_get_latest and $sn_set_latest of snapshot.c.
use esfs.Base.{
  ℕ, suc, ◌+◌, ◌-◌, Bool, true, false, Option, none, some, List, [], ◌∷◌, ◌++◌, length, take, drop,
  ◌==◌, if◌then◌else◌, ◌≡◌, ◌≢◌,
}
use esfs.Os.{Os, Ret, done, failed}
use esfs.Files.{Files, Opened, fd_opened, open_failed}
use esfs.Types.{Result, ret, err}
use esfs.Types.Errno.{enoent, eio, enametoolong}
use esfs.Paths.Build.{path_max, get_dir_hid_path}
use esfs.Handle.Open.{Fsdata}

-- What the files at each path hold: `none` where there is no file.
abbrev pub Texts : Type 0
Texts = List ℕ → Option (List ℕ)

-- One file was written or removed.
pub record SetText (t t' : Texts) (path : List ℕ) (s : Option (List ℕ)) : Type 0 where
  pub at : t' path ≡ s
  pub others : (q : List ℕ) → q ≢ path → t' q ≡ t q

-- Reading and writing small files as a whole, with the documented behaviour of the calls: what
-- stands at each path (`text`), at which path a handle was opened (`place`), and what it reads
-- (`content`).
pub record PointerFiles (os : Os) (files : Files os) : Type 0 where
  pub text : os.World → Texts
  pub place : os.Fd → os.World → List ℕ
  pub content : os.Fd → os.World → List ℕ
  pub open_rdonly_same : (p : List ℕ) (w : os.World) → text (files.open_rdonly p w).1 ≡ text w
  pub open_rdonly_found :
      (p : List ℕ) (w : os.World) (fd : os.Fd)
      → (files.open_rdonly p w).0 ≡ fd_opened fd
      → text w p ≡ some (content fd (files.open_rdonly p w).1)
  pub open_rdonly_absent :
      (p : List ℕ) (w : os.World) → (files.open_rdonly p w).0 ≡ open_failed 1 → text w p ≡ none
  pub close_same : (fd : os.Fd) (w : os.World) → text (files.close fd w).1 ≡ text w
  pub malloc_same : (w : os.World) → text (os.malloc w).1 ≡ text w
  -- pread of a count of bytes at offset 0, with the bytes read.
  pub pread_text : os.Fd → ℕ → os.World → Ret × List ℕ × os.World
  pub pread_text_same : (fd : os.Fd) (n : ℕ) (w : os.World) → text (pread_text fd n w).2 ≡ text w
  pub pread_text_done :
      (fd : os.Fd) (n : ℕ) (w : os.World) (k : ℕ)
      → (pread_text fd n w).0 ≡ done k
      → (pread_text fd n w).1 ≡ take n (content fd w)
  -- O_WRONLY | O_CREAT | O_TRUNC.
  pub open_trunc : List ℕ → os.World → Opened os.Fd × os.World
  pub open_trunc_done :
      (p : List ℕ) (w : os.World) (fd : os.Fd)
      → (open_trunc p w).0 ≡ fd_opened fd
      → (place fd (open_trunc p w).1 ≡ p) × SetText (text w) (text (open_trunc p w).1) p (some [])
  pub open_trunc_failed :
      (p : List ℕ) (w : os.World) (e : ℕ)
      → (open_trunc p w).0 ≡ open_failed e
      → text (open_trunc p w).1 ≡ text w
  -- O_WRONLY | O_CREAT | O_EXCL.
  pub open_fresh : List ℕ → os.World → Opened os.Fd × os.World
  pub open_fresh_done :
      (p : List ℕ) (w : os.World) (fd : os.Fd)
      → (open_fresh p w).0 ≡ fd_opened fd
      → (text w p ≡ none)
        × (place fd (open_fresh p w).1 ≡ p)
        × SetText (text w) (text (open_fresh p w).1) p (some [])
  -- pwrite of bytes at offset 0, into a file that is empty.
  pub pwrite_text : os.Fd → List ℕ → os.World → Ret × os.World
  pub pwrite_text_done :
      (fd : os.Fd) (s : List ℕ) (w : os.World) (k : ℕ)
      → (pwrite_text fd s w).0 ≡ done k
      → text w (place fd w) ≡ some []
      → SetText (text w) (text (pwrite_text fd s w).1) (place fd w) (some (take k s))

-- The C string at the front of a buffer.
unfoldable pub c_string : List ℕ → List ℕ
c_string [] = []
c_string (c ∷ s) = if c == 0 then [] else c ∷ c_string s

-- buf[ret - 1] == '\0', for a read of at least one byte.
unfoldable pub ends_in_nul : List ℕ → Bool
ends_in_nul [] = false
ends_in_nul (c ∷ []) = c == 0
ends_in_nul (c ∷ d ∷ s) = ends_in_nul (d ∷ s)

-- The ends of $read_sndir_from_file: a path with the positive length returned; 0, because there is
-- no file or because its text is a NUL alone, which `buf` then holds; or -errno, with the bytes that
-- were read into `buf` before.
pub data Sndir : Type 0 where
  sndir_found : List ℕ → ℕ → Sndir
  sndir_absent sndir_empty : Sndir
  sndir_error : ℕ → List ℕ → Sndir

-- return (ret - 1);
unfoldable pub sndir_read : List ℕ → Sndir
unfolding c_string
sndir_read buf =
    if length buf == 1 then sndir_empty else sndir_found (c_string buf) (length buf - 1)

-- The C string of a buffer that held `old`, its NUL and `rest`, after `bytes` were read into it.
unfoldable pub read_over : List ℕ → List ℕ → List ℕ → List ℕ
unfolding c_string
read_over [] old rest = old
read_over (c ∷ bytes) old rest =
    c_string ((c ∷ bytes) ++ drop (length (c ∷ bytes)) (old ++ (0 ∷ rest)))

module _ (os : Os) (files : Files os) (pointers : PointerFiles os files) where
  open os use {World, Fd}

  unfoldable pub read_sndir_from_file : List ℕ → World → Sndir × World
  unfolding sndir_read ends_in_nul
  read_sndir_from_file filepath w =
      let (r, v) = files.open_rdonly filepath w in
      elim r [
        | open_failed e ↦ (if suc e == enoent then sndir_absent else sndir_error (suc e) [], v)
        | fd_opened fd ↦
            (let (q, buf, u) = pointers.pread_text fd path_max v in
              elim q [
                | failed e ↦ (sndir_error (suc e) [], u)
                | done n ↦ elim (ends_in_nul buf) [
                  | false ↦ (sndir_error eio buf, u)
                  | true ↦ (sndir_read buf, (files.close fd u).1)
                ]
              ])
      ]

  -- $read_sndir_from_file reads into sn_lat_dir; `rest` are the bytes behind the path in it before.
  unfoldable pub sn_get_latest : Fsdata → List ℕ → World → Result × Fsdata × World
  unfolding read_sndir_from_file read_over
  sn_get_latest fs rest w = elim (get_dir_hid_path fs.sn_dir) [
    | none ↦ (err enametoolong, fs, w)
    | some path ↦
        (let (r, v) = read_sndir_from_file path w in
          elim r [
            | sndir_absent ↦ (ret 0, record fs { sn_is_any = 0 }, v)
            | sndir_empty ↦ (ret 0, record fs { sn_is_any = 0; sn_lat_dir = [] }, v)
            | sndir_error e bytes ↦
                (err e, record fs { sn_lat_dir = read_over bytes fs.sn_lat_dir rest }, v)
            | sndir_found latest len ↦
                (ret 0, record fs { sn_is_any = 1; sn_lat_dir = latest; sn_lat_dir_len = len }, v)
          ])
  ]

  -- The file is not closed where the write fails.
  unfoldable pub sn_set_latest : Fsdata → List ℕ → World → Result × Fsdata × World
  sn_set_latest fs newpath w = elim (get_dir_hid_path fs.sn_dir) [
    | none ↦ (err enametoolong, fs, w)
    | some path ↦
        (let (r, v) = pointers.open_trunc path w in
          elim r [
            | open_failed e ↦ (err (suc e), fs, v)
            | fd_opened fd ↦
                (let (q, u) = pointers.pwrite_text fd (newpath ++ (0 ∷ [])) v in
                  elim q [
                    | failed e ↦ (err (suc e), fs, u)
                    | done n ↦ elim (n == length newpath + 1) [
                      | false ↦ (err eio, fs, u)
                      | true ↦ (
                        ret 0,
                        record fs {
                          sn_lat_dir = newpath;
                          sn_lat_dir_len = length newpath;
                          sn_is_any = 1;
                          sn_number = fs.sn_number + 1;
                        },
                        (files.close fd u).1,
                      )
                    ]
                  ])
          ])
  ]
