-- ===== src/Os.antt =====
-- What ESFS uses of the operating system (pread, pwrite, write, lseek, ftruncate, malloc): the calls
-- are parameters, with the documented behaviour of regular files as laws. A `World` is the state of
-- the system; `disk` is what its files hold. A file is seen in three ways, for the three uses that
-- ESFS makes of files: as bytes (main and dat files), as off_t values at byte offsets and as a
-- header at offset 0 (map files).
use esfs.Base.{ℕ, ◌+◌, ◌-◌, ◌≤◌, ◌<◌, ◌≡◌, ◌≢◌, ◌⊎◌, Option, List}
use Prim.Native.Nat.{min}

-- The parts of struct stat that ESFS reads.
pub record Stat : Type 0 where
  pub st_mode : ℕ
  pub st_uid : ℕ
  pub st_size : ℕ

-- struct $mapheader_t of types.h.
pub record MapHeader : Type 0 where
  pub version : ℕ
  pub exists : ℕ
  pub fstat : Stat
  pub signature : List ℕ

-- The value of a call: a count, or -1. errno is positive: `failed e` stands for errno = e + 1.
pub data Ret : Type 0 where
  done : ℕ → Ret
  failed : ℕ → Ret

-- sizeof(struct $mapheader_t) and $$BLP_S = sizeof(off_t), on a 64-bit Linux.
abbrev pub header_size : ℕ
header_size = 160

abbrev pub blp_s : ℕ
blp_s = 8

pub record Disk (File : Type 0) : Type 0 where
  pub size : File → ℕ
  pub byte : File → ℕ → ℕ
  -- The off_t whose bytes stand at an offset; bytes past the end count as 0.
  pub word : File → ℕ → ℕ
  pub header : File → MapHeader

module _ {File : Type 0} where
  -- Nothing of the file `f` differs.
  pub record SameFile (d d' : Disk File) (f : File) : Type 0 where
    pub size : d'.size f ≡ d.size f
    pub byte : (i : ℕ) → d'.byte f i ≡ d.byte f i
    pub word : (o : ℕ) → d'.word f o ≡ d.word f o
    pub header : d'.header f ≡ d.header f

  pub record WroteWord (d d' : Disk File) (f : File) (v o : ℕ) : Type 0 where
    pub at : d'.word f o ≡ v
    pub apart : (q : ℕ) → (q + blp_s ≤ o) ⊎ (o + blp_s ≤ q) → d'.word f q ≡ d.word f q
    pub header : header_size ≤ o → d'.header f ≡ d.header f
    pub others : (g : File) → g ≢ f → SameFile d d' g

  -- `n` of the bytes `b` appended to `f`.
  pub record Appended (d d' : Disk File) (f : File) (b : ℕ → ℕ) (n : ℕ) : Type 0 where
    pub size : d'.size f ≡ d.size f + n
    pub old : (i : ℕ) → i < d.size f → d'.byte f i ≡ d.byte f i
    pub new : (i : ℕ) → i < n → d'.byte f (d.size f + i) ≡ b i
    pub others : (g : File) → g ≢ f → SameFile d d' g

  -- `n` of the bytes `b` written into `f` at `o`.
  pub record Wrote (d d' : Disk File) (f : File) (b : ℕ → ℕ) (n o : ℕ) : Type 0 where
    pub grown : d.size f ≤ d'.size f
    pub apart : (i : ℕ) → i < d.size f → (i < o) ⊎ (o + n ≤ i) → d'.byte f i ≡ d.byte f i
    pub new : (i : ℕ) → i < n → d'.byte f (o + i) ≡ b i
    pub others : (g : File) → g ≢ f → SameFile d d' g

  pub record Truncated (d d' : Disk File) (f : File) (n : ℕ) : Type 0 where
    pub size : d'.size f ≡ n
    pub below : (i : ℕ) → i < n → i < d.size f → d'.byte f i ≡ d.byte f i
    pub others : (g : File) → g ≢ f → SameFile d d' g

pub record Os : Type 1 where
  pub World : Type 0
  pub File : Type 0
  -- An open file. Two of them may stand for one file.
  pub Fd : Type 0
  pub file : Fd → File
  pub disk : World → Disk File
  -- fd, count, offset; the bytes read are those below the count returned.
  pub pread : Fd → ℕ → ℕ → World → Ret × (ℕ → ℕ) × World
  pub pread_disk : (fd : Fd) (n o : ℕ) (w : World) → disk (pread fd n o w).2 ≡ disk w
  -- A read of a regular file that does not fail reads all there is, up to the count.
  pub pread_count :
      (fd : Fd) (n o : ℕ) (w : World) (k : ℕ)
      → (pread fd n o w).0 ≡ done k
      → k ≡ min n ((disk w).size (file fd) - o)
  pub pread_bytes :
      (fd : Fd) (n o : ℕ) (w : World) (k i : ℕ)
      → (pread fd n o w).0 ≡ done k
      → i < k
      → (pread fd n o w).1 i ≡ (disk w).byte (file fd) (o + i)
  -- pread of one off_t at an offset, with the value read.
  pub pread_pointer : Fd → ℕ → World → Ret × ℕ × World
  pub pread_pointer_disk : (fd : Fd) (o : ℕ) (w : World) → disk (pread_pointer fd o w).2 ≡ disk w
  pub pread_pointer_full :
      (fd : Fd) (o : ℕ) (w : World)
      → (pread_pointer fd o w).0 ≡ done blp_s
      → (pread_pointer fd o w).1 ≡ (disk w).word (file fd) o
  pub pread_pointer_eof :
      (fd : Fd) (o : ℕ) (w : World)
      → (pread_pointer fd o w).0 ≡ done 0
      → (disk w).word (file fd) o ≡ 0
  -- pwrite of one off_t, fd, value, offset. One that writes a part of it leaves some other value.
  pub pwrite_pointer : Fd → ℕ → ℕ → World → Ret × World
  pub pwrite_pointer_full :
      (fd : Fd) (v o : ℕ) (w : World)
      → (pwrite_pointer fd v o w).0 ≡ done blp_s
      → WroteWord (disk w) (disk (pwrite_pointer fd v o w).1) (file fd) v o
  pub pwrite_pointer_short :
      (fd : Fd) (v o : ℕ) (w : World) (k : ℕ)
      → (pwrite_pointer fd v o w).0 ≡ done k
      → (x : ℕ) × WroteWord (disk w) (disk (pwrite_pointer fd v o w).1) (file fd) x o
  pub pwrite_pointer_failed :
      (fd : Fd) (v o : ℕ) (w : World) (e : ℕ)
      → (pwrite_pointer fd v o w).0 ≡ failed e
      → disk (pwrite_pointer fd v o w).1 ≡ disk w
  -- lseek(fd, 0, SEEK_END).
  pub lseek_end : Fd → World → Ret × World
  pub lseek_end_disk : (fd : Fd) (w : World) → disk (lseek_end fd w).1 ≡ disk w
  pub lseek_end_size :
      (fd : Fd) (w : World) (n : ℕ) → (lseek_end fd w).0 ≡ done n → n ≡ (disk w).size (file fd)
  -- write to a file opened with O_APPEND, fd, bytes, count.
  pub append : Fd → (ℕ → ℕ) → ℕ → World → Ret × World
  pub append_done :
      (fd : Fd) (b : ℕ → ℕ) (n : ℕ) (w : World) (k : ℕ)
      → (append fd b n w).0 ≡ done k
      → Appended (disk w) (disk (append fd b n w).1) (file fd) b k
  pub append_failed :
      (fd : Fd) (b : ℕ → ℕ) (n : ℕ) (w : World) (e : ℕ)
      → (append fd b n w).0 ≡ failed e
      → disk (append fd b n w).1 ≡ disk w
  -- pwrite of bytes, fd, bytes, count, offset.
  pub pwrite : Fd → (ℕ → ℕ) → ℕ → ℕ → World → Ret × World
  pub pwrite_done :
      (fd : Fd) (b : ℕ → ℕ) (n o : ℕ) (w : World) (k : ℕ)
      → (pwrite fd b n o w).0 ≡ done k
      → (k ≤ n) × Wrote (disk w) (disk (pwrite fd b n o w).1) (file fd) b k o
  pub pwrite_failed :
      (fd : Fd) (b : ℕ → ℕ) (n o : ℕ) (w : World) (e : ℕ)
      → (pwrite fd b n o w).0 ≡ failed e
      → disk (pwrite fd b n o w).1 ≡ disk w
  -- malloc of a buffer, whose bytes are not determined.
  pub malloc : World → Option (ℕ → ℕ) × World
  pub malloc_disk : (w : World) → disk (malloc w).1 ≡ disk w

-- The file locks of mflock.c, as the block layer uses them: $mflock_lock returns a lock number or
-- -errno, $mflock_unlock 0 or -errno. A request runs alone between its calls.
pub record Locks (os : Os) : Type 0 where
  pub lock : ℕ → os.World → Ret × os.World
  pub lock_disk : (label : ℕ) (w : os.World) → os.disk (lock label w).1 ≡ os.disk w
  pub unlock : ℕ → os.World → Ret × os.World
  pub unlock_disk : (id : ℕ) (w : os.World) → os.disk (unlock id w).1 ≡ os.disk w
