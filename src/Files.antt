-- ===== src/Files.antt =====
-- The calls of the operating system that open, create and remove files, and those that ESFS makes
-- on whole files: parameters, with the laws on what the files hold.
use esfs.Base.{ℕ, ◌≡◌, ◌≢◌, ◌≤◌, List}
use esfs.Os.{Disk, SameFile, Truncated, Stat, MapHeader, Ret, done, failed, header_size, Os}

-- open: a file handle, or -1 with errno = e + 1.
pub data Opened (Fd : Type 0) : Type 0 where
  fd_opened : Fd → Opened Fd
  open_failed : ℕ → Opened Fd

-- lstat: the attributes of the file, or -1 with errno = e + 1.
pub data Stated : Type 0 where
  stated : Stat → Stated
  lstat_failed : ℕ → Stated

-- The header of a file written, and nothing else.
pub record WroteHeader {File : Type 0} (d d' : Disk File) (f : File) (h : MapHeader) : Type 0 where
  pub at : d'.header f ≡ h
  pub word : (o : ℕ) → header_size ≤ o → d'.word f o ≡ d.word f o
  pub others : (g : File) → g ≢ f → SameFile d d' g

pub record Files (os : Os) : Type 0 where
  -- O_RDONLY; O_RDWR | O_CREAT | O_EXCL | O_NOATIME; O_RDWR; and O_WRONLY | O_CREAT | O_APPEND |
  -- O_NOATIME.
  pub open_rdonly : List ℕ → os.World → Opened os.Fd × os.World
  pub open_new : List ℕ → os.World → Opened os.Fd × os.World
  pub open_rdwr : List ℕ → os.World → Opened os.Fd × os.World
  pub open_append : List ℕ → os.World → Opened os.Fd × os.World
  pub close : os.Fd → os.World → Ret × os.World
  pub lstat : List ℕ → os.World → Stated × os.World
  pub mkdir : List ℕ → os.World → Ret × os.World
  pub unlink : List ℕ → os.World → Ret × os.World
  -- pread and pwrite of a struct $mapheader_t at offset 0.
  pub pread_header : os.Fd → os.World → Ret × MapHeader × os.World
  pub pread_header_full :
      (fd : os.Fd) (w : os.World)
      → (pread_header fd w).0 ≡ done header_size
      → (pread_header fd w).1 ≡ (os.disk w).header (os.file fd)
  pub pwrite_header : os.Fd → MapHeader → os.World → Ret × os.World
  pub pwrite_header_full :
      (fd : os.Fd) (h : MapHeader) (w : os.World)
      → (pwrite_header fd h w).0 ≡ done header_size
      → WroteHeader (os.disk w) (os.disk (pwrite_header fd h w).1) (os.file fd) h
  -- ftruncate: fd, size. One that fails changes nothing.
  pub ftruncate : os.Fd → ℕ → os.World → Ret × os.World
  pub ftruncate_done :
      (fd : os.Fd) (n : ℕ) (w : os.World) (k : ℕ)
      → (ftruncate fd n w).0 ≡ done k
      → Truncated (os.disk w) (os.disk (ftruncate fd n w).1) (os.file fd) n
  pub ftruncate_failed :
      (fd : os.Fd) (n : ℕ) (w : os.World) (e : ℕ)
      → (ftruncate fd n w).0 ≡ failed e
      → os.disk (ftruncate fd n w).1 ≡ os.disk w
