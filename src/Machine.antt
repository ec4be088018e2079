-- ===== src/Machine.antt =====
-- An operating system in memory whose calls always succeed, to run ESFS on concrete input.
pub mod Sample
pub mod Shelf
use Prim.Native.Nat.{min, max}
use esfs.Base.{subst, ℕ, ◌+◌, ◌-◌, ◌≡◌, ◌≢◌, refl, some, ◌&&◌, arith, ltb, leb, ◌==◌, if◌then◌else◌}
use esfs.Files.{Files, Opened, fd_opened, open_failed, Stated, stated, WroteHeader}
use esfs.Os.{
  Stat, MapHeader, Truncated, header_size, done, Disk, SameFile, WroteWord, Appended, Wrote, Os,
  Locks, blp_s,
}

-- The bytes of a file after `n` of the bytes `b` were put at `o`.
abbrev pub put : (ℕ → ℕ) → (ℕ → ℕ) → ℕ → ℕ → ℕ → ℕ
put old b n o i = if leb o i && ltb i (o + n) then b (i - o) else old i

unfoldable pub put_word : Disk ℕ → ℕ → ℕ → ℕ → Disk ℕ
put_word d f v o = record d { word = λ g q. if (g == f) && (q == o) then v else d.word g q }

unfoldable pub put_bytes : Disk ℕ → ℕ → (ℕ → ℕ) → ℕ → ℕ → Disk ℕ
put_bytes d f b n o = record d {
  size = λ g. if g == f then max (d.size f) (o + n) else d.size g;
  byte = λ g i. if g == f then put (d.byte f) b n o i else d.byte g i;
}

pub put_word-WroteWord : (d : Disk ℕ) (f v o : ℕ) → WroteWord d (put_word d f v o) f v o
unfolding put_word
put_word-WroteWord d f v o = record {
  at = ground arith;
  apart = λ q h. ground (arith, h);
  header = λ h. refl;
  others =
      λ g h. record { size = refl; byte = λ i. refl; word = λ q. ground (arith, h); header = refl };
}

put_bytes-others :
    (d : Disk ℕ) (f : ℕ) (b : ℕ → ℕ) (n o g : ℕ) → g ≢ f → SameFile d (put_bytes d f b n o) g
unfolding put_bytes
put_bytes-others d f b n o g h = record {
  size = ground (arith, h);
  byte = λ i. ground (arith, h);
  word = λ q. refl;
  header = refl;
}

pub put_bytes-Appended :
    (d : Disk ℕ) (f : ℕ) (b : ℕ → ℕ) (n : ℕ) → Appended d (put_bytes d f b n (d.size f)) f b n
unfolding put_bytes
put_bytes-Appended d f b n = record {
  size = ground arith;
  old = λ i h. ground (arith, h);
  new = λ i h. ground (arith, h);
  others = put_bytes-others d f b n (d.size f);
}

pub put_bytes-Wrote :
    (d : Disk ℕ) (f : ℕ) (b : ℕ → ℕ) (n o : ℕ) → Wrote d (put_bytes d f b n o) f b n o
unfolding put_bytes
put_bytes-Wrote d f b n o = record {
  grown = ground arith;
  apart = λ i l h. ground (arith, h);
  new = λ i h. ground (arith, h);
  others = put_bytes-others d f b n o;
}

pub done_inj : (n k : ℕ) → done n ≡ done k → n ≡ k
done_inj n k h = cc

abbrev pub machine : Os
machine = record {
  World = Disk ℕ;
  File = ℕ;
  Fd = ℕ;
  file = λ fd. fd;
  disk = λ w. w;
  pread = λ fd n o w. (done (min n (w.size fd - o)), (λ i. w.byte fd (o + i)), w);
  pread_disk = λ fd n o w. refl;
  pread_count = λ fd n o w k h. cc;
  pread_bytes = λ fd n o w k i h l. refl;
  pread_pointer = λ fd o w. (done blp_s, w.word fd o, w);
  pread_pointer_disk = λ fd o w. refl;
  pread_pointer_full = λ fd o w h. refl;
  pread_pointer_eof = λ fd o w h. ground arith;
  pwrite_pointer = λ fd v o w. (done blp_s, put_word w fd v o);
  pwrite_pointer_full = λ fd v o w h. put_word-WroteWord w fd v o;
  pwrite_pointer_short = λ fd v o w k h. (v, put_word-WroteWord w fd v o);
  pwrite_pointer_failed = λ fd v o w e h. cc;
  lseek_end = λ fd w. (done (w.size fd), w);
  lseek_end_disk = λ fd w. refl;
  lseek_end_size = λ fd w n h. cc;
  append = λ fd b n w. (done n, put_bytes w fd b n (w.size fd));
  append_done = λ fd b n w k h.
      subst (λ m. Appended w (put_bytes w fd b n (w.size fd)) fd b m) (done_inj n k h)
        (put_bytes-Appended w fd b n);
  append_failed = λ fd b n w e h. cc;
  pwrite = λ fd b n o w. (done n, put_bytes w fd b n o);
  pwrite_done = λ fd b n o w k h. (
    omega (arith, done_inj n k h),
    subst (λ m. Wrote w (put_bytes w fd b n o) fd b m o) (done_inj n k h)
        (put_bytes-Wrote w fd b n o),
  );
  pwrite_failed = λ fd b n o w e h. cc;
  malloc = λ w. (some (λ i. 0), w);
  malloc_disk = λ w. refl;
}

abbrev pub machine_locks : Locks machine
machine_locks = record {
  lock = λ label w. (done 0, w);
  lock_disk = λ label w. refl;
  unlock = λ id w. (done 0, w);
  unlock_disk = λ id w. refl;
}

unfoldable pub put_header : Disk ℕ → ℕ → MapHeader → Disk ℕ
put_header d f h = record d { header = λ g. if g == f then h else d.header g }

pub put_header-WroteHeader :
    (d : Disk ℕ) (f : ℕ) (h : MapHeader) → WroteHeader d (put_header d f h) f h
unfolding put_header
put_header-WroteHeader d f h = record {
  at = ground arith;
  word = λ o l. refl;
  others =
      λ g e. record { size = refl; byte = λ i. refl; word = λ o. refl; header = ground (arith, e) };
}

unfoldable pub cut_bytes : Disk ℕ → ℕ → ℕ → Disk ℕ
cut_bytes d f n = record d {
  size = λ g. if g == f then n else d.size g;
  byte = λ g i. if (g == f) && leb (d.size f) i then 0 else d.byte g i;
}

pub cut_bytes-Truncated : (d : Disk ℕ) (f n : ℕ) → Truncated d (cut_bytes d f n) f n
unfolding cut_bytes
cut_bytes-Truncated d f n = record {
  size = ground arith;
  below = λ i a b. ground (arith, a, b);
  others = λ g e. record {
    size = ground (arith, e);
    byte = λ i. ground (arith, e);
    word = λ o. refl;
    header = refl;
  };
}

-- Every map file is there and is file 1, every dat file is file 2.
abbrev pub machine_files : Files machine
machine_files = record {
  open_new = λ path w. (open_failed 16, w);
  open_rdwr = λ path w. (fd_opened 1, w);
  open_rdonly = λ path w. (fd_opened 0, w);
  open_append = λ path w. (fd_opened 2, w);
  close = λ fd w. (done 0, w);
  lstat = λ path w. (stated (record { st_mode = 16877; st_uid = 0; st_size = 4096 }), w);
  mkdir = λ path w. (done 0, w);
  unlink = λ path w. (done 0, w);
  pread_header = λ fd w. (done header_size, w.header fd, w);
  pread_header_full = λ fd w e. refl;
  pwrite_header = λ fd h w. (done header_size, put_header w fd h);
  pwrite_header_full = λ fd h w e. put_header-WroteHeader w fd h;
  ftruncate = λ fd n w. (done 0, cut_bytes w fd n);
  ftruncate_done = λ fd n w k e. cut_bytes-Truncated w fd n;
  ftruncate_failed = λ fd n w k e. cc;
}
