-- ===== src/Types/Errno.antt =====
-- Values of errno, from the C library's errno.h on Linux.
use esfs.Base.{ℕ}

abbrev pub enoent : ℕ
enoent = 2

abbrev pub eio : ℕ
eio = 5

abbrev pub enxio : ℕ
enxio = 6

abbrev pub ebadf : ℕ
ebadf = 9

abbrev pub enomem : ℕ
enomem = 12

abbrev pub enotdir : ℕ
enotdir = 20

abbrev pub eacces : ℕ
eacces = 13

abbrev pub efault : ℕ
efault = 14

abbrev pub eexist : ℕ
eexist = 17

abbrev pub eisdir : ℕ
eisdir = 21

abbrev pub enametoolong : ℕ
enametoolong = 36

abbrev pub ebade : ℕ
ebade = 52

abbrev pub eremchg : ℕ
eremchg = 78

abbrev pub enotsup : ℕ
enotsup = 95
