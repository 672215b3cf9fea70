-- ===== src/Libc.antt =====
-- Constants of the Linux x86-64 ABI that the sources take from the `libc` crate.
use sandbox_vfs.Base.{ℕ, ℤ, negsuc}

abbrev pub f_ok : ℕ
f_ok = 0

abbrev pub o_wronly : ℕ
o_wronly = 1

abbrev pub o_rdwr : ℕ
o_rdwr = 2

abbrev pub o_creat : ℕ
o_creat = 0o100

abbrev pub o_excl : ℕ
o_excl = 0o200

abbrev pub o_trunc : ℕ
o_trunc = 0o1000

abbrev pub o_append : ℕ
o_append = 0o2000

abbrev pub o_directory : ℕ
o_directory = 0o200000

abbrev pub o_nofollow : ℕ
o_nofollow = 0o400000

abbrev pub s_ifreg : ℕ
s_ifreg = 0o100000

abbrev pub s_ifdir : ℕ
s_ifdir = 0o040000

-- -100
abbrev pub at_fdcwd : ℤ
at_fdcwd = negsuc 99

abbrev pub at_removedir : ℕ
at_removedir = 0x200

abbrev pub dt_dir : ℕ
dt_dir = 4

abbrev pub dt_reg : ℕ
dt_reg = 8

-- __O_TMPFILE | O_DIRECTORY
abbrev pub o_tmpfile : ℕ
o_tmpfile = 0o20200000

-- The commands of `fcntl`.
abbrev pub f_dupfd : ℕ
f_dupfd = 0

abbrev pub f_getfd : ℕ
f_getfd = 1

abbrev pub f_getfl : ℕ
f_getfl = 3

abbrev pub f_getlk : ℕ
f_getlk = 5

abbrev pub f_setlk : ℕ
f_setlk = 6

abbrev pub f_setlkw : ℕ
f_setlkw = 7

abbrev pub f_getown : ℕ
f_getown = 9

abbrev pub f_ofd_getlk : ℕ
f_ofd_getlk = 36

abbrev pub f_ofd_setlk : ℕ
f_ofd_setlk = 37

abbrev pub f_ofd_setlkw : ℕ
f_ofd_setlkw = 38

abbrev pub f_getlease : ℕ
f_getlease = 1025

abbrev pub f_dupfd_cloexec : ℕ
f_dupfd_cloexec = 1030

abbrev pub f_getpipe_sz : ℕ
f_getpipe_sz = 1032

abbrev pub f_get_seals : ℕ
f_get_seals = 1034
