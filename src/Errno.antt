-- ===== src/Errno.antt =====
-- include/errno.h: the error codes that the modelled code returns or exits with.
use yaup.Base.{ℕ, ◌-◌, ◌^◌}

abbrev pub enoent : ℕ
enoent = 2

abbrev pub eintr : ℕ
eintr = 4

abbrev pub e2big : ℕ
e2big = 7

abbrev pub enotdir : ℕ
enotdir = 20

abbrev pub eisdir : ℕ
eisdir = 21

abbrev pub einval : ℕ
einval = 22

abbrev pub enfile : ℕ
enfile = 23

abbrev pub enospc : ℕ
enospc = 28

abbrev pub einprogress : ℕ
einprogress = 35

-- The negative of an error code as an `off_t`, which is unsigned.
abbrev pub neg_off : ℕ → ℕ
neg_off e = 2 ^ 64 - e
