-- ===== src/Nbd/Errno.antt =====
-- The error codes of include/lwnbd/nbd-protocol.h: NBD_SUCCESS and NBD_E*.
use lw_nbd.Prelude.{ℕ}

abbrev pub success : ℕ
success = 0

abbrev pub perm : ℕ
perm = 1

abbrev pub io : ℕ
io = 5

abbrev pub inval : ℕ
inval = 22

abbrev pub nospc : ℕ
nospc = 28

abbrev pub overflow : ℕ
overflow = 75
