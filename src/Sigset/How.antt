-- ===== src/Sigset/How.antt =====
-- `enum procmask_how` of signal.h.
use linux_programming.Prelude.{ℕ}

abbrev pub block : ℕ
block = 0

abbrev pub unblock : ℕ
unblock = 1

abbrev pub setmask : ℕ
setmask = 2
