-- ===== src/Sig.antt =====
-- `enum sig_type` of Pintos/Added_Signals/signal.h, by its values.
use linux_programming.Prelude.{ℕ}

abbrev pub kill : ℕ
kill = 0

abbrev pub ublock : ℕ
ublock = 1

abbrev pub usr : ℕ
usr = 2

abbrev pub chld : ℕ
chld = 3

abbrev pub cpu : ℕ
cpu = 4
