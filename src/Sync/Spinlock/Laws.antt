-- ===== src/Sync/Spinlock/Laws.antt =====
-- A free lock is taken at once, and its holder lets go of it.
use loeux_riscv.Base.{ℕ, some, done, halt, ◌≡◌, arith}
use loeux_riscv.Sync.Spinlock.{Spinlock, init_spinlock, take, drop}

abbrev pub held_by : ℕ → Spinlock
held_by hart = record { val = 1; holder = some hart }

pub take_free : (hart : ℕ) → take hart init_spinlock ≡ done (held_by hart)
unfolding take
take_free hart = ground arith

pub drop_held : (hart : ℕ) → drop hart (held_by hart) ≡ done init_spinlock
unfolding drop
drop_held hart = ground arith

pub take_again : (hart : ℕ) → take hart (held_by hart) ≡ halt
unfolding take
take_again hart = ground arith
