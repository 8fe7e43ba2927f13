-- ===== src/Tests/Locks.antt =====
-- The spinlock at two harts.
use loeux_riscv.Base.{true, false, Returns, arith}
use loeux_riscv.Sync.Spinlock.Steps.{System, outside, trying, entered, inside, put}
use loeux_riscv.Sync.Spinlock.Interrupts.{Critical, acquire-Critical}
use loeux_riscv.Sync.Spinlock.Laws.{held_by}
use loeux_riscv.Sync.Spinlock.{Cpu, init_spinlock, acquire}

-- The hart 1 takes the lock, and the hart 2 tries in vain.
abbrev one_inside : System
one_inside = record {
  lock = held_by 1;
  place = put (put (put (put (λ h. outside) 1 trying) 1 entered) 1 inside) 2 trying;
}

abbrev running : Cpu
running = record { id = 2; noff = 0; intena = false; intr = true }

acquire-Critical_example : Returns (acquire running init_spinlock) (Critical running)
acquire-Critical_example = acquire-Critical running (λ h. absurd (omega arith))
