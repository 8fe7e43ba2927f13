-- ===== src/Sync/Spinlock/Exclusion.antt =====
-- At most one of the harts that take the steps of Steps has the spinlock.
use loeux_riscv.Base.{ℕ, true, ◌≡◌, ◌≢◌}
use loeux_riscv.Sync.Spinlock.{Spinlock, is_holding}
use loeux_riscv.Sync.Spinlock.Steps.{Place, is_critical, is_owner}

record IsConsistent (lock : Spinlock) (place : ℕ → Place) : Type 0 where
  taken : (a : ℕ) → is_critical (place a) ≡ true → lock.val ≢ 0
  alone : (a b : ℕ) → is_critical (place a) ≡ true → is_critical (place b) ≡ true → a ≡ b
  owner : (a : ℕ) → is_holding a lock ≡ is_owner (place a)
