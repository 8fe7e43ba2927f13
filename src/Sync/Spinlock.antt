-- ===== src/Sync/Spinlock.antt =====
-- The spinlock of kernel/spinlock.c. A hart is named by its index; the holder that the code keeps
-- as a pointer to `struct cpu` is such an index, and the null pointer is `none`.
pub mod Laws
pub mod Steps
pub mod Exclusion
pub mod Interrupts
use loeux_riscv.Base.{
  ℕ, ◌+◌, ◌-◌, Bool, true, false, ◌&&◌, Option, none, some, Outcome, done, halt, spin, ◌>>=◌, ◌==◌,
  ltb, if◌then◌else◌,
}

pub record Spinlock : Type 0 where
  pub val : ℕ
  pub holder : Option ℕ

abbrev pub init_spinlock : Spinlock
init_spinlock = record { val = 0; holder = none }

unfoldable pub is_holding : ℕ → Spinlock → Bool
is_holding hart lk = elim lk.holder [ none ↦ false | some h ↦ h == hart ]

-- The check of `acquire`: the hart that holds the lock panics.
unfoldable pub acquire_check : ℕ → Spinlock → Outcome Spinlock
unfolding is_holding
acquire_check hart lk = if is_holding hart lk then halt else done lk

-- `__atomic_exchange_n(&lk->val, 1)`, and whether it read 0.
unfoldable pub exchange : Spinlock → Bool × Spinlock
exchange lk = (lk.val == 0, record lk { val = 1 })

unfoldable pub set_holder : ℕ → Spinlock → Spinlock
set_holder hart lk = record lk { holder = some hart }

-- `acquire` after `push_off`, where no other hart runs: if another one holds the lock, the exchange is
-- repeated until that hart lets go, which no step of this hart brings about. Steps has those
-- of several harts interleaved.
unfoldable pub take : ℕ → Spinlock → Outcome Spinlock
unfolding acquire_check exchange set_holder
take hart lk = acquire_check hart lk >>= λ l.
    if (exchange l).0 then done (set_holder hart (exchange l).1) else spin

-- The check of `release`: a hart that does not hold the lock panics.
unfoldable pub release_check : ℕ → Spinlock → Outcome Spinlock
unfolding is_holding
release_check hart lk = if is_holding hart lk then done lk else halt

unfoldable pub clear_holder : Spinlock → Spinlock
clear_holder lk = record lk { holder = none }

-- `__atomic_store_n(&lk->val, 0)`
unfoldable pub store_free : Spinlock → Spinlock
store_free lk = record lk { val = 0 }

-- `release` up to `pop_off`, where no other hart runs.
unfoldable pub drop : ℕ → Spinlock → Outcome Spinlock
unfolding release_check clear_holder store_free
drop hart lk = release_check hart lk >>= λ l. done (store_free (clear_holder l))

-- `struct cpu`, with the interrupt bit of `sstatus` that `intr_get` reads.
pub record Cpu : Type 0 where
  pub id : ℕ
  pub noff : ℕ
  pub intena : Bool
  pub intr : Bool

unfoldable pub push_off : Cpu → Cpu
push_off c = record c {
  noff = c.noff + 1;
  intena = if c.noff == 0 then c.intr else c.intena;
  intr = false;
}

unfoldable pub pop_off : Cpu → Outcome Cpu
pop_off c =
    if c.intr
    then halt
    else if ltb c.noff 1
    then halt
    else done (record c {
      noff = c.noff - 1;
      intr = if c.noff - 1 == 0 && c.intena then true else c.intr;
    })

unfoldable pub acquire : Cpu → Spinlock → Outcome (Cpu × Spinlock)
unfolding push_off take
acquire c lk = do let c' = push_off c; lk' ← take c'.id lk; done (c', lk')

unfoldable pub release : Cpu → Spinlock → Outcome (Cpu × Spinlock)
unfolding pop_off drop
release c lk = do lk' ← drop c.id lk; c' ← pop_off c; done (c', lk')
