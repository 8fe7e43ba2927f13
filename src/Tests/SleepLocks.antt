-- ===== src/Tests/SleepLocks.antt =====
-- Task 1 takes a sleep lock and task 2 waits for it.
use loeux_riscv.Base.{ℕ, Bool, true, false, [], done, ◌≡◌, refl, arith}
use loeux_riscv.Sync.Spinlock.{init_spinlock, take, drop, is_holding}
use loeux_riscv.Sync.Sleeplock.{running, Sleeplock, init_sleeplock, enqueue, acquire_turn}
use loeux_riscv.Sync.Sleeplock.Waiting.{IsWaiting}
use loeux_riscv.Sync.Sleeplock.Progress.{
  System, enter, Reach, start, next, after_turn, CanGetLock, Reach-one_owner, Reach-progress,
}

abbrev raw : Sleeplock
raw = record {
  spinlock = init_spinlock;
  locked = false;
  holder = 0;
  next = λ n. 7;
  prev = λ n. 7;
  states = λ n. running;
}

abbrev quiet : System
quiet = record { lock = init_sleeplock raw; pending = λ p. false; inside = λ p. false }

abbrev taken : Bool × Sleeplock
taken = (true, record (init_sleeplock raw) { locked = true; holder = 1 })

abbrev waiting : Bool × Sleeplock
waiting = (false, enqueue 2 taken.1)

abbrev one_waits : System
one_waits = after_turn 2 waiting (after_turn 1 taken quiet)

first_turn : acquire_turn 0 1 true (init_sleeplock raw) ≡ done taken
unfolding acquire_turn init_sleeplock take drop is_holding
first_turn = refl

second_turn : acquire_turn 0 2 true taken.1 ≡ done waiting
unfolding acquire_turn init_sleeplock enqueue take drop is_holding
second_turn = refl

one_waits-Reach : Reach one_waits
one_waits-Reach =
    next (next (start raw) (enter 0 1 taken (omega arith) refl refl first_turn refl))
      (enter 0 2 waiting (omega arith) refl refl second_turn refl)

Reach-one_owner_example : ◌≡◌ {A = ℕ} 1 1
Reach-one_owner_example = Reach-one_owner one_waits-Reach 1 1 refl refl

Reach-progress_example : CanGetLock one_waits
Reach-progress_example = Reach-progress one_waits-Reach 2 refl

taken-IsWaiting : IsWaiting taken.1 []
unfolding init_sleeplock
taken-IsWaiting = record {
  ring = (refl, refl);
  pids = tt;
  distinct = tt;
  asleep = tt;
  unlocked = refl;
}
