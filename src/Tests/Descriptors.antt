-- ===== src/Tests/Descriptors.antt =====
-- A task whose descriptors 0 and 2 are the file 70, to which the kernel holds one more reference.
use loeux_riscv.Base.{
  ℕ, zero, suc, [], ◌∷◌, some, Returns, ◌≡◌, refl, arith, false, replicate, ◌==◌, if◌then◌else◌,
  ◌≢◌,
}
use loeux_riscv.Fs.Descriptors.Counts.{
  IsCounted, occurrences, Closed, fd_close-Closed, Duplicated, vfs_dup-Duplicated,
}
use loeux_riscv.Fs.Descriptors.FileLock.{IsFree}
use loeux_riscv.Sync.Sleeplock.{Sleeplock, running}
use loeux_riscv.Fs.Descriptors.{Task, first_free, fd_close, vfs_dup}
use loeux_riscv.Sync.Spinlock.{init_spinlock}

abbrev held : ℕ → ℕ
held f = if f == 70 then 1 else 0

abbrev sleepy : Sleeplock
sleepy = record {
  spinlock = init_spinlock;
  locked = false;
  holder = 0;
  next = λ n. 0;
  prev = λ n. 0;
  states = λ n. running;
}

sleepy-IsFree : IsFree sleepy
sleepy-IsFree = record {
  queue = [];
  waiting = record { ring = (refl, refl); pids = tt; distinct = tt; asleep = tt; unlocked = refl };
  unlocked = refl;
  no_holder = refl;
}

abbrev task : Task
task = record {
  pid = 5;
  ofile = 70 ∷ 0 ∷ 70 ∷ replicate 61 0;
  lk = init_spinlock;
  refcount = λ f. if f == 70 then 3 else 0;
  slk = λ f. sleepy;
  destroyed = [];
}

none_in : (f n : ℕ) → f ≢ 0 → occurrences f (replicate n 0) ≡ 0
unfolding occurrences
none_in f zero ne = refl
none_in f (suc n) ne = ground (arith, none_in f n ne)

task-IsCounted : IsCounted held task
unfolding occurrences
task-IsCounted = record {
  pid = omega arith;
  unlocked = refl;
  size = refl;
  counts = λ f ne. ground (arith, none_in f 61 ne);
  small = λ f. ground arith;
}

fd_close-Closed_example : Returns (fd_close 0 task 2) (Closed held task 2)
fd_close-Closed_example =
    fd_close-Closed held 0 task 2 task-IsCounted (omega arith) (omega arith) sleepy-IsFree

first_free_is : first_free task.ofile ≡ some 1
unfolding first_free
first_free_is = refl

vfs_dup-Duplicated_example : Returns (vfs_dup 0 task 2) (Duplicated held task 2 1)
vfs_dup-Duplicated_example =
    vfs_dup-Duplicated held 0 task 2 1 task-IsCounted (omega arith) (omega arith) first_free_is
      sleepy-IsFree
