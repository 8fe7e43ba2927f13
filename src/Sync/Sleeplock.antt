-- ===== src/Sync/Sleeplock.antt =====
-- The sleep lock of kernel/sleeplock.c. A node of the wait queue is named by a number: 0 is the
-- sentinel `&slk->wait_queue`, and a pid, which is never 0, stands for the task's `sleep_node`.
pub mod Ring
pub mod Waiting
pub mod Progress
use loeux_riscv.Base.{
  update, ℕ, zero, suc, ◌+◌, Bool, true, false, ◌&&◌, not, Outcome, done, halt, spin, ◌>>=◌, ◌==◌,
  if◌then◌else◌,
}
use loeux_riscv.Sync.Spinlock.{Spinlock, init_spinlock, take, drop}

-- `enum TASK_STATE`
pub data TaskState : Type 0 where
  initlized : TaskState
  used : TaskState
  runnable : TaskState
  running : TaskState
  blocked : TaskState
  sleep : TaskState
  zombie : TaskState
  dead : TaskState

-- `struct sleeplock`, the nodes of its queue and the states of the tasks.
pub record Sleeplock : Type 0 where
  pub spinlock : Spinlock
  pub locked : Bool
  pub holder : ℕ
  pub next : ℕ → ℕ
  pub prev : ℕ → ℕ
  pub states : ℕ → TaskState

unfoldable pub init_sleeplock : Sleeplock → Sleeplock
init_sleeplock s = record s {
  spinlock = init_spinlock;
  locked = false;
  holder = 0;
  next = update s.next 0 0;
  prev = update s.prev 0 0;
}

-- `node->prev->next = node->next; node->next->prev = node->prev;`
unfoldable pub unlink : ℕ → Sleeplock → Sleeplock
unlink node s =
    let next = update s.next (s.prev node) (s.next node) in
    record s { next = next; prev = update s.prev (next node) (s.prev node) }

-- `ts->state = RUNNABLE` under `ts->lk`. A task that goes to sleep keeps its `lk` until it has left
-- the processor, so that the waker, who takes it, finds it asleep.
unfoldable pub set_runnable : ℕ → Sleeplock → Sleeplock
set_runnable task s = record s { states = update s.states task runnable }

unfoldable pub wakeup : Sleeplock → Sleeplock
wakeup s =
    let alive = s.next 0 in if not (alive == 0) then set_runnable alive (unlink alive s) else s

-- The loop of `wakeup_all` from the node `pos` on; the fuel bounds the nodes of the queue.
unfoldable pub wake_loop : ℕ → ℕ → Sleeplock → Outcome Sleeplock
wake_loop zero pos s = spin
wake_loop (suc fuel) pos s =
    let rest = wake_loop fuel (s.next pos) (set_runnable pos (unlink pos s)) in
    if pos == 0
    then done (record s { next = update s.next 0 0; prev = update s.prev 0 0 })
    else rest

unfoldable pub wakeup_all : ℕ → Sleeplock → Outcome Sleeplock
wakeup_all fuel s = wake_loop fuel (s.next 0) s

-- The task becomes the tail of the queue and sleeps.
unfoldable pub enqueue : ℕ → Sleeplock → Sleeplock
enqueue pid s =
    let tail = s.prev 0 in
    record s {
      states = update s.states pid sleep;
      next = update (update s.next tail pid) pid 0;
      prev = update (update s.prev pid tail) 0 pid;
    }

-- A turn of `acquire_sleep` under the spinlock, the first one (`is_first`) or one after the task was
-- woken: `true` where it has the lock, `false` where it sleeps and switches away.
unfoldable pub acquire_turn : ℕ → ℕ → Bool → Sleeplock → Outcome (Bool × Sleeplock)
acquire_turn hart pid is_first s = do
  lk ← take hart s.spinlock
  if is_first && (s.holder == pid)
      then halt
      else if s.locked
      then (drop hart lk >>= λ lk'. done (false, record (enqueue pid s) { spinlock = lk' }))
      else (drop hart lk >>= λ lk'.
          done (true, record s { locked = true; holder = pid; spinlock = lk' }))

-- `_release_sleep_proto`
unfoldable pub release_proto : ℕ → ℕ → ℕ → Bool → Sleeplock → Outcome Sleeplock
release_proto hart fuel pid is_all s = do
  lk ← take hart s.spinlock
  let freed = record s { holder = 0; locked = false }
  if not (s.holder == pid)
      then halt
      else (elim is_all [ true ↦ wakeup_all fuel freed | false ↦ done (wakeup freed) ] >>= λ s'.
          drop hart lk >>= λ lk'. done (record s' { spinlock = lk' }))

unfoldable pub release_sleep : ℕ → ℕ → Sleeplock → Outcome Sleeplock
release_sleep hart pid s = release_proto hart 0 pid false s

unfoldable pub release_sleep_all : ℕ → ℕ → ℕ → Sleeplock → Outcome Sleeplock
release_sleep_all hart fuel pid s = release_proto hart fuel pid true s
