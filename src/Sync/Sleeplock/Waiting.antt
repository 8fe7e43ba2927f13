-- ===== src/Sync/Sleeplock/Waiting.antt =====
-- The operations of the sleep lock on its queue: the tasks that wait, in the order they came.
use loeux_riscv.Base.{
  update, ℕ, zero, suc, ◌<◌, Bool, true, false, ◌&&◌, ◌==◌, List, [], ◌∷◌, ◌++◌, length, done, halt,
  ◌>>=◌, Returns, ◌≡◌, ◌≢◌, refl, sym, arith,
}
use loeux_riscv.Mm.Pages.Queue.{NotIn, Distinct, Distinct-append}
use loeux_riscv.Sync.Spinlock.{init_spinlock}
use loeux_riscv.Sync.Spinlock.Laws.{take_free, drop_held}
use loeux_riscv.Sync.Sleeplock.{
  TaskState, runnable, sleep, Sleeplock, unlink, set_runnable, wakeup, wake_loop, wakeup_all,
  enqueue, acquire_turn, release_proto, release_sleep, release_sleep_all,
}
use loeux_riscv.Sync.Sleeplock.Ring.{Ring, Ring-tail, Ring-append}

NotIn-append : (z p : ℕ) (l : List ℕ) → NotIn z l → z ≢ p → NotIn z (l ++ p ∷ [])
NotIn-append z p [] out d = (d, tt)
NotIn-append z p (x ∷ l) out d = (out.0, NotIn-append z p l out.1 d)

abbrev pub AllAsleep : (ℕ → TaskState) → List ℕ → Type 0
AllAsleep states [] = Unit
AllAsleep states (x ∷ l) = (states x ≡ sleep) × AllAsleep states l

-- The tasks `l` wait, in this order, and nobody is under the spinlock.
pub record IsWaiting (s : Sleeplock) (l : List ℕ) : Type 0 where
  pub ring : Ring s.next s.prev 0 l 0
  pub pids : NotIn 0 l
  pub distinct : Distinct l
  pub asleep : AllAsleep s.states l
  pub unlocked : s.spinlock ≡ init_spinlock

AllAsleep-update :
    (states : ℕ → TaskState) (l : List ℕ) (x : ℕ) (t : TaskState)
    → NotIn x l
    → AllAsleep states l
    → AllAsleep (update states x t) l
AllAsleep-update states [] x t out k = tt
AllAsleep-update states (y ∷ l) x t out k =
    (ground (arith, out.0), AllAsleep-update states l x t out.1 k.1)

AllAsleep-append :
    (states : ℕ → TaskState) (l : List ℕ) (p : ℕ)
    → NotIn p l
    → AllAsleep states l
    → AllAsleep (update states p sleep) (l ++ p ∷ [])
AllAsleep-append states [] p out k = (ground arith, tt)
AllAsleep-append states (x ∷ l) p out k =
    (ground (arith, out.0), AllAsleep-append states l p out.1 k.1)

-- The first waiter leaves the queue and is runnable.
abbrev pub woken : ℕ → Sleeplock → Sleeplock
woken x s = set_runnable x (unlink x s)

pub woken-IsWaiting :
    (s : Sleeplock) (x : ℕ) (l : List ℕ) → IsWaiting s (x ∷ l) → IsWaiting (woken x s) l
unfolding unlink set_runnable
woken-IsWaiting s x l k =
    let back : s.prev x ≡ 0 = k.ring.1 in
    let task : x == 0 ≡ false = ground (arith, k.pids.0) in
    record {
      ring = rw (back, task) (Ring-tail s.next s.prev x l k.pids k.distinct k.ring);
      pids = k.pids.1;
      distinct = k.distinct.1;
      asleep = AllAsleep-update s.states l x runnable k.distinct.0 k.asleep.1;
      unlocked = k.unlocked;
    }

-- wakeup wakes the first waiter.
pub wakeup-woken : (s : Sleeplock) (x : ℕ) (l : List ℕ) → IsWaiting s (x ∷ l) → wakeup s ≡ woken x s
unfolding wakeup
wakeup-woken s x l k =
    let head : s.next 0 ≡ x = k.ring.0 in
    let task : x == 0 ≡ false = ground (arith, k.pids.0) in rw (head, task) refl

pub wakeup_none : (s : Sleeplock) → IsWaiting s [] → wakeup s ≡ s
unfolding wakeup
wakeup_none s k = let head : s.next 0 ≡ 0 = k.ring.0 in rw head refl

pub enqueue-IsWaiting :
    (s : Sleeplock) (p : ℕ) (l : List ℕ)
    → IsWaiting s l
    → p ≢ 0
    → NotIn p l
    → IsWaiting (enqueue p s) (l ++ p ∷ [])
unfolding enqueue
enqueue-IsWaiting s p l k pz out = record {
  ring = Ring-append s.next s.prev 0 p l pz pz out k.pids k.pids k.distinct k.ring;
  pids = NotIn-append 0 p l k.pids (λ e. pz (sym e));
  distinct = Distinct-append l p k.distinct out;
  asleep = AllAsleep-append s.states l p out k.asleep;
  unlocked = k.unlocked;
}

-- All tasks of the list are runnable, the others are as they were.
abbrev pub all_woken : List ℕ → (ℕ → TaskState) → ℕ → TaskState
all_woken [] states = states
all_woken (x ∷ l) states = all_woken l (update states x runnable)

wake_loop-IsWaiting :
    (s : Sleeplock) (l : List ℕ) (fuel : ℕ)
    → IsWaiting s l
    → length l < fuel
    → (s' : Sleeplock) × (wake_loop fuel (s.next 0) s ≡ done s')
      × IsWaiting s' []
      × (s'.states ≡ all_woken l s.states)
      × (s'.locked ≡ s.locked)
      × (s'.holder ≡ s.holder)
unfolding wake_loop set_runnable unlink
wake_loop-IsWaiting s l zero k h = absurd (omega arith)
wake_loop-IsWaiting s [] (suc fuel) k h =
    let head : s.next 0 ≡ 0 = k.ring.0 in
    (
      record s { next = update s.next 0 0; prev = update s.prev 0 0 },
      rw (wake_loop, head) refl,
      record { ring = (refl, refl); pids = tt; distinct = tt; asleep = tt; unlocked = k.unlocked },
      refl,
      refl,
      refl,
    )
wake_loop-IsWaiting s (x ∷ l) (suc fuel) k h =
    let head : s.next 0 ≡ x = k.ring.0 in
    let task : x == 0 ≡ false = ground (arith, k.pids.0) in
    let (s', run, k', states, locked, holder) =
      wake_loop-IsWaiting (woken x s) l fuel (woken-IsWaiting s x l k) (omega arith) in
    let start : (woken x s).next 0 ≡ s.next x = ground (arith, k.ring.1) in
    (s', rw (wake_loop, head, task) (rw start at run), k', states, locked, holder)

-- A turn takes a free lock.
pub acquire_turn-free :
    (hart pid : ℕ) (is_first : Bool) (s : Sleeplock) (l : List ℕ)
    → IsWaiting s l
    → s.locked ≡ false
    → s.holder ≢ pid
    → acquire_turn hart pid is_first s ≡ done (true, record s { locked = true; holder = pid })
unfolding acquire_turn
acquire_turn-free hart pid is_first s l k free other =
    let not_owner : is_first && (s.holder == pid) ≡ false = ground arith in
    rw (acquire_turn, k.unlocked, take_free hart, ◌>>=◌, not_owner, free, drop_held hart) refl

pub acquire_turn-taken :
    (hart pid : ℕ) (is_first : Bool) (s : Sleeplock) (l : List ℕ)
    → IsWaiting s l
    → s.locked ≡ true
    → s.holder ≢ pid
    → acquire_turn hart pid is_first s ≡ done (false, enqueue pid s)
unfolding acquire_turn enqueue
acquire_turn-taken hart pid is_first s l k taken other =
    let not_owner : is_first && (s.holder == pid) ≡ false = ground arith in
    rw (acquire_turn, k.unlocked, take_free hart, ◌>>=◌, not_owner, taken, drop_held hart) refl

-- The owner may not take the lock again.
pub acquire_turn_again :
    (hart pid : ℕ) (s : Sleeplock)
    → s.spinlock ≡ init_spinlock
    → s.holder ≡ pid
    → acquire_turn hart pid true s ≡ halt
unfolding acquire_turn
acquire_turn_again hart pid s u own =
    let owner : s.holder == pid ≡ true = ground arith in
    rw (acquire_turn, u, take_free hart, ◌>>=◌, owner) refl

abbrev pub freed : Sleeplock → Sleeplock
freed s = record s { spinlock = init_spinlock; locked = false; holder = 0 }

pub freed-IsWaiting : (s : Sleeplock) (l : List ℕ) → IsWaiting s l → IsWaiting (freed s) l
freed-IsWaiting s l k = record {
  ring = k.ring;
  pids = k.pids;
  distinct = k.distinct;
  asleep = k.asleep;
  unlocked = refl;
}

pub release_sleep_other :
    (hart pid : ℕ) (s : Sleeplock)
    → s.spinlock ≡ init_spinlock
    → s.holder ≢ pid
    → release_sleep hart pid s ≡ halt
unfolding release_sleep release_proto
release_sleep_other hart pid s u other =
    let stranger : s.holder == pid ≡ false = ground arith in
    rw (release_proto, u, take_free hart, ◌>>=◌, stranger) refl

pub release_sleep_none :
    (hart pid : ℕ) (s : Sleeplock)
    → IsWaiting s []
    → s.holder ≡ pid
    → release_sleep hart pid s ≡ done (freed s)
unfolding release_sleep release_proto
release_sleep_none hart pid s k own =
    let owner : s.holder == pid ≡ true = ground arith in
    rw
      (
        release_proto,
        k.unlocked,
        take_free hart,
        ◌>>=◌,
        owner,
        wakeup_none (freed s) (freed-IsWaiting s [] k),
        drop_held hart,
      )
      refl

pub release_sleep-woken :
    (hart pid x : ℕ) (s : Sleeplock) (l : List ℕ)
    → IsWaiting s (x ∷ l)
    → s.holder ≡ pid
    → release_sleep hart pid s ≡ done (woken x (freed s))
unfolding release_sleep release_proto unlink set_runnable
release_sleep-woken hart pid x s l k own =
    let owner : s.holder == pid ≡ true = ground arith in
    rw
      (
        release_proto,
        k.unlocked,
        take_free hart,
        ◌>>=◌,
        owner,
        wakeup-woken (freed s) x l (freed-IsWaiting s (x ∷ l) k),
        drop_held hart,
      )
      refl

-- Where the tasks l wait in the queue and the task pid has the lock, release_sleep_all returns on
-- any fuel above the length of l, the queue is then empty, exactly the tasks of l have become
-- runnable, and the lock is free without a holder.
pub release_sleep_all-IsWaiting :
    (hart pid fuel : ℕ) (s : Sleeplock) (l : List ℕ)
    → IsWaiting s l
    → s.holder ≡ pid
    → length l < fuel
    → Returns (release_sleep_all hart fuel pid s) (λ r.
      IsWaiting r [] × (r.states ≡ all_woken l s.states) × (r.locked ≡ false) × (r.holder ≡ 0))
unfolding release_sleep_all release_proto wakeup_all
release_sleep_all-IsWaiting hart pid fuel s l k own enough =
    let owner : s.holder == pid ≡ true = ground arith in
    let (r, run, k', states, locked, holder) =
      wake_loop-IsWaiting (freed s) l fuel (freed-IsWaiting s l k) enough in
    (
      record r { spinlock = init_spinlock },
      rw (release_proto, k.unlocked, take_free hart, ◌>>=◌, owner, wakeup_all, run, drop_held hart)
          refl,
      (
        record { ring = k'.ring; pids = tt; distinct = tt; asleep = tt; unlocked = refl },
        states,
        locked,
        holder,
      ),
    )
