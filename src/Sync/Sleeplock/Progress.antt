-- ===== src/Sync/Sleeplock/Progress.antt =====
-- Tasks that contend for one sleep lock, as interleaved steps: each step is what a task does under
-- the spinlock of the lock, which one hart holds at a time.
use loeux_riscv.Base.{
  update, ℕ, Bool, true, false, not, ◌==◌, List, [], ◌∷◌, ◌++◌, Outcome, done, halt, spin, ◌≡◌, ◌≢◌,
  ◌⊎◌, inl, inr, refl, sym, ◌∙◌, ap, arith, Bool-cases,
}
use loeux_riscv.Mm.Pages.Queue.{NotIn}
use loeux_riscv.Sync.Sleeplock.{
  TaskState, sleep, Sleeplock, init_sleeplock, enqueue, acquire_turn, release_sleep, unlink,
  set_runnable,
}
use loeux_riscv.Sync.Sleeplock.Waiting.{
  AllAsleep, IsWaiting, woken, freed, freed-IsWaiting, woken-IsWaiting, enqueue-IsWaiting,
  acquire_turn-free, acquire_turn-taken, release_sleep_none, release_sleep-woken,
}

-- The lock, which tasks are in `acquire_sleep` after a first turn without success, and which tasks
-- have the lock.
pub record System : Type 0 where
  pub lock : Sleeplock
  pub pending : ℕ → Bool
  pub inside : ℕ → Bool

abbrev pub after_turn : ℕ → Bool × Sleeplock → System → System
after_turn pid r s = record {
  lock = r.1;
  pending = update s.pending pid (not r.0);
  inside = update s.inside pid r.0;
}

abbrev pub after_leave : ℕ → Sleeplock → System → System
after_leave pid lk s = record { lock = lk; pending = s.pending; inside = update s.inside pid false }

-- A task that sleeps takes no turn until it was woken.
pub data Step (s t : System) : Type 0 where
  enter :
      (hart pid : ℕ) (r : Bool × Sleeplock)
      → pid ≢ 0
      → s.pending pid ≡ false
      → s.inside pid ≡ false
      → acquire_turn hart pid true s.lock ≡ done r
      → t ≡ after_turn pid r s
      → Step s t
  again :
      (hart pid : ℕ) (r : Bool × Sleeplock)
      → s.pending pid ≡ true
      → s.lock.states pid ≢ sleep
      → acquire_turn hart pid false s.lock ≡ done r
      → t ≡ after_turn pid r s
      → Step s t
  leave :
      (hart pid : ℕ) (lk : Sleeplock)
      → s.inside pid ≡ true
      → release_sleep hart pid s.lock ≡ done lk
      → t ≡ after_leave pid lk s
      → Step s t

pub data Reach : System → Type 0 where
  start :
      (lk : Sleeplock)
      → Reach (record { lock = init_sleeplock lk; pending = λ p. false; inside = λ p. false })
  next : {s t : System} → Reach s → Step s t → Reach t

abbrev AllPending : (ℕ → Bool) → List ℕ → Type 0
AllPending pending [] = Unit
AllPending pending (x ∷ l) = (pending x ≡ true) × AllPending pending l

-- `awake`: where the lock is free and tasks wait, one that was woken is on its way.
record IsConsistent (s : System) : Type 0 where
  queue : List ℕ
  waiting : IsWaiting s.lock queue
  waiters : AllPending s.pending queue
  queued : (p : ℕ) → s.pending p ≡ true → NotIn p queue → s.lock.states p ≢ sleep
  awake :
      s.lock.locked ≡ false
      → (queue ≡ []) ⊎ ((w : ℕ) × (s.pending w ≡ true) × (s.lock.states w ≢ sleep))
  owner : s.lock.locked ≡ true → s.inside s.lock.holder ≡ true
  holder : (p : ℕ) → s.inside p ≡ true → (s.lock.holder ≡ p) × (s.lock.locked ≡ true)
  nobody : s.lock.locked ≡ false → s.lock.holder ≡ 0
  tasks : (p : ℕ) → s.pending p ≡ true → (p ≢ 0) × (s.inside p ≡ false)

value_of {ℓ} : {A : Type ℓ} → A → Outcome A → A
value_of a (done b) = b
value_of a halt = a
value_of a spin = a

done-injective {ℓ} : {A : Type ℓ} (a b : A) → done a ≡ done b → a ≡ b
unfolding value_of
done-injective a b e = ap (value_of a) e

not_waiting_asleep :
    (states : ℕ → TaskState) (p : ℕ) (l : List ℕ)
    → AllAsleep states l
    → states p ≢ sleep
    → NotIn p l
not_waiting_asleep states p [] k d = tt
not_waiting_asleep states p (x ∷ l) k d =
    (λ e. d (ap states e ∙ k.0), not_waiting_asleep states p l k.1 d)

not_waiting_pending :
    (pending : ℕ → Bool) (p : ℕ) (l : List ℕ) → AllPending pending l → pending p ≡ false → NotIn p l
not_waiting_pending pending p [] k e = tt
not_waiting_pending pending p (x ∷ l) k e =
    (λ d. ground (arith, k.0), not_waiting_pending pending p l k.1 e)

AllPending-update :
    (pending : ℕ → Bool) (p : ℕ) (b : Bool) (l : List ℕ)
    → NotIn p l
    → AllPending pending l
    → AllPending (update pending p b) l
AllPending-update pending p b [] out k = tt
AllPending-update pending p b (x ∷ l) out k =
    (ground (arith, out.0), AllPending-update pending p b l out.1 k.1)

AllPending-append :
    (pending : ℕ → Bool) (p : ℕ) (l : List ℕ)
    → NotIn p l
    → AllPending pending l
    → AllPending (update pending p true) (l ++ p ∷ [])
AllPending-append pending p [] out k = (ground arith, tt)
AllPending-append pending p (x ∷ l) out k =
    (ground (arith, out.0), AllPending-append pending p l out.1 k.1)

NotIn-before : (p q : ℕ) (l : List ℕ) → NotIn p (l ++ q ∷ []) → NotIn p l × (p ≢ q)
NotIn-before p q [] out = (tt, out.0)
NotIn-before p q (x ∷ l) out = ((out.0, (NotIn-before p q l out.1).0), (NotIn-before p q l out.1).1)

-- A task without the lock takes a turn.
module _ (hart pid : ℕ) (is_first : Bool) (s : System) (c : IsConsistent s) (real : pid ≢ 0)
    (outside : s.inside pid ≡ false) (awake_one : NotIn pid c.queue) where
  not_holder : s.lock.holder ≢ pid
  not_holder = λ e. elim (Bool-cases s.lock.locked) [
    | inl f ↦ ground (arith, c.owner f)
    | inr f ↦ real (sym e ∙ c.nobody f)
  ]

  turn_free :
      s.lock.locked ≡ false
      → IsConsistent (after_turn pid (true, record s.lock { locked = true; holder = pid }) s)
  turn_free free = record {
    queue = c.queue;
    waiting = record {
      ring = c.waiting.ring;
      pids = c.waiting.pids;
      distinct = c.waiting.distinct;
      asleep = c.waiting.asleep;
      unlocked = c.waiting.unlocked;
    };
    waiters = AllPending-update s.pending pid false c.queue awake_one c.waiters;
    queued = λ p h out. c.queued p (ground arith) out;
    awake = λ e. absurd (ground arith);
    owner = λ e. ground arith;
    holder = λ p h. ground (arith, c.holder p);
    nobody = λ e. absurd (ground arith);
    tasks = λ p h. ground (arith, c.tasks p);
  }

  turn_taken : s.lock.locked ≡ true → IsConsistent (after_turn pid (false, enqueue pid s.lock) s)
  unfolding enqueue
  turn_taken taken = record {
    queue = c.queue ++ pid ∷ [];
    waiting = enqueue-IsWaiting s.lock pid c.queue c.waiting real awake_one;
    waiters = AllPending-append s.pending pid c.queue awake_one c.waiters;
    queued = λ p h out.
        let before = NotIn-before p pid c.queue out in
        ground (arith, c.queued p, before.0, before.1);
    awake = λ e. absurd (ground arith);
    owner = λ e. ground (arith, c.owner taken, outside);
    holder = λ p h. ground (arith, c.holder p);
    nobody = λ e. absurd (ground arith);
    tasks = λ p h. ground (arith, c.tasks p);
  }

  turn-IsConsistent :
      (r : Bool × Sleeplock)
      → acquire_turn hart pid is_first s.lock ≡ done r
      → IsConsistent (after_turn pid r s)
  turn-IsConsistent r e = elim (Bool-cases s.lock.locked) [
    | inl taken ↦
        let f = done-injective _ _ (
          sym e ∙ acquire_turn-taken hart pid is_first s.lock c.queue c.waiting taken not_holder) in
        rw f (turn_taken taken)
    | inr free ↦
        let f =
          done-injective _ _ (
            sym e ∙ acquire_turn-free hart pid is_first s.lock c.queue c.waiting free not_holder) in
        rw f (turn_free free)
  ]

-- The task that has the lock releases it.
module _ (hart pid : ℕ) (s : System) (c : IsConsistent s) (own : s.inside pid ≡ true) where
  leave_none : c.queue ≡ [] → IsConsistent (after_leave pid (freed s.lock) s)
  leave_none e = record {
    queue = [];
    waiting = freed-IsWaiting s.lock [] (rw e at c.waiting);
    waiters = tt;
    queued = λ p h out. c.queued p h (rw e tt);
    awake = λ f. inl refl;
    owner = λ f. absurd (ground arith);
    holder = λ p h. absurd (ground (arith, c.holder p, c.holder pid own));
    nobody = λ f. refl;
    tasks = λ p h. ground (arith, c.tasks p);
  }

  leave_woken :
      (x : ℕ) (l : List ℕ)
      → c.queue ≡ x ∷ l
      → IsConsistent (after_leave pid (woken x (freed s.lock)) s)
  unfolding unlink set_runnable
  leave_woken x l e =
      let waiting = freed-IsWaiting s.lock (x ∷ l) (rw e at c.waiting) in
      let waiters : AllPending s.pending (x ∷ l) = rw e at c.waiters in
      record {
        queue = l;
        waiting = woken-IsWaiting (freed s.lock) x l waiting;
        waiters = waiters.1;
        queued = λ p h out. elim (Bool-cases (p == x)) [
          | inl f ↦ λ g. ground arith
          | inr f ↦
              let d : p ≢ x = λ g. ground arith in
              let before : s.lock.states p ≢ sleep = c.queued p h (rw e (d, out)) in
              λ g. before (ground arith)
        ];
        awake = λ f. inr (x, waiters.0, λ g. ground arith);
        owner = λ f. absurd (ground arith);
        holder = λ p h. absurd (ground (arith, c.holder p, c.holder pid own));
        nobody = λ f. refl;
        tasks = λ p h. ground (arith, c.tasks p);
      }

  leave-IsConsistent :
      (lk : Sleeplock)
      → release_sleep hart pid s.lock ≡ done lk
      → IsConsistent (after_leave pid lk s)
  leave-IsConsistent lk e = go c.queue refl
    where
      go : (l : List ℕ) → c.queue ≡ l → IsConsistent (after_leave pid lk s)
      go [] f =
          let g =
            done-injective _ _ (
              sym e
              ∙ release_sleep_none hart pid s.lock (rw f at c.waiting) (c.holder pid own).0) in
          rw g (leave_none f)
      go (x ∷ l) f =
          let g = done-injective _ _ (
            sym e
            ∙ release_sleep-woken hart pid x s.lock l (rw f at c.waiting) (c.holder pid own).0) in
          rw g (leave_woken x l f)

Step-IsConsistent : (s t : System) → Step s t → IsConsistent s → IsConsistent t
Step-IsConsistent s t (enter hart pid r real idle outside e u) c = rw u (
    turn-IsConsistent hart pid true s c real outside
      (not_waiting_pending s.pending pid c.queue c.waiters idle) r e)
Step-IsConsistent s t (again hart pid r waits up e u) c =
    let task = c.tasks pid waits in
    rw u (
      turn-IsConsistent hart pid false s c task.0 task.1
        (not_waiting_asleep s.lock.states pid c.queue c.waiting.asleep up) r e)
Step-IsConsistent s t (leave hart pid lk own e u) c =
    rw u (leave-IsConsistent hart pid s c own lk e)

Reach-IsConsistent : {s : System} → Reach s → IsConsistent s
unfolding init_sleeplock
Reach-IsConsistent (start lk) = record {
  queue = [];
  waiting = record { ring = (refl, refl); pids = tt; distinct = tt; asleep = tt; unlocked = refl };
  waiters = tt;
  queued = λ p h out. absurd (ground arith);
  awake = λ e. inl refl;
  owner = λ e. absurd (ground arith);
  holder = λ p h. absurd (ground arith);
  nobody = λ e. refl;
  tasks = λ p h. absurd (ground arith);
}
Reach-IsConsistent (next {s} {t} r st) = Step-IsConsistent s t st (Reach-IsConsistent r)

-- In every such state at most one task has the lock.
pub Reach-one_owner :
    {s : System} → Reach s → (p q : ℕ) → s.inside p ≡ true → s.inside q ≡ true → p ≡ q
Reach-one_owner r p q hp hq =
    let c = Reach-IsConsistent r in sym (c.holder p hp).0 ∙ (c.holder q hq).0

pub data Steps : System → System → Type 0 where
  here : (s : System) → Steps s s
  more : {s t u : System} → Step s t → Steps t u → Steps s u

-- A waiting task gets the lock from `s` on.
abbrev pub CanGetLock : System → Type 0
CanGetLock s = (w : ℕ) × (u : System) × Steps s u × (s.pending w ≡ true) × (u.inside w ≡ true)

get_free :
    (s : System) (p : ℕ)
    → IsConsistent s
    → s.lock.locked ≡ false
    → s.pending p ≡ true
    → CanGetLock s
get_free s p c free h = go c.queue refl
  where
    take_it : (w : ℕ) → s.pending w ≡ true → s.lock.states w ≢ sleep → CanGetLock s
    take_it w waits up =
        let task = c.tasks w waits in
        let other : s.lock.holder ≢ w = λ e. task.0 (sym e ∙ c.nobody free) in
        let r : Bool × Sleeplock = (true, record s.lock { locked = true; holder = w }) in
        (
          w,
          after_turn w r s,
          more
              (again 0 w r waits up
                (acquire_turn-free 0 w false s.lock c.queue c.waiting free other) refl)
              (here _),
          waits,
          ground arith,
        )

    go : (l : List ℕ) → c.queue ≡ l → CanGetLock s
    go [] e = take_it p h (c.queued p h (rw e tt))
    go (x ∷ l) e = elim (c.awake free) [ inl f ↦ absurd (cc) | inr f ↦ take_it f.0 f.1 f.2 ]

after_release :
    (s : System)
    → IsConsistent s
    → s.lock.locked ≡ true
    → (t : System) × Step s t × (t.lock.locked ≡ false) × (t.pending ≡ s.pending)
unfolding unlink set_runnable
after_release s c taken = go c.queue refl
  where
    pid : ℕ
    pid = s.lock.holder

    go :
        (l : List ℕ)
        → c.queue ≡ l
        → (t : System) × Step s t × (t.lock.locked ≡ false) × (t.pending ≡ s.pending)
    go [] e = (
      _,
      leave 0 s.lock.holder (freed s.lock) (c.owner taken)
          (release_sleep_none 0 s.lock.holder s.lock (rw e at c.waiting) refl) refl,
      refl,
      refl,
    )
    go (x ∷ l) e = (
      _,
      leave 0 s.lock.holder (woken x (freed s.lock)) (c.owner taken)
          (release_sleep-woken 0 s.lock.holder x s.lock l (rw e at c.waiting) refl) refl,
      refl,
      refl,
    )

-- In every state that tasks reach from an initialised sleep lock by interleaved turns of
-- acquire_sleep and release_sleep, where a task waits for the lock there are steps after which a
-- task that waited has it: no wakeup is lost.
pub Reach-progress : {s : System} → Reach s → (p : ℕ) → s.pending p ≡ true → CanGetLock s
Reach-progress {s} r p h =
    let c = Reach-IsConsistent r in
    elim (Bool-cases s.lock.locked) [
      | inr free ↦ get_free s p c free h
      | inl taken ↦
          let (t, st, free, same) = after_release s c taken in
          let (w, u, steps, waits, got) =
            get_free t p (Step-IsConsistent s t st c) free (rw same h) in
          (w, u, more st steps, rw same at waits, got)
    ]
