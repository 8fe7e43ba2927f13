-- ===== src/Fs/Descriptors/FileLock.antt =====
-- The counts of a file under its sleep lock.
use loeux_riscv.Base.{
  ℕ, ◌+◌, ◌-◌, ◌%◌, ◌^◌, ◌<◌, true, false, List, [], ◌∷◌, update, done, ◌≡◌, ◌≢◌, refl, sym, ◌∙◌,
  arith, ◌==◌, ltb, if◌then◌else◌,
}
use loeux_riscv.Fs.Descriptors.{Task, lock_file, unlock_file, file_get, file_put}
use loeux_riscv.Sync.Sleeplock.Waiting.{
  IsWaiting, acquire_turn-free, freed, freed-IsWaiting, release_sleep_none, release_sleep-woken,
  woken, woken-IsWaiting,
}
use loeux_riscv.Sync.Sleeplock.{Sleeplock, release_sleep, set_runnable, unlink}

-- No task has the sleep lock; others may wait for their turn.
pub record IsFree (s : Sleeplock) : Type 0 where
  pub queue : List ℕ
  pub waiting : IsWaiting s queue
  pub unlocked : s.locked ≡ false
  pub no_holder : s.holder ≡ 0

abbrev pub owned : ℕ → Sleeplock → Sleeplock
owned pid s = record s { locked = true; holder = pid }

owned-IsWaiting : (pid : ℕ) (s : Sleeplock) (l : List ℕ) → IsWaiting s l → IsWaiting (owned pid s) l
owned-IsWaiting pid s l k = record {
  ring = k.ring;
  pids = k.pids;
  distinct = k.distinct;
  asleep = k.asleep;
  unlocked = k.unlocked;
}

released :
    (hart pid : ℕ) (s : Sleeplock) (l : List ℕ)
    → IsWaiting s l
    → (s' : Sleeplock) × (release_sleep hart pid (owned pid s) ≡ done s') × IsFree s'
unfolding set_runnable unlink
released hart pid s [] k = (
  freed (owned pid s),
  release_sleep_none hart pid (owned pid s) (owned-IsWaiting pid s [] k) refl,
  record {
    queue = [];
    waiting = freed-IsWaiting (owned pid s) [] (owned-IsWaiting pid s [] k);
    unlocked = refl;
    no_holder = refl;
  },
)
released hart pid s (x ∷ l) k =
    let k' = freed-IsWaiting (owned pid s) (x ∷ l) (owned-IsWaiting pid s (x ∷ l) k) in
    (
      woken x (freed (owned pid s)),
      release_sleep-woken hart pid x (owned pid s) l (owned-IsWaiting pid s (x ∷ l) k) refl,
      record {
        queue = l;
        waiting = woken-IsWaiting (freed (owned pid s)) x l k';
        unlocked = refl;
        no_holder = refl;
      },
    )

-- The locks afterwards: that of the file is free, and the others are as they were.
pub record Unlocked (slk : ℕ → Sleeplock) (file : ℕ) (slk' : ℕ → Sleeplock) : Type 0 where
  pub is_free : IsFree (slk' file)
  pub others : (f : ℕ) → f ≢ file → slk' f ≡ slk f

pub Unlocked-trans :
    (s₀ s₁ s₂ : ℕ → Sleeplock) (file : ℕ)
    → Unlocked s₀ file s₁
    → Unlocked s₁ file s₂
    → Unlocked s₀ file s₂
Unlocked-trans s₀ s₁ s₂ file a b = record {
  is_free = b.is_free;
  others = λ f d. b.others f d ∙ a.others f d;
}

-- The section of a file that sets its count.
module _ (hart : ℕ) (t : Task) (file : ℕ) (pid : t.pid ≢ 0) (k : IsFree (t.slk file)) where
  abbrev pub mine : Task
  mine = record t { slk = update t.slk file (owned t.pid (t.slk file)) }

  lock_file_free : lock_file hart t file ≡ done mine
  unfolding lock_file
  lock_file_free =
      let turn =
        acquire_turn-free hart t.pid true (t.slk file) k.queue k.waiting k.unlocked
          (λ e. pid (sym e ∙ k.no_holder)) in
      rw (lock_file, turn) refl

  section :
      (n : ℕ)
      → (slk : ℕ → Sleeplock) × (unlock_file hart
            (record mine { refcount = update t.refcount file n })
            file
          ≡ done (record t { refcount = update t.refcount file n; slk = slk }))
        × Unlocked t.slk file slk
  unfolding unlock_file
  section n =
      let (s, run, is_free) = released hart t.pid (t.slk file) k.queue k.waiting in
      let self : file == file ≡ true = ground arith in
      (
        update (update t.slk file (owned t.pid (t.slk file))) file s,
        rw (unlock_file, self, run) refl,
        record { is_free = rw self is_free; others = λ f d. ground arith },
      )

  pub file_get-Unlocked :
      file ≢ 0
      → (slk : ℕ → Sleeplock) × (file_get hart t file
          ≡ done (record t {
            refcount = update t.refcount file ((t.refcount file + 1) % 2 ^ 32);
            slk = slk;
          }))
        × Unlocked t.slk file slk
  unfolding file_get
  file_get-Unlocked real =
      let some_file : file == 0 ≡ false = ground arith in
      let (slk, run, unlocked) = section ((t.refcount file + 1) % 2 ^ 32) in
      (slk, rw (file_get, some_file, lock_file_free, run) refl, unlocked)

  pub file_put-Unlocked :
      file ≢ 0
      → 0 < t.refcount file
      → (slk : ℕ → Sleeplock) × (file_put hart t file
          ≡ done (record t {
            refcount = update t.refcount file (t.refcount file - 1);
            slk = slk;
            destroyed = if t.refcount file - 1 == 0 then file ∷ t.destroyed else t.destroyed;
          }))
        × Unlocked t.slk file slk
  unfolding file_put
  file_put-Unlocked real some_there =
      let some_file : file == 0 ≡ false = ground arith in
      let there : ltb 0 (t.refcount file) ≡ true = ground arith in
      let (slk, run, unlocked) = section (t.refcount file - 1) in
      (slk, rw (file_put, some_file, lock_file_free, there, run) refl, unlocked)
