-- ===== src/Sync/Spinlock/Steps.antt =====
-- Harts that call acquire and release of one spinlock, at any time and interleaved: a step is the
-- check at the start of a call, one exchange, or one store.
use loeux_riscv.Base.{ℕ, Bool, true, false, done, ◌≡◌, ◌==◌, if◌then◌else◌}
use loeux_riscv.Sync.Spinlock.{
  Spinlock, init_spinlock, acquire_check, exchange, set_holder, release_check, clear_holder,
  store_free,
}

-- Where a hart is: before the exchange, between the exchange and the store of the holder, behind
-- acquire, before the holder is cleared, and before the value is.
pub data Place : Type 0 where
  outside : Place
  trying : Place
  entered : Place
  inside : Place
  leaving : Place
  cleared : Place

-- The hart has the lock.
abbrev pub is_critical : Place → Bool
is_critical outside = false
is_critical trying = false
is_critical entered = true
is_critical inside = true
is_critical leaving = true
is_critical cleared = true

-- The hart is the holder.
abbrev pub is_owner : Place → Bool
is_owner outside = false
is_owner trying = false
is_owner entered = false
is_owner inside = true
is_owner leaving = true
is_owner cleared = false

-- No call of the hart is under way.
abbrev pub is_caller : Place → Bool
is_caller outside = true
is_caller trying = false
is_caller entered = false
is_caller inside = true
is_caller leaving = false
is_caller cleared = false

pub record System : Type 0 where
  pub lock : Spinlock
  pub place : ℕ → Place

abbrev pub put : (ℕ → Place) → ℕ → Place → ℕ → Place
put f h p j = if j == h then p else f j

-- A call whose check panics has no step.
pub data Step (s t : System) : Type 0 where
  call_acquire :
      (h : ℕ) (lk : Spinlock)
      → is_caller (s.place h) ≡ true
      → acquire_check h s.lock ≡ done lk
      → t ≡ record { lock = lk; place = put s.place h trying }
      → Step s t
  exchanged :
      (h : ℕ)
      → s.place h ≡ trying
      → t ≡ record {
        lock = (exchange s.lock).1;
        place = put s.place h (if (exchange s.lock).0 then entered else trying);
      }
      → Step s t
  held :
      (h : ℕ)
      → s.place h ≡ entered
      → t ≡ record { lock = set_holder h s.lock; place = put s.place h inside }
      → Step s t
  call_release :
      (h : ℕ) (lk : Spinlock)
      → is_caller (s.place h) ≡ true
      → release_check h s.lock ≡ done lk
      → t ≡ record { lock = lk; place = put s.place h leaving }
      → Step s t
  unheld :
      (h : ℕ)
      → s.place h ≡ leaving
      → t ≡ record { lock = clear_holder s.lock; place = put s.place h cleared }
      → Step s t
  stored :
      (h : ℕ)
      → s.place h ≡ cleared
      → t ≡ record { lock = store_free s.lock; place = put s.place h outside }
      → Step s t

pub data Reach : System → Type 0 where
  start : Reach (record { lock = init_spinlock; place = λ h. outside })
  next : {s t : System} → Reach s → Step s t → Reach t
