-- ===== src/Sync/Spinlock/Interrupts.antt =====
-- `push_off` and `pop_off` nest: `n` of the one and `n` of the other leave the hart as it was.
use loeux_riscv.Base.{
  ℕ, zero, suc, ◌<◌, false, Outcome, done, halt, ◌>>=◌, Returns, ◌≡◌, refl, ◌∙◌, ap, arith, ◌==◌,
  if◌then◌else◌,
}
use loeux_riscv.Sync.Spinlock.Laws.{held_by}
use loeux_riscv.Sync.Spinlock.{Cpu, Spinlock, init_spinlock, push_off, pop_off, acquire, release}

-- Inside a nest interrupts are off.
abbrev pub IsNested : Cpu → Type 0
IsNested c = 0 < c.noff → c.intr ≡ false

unfoldable pub push_times : ℕ → Cpu → Cpu
push_times zero c = c
push_times (suc n) c = push_times n (push_off c)

unfoldable pub pop_times : ℕ → Cpu → Outcome Cpu
pop_times zero c = done c
pop_times (suc n) c = pop_times n c >>= pop_off

-- What a nest leaves as it found it.
pub record Restored (c c' : Cpu) : Type 0 where
  pub id : c'.id ≡ c.id
  pub noff : c'.noff ≡ c.noff
  pub intr : c'.intr ≡ c.intr

-- One level leaves all but `intena`, and inside another level that too.
pub settled : Cpu → Cpu
settled c = record c { intena = if c.noff == 0 then c.intr else c.intena }

pop-push : (c : Cpu) → IsNested c → pop_off (push_off c) ≡ done (settled c)
unfolding pop_off push_off settled
pop-push c nested = ground arith

settled_inside : (c : Cpu) → 0 < c.noff → settled c ≡ c
unfolding settled
settled_inside c h = ground arith

push_off-IsNested : (c : Cpu) → (0 < (push_off c).noff) × ((push_off c).intr ≡ false)
unfolding push_off
push_off-IsNested c = (omega arith, refl)

pop_times-push_times_inside :
    (n : ℕ) (c : Cpu) → 0 < c.noff → c.intr ≡ false → pop_times n (push_times n c) ≡ done c
unfolding pop_times push_times
pop_times-push_times_inside zero c h i = refl
pop_times-push_times_inside (suc n) c h i =
    let p = push_off-IsNested c in
    rw (pop_times-push_times_inside n (push_off c) p.0 p.1, ◌>>=◌)
      (pop-push c (λ _. i) ∙ ap done (settled_inside c h))

-- n calls of push_off and then n of pop_off, on a hart whose interrupts are off if it is inside
-- other such calls, return without a panic, with the depth and the interrupt bit as before.
pub pop_times-push_times :
    (n : ℕ) (c : Cpu) → IsNested c → Returns (pop_times n (push_times n c)) (Restored c)
unfolding pop_times push_times settled
pop_times-push_times zero c h = (c, refl, record { id = refl; noff = refl; intr = refl })
pop_times-push_times (suc n) c h =
    let p = push_off-IsNested c in
    (
      settled c,
      rw (pop_times-push_times_inside n (push_off c) p.0 p.1, ◌>>=◌) (pop-push c h),
      record { id = refl; noff = refl; intr = refl },
    )

-- A free lock taken and let go of: it is free again, interrupts are off in between and are then as
-- they were, and the holder cannot take it twice.
pub record Critical (c : Cpu) (r : Cpu × Spinlock) : Type 0 where
  pub masked : r.0.intr ≡ false
  pub again : acquire r.0 r.1 ≡ halt
  pub after : release r.0 r.1 ≡ done (settled c, init_spinlock)
  pub restored : Restored c (settled c)

-- On a hart whose interrupts are off if it is inside other such calls, acquire of a free lock
-- returns with interrupts off, a second acquire then panics, and release returns with the lock
-- free and the depth and interrupt bit as before.
pub acquire-Critical : (c : Cpu) → IsNested c → Returns (acquire c init_spinlock) (Critical c)
unfolding acquire release settled
acquire-Critical c h = (
  (push_off c, held_by c.id),
  refl,
  record {
    masked = (push_off-IsNested c).1;
    again = ground arith;
    after = ground arith;
    restored = record { id = refl; noff = refl; intr = refl };
  },
)
