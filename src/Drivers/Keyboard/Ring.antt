-- ===== src/Drivers/Keyboard/Ring.antt =====
-- The ring is a queue of at most 255 characters.
use loeux_riscv.Base.{
  ℕ, zero, suc, ◌+◌, ◌-◌, ◌%◌, ◌≤◌, ◌<◌, true, false, Option, none, some, List, [], ◌∷◌, ◌++◌,
  length, update, ◌>>=◌, Returns, ◌≡◌, ◌≢◌, refl, sym, ap, arith, ◌==◌, ltb, if◌then◌else◌,
  Bool-cases, inl, inr,
}
use loeux_riscv.Drivers.Keyboard.{
  Keyboard, buf_full, buf_empty, buf_store, buf_push, store_all, buf_push_n, buf_pop,
}
use loeux_riscv.Sync.Spinlock.Laws.{take_free, drop_held}
use loeux_riscv.Sync.Spinlock.{init_spinlock}

-- `n` characters from the index `h` on.
unfoldable pub read : (ℕ → ℕ) → ℕ → ℕ → List ℕ
read buf h zero = []
read buf h (suc n) = buf h ∷ read buf ((h + 1) % 256) n

abbrev pub filled : Keyboard → ℕ
filled kb = (kb.tail + 256 - kb.head) % 256

unfoldable pub contents : Keyboard → List ℕ
contents kb = read kb.buf kb.head (filled kb)

pub record IsRing (kb : Keyboard) : Type 0 where
  pub head : kb.head < 256
  pub tail : kb.tail < 256
  pub unlocked : kb.lock ≡ init_spinlock

length-read : (buf : ℕ → ℕ) (h n : ℕ) → length (read buf h n) ≡ n
unfolding read
length-read buf h zero = refl
length-read buf h (suc n) = ap suc (length-read buf ((h + 1) % 256) n)

pub length-contents : (kb : Keyboard) → length (contents kb) ≡ filled kb
unfolding contents
length-contents kb = length-read kb.buf kb.head (filled kb)

-- A write `m` places behind the head does not touch the first `n`.
read-update :
    (buf : ℕ → ℕ) (h n m c : ℕ)
    → h < 256
    → n ≤ m
    → m < 256
    → read (update buf ((h + m) % 256) c) h n ≡ read buf h n
unfolding read
read-update buf h zero m c k le lt = refl
read-update buf h (suc n) m c k le lt =
    let e : (h + m) % 256 ≡ ((h + 1) % 256 + (m - 1)) % 256 = omega arith in
    let rest : read (update buf ((h + m) % 256) c) ((h + 1) % 256) n ≡ read buf ((h + 1) % 256) n =
      rw e
        (read-update buf ((h + 1) % 256) n (m - 1) c (omega arith) (omega arith) (omega arith)) in
    let apart : h ≢ (h + m) % 256 = omega arith in rw rest (ground arith)

read-snoc :
    (buf : ℕ → ℕ) (h n : ℕ)
    → h < 256
    → read buf h (suc n) ≡ read buf h n ++ buf ((h + n) % 256) ∷ []
unfolding read
read-snoc buf h zero k = let e : (h + 0) % 256 ≡ h = omega arith in rw e refl
read-snoc buf h (suc n) k =
    let e : (h + suc n) % 256 ≡ ((h + 1) % 256 + n) % 256 = omega arith in
    rw e (ap (λ (l : List ℕ). buf h ∷ l) (read-snoc buf ((h + 1) % 256) n (omega arith)))

-- The write behind the last of `n` characters makes it one more.
read-append :
    (buf : ℕ → ℕ) (h t n c : ℕ)
    → h < 256
    → n < 255
    → (h + n) % 256 ≡ t
    → read (update buf t c) h (suc n) ≡ read buf h n ++ c ∷ []
read-append buf h t n c k lt end =
    let kept : read (update buf t c) h n ≡ read buf h n =
      rw (sym end) (read-update buf h n n c k (omega arith) (omega arith)) in
    rw (read-snoc (update buf t c) h n k, kept, end) (ground arith)

-- Full is 255 characters, empty is none.
full_iff : (kb : Keyboard) → IsRing kb → buf_full kb ≡ (filled kb == 255)
unfolding buf_full
full_iff kb v = ground arith

buf_store-contents :
    (kb : Keyboard) (c : ℕ)
    → IsRing kb
    → buf_full kb ≡ false
    → IsRing (buf_store kb c) × (contents (buf_store kb c) ≡ contents kb ++ c ∷ [])
unfolding buf_store contents
buf_store-contents kb c v room =
    let n = filled kb in
    let short : n < 255 = ground (arith, full_iff kb v) in
    let end : (kb.head + n) % 256 ≡ kb.tail = ground (arith, v.head, v.tail) in
    let more : ((kb.tail + 1) % 256 + 256 - kb.head) % 256 ≡ suc n =
      ground (arith, v.head, v.tail) in
    (
      record { head = v.head; tail = omega arith; unlocked = v.unlocked },
      rw more (read-append kb.buf kb.head kb.tail n c v.head short end),
    )

-- What a ring holds after the characters `s`: those for which there is room.
abbrev pub fill : List ℕ → List ℕ → List ℕ
fill l [] = l
fill l (c ∷ s) = if ltb (length l) 255 then fill (l ++ c ∷ []) s else l

store_all-contents :
    (kb : Keyboard) (s : List ℕ)
    → IsRing kb
    → IsRing (store_all kb s) × (contents (store_all kb s) ≡ fill (contents kb) s)
unfolding store_all
store_all-contents kb [] v = (v, refl)
store_all-contents kb (c ∷ s) v = elim (Bool-cases (buf_full kb)) [
  | inl full ↦
      let e : ltb (length (contents kb)) 255 ≡ false =
        ground (arith, full_iff kb v, length-contents kb) in
      rw (full, e) (v, refl)
  | inr room ↦
      let e : ltb (length (contents kb)) 255 ≡ true =
        ground (arith, full_iff kb v, length-contents kb) in
      let (ring, held) = buf_store-contents kb c v room in
      rw (room, e, sym held) (store_all-contents (buf_store kb c) s ring)
]

-- What a push of the characters `s` made of the ring.
pub record Pushed (kb : Keyboard) (s : List ℕ) (r : Keyboard) : Type 0 where
  pub ring : IsRing r
  pub held : contents r ≡ fill (contents kb) s
  pub shift : r.shift ≡ kb.shift
  pub ctrl : r.ctrl ≡ kb.ctrl

store_all_flags :
    (kb : Keyboard) (s : List ℕ)
    → ((store_all kb s).shift ≡ kb.shift) × ((store_all kb s).ctrl ≡ kb.ctrl)
unfolding store_all buf_store
store_all_flags kb [] = (refl, refl)
store_all_flags kb (c ∷ s) = elim (Bool-cases (buf_full kb)) [
  | inl full ↦ rw full (refl, refl)
  | inr room ↦ rw room (store_all_flags (buf_store kb c) s)
]

-- On a sound ring whose lock is free, buf_push_n returns with a sound ring, the lock free, that
-- holds the characters it held and then those of the new ones for which there is room below 255;
-- Shift and Ctrl are as before.
pub buf_push_n-Pushed :
    (hart : ℕ) (kb : Keyboard) (s : List ℕ)
    → IsRing kb
    → Returns (buf_push_n hart kb s) (Pushed kb s)
unfolding buf_push_n contents
buf_push_n-Pushed hart kb s v =
    let (ring, held) = store_all-contents kb s v in
    let (shift, ctrl) = store_all_flags kb s in
    (
      record (store_all kb s) { lock = init_spinlock },
      rw (v.unlocked, take_free hart, ◌>>=◌, drop_held hart) refl,
      record {
        ring = record { head = ring.head; tail = ring.tail; unlocked = refl };
        held = held;
        shift = shift;
        ctrl = ctrl;
      },
    )

pub buf_push-eq-buf_push_n :
    (hart : ℕ) (kb : Keyboard) (c : ℕ) → buf_push hart kb c ≡ buf_push_n hart kb (c ∷ [])
unfolding buf_push buf_push_n store_all
buf_push-eq-buf_push_n hart kb c = refl

-- What a pop answered and left.
pub record Popped (kb : Keyboard) (r : Option ℕ × Keyboard) : Type 0 where
  pub ring : IsRing r.1
  pub first : contents kb ≡ (elim r.0 [ none ↦ [] | some c ↦ c ∷ contents r.1 ])
  pub drained : r.0 ≡ none → contents r.1 ≡ []

-- On a sound ring whose lock is free, buf_pop returns with a sound ring, the lock free: it answers
-- the first character held and leaves the rest, or answers -1 where none is held and leaves none.
pub buf_pop-Popped : (hart : ℕ) (kb : Keyboard) → IsRing kb → Returns (buf_pop hart kb) (Popped kb)
unfolding buf_pop buf_empty contents read
buf_pop-Popped hart kb v = elim (Bool-cases (buf_empty kb)) [
  | inl e ↦
      let z : filled kb ≡ 0 = ground (arith, v.head, v.tail) in
      (
        (none, record kb { lock = init_spinlock }),
        rw (v.unlocked, take_free hart, ◌>>=◌, drop_held hart, ◌>>=◌, e) refl,
        record {
          ring = record { head = v.head; tail = v.tail; unlocked = refl };
          first = rw z refl;
          drained = λ _. rw z refl;
        },
      )
  | inr e ↦
      let rest : filled kb ≡ suc ((kb.tail + 256 - (kb.head + 1) % 256) % 256) =
        ground (arith, v.head, v.tail) in
      (
        (some (kb.buf kb.head), record kb { head = (kb.head + 1) % 256; lock = init_spinlock }),
        rw (v.unlocked, take_free hart, ◌>>=◌, drop_held hart, ◌>>=◌, e) refl,
        record {
          ring = record { head = omega arith; tail = v.tail; unlocked = refl };
          first = rw rest refl;
          drained = λ n. ground arith;
        },
      )
]
