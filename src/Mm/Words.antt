-- ===== src/Mm/Words.antt =====
-- The 64-bit words of a memory of bytes, the lowest byte first, as a RISC-V hart reads and writes
-- them through a pointer.
use loeux_riscv.Base.{
  ℕ, ◌+◌, ◌-◌, ◌*◌, ◌/◌, ◌%◌, ◌^◌, ◌≤◌, ◌<◌, true, ◌&&◌, ◌≡◌, ◌⊎◌, inl, inr, refl, arith, ltb, leb,
  if◌then◌else◌,
}

unfoldable pub get_word : (ℕ → ℕ) → ℕ → ℕ
get_word b a =
    b a
    + 2 ^ 8 * b (a + 1)
    + 2 ^ 16 * b (a + 2)
    + 2 ^ 24 * b (a + 3)
    + 2 ^ 32 * b (a + 4)
    + 2 ^ 40 * b (a + 5)
    + 2 ^ 48 * b (a + 6)
    + 2 ^ 56 * b (a + 7)

-- The byte `k` of the word `v`.
abbrev byte : ℕ → ℕ → ℕ
byte v k = v / 2 ^ (8 * k) % 2 ^ 8

unfoldable pub set_word : (ℕ → ℕ) → ℕ → ℕ → ℕ → ℕ
set_word b a v k = if leb a k && ltb k (a + 8) then byte v (k - a) else b k

set_word-byte : (b : ℕ → ℕ) (a v j : ℕ) → j < 8 → set_word b a v (a + j) ≡ byte v j
unfolding set_word
set_word-byte b a v j lt =
    let e : a + j - a ≡ j = omega arith in
    let t : leb a (a + j) && ltb (a + j) (a + 8) ≡ true = ground arith in rw (t, e) refl

pub set_word_outside : (b : ℕ → ℕ) (a v k : ℕ) → (k < a) ⊎ (a + 8 ≤ k) → set_word b a v k ≡ b k
unfolding set_word
set_word_outside b a v k h = ground arith

word_of_bytes :
    (v : ℕ)
    → v < 2 ^ 64
    → byte v 0
        + 2 ^ 8 * byte v 1
        + 2 ^ 16 * byte v 2
        + 2 ^ 24 * byte v 3
        + 2 ^ 32 * byte v 4
        + 2 ^ 40 * byte v 5
        + 2 ^ 48 * byte v 6
        + 2 ^ 56 * byte v 7
      ≡ v
word_of_bytes v lt = omega arith

pub get_word-set_word_self : (b : ℕ → ℕ) (a v : ℕ) → v < 2 ^ 64 → get_word (set_word b a v) a ≡ v
unfolding get_word
get_word-set_word_self b a v lt =
    let zero_off : a + 0 ≡ a = omega arith in
    let first : set_word b a v a ≡ byte v 0 =
      rw zero_off at (set_word-byte b a v 0 (omega arith)) in
    rw
      (
        first,
        set_word-byte b a v 1 (omega arith),
        set_word-byte b a v 2 (omega arith),
        set_word-byte b a v 3 (omega arith),
        set_word-byte b a v 4 (omega arith),
        set_word-byte b a v 5 (omega arith),
        set_word-byte b a v 6 (omega arith),
        set_word-byte b a v 7 (omega arith),
      )
      (word_of_bytes v lt)

-- A word is what its eight bytes say.
pub get_word-same :
    (b b' : ℕ → ℕ) (a : ℕ)
    → ((k : ℕ) → a ≤ k → k < a + 8 → b k ≡ b' k)
    → get_word b a ≡ get_word b' a
unfolding get_word
get_word-same b b' a h =
    rw
      (
        h a (omega arith) (omega arith),
        h (a + 1) (omega arith) (omega arith),
        h (a + 2) (omega arith) (omega arith),
        h (a + 3) (omega arith) (omega arith),
        h (a + 4) (omega arith) (omega arith),
        h (a + 5) (omega arith) (omega arith),
        h (a + 6) (omega arith) (omega arith),
        h (a + 7) (omega arith) (omega arith),
      )
      refl

pub get_word-zero : (b : ℕ → ℕ) (a : ℕ) → ((k : ℕ) → a ≤ k → k < a + 8 → b k ≡ 0) → get_word b a ≡ 0
unfolding get_word
get_word-zero b a h = get_word-same b (λ k. 0) a h

pub get_word-set_word_apart :
    (b : ℕ → ℕ) (a v c : ℕ) → (c + 8 ≤ a) ⊎ (a + 8 ≤ c) → get_word (set_word b a v) c ≡ get_word b c
get_word-set_word_apart b a v c (inl h) =
    get_word-same (set_word b a v) b c (λ k low high. set_word_outside b a v k (inl (omega arith)))
get_word-set_word_apart b a v c (inr h) =
    get_word-same (set_word b a v) b c (λ k low high. set_word_outside b a v k (inr (omega arith)))
