-- ===== src/User/Stdio/Digits.antt =====
-- The digits that `int_to_str` writes are those that the loop of `scanf_read_integer` reads.
use loeux_riscv.Base.{
  ℕ, zero, suc, ◌+◌, ◌-◌, ◌*◌, ◌/◌, ◌%◌, ◌^◌, ◌<◌, Bool, true, false, ◌==◌, leb, Option, none, some,
  List, [], ◌∷◌, ◌++◌, ◌≡◌, ◌≢◌, inl, inr, Bool-cases, Option-cases, refl, sym, ◌∙◌, ap, arith,
}
use loeux_riscv.User.Stdio.{Input, int_digits, scanf_digit, read_digits}

abbrev pub pow2 : ℕ → ℕ
pow2 zero = 1
pow2 (suc n) = 2 * pow2 n

-- The number that the digits at the front of `l` make behind the number `n`, and what follows them.
abbrev pub take_digits : ℕ → List ℕ → ℕ × List ℕ
take_digits n [] = (n, [])
take_digits n (c ∷ l) = elim (scanf_digit c 10) [
  | none ↦ (n, c ∷ l)
  | some d ↦ take_digits ((n * 10 + d) % 2 ^ 64) l
]

-- The characters that the input still gives.
abbrev pub ahead_from : Option ℕ → List ℕ → List ℕ
ahead_from none l = l
ahead_from (some c) l = c ∷ l

abbrev pub ahead : Input → List ℕ
ahead s = ahead_from s.pushback s.unread

pub digit_char : (d : ℕ) → d < 10 → scanf_digit (48 + d) 10 ≡ some d
unfolding scanf_digit
digit_char d small =
    let low : leb 48 (48 + d) ≡ true = ground arith in
    let high : leb (48 + d) 57 ≡ true = ground arith in
    let value : 48 + d - 48 ≡ d = omega arith in
    let below : leb 10 d ≡ false = ground arith in rw (scanf_digit, low, high, value, below) refl

pub int_digits-take :
    (fuel n : ℕ) (temp : List ℕ)
    → n < pow2 fuel
    → n < 2 ^ 64
    → take_digits 0 (int_digits fuel n temp) ≡ take_digits n temp
unfolding int_digits
int_digits-take zero n temp enough top =
    let none_left : n ≡ 0 = omega arith in ap (λ k. take_digits k temp) (sym none_left)
int_digits-take (suc fuel) n temp enough top =
    let less : n / 10 < pow2 fuel = omega arith in
    let rest = int_digits-take fuel (n / 10) ((48 + n % 10) ∷ temp) less (omega arith) in
    let char = digit_char (n % 10) (omega arith) in
    let joined : (n / 10 * 10 + n % 10) % 2 ^ 64 ≡ n = omega arith in
    elim (Bool-cases (n == 0)) [
      | inl e ↦
          let zero_n : n ≡ 0 = ground arith in
          rw (int_digits, e) (ap (λ k. take_digits k temp) (sym zero_n))
      | inr e ↦
          rw (int_digits, e) (rest ∙ rw (take_digits, char) (ap (λ k. take_digits k temp) joined))
    ]

pub read_digits-take :
    (c : ℕ) (l : List ℕ) (n : ℕ) (found : Bool)
    → ((read_digits 10 c l n found).0 ≡ (take_digits n (c ∷ l)).0)
      × (ahead (read_digits 10 c l n found).2 ≡ (take_digits n (c ∷ l)).1)
unfolding read_digits
read_digits-take c [] n found = elim (Option-cases (scanf_digit c 10)) [
  | inl e ↦ (rw (read_digits, take_digits, e) refl, rw (read_digits, take_digits, e) refl)
  | inr (d, e) ↦ (rw (read_digits, take_digits, e) refl, rw (read_digits, take_digits, e) refl)
]
read_digits-take c (c' ∷ l) n found = elim (Option-cases (scanf_digit c 10)) [
  | inl e ↦ (rw (read_digits, take_digits, e) refl, rw (read_digits, take_digits, e) refl)
  | inr (d, e) ↦
      let rest = read_digits-take c' l ((n * 10 + d) % 2 ^ 64) true in
      (rw (read_digits, take_digits, e) rest.0, rw (read_digits, take_digits, e) rest.1)
]

pub read_digits_found : (c : ℕ) (l : List ℕ) (n : ℕ) → (read_digits 10 c l n true).1 ≡ true
unfolding read_digits
read_digits_found c [] n = elim (Option-cases (scanf_digit c 10)) [
  | inl e ↦ rw (read_digits, e) refl
  | inr (d, e) ↦ rw (read_digits, e) refl
]
read_digits_found c (c' ∷ l) n = elim (Option-cases (scanf_digit c 10)) [
  | inl e ↦ rw (read_digits, e) refl
  | inr (d, e) ↦ rw (read_digits, e) (read_digits_found c' l ((n * 10 + d) % 2 ^ 64))
]

pub read_digits_first :
    (c : ℕ) (l : List ℕ) (n d : ℕ)
    → scanf_digit c 10 ≡ some d
    → (read_digits 10 c l n false).1 ≡ true
unfolding read_digits
read_digits_first c [] n d e = rw (read_digits, e) refl
read_digits_first c (c' ∷ l) n d e =
    rw (read_digits, e) (read_digits_found c' l ((n * 10 + d) % 2 ^ 64))

-- The characters are the digits of `n`, and `tail` behind them.
pub record Numeral (n : ℕ) (tail l : List ℕ) : Type 0 where
  pub digit : ℕ
  pub others : List ℕ
  pub split : l ≡ (48 + digit) ∷ others
  pub small : digit < 10
  pub number : take_digits 0 l ≡ (n, tail)

pub int_digits-append :
    (fuel n : ℕ) (temp tail : List ℕ)
    → int_digits fuel n temp ++ tail ≡ int_digits fuel n (temp ++ tail)
unfolding int_digits
int_digits-append zero n temp tail = refl
int_digits-append (suc fuel) n temp tail = elim (Bool-cases (n == 0)) [
  | inl e ↦ rw (int_digits, e) refl
  | inr e ↦ rw (int_digits, e) (int_digits-append fuel (n / 10) ((48 + n % 10) ∷ temp) tail)
]

int_digits_head :
    (fuel n d : ℕ) (temp : List ℕ)
    → d < 10
    → (d' : ℕ) × (others : List ℕ) × (int_digits fuel n ((48 + d) ∷ temp) ≡ (48 + d') ∷ others)
      × (d' < 10)
unfolding int_digits
int_digits_head zero n d temp small = (d, temp, refl, small)
int_digits_head (suc fuel) n d temp small = elim (Bool-cases (n == 0)) [
  | inl e ↦ (d, temp, rw (int_digits, e) refl, small)
  | inr e ↦
      let (d', others, split, small') =
        int_digits_head fuel (n / 10) (n % 10) ((48 + d) ∷ temp) (omega arith) in
      (d', others, rw (int_digits, e) split, small')
]

take_digits_end :
    (n : ℕ) (c : ℕ) (l : List ℕ) → scanf_digit c 10 ≡ none → take_digits n (c ∷ l) ≡ (n, c ∷ l)
take_digits_end n c l e = rw (take_digits, e) refl

pub int_digits-Numeral :
    (fuel n c : ℕ) (l : List ℕ)
    → n ≢ 0
    → n < pow2 (suc fuel)
    → n < 2 ^ 64
    → scanf_digit c 10 ≡ none
    → Numeral n (c ∷ l) (int_digits (suc fuel) n (c ∷ l))
unfolding int_digits
int_digits-Numeral fuel n c l some_n enough top e =
    let nonzero : n == 0 ≡ false = ground arith in
    let (d, others, split, small) = int_digits_head fuel (n / 10) (n % 10) (c ∷ l) (omega arith) in
    record {
      digit = d;
      others = others;
      split = rw (int_digits, nonzero) split;
      small = small;
      number = int_digits-take (suc fuel) n (c ∷ l) enough top ∙ take_digits_end n c l e;
    }

pub zero-Numeral : (c : ℕ) (l : List ℕ) → scanf_digit c 10 ≡ none → Numeral 0 (c ∷ l) (48 ∷ c ∷ l)
unfolding scanf_digit
zero-Numeral c l e = record {
  digit = 0;
  others = c ∷ l;
  split = refl;
  small = omega arith;
  number = take_digits_end 0 c l e;
}
