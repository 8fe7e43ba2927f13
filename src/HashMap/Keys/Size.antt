-- ===== src/HashMap/Keys/Size.antt =====
-- When the rounding loop of `round_up_pow2` ends, and with which size.
use native.Mathlib.Nat.{pow-suc, mul-le-mul_left}
use loeux_riscv.Base.{
  ℕ, zero, suc, ◌*◌, ◌^◌, ◌%◌, ◌≤◌, ◌<◌, spin, Returns, ◌≡◌, ◌∙◌, ◌⊎◌, inl, inr, refl, sym, arith,
  Bool-cases, ltb,
}
use loeux_riscv.HashMap.Keys.{double_until, round_up_pow2}

pub one-le-pow : (j : ℕ) → 1 ≤ 2 ^ j
one-le-pow zero = omega arith
one-le-pow (suc j) = omega (arith, one-le-pow j, pow-suc 2 j)

-- The value at which the loop stops: a doubling of `p` that reaches `n`, and the first one.
abbrev pub IsRounded : ℕ → ℕ → ℕ → Type 0
IsRounded p n r = ((i : ℕ) × (r ≡ p * 2 ^ i)) × (n ≤ r) × ((r ≡ p) ⊎ (r < 2 * n))

pow_double : (p j : ℕ) → p * 2 ^ suc j ≡ p * 2 * 2 ^ j
pow_double p j = rw (pow-suc 2 j) (omega arith)

double : (p j : ℕ) → p * 2 ^ suc j ≡ 2 ^ 31 → (p * 2 % 2 ^ 32 ≡ p * 2) × (p * 2 * 2 ^ j ≡ 2 ^ 31)
double p j h =
    let e : p * 2 * 2 ^ j ≡ 2 ^ 31 = sym (pow_double p j) ∙ h in
    let small : p * 2 * 1 ≤ p * 2 * 2 ^ j = mul-le-mul_left (p * 2) (one-le-pow j) in
    (omega arith, e)

below_top : (p j : ℕ) → p * 2 ^ j ≡ 2 ^ 31 → p ≤ 2 ^ 31
below_top p j e = let small : p * 1 ≤ p * 2 ^ j = mul-le-mul_left p (one-le-pow j) in omega arith

stop : (f p n : ℕ) → n ≤ p → Returns (double_until (suc f) p n) (IsRounded p n)
unfolding double_until
stop f p n h = (p, ground arith, ((0, omega arith), h, inl refl))

double_until-IsRounded :
    (j f p n : ℕ)
    → p * 2 ^ j ≡ 2 ^ 31
    → j < f
    → n ≤ 2 ^ 31
    → Returns (double_until f p n) (IsRounded p n)
unfolding double_until
double_until-IsRounded j zero p n e h m = absurd (omega arith)
double_until-IsRounded zero (suc f) p n e h m = stop f p n (omega arith)
double_until-IsRounded (suc j) (suc f) p n e h m = elim (Bool-cases (ltb p n)) [
  | inr reached ↦ stop f p n (ground arith)
  | inl below ↦
      let (wraps, e') = double p j e in
      let (r, run, ((i, power), large, first)) =
        double_until-IsRounded j f (p * 2) n e' (omega arith) m in
      (
        r,
        rw (below, wraps, run),
        ((suc i, power ∙ sym (pow_double p i)), large, inr (ground arith)),
      )
]

-- For every n up to 2^31 the rounding loop ends within 32 rounds, with 8 times a power of two that
-- is at least n and is 8 or less than 2 n: the least such size.
pub round_up_pow2-IsRounded : (n : ℕ) → n ≤ 2 ^ 31 → Returns (round_up_pow2 n) (IsRounded 8 n)
unfolding round_up_pow2
round_up_pow2-IsRounded n h = double_until-IsRounded 28 32 8 n refl (omega arith) h

double_until_zero : (f n : ℕ) → 0 < n → double_until f 0 n ≡ spin
unfolding double_until
double_until_zero zero n h = refl
double_until_zero (suc f) n h = ground (arith, double_until_zero f n h)

double_until-spin : (j f p n : ℕ) → p * 2 ^ j ≡ 2 ^ 31 → 2 ^ 31 < n → double_until f p n ≡ spin
unfolding double_until
double_until-spin j zero p n e h = refl
double_until-spin zero (suc f) p n e h =
    let top : p ≡ 2 ^ 31 = omega arith in rw top (ground (arith, double_until_zero f n))
double_until-spin (suc j) (suc f) p n e h =
    let (wraps, e') = double p j e in
    ground (arith, below_top p (suc j), double_until-spin j f (p * 2) n e' h, wraps)

-- Above 2^31 the loop ends after no number of rounds: `p` leaves the 32 bits and stays 0.
pub double_until_large : (f n : ℕ) → 2 ^ 31 < n → double_until f 8 n ≡ spin
double_until_large f n h = double_until-spin 28 f 8 n refl h
