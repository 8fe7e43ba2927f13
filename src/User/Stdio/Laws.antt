-- ===== src/User/Stdio/Laws.antt =====
-- `%d` of scanf reads back what `%d` of printf writes.
use loeux_riscv.Base.{
  ℕ, ◌+◌, ◌-◌, ◌%◌, ◌^◌, ◌<◌, Bool, true, false, ◌==◌, leb, if◌then◌else◌, none, List, [], ◌∷◌,
  ◌++◌, ◌≡◌, ◌≢◌, inl, inr, refl, sym, ◌∙◌, ap, arith, Bool-cases,
}
use mathlib.Core.Path.{subst}
use loeux_riscv.User.Stdio.{
  Input, int_digits, magnitude, int_to_str, scanf_digit, scanf_getchar, next_char, scanf_skip_space,
  skip_from, skip_unread, scanf_is_space, read_digits, matched, finish_int, after_sign,
  scanf_read_integer,
}
use loeux_riscv.User.Stdio.Digits.{
  Numeral, ahead, digit_char, read_digits-take, read_digits_first, int_digits-append,
  int_digits-Numeral, zero-Numeral,
}

-- The input that has yet to give the characters `l`.
abbrev pub typed : List ℕ → Input
typed l = record { pushback = none; unread = l }

-- The bits of the `int` that a number and its sign make.
abbrev pub signed : Bool → ℕ → ℕ
signed negative n = if negative then (2 ^ 32 - n % 2 ^ 32) % 2 ^ 32 else n % 2 ^ 32

read_digits-Numeral :
    (negative : Bool) (n d : ℕ) (tail others : List ℕ)
    → d < 10
    → Numeral n tail ((48 + d) ∷ others)
    → ((finish_int negative (read_digits 10 (48 + d) others 0 false)).0
        ≡ matched (signed negative n))
      × (ahead (finish_int negative (read_digits 10 (48 + d) others 0 false)).1 ≡ tail)
unfolding finish_int
read_digits-Numeral negative n d tail others small k =
    let found = read_digits_first (48 + d) others 0 d (digit_char d small) in
    let (number, behind) = read_digits-take (48 + d) others 0 false in
    (
      rw (finish_int, found)
          (ap (λ m. matched (signed negative m)) (number ∙ ap (λ p. p.0) k.number)),
      rw (finish_int, found) (behind ∙ ap (λ p. p.1) k.number),
    )

-- The numeral without a sign.
reads_plain :
    (n d : ℕ) (tail others : List ℕ)
    → d < 10
    → Numeral n tail ((48 + d) ∷ others)
    → ((scanf_read_integer (typed ((48 + d) ∷ others))).0 ≡ matched (signed false n))
      × (ahead (scanf_read_integer (typed ((48 + d) ∷ others))).1 ≡ tail)
unfolding scanf_read_integer scanf_skip_space skip_from skip_unread scanf_is_space scanf_getchar
    next_char
reads_plain n d tail others small k =
    let solid : scanf_is_space (48 + d) ≡ false = ground arith in
    let minus : 48 + d == 45 ≡ false = ground arith in
    let plus : 48 + d == 43 ≡ false = ground arith in
    let read = read_digits-Numeral false n d tail others small k in
    (
      rw
          (
            scanf_read_integer, scanf_skip_space, skip_from, skip_unread, solid, scanf_getchar,
            next_char, minus, plus,
          )
          read.0,
      rw
          (
            scanf_read_integer, scanf_skip_space, skip_from, skip_unread, solid, scanf_getchar,
            next_char, minus, plus,
          )
          read.1,
    )

reads_minus :
    (n d : ℕ) (tail others : List ℕ)
    → d < 10
    → Numeral n tail ((48 + d) ∷ others)
    → ((scanf_read_integer (typed (45 ∷ (48 + d) ∷ others))).0 ≡ matched (signed true n))
      × (ahead (scanf_read_integer (typed (45 ∷ (48 + d) ∷ others))).1 ≡ tail)
unfolding scanf_read_integer scanf_skip_space skip_from skip_unread scanf_is_space scanf_getchar
    next_char after_sign
reads_minus n d tail others small k = read_digits-Numeral true n d tail others small k

magnitude_bound : (num : ℕ) → num < 2 ^ 64 → magnitude num < 2 ^ 64
unfolding magnitude
magnitude_bound num top = ground arith

-- The characters of the magnitude of `num`.
int_to_str-Numeral :
    (num c : ℕ) (l : List ℕ)
    → num < 2 ^ 64
    → scanf_digit c 10 ≡ none
    → Numeral
        (magnitude num)
        (c ∷ l)
        ((if magnitude num == 0 then 48 ∷ [] else int_digits 64 (magnitude num) []) ++ c ∷ l)
int_to_str-Numeral num c l top e =
    let low : magnitude num < 2 ^ 64 = magnitude_bound num top in
    elim (Bool-cases (magnitude num == 0)) [
      | inl z ↦ let n : magnitude num ≡ 0 = ground arith in rw (z, n) (zero-Numeral c l e)
      | inr z ↦
          let n : magnitude num ≢ 0 = λ q. ground arith in
          rw (z, int_digits-append 64 (magnitude num) [] (c ∷ l))
            (int_digits-Numeral 63 (magnitude num) c l n low low e)
    ]

signed-magnitude :
    (num : ℕ) → num < 2 ^ 64 → signed (leb (2 ^ 63) num) (magnitude num) ≡ num % 2 ^ 32
unfolding magnitude
signed-magnitude num top = elim (Bool-cases (leb (2 ^ 63) num)) [
  | inl e ↦ rw (magnitude, e) (omega arith)
  | inr e ↦ rw (magnitude, e) refl
]

-- For every 64-bit num, where the input gives the characters of int_to_str num, then a character
-- that is no digit, and then any others, with nothing pushed back, scanf_read_integer for %d
-- matches and stores the low 32 bits of num; the input then gives the character behind the number
-- next, and the others after it.
pub scanf_read_integer-int_to_str :
    (num c : ℕ) (l : List ℕ)
    → num < 2 ^ 64
    → scanf_digit c 10 ≡ none
    → ((scanf_read_integer (typed (int_to_str num ++ c ∷ l))).0 ≡ matched (num % 2 ^ 32))
      × (ahead (scanf_read_integer (typed (int_to_str num ++ c ∷ l))).1 ≡ c ∷ l)
unfolding int_to_str
scanf_read_integer-int_to_str num c l top e =
    let k = int_to_str-Numeral num c l top e in
    let value = signed-magnitude num top in
    let k' = subst (λ s. Numeral (magnitude num) (c ∷ l) s) k.split k in
    elim (Bool-cases (leb (2 ^ 63) num)) [
      | inl s ↦
          let read = reads_minus (magnitude num) k.digit (c ∷ l) k.others k.small k' in
          let same : matched (signed true (magnitude num)) ≡ matched (num % 2 ^ 32) =
            ap matched (ap (λ b. signed b (magnitude num)) (sym s) ∙ value) in
          rw (int_to_str, s, k.split) (read.0 ∙ same, read.1)
      | inr s ↦
          let read = reads_plain (magnitude num) k.digit (c ∷ l) k.others k.small k' in
          let same : matched (signed false (magnitude num)) ≡ matched (num % 2 ^ 32) =
            ap matched (ap (λ b. signed b (magnitude num)) (sym s) ∙ value) in
          rw (int_to_str, s, k.split) (read.0 ∙ same, read.1)
    ]
