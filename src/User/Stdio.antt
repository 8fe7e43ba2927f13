-- ===== src/User/Stdio.antt =====
-- Numbers in user/stdio.c: `int_to_str` of printf and `scanf_read_integer` of scanf. A character is its
-- code, and a string is the list of its characters before the terminating 0.
pub mod Digits
pub mod Laws
use loeux_riscv.Base.{
  ℕ, zero, suc, ◌+◌, ◌-◌, ◌*◌, ◌/◌, ◌%◌, ◌^◌, Bool, true, false, ◌&&◌, ◌||◌, ◌==◌, ltb, leb,
  if◌then◌else◌, Option, none, some, List, [], ◌∷◌,
}

-- The loop of `int_to_str`, on fuel for the digits. `temp` is copied from its end, so that the list
-- here has the newest character first.
unfoldable pub int_digits : ℕ → ℕ → List ℕ → List ℕ
int_digits zero n temp = temp
int_digits (suc fuel) n temp =
    let rest = int_digits fuel (n / 10) ((48 + n % 10) ∷ temp) in if n == 0 then temp else rest

-- The magnitude of the `long long` with the bits `num`.
unfoldable pub magnitude : ℕ → ℕ
magnitude num = if leb (2 ^ 63) num then 2 ^ 64 - num else num

unfoldable pub int_to_str : ℕ → List ℕ
int_to_str num =
    let n = magnitude num in
    let temp = if n == 0 then 48 ∷ [] else int_digits 64 n [] in
    if leb (2 ^ 63) num then 45 ∷ temp else temp

-- `scanf_pushback` with its flag, which `scanf_ungetchar` sets, and the characters that `read` will give.
pub record Input : Type 0 where
  pub pushback : Option ℕ
  pub unread : List ℕ

unfoldable pub next_char : Option ℕ → List ℕ → Option (ℕ × Input)
next_char (some c) l = some (c, record { pushback = none; unread = l })
next_char none [] = none
next_char none (c ∷ l) = some (c, record { pushback = none; unread = l })

-- `none` is EOF.
unfoldable pub scanf_getchar : Input → Option (ℕ × Input)
scanf_getchar s = next_char s.pushback s.unread

unfoldable pub scanf_is_space : ℕ → Bool
scanf_is_space c = c == 32 || c == 9 || c == 10 || c == 13 || c == 11 || c == 12

unfoldable pub skip_unread : List ℕ → Input
skip_unread [] = record { pushback = none; unread = [] }
skip_unread (c ∷ l) =
    let rest = skip_unread l in
    if scanf_is_space c then rest else record { pushback = some c; unread = l }

unfoldable pub skip_from : Option ℕ → List ℕ → Input
skip_from none l = skip_unread l
skip_from (some c) l = skip_unread (c ∷ l)

unfoldable pub scanf_skip_space : Input → Input
scanf_skip_space s = skip_from s.pushback s.unread

-- `none` is the answer -1.
unfoldable pub scanf_digit : ℕ → ℕ → Option ℕ
scanf_digit c base =
    let below : ℕ → Option ℕ = λ v. if leb base v then none else some v in
    if leb 48 c && leb c 57
    then below (c - 48)
    else if leb 97 c && leb c 102
    then below (c - 97 + 10)
    else if leb 65 c && leb c 70
    then below (c - 65 + 10)
    else none

-- The loop of `scanf_read_integer` at the character `c`, with `l` to be read and nothing given back:
-- the number, whether a digit was found, and the input.
unfoldable pub read_digits : ℕ → ℕ → List ℕ → ℕ → Bool → ℕ × Bool × Input
read_digits base c [] number found = elim (scanf_digit c base) [
  | none ↦ (number, found, record { pushback = some c; unread = [] })
  | some d ↦ ((number * base + d) % 2 ^ 64, true, record { pushback = none; unread = [] })
]
read_digits base c (c' ∷ l) number found = elim (scanf_digit c base) [
  | none ↦ (number, found, record { pushback = some c; unread = c' ∷ l })
  | some d ↦ read_digits base c' l ((number * base + d) % 2 ^ 64) true
]

pub data Scanned : Type 0 where
  eof : Scanned
  unmatched : Scanned
  matched : ℕ → Scanned

-- The end of `scanf_read_integer` for `%d`: the 32 bits of the `int`.
unfoldable pub finish_int : Bool → ℕ × Bool × Input → Scanned × Input
finish_int negative r =
    if r.1
    then (matched (if negative then (2 ^ 32 - r.0 % 2 ^ 32) % 2 ^ 32 else r.0 % 2 ^ 32), r.2)
    else (unmatched, r.2)

-- After the sign the next character, or 0.
unfoldable pub after_sign : Bool → Input → Scanned × Input
after_sign negative s = elim (scanf_getchar s) [
  | none ↦ (unmatched, s)
  | some r ↦ finish_int negative (read_digits 10 r.0 r.1.unread 0 false)
]

-- `scanf_read_integer` for `%d`.
unfoldable pub scanf_read_integer : Input → Scanned × Input
scanf_read_integer s =
    let s₁ = scanf_skip_space s in
    elim (scanf_getchar s₁) [
      | none ↦ (eof, s₁)
      | some r ↦
          if r.0 == 45
          then after_sign true r.1
          else if r.0 == 43
          then after_sign false r.1
          else finish_int false (read_digits 10 r.0 r.1.unread 0 false)
    ]
