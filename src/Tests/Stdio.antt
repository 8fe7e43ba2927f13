-- ===== src/Tests/Stdio.antt =====
-- A negative number, with a line feed behind it.
use loeux_riscv.Base.{◌-◌, ◌%◌, ◌^◌, [], ◌∷◌, ◌++◌, ◌≡◌, refl, arith}
use loeux_riscv.User.Stdio.{
  magnitude, int_digits, int_to_str, scanf_digit, matched, scanf_read_integer,
}
use loeux_riscv.User.Stdio.Digits.{ahead}
use loeux_riscv.User.Stdio.Laws.{typed, scanf_read_integer-int_to_str}

minus_forty_two : int_to_str (2 ^ 64 - 42) ≡ 45 ∷ 52 ∷ 50 ∷ []
unfolding int_to_str magnitude int_digits
minus_forty_two = refl

scanf_read_integer-int_to_str_example :
    ((scanf_read_integer (typed (int_to_str (2 ^ 64 - 42) ++ 10 ∷ []))).0
      ≡ matched ((2 ^ 64 - 42) % 2 ^ 32))
    × (ahead (scanf_read_integer (typed (int_to_str (2 ^ 64 - 42) ++ 10 ∷ []))).1 ≡ 10 ∷ [])
unfolding scanf_digit
scanf_read_integer-int_to_str_example =
    scanf_read_integer-int_to_str (2 ^ 64 - 42) 10 [] (omega arith) refl
