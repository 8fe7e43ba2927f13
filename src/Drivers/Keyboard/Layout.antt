-- ===== src/Drivers/Keyboard/Layout.antt =====
-- The US layout of a keyboard by its rows, apart from the tables of the driver.
use loeux_riscv.Base.{
  ℕ, ◌+◌, ◌-◌, Bool, ◌&&◌, not, List, [], ◌∷◌, get_or, ◌==◌, ltb, leb, if◌then◌else◌,
}

-- The entry of a row that starts at the key `first`, 0 outside the row.
unfoldable pub row_at : ℕ → List ℕ → ℕ → ℕ
row_at first row code = if leb first code then get_or row (code - first) 0 else 0

-- The place in the alphabet of the letter on a key, from 1 on: the rows from Q, from A and from Z.
unfoldable pub letter_at : ℕ → ℕ
unfolding row_at
letter_at code =
    row_at 16 (17 ∷ 23 ∷ 5 ∷ 18 ∷ 20 ∷ 25 ∷ 21 ∷ 9 ∷ 15 ∷ 16 ∷ []) code
    + row_at 30 (1 ∷ 19 ∷ 4 ∷ 6 ∷ 7 ∷ 8 ∷ 10 ∷ 11 ∷ 12 ∷ []) code
    + row_at 44 (26 ∷ 24 ∷ 3 ∷ 22 ∷ 2 ∷ 14 ∷ 13 ∷ []) code

-- The digit 1 to 9 of a key, 10 for the key 0.
unfoldable pub digit_at : ℕ → ℕ
digit_at code = if leb 2 code && leb code 11 then code - 1 else 0

-- The signs ! @ # $ % ^ & * ( ) above the digits, and the other keys with and without Shift.
unfoldable pub shifted_sign : ℕ → ℕ
unfolding row_at
shifted_sign code =
    row_at 2 (33 ∷ 64 ∷ 35 ∷ 36 ∷ 37 ∷ 94 ∷ 38 ∷ 42 ∷ 40 ∷ 41 ∷ 95 ∷ 43 ∷ []) code
    + row_at 26 (123 ∷ 125 ∷ []) code
    + row_at 39 (58 ∷ 34 ∷ 126 ∷ []) code
    + row_at 43 (124 ∷ []) code
    + row_at 51 (60 ∷ 62 ∷ 63 ∷ []) code

unfoldable pub plain_sign : ℕ → ℕ
unfolding row_at digit_at
plain_sign code =
    (if digit_at code == 0 then 0 else if digit_at code == 10 then 48 else 48 + digit_at code)
    + row_at 12 (45 ∷ 61 ∷ []) code
    + row_at 26 (91 ∷ 93 ∷ []) code
    + row_at 39 (59 ∷ 39 ∷ 96 ∷ []) code
    + row_at 43 (92 ∷ []) code
    + row_at 51 (44 ∷ 46 ∷ 47 ∷ []) code
    + row_at 1 (27 ∷ []) code
    + row_at 14 (8 ∷ 9 ∷ []) code
    + row_at 28 (10 ∷ []) code
    + row_at 57 (32 ∷ []) code

-- The last letter of the escape sequence of an arrow key: up, down, right and left are A to D.
unfoldable pub arrow_at : ℕ → ℕ
unfolding row_at
arrow_at code =
    row_at 103 (65 ∷ []) code
    + row_at 108 (66 ∷ []) code
    + row_at 106 (67 ∷ []) code
    + row_at 105 (68 ∷ []) code

abbrev nonzero_char : ℕ → List ℕ
nonzero_char c = if c == 0 then [] else c ∷ []

-- The characters of a key below 128 with Shift and Ctrl held or not: an arrow gives ESC [ and its
-- letter, a letter with Ctrl alone its place in the alphabet.
unfoldable pub key_text : Bool → Bool → ℕ → List ℕ
unfolding letter_at arrow_at shifted_sign plain_sign
key_text shift ctrl code =
    if not (arrow_at code == 0)
    then 27 ∷ 91 ∷ arrow_at code ∷ []
    else if not (letter_at code == 0)
    then (if shift
        then 64 + letter_at code
        else if ctrl
        then letter_at code
        else 96 + letter_at code)
      ∷ []
    else nonzero_char (if shift then shifted_sign code else plain_sign code)

-- Only a key that goes down, with the value 1, types.
unfoldable pub typed_text : Bool → Bool → ℕ → ℕ → List ℕ
unfolding key_text
typed_text shift ctrl code value =
    if value == 1 && ltb code 128 then key_text shift ctrl code else []
