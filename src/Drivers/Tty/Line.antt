-- ===== src/Drivers/Tty/Line.antt =====
-- The line that a session edits, as a list of characters.
use loeux_riscv.Base.{
  ℕ, zero, suc, ◌+◌, ◌-◌, ◌≤◌, ◌<◌, true, false, List, [], ◌∷◌, ◌++◌, length, get_or, update,
  length-append, ◌≡◌, refl, arith, ◌==◌, ltb, if◌then◌else◌, Bool-cases, inl, inr,
}
use loeux_riscv.Drivers.Tty.{Tty, is_newline, is_erase, edit_line}

abbrev pub init : List ℕ → List ℕ
init [] = []
init (c ∷ []) = []
init (c ∷ d ∷ l) = c ∷ init (d ∷ l)

-- A character edits a line: an erasing one takes the last character away, any other is added where
-- the line has room.
unfoldable pub edit : List ℕ → ℕ → List ℕ
edit l c = if is_erase c then init l else if ltb (length l) 511 then l ++ c ∷ [] else l

unfoldable pub edited : List ℕ → List ℕ → List ℕ
unfolding edit
edited l [] = l
edited l (c ∷ s) = edited (edit l c) s

pub length-init : (l : List ℕ) → length (init l) ≡ length l - 1
length-init [] = refl
length-init (c ∷ []) = refl
length-init (c ∷ d ∷ l) = ground (arith, length-init (d ∷ l))

pub get_or-init : (l : List ℕ) (j : ℕ) → j < length l - 1 → get_or (init l) j 0 ≡ get_or l j 0
get_or-init [] j h = refl
get_or-init (c ∷ []) j h = absurd (omega arith)
get_or-init (c ∷ d ∷ l) zero h = refl
get_or-init (c ∷ d ∷ l) (suc j) h = get_or-init (d ∷ l) j (omega arith)

pub get_or-append : (l : List ℕ) (c j : ℕ) → j < length l → get_or (l ++ c ∷ []) j 0 ≡ get_or l j 0
get_or-append [] c j h = absurd (omega arith)
get_or-append (x ∷ l) c zero h = refl
get_or-append (x ∷ l) c (suc j) h = get_or-append l c j (omega arith)

pub get_or-last : (l : List ℕ) (c : ℕ) → get_or (l ++ c ∷ []) (length l) 0 ≡ c
get_or-last [] c = refl
get_or-last (x ∷ l) c = get_or-last l c

-- The first `n` characters from the start of `buf` are `l`.
pub record Spells (buf : ℕ → ℕ) (n : ℕ) (l : List ℕ) : Type 0 where
  pub size : n ≡ length l
  pub chars : (j : ℕ) → j < n → buf j ≡ get_or l j 0

pub Spells-add :
    (buf : ℕ → ℕ) (n : ℕ) (l : List ℕ) (c : ℕ)
    → Spells buf n l
    → Spells (update buf n c) (n + 1) (l ++ c ∷ [])
Spells-add buf n l c h = record {
  size = ground (arith, length-append l (c ∷ []), h.size);
  chars = λ j lt. elim (Bool-cases (j == n)) [
    | inl e ↦ ground (arith, get_or-last l c, h.size)
    | inr e ↦ ground (arith, get_or-append l c j, h.size, h.chars j)
  ];
}

pub Spells-init : (buf : ℕ → ℕ) (n : ℕ) (l : List ℕ) → Spells buf n l → Spells buf (n - 1) (init l)
Spells-init buf n l h = record {
  size = ground (arith, length-init l, h.size);
  chars = λ j lt. ground (arith, get_or-init l j, h.size, h.chars j);
}

module _ {ℓ} {D : Type ℓ} where
  -- The session edits the line `l`, which is not at its end.
  pub record IsEditing (tty : Tty D) (l : List ℕ) : Type 0 where
    pub spells : Spells tty.linebuf tty.linepos l
    pub bound : length l ≤ 511
    pub open_line : tty.line_ready ≡ false

  pub record IsReady (tty : Tty D) (l : List ℕ) : Type 0 where
    pub spells : Spells tty.linebuf tty.linepos l
    pub bound : length l ≤ 512
    pub ready : tty.line_ready ≡ true

  pub edit_line-edit :
      (tty : Tty D) (l : List ℕ) (c : ℕ)
      → IsEditing tty l
      → is_newline c ≡ false
      → IsEditing (edit_line tty c) (edit l c)
  unfolding edit_line edit
  edit_line-edit tty l c v k = elim (Bool-cases (is_erase c)) [
    | inl e ↦ elim (Bool-cases (ltb 0 tty.linepos)) [
      | inl more ↦
          rw (k, e, more)
            (record {
              spells = Spells-init tty.linebuf tty.linepos l v.spells;
              bound = ground (arith, length-init l, v.bound);
              open_line = v.open_line;
            })
      | inr empty ↦
          let z : tty.linepos ≡ tty.linepos - 1 = ground arith in
          rw (k, e, empty)
            (record {
              spells = rw z (Spells-init tty.linebuf tty.linepos l v.spells);
              bound = ground (arith, length-init l, v.bound);
              open_line = v.open_line;
            })
    ]
    | inr e ↦ elim (Bool-cases (ltb tty.linepos 511)) [
      | inl room ↦
          let r : ltb (length l) 511 ≡ true = ground (arith, v.spells.size) in
          rw (k, e, room, r)
            (record {
              spells = Spells-add tty.linebuf tty.linepos l c v.spells;
              bound = ground (arith, length-append l (c ∷ []), v.spells.size);
              open_line = v.open_line;
            })
      | inr full ↦
          let r : ltb (length l) 511 ≡ false = ground (arith, v.spells.size) in rw (k, e, full, r) v
    ]
  ]

  pub edit_line-newline :
      (tty : Tty D) (l : List ℕ) (c : ℕ)
      → IsEditing tty l
      → is_newline c ≡ true
      → IsReady (edit_line tty c) (l ++ 10 ∷ [])
  unfolding edit_line
  edit_line-newline tty l c v k = rw k (record {
    spells = Spells-add tty.linebuf tty.linepos l 10 v.spells;
    bound = ground (arith, length-append l (10 ∷ []), v.bound);
    ready = refl;
  })

  -- A character given to the discipline of a session that edits a line of at most 511 characters
  -- writes nothing behind the 512 bytes of the line buffer.
  pub edit_line-bounded :
      (tty : Tty D) (l : List ℕ) (c k : ℕ)
      → IsEditing tty l
      → 512 ≤ k
      → (edit_line tty c).linebuf k ≡ tty.linebuf k
  unfolding edit_line
  edit_line-bounded tty l c k v h =
      let p : tty.linepos ≤ 511 = ground (arith, v.spells.size, v.bound) in ground arith
