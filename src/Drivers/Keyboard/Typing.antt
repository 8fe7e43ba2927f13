-- ===== src/Drivers/Keyboard/Typing.antt =====
-- What a key event adds to the ring.
use loeux_riscv.Base.{
  ℕ, ◌+◌, ◌-◌, ◌≤◌, ◌&&◌, ◌||◌, not, Bool, true, false, List, [], ◌∷◌, get_or, Outcome, done,
  Returns, ◌≡◌, refl, ap, ◌∙◌, arith, ◌==◌, ltb, leb, if◌then◌else◌, Bool-cases, inl, inr,
  holds_below, holds_below_lem,
}
use mathlib.Core.Path.{subst}
use loeux_riscv.Drivers.Keyboard.{
  Keyboard, keymap_lo, keymap_hi, buf_push, buf_push_n, key_char, push_key, handle_key,
}
use loeux_riscv.Drivers.Keyboard.Layout.{
  row_at, letter_at, digit_at, arrow_at, shifted_sign, plain_sign, key_text, typed_text,
}
use loeux_riscv.Drivers.Keyboard.Ring.{
  IsRing, contents, Pushed, buf_push_n-Pushed, buf_push-eq-buf_push_n,
}

-- The characters that the driver pushes.
unfoldable plain_chars : Bool → Bool → ℕ → List ℕ
unfolding keymap_lo keymap_hi
plain_chars shift ctrl code =
    let c = if shift then get_or keymap_hi code 0 else get_or keymap_lo code 0 in
    if ctrl && (leb 97 c && leb c 122) then (c - 97 + 1) ∷ [] else if c == 0 then [] else c ∷ []

unfoldable event_chars : Bool → Bool → ℕ → ℕ → List ℕ
event_chars shift ctrl code value =
    if code == 42 || code == 54
    then []
    else if code == 29 || code == 97
    then []
    else if not (value == 1)
    then []
    else if code == 103
    then 27 ∷ 91 ∷ 65 ∷ []
    else if code == 108
    then 27 ∷ 91 ∷ 66 ∷ []
    else if code == 105
    then 27 ∷ 91 ∷ 68 ∷ []
    else if code == 106
    then 27 ∷ 91 ∷ 67 ∷ []
    else if leb 128 code
    then []
    else plain_chars shift ctrl code

unfoldable same_text : List ℕ → List ℕ → Bool
same_text [] [] = true
same_text [] (d ∷ t) = false
same_text (c ∷ s) [] = false
same_text (c ∷ s) (d ∷ t) = c == d && same_text s t

same_text_sound : (s t : List ℕ) → same_text s t ≡ true → s ≡ t
unfolding same_text
same_text_sound [] [] e = refl
same_text_sound [] (d ∷ t) e = absurd cc
same_text_sound (c ∷ s) [] e = absurd cc
same_text_sound (c ∷ s) (d ∷ t) e =
    let first : c ≡ d = ground arith in
    ap (λ x. x ∷ s) first ∙ ap (λ l. d ∷ l) (same_text_sound s t (ground arith))

layout_test : Bool → Bool → ℕ → Bool
layout_test shift ctrl code = same_text (event_chars shift ctrl code 1) (key_text shift ctrl code)

layout_table : (shift ctrl : Bool) → holds_below (layout_test shift ctrl) 128 ≡ true
unfolding holds_below layout_test same_text event_chars plain_chars key_text row_at letter_at
    digit_at arrow_at shifted_sign plain_sign
layout_table false false = refl
layout_table false true = refl
layout_table true false = refl
layout_table true true = refl

event_chars_beyond :
    (shift ctrl : Bool) (code value : ℕ) → 128 ≤ code → event_chars shift ctrl code value ≡ []
unfolding event_chars
event_chars_beyond shift ctrl code value far =
    let b₁ : code == 42 || code == 54 ≡ false = ground arith in
    let b₂ : code == 29 || code == 97 ≡ false = ground arith in
    let up : code == 103 ≡ false = ground arith in
    let down : code == 108 ≡ false = ground arith in
    let left : code == 105 ≡ false = ground arith in
    let right : code == 106 ≡ false = ground arith in
    let beyond : leb 128 code ≡ true = ground arith in
    elim (Bool-cases (value == 1)) [
      | inl e ↦ rw (event_chars, b₁, b₂, e, up, down, left, right, beyond) refl
      | inr e ↦ rw (event_chars, b₁, b₂, e) refl
    ]

event_chars_up :
    (shift ctrl : Bool) (code value : ℕ)
    → value == 1 ≡ false
    → event_chars shift ctrl code value ≡ []
unfolding event_chars
event_chars_up shift ctrl code value e = elim (Bool-cases (code == 42 || code == 54)) [
  | inl b₁ ↦ rw (event_chars, b₁) refl
  | inr b₁ ↦ elim (Bool-cases (code == 29 || code == 97)) [
    | inl b₂ ↦ rw (event_chars, b₁, b₂) refl
    | inr b₂ ↦ rw (event_chars, b₁, b₂, e) refl
  ]
]

event_chars-eq-typed_text :
    (shift ctrl : Bool) (code value : ℕ)
    → event_chars shift ctrl code value ≡ typed_text shift ctrl code value
unfolding typed_text layout_test
event_chars-eq-typed_text shift ctrl code value = elim (Bool-cases (value == 1)) [
  | inr e ↦ event_chars_up shift ctrl code value e ∙ rw e refl
  | inl e ↦ elim (Bool-cases (ltb code 128)) [
    | inr far ↦ event_chars_beyond shift ctrl code value (ground arith) ∙ rw (e, far) refl
    | inl near ↦
        let one : value ≡ 1 = ground arith in
        let found =
          holds_below_lem (layout_test shift ctrl) 128 code (layout_table shift ctrl)
            (ground arith) in
        ap (event_chars shift ctrl code) one
        ∙ same_text_sound (event_chars shift ctrl code 1) (key_text shift ctrl code) found
        ∙ rw (e, near) refl
  ]
]

-- The keyboard with the state of Shift (the keys 42 and 54) and Ctrl (29 and 97) after the event.
abbrev pub with_modifiers : Keyboard → ℕ → ℕ → Keyboard
with_modifiers kb code value = record kb {
  shift = if code == 42 || code == 54 then value == 1 else kb.shift;
  ctrl = if code == 29 || code == 97 then value == 1 else kb.ctrl;
}

Returns-if :
    (Q : List ℕ → Keyboard → Type 0) (b : Bool) (x y : Outcome Keyboard) (s t : List ℕ)
    → (b ≡ true → Returns x (Q s))
    → (b ≡ false → Returns y (Q t))
    → Returns (if b then x else y) (Q (if b then s else t))
Returns-if Q true x y s t f g = f refl
Returns-if Q false x y s t f g = g refl

stays : (kb : Keyboard) → IsRing kb → Pushed kb [] kb
stays kb v = record { ring = v; held = refl; shift = refl; ctrl = refl }

push_key-Pushed :
    (hart : ℕ) (kb : Keyboard) (code : ℕ)
    → IsRing kb
    → Returns (push_key hart kb code) (Pushed kb (plain_chars kb.shift kb.ctrl code))
unfolding push_key plain_chars key_char
push_key-Pushed hart kb code v =
    let c = if kb.shift then get_or keymap_hi code 0 else get_or keymap_lo code 0 in
    let push : (d : ℕ) → Returns (buf_push hart kb d) (Pushed kb (d ∷ [])) =
      λ d. rw (buf_push-eq-buf_push_n hart kb d) (buf_push_n-Pushed hart kb (d ∷ []) v) in
    Returns-if (Pushed kb) (kb.ctrl && (leb 97 c && leb c 122)) _ _ _ _
      (λ letter. push (c - 97 + 1))
      (λ _. Returns-if (Pushed kb) (c == 0) _ _ _ _ (λ _. (kb, refl, stays kb v)) (λ _. push c))

handle_key_chars :
    (hart : ℕ) (kb : Keyboard) (code value : ℕ)
    → IsRing kb
    → Returns
        (handle_key hart kb code value)
        (Pushed (with_modifiers kb code value) (event_chars kb.shift kb.ctrl code value))
unfolding handle_key event_chars contents
handle_key_chars hart kb code value v =
    let Q = Pushed (with_modifiers kb code value) in
    Returns-if Q (code == 42 || code == 54) _ _ _ _
      (λ b₁.
        let other : code == 29 || code == 97 ≡ false = ground arith in
        (
          record kb { shift = value == 1 },
          refl,
          record {
            ring = record { head = v.head; tail = v.tail; unlocked = v.unlocked };
            held = refl;
            shift = rw b₁ refl;
            ctrl = rw other refl;
          },
        ))
      (λ b₁.
        Returns-if Q (code == 29 || code == 97) _ _ _ _
          (λ b₂. (
            record kb { ctrl = value == 1 },
            refl,
            record {
              ring = record { head = v.head; tail = v.tail; unlocked = v.unlocked };
              held = refl;
              shift = rw b₁ refl;
              ctrl = rw b₂ refl;
            },
          ))
          (λ b₂.
            let same : with_modifiers kb code value ≡ kb = rw (b₁, b₂) refl in
            let silent : Returns (done kb) (Q []) = rw same (kb, refl, stays kb v) in
            let pushes : (s : List ℕ) → Returns (buf_push_n hart kb s) (Q s) =
              λ s. rw same (buf_push_n-Pushed hart kb s v) in
            let key : Returns (push_key hart kb code) (Q (plain_chars kb.shift kb.ctrl code)) =
              rw same (push_key-Pushed hart kb code v) in
            Returns-if Q (not (value == 1)) _ _ _ _ (λ _. silent)
              (λ _.
                Returns-if Q (code == 103) _ _ _ _ (λ _. pushes (27 ∷ 91 ∷ 65 ∷ []))
                  (λ _.
                    Returns-if Q (code == 108) _ _ _ _ (λ _. pushes (27 ∷ 91 ∷ 66 ∷ []))
                      (λ _.
                        Returns-if Q (code == 105) _ _ _ _ (λ _. pushes (27 ∷ 91 ∷ 68 ∷ []))
                          (λ _.
                            Returns-if Q (code == 106) _ _ _ _ (λ _. pushes (27 ∷ 91 ∷ 67 ∷ []))
                              (λ _.
                                Returns-if Q (leb 128 code) _ _ _ _ (λ _. silent) (λ _. key))))))))

-- For any key code and value, handle_key on a sound ring with a free lock returns with a sound
-- ring and the lock free. Shift after it is whether the value is 1 if the code is 42 or 54, Ctrl
-- if it is 29 or 97, and both are as they were for other codes. The ring has what it had and then,
-- for the value 1 and a code below 128, what the US layout by rows says for the state before, as
-- far as there is room: ESC, [ and A to D for an arrow, a letter in lower case, in upper case with
-- Shift, or as its place in the alphabet with Ctrl alone, the sign on the key or the one with
-- Shift. Other events push nothing.
pub handle_key-Pushed :
    (hart : ℕ) (kb : Keyboard) (code value : ℕ)
    → IsRing kb
    → Returns
        (handle_key hart kb code value)
        (Pushed (with_modifiers kb code value) (typed_text kb.shift kb.ctrl code value))
handle_key-Pushed hart kb code value v =
    subst (λ s. Returns (handle_key hart kb code value) (Pushed (with_modifiers kb code value) s))
      (event_chars-eq-typed_text kb.shift kb.ctrl code value)
      (handle_key_chars hart kb code value v)
