-- ===== src/Drivers/Keyboard.antt =====
-- The input half of drivers/keyboard.c: the ring of characters, under its lock, and what a key event
-- puts into it. The virtio queue that delivers the events is not modelled.
pub mod Ring
pub mod Layout
pub mod Typing
use loeux_riscv.Base.{
  ℕ, zero, suc, ◌+◌, ◌-◌, ◌%◌, Bool, true, false, ◌&&◌, ◌||◌, not, Option, none, some, List, [],
  ◌∷◌, get_or, update, Outcome, done, ◌>>=◌, ◌==◌, ltb, leb, if◌then◌else◌,
}
use loeux_riscv.Sync.Spinlock.{Spinlock, take, drop}

abbrev pub char_buf_size : ℕ
char_buf_size = 256

-- The fields of `struct virtio_input_device` that the input handling uses, and `kb_buf_lk`.
pub record Keyboard : Type 0 where
  pub shift : Bool
  pub ctrl : Bool
  pub buf : ℕ → ℕ
  pub head : ℕ
  pub tail : ℕ
  pub lock : Spinlock

-- The key maps up to their last entry; the rest of the 128 entries is 0.
keymap_lo : List ℕ
keymap_lo =
    0 ∷ 27 ∷ 49 ∷ 50 ∷ 51 ∷ 52 ∷ 53 ∷ 54 ∷ 55 ∷ 56 ∷ 57 ∷ 48 ∷ 45 ∷ 61 ∷ 8 ∷ 9 ∷ 113 ∷ 119 ∷ 101
    ∷ 114 ∷ 116 ∷ 121 ∷ 117 ∷ 105 ∷ 111 ∷ 112 ∷ 91 ∷ 93 ∷ 10 ∷ 0 ∷ 97 ∷ 115 ∷ 100 ∷ 102 ∷ 103 ∷ 104
    ∷ 106 ∷ 107 ∷ 108 ∷ 59 ∷ 39 ∷ 96 ∷ 0 ∷ 92 ∷ 122 ∷ 120 ∷ 99 ∷ 118 ∷ 98 ∷ 110 ∷ 109 ∷ 44 ∷ 46 ∷ 47
    ∷ 0 ∷ 0 ∷ 0 ∷ 32 ∷ []

keymap_hi : List ℕ
keymap_hi =
    0 ∷ 0 ∷ 33 ∷ 64 ∷ 35 ∷ 36 ∷ 37 ∷ 94 ∷ 38 ∷ 42 ∷ 40 ∷ 41 ∷ 95 ∷ 43 ∷ 0 ∷ 0 ∷ 81 ∷ 87 ∷ 69 ∷ 82
    ∷ 84 ∷ 89 ∷ 85 ∷ 73 ∷ 79 ∷ 80 ∷ 123 ∷ 125 ∷ 0 ∷ 0 ∷ 65 ∷ 83 ∷ 68 ∷ 70 ∷ 71 ∷ 72 ∷ 74 ∷ 75 ∷ 76
    ∷ 58 ∷ 34 ∷ 126 ∷ 0 ∷ 124 ∷ 90 ∷ 88 ∷ 67 ∷ 86 ∷ 66 ∷ 78 ∷ 77 ∷ 60 ∷ 62 ∷ 63 ∷ []

unfoldable pub buf_full : Keyboard → Bool
buf_full kb = (kb.tail + 1) % char_buf_size == kb.head

unfoldable pub buf_empty : Keyboard → Bool
buf_empty kb = kb.head == kb.tail

-- The store and the step of `tail`, once there is room.
unfoldable pub buf_store : Keyboard → ℕ → Keyboard
buf_store kb c = record kb { buf = update kb.buf kb.tail c; tail = (kb.tail + 1) % char_buf_size }

-- A character for which there is no room is lost.
unfoldable pub buf_push : ℕ → Keyboard → ℕ → Outcome Keyboard
unfolding buf_full buf_store
buf_push hart kb c = do
  lk ← take hart kb.lock
  let kb' = if buf_full kb then kb else buf_store kb c
  lk' ← drop hart lk
  done (record kb' { lock = lk' })

-- The loop of `buf_push_n`, which stops where the ring is full.
unfoldable pub store_all : Keyboard → List ℕ → Keyboard
unfolding buf_full buf_store
store_all kb [] = kb
store_all kb (c ∷ s) = let rest = store_all (buf_store kb c) s in if buf_full kb then kb else rest

unfoldable pub buf_push_n : ℕ → Keyboard → List ℕ → Outcome Keyboard
unfolding store_all
buf_push_n hart kb s = do
  lk ← take hart kb.lock
  let kb' = store_all kb s
  lk' ← drop hart lk
  done (record kb' { lock = lk' })

-- `none` is the answer -1.
unfoldable pub buf_pop : ℕ → Keyboard → Outcome (Option ℕ × Keyboard)
unfolding buf_empty
buf_pop hart kb = do
  lk ← take hart kb.lock
  lk' ← drop hart lk
  done (
      if buf_empty kb
      then (none, record kb { lock = lk' })
      else (some (kb.buf kb.head), record kb { head = (kb.head + 1) % char_buf_size; lock = lk' }))

-- The character of a key below 128, 0 if there is none.
unfoldable pub key_char : Keyboard → ℕ → ℕ
unfolding keymap_lo keymap_hi
key_char kb code = if kb.shift then get_or keymap_hi code 0 else get_or keymap_lo code 0

-- What `handle_key` pushes for a plain key: Ctrl and a letter give 1 to 26.
unfoldable pub push_key : ℕ → Keyboard → ℕ → Outcome Keyboard
push_key hart kb code =
    let c = key_char kb code in
    if kb.ctrl && (leb 97 c && leb c 122)
    then buf_push hart kb (c - 97 + 1)
    else if c == 0
    then done kb
    else buf_push hart kb c

unfoldable pub handle_key : ℕ → Keyboard → ℕ → ℕ → Outcome Keyboard
handle_key hart kb code value =
    if code == 42 || code == 54
    then done (record kb { shift = value == 1 })
    else if code == 29 || code == 97
    then done (record kb { ctrl = value == 1 })
    else if not (value == 1)
    then done kb
    else if code == 103
    then buf_push_n hart kb (27 ∷ 91 ∷ 65 ∷ [])
    else if code == 108
    then buf_push_n hart kb (27 ∷ 91 ∷ 66 ∷ [])
    else if code == 105
    then buf_push_n hart kb (27 ∷ 91 ∷ 68 ∷ [])
    else if code == 106
    then buf_push_n hart kb (27 ∷ 91 ∷ 67 ∷ [])
    else if leb 128 code
    then done kb
    else push_key hart kb code
