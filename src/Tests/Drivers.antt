-- ===== src/Tests/Drivers.antt =====
-- Key events, and a terminal that is a list of characters to come and one of characters shown.
use loeux_riscv.Base.{
  ℕ, Bool, true, false, Option, none, some, List, [], ◌∷◌, ◌++◌, length, Outcome, done, Returns,
  ◌≡◌, refl, sym, ap, arith, ltb, if◌then◌else◌, Bool-cases, inl, inr,
}
use loeux_riscv.Drivers.Keyboard.{Keyboard, buf_push_n, buf_pop, handle_key}
use loeux_riscv.Drivers.Keyboard.Ring.{
  IsRing, Pushed, buf_push_n-Pushed, Popped, buf_pop-Popped, contents,
}
use loeux_riscv.Drivers.Keyboard.Layout.{typed_text}
use loeux_riscv.Drivers.Keyboard.Typing.{with_modifiers, handle_key-Pushed}
use loeux_riscv.Drivers.Tty.{TtyOps, Tty, is_newline, edit_line, tty_cdev_read, tty_cdev_write}
use loeux_riscv.Drivers.Tty.Line.{IsEditing, edited}
use loeux_riscv.Drivers.Tty.Read.{IsTerminal, Got, NoNewline, tty_cdev_read-Got}
use loeux_riscv.Drivers.Tty.Write.{IsScreen, Written, tty_cdev_write-Written}
use loeux_riscv.Sync.Spinlock.{init_spinlock}

-- The ring holds two characters, across the end of the array.
abbrev wrapped : Keyboard
wrapped = record {
  shift = false;
  ctrl = true;
  buf = λ k. if ltb k 1 then 66 else 65;
  head = 255;
  tail = 1;
  lock = init_spinlock;
}

wrapped-IsRing : IsRing wrapped
wrapped-IsRing = record { head = omega arith; tail = omega arith; unlocked = refl }

wrapped-contents : contents wrapped ≡ 65 ∷ 66 ∷ []
unfolding contents loeux_riscv.Drivers.Keyboard.Ring.read
wrapped-contents = refl

buf_push_n-Pushed_example :
    Returns (buf_push_n 0 wrapped (27 ∷ 91 ∷ [])) (Pushed wrapped (27 ∷ 91 ∷ []))
buf_push_n-Pushed_example = buf_push_n-Pushed 0 wrapped (27 ∷ 91 ∷ []) wrapped-IsRing

-- Ctrl and the key of the letter a.
handle_key-Pushed_example :
    Returns
      (handle_key 0 wrapped 30 1)
      (Pushed (with_modifiers wrapped 30 1) (typed_text wrapped.shift wrapped.ctrl 30 1))
handle_key-Pushed_example = handle_key-Pushed 0 wrapped 30 1 wrapped-IsRing

pub record Screen : Type 0 where
  pub coming : List ℕ
  pub shown : List ℕ

abbrev putc : Screen → ℕ → Outcome (Bool × Screen)
putc d c =
    if ltb (length d.shown) 2
    then done (true, record d { shown = d.shown ++ c ∷ [] })
    else done (false, d)

abbrev getc : Screen → Outcome (Option ℕ × Screen)
getc d = elim d.coming [ [] ↦ done (none, d) | c ∷ l ↦ done (some c, record d { coming = l }) ]

abbrev screen_ops : TtyOps Screen
screen_ops = record {
  open_device = none;
  close_device = none;
  putc = putc;
  getc = getc;
  has_input = none;
  flush = some (λ d. done d);
}

screen-IsTerminal : IsTerminal screen_ops (λ d. d.coming)
screen-IsTerminal = record {
  puts = λ d c. elim (Bool-cases (ltb (length d.shown) 2)) [
    | inl e ↦ ((true, record d { shown = d.shown ++ c ∷ [] }), rw e refl, refl)
    | inr e ↦ ((false, d), rw e refl, refl)
  ];
  gets = λ d c rest e. ((some c, record d { coming = rest }), rw e refl, (refl, refl));
  flushes = λ d f e. (
    d,
    ap (λ (o : Option (Screen → Outcome Screen)). elim o [ none ↦ done d | some h ↦ h d ]) (sym e),
    refl,
  );
}

screen-IsScreen : IsScreen screen_ops (λ d. d.shown)
screen-IsScreen = record {
  puts = λ d c. elim (Bool-cases (ltb (length d.shown) 2)) [
    | inl e ↦ ((true, record d { shown = d.shown ++ c ∷ [] }), rw e refl, refl)
    | inr e ↦ ((false, d), rw e refl, refl)
  ];
}

-- The characters ab, an erasing one, c and the end of the line are to come.
abbrev session : Tty Screen
session = record {
  device = record { coming = 97 ∷ 98 ∷ 8 ∷ 99 ∷ 13 ∷ 100 ∷ []; shown = [] };
  linebuf = λ k. 0;
  linepos = 0;
  line_ready = false;
  read_lock = init_spinlock;
  output_lock = init_spinlock;
}

session-IsEditing : IsEditing session []
session-IsEditing = record {
  spells = record { size = refl; chars = λ j lt. absurd (omega arith) };
  bound = omega arith;
  open_line = refl;
}

abbrev typed : List ℕ
typed = 97 ∷ 98 ∷ 8 ∷ 99 ∷ []

typed-NoNewline : NoNewline typed
unfolding NoNewline is_newline
typed-NoNewline = (refl, (refl, (refl, (refl, tt))))

return_ends : is_newline 13 ≡ true
unfolding is_newline
return_ends = refl

tty_cdev_read-Got_example : Returns (tty_cdev_read screen_ops 6 0 session 64 (λ k. 0)) (
    Got screen_ops
      (λ d. d.coming)
      screen-IsTerminal
      (edited [] typed ++ 10 ∷ [])
      (100 ∷ [])
      64
      (λ k. 0))
tty_cdev_read-Got_example =
    tty_cdev_read-Got screen_ops (λ d. d.coming) screen-IsTerminal 6 0 session 64 (λ k. 0) typed 13
      (100 ∷ []) session-IsEditing refl (omega arith) (omega arith) typed-NoNewline return_ends refl
      (omega arith)

-- The line is a c.
edited_ac : edited [] typed ≡ 97 ∷ 99 ∷ []
unfolding edited loeux_riscv.Drivers.Tty.is_erase
edited_ac = refl

tty_cdev_write-Written_example :
    Returns
      (tty_cdev_write screen_ops 0 session (97 ∷ 98 ∷ 99 ∷ []))
      (Written screen_ops (λ d. d.shown) screen-IsScreen session (97 ∷ 98 ∷ 99 ∷ []))
tty_cdev_write-Written_example =
    tty_cdev_write-Written screen_ops (λ d. d.shown) screen-IsScreen 0 session (97 ∷ 98 ∷ 99 ∷ [])
      refl
