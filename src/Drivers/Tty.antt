-- ===== src/Drivers/Tty.antt =====
-- The terminal sessions of drivers/tty.c. The terminal under a session is a parameter: its
-- operations, `struct tty_ops`, on a state `D` of its own.
pub mod Line
pub mod Read
pub mod Write
use loeux_riscv.Base.{
  ℕ, zero, suc, ◌+◌, ◌-◌, ◌*◌, ◌%◌, ◌^◌, Bool, true, false, ◌&&◌, ◌||◌, not, Option, none, some,
  List, [], ◌∷◌, update, Outcome, done, halt, spin, ◌>>=◌, ◌==◌, ltb, leb, if◌then◌else◌,
}
use loeux_riscv.Sync.Spinlock.{Spinlock, take, drop}

-- `struct tty_ops`. `putc` and `getc` say with `false` and `none` that they failed; `open_device`, `close_device`,
-- `has_input` and `flush` may be null.
pub record TtyOps {ℓ} (D : Type ℓ) : Type ℓ where
  pub open_device : Option (D → ℕ → Outcome (ℕ × D))
  pub close_device : Option (D → Outcome (ℕ × D))
  pub putc : D → ℕ → Outcome (Bool × D)
  pub getc : D → Outcome (Option ℕ × D)
  pub has_input : Option (D → Bool)
  pub flush : Option (D → Outcome D)

-- `struct tty`. `linebuf` is the memory from the start of the line buffer on.
pub record Tty {ℓ} (D : Type ℓ) : Type ℓ where
  pub device : D
  pub linebuf : ℕ → ℕ
  pub linepos : ℕ
  pub line_ready : Bool
  pub read_lock : Spinlock
  pub output_lock : Spinlock

abbrev pub tty_line_max : ℕ
tty_line_max = 512

-- `memcpy(dst + at, src, n)`.
unfoldable pub memcpy : (ℕ → ℕ) → ℕ → (ℕ → ℕ) → ℕ → ℕ → ℕ
memcpy dst at src n k = if leb at k && ltb k (at + n) then src (k - at) else dst k

unfoldable pub is_newline : ℕ → Bool
is_newline c = c == 13 || c == 10

unfoldable pub is_erase : ℕ → Bool
is_erase c = c == 8 || c == 127

module _ {ℓ} {D : Type ℓ} where
  -- What `tty_line_discipline` does to the line under the lock.
  unfoldable pub edit_line : Tty D → ℕ → Tty D
  unfolding is_newline is_erase
  edit_line tty c =
      if is_newline c
      then record tty {
        linebuf = update tty.linebuf tty.linepos 10;
        linepos = tty.linepos + 1;
        line_ready = true;
      }
      else if is_erase c
      then if ltb 0 tty.linepos then record tty { linepos = tty.linepos - 1 } else tty
      else if ltb tty.linepos (tty_line_max - 1)
      then record tty { linebuf = update tty.linebuf tty.linepos c; linepos = tty.linepos + 1 }
      else tty

-- The characters that are echoed for a character; what `putc` answers is not looked at.
unfoldable pub echo_of : ℕ → List ℕ
unfolding is_newline is_erase
echo_of c = if is_newline c then 13 ∷ 10 ∷ [] else if is_erase c then 8 ∷ 32 ∷ 8 ∷ [] else c ∷ []

-- `len` as the `size_t` that `memcpy` gets, for the `count - i` bytes that are left: their number as
-- an `int` may be negative.
unfoldable pub taken : ℕ → ℕ → ℕ
taken linepos left =
    let w = left % 2 ^ 32 in
    if leb (2 ^ 31) w then w + (2 ^ 64 - 2 ^ 32) else if ltb w linepos then w else linepos

module _ {ℓ} {D : Type ℓ} (ops : TtyOps D) where
  unfoldable pub tty_cdev_open : Tty D → ℕ → Outcome (ℕ × Tty D)
  tty_cdev_open tty flags = elim ops.open_device [
    | none ↦ done (0, tty)
    | some f ↦ f tty.device flags >>= λ r. done (r.0, record tty { device = r.1 })
  ]

  unfoldable pub tty_cdev_close : Tty D → Outcome (ℕ × Tty D)
  tty_cdev_close tty = elim ops.close_device [
    | none ↦ done (0, tty)
    | some f ↦ f tty.device >>= λ r. done (r.0, record tty { device = r.1 })
  ]

  -- The loop of `tty_cdev_write` over the characters that are left, with `i` of them written: the
  -- answer is whether it ran to the end, and the last `i`.
  unfoldable pub put_all : D → ℕ → List ℕ → Outcome (Bool × ℕ × D)
  put_all d i [] = done (true, i, d)
  put_all d i (c ∷ s) = do
    (ok, d') ← ops.putc d c
    if ok then put_all d' (i + 1) s else done (false, i, d')

  -- The answer is whether `tty_cdev_write` returned 0, and `*out_len`.
  unfoldable pub tty_cdev_write : ℕ → Tty D → List ℕ → Outcome (Bool × ℕ × Tty D)
  unfolding put_all
  tty_cdev_write hart tty s = do
    lk ← take hart tty.output_lock
    (ok, i, d) ← put_all tty.device 0 s
    lk' ← drop hart lk
    done (ok, i, record tty { device = d; output_lock = lk' })

  unfoldable pub echo : D → List ℕ → Outcome D
  echo d [] = done d
  echo d (c ∷ s) = do (_, d') ← ops.putc d c; echo d' s

  unfoldable pub tty_line_discipline : ℕ → Tty D → ℕ → Outcome (Bool × Tty D)
  unfolding edit_line echo echo_of is_newline
  tty_line_discipline hart tty c = do
    lk ← take hart tty.read_lock
    let tty' = edit_line tty c
    lk' ← drop hart lk
    d ← echo tty.device (echo_of c)
    done (is_newline c, record tty' { device = d; read_lock = lk' })

  -- Before the wait for a character the output is brought to the screen, unless there is input.
  unfoldable pub flush_idle : D → Outcome D
  flush_idle d = elim ops.flush [
    | none ↦ done d
    | some f ↦ elim ops.has_input [ none ↦ f d | some has ↦ if has d then done d else f d ]
  ]

  -- A call that takes the line which is ready.
  unfoldable pub take_line :
      ℕ → Tty D → Spinlock → ℕ → ℕ → (ℕ → ℕ) → Outcome (Bool × ℕ × (ℕ → ℕ) × Tty D)
  unfolding taken memcpy
  take_line hart tty lk count i p = do
    let len = taken tty.linepos (count - i)
    lk' ← drop hart lk
    done (
      true,
      (i + len) % 2 ^ 64,
      memcpy p i tty.linebuf len,
      record tty { line_ready = false; linepos = 0; read_lock = lk' },
    )

  -- The loop of `tty_cdev_read` on fuel. The answer is whether it returns 0, `*out_len` and the
  -- buffer of the caller.
  unfoldable pub read_loop : ℕ → ℕ → Tty D → ℕ → ℕ → (ℕ → ℕ) → Outcome (Bool × ℕ × (ℕ → ℕ) × Tty D)
  unfolding take_line flush_idle tty_line_discipline
  read_loop zero hart tty count i p = spin
  read_loop (suc n) hart tty count i p = elim (ltb i count) [
    | false ↦ done (true, i, p, tty)
    | true ↦ take hart tty.read_lock >>= λ lk. elim tty.line_ready [
      | true ↦ take_line hart tty lk count i p
      | false ↦ do
        lk' ← drop hart lk
        d ← flush_idle tty.device
        (c, d') ← ops.getc d
        elim c [
          | none ↦ done (false, i, p, record tty { device = d'; read_lock = lk' })
          | some ch ↦ do
            (_, tty') ← tty_line_discipline hart (record tty { device = d'; read_lock = lk' }) ch
            read_loop n hart tty' count i p
        ]
    ]
  ]

  -- A read of one byte takes it as the terminal gives it.
  unfoldable pub tty_cdev_read : ℕ → ℕ → Tty D → ℕ → (ℕ → ℕ) → Outcome (Bool × ℕ × (ℕ → ℕ) × Tty D)
  unfolding read_loop
  tty_cdev_read fuel hart tty count p = elim (count == 1) [
    | true ↦ do
      (c, d) ← ops.getc tty.device
      elim c [
        | none ↦ done (false, 0, p, record tty { device = d })
        | some ch ↦ done (true, 1, update p 0 ch, record tty { device = d })
      ]
    | false ↦ read_loop fuel hart tty count 0 p
  ]
