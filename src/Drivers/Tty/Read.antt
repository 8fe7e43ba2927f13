-- ===== src/Drivers/Tty/Read.antt =====
-- A read of a session gets the line that was typed, edited.
use loeux_riscv.Base.{
  ℕ, zero, suc, ◌+◌, ◌-◌, ◌%◌, ◌^◌, ◌≤◌, ◌<◌, Bool, true, false, some, List, [], ◌∷◌, ◌++◌, length,
  get_or, Outcome, ◌>>=◌, Returns, ◌≡◌, refl, ◌∙◌, arith, ◌==◌, ltb, if◌then◌else◌, Bool-cases,
  Option-cases, inl, inr,
}
use loeux_riscv.Drivers.Tty.{
  TtyOps, Tty, is_newline, edit_line, echo_of, echo, tty_line_discipline, flush_idle, memcpy, taken,
  take_line, read_loop, tty_cdev_read,
}
use loeux_riscv.Drivers.Tty.Line.{
  edit, edited, IsEditing, IsReady, edit_line-edit, edit_line-newline,
}
use loeux_riscv.Sync.Spinlock.Laws.{take_free, drop_held}
use loeux_riscv.Sync.Spinlock.{init_spinlock}

-- A terminal with the characters `pending d` to come: output and flushes leave them alone, and while
-- there are some, `getc` gets the first.
pub record IsTerminal {ℓ} {D : Type ℓ} (ops : TtyOps D) (pending : D → List ℕ) : Type ℓ where
  pub puts : (d : D) (c : ℕ) → Returns (ops.putc d c) (λ r. pending r.1 ≡ pending d)
  pub gets :
      (d : D) (c : ℕ) (rest : List ℕ)
      → pending d ≡ c ∷ rest
      → Returns (ops.getc d) (λ r. (r.0 ≡ some c) × (pending r.1 ≡ rest))
  pub flushes :
      (d : D) (f : D → Outcome D)
      → ops.flush ≡ some f
      → Returns (f d) (λ d'. pending d' ≡ pending d)

-- None of the characters ends a line.
unfoldable pub NoNewline : List ℕ → Type 0
NoNewline [] = Unit
NoNewline (c ∷ s) = (is_newline c ≡ false) × NoNewline s

module _ {ℓ} {D : Type ℓ} (ops : TtyOps D) (pending : D → List ℕ) (t : IsTerminal ops pending) where
  echo-keeps : (d : D) (s : List ℕ) → Returns (echo ops d s) (λ d'. pending d' ≡ pending d)
  unfolding echo
  echo-keeps d [] = (d, refl, refl)
  echo-keeps d (c ∷ s) =
      let (r, e, p) = t.puts d c in
      let (d', e', p') = echo-keeps r.1 s in (d', rw (e, ◌>>=◌) e', p' ∙ p)

  flush_idle-keeps : (d : D) → Returns (flush_idle ops d) (λ d'. pending d' ≡ pending d)
  unfolding flush_idle
  flush_idle-keeps d = elim (Option-cases ops.flush) [
    | inl none_there ↦ (d, rw none_there refl, refl)
    | inr (f, e) ↦
        let (d', ran, p) = t.flushes d f e in
        elim (Option-cases ops.has_input) [
          | inl none_there ↦ (d', rw (e, none_there) ran, p)
          | inr (has, e') ↦ elim (Bool-cases (has d)) [
            | inl b ↦ (d, rw (e, e', b) refl, refl)
            | inr b ↦ (d', rw (e, e', b) ran, p)
          ]
        ]
  ]

  -- What the discipline made of the character `c`.
  pub record Disciplined (tty : Tty D) (c : ℕ) (r : Bool × Tty D) : Type ℓ where
    pub ready : r.0 ≡ is_newline c
    pub line :
        (r.1.linebuf ≡ (edit_line tty c).linebuf)
        × (r.1.linepos ≡ (edit_line tty c).linepos)
        × (r.1.line_ready ≡ (edit_line tty c).line_ready)
    pub unlocked : r.1.read_lock ≡ init_spinlock
    pub coming : pending r.1.device ≡ pending tty.device

  discipline-Disciplined :
      (hart : ℕ) (tty : Tty D) (c : ℕ)
      → tty.read_lock ≡ init_spinlock
      → Returns (tty_line_discipline ops hart tty c) (Disciplined tty c)
  unfolding tty_line_discipline
  discipline-Disciplined hart tty c u =
      let (d, e, p) = echo-keeps tty.device (echo_of c) in
      (
        (is_newline c, record (edit_line tty c) { device = d; read_lock = init_spinlock }),
        rw (u, take_free hart, ◌>>=◌, drop_held hart, ◌>>=◌, e) refl,
        record { ready = refl; line = (refl, refl, refl); unlocked = refl; coming = p },
      )

  -- One round of the loop that takes the character `c`: it edits the line of `before`, which is the
  -- session's.
  pub record Round (tty : Tty D) (l : List ℕ) (c : ℕ) (more : List ℕ) (run : Tty D → Type ℓ)
      : Type ℓ where
    pub before : Tty D
    pub editing : IsEditing before l
    pub after : Bool × Tty D
    pub disciplined : Disciplined before c after
    pub coming : pending after.1.device ≡ more
    pub continues : run after.1

  read_loop-round :
      (n hart : ℕ) (tty : Tty D) (count : ℕ) (p : ℕ → ℕ) (l : List ℕ) (c : ℕ) (more : List ℕ)
      → IsEditing tty l
      → tty.read_lock ≡ init_spinlock
      → 0 < count
      → pending tty.device ≡ c ∷ more
      → Round tty l c more
          (λ tty'. read_loop ops (suc n) hart tty count 0 p ≡ read_loop ops n hart tty' count 0 p)
  unfolding read_loop
  read_loop-round n hart tty count p l c more v u pos coming =
      let (d, flushed, kept) = flush_idle-keeps tty.device in
      let (r, gotten, (first, rest)) = t.gets d c more (kept ∙ coming) in
      let before : Tty D = record tty {
        device = r.1;
        line_ready = false;
        read_lock = init_spinlock;
      } in
      let (after, ran, disciplined) = discipline-Disciplined hart before c refl in
      let b : ltb 0 count ≡ true = ground arith in
      record {
        before = before;
        editing = record { spells = v.spells; bound = v.bound; open_line = refl };
        after = after;
        disciplined = disciplined;
        coming = disciplined.coming ∙ rest;
        continues =
            rw
              (
                read_loop,
                b,
                u,
                take_free hart,
                ◌>>=◌,
                v.open_line,
                drop_held hart,
                ◌>>=◌,
                flushed,
                ◌>>=◌,
                gotten,
                ◌>>=◌,
                first,
                v.open_line,
                ran,
              )
              refl;
      }

  -- What a read of at most `count` characters got of the line: as much as there is room for.
  pub record Got (line rest : List ℕ) (count : ℕ) (p : ℕ → ℕ) (r : Bool × ℕ × (ℕ → ℕ) × Tty D)
      : Type ℓ where
    pub ok : r.0 ≡ true
    pub size : r.1 ≡ (if ltb count (length line) then count else length line)
    pub chars : (k : ℕ) → k < r.1 → r.2 k ≡ get_or line k 0
    pub others : (k : ℕ) → r.1 ≤ k → r.2 k ≡ p k
    pub idle : IsEditing r.3 []
    pub unlocked : r.3.read_lock ≡ init_spinlock
    pub coming : pending r.3.device ≡ rest

  read_loop-ready :
      (n hart : ℕ) (tty : Tty D) (count : ℕ) (p : ℕ → ℕ) (line rest : List ℕ)
      → IsReady tty line
      → tty.read_lock ≡ init_spinlock
      → 0 < count
      → count < 2 ^ 31
      → pending tty.device ≡ rest
      → Returns (read_loop ops (suc n) hart tty count 0 p) (Got line rest count p)
  unfolding read_loop take_line taken memcpy
  read_loop-ready n hart tty count p line rest v u pos small coming =
      let len = taken tty.linepos count in
      let e : len ≡ (if ltb count tty.linepos then count else tty.linepos) = ground arith in
      let size : (0 + len) % 2 ^ 64 ≡ len = ground (arith, v.bound, v.spells.size) in
      let b : ltb 0 count ≡ true = ground arith in
      let z : count - 0 ≡ count = omega arith in
      let low : len ≤ tty.linepos = ground arith in
      (
        (
          true,
          len,
          memcpy p 0 tty.linebuf len,
          record tty { line_ready = false; linepos = 0; read_lock = init_spinlock },
        ),
        rw (read_loop, b, u, take_free hart, ◌>>=◌, v.ready, z, take_line, drop_held hart, size)
            refl,
        record {
          ok = refl;
          size = ground (arith, v.spells.size);
          chars = λ k lt. ground (arith, v.spells.chars k);
          others = λ k le. ground arith;
          idle = record {
            spells = record { size = refl; chars = λ j lt. absurd (omega arith) };
            bound = omega arith;
            open_line = refl;
          };
          unlocked = refl;
          coming = coming;
        },
      )

  SameLine : Tty D → Tty D → Type 0
  SameLine a b = (a.linebuf ≡ b.linebuf) × (a.linepos ≡ b.linepos) × (a.line_ready ≡ b.line_ready)

  IsEditing-SameLine : (a b : Tty D) (l : List ℕ) → SameLine a b → IsEditing b l → IsEditing a l
  unfolding SameLine
  IsEditing-SameLine a b l (e, e', e'') v = record {
    spells = rw (e, e') v.spells;
    bound = v.bound;
    open_line = e'' ∙ v.open_line;
  }

  IsReady-SameLine : (a b : Tty D) (l : List ℕ) → SameLine a b → IsReady b l → IsReady a l
  unfolding SameLine
  IsReady-SameLine a b l (e, e', e'') v = record {
    spells = rw (e, e') v.spells;
    bound = v.bound;
    ready = e'' ∙ v.ready;
  }

  read_loop-Got :
      (n hart : ℕ) (tty : Tty D) (count : ℕ) (p : ℕ → ℕ) (l s : List ℕ) (c : ℕ) (rest : List ℕ)
      → IsEditing tty l
      → tty.read_lock ≡ init_spinlock
      → 0 < count
      → count < 2 ^ 31
      → NoNewline s
      → is_newline c ≡ true
      → pending tty.device ≡ s ++ c ∷ rest
      → length s + 2 ≤ n
      → Returns (read_loop ops n hart tty count 0 p) (Got (edited l s ++ 10 ∷ []) rest count p)
  unfolding SameLine NoNewline edited
  read_loop-Got zero hart tty count p l s c rest v u pos small plain k coming enough =
      absurd (omega arith)
  read_loop-Got (suc zero) hart tty count p l s c rest v u pos small plain k coming enough =
      absurd (omega arith)
  read_loop-Got (suc (suc n)) hart tty count p l [] c rest v u pos small plain k coming enough =
      let r = read_loop-round (suc n) hart tty count p l c rest v u pos coming in
      let ready = edit_line-newline r.before l c r.editing k in
      let after =
        IsReady-SameLine r.after.1 (edit_line r.before c) (l ++ 10 ∷ []) r.disciplined.line ready in
      rw (r.continues) (
        read_loop-ready n hart r.after.1 count p (l ++ 10 ∷ []) rest after r.disciplined.unlocked
          pos small r.coming)
  read_loop-Got (suc (suc n)) hart tty count p l (x ∷ s) c rest v u pos small plain k coming
        enough =
      let r = read_loop-round (suc n) hart tty count p l x (s ++ c ∷ rest) v u pos coming in
      let editing = edit_line-edit r.before l x r.editing plain.0 in
      let after =
        IsEditing-SameLine r.after.1 (edit_line r.before x) (edit l x) r.disciplined.line editing in
      rw (r.continues) (
        read_loop-Got (suc n) hart r.after.1 count p (edit l x) s c rest after
          r.disciplined.unlocked pos small plain.1 k r.coming (omega arith))

  -- Where a terminal has the characters s, a carriage return or newline, and then rest to come, an
  -- idle session reads, for 1 < count < 2^31 and on any fuel from length s + 2 on, the line that s
  -- edits (an erasing character takes the last one away, others count up to 511) with a newline:
  -- it returns 0, the length is that of the line or count if this is less, the caller's buffer
  -- holds that much of the line and is otherwise unchanged, rest is still to come, and the session
  -- is idle and its lock free.
  pub tty_cdev_read-Got :
      (fuel hart : ℕ) (tty : Tty D) (count : ℕ) (p : ℕ → ℕ) (s : List ℕ) (c : ℕ) (rest : List ℕ)
      → IsEditing tty []
      → tty.read_lock ≡ init_spinlock
      → 1 < count
      → count < 2 ^ 31
      → NoNewline s
      → is_newline c ≡ true
      → pending tty.device ≡ s ++ c ∷ rest
      → length s + 2 ≤ fuel
      → Returns
          (tty_cdev_read ops fuel hart tty count p)
          (Got (edited [] s ++ 10 ∷ []) rest count p)
  unfolding tty_cdev_read
  tty_cdev_read-Got fuel hart tty count p s c rest v u many small plain k coming enough =
      let e : (count == 1) ≡ false = ground arith in
      rw (tty_cdev_read, e)
        (read_loop-Got fuel hart tty count p [] s c rest v u (omega arith) small plain k coming
          enough)
