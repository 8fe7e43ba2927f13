-- ===== src/Drivers/Tty/Write.antt =====
-- A write to a session puts out a prefix of the characters and counts them.
use loeux_riscv.Base.{
  ℕ, suc, ◌+◌, ◌<◌, Bool, true, false, List, [], ◌∷◌, ◌++◌, length, ◌>>=◌, Returns, ◌≡◌, refl, sym,
  ◌∙◌, ap, arith, if◌then◌else◌, Bool-cases, inl, inr,
}
use mathlib.Core.List.{append-nil, append_assoc}
use loeux_riscv.Drivers.Tty.{TtyOps, Tty, put_all, tty_cdev_write}
use loeux_riscv.Sync.Spinlock.Laws.{take_free, drop_held}
use loeux_riscv.Sync.Spinlock.{init_spinlock}

-- A terminal that shows `shown d`: a character is added exactly where `putc` succeeds.
pub record IsScreen {ℓ} {D : Type ℓ} (ops : TtyOps D) (shown : D → List ℕ) : Type ℓ where
  pub puts :
      (d : D) (c : ℕ)
      → Returns (ops.putc d c) (λ r. shown r.1 ≡ (if r.0 then shown d ++ c ∷ [] else shown d))

module _ {ℓ} {D : Type ℓ} (ops : TtyOps D) (shown : D → List ℕ) (h : IsScreen ops shown) where
  -- `n` characters of `s` were put out on `d`, all of them if `ok`.
  pub record Put (d : D) (s : List ℕ) (ok : Bool) (n : ℕ) (d' : D) : Type ℓ where
    pub front : List ℕ
    pub back : List ℕ
    pub whole : s ≡ front ++ back
    pub size : length front ≡ n
    pub complete : ok ≡ true → back ≡ []
    pub partial : ok ≡ false → 0 < length back
    pub shows : shown d' ≡ shown d ++ front

  put_all-Put :
      (d : D) (i : ℕ) (s : List ℕ)
      → Returns (put_all ops d i s) (λ r. (n : ℕ) × (r.1 ≡ i + n) × Put d s r.0 n r.2)
  unfolding put_all
  put_all-Put d i [] = (
    (true, i, d),
    refl,
    (
      0,
      omega arith,
      record {
        front = [];
        back = [];
        whole = refl;
        size = refl;
        complete = λ _. refl;
        partial = λ e. ground arith;
        shows = sym (append-nil (shown d));
      },
    ),
  )
  put_all-Put d i (c ∷ s) =
      let ((ok, d'), e, out) = h.puts d c in
      elim (Bool-cases ok) [
        | inl good ↦
            let (r, ran, (n, sum, put)) = put_all-Put d' (i + 1) s in
            let now : shown d' ≡ shown d ++ c ∷ [] = ground arith in
            (
              r,
              rw (e, ◌>>=◌, good) ran,
              (
                suc n,
                omega arith,
                record {
                  front = c ∷ put.front;
                  back = put.back;
                  whole = ap (λ (l : List ℕ). c ∷ l) put.whole;
                  size = ap suc put.size;
                  complete = put.complete;
                  partial = put.partial;
                  shows = put.shows ∙ (rw now (append_assoc (shown d) (c ∷ []) put.front));
                },
              ),
            )
        | inr bad ↦ (
          (false, i, d'),
          rw (e, ◌>>=◌, bad) refl,
          (
            0,
            omega arith,
            record {
              front = [];
              back = c ∷ s;
              whole = refl;
              size = refl;
              complete = λ t. ground arith;
              partial = λ _. omega arith;
              shows = ground (arith, append-nil (shown d));
            },
          ),
        )
      ]

  -- What a write of `s` did: the answer, the count, and the session after it.
  pub record Written (tty : Tty D) (s : List ℕ) (r : Bool × ℕ × Tty D) : Type ℓ where
    pub put : Put tty.device s r.0 r.1 r.2.device
    pub unlocked : r.2.output_lock ≡ init_spinlock
    pub line :
        (r.2.linebuf ≡ tty.linebuf)
        × (r.2.linepos ≡ tty.linepos)
        × (r.2.line_ready ≡ tty.line_ready)

  -- On a terminal that shows a character exactly where putc succeeds, with the output lock free, a
  -- write returns, the terminal shows a prefix of the characters behind what it showed, the
  -- reported length is that of the prefix, the call returns 0 exactly if this is all of them, the
  -- lock is free again and the line being edited is unchanged.
  pub tty_cdev_write-Written :
      (hart : ℕ) (tty : Tty D) (s : List ℕ)
      → tty.output_lock ≡ init_spinlock
      → Returns (tty_cdev_write ops hart tty s) (Written tty s)
  unfolding tty_cdev_write
  tty_cdev_write-Written hart tty s u =
      let ((ok, i, d), ran, (n, sum, put)) = put_all-Put tty.device 0 s in
      let all : i ≡ n = omega arith in
      (
        (ok, i, record tty { device = d; output_lock = init_spinlock }),
        rw (u, take_free hart, ◌>>=◌, ran, ◌>>=◌, drop_held hart) refl,
        record { put = rw all put; unlocked = refl; line = (refl, refl, refl) },
      )
