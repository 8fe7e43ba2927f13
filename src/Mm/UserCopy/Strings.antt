-- ===== src/Mm/UserCopy/Strings.antt =====
-- `copy_str_from_user` copies a user's string up to its first 0.
use loeux_riscv.Base.{
  ℕ, zero, suc, ◌+◌, ◌-◌, ◌*◌, ◌/◌, ◌%◌, ◌≤◌, Bool, true, false, ◌==◌, ltb, if◌then◌else◌, List, [],
  ◌∷◌, ◌++◌, Outcome, done, ◌>>=◌, ◌≡◌, inl, inr, refl, sym, ◌∙◌, ap, arith, Bool-cases,
}
use loeux_riscv.Mm.Pages.{Memory}
use loeux_riscv.Mm.PageTable.{max_va}
use loeux_riscv.Mm.UserCopy.{
  Process, Copy, load, copied, refused, chunk, scan_page, copy_str_loop, copy_str_from_user,
}
use loeux_riscv.Mm.UserCopy.Read.{user_at, IsReadable, page_of-view, user_at-add}

-- The first `max` bytes that a user sees from `va` on, up to the first 0, and whether there is one.
abbrev pub user_string : (ℕ → ℕ) → ℕ → ℕ → ℕ → Bool × List ℕ
user_string b root va zero = (false, [])
user_string b root va (suc n) =
    let rest = user_string b root (va + 1) n in
    if b (user_at b root va) == 0 then (true, 0 ∷ []) else (rest.0, b (user_at b root va) ∷ rest.1)

scan_page-user :
    (b : ℕ → ℕ) (root va n : ℕ)
    → va % 4096 + n ≤ 4096
    → scan_page b (user_at b root va) n ≡ user_string b root va n
unfolding scan_page
scan_page-user b root va zero h = refl
scan_page-user b root va (suc zero) h = refl
scan_page-user b root va (suc (suc n)) h =
    let next = sym (user_at-add b root va 1 (omega arith)) in
    ap
      (λ r.
        if b (user_at b root va) == 0 then (true, 0 ∷ []) else (r.0, b (user_at b root va) ∷ r.1))
      (ap (λ a. scan_page b a (suc n)) next ∙ scan_page-user b root (va + 1) (suc n) (omega arith))

-- Two parts of the range, where the first has no 0.
abbrev join : Bool × List ℕ → Bool × List ℕ → Bool × List ℕ
join r r' = if r.0 then (true, r.1) else (r'.0, r.1 ++ r'.1)

user_string-append :
    (b : ℕ → ℕ) (root va n k : ℕ)
    → join (user_string b root va n) (user_string b root (va + n) k) ≡ user_string b root va (n + k)
user_string-append b root va zero k =
    let e : va + 0 ≡ va = omega arith in let f : 0 + k ≡ k = omega arith in rw (e, f) refl
user_string-append b root va (suc n) k =
    let e : va + suc n ≡ va + 1 + n = omega arith in
    let f : suc n + k ≡ suc (n + k) = omega arith in
    let rest = user_string-append b root (va + 1) n k in
    elim (Bool-cases (b (user_at b root va) == 0)) [
      | inl z ↦ rw (e, f, z) refl
      | inr z ↦ elim (Bool-cases (user_string b root (va + 1) n).0) [
        | inl y ↦ rw (e, f, z, sym rest, y) refl
        | inr y ↦ rw (e, f, z, sym rest, y) refl
      ]
    ]

-- What the copy answers for such a string.
abbrev pub string_answer :
    Bool × List ℕ → Process → Memory → Outcome (Copy × List ℕ × Process × Memory)
string_answer r t m = done (if r.0 then copied else refused, r.1, t, m)

module _ (hart root : ℕ) (t : Process) (m : Memory) where
  copy_str_loop_end :
      (fuel va : ℕ) → copy_str_loop fuel hart root va 0 t m ≡ done (refused, [], t, m)
  unfolding copy_str_loop
  copy_str_loop_end zero va = refl
  copy_str_loop_end (suc fuel) va = refl

  copy_str_loop-user :
      (fuel va max : ℕ)
      → max ≤ fuel
      → IsReadable m.bytes root va max
      → copy_str_loop fuel hart root va max t m
        ≡ string_answer (user_string m.bytes root va max) t m
  unfolding copy_str_loop
  copy_str_loop-user fuel va zero h r = copy_str_loop_end fuel va
  copy_str_loop-user zero va (suc max) h r = absurd (omega arith)
  copy_str_loop-user (suc fuel) va (suc max) h r =
      let n = chunk va (suc max) in
      let base = va / 4096 * 4096 in
      let here =
        page_of-view hart root va load t m (omega (arith, r.top))
          (r.entries va (omega arith) (omega arith)) in
      let below : ltb max_va base ≡ false = ground (arith, r.top) in
      let room : va % 4096 + n ≤ 4096 = ground arith in
      let some_left : suc max == 0 ≡ false = ground arith in
      let total : n + (suc max - n) ≡ suc max = ground arith in
      let page = scan_page-user m.bytes root va n room in
      let whole : join (user_string m.bytes root va n)
            (user_string m.bytes root (va + n) (suc max - n))
          ≡ user_string m.bytes root va (suc max) =
        user_string-append m.bytes root va n (suc max - n)
        ∙ ap (user_string m.bytes root va) total in
      let rest : copy_str_loop fuel hart root (base + 4096) (suc max - n) t m
          ≡ string_answer (user_string m.bytes root (va + n) (suc max - n)) t m =
        elim (Bool-cases (ltb (suc max) (4096 - va % 4096))) [
          | inl e ↦
              let last : suc max - n ≡ 0 = ground arith in
              rw last (copy_str_loop_end fuel (base + 4096))
          | inr e ↦
              let next : base + 4096 ≡ va + n = ground arith in
              rw next (
                copy_str_loop-user fuel (va + n) (suc max - n) (ground arith) (record {
                  top = ground (arith, r.top);
                  entries = λ w low high. r.entries w (ground arith) (ground arith);
                }))
        ] in
      elim (Bool-cases (user_string m.bytes root va n).0) [
        | inl y ↦
            rw (copy_str_loop, some_left, below, here, ◌>>=◌, page, y, page) refl
            ∙ ap (λ w. string_answer w t m) (rw y at whole)
        | inr y ↦
            rw (copy_str_loop, some_left, below, here, ◌>>=◌, page, y, rest, page) refl
            ∙ ap (λ w. string_answer w t m) (rw y at whole)
      ]

  -- For a range below 2^38 of max bytes with valid user entries and nonzero pages,
  -- copy_str_from_user writes the bytes that the user sees up to and with the first 0 and answers
  -- 0, or writes all max of them and answers -1 where none is 0; the task and the memory are
  -- unchanged.
  pub copy_str_from_user-user :
      (va max : ℕ)
      → IsReadable m.bytes root va max
      → copy_str_from_user hart root va max t m
        ≡ string_answer (user_string m.bytes root va max) t m
  unfolding copy_str_from_user
  copy_str_from_user-user va max r = copy_str_loop-user max va max (omega arith) r
