-- ===== src/Mm/PageTable/Boot.antt =====
-- `kvminit`, the mapping of the kernel, and `mappages` on pages that are mapped.
use loeux_riscv.Base.{
  ℕ, zero, suc, ◌+◌, ◌*◌, ◌/◌, ◌%◌, ◌^◌, ◌≤◌, ◌<◌, Bool, true, false, ◌==◌, if◌then◌else◌, List,
  length, Outcome, done, halt, ◌>>=◌, ◌≡◌, inl, inr, refl, sym, ◌∙◌, ap, arith,
}
use loeux_riscv.Mm.Pages.{Memory}
use loeux_riscv.Mm.Words.{get_word}
use loeux_riscv.Mm.PageTable.{
  max_va, is_valid, with_valid, map_loop, mappages, kvminit_loop, kvminit,
}
use loeux_riscv.Mm.PageTable.View.{view}
use loeux_riscv.Mm.PageTable.Shape.{Shape}
use loeux_riscv.Mm.PageTable.Grow.{IsMapped}
use loeux_riscv.Mm.PageTable.Mapping.{
  IsClear, view-slot, pte_walk-Walked, after_first, first-IsMapped, first-IsClear, map_loop_first,
  first_other,
}

-- A result of `mappages` for a caller that stops the kernel on -1.
abbrev pub or_halt : Bool × Memory → Outcome Memory
or_halt r = if r.0 then done r.1 else halt

module _ (hart root flags : ℕ) (small : flags < 2 ^ 10) (odd : flags % 2 ≡ 1) where
  kvminit_loop-map_loop :
      (a pa n : ℕ) (m : Memory) (s : Shape) (l : List ℕ)
      → IsMapped m s root l
      → IsClear m root a pa n
      → kvminit_loop hart root a pa flags n m ≡ map_loop hart root a pa flags n m >>= or_halt
  unfolding kvminit_loop map_loop
  kvminit_loop-map_loop a pa zero m s l k clear = refl
  kvminit_loop-map_loop a pa (suc n) m s l k clear =
      let (r, e, w) = pte_walk-Walked hart root a m s l k (omega (arith, clear.top)) in
      elim w.answer [
        | inl none_left ↦ rw (kvminit_loop, map_loop, e, ◌>>=◌, none_left.0) refl
        | inr found ↦
            let nonnull : r.0 == 0 ≡ false = ground arith in
            let va_step : (a + 4096) % 2 ^ 64 ≡ a + 4096 = omega (arith, clear.top) in
            let pa_step : (pa + 4096) % 2 ^ 64 ≡ pa + 4096 = omega (arith, clear.phys) in
            let same_flags : with_valid flags ≡ flags = ground arith in
            let step =
              map_loop_first hart root flags small a pa n m s l clear r w found.0 found.1 n e in
            let rest =
              kvminit_loop-map_loop (a + 4096) (pa + 4096) n
                (after_first hart root flags small a pa n m s l clear r w found.0 found.1) w.shape
                w.left (first-IsMapped hart root flags small a pa n m s l clear r w found.0 found.1)
                (first-IsClear hart root flags small a pa n m s l clear r w found.0 found.1) in
            rw
              (
                step,
                sym rest,
                kvminit_loop,
                e,
                ◌>>=◌,
                nonnull,
                va_step,
                pa_step,
                found.1,
                same_flags,
              )
              refl
      ]

  -- On a clear, aligned range kvminit does what mappages does, and stops the kernel where it fails.
  pub kvminit-mappages :
      (va pa n : ℕ) (m : Memory) (s : Shape) (l : List ℕ)
      → IsMapped m s root l
      → IsClear m root va pa (suc n)
      → pa % 4096 ≡ 0
      → kvminit hart root va pa (suc n) flags m
        ≡ mappages hart root va (4096 * suc n) pa flags m >>= or_halt
  unfolding kvminit mappages
  kvminit-mappages va pa n m s l k clear whole_pa =
      let aligned : va % 4096 == 0 ≡ true = ground (arith, clear.aligned) in
      let whole : 4096 * suc n % 4096 == 0 ≡ true = ground arith in
      let some_size : 4096 * suc n == 0 ≡ false = ground arith in
      let count : 4096 * suc n / 4096 ≡ suc n = omega arith in
      let va_same : va / 4096 * 4096 ≡ va = omega (arith, clear.aligned) in
      let pa_same : pa / 4096 * 4096 ≡ pa = omega arith in
      rw (kvminit, mappages, aligned, whole, some_size, count, va_same, pa_same)
        (kvminit_loop-map_loop va pa (suc n) m s l k clear)

module _ (hart root perm : ℕ) (small : perm < 2 ^ 10) where
  -- The first page of the loop is mapped.
  map_loop_mapped :
      (a pa n : ℕ) (m : Memory) (s : Shape) (l : List ℕ)
      → IsMapped m s root l
      → a ≤ max_va
      → is_valid (view m.bytes 2 root a) ≡ true
      → 2 ≤ length l
      → map_loop hart root a pa perm (suc n) m ≡ halt
  unfolding map_loop
  map_loop_mapped a pa n m s l k h e enough =
      let (r, walk, w) = pte_walk-Walked hart root a m s l k h in
      elim w.answer [
        | inl none_left ↦ absurd (omega (arith, none_left.1))
        | inr found ↦
            let nonnull : r.0 == 0 ≡ false = ground arith in
            let entry : get_word r.1.bytes r.0 ≡ view m.bytes 2 root a =
              ap (get_word r.1.bytes) (sym found.1)
              ∙ sym (view-slot r.1.bytes root a (λ x. found.0 (sym found.1 ∙ x)))
              ∙ w.same a (omega arith) in
            rw (map_loop, walk, ◌>>=◌, nonnull, entry, e) refl
      ]

  -- The page after the first k of the loop is mapped.
  pub map_loop_remap :
      (k : ℕ) (a pa n : ℕ) (m : Memory) (s : Shape) (l : List ℕ)
      → IsMapped m s root l
      → IsClear m root a pa k
      → a + 4096 * k ≤ max_va
      → pa + 4096 * suc (k + n) ≤ 2 ^ 56
      → is_valid (view m.bytes 2 root (a + 4096 * k)) ≡ true
      → 2 * suc k ≤ length l
      → map_loop hart root a pa perm (suc (k + n)) m ≡ halt
  unfolding map_loop
  map_loop_remap zero a pa n m s l mapped clear top phys e enough =
      let here : a + 4096 * 0 ≡ a = omega arith in
      let count : 0 + n ≡ n = omega arith in
      rw count (map_loop_mapped a pa n m s l mapped (omega arith) (rw here at e) (omega arith))
  map_loop_remap (suc k) a pa n m s l mapped clear top phys e enough =
      let count : suc k + n ≡ suc (k + n) = omega arith in
      let (r, walk, w) = pte_walk-Walked hart root a m s l mapped (omega (arith, clear.top)) in
      elim w.answer [
        | inl none_left ↦ absurd (omega (arith, none_left.1))
        | inr found ↦
            let there : is_valid (
                  view
                    (after_first hart root perm small a pa k m s l clear r w found.0 found.1).bytes
                    2 root (a + 4096 + 4096 * k))
                ≡ true =
              let at_k : a + 4096 * suc k ≡ a + 4096 + 4096 * k = omega arith in
              rw
                (first_other hart root perm small a pa k m s l clear r w found.0 found.1
                  (a + 4096 + 4096 * k) (omega arith) (λ x. omega arith))
                (rw at_k at e) in
            let rest =
              map_loop_remap k (a + 4096) (pa + 4096) n
                (after_first hart root perm small a pa k m s l clear r w found.0 found.1) w.shape
                w.left (first-IsMapped hart root perm small a pa k m s l clear r w found.0 found.1)
                (first-IsClear hart root perm small a pa k m s l clear r w found.0 found.1)
                (omega arith) (omega arith) there (omega (arith, w.cost)) in
            rw count (
              map_loop_first hart root perm small a pa k m s l clear r w found.0 found.1
                (suc (k + n)) walk
              ∙ rest)
      ]

  -- For well-formed tables, where the first k pages of the range have no valid entry, the page
  -- after them has one, and 2 (k + 1) pages are free, mappages stops the kernel.
  pub mappages_remap :
      (k va pa n : ℕ) (m : Memory) (s : Shape) (l : List ℕ)
      → IsMapped m s root l
      → IsClear m root va pa k
      → va + 4096 * k ≤ max_va
      → pa + 4096 * suc (k + n) ≤ 2 ^ 56
      → is_valid (view m.bytes 2 root (va + 4096 * k)) ≡ true
      → 2 * suc k ≤ length l
      → mappages hart root va (4096 * suc (k + n)) pa perm m ≡ halt
  unfolding mappages
  mappages_remap k va pa n m s l mapped clear top phys e enough =
      let aligned : va % 4096 == 0 ≡ true = ground (arith, clear.aligned) in
      let whole : 4096 * suc (k + n) % 4096 == 0 ≡ true = ground arith in
      let some_size : 4096 * suc (k + n) == 0 ≡ false = ground arith in
      let count : 4096 * suc (k + n) / 4096 ≡ suc (k + n) = omega arith in
      rw (mappages, aligned, whole, some_size, count)
        (map_loop_remap k va pa n m s l mapped clear top phys e enough)
