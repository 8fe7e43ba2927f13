-- ===== src/Mm/UserCopy/Fault.antt =====
-- A page fault in the heap maps a page of zeros.
use loeux_riscv.Base.{
  ℕ, ◌+◌, ◌-◌, ◌*◌, ◌/◌, ◌%◌, ◌^◌, ◌≤◌, ◌<◌, Bool, true, false, ◌||◌, ◌==◌, ltb, leb, some, List,
  ◌∷◌, length, done, ◌>>=◌, ◌≡◌, ◌≢◌, ◌⊎◌, inl, inr, sym, ◌∙◌, ap, arith,
}
use loeux_riscv.Mm.Pages.{Memory, memory_start, alloc_page}
use loeux_riscv.Mm.Pages.Laws.{Allocated, alloc_page-Allocated}
use loeux_riscv.Mm.PageTable.{max_va, pte_pa, pa_pte, is_valid, mappages}
use loeux_riscv.Mm.PageTable.View.{view}
use loeux_riscv.Mm.PageTable.Shape.{Shape}
use loeux_riscv.Mm.PageTable.Fresh.{pte_pa-pa_pte}
use loeux_riscv.Mm.PageTable.Grow.{IsMapped}
use loeux_riscv.Mm.PageTable.Mapping.{IsClear, Mapped, mappages-Mapped}
use loeux_riscv.Mm.PageTable.Unmap.{view-page}
use loeux_riscv.Mm.UserCopy.{
  PageFault, Process, is_data_access, map_fault, do_page_fault_with_new_pa,
}
use loeux_riscv.Mm.UserCopy.Read.{user_at}
use loeux_riscv.Mm.UserCopy.Taken.{Away-NotIn, taken_at, taken-IsMapped, taken-view}
use loeux_riscv.Sync.Spinlock.{init_spinlock}
use loeux_riscv.Sync.Spinlock.Laws.{take_free, drop_held}

-- What the handler did with the page `i` for the page of addresses from `va` on: the page is mapped
-- there, it is no table and all zeros, and no other address changes its entry.
pub record Faulted (m : Memory) (root va i : ℕ) (r : Memory) : Type 0 where
  pub shape : Shape
  pub left : List ℕ
  pub mapped : IsMapped r shape root left
  pub plain : shape.height (memory_start + 4096 * i) ≡ 0
  pub here :
      (w : ℕ) → w / 4096 ≡ va / 4096 → view r.bytes 2 root w ≡ pa_pte (memory_start + 4096 * i) + 23
  pub zeros : (w : ℕ) → w / 4096 ≡ va / 4096 → r.bytes (user_at r.bytes root w) ≡ 0
  pub others :
      (w : ℕ) → w < 2 ^ 39 → w / 4096 ≢ va / 4096 → view r.bytes 2 root w ≡ view m.bytes 2 root w

-- The faults that the handler serves.
pub record IsHeapFault (m : Memory) (t : Process) (addr : ℕ) (type : PageFault) : Type 0 where
  pub access : is_data_access type ≡ true
  pub low : t.heap_start ≤ addr
  pub high : addr < t.heap_brk
  pub below : addr ≤ max_va
  pub unlocked : t.lk ≡ init_spinlock
  pub unmapped : is_valid (view m.bytes 2 t.pg addr) ≡ false

module _ (hart addr i : ℕ) (type : PageFault) (t : Process) (m : Memory) (s : Shape) (l : List ℕ)
    (k : IsMapped m s t.pg (i ∷ l)) (f : IsHeapFault m t addr type) (enough : 2 ≤ length l) where
  abbrev base : ℕ
  base = addr / 4096 * 4096

  abbrev page : ℕ
  page = memory_start + 4096 * i

  module _ (r : ℕ × Memory) (made : Allocated m i l r) where
    range-IsClear : IsClear r.1 t.pg base r.0 1
    range-IsClear = record {
      aligned = omega arith;
      top = omega (arith, f.below);
      phys = omega (arith, taken_at m s t.pg i l r k made, k.spare.1);
      unmapped = λ w low high h.
          rw (taken-view m s t.pg i l r k made w h, view-page m.bytes t.pg w addr (omega arith))
            f.unmapped;
    }

    module _ (r₂ : Bool × Memory) (z : Mapped r.1 s t.pg base r.0 23 1 l r₂) where
      all_mapped : (r₂.0 ≡ true) × (z.count ≡ 1)
      all_mapped = elim z.answer [ inl y ↦ y | inr y ↦ absurd (omega (arith, y.2, enough)) ]

      fault_run :
          alloc_page hart m ≡ done r
          → mappages hart t.pg base 4096 r.0 23 r.1 ≡ done r₂
          → do_page_fault_with_new_pa hart addr type t m ≡ done (some page, t, r₂.1)
      unfolding do_page_fault_with_new_pa map_fault
      fault_run alloc map =
          let at = taken_at m s t.pg i l r k made in
          let nonnull : r.0 == 0 ≡ false = ground arith in
          let outside : ltb addr t.heap_start || leb t.heap_brk addr ≡ false =
            ground (arith, f.low, f.high) in
          rw
            (
              do_page_fault_with_new_pa,
              f.access,
              outside,
              alloc,
              ◌>>=◌,
              nonnull,
              map_fault,
              f.unlocked,
              take_free hart,
              map,
              drop_held hart,
              all_mapped.0,
            )
            (ap (λ x. done (some x, record t { lk = init_spinlock }, r₂.1)) at)

      mapped_plain : z.shape.height page ≡ 0
      mapped_plain =
          let at = taken_at m s t.pg i l r k made in
          rw (sym at) (z.fresh r.0 (rw at k.spare.2) (rw at (Away-NotIn i l k.queue.distinct.0))).0

      mapped_here : (w : ℕ) → w / 4096 ≡ addr / 4096 → view r₂.1.bytes 2 t.pg w ≡ pa_pte page + 23
      mapped_here w e =
          let offset : r.0 + (w - base) / 4096 * 4096 ≡ page =
            omega (arith, taken_at m s t.pg i l r k made) in
          z.inside w (omega (arith, f.below)) (omega arith) (omega (arith, all_mapped.1))
          ∙ ap (λ x. pa_pte x + 23) offset

      mapped_zeros : (w : ℕ) → w / 4096 ≡ addr / 4096 → r₂.1.bytes (user_at r₂.1.bytes t.pg w) ≡ 0
      mapped_zeros w e =
          let address : user_at r₂.1.bytes t.pg w ≡ page + w % 4096 =
            ap (λ x. pte_pa x + w % 4096) (mapped_here w e)
            ∙ ap (λ x. x + w % 4096)
                (pte_pa-pa_pte page 23 (omega arith) (omega (arith, k.spare.1)) (omega arith)) in
          let away : (u : ℕ)
              → 0 < z.shape.height u
              → (page + w % 4096 < u) ⊎ (u + 4096 ≤ page + w % 4096) =
            λ u h.
              let a = z.mapped.tree.tables u h in
              let d : u ≢ page = λ x. ground (arith, mapped_plain) in ground (arith, a.aligned) in
          rw address (
            z.kept (page + w % 4096) away ∙ rw k.spare.0 at (made.cleared (w % 4096) (omega arith)))

      mapped_others :
          (w : ℕ)
          → w < 2 ^ 39
          → w / 4096 ≢ addr / 4096
          → view r₂.1.bytes 2 t.pg w ≡ view m.bytes 2 t.pg w
      mapped_others w h d =
          z.outside w h (ground (arith, all_mapped.1)) ∙ taken-view m s t.pg i l r k made w h

  -- For well-formed tables of the task with the pages i, l free, at least two of them in l, a load
  -- or store fault at an address of the heap up to 2^38 without a valid entry, and the lock of the
  -- task free, do_page_fault_with_new_pa answers the page i; the page of the address then has the
  -- entry of this page with PTE_V, R, W and U, the page is no table and the user reads zeros in
  -- it, no other address changes its entry, and the tables are well-formed.
  pub do_page_fault-Faulted :
      (m' : Memory) × (do_page_fault_with_new_pa hart addr type t m
        ≡ done (some (memory_start + 4096 * i), t, m'))
      × Faulted m t.pg addr i m'
  do_page_fault-Faulted =
      let (r, alloc, made) = alloc_page-Allocated hart m i l k.queue in
      let kept = taken-IsMapped m s t.pg i l r k made in
      let (r₂, map, z) =
        mappages-Mapped hart t.pg 23 (omega arith) base r.0 0 r.1 s l kept (range-IsClear r made) in
      (
        r₂.1,
        fault_run r made r₂ z alloc map,
        record {
          shape = z.shape;
          left = z.left;
          mapped = z.mapped;
          plain = mapped_plain r made r₂ z;
          here = mapped_here r made r₂ z;
          zeros = mapped_zeros r made r₂ z;
          others = mapped_others r made r₂ z;
        },
      )
