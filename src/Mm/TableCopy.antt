-- ===== src/Mm/TableCopy.antt =====
-- The copies of a user's memory for a new task, in mm/vm.c: `vm_pagetbl_copy` and
-- `vm_pagetbl_copy_asign`.
pub mod Frame
pub mod OnePage
pub mod Laws
use loeux_riscv.Base.{
  ℕ, zero, suc, ◌+◌, ◌-◌, ◌*◌, ◌/◌, ◌%◌, ◌^◌, Bool, true, false, not, Outcome, done, ◌>>=◌, ◌==◌,
  ltb, if◌then◌else◌,
}
use loeux_riscv.Mm.Pages.{Memory, page_size, alloc_page, free_page}
use loeux_riscv.Mm.Words.{get_word}
use loeux_riscv.Mm.PageTable.{pte_pa, is_valid, pte_walk, mappages, pg_unmap}
use loeux_riscv.Mm.UserCopy.{write_bytes}

-- The body of the loops from the call of `kalloc` on, for the page `pa` with `flags`: `false` is the
-- answer -1.
unfoldable pub copy_mapped : ℕ → ℕ → ℕ → ℕ → ℕ → Memory → Outcome (Bool × Memory)
copy_mapped hart dst_pg va pa flags m = do
  (chunk, m₁) ← alloc_page hart m
  let filled = record m₁ { bytes = write_bytes m₁.bytes chunk (λ k. m₁.bytes (pa + k)) page_size }
  if chunk == 0
      then (pg_unmap hart dst_pg va 1 true m₁ >>= λ m₂. done (false, m₂))
      else (mappages hart dst_pg va page_size chunk flags filled >>= λ r.
          if r.0
          then done (true, r.1)
          else (free_page hart r.1 chunk >>= λ f.
              pg_unmap hart dst_pg va 1 true f.1 >>= λ m₂. done (false, m₂)))

-- The body of the loops.
unfoldable pub copy_page : ℕ → ℕ → ℕ → ℕ → Memory → Outcome (Bool × Memory)
copy_page hart src_pg dst_pg va m = do
  (p, m₁) ← pte_walk hart src_pg va false m
  let entry = get_word m₁.bytes p
  if p == 0
      then done (true, m₁)
      else if not (is_valid entry)
      then done (true, m₁)
      else if pte_pa entry == 0
      then done (true, m₁)
      else copy_mapped hart dst_pg va (pte_pa entry) (entry % 2 ^ 10) m₁

-- `n` rounds of the loops from `va` on.
unfoldable pub copy_pages : ℕ → ℕ → ℕ → ℕ → ℕ → Memory → Outcome (Bool × Memory)
copy_pages hart src_pg dst_pg va zero m = done (true, m)
copy_pages hart src_pg dst_pg va (suc n) m = copy_page hart src_pg dst_pg va m >>= λ r. elim r.0 [
  | false ↦ done (false, r.1)
  | true ↦ copy_pages hart src_pg dst_pg (va + page_size) n r.1
]

abbrev pub user_base_prog_addr : ℕ
user_base_prog_addr = 0x1000

-- The loop runs while `va <= sz`.
unfoldable pub vm_pagetbl_copy : ℕ → ℕ → ℕ → ℕ → Bool → Memory → Outcome (Bool × Memory)
vm_pagetbl_copy hart src_pg dst_pg sz is_user_copy m =
    let va = if is_user_copy then user_base_prog_addr else 0 in
    if ltb sz va
    then done (true, m)
    else copy_pages hart src_pg dst_pg va ((sz - va) / page_size + 1) m

-- The loop runs while `va < va_start + sz`, in 64 bits, which no range of the code leaves.
unfoldable pub vm_pagetbl_copy_asign : ℕ → ℕ → ℕ → ℕ → ℕ → Memory → Outcome (Bool × Memory)
vm_pagetbl_copy_asign hart src_pg dst_pg va_start sz m =
    copy_pages hart src_pg dst_pg va_start ((sz + page_size - 1) / page_size) m
