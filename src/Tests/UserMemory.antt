-- ===== src/Tests/UserMemory.antt =====
-- Copies to a user with two pages of memory, and a page fault.
use loeux_riscv.Base.{
  ℕ, ◌+◌, ◌-◌, ◌*◌, ◌/◌, ◌≤◌, ◌<◌, true, some, [], ◌∷◌, done, ◌≡◌, refl, sym, ap, ◌∙◌, arith,
}
use loeux_riscv.Mm.Pages.{Memory, memory_start}
use loeux_riscv.Mm.PageTable.{pte_pa, pa_pte, flag, pte_w}
use loeux_riscv.Mm.PageTable.View.{view}
use loeux_riscv.Mm.PageTable.Grow.{Away}
use loeux_riscv.Mm.PageTable.Fresh.{pte_pa-pa_pte}
use loeux_riscv.Mm.UserCopy.{
  Process, load, copied, copy_to_user, copy_from_user, copy_str_from_user,
  do_page_fault_with_new_pa,
}
use loeux_riscv.Mm.UserCopy.Read.{IsReadable, IsUserEntry}
use loeux_riscv.Mm.UserCopy.Write.{
  IsWritable, Written, copy_to_user-Written, copy_from_user-copy_to_user,
}
use loeux_riscv.Mm.UserCopy.Strings.{user_string, string_answer, copy_str_from_user-user}
use loeux_riscv.Mm.UserCopy.Fault.{IsHeapFault, Faulted, do_page_fault-Faulted}
use loeux_riscv.Sync.Spinlock.{init_spinlock}
use loeux_riscv.Tests.PageTables.{
  root, blank, spare_pages, root_only, two_pages, two_pages-Mapped, blank-IsMapped, no_entry,
  all_mapped,
}

abbrev task : Process
task = record { pg = root; heap_start = 0x4000; heap_brk = 0x8000; lk = init_spinlock }

module _ (w : ℕ) (low : 0x4ffe ≤ w) (high : w < 0x5002) where
  abbrev page : ℕ
  page = 0x9000_0000 + (w - 0x4000) / 4096 * 4096

  entry_at : view two_pages.bytes 2 root w ≡ pa_pte page + 23
  entry_at = two_pages-Mapped.inside w (omega arith) (omega arith) (omega (arith, all_mapped))

  address : pte_pa (view two_pages.bytes 2 root w) ≡ page
  address = ap pte_pa entry_at ∙ pte_pa-pa_pte page 23 (omega arith) (omega arith) (omega arith)

  entry-IsUserEntry : IsUserEntry (view two_pages.bytes 2 root w)
  unfolding pa_pte
  entry-IsUserEntry =
      let present : pa_pte page + 23 ≡ view two_pages.bytes 2 root w = sym entry_at in
      (rw entry_at (ground arith), rw entry_at (ground arith), λ e. omega (arith, address))

  entry_writable : flag pte_w (view two_pages.bytes 2 root w) ≡ true
  unfolding pa_pte
  entry_writable = rw entry_at (ground arith)

  away : Away page spare_pages
  away = (
    (λ e. omega arith),
    (
      (λ e. omega arith),
      (
        (λ e. omega arith),
        (
          (λ e. omega arith),
          (
            (λ e. omega arith),
            ((λ e. omega arith), ((λ e. omega arith), ((λ e. omega arith), tt))),
          ),
        ),
      ),
    ),
  )

  entry_plain : two_pages-Mapped.shape.height (pte_pa (view two_pages.bytes 2 root w)) ≡ 0
  entry_plain = rw address (two_pages-Mapped.fresh page (ground arith) away).0

readable : IsReadable two_pages.bytes root 0x4ffe 4
readable = record { top = omega arith; entries = entry-IsUserEntry }

writable : IsWritable two_pages-Mapped.shape two_pages.bytes root 0x4ffe 4
writable = record {
  readable = readable;
  writable = entry_writable;
  plain = entry_plain;
  own = λ w x lw hw lx hx e. omega (arith, e, address w lw hw, address x lx hx);
}

-- Four bytes over the border of the pages.
copy_to_user-Written_example :
    (m' : Memory) × (copy_to_user 0 root 0x4ffe (λ k. 65 + k) 4 task two_pages
      ≡ done (copied, task, m'))
    × Written two_pages two_pages-Mapped.shape root 0x4ffe 4 (λ k. 65 + k) two_pages-Mapped.left m'
copy_to_user-Written_example =
    copy_to_user-Written 0 root task two_pages-Mapped.shape two_pages-Mapped.left 0x4ffe 4
      (λ k. 65 + k) two_pages two_pages-Mapped.mapped writable

copy_from_user-copy_to_user_example :
    (m' : Memory) × (copy_to_user 0 root 0x4ffe (λ k. 65 + k) 4 task two_pages
      ≡ done (copied, task, m'))
    × (copy_from_user 0 root 0x4ffe 4 task m' ≡ done (copied, 65 ∷ 66 ∷ 67 ∷ 68 ∷ [], task, m'))
copy_from_user-copy_to_user_example =
    copy_from_user-copy_to_user 0 root 0x4ffe 4 (λ k. 65 + k) task two_pages two_pages-Mapped.shape
      two_pages-Mapped.left two_pages-Mapped.mapped writable

copy_str_from_user-user_example :
    copy_str_from_user 0 root 0x4ffe 4 task two_pages
    ≡ string_answer (user_string two_pages.bytes root 0x4ffe 4) task two_pages
copy_str_from_user-user_example = copy_str_from_user-user 0 root task two_pages 0x4ffe 4 readable

heap_fault : IsHeapFault blank task 0x4123 load
heap_fault = record {
  access = refl;
  low = omega arith;
  high = omega arith;
  below = omega arith;
  unlocked = refl;
  unmapped = rw (no_entry 0x4123) refl;
}

do_page_fault-Faulted_example :
    (m' : Memory) × (do_page_fault_with_new_pa 0 0x4123 load task blank
      ≡ done (some (memory_start + 4096 * 2), task, m'))
    × Faulted blank root 0x4123 2 m'
do_page_fault-Faulted_example =
    do_page_fault-Faulted 0 0x4123 2 load task blank root_only (3 ∷ 4 ∷ 5 ∷ 6 ∷ 7 ∷ 8 ∷ 9 ∷ [])
      blank-IsMapped heap_fault (omega arith)
