-- ===== src/Tests/Pages.antt =====
-- A memory with four pages, of which 1 and 2 are free and 3 is in use.
use loeux_riscv.Base.{
  ℕ, ◌+◌, ◌*◌, ◌≤◌, Option, none, some, [], ◌∷◌, halt, Returns, ◌≡◌, refl, arith, ◌==◌,
  if◌then◌else◌,
}
use loeux_riscv.Mm.Pages.Laws.{
  IsQueue, Allocated, IsFreeable, Freed, alloc_page-Allocated, free_page_twice, free_page-Freed,
}
use loeux_riscv.Mm.Pages.{
  Page, Memory, memory_start, phy_to_page, is_reserved, is_used, alloc_page, free_page,
}
use loeux_riscv.Sync.Spinlock.{init_spinlock}

abbrev page_at : ℕ → ℕ → ℕ → Option ℕ → Page
page_at i flags refcount next = record {
  paddr = memory_start + 4096 * i;
  refcount = refcount;
  flags = flags;
  slab = 0;
  prev = none;
  next = next;
}

abbrev with_count : ℕ → Memory
with_count n = record {
  pages = λ i.
      if i == 1
      then page_at 1 0 0 (some 2)
      else if i == 2
      then page_at 2 0 0 none
      else page_at i 2 n none;
  free_head = some 1;
  free_tail = some 2;
  free_start_at = memory_start + 4096;
  free_end_at = memory_start + 4096 * 3;
  lock = init_spinlock;
  bytes = λ a. 5;
}

abbrev small : Memory
small = with_count 1

abbrev shared : Memory
shared = with_count 2

small-IsQueue : (n : ℕ) → IsQueue (with_count n) (1 ∷ 2 ∷ [])
small-IsQueue n = record {
  links = (refl, (refl, refl));
  tail = refl;
  distinct = ((omega arith, tt), (tt, tt));
  free = (refl, refl, (refl, refl, tt));
  unlocked = refl;
}

freeable : (n i : ℕ) → 1 ≤ i → i ≤ 3 → IsFreeable (with_count n) (memory_start + 4096 * i) i
unfolding phy_to_page
freeable n i h k = record {
  aligned = omega arith;
  nonnull = omega arith;
  above = omega arith;
  below = omega arith;
  index = omega arith;
}

alloc_page-Allocated_example : Returns (alloc_page 0 small) (Allocated small 1 (2 ∷ []))
alloc_page-Allocated_example = alloc_page-Allocated 0 small 1 (2 ∷ []) (small-IsQueue 1)

free_page_twice_example : free_page 0 small (memory_start + 4096 * 2) ≡ halt
free_page_twice_example =
    free_page_twice 0 small (memory_start + 4096 * 2) 2 (1 ∷ []) [] (small-IsQueue 1)
      (freeable 1 2 (omega arith) (omega arith))

free_page-Freed_example :
    Returns
      (free_page 0 small (memory_start + 4096 * 3))
      (Freed small (memory_start + 4096 * 3) 3 (1 ∷ 2 ∷ []))
unfolding is_reserved is_used
free_page-Freed_example =
    free_page-Freed 0 small (memory_start + 4096 * 3) 3 (1 ∷ 2 ∷ []) (small-IsQueue 1)
      (freeable 1 3 (omega arith) (omega arith)) refl refl refl (omega arith)
