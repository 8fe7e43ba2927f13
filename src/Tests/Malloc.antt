-- ===== src/Tests/Malloc.antt =====
-- A heap of a used and a free block.
use loeux_riscv.Base.{ℕ, ◌+◌, true, false, ◌==◌, if◌then◌else◌, [], ◌∷◌, Returns, inl, refl, arith}
use loeux_riscv.User.Malloc.{Heap, blk_hdr, malloc, free}
use loeux_riscv.User.Malloc.Laws.{IsHeap}
use loeux_riscv.User.Malloc.Grow.{Given, malloc-Given}
use loeux_riscv.Syscall.{HeapArea, sys_sbrk}
use loeux_riscv.User.Malloc.Freed.{IsFreed, free-IsFreed}

abbrev two_blocks : Heap
two_blocks = record {
  blocks = λ x.
      if x == 4096
      then record { size = 64; is_free = false; next = 4208; prev = 0 }
      else record { size = 32; is_free = true; next = 0; prev = 4096 };
  heap_head = 4096;
  heap_tail = 4208;
  locked = 0;
}

abbrev end : ℕ
end = 4288

two_blocks-IsHeap : IsHeap two_blocks (4096 ∷ 4208 ∷ []) end
two_blocks-IsHeap = record {
  chain = (refl, refl, (refl, refl, refl));
  tail = refl;
  tiles = (omega arith, refl, (omega arith, refl, tt));
  nonnull = omega arith;
  limit = omega arith;
  unlocked = refl;
}

abbrev area : HeapArea
area = record { heap_start = 4096; heap_brk = end; heap_history_max = end }

malloc-Given_example :
    Returns (malloc sys_sbrk 3 100 two_blocks area) (Given two_blocks (4096 ∷ 4208 ∷ []) 100)
malloc-Given_example =
    malloc-Given 3 100 two_blocks area (4096 ∷ 4208 ∷ []) two_blocks-IsHeap (omega arith)
      (omega arith) (omega arith) (omega arith) (omega arith)

free-IsFreed_example :
    Returns (free 2 (4096 + blk_hdr) two_blocks) (IsFreed two_blocks (4096 ∷ 4208 ∷ []) end 4096)
free-IsFreed_example =
    free-IsFreed two_blocks (4096 ∷ 4208 ∷ []) end 4096 2 two_blocks-IsHeap (inl refl) (omega arith)
