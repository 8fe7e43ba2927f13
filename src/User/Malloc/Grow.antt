-- ===== src/User/Malloc/Grow.antt =====
-- `malloc` over the system call of the kernel.
use loeux_riscv.Base.{
  ℕ, ◌+◌, ◌%◌, ◌^◌, ◌≤◌, ◌<◌, true, false, ltb, List, length, Returns, ◌≡◌, inl, inr, refl, arith,
}
use loeux_riscv.Syscall.{HeapArea, get_arg_int, sys_sbrk}
use loeux_riscv.User.Malloc.{Heap, blk_hdr, align_up, malloc}
use loeux_riscv.User.Malloc.Laws.{IsHeap, IsSbrk, IsGiven, malloc-Malloced, request_small}

get_arg_int_small : (a : ℕ) → a < 2 ^ 31 → get_arg_int a ≡ a
unfolding get_arg_int
get_arg_int_small a small =
    let low : a % 2 ^ 32 ≡ a = omega arith in
    let sign : ltb a (2 ^ 31) ≡ true = ground arith in rw (low, sign) refl

sys_sbrk_up :
    (t : HeapArea) (total : ℕ)
    → t.heap_start ≤ t.heap_brk
    → t.heap_brk < 2 ^ 62
    → total < 2 ^ 31
    → ((sys_sbrk t total).0 ≡ t.heap_brk) × ((sys_sbrk t total).1.heap_brk ≡ t.heap_brk + total)
unfolding sys_sbrk
sys_sbrk_up t total start top small =
    let moved : (t.heap_brk + total) % 2 ^ 64 ≡ t.heap_brk + total = omega arith in
    let inside : ltb (t.heap_brk + total) t.heap_start ≡ false = ground arith in
    (
      rw (sys_sbrk, get_arg_int_small total small, moved, inside) refl,
      rw (sys_sbrk, get_arg_int_small total small, moved, inside) refl,
    )

sys_sbrk-IsSbrk :
    (t : HeapArea)
    → t.heap_start ≤ t.heap_brk
    → t.heap_brk < 2 ^ 62
    → IsSbrk sys_sbrk (λ t. t.heap_brk) t t.heap_brk
sys_sbrk-IsSbrk t start top = (
  refl,
  λ total small. let up = sys_sbrk_up t total start top small in inl (up.0, omega arith, up.1),
)

-- The block of the answer, and the heap up to the new break.
pub record Given (h : Heap) (l : List ℕ) (n : ℕ) (r : ℕ × Heap × HeapArea) : Type 0 where
  pub block : ℕ
  pub list : List ℕ
  pub address : r.0 ≡ block + blk_hdr
  pub heap : IsHeap r.1 list r.2.heap_brk
  pub given : IsGiven h l n block r.1 list

-- For such a heap up to the break of the task, which is not below the start of its heap and below
-- 2^62, and n bytes with 0 < n and n + 80 < 2^31, malloc over sys_sbrk returns, on any fuel above
-- the number of blocks, the address behind the header of a block. The heap is then such a heap up
-- to the break that the task has then; the block is one of its blocks, has at least n bytes, is in
-- use, and was free if it was a block before; every other block keeps its size and its flag.
pub malloc-Given :
    (fuel n : ℕ) (h : Heap) (t : HeapArea) (l : List ℕ)
    → IsHeap h l t.heap_brk
    → length l < fuel
    → t.heap_start ≤ t.heap_brk
    → t.heap_brk < 2 ^ 62
    → 0 < n
    → n + 80 < 2 ^ 31
    → Returns (malloc sys_sbrk fuel n h t) (Given h l n)
malloc-Given fuel n h t l k enough start top some_bytes small =
    let (r, run, m) =
      malloc-Malloced sys_sbrk (λ t. t.heap_brk) fuel n h t l t.heap_brk k enough
        (sys_sbrk-IsSbrk t start top) some_bytes small in
    elim m.answer [
      | inl e ↦
          let up =
            sys_sbrk_up t (align_up ((align_up n + blk_hdr) % 2 ^ 64)) start top
              (request_small n small) in
          absurd (omega (arith, e.2, up.0))
      | inr g ↦
          (r, run, record { block = g.0; list = m.list; address = g.1; heap = m.heap; given = g.2 })
    ]
