-- ===== src/User/Malloc.antt =====
-- The heap of user/malloc.c: the blocks with their links, `malloc` and `free`. A block is named by its
-- address, 0 is NULL. `sbrk` is a system call, an argument: it answers the old break, or -1, and the
-- kernel's next state; Grow takes `sys_sbrk` for it.
pub mod Chain
pub mod Laws
pub mod Merge
pub mod Free
pub mod Freed
pub mod Grow
use loeux_riscv.Base.{
  update, ℕ, zero, suc, ◌+◌, ◌-◌, ◌*◌, ◌/◌, ◌%◌, ◌^◌, Bool, true, false, ◌&&◌, not, Outcome, done,
  spin, ◌>>=◌, ◌==◌, ltb, leb, if◌then◌else◌,
}

-- `struct block`
pub record Block : Type 0 where
  pub size : ℕ
  pub is_free : Bool
  pub next : ℕ
  pub prev : ℕ

-- The blocks, `heap_head`, `heap_tail` and the word of `heap_lock`.
pub record Heap : Type 0 where
  pub blocks : ℕ → Block
  pub heap_head : ℕ
  pub heap_tail : ℕ
  pub locked : ℕ

-- `BLK_HDR`
abbrev pub blk_hdr : ℕ
blk_hdr = 48

-- `ALIGN_UP` of a `size_t`.
unfoldable pub align_up : ℕ → ℕ
align_up x = (x + 15) % 2 ^ 64 / 16 * 16

-- Another thread's lock is never released by a step of this one.
unfoldable pub umutex_lock : Heap → Outcome Heap
umutex_lock h = if h.locked == 0 then done (record h { locked = 1 }) else spin

unfoldable pub umutex_unlock : Heap → Heap
umutex_unlock h = record h { locked = 0 }

-- The new block `b` of `total` bytes becomes the last one.
unfoldable pub append_block : ℕ → ℕ → Heap → Heap
append_block b total h =
    let fresh : Block = record {
      size = (total + 2 ^ 64 - blk_hdr) % 2 ^ 64;
      is_free = true;
      next = 0;
      prev = h.heap_tail;
    } in
    let blocks = update h.blocks b fresh in
    record h {
      blocks =
          if h.heap_tail == 0
          then blocks
          else update blocks h.heap_tail (record (blocks h.heap_tail) { next = b });
      heap_head = if h.heap_tail == 0 then b else h.heap_head;
      heap_tail = b;
    }

-- The loop of `malloc`, on fuel for the blocks that it passes.
unfoldable pub first_fit : ℕ → (ℕ → Block) → ℕ → ℕ → Outcome ℕ
first_fit zero blocks b n = spin
first_fit (suc fuel) blocks b n =
    let rest = first_fit fuel blocks (blocks b).next n in
    if b == 0 then done 0 else if (blocks b).is_free && leb n (blocks b).size then done b else rest

unfoldable pub set_used : ℕ → Heap → Heap
set_used b h = record h { blocks = update h.blocks b (record (h.blocks b) { is_free = false }) }

-- The block `b` takes in the block `y` behind it: its links and its size.
unfoldable pub merged : (ℕ → Block) → ℕ → ℕ → ℕ → Block
merged blocks b y =
    let after = (blocks y).next in
    let larger = update blocks b (record (blocks b) {
      size = ((blocks b).size + (blk_hdr + (blocks y).size)) % 2 ^ 64;
      next = after;
    }) in
    if after == 0 then larger else update larger after (record (larger after) { prev = b })

-- The loop of `free` that merges with the next blocks, on fuel for these.
unfoldable pub absorb_next : ℕ → ℕ → (ℕ → Block) → Outcome (ℕ → Block)
absorb_next zero b blocks = spin
absorb_next (suc fuel) b blocks =
    let y = (blocks b).next in
    let rest = absorb_next fuel b (merged blocks b y) in
    if not (y == 0) && (blocks y).is_free then rest else done blocks

-- The merge with the block before; the answer is the block that holds `b` then.
unfoldable pub absorb_prev : ℕ → Heap → ℕ × Heap
absorb_prev b h =
    let p = (h.blocks b).prev in
    if not (p == 0) && (h.blocks p).is_free
    then (
      p,
      record h {
        blocks = merged h.blocks p b;
        heap_tail = if (h.blocks b).next == 0 then p else h.heap_tail;
      },
    )
    else (b, h)

-- `free` of a block under the lock.
unfoldable pub free_block : ℕ → ℕ → Heap → Outcome Heap
free_block fuel b h = do
  blocks ← absorb_next fuel b (update h.blocks b (record (h.blocks b) { is_free = true }))
  let r = absorb_prev b (record h { blocks = blocks })
  done (record r.1 { heap_tail = if (r.1.blocks r.0).next == 0 then r.0 else r.1.heap_tail })

unfoldable pub free : ℕ → ℕ → Heap → Outcome Heap
free fuel ptr h =
    if ptr == 0
    then done h
    else (umutex_lock h >>= λ h₁.
        free_block fuel ((ptr + 2 ^ 64 - blk_hdr) % 2 ^ 64) h₁ >>= λ h₂. done (umutex_unlock h₂))

module _ {ℓ} {K : Type ℓ} (sbrk : K → ℕ → ℕ × K) where
  unfoldable pub grow_heap : ℕ → Heap → K → ℕ × Heap × K
  grow_heap need h kernel =
      let total = align_up ((need + blk_hdr) % 2 ^ 64) in
      let p = (sbrk kernel total).0 in
      let kernel' = (sbrk kernel total).1 in
      if p == 2 ^ 64 - 1 then (0, h, kernel') else (p, append_block p total h, kernel')

  -- `malloc` from the loop on, for the aligned size: the answer is the block, or NULL.
  unfoldable pub malloc_block : ℕ → ℕ → Heap → K → Outcome (ℕ × Heap × K)
  malloc_block fuel n h kernel = do
    b ← first_fit fuel h.blocks h.heap_head n
    let grown = grow_heap n h kernel
    if not (b == 0)
        then done (b, set_used b h, kernel)
        else if grown.0 == 0
        then done (0, grown.1, grown.2)
        else done (grown.0, set_used grown.0 grown.1, grown.2)

  unfoldable pub malloc : ℕ → ℕ → Heap → K → Outcome (ℕ × Heap × K)
  malloc fuel n h kernel =
      if n == 0
      then done (0, h, kernel)
      else (umutex_lock h >>= λ h₁. malloc_block fuel (align_up n) h₁ kernel >>= λ r.
          done (if r.0 == 0 then 0 else (r.0 + blk_hdr) % 2 ^ 64, umutex_unlock r.1, r.2))
