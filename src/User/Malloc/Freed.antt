-- ===== src/User/Malloc/Freed.antt =====
-- `free` keeps the heap a heap and the other used blocks as they are.
use loeux_riscv.Base.{
  update, ℕ, ◌+◌, ◌-◌, ◌%◌, ◌^◌, ◌≤◌, ◌<◌, true, false, ◌==◌, if◌then◌else◌, List, [], ◌∷◌, ◌++◌,
  length, Returns, ◌≡◌, ◌≢◌, ◌⊎◌, inl, inr, refl, sym, ◌∙◌, ap, arith, Bool-cases,
}
use mathlib.Core.Path.{subst}
use loeux_riscv.User.Malloc.{
  Block, Heap, blk_hdr, umutex_lock, umutex_unlock, merged, absorb_prev, free_block, free,
}
use loeux_riscv.User.Malloc.Chain.{
  Chain, Tiles, end_of, Tiles-bounds, last_or, Listed, Chain-flag, Tiles-flag,
}
use loeux_riscv.User.Malloc.Laws.{IsHeap}
use loeux_riscv.User.Malloc.Merge.{
  Listed-middle, Chain-merged, Tiles-merged, Keeps, Keeps-refl, Keeps-trans, merged-Keeps,
}
use loeux_riscv.User.Malloc.Free.{
  absorb_next-Absorbed, prev_middle, next_middle, Tiles-middle, last_middle, split_last, split_at,
  tail_end,
}

-- The heap behind the two merges: `c` is the block that holds the freed one.
record Joined (blocks : ℕ → Block) (l : List ℕ) (h brk c : ℕ) (g : Heap) : Type 0 where
  front : List ℕ
  rest : List ℕ
  chain : Chain g.blocks 0 h (front ++ c ∷ rest)
  tiles : Tiles g.blocks (front ++ c ∷ rest) brk
  keeps : Keeps blocks l g.blocks (front ++ c ∷ rest)
  tail : (rest ≡ []) ⊎ (g.heap_tail ≡ last_or c rest)
  head : g.heap_head ≡ h

merged_tail :
    (blocks : ℕ → Block) (b q t h brk : ℕ) (front rest : List ℕ)
    → Chain blocks 0 h (front ++ b ∷ rest)
    → Tiles blocks (front ++ b ∷ rest) brk
    → (rest ≡ []) ⊎ (t ≡ last_or b rest)
    → (rest ≡ []) ⊎ ((if (blocks b).next == 0 then q else t) ≡ last_or q rest)
merged_tail blocks b q t h brk front [] k tl e = inl refl
merged_tail blocks b q t h brk front (z ∷ rest) k tl (inl e) = inl e
merged_tail blocks b q t h brk front (z ∷ rest) k tl (inr e) =
    let next : (blocks b).next == 0 ≡ false = ground (
      arith,
      (next_middle blocks b 0 h front (z ∷ rest) k).0,
      (Tiles-middle blocks b brk front (z ∷ rest) tl).2.0,
    ) in
    inr (rw next e)

module _ (b : ℕ) (g : Heap) (brk : ℕ) (top : brk < 2 ^ 63) where
  absorb_prev-Joined :
      (front rest : List ℕ)
      → Chain g.blocks 0 g.heap_head (front ++ b ∷ rest)
      → Tiles g.blocks (front ++ b ∷ rest) brk
      → (g.blocks b).is_free ≡ true
      → (rest ≡ []) ⊎ (g.heap_tail ≡ last_or b rest)
      → Joined g.blocks (front ++ b ∷ rest) g.heap_head brk (absorb_prev b g).0 (absorb_prev b g).1
  unfolding absorb_prev
  absorb_prev-Joined [] rest k tl f e =
      let prev : (g.blocks b).prev == 0 ≡ true = ground (arith, k.1) in
      rw (absorb_prev, prev)
        (record {
          front = [];
          rest = rest;
          chain = k;
          tiles = tl;
          keeps = Keeps-refl g.blocks _;
          tail = e;
          head = refl;
        })
  absorb_prev-Joined (w ∷ front) rest k tl f e =
      let (init, q, last, split) = split_last w front (b ∷ rest) in
      let k' = subst (λ l. Chain g.blocks 0 g.heap_head l) split k in
      let tl' = subst (λ l. Tiles g.blocks l brk) split tl in
      let prev : (g.blocks b).prev ≡ q =
        prev_middle g.blocks b 0 g.heap_head (w ∷ front) rest k ∙ last in
      let some : q == 0 ≡ false =
        ground (arith, (Tiles-middle g.blocks q brk init (b ∷ rest) tl').0) in
      elim (Bool-cases (g.blocks q).is_free) [
        | inr u ↦
            rw (absorb_prev, prev, some, u)
              (record {
                front = w ∷ front;
                rest = rest;
                chain = k;
                tiles = tl;
                keeps = Keeps-refl g.blocks _;
                tail = e;
                head = refl;
              })
        | inl u ↦
            rw (absorb_prev, prev, some, u)
              (record {
                front = init;
                rest = rest;
                chain = Chain-merged g.blocks q b 0 g.heap_head brk init rest tl' k';
                tiles = Tiles-merged g.blocks q b 0 g.heap_head brk init rest top tl' k';
                keeps =
                    subst (λ l. Keeps g.blocks l (merged g.blocks q b) (init ++ q ∷ rest))
                      (sym split) (merged-Keeps g.blocks q b init rest u f);
                tail = merged_tail g.blocks b q g.heap_tail g.heap_head brk (w ∷ front) rest k tl e;
                head = refl;
              })
      ]

-- What `free` of the block `b` leaves: a heap; no block is new; a block in use other than `b` stays,
-- in use and with its size; and `b`, if it is still a block, is free.
pub record IsFreed (h : Heap) (l : List ℕ) (brk b : ℕ) (h' : Heap) : Type 0 where
  pub list : List ℕ
  pub heap : IsHeap h' list brk
  pub smaller : (x : ℕ) → Listed x list → Listed x l
  pub used :
      (x : ℕ)
      → Listed x l
      → x ≢ b
      → (h.blocks x).is_free ≡ false
      → Listed x list × ((h'.blocks x).is_free ≡ false) × ((h'.blocks x).size ≡ (h.blocks x).size)
  pub freed : (h'.blocks b).is_free ≡ true

-- The header of `b` says free.
abbrev marked : (ℕ → Block) → ℕ → ℕ → Block
marked blocks b = update blocks b (record (blocks b) { is_free = true })

marked_other : (blocks : ℕ → Block) (b x : ℕ) → x ≢ b → marked blocks b x ≡ blocks x
marked_other blocks b x d = ground arith

length-behind : (b : ℕ) (front l : List ℕ) → length l < length (front ++ b ∷ l)
length-behind b [] l = omega arith
length-behind b (x ∷ front) l = let rest = length-behind b front l in omega arith

module _ (h : Heap) (l : List ℕ) (brk b : ℕ) (k : IsHeap h l brk) where
  finished-IsFreed :
      (c : ℕ) (g : Heap)
      → Joined (marked h.blocks b) l h.heap_head brk c g
      → IsFreed h l brk b
          (record g { heap_tail = if (g.blocks c).next == 0 then c else g.heap_tail; locked = 0 })
  finished-IsFreed c g j = record {
    list = j.front ++ c ∷ j.rest;
    heap = record {
      chain = rw j.head j.chain;
      tail = tail_end g.blocks c h.heap_head g.heap_tail brk j.front j.rest j.chain j.tiles j.tail;
      tiles = j.tiles;
      nonnull = k.nonnull;
      limit = k.limit;
      unlocked = refl;
    };
    smaller = j.keeps.smaller;
    used = λ x m d f.
        let same = marked_other h.blocks b x d in
        let (m', f', s) = j.keeps.used x m (ap (λ y. y.is_free) same ∙ f) in
        (m', f', s ∙ ap (λ y. y.size) same);
    freed = j.keeps.freed b (ground arith);
  }

block_address :
    (blocks : ℕ → Block) (b brk : ℕ)
    → end_of blocks b ≤ brk
    → brk < 2 ^ 63
    → (b + blk_hdr + 2 ^ 64 - blk_hdr) % 2 ^ 64 ≡ b
block_address blocks b brk below top = omega arith

free_at :
    (h : Heap) (brk b fuel : ℕ) (front rest : List ℕ)
    → IsHeap h (front ++ b ∷ rest) brk
    → length (front ++ b ∷ rest) ≤ fuel
    → Returns (free fuel (b + blk_hdr) h) (IsFreed h (front ++ b ∷ rest) brk b)
unfolding free free_block umutex_lock umutex_unlock
free_at h brk b fuel front rest k enough =
    let blocks : ℕ → Block = marked h.blocks b in
    let f : (blocks b).is_free ≡ true = ground arith in
    let room : length rest < fuel = let below = length-behind b front rest in omega arith in
    let (blocks', run, a) =
      absorb_next-Absorbed b 0 h.heap_head brk front k.limit fuel rest blocks room
        (Chain-flag h.blocks b 0 h.heap_head true (front ++ b ∷ rest) k.chain)
        (Tiles-flag h.blocks b brk true (front ++ b ∷ rest) k.tiles) f in
    let tail : h.heap_tail ≡ last_or b rest = k.tail ∙ last_middle 0 b front rest in
    let g : Heap = record h { blocks = blocks'; locked = 1 } in
    let j =
      absorb_prev-Joined b g brk k.limit front a.rest a.chain a.tiles (a.keeps.freed b f)
        (elim a.tail [ inl e ↦ inl e | inr e ↦ inr (tail ∙ sym (e b)) ]) in
    let c : ℕ = (absorb_prev b g).0 in
    let g' : Heap = (absorb_prev b g).1 in
    let all : Joined blocks (front ++ b ∷ rest) h.heap_head brk c g' = record {
      front = j.front;
      rest = j.rest;
      chain = j.chain;
      tiles = j.tiles;
      keeps =
          Keeps-trans blocks blocks' g'.blocks (front ++ b ∷ rest) (front ++ b ∷ a.rest)
            (j.front ++ c ∷ j.rest) a.keeps j.keeps;
      tail = j.tail;
      head = j.head;
    } in
    let pointer : b + blk_hdr == 0 ≡ false = ground arith in
    let free_lock : h.locked == 0 ≡ true = ground (arith, k.unlocked) in
    let below =
      Tiles-bounds h.blocks b (front ++ b ∷ rest) brk k.tiles (Listed-middle b front rest) in
    let header : (b + blk_hdr + 2 ^ 64 - blk_hdr) % 2 ^ 64 ≡ b =
      block_address h.blocks b brk below.1 k.limit in
    (
      record g' { heap_tail = if (g'.blocks c).next == 0 then c else g'.heap_tail; locked = 0 },
      rw (free, pointer, umutex_lock, free_lock, free_block, header, run) refl,
      finished-IsFreed h (front ++ b ∷ rest) brk b k c g' all,
    )

-- For a heap of the blocks l, linked both ways and one behind the other from the first to the
-- break, with its lock free, and a block b of l, free of the address behind the header of b
-- returns on any fuel of at least the length of l. The heap is then again such a heap up to the
-- same break, all its blocks are blocks of l, each block in use other than b is still a block, in
-- use and with its size, and b is marked free.
pub free-IsFreed :
    (h : Heap) (l : List ℕ) (brk b fuel : ℕ)
    → IsHeap h l brk
    → Listed b l
    → length l ≤ fuel
    → Returns (free fuel (b + blk_hdr) h) (IsFreed h l brk b)
free-IsFreed h l brk b fuel k m enough =
    let (front, rest, split) = split_at b l m in
    subst
      (λ l.
        IsHeap h l brk → length l ≤ fuel → Returns (free fuel (b + blk_hdr) h) (IsFreed h l brk b))
      (sym split) (free_at h brk b fuel front rest) k enough
