-- ===== src/User/Malloc/Laws.antt =====
-- `malloc` gives out blocks of the heap that are apart from each other.
use loeux_riscv.Base.{
  update, ℕ, zero, suc, ◌+◌, ◌-◌, ◌%◌, ◌^◌, ◌≤◌, ◌<◌, true, false, ◌&&◌, ◌==◌, leb, List, [], ◌∷◌,
  ◌++◌, length, done, ◌>>=◌, Returns, ◌≡◌, ◌≢◌, ◌⊎◌, inl, inr, refl, sym, ◌∙◌, ap, arith,
  Bool-cases,
}
use mathlib.Core.Path.{subst}
use loeux_riscv.User.Malloc.{
  Block, Heap, blk_hdr, align_up, umutex_lock, umutex_unlock, append_block, first_fit, set_used,
  grow_heap, malloc_block, malloc,
}
use loeux_riscv.User.Malloc.Chain.{
  Chain, Tiles, last_or, Listed, Tiles-bounds, Listed-last, last_or-append, Chain-flag, Tiles-flag,
  joined, Chain-append, Tiles-append,
}

-- The heap consists of the blocks `l` up to the break, and nobody has its lock.
pub record IsHeap (h : Heap) (l : List ℕ) (brk : ℕ) : Type 0 where
  pub chain : Chain h.blocks 0 h.heap_head l
  pub tail : h.heap_tail ≡ last_or 0 l
  pub tiles : Tiles h.blocks l brk
  pub nonnull : brk ≢ 0
  pub limit : brk < 2 ^ 63
  pub unlocked : h.locked ≡ 0

-- No block of the list is free and large enough.
abbrev pub NoneFits : (ℕ → Block) → ℕ → List ℕ → Type 0
NoneFits blocks n [] = Unit
NoneFits blocks n (x ∷ l) =
    ((blocks x).is_free && leb n (blocks x).size ≡ false) × NoneFits blocks n l

-- The block is one of the list, free and large enough.
abbrev pub Fits : (ℕ → Block) → ℕ → List ℕ → ℕ → Type 0
Fits blocks n l b = Listed b l × ((blocks b).is_free ≡ true) × (n ≤ (blocks b).size)

first_fit-Fits :
    (fuel : ℕ) (blocks : ℕ → Block) (n p h brk : ℕ) (l : List ℕ)
    → Chain blocks p h l
    → Tiles blocks l brk
    → length l < fuel
    → Returns
        (first_fit fuel blocks h n)
        (λ b. ((b ≡ 0) × NoneFits blocks n l) ⊎ ((b ≢ 0) × Fits blocks n l b))
unfolding first_fit
first_fit-Fits zero blocks n p h brk l k t enough = absurd (omega arith)
first_fit-Fits (suc fuel) blocks n p h brk [] k t enough =
    (0, rw (first_fit, k) refl, inl (refl, tt))
first_fit-Fits (suc fuel) blocks n p h brk (x ∷ l) k t enough =
    let block : x == 0 ≡ false = ground (arith, t.0) in
    elim (Bool-cases ((blocks x).is_free && leb n (blocks x).size)) [
      | inl e ↦
          (x, rw (first_fit, k.0, block, e) refl, inr (t.0, (inl refl, ground arith, ground arith)))
      | inr e ↦
          let (b, run, found) =
            first_fit-Fits fuel blocks n x (blocks x).next brk l k.2 t.2 (omega arith) in
          (
            b,
            rw (first_fit, k.0, block, e) run,
            elim found [
              | inl f ↦ inl (f.0, (e, f.1))
              | inr f ↦ inr (f.0, (inr f.1.0, f.1.1, f.1.2))
            ],
          )
    ]

-- A free block is given out.
used-IsHeap : (h : Heap) (b brk : ℕ) (l : List ℕ) → IsHeap h l brk → IsHeap (set_used b h) l brk
unfolding set_used
used-IsHeap h b brk l k = record {
  chain = Chain-flag h.blocks b 0 h.heap_head false l k.chain;
  tail = k.tail;
  tiles = Tiles-flag h.blocks b brk false l k.tiles;
  nonnull = k.nonnull;
  limit = k.limit;
  unlocked = k.unlocked;
}

-- A new block begins at the break.
appended-IsHeap :
    (h : Heap) (total brk : ℕ) (l : List ℕ)
    → IsHeap h l brk
    → blk_hdr ≤ total
    → brk + total < 2 ^ 63
    → IsHeap (append_block brk total h) (l ++ brk ∷ []) (brk + total)
unfolding append_block
appended-IsHeap h total brk [] k room top =
    let no_tail : h.heap_tail == 0 ≡ true = ground (arith, k.tail) in
    let size : (total + 2 ^ 64 - blk_hdr) % 2 ^ 64 ≡ total - blk_hdr = omega (arith, k.limit) in
    let first : Block = record {
      size = total - blk_hdr;
      is_free = true;
      next = 0;
      prev = h.heap_tail;
    } in
    let e : append_block brk total h
        ≡ record h { blocks = update h.blocks brk first; heap_head = brk; heap_tail = brk } =
      rw (append_block, no_tail, size) refl in
    rw e (record {
      chain = (refl, ground (arith, k.tail), ground arith);
      tail = refl;
      tiles = (k.nonnull, ground arith, tt);
      nonnull = omega arith;
      limit = top;
      unlocked = k.unlocked;
    })
appended-IsHeap h total brk (x ∷ l) k room top =
    let last = Tiles-bounds h.blocks (last_or x l) (x ∷ l) brk k.tiles (Listed-last x l) in
    let some_tail : h.heap_tail == 0 ≡ false = ground (arith, k.tail, last.2) in
    let size : (total + 2 ^ 64 - blk_hdr) % 2 ^ 64 ≡ total - blk_hdr = omega (arith, k.limit) in
    let apart : last_or x l ≢ brk = λ q. omega (arith, last.1) in
    let tail : h.heap_tail ≡ last_or x l = k.tail in
    let end : brk + blk_hdr + (total - blk_hdr) ≡ brk + total = omega arith in
    let e : append_block brk total h ≡ record h {
      blocks = joined h.blocks brk (last_or x l) (total - blk_hdr);
      heap_tail = brk;
    } =
      rw (append_block, some_tail, size, tail) refl in
    rw e (record {
      chain =
          Chain-append h.blocks brk 0 h.heap_head (total - blk_hdr) brk x l refl k.nonnull k.tiles
            k.chain;
      tail = sym (last_or-append x l brk);
      tiles =
          subst
            (λ y. Tiles (joined h.blocks brk (last_or x l) (total - blk_hdr)) (x ∷ l ++ brk ∷ []) y)
            end
            (Tiles-append h.blocks brk (last_or x l) (total - blk_hdr) brk (x ∷ l) refl k.nonnull
              apart k.tiles);
      nonnull = omega arith;
      limit = top;
      unlocked = k.unlocked;
    })

-- What the system call does in the state `kernel` with the break `brk`, for requests that an `int`
-- holds: it answers the break and moves it up, or answers -1 and leaves it.
abbrev pub IsSbrk {ℓ} : {K : Type ℓ} → (K → ℕ → ℕ × K) → (K → ℕ) → K → ℕ → Type 0
IsSbrk sbrk break_of kernel brk =
    (break_of kernel ≡ brk)
    × ((total : ℕ)
        → total < 2 ^ 31
        → (((sbrk kernel total).0 ≡ brk)
            × (brk + total < 2 ^ 63)
            × (break_of (sbrk kernel total).1 ≡ brk + total))
          ⊎ (((sbrk kernel total).0 ≡ 2 ^ 64 - 1) × (break_of (sbrk kernel total).1 ≡ brk)))

-- The block `b` was given out for `n` bytes: it is one of the heap, large enough and in use; it was
-- free or is new, and the other blocks keep their sizes and flags.
pub record IsGiven (h : Heap) (l : List ℕ) (n b : ℕ) (h' : Heap) (l' : List ℕ) : Type 0 where
  pub listed : Listed b l'
  pub room : n ≤ (h'.blocks b).size
  pub used : (h'.blocks b).is_free ≡ false
  pub unused : Listed b l → (h.blocks b).is_free ≡ true
  pub others :
      (x : ℕ)
      → Listed x l
      → x ≢ b
      → ((h'.blocks x).size ≡ (h.blocks x).size) × ((h'.blocks x).is_free ≡ (h.blocks x).is_free)

-- What `malloc` answers, for the break of the kernel's state: NULL where no block fits and `sbrk`
-- gives -1, or else the address behind the header of a block that was given out.
pub record Malloced {ℓ} {K : Type ℓ} (sbrk : K → ℕ → ℕ × K) (break_of : K → ℕ) (kernel : K)
    (h : Heap) (l : List ℕ) (n : ℕ) (r : ℕ × Heap × K) : Type 0 where
  pub list : List ℕ
  pub heap : IsHeap r.1 list (break_of r.2)
  pub answer :
      ((r.0 ≡ 0)
        × NoneFits h.blocks (align_up n) l
        × ((sbrk kernel (align_up ((align_up n + blk_hdr) % 2 ^ 64))).0 ≡ 2 ^ 64 - 1))
      ⊎ ((b : ℕ) × (r.0 ≡ b + blk_hdr) × IsGiven h l n b r.1 list)

Listed-append : (x b : ℕ) (l : List ℕ) → Listed x l → Listed x (l ++ b ∷ [])
Listed-append x b [] k = absurd k
Listed-append x b (y ∷ l) (inl e) = inl e
Listed-append x b (y ∷ l) (inr k) = inr (Listed-append x b l k)

Listed-new : (b : ℕ) (l : List ℕ) → Listed b (l ++ b ∷ [])
Listed-new b [] = inl refl
Listed-new b (x ∷ l) = inr (Listed-new b l)

used-IsGiven :
    (h : Heap) (l : List ℕ) (n b : ℕ) → Fits h.blocks n l b → IsGiven h l n b (set_used b h) l
unfolding set_used
used-IsGiven h l n b f = record {
  listed = f.0;
  room = ground (arith, f.2);
  used = ground arith;
  unused = λ k. f.1;
  others = λ x k d. (ground arith, ground arith);
}

appended_size :
    (h : Heap) (total brk : ℕ)
    → total < 2 ^ 63
    → blk_hdr ≤ total
    → ((append_block brk total h).blocks brk).size ≡ total - blk_hdr
unfolding append_block
appended_size h total brk low room =
    let size : (total + 2 ^ 64 - blk_hdr) % 2 ^ 64 ≡ total - blk_hdr = omega arith in
    rw size (ground arith)

appended_old :
    (h : Heap) (total brk x : ℕ)
    → x ≢ brk
    → (((append_block brk total h).blocks x).size ≡ (h.blocks x).size)
      × (((append_block brk total h).blocks x).is_free ≡ (h.blocks x).is_free)
unfolding append_block
appended_old h total brk x d = (ground arith, ground arith)

relock :
    (h h' : Heap) (l l' : List ℕ) (n b : ℕ)
    → IsGiven h l n b h' l'
    → IsGiven h l n b (record h' { locked = 0 }) l'
relock h h' l l' n b g = record {
  listed = g.listed;
  room = g.room;
  used = g.used;
  unused = g.unused;
  others = g.others;
}

relocked :
    (h : Heap) (l : List ℕ) (brk brk' : ℕ)
    → brk' ≡ brk
    → IsHeap h l brk
    → IsHeap (record h { locked = 0 }) l brk'
relocked h l brk brk' e k = rw e (record {
  chain = k.chain;
  tail = k.tail;
  tiles = k.tiles;
  nonnull = k.nonnull;
  limit = k.limit;
  unlocked = refl;
})

IsGiven-less :
    (h h' : Heap) (l l' : List ℕ) (n n' b : ℕ)
    → n ≤ n'
    → IsGiven h l n' b h' l'
    → IsGiven h l n b h' l'
IsGiven-less h h' l l' n n' b le g = record {
  listed = g.listed;
  room = omega (arith, g.room);
  used = g.used;
  unused = g.unused;
  others = g.others;
}

-- A new block for `n` bytes.
appended-IsGiven :
    (h : Heap) (l : List ℕ) (n total brk : ℕ)
    → IsHeap h l brk
    → n + blk_hdr ≤ total
    → brk + total < 2 ^ 63
    → IsGiven h l n brk (set_used brk (append_block brk total h)) (l ++ brk ∷ [])
unfolding set_used
appended-IsGiven h l n total brk k room top =
    let size = appended_size h total brk (omega arith) (omega arith) in
    let new_block : (x : ℕ) → Listed x l → x ≢ brk =
      λ x m e. let below = Tiles-bounds h.blocks x l brk k.tiles m in omega (arith, below.1) in
    record {
      listed = Listed-new brk l;
      room = ground arith;
      used = ground arith;
      unused = λ m. absurd (new_block brk m refl);
      others = λ x m d.
          let old = appended_old h total brk x d in (ground (arith, old.0), ground (arith, old.1));
    }

align_up_bounds : (n : ℕ) → n < 2 ^ 63 → (n ≤ align_up n) × (align_up n < n + 16)
unfolding align_up
align_up_bounds n h = (omega arith, omega arith)

align_up_grown :
    (n : ℕ)
    → n < 2 ^ 62 + 16
    → (n + blk_hdr ≤ align_up ((n + blk_hdr) % 2 ^ 64))
      × (align_up ((n + blk_hdr) % 2 ^ 64) < n + 64)
unfolding align_up
align_up_grown n h = (omega arith, omega arith)

pub request_small : (n : ℕ) → n + 80 < 2 ^ 31 → align_up ((align_up n + blk_hdr) % 2 ^ 64) < 2 ^ 31
request_small n small =
    let bounds = align_up_bounds n (omega arith) in
    let grown = align_up_grown (align_up n) (omega (arith, bounds.1)) in
    omega (arith, bounds.1, grown.1)

module _ {ℓ} {K : Type ℓ} (sbrk : K → ℕ → ℕ × K) (break_of : K → ℕ) (fuel n : ℕ) (h : Heap)
    (kernel : K) (l : List ℕ) (brk : ℕ) (k : IsHeap h l brk) (enough : length l < fuel)
    (law : IsSbrk sbrk break_of kernel brk) where
  abbrev total : ℕ
  total = align_up ((align_up n + blk_hdr) % 2 ^ 64)

  abbrev locked : Heap
  locked = record h { locked = 1 }

  malloc_run :
      (b : ℕ)
      → 0 < n
      → first_fit fuel h.blocks h.heap_head (align_up n) ≡ done b
      → b ≢ 0
      → malloc sbrk fuel n h kernel
        ≡ done ((b + blk_hdr) % 2 ^ 64, umutex_unlock (set_used b locked), kernel)
  unfolding malloc malloc_block umutex_lock
  malloc_run b some_bytes run there =
      let nonzero : n == 0 ≡ false = ground arith in
      let unlocked : h.locked == 0 ≡ true = ground (arith, k.unlocked) in
      let block : b == 0 ≡ false = ground arith in
      rw (malloc, nonzero, umutex_lock, unlocked, malloc_block, ◌>>=◌, run, block, block) refl

  malloc_failed :
      0 < n
      → first_fit fuel h.blocks h.heap_head (align_up n) ≡ done 0
      → (sbrk kernel total).0 ≡ 2 ^ 64 - 1
      → malloc sbrk fuel n h kernel ≡ done (0, umutex_unlock locked, (sbrk kernel total).1)
  unfolding malloc malloc_block umutex_lock grow_heap
  malloc_failed some_bytes run e =
      let nonzero : n == 0 ≡ false = ground arith in
      let unlocked : h.locked == 0 ≡ true = ground (arith, k.unlocked) in
      rw (malloc, nonzero, umutex_lock, unlocked, malloc_block, ◌>>=◌, run, grow_heap, e) refl

  malloc_grown :
      0 < n
      → first_fit fuel h.blocks h.heap_head (align_up n) ≡ done 0
      → (sbrk kernel total).0 ≡ brk
      → malloc sbrk fuel n h kernel
        ≡ done (
          (brk + blk_hdr) % 2 ^ 64,
          umutex_unlock (set_used brk (append_block brk total locked)),
          (sbrk kernel total).1,
        )
  unfolding malloc malloc_block umutex_lock grow_heap
  malloc_grown some_bytes run e =
      let nonzero : n == 0 ≡ false = ground arith in
      let unlocked : h.locked == 0 ≡ true = ground (arith, k.unlocked) in
      let worked : brk == 2 ^ 64 - 1 ≡ false = ground (arith, k.limit) in
      let block : brk == 0 ≡ false = ground (arith, k.nonnull) in
      rw
        (
          malloc, nonzero, umutex_lock, unlocked, malloc_block, ◌>>=◌, run, grow_heap, e, worked,
          block, block,
        )
        refl

  -- For any system call that keeps to `IsSbrk`.
  pub malloc-Malloced :
      0 < n
      → n + 80 < 2 ^ 31
      → Returns (malloc sbrk fuel n h kernel) (Malloced sbrk break_of kernel h l n)
  unfolding umutex_unlock set_used append_block
  malloc-Malloced some_bytes small =
      let bounds = align_up_bounds n (omega arith) in
      let grown = align_up_grown (align_up n) (omega (arith, bounds.1)) in
      let (b, run, found) =
        first_fit-Fits fuel h.blocks (align_up n) 0 h.heap_head brk l k.chain k.tiles enough in
      elim found [
        | inr f ↦
            let heap = used-IsHeap h b brk l k in
            let inside = Tiles-bounds h.blocks b l brk k.tiles f.1.0 in
            let address : (b + blk_hdr) % 2 ^ 64 ≡ b + blk_hdr = omega (arith, inside.1, k.limit) in
            (
              ((b + blk_hdr) % 2 ^ 64, umutex_unlock (set_used b locked), kernel),
              malloc_run b some_bytes run f.0,
              record {
                list = l;
                heap = relocked (set_used b h) l brk (break_of kernel) law.0 heap;
                answer = inr (
                  b,
                  address,
                  IsGiven-less h _ l l n (align_up n) b bounds.0 (
                      relock h (set_used b h) l l (align_up n) b
                        (used-IsGiven h l (align_up n) b f.1)),
                );
              },
            )
        | inl f ↦ elim (law.1 total (request_small n small)) [
          | inr e ↦ (
            (0, umutex_unlock locked, (sbrk kernel total).1),
            malloc_failed some_bytes (run ∙ ap done f.0) e.0,
            record {
              list = l;
              heap = relocked h l brk (break_of (sbrk kernel total).1) e.1 k;
              answer = inl (refl, f.1, e.0);
            },
          )
          | inl e ↦
              let heap = appended-IsHeap h total brk l k (omega (arith, grown.0)) e.1 in
              let heap' =
                used-IsHeap (append_block brk total h) brk (brk + total) (l ++ brk ∷ []) heap in
              let address : (brk + blk_hdr) % 2 ^ 64 ≡ brk + blk_hdr = omega (arith, k.limit) in
              (
                (
                  (brk + blk_hdr) % 2 ^ 64,
                  umutex_unlock (set_used brk (append_block brk total locked)),
                  (sbrk kernel total).1,
                ),
                malloc_grown some_bytes (run ∙ ap done f.0) e.0,
                record {
                  list = l ++ brk ∷ [];
                  heap =
                      relocked (set_used brk (append_block brk total h)) (l ++ brk ∷ [])
                        (brk + total) (break_of (sbrk kernel total).1) e.2 heap';
                  answer = inr (
                    brk,
                    address,
                    IsGiven-less h _ l (l ++ brk ∷ []) n (align_up n) brk bounds.0 (
                        relock h (set_used brk (append_block brk total h)) l (l ++ brk ∷ [])
                          (align_up n) brk
                          (appended-IsGiven h l (align_up n) total brk k grown.0 e.1)),
                  );
                },
              )
        ]
      ]
