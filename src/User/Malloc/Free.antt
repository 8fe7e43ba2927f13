-- ===== src/User/Malloc/Free.antt =====
-- The merge of `free` with the next blocks.
use loeux_riscv.Base.{
  ℕ, zero, suc, ◌^◌, ◌<◌, true, false, ◌==◌, if◌then◌else◌, List, [], ◌∷◌, ◌++◌, length, Returns,
  ◌≡◌, ◌⊎◌, inl, inr, refl, sym, ◌∙◌, ap, arith, Bool-cases,
}
use mathlib.Core.List.{cons≢nil}
use loeux_riscv.User.Malloc.{Block, merged, absorb_next}
use loeux_riscv.User.Malloc.Chain.{Chain, Tiles, last_or, Listed}
use loeux_riscv.User.Malloc.Merge.{
  Chain-merged, Tiles-merged, Keeps, Keeps-refl, Keeps-trans, merged-Keeps,
}

pub next_middle :
    (blocks : ℕ → Block) (b p h : ℕ) (front l : List ℕ)
    → Chain blocks p h (front ++ b ∷ l)
    → Chain blocks b (blocks b).next l
next_middle blocks b p h [] l k = k.2
next_middle blocks b p h (w ∷ front) l k = next_middle blocks b w (blocks w).next front l k.2

pub prev_middle :
    (blocks : ℕ → Block) (b p h : ℕ) (front l : List ℕ)
    → Chain blocks p h (front ++ b ∷ l)
    → (blocks b).prev ≡ last_or p front
prev_middle blocks b p h [] l k = k.1
prev_middle blocks b p h (w ∷ front) l k = prev_middle blocks b w (blocks w).next front l k.2

pub Tiles-middle :
    (blocks : ℕ → Block) (b brk : ℕ) (front l : List ℕ)
    → Tiles blocks (front ++ b ∷ l) brk
    → Tiles blocks (b ∷ l) brk
Tiles-middle blocks b brk [] l t = t
Tiles-middle blocks b brk (w ∷ front) l t = Tiles-middle blocks b brk front l t.2

pub last_middle : (p b : ℕ) (front l : List ℕ) → last_or p (front ++ b ∷ l) ≡ last_or b l
last_middle p b [] l = refl
last_middle p b (w ∷ front) l = last_middle w b front l

-- What merging with the next blocks leaves behind `b`.
pub record Absorbed (blocks : ℕ → Block) (b p h brk : ℕ) (front l : List ℕ) (blocks' : ℕ → Block)
    : Type 0 where
  pub rest : List ℕ
  pub chain : Chain blocks' p h (front ++ b ∷ rest)
  pub tiles : Tiles blocks' (front ++ b ∷ rest) brk
  pub keeps : Keeps blocks (front ++ b ∷ l) blocks' (front ++ b ∷ rest)
  pub tail : (rest ≡ []) ⊎ ((q : ℕ) → last_or q rest ≡ last_or q l)

tail_step :
    (y : ℕ) (rest l : List ℕ)
    → (rest ≡ []) ⊎ ((q : ℕ) → last_or q rest ≡ last_or q l)
    → (rest ≡ []) ⊎ ((q : ℕ) → last_or q rest ≡ last_or q (y ∷ l))
tail_step y [] l k = inl refl
tail_step y (z ∷ rest) l (inl e) = inl e
tail_step y (z ∷ rest) l (inr e) = inr (λ q. e y)

module _ (b p h brk : ℕ) (front : List ℕ) (top : brk < 2 ^ 63) where
  pub absorb_next-Absorbed :
      (fuel : ℕ) (l : List ℕ) (blocks : ℕ → Block)
      → length l < fuel
      → Chain blocks p h (front ++ b ∷ l)
      → Tiles blocks (front ++ b ∷ l) brk
      → (blocks b).is_free ≡ true
      → Returns (absorb_next fuel b blocks) (Absorbed blocks b p h brk front l)
  unfolding absorb_next
  absorb_next-Absorbed zero l blocks enough k t free_b = absurd (omega arith)
  absorb_next-Absorbed (suc fuel) [] blocks enough k t free_b =
      let last : (blocks b).next ≡ 0 = next_middle blocks b p h front [] k in
      (
        blocks,
        rw (absorb_next, last) refl,
        record { rest = []; chain = k; tiles = t; keeps = Keeps-refl blocks _; tail = inl refl },
      )
  absorb_next-Absorbed (suc fuel) (y ∷ l) blocks enough k t free_b =
      let next : (blocks b).next ≡ y = (next_middle blocks b p h front (y ∷ l) k).0 in
      let block : y == 0 ≡ false =
        ground (arith, (Tiles-middle blocks b brk front (y ∷ l) t).2.0) in
      elim (Bool-cases (blocks y).is_free) [
        | inr f ↦ (
          blocks,
          rw (absorb_next, next, block, f) refl,
          record {
            rest = y ∷ l;
            chain = k;
            tiles = t;
            keeps = Keeps-refl blocks _;
            tail = inr (λ q. refl);
          },
        )
        | inl f ↦
            let keeps = merged-Keeps blocks b y front l free_b f in
            let (blocks', run, a) =
              absorb_next-Absorbed fuel l (merged blocks b y) (omega arith)
                (Chain-merged blocks b y p h brk front l t k)
                (Tiles-merged blocks b y p h brk front l top t k) (keeps.freed b free_b) in
            (
              blocks',
              rw (absorb_next, next, block, f) run,
              record {
                rest = a.rest;
                chain = a.chain;
                tiles = a.tiles;
                keeps = Keeps-trans blocks (merged blocks b y) blocks' _ _ _ keeps a.keeps;
                tail = tail_step y a.rest l a.tail;
              },
            )
      ]

-- The last block of a list that is not empty.
pub split_last :
    (w : ℕ) (front tl : List ℕ)
    → (init : List ℕ) × (q : ℕ) × (last_or w front ≡ q) × (w ∷ front ++ tl ≡ init ++ q ∷ tl)
split_last w [] tl = ([], w, refl, refl)
split_last w (v ∷ front) tl =
    let (init, q, e, f) = split_last v front tl in (w ∷ init, q, e, ap (λ l. w ∷ l) f)

pub split_at :
    (b : ℕ) (l : List ℕ) → Listed b l → (front : List ℕ) × (rest : List ℕ) × (l ≡ front ++ b ∷ rest)
split_at b [] m = absurd m
split_at b (x ∷ l) (inl e) = ([], l, ap (λ y. y ∷ l) (sym e))
split_at b (x ∷ l) (inr m) =
    let (front, rest, e) = split_at b l m in (x ∷ front, rest, ap (λ l. x ∷ l) e)

-- The end of `free` sets the tail right.
pub tail_end :
    (blocks : ℕ → Block) (c h t brk : ℕ) (front rest : List ℕ)
    → Chain blocks 0 h (front ++ c ∷ rest)
    → Tiles blocks (front ++ c ∷ rest) brk
    → (rest ≡ []) ⊎ (t ≡ last_or c rest)
    → (if (blocks c).next == 0 then c else t) ≡ last_or 0 (front ++ c ∷ rest)
tail_end blocks c h t brk front [] k tl e =
    let next : (blocks c).next == 0 ≡ true = ground (arith, next_middle blocks c 0 h front [] k) in
    rw next (sym (last_middle 0 c front []))
tail_end blocks c h t brk front (z ∷ rest) k tl (inl e) = absurd (cons≢nil e)
tail_end blocks c h t brk front (z ∷ rest) k tl (inr e) =
    let next : (blocks c).next == 0 ≡ false = ground (
      arith,
      (next_middle blocks c 0 h front (z ∷ rest) k).0,
      (Tiles-middle blocks c brk front (z ∷ rest) tl).2.0,
    ) in
    rw next (e ∙ sym (last_middle 0 c front (z ∷ rest)))
