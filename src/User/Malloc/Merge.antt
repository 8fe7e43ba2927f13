-- ===== src/User/Malloc/Merge.antt =====
-- Two blocks of the heap, one behind the other, become one.
use loeux_riscv.Base.{
  ℕ, ◌+◌, ◌%◌, ◌^◌, ◌<◌, true, false, ◌==◌, List, [], ◌∷◌, ◌++◌, ◌≡◌, ◌≢◌, ◌⊎◌, inl, inr, refl, ◌∙◌,
  ap, arith, Bool-cases,
}
use loeux_riscv.User.Malloc.{Block, blk_hdr, merged}
use loeux_riscv.User.Malloc.Chain.{Chain, Tiles, start_of, Listed, Tiles-bounds}

Chain-same :
    (blocks blocks' : ℕ → Block) (p h : ℕ) (l : List ℕ)
    → ((w : ℕ) → Listed w l → blocks' w ≡ blocks w)
    → Chain blocks p h l
    → Chain blocks' p h l
Chain-same blocks blocks' p h [] same k = k
Chain-same blocks blocks' p h (x ∷ l) same k =
    let e : blocks' x ≡ blocks x = same x (inl refl) in
    (
      k.0,
      ap (λ b. b.prev) e ∙ k.1,
      rw e (Chain-same blocks blocks' x (blocks x).next l (λ w m. same w (inr m)) k.2),
    )

Tiles-same :
    (blocks blocks' : ℕ → Block) (brk : ℕ) (l : List ℕ)
    → ((w : ℕ) → Listed w l → blocks' w ≡ blocks w)
    → Tiles blocks l brk
    → Tiles blocks' l brk
Tiles-same blocks blocks' brk [] same t = tt
Tiles-same blocks blocks' brk (x ∷ l) same t =
    let e : blocks' x ≡ blocks x = same x (inl refl) in
    (
      t.0,
      ap (λ b. x + blk_hdr + b.size) e ∙ t.1,
      Tiles-same blocks blocks' brk l (λ w m. same w (inr m)) t.2,
    )

-- The blocks of the list lie behind the first.
pub Tiles-behind :
    (blocks : ℕ → Block) (x w brk : ℕ) (l : List ℕ) → Tiles blocks (x ∷ l) brk → Listed w l → x < w
Tiles-behind blocks x w brk [] t m = absurd m
Tiles-behind blocks x w brk (y ∷ l) t m =
    let below = Tiles-bounds blocks w (y ∷ l) brk t.2 m in omega (arith, t.1, below.0)

merged_same :
    (blocks : ℕ → Block) (b y w : ℕ) → w ≢ b → w ≢ (blocks y).next → merged blocks b y w ≡ blocks w
unfolding merged
merged_same blocks b y w d d' = ground arith

merged_after :
    (blocks : ℕ → Block) (x y z : ℕ)
    → (blocks y).next ≡ z
    → z ≢ 0
    → z ≢ x
    → merged blocks x y z ≡ record (blocks z) { prev = x }
unfolding merged
merged_after blocks x y z e nz d =
    let null : z == 0 ≡ false = ground arith in
    let apart : z == x ≡ false = ground arith in
    let self : z == z ≡ true = ground arith in rw (e, null, self, apart) refl

merged_first :
    (blocks : ℕ → Block) (x y : ℕ)
    → x ≢ (blocks y).next
    → merged blocks x y x ≡ record (blocks x) {
      size = ((blocks x).size + (blk_hdr + (blocks y).size)) % 2 ^ 64;
      next = (blocks y).next;
    }
unfolding merged
merged_first blocks x y d =
    let apart : x == (blocks y).next ≡ false = ground arith in
    let self : x == x ≡ true = ground arith in
    elim (Bool-cases ((blocks y).next == 0)) [
      | inl e ↦ rw (e, self) refl
      | inr e ↦ rw (e, apart, self) refl
    ]

-- The block after the two, if there is one, comes next.
Chain-after :
    (blocks : ℕ → Block) (x y brk : ℕ) (l : List ℕ)
    → Tiles blocks (x ∷ y ∷ l) brk
    → Chain blocks y (blocks y).next l
    → Chain (merged blocks x y) x (blocks y).next l
Chain-after blocks x y brk [] t k = k
Chain-after blocks x y brk (z ∷ l) t k =
    let behind = Tiles-behind blocks x z brk (y ∷ z ∷ l) t (inr (inl refl)) in
    let e = merged_after blocks x y z k.0 t.2.2.0 (λ q. omega arith) in
    (
      k.0,
      ap (λ b. b.prev) e,
      rw e (
          Chain-same blocks (merged blocks x y) z (blocks z).next l
            (λ w m.
              let far = Tiles-behind blocks z w brk l t.2.2 m in
              merged_same blocks x y w (λ q. omega arith) (λ q. omega (arith, k.0, q)))
            k.2),
    )

Tiles-after :
    (blocks : ℕ → Block) (x y brk : ℕ) (l : List ℕ)
    → Tiles blocks (x ∷ y ∷ l) brk
    → Chain blocks y (blocks y).next l
    → Tiles (merged blocks x y) l brk
Tiles-after blocks x y brk [] t k = tt
Tiles-after blocks x y brk (z ∷ l) t k =
    let behind = Tiles-behind blocks x z brk (y ∷ z ∷ l) t (inr (inl refl)) in
    let e = merged_after blocks x y z k.0 t.2.2.0 (λ q. omega arith) in
    (
      t.2.2.0,
      ap (λ b. z + blk_hdr + b.size) e ∙ t.2.2.1,
      Tiles-same blocks (merged blocks x y) brk l
          (λ w m.
            let far = Tiles-behind blocks z w brk l t.2.2 m in
            merged_same blocks x y w (λ q. omega arith) (λ q. omega (arith, k.0, q)))
          t.2.2.2,
    )

-- The pointer behind the second block leads past the first.
next_apart :
    (blocks : ℕ → Block) (x y brk : ℕ) (l : List ℕ)
    → Tiles blocks (x ∷ y ∷ l) brk
    → Chain blocks y (blocks y).next l
    → x ≢ (blocks y).next
next_apart blocks x y brk [] t k = λ e. t.0 (e ∙ k)
next_apart blocks x y brk (z ∷ l) t k =
    let behind = Tiles-behind blocks x z brk (y ∷ z ∷ l) t (inr (inl refl)) in
    λ e. omega (arith, k.0, e)

pub Listed-middle : (x : ℕ) (front l : List ℕ) → Listed x (front ++ x ∷ l)
Listed-middle x [] l = inl refl
Listed-middle x (w ∷ front) l = inr (Listed-middle x front l)

start_of_front :
    (x y brk : ℕ) (front l : List ℕ)
    → start_of (front ++ x ∷ y ∷ l) brk ≡ start_of (front ++ x ∷ l) brk
start_of_front x y brk [] l = refl
start_of_front x y brk (w ∷ front) l = refl

next-Listed :
    (blocks : ℕ → Block) (x y p h : ℕ) (front l : List ℕ)
    → Chain blocks p h (front ++ x ∷ y ∷ l)
    → ((blocks y).next ≡ 0) ⊎ Listed (blocks y).next (front ++ x ∷ y ∷ l)
next-Listed blocks x y p h [] [] k = inl k.2.2
next-Listed blocks x y p h [] (z ∷ l) k = inr (inr (inr (inl k.2.2.0)))
next-Listed blocks x y p h (w ∷ front) l k =
    elim (next-Listed blocks x y w (blocks w).next front l k.2) [
      | inl e ↦ inl e
      | inr m ↦ inr (inr m)
    ]

-- A block before the two keeps its header.
before_same :
    (blocks : ℕ → Block) (x y p h w brk : ℕ) (front l : List ℕ)
    → Tiles blocks (w ∷ front ++ x ∷ y ∷ l) brk
    → Chain blocks p h (w ∷ front ++ x ∷ y ∷ l)
    → merged blocks x y w ≡ blocks w
before_same blocks x y p h w brk front l t k =
    let rest = front ++ x ∷ y ∷ l in
    let far = Tiles-behind blocks w x brk rest t (Listed-middle x front (y ∷ l)) in
    merged_same blocks x y w (λ q. omega arith)
      (elim (next-Listed blocks x y w (blocks w).next front l k.2) [
        | inl e ↦ λ q. t.0 (q ∙ e)
        | inr m ↦
            let behind = Tiles-behind blocks w (blocks y).next brk rest t m in λ q. omega arith
      ])

-- The two blocks have the blocks `front` before them.
pub Chain-merged :
    (blocks : ℕ → Block) (x y p h brk : ℕ) (front l : List ℕ)
    → Tiles blocks (front ++ x ∷ y ∷ l) brk
    → Chain blocks p h (front ++ x ∷ y ∷ l)
    → Chain (merged blocks x y) p h (front ++ x ∷ l)
Chain-merged blocks x y p h brk [] l t k =
    let e = merged_first blocks x y (next_apart blocks x y brk l t k.2.2) in
    (k.0, ap (λ b. b.prev) e ∙ k.1, rw e (Chain-after blocks x y brk l t k.2.2))
Chain-merged blocks x y p h brk (w ∷ front) l t k =
    let e : merged blocks x y w ≡ blocks w = before_same blocks x y p h w brk front l t k in
    (
      k.0,
      ap (λ b. b.prev) e ∙ k.1,
      rw e (Chain-merged blocks x y w (blocks w).next brk front l t.2 k.2),
    )

pub Tiles-merged :
    (blocks : ℕ → Block) (x y p h brk : ℕ) (front l : List ℕ)
    → brk < 2 ^ 63
    → Tiles blocks (front ++ x ∷ y ∷ l) brk
    → Chain blocks p h (front ++ x ∷ y ∷ l)
    → Tiles (merged blocks x y) (front ++ x ∷ l) brk
Tiles-merged blocks x y p h brk [] l top t k =
    let e = merged_first blocks x y (next_apart blocks x y brk l t k.2.2) in
    let second = Tiles-bounds blocks y (y ∷ l) brk t.2 (inl refl) in
    let size : ((blocks x).size + (blk_hdr + (blocks y).size)) % 2 ^ 64
        ≡ (blocks x).size + (blk_hdr + (blocks y).size) =
      omega (arith, second.1, t.1) in
    (
      t.0,
      ap (λ b. x + blk_hdr + b.size) e ∙ ap (λ s. x + blk_hdr + s) size ∙ omega (arith, t.1, t.2.1),
      Tiles-after blocks x y brk l t k.2.2,
    )
Tiles-merged blocks x y p h brk (w ∷ front) l top t k =
    let e : merged blocks x y w ≡ blocks w = before_same blocks x y p h w brk front l t k in
    (
      t.0,
      ap (λ b. w + blk_hdr + b.size) e ∙ t.1 ∙ start_of_front x y brk front l,
      Tiles-merged blocks x y w (blocks w).next brk front l top t.2 k.2,
    )

merged_free : (blocks : ℕ → Block) (x y w : ℕ) → (merged blocks x y w).is_free ≡ (blocks w).is_free
unfolding merged
merged_free blocks x y w = elim (Bool-cases ((blocks y).next == 0)) [
  | inl e ↦ rw e (ground arith)
  | inr e ↦ rw e (ground arith)
]

merged_size :
    (blocks : ℕ → Block) (x y w : ℕ) → w ≢ x → (merged blocks x y w).size ≡ (blocks w).size
unfolding merged
merged_size blocks x y w d = elim (Bool-cases ((blocks y).next == 0)) [
  | inl e ↦ rw e (ground arith)
  | inr e ↦ rw e (ground arith)
]

-- From the blocks `l` to `l'`: no block is new, and a block in use stays, with its size.
pub record Keeps (blocks : ℕ → Block) (l : List ℕ) (blocks' : ℕ → Block) (l' : List ℕ)
    : Type 0 where
  pub smaller : (x : ℕ) → Listed x l' → Listed x l
  pub used :
      (x : ℕ)
      → Listed x l
      → (blocks x).is_free ≡ false
      → Listed x l' × ((blocks' x).is_free ≡ false) × ((blocks' x).size ≡ (blocks x).size)
  pub freed : (x : ℕ) → (blocks x).is_free ≡ true → (blocks' x).is_free ≡ true

pub Keeps-refl : (blocks : ℕ → Block) (l : List ℕ) → Keeps blocks l blocks l
Keeps-refl blocks l = record { smaller = λ x m. m; used = λ x m f. (m, f, refl); freed = λ x f. f }

pub Keeps-trans :
    (b₀ b₁ b₂ : ℕ → Block) (l₀ l₁ l₂ : List ℕ)
    → Keeps b₀ l₀ b₁ l₁
    → Keeps b₁ l₁ b₂ l₂
    → Keeps b₀ l₀ b₂ l₂
Keeps-trans b₀ b₁ b₂ l₀ l₁ l₂ j k = record {
  smaller = λ x m. j.smaller x (k.smaller x m);
  used = λ x m f.
      let first = j.used x m f in
      let second = k.used x first.0 first.1 in (second.0, second.1, second.2 ∙ first.2);
  freed = λ x f. k.freed x (j.freed x f);
}

Listed-drop :
    (w x y : ℕ) (front l : List ℕ)
    → w ≢ y
    → Listed w (front ++ x ∷ y ∷ l)
    → Listed w (front ++ x ∷ l)
Listed-drop w x y [] l d (inl e) = inl e
Listed-drop w x y [] l d (inr (inl e)) = absurd (d e)
Listed-drop w x y [] l d (inr (inr m)) = inr m
Listed-drop w x y (v ∷ front) l d (inl e) = inl e
Listed-drop w x y (v ∷ front) l d (inr m) = inr (Listed-drop w x y front l d m)

Listed-add :
    (w x y : ℕ) (front l : List ℕ) → Listed w (front ++ x ∷ l) → Listed w (front ++ x ∷ y ∷ l)
Listed-add w x y [] l (inl e) = inl e
Listed-add w x y [] l (inr m) = inr (inr m)
Listed-add w x y (v ∷ front) l (inl e) = inl e
Listed-add w x y (v ∷ front) l (inr m) = inr (Listed-add w x y front l m)

pub merged-Keeps :
    (blocks : ℕ → Block) (x y : ℕ) (front l : List ℕ)
    → (blocks x).is_free ≡ true
    → (blocks y).is_free ≡ true
    → Keeps blocks (front ++ x ∷ y ∷ l) (merged blocks x y) (front ++ x ∷ l)
merged-Keeps blocks x y front l fx fy = record {
  smaller = λ w m. Listed-add w x y front l m;
  used = λ w m f.
      let not_x : w ≢ x = λ e. ground arith in
      let not_y : w ≢ y = λ e. ground arith in
      (
        Listed-drop w x y front l not_y m,
        merged_free blocks x y w ∙ f,
        merged_size blocks x y w not_x,
      );
  freed = λ w f. merged_free blocks x y w ∙ f;
}
