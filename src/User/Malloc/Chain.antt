-- ===== src/User/Malloc/Chain.antt =====
-- The blocks of a heap as a list: linked both ways, and one behind the other up to the break.
use loeux_riscv.Base.{
  update, ℕ, ◌+◌, ◌≤◌, Bool, true, List, [], ◌∷◌, ◌++◌, ◌≡◌, ◌≢◌, ◌⊎◌, inl, inr, refl, arith,
}
use loeux_riscv.User.Malloc.{Block, blk_hdr}

-- From the pointer `h` the `next` links go through the blocks `l`, and the `prev` links back to `p`.
abbrev pub Chain : (ℕ → Block) → ℕ → ℕ → List ℕ → Type 0
Chain blocks p h [] = h ≡ 0
Chain blocks p h (x ∷ l) = (h ≡ x) × ((blocks x).prev ≡ p) × Chain blocks x (blocks x).next l

-- The first of the blocks, or else the break.
abbrev pub start_of : List ℕ → ℕ → ℕ
start_of [] brk = brk
start_of (x ∷ l) brk = x

abbrev pub end_of : (ℕ → Block) → ℕ → ℕ
end_of blocks x = x + blk_hdr + (blocks x).size

-- Each block ends where the next one begins, the last one at the break.
abbrev pub Tiles : (ℕ → Block) → List ℕ → ℕ → Type 0
Tiles blocks [] brk = Unit
Tiles blocks (x ∷ l) brk = (x ≢ 0) × (end_of blocks x ≡ start_of l brk) × Tiles blocks l brk

abbrev pub last_or : ℕ → List ℕ → ℕ
last_or p [] = p
last_or p (x ∷ l) = last_or x l

abbrev pub Listed : ℕ → List ℕ → Type 0
Listed x [] = ⊥
Listed x (y ∷ l) = (x ≡ y) ⊎ Listed x l

-- Every block of the list lies below the break, and not before the first.
pub Tiles-bounds :
    (blocks : ℕ → Block) (x : ℕ) (l : List ℕ) (brk : ℕ)
    → Tiles blocks l brk
    → Listed x l
    → (start_of l brk ≤ x) × (end_of blocks x ≤ brk) × (x ≢ 0)
Tiles-bounds blocks x [] brk t k = absurd k
Tiles-bounds blocks x (y ∷ []) brk t (inl e) = rw e (omega arith, omega (arith, t.1), t.0)
Tiles-bounds blocks x (y ∷ []) brk t (inr k) = absurd k
Tiles-bounds blocks x (y ∷ z ∷ l) brk t (inl e) =
    let first = Tiles-bounds blocks z (z ∷ l) brk t.2 (inl refl) in
    rw e (omega arith, omega (arith, t.1, first.1), t.0)
Tiles-bounds blocks x (y ∷ z ∷ l) brk t (inr k) =
    let rest = Tiles-bounds blocks x (z ∷ l) brk t.2 k in
    (omega (arith, t.1, rest.0), rest.1, rest.2)

pub Listed-last : (p : ℕ) (l : List ℕ) → Listed (last_or p l) (p ∷ l)
Listed-last p [] = inl refl
Listed-last p (x ∷ l) = inr (Listed-last x l)

pub last_or-append : (p : ℕ) (l : List ℕ) (b : ℕ) → last_or p (l ++ b ∷ []) ≡ b
last_or-append p [] b = refl
last_or-append p (x ∷ l) b = last_or-append x l b

-- A block that keeps links and size may change its flag.
pub Chain-flag :
    (blocks : ℕ → Block) (b p h : ℕ) (f : Bool) (l : List ℕ)
    → Chain blocks p h l
    → Chain (update blocks b (record (blocks b) { is_free = f })) p h l
Chain-flag blocks b p h f [] k = k
Chain-flag blocks b p h f (x ∷ l) k =
    let next : (update blocks b (record (blocks b) { is_free = f }) x).next ≡ (blocks x).next =
      ground arith in
    (k.0, ground arith, rw next (Chain-flag blocks b x (blocks x).next f l k.2))

pub Tiles-flag :
    (blocks : ℕ → Block) (b brk : ℕ) (f : Bool) (l : List ℕ)
    → Tiles blocks l brk
    → Tiles (update blocks b (record (blocks b) { is_free = f })) l brk
Tiles-flag blocks b brk f [] t = tt
Tiles-flag blocks b brk f (x ∷ l) t =
    let size : (update blocks b (record (blocks b) { is_free = f }) x).size ≡ (blocks x).size =
      ground arith in
    (t.0, rw size t.1, Tiles-flag blocks b brk f l t.2)

-- The blocks with a new block `b` of `size` bytes behind the block `t`.
abbrev pub joined : (ℕ → Block) → ℕ → ℕ → ℕ → ℕ → Block
joined blocks b t size =
    let fresh : Block = record { size = size; is_free = true; next = 0; prev = t } in
    update (update blocks b fresh) t (record (update blocks b fresh t) { next = b })

pub Chain-append :
    (blocks : ℕ → Block) (b p h size brk x : ℕ) (l : List ℕ)
    → b ≡ brk
    → b ≢ 0
    → Tiles blocks (x ∷ l) brk
    → Chain blocks p h (x ∷ l)
    → Chain (joined blocks b (last_or x l) size) p h (x ∷ l ++ b ∷ [])
Chain-append blocks b p h size brk x [] e bz t k =
    let below = Tiles-bounds blocks x (x ∷ []) brk t (inl refl) in
    let apart : x ≢ b = λ q. omega (arith, below.1) in
    (k.0, ground arith, (ground arith, ground arith, ground arith))
Chain-append blocks b p h size brk x (y ∷ l) e bz t k =
    let below = Tiles-bounds blocks x (x ∷ y ∷ l) brk t (inl refl) in
    let last = Tiles-bounds blocks (last_or y l) (y ∷ l) brk t.2 (Listed-last y l) in
    let apart : x ≢ b = λ q. omega (arith, below.1) in
    let before : x ≢ last_or y l = λ q. omega (arith, t.1, last.0) in
    let next : (joined blocks b (last_or y l) size x).next ≡ (blocks x).next = ground arith in
    (k.0, ground arith, rw next (Chain-append blocks b x (blocks x).next size brk y l e bz t.2 k.2))

pub Tiles-append :
    (blocks : ℕ → Block) (b t size brk : ℕ) (l : List ℕ)
    → b ≡ brk
    → b ≢ 0
    → t ≢ b
    → Tiles blocks l brk
    → Tiles (joined blocks b t size) (l ++ b ∷ []) (b + blk_hdr + size)
Tiles-append blocks b t size brk [] e bz d k = (bz, ground arith, tt)
Tiles-append blocks b t size brk (x ∷ []) e bz d k =
    let below = Tiles-bounds blocks x (x ∷ []) brk k (inl refl) in
    let apart : x ≢ b = λ q. omega (arith, below.1) in
    (k.0, ground (arith, k.1), (bz, ground arith, tt))
Tiles-append blocks b t size brk (x ∷ y ∷ l) e bz d k =
    let below = Tiles-bounds blocks x (x ∷ y ∷ l) brk k (inl refl) in
    let apart : x ≢ b = λ q. omega (arith, below.1) in
    (k.0, ground (arith, k.1), Tiles-append blocks b t size brk (y ∷ l) e bz d k.2)
