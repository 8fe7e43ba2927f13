-- ===== src/Mm/Slab/Carve.antt =====
-- The lists that run through free objects, and the one that a fresh page gets.
use loeux_riscv.Base.{
  ℕ, zero, suc, ◌+◌, ◌<◌, List, [], ◌∷◌, length, update, ◌≡◌, ◌≢◌, refl, ◌∙◌, arith,
}
use loeux_riscv.Mm.Slab.{carve}

-- The list that starts at `head` and is linked by `links` is `l`.
unfoldable pub Linked : (ℕ → ℕ) → ℕ → List ℕ → Type 0
Linked links head [] = head ≡ 0
Linked links head (p ∷ l) = (head ≡ p) × (p ≢ 0) × Linked links (links p) l

unfoldable pub Apart : ℕ → List ℕ → Type 0
Apart q [] = Unit
Apart q (p ∷ l) = (q ≢ p) × Apart q l

pub Linked-update :
    (links : ℕ → ℕ) (head q v : ℕ) (l : List ℕ)
    → Apart q l
    → Linked links head l
    → Linked (update links q v) head l
unfolding Linked Apart
Linked-update links head q v [] a h = h
Linked-update links head q v (p ∷ l) a h =
    let e : update links q v p ≡ links p = ground arith in
    (h.0, h.1, rw e (Linked-update links (links p) q v l a.1 h.2))

-- `n + 1` objects of `size` bytes from `base` on.
abbrev pub objects : ℕ → ℕ → ℕ → List ℕ
objects base size zero = base ∷ []
objects base size (suc n) = base ∷ objects (base + size) size n

pub length-objects : (base size n : ℕ) → length (objects base size n) ≡ n + 1
length-objects base size zero = refl
length-objects base size (suc n) = ground (arith, length-objects (base + size) size n)

pub Apart-objects : (q base size n : ℕ) → q < base → Apart q (objects base size n)
unfolding Apart
Apart-objects q base size zero lt = (omega arith, tt)
Apart-objects q base size (suc n) lt =
    (omega arith, Apart-objects q (base + size) size n (omega arith))

carve_outside :
    (links : ℕ → ℕ) (base size n tail q : ℕ) → q < base → carve links base size n tail q ≡ links q
unfolding carve
carve_outside links base size zero tail q lt = ground arith
carve_outside links base size (suc n) tail q lt =
    let rest =
      carve_outside (update links base (base + size)) (base + size) size n tail q (omega arith) in
    ground arith

-- From a nonzero address, the loop that links n + 1 objects of nonzero size and ends with 0 makes
-- the list of exactly these addresses, in ascending order.
pub carve-Linked :
    (links : ℕ → ℕ) (base size n : ℕ)
    → 0 < base
    → 0 < size
    → Linked (carve links base size n 0) base (objects base size n)
unfolding carve Linked
carve-Linked links base size zero pos wide = (refl, omega arith, ground arith)
carve-Linked links base size (suc n) pos wide =
    let next : carve (update links base (base + size)) (base + size) size n 0 base ≡ base + size =
      carve_outside (update links base (base + size)) (base + size) size n 0 base (omega arith)
      ∙ ground arith in
    (
      refl,
      omega arith,
      rw next
          (carve-Linked (update links base (base + size)) (base + size) size n (omega arith) wide),
    )
