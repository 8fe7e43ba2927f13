-- ===== src/Mm/SlabApi.antt =====
-- What the slab allocator of mm/slab.c offers to its clients. Addresses are numbers, 0 is NULL.
use loeux_riscv.Base.{ℕ, ◌<◌, Bool, true, ◌≡◌, ◌≢◌, Outcome, Returns}

-- `is_object s p`: `slab_free(p)` passes its checks. Pages of slabs are never given back, so an
-- object stays one.
pub record SlabApi {ℓ} (S : Type ℓ) : Type ℓ where
  pub alloc : S → ℕ → ℕ × S
  pub free : S → ℕ → Outcome S
  pub is_object : S → ℕ → Bool
  pub alloc_large : (s : S) (size : ℕ) → 4096 < size → (alloc s size).0 ≡ 0
  pub alloc_object :
      (s : S) (size : ℕ) → (alloc s size).0 ≢ 0 → is_object (alloc s size).1 (alloc s size).0 ≡ true
  pub alloc_keeps :
      (s : S) (size p : ℕ) → is_object s p ≡ true → is_object (alloc s size).1 p ≡ true
  pub free_keeps :
      (s : S) (p : ℕ)
      → is_object s p ≡ true
      → Returns (free s p) (λ s'. (q : ℕ) → is_object s q ≡ true → is_object s' q ≡ true)
