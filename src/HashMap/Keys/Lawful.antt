-- ===== src/HashMap/Keys/Lawful.antt =====
-- The built-in hash and comparison agree: keys with the same bytes have the same hash.
use loeux_riscv.Base.{ℕ, zero, suc, ◌+◌, true, ◌≡◌, refl, arith}
use loeux_riscv.HashMap.Chain.Laws.{IsLawful}
use loeux_riscv.HashMap.Keys.{hash_bytes, default_hash_func, equal_bytes, default_key_equal}

module _ (mem : ℕ → ℕ) where
  equal_bytes_refl : (p n : ℕ) → equal_bytes mem p p n ≡ true
  unfolding equal_bytes
  equal_bytes_refl p zero = refl
  equal_bytes_refl p (suc n) = ground (arith, equal_bytes_refl (p + 1) n)

  equal_bytes_symm : (p q n : ℕ) → equal_bytes mem p q n ≡ equal_bytes mem q p n
  unfolding equal_bytes
  equal_bytes_symm p q zero = refl
  equal_bytes_symm p q (suc n) = ground (arith, equal_bytes_symm (p + 1) (q + 1) n)

  equal_bytes_trans :
      (p q r n : ℕ)
      → equal_bytes mem p q n ≡ true
      → equal_bytes mem q r n ≡ true
      → equal_bytes mem p r n ≡ true
  unfolding equal_bytes
  equal_bytes_trans p q r zero h k = refl
  equal_bytes_trans p q r (suc n) h k = ground (arith, equal_bytes_trans (p + 1) (q + 1) (r + 1) n)

  hash_bytes_congr :
      (p q n hash : ℕ)
      → equal_bytes mem p q n ≡ true
      → hash_bytes mem p n hash ≡ hash_bytes mem q n hash
  unfolding equal_bytes hash_bytes
  hash_bytes_congr p q zero hash h = refl
  hash_bytes_congr p q (suc n) hash h =
      let byte : mem p ≡ mem q = ground arith in
      rw byte (hash_bytes_congr (p + 1) (q + 1) n _ (ground arith))

  -- Over any memory the built-in comparison is reflexive, symmetric and transitive at each length,
  -- and keys that it equates have the same built-in hash.
  pub default-IsLawful : IsLawful (default_hash_func mem) (default_key_equal mem)
  unfolding default_hash_func default_key_equal
  default-IsLawful = record {
    equal_refl = λ a n. ground arith;
    equal_symm = λ a b n. ground (arith, equal_bytes_symm a b n);
    equal_trans = λ a b c n h k. ground (arith, equal_bytes_trans a b c n, equal_bytes_refl a n);
    hash-equal = λ a b n h. ground (arith, hash_bytes_congr a b n 2166136261);
  }
