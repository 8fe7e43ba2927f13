-- ===== src/HashMap/Keys.antt =====
-- The built-in hash (FNV-1a) and key comparison, and the size of the bucket array.
pub mod Size
pub mod Lawful
use Prim.Native.Nat.{bit_xor}
use loeux_riscv.Base.{
  ℕ, zero, suc, ◌+◌, ◌*◌, ◌%◌, ◌^◌, Bool, true, false, ◌||◌, Outcome, done, spin, ◌==◌, ltb,
  if◌then◌else◌,
}

-- `hash ^= data[i]; hash *= 16777619u`, for the `n` bytes from `p` on.
unfoldable pub hash_bytes : (ℕ → ℕ) → ℕ → ℕ → ℕ → ℕ
hash_bytes mem p zero hash = hash
hash_bytes mem p (suc n) hash = hash_bytes mem (p + 1) n (bit_xor hash (mem p) * 16777619 % 2 ^ 32)

unfoldable pub default_hash_func : (ℕ → ℕ) → ℕ → ℕ → ℕ
unfolding hash_bytes
default_hash_func mem key len = hash_bytes mem key len 2166136261

unfoldable pub equal_bytes : (ℕ → ℕ) → ℕ → ℕ → ℕ → Bool
equal_bytes mem p q zero = true
equal_bytes mem p q (suc n) =
    let rest = equal_bytes mem (p + 1) (q + 1) n in if mem p == mem q then rest else false

unfoldable pub default_key_equal : (ℕ → ℕ) → ℕ → ℕ → ℕ → Bool
unfolding equal_bytes
default_key_equal mem key1 key2 len =
    if key1 == key2
    then true
    else if key1 == 0 || key2 == 0
    then false
    else equal_bytes mem key1 key2 len

-- `while (p < n) p <<= 1;` with fuel. In 32 rounds `p` has left the 32 bits, and is 0 for good.
unfoldable pub double_until : ℕ → ℕ → ℕ → Outcome ℕ
double_until zero p n = spin
double_until (suc f) p n =
    let rest = double_until f (p * 2 % 2 ^ 32) n in if ltb p n then rest else done p

unfoldable pub round_up_pow2 : ℕ → Outcome ℕ
unfolding double_until
round_up_pow2 n = double_until 32 8 n
