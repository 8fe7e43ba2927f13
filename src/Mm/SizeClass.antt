-- ===== src/Mm/SizeClass.antt =====
-- The size classes of mm/slab.c: the rounding of a size and the index of its class.
pub mod Laws
use Prim.Native.Nat.{bit_or}
use loeux_riscv.Base.{ℕ, ◌+◌, ◌-◌, ◌/◌, ◌%◌, ◌^◌, ◌||◌, ◌==◌, ltb, leb, if◌then◌else◌}

-- `size |= size >> k`
unfoldable pub smear : ℕ → ℕ → ℕ
smear size k = bit_or size (size / 2 ^ k)

unfoldable pub slab_round_up : ℕ → ℕ
unfolding smear
slab_round_up size =
    if size == 0 || ltb 4096 size
    then 0
    else if leb size 8
    then 8
    else (smear (smear (smear (smear (smear (size - 1) 1) 2) 4) 8) 16 + 1) % 2 ^ 32

-- A step of `__ctzdi2`: where the low `k` bits of `x` are 0 (`x & (2 ^ k - 1)`), they are shifted out
-- and counted.
unfoldable pub ctz_step : ℕ → ℕ × ℕ → ℕ × ℕ
ctz_step k (x, ret) = if x % 2 ^ k == 0 then (x / 2 ^ k, bit_or ret k) else (x, ret)

unfoldable pub ctz : ℕ → ℕ
unfolding ctz_step
ctz x =
    if x == 0
    then 64
    else (ctz_step 1 (ctz_step 2 (ctz_step 4 (ctz_step 8 (ctz_step 16 (ctz_step 32 (x, 0))))))).1
