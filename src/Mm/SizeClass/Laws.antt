-- ===== src/Mm/SizeClass/Laws.antt =====
-- The class of a size is the least power of two from 8 on that the size fits, and `__ctzdi2` counts.
use loeux_riscv.Base.{
  ℕ, ◌+◌, ◌-◌, ◌*◌, ◌^◌, ◌≤◌, ◌<◌, Bool, true, ◌&&◌, ◌||◌, ◌≡◌, ◌⊎◌, refl, sym, arith, ◌==◌, ltb,
  leb, Bool-cases, holds_below, holds_below_lem, inl, inr,
}
use loeux_riscv.Mm.SizeClass.{slab_round_up, ctz_step, ctz, smear}

-- The class of the size `n + 1`.
class_test : ℕ → Bool
class_test n =
    let r = slab_round_up (n + 1) in
    let k = ctz r in
    leb 3 k && leb k 12 && (r == 2 ^ k) && leb (n + 1) r && (k == 3 || ltb r (2 * (n + 1)))

class_table : holds_below class_test 4096 ≡ true
unfolding holds_below class_test slab_round_up ctz ctz_step smear
class_table = refl

-- `r` is `1 << k`, the size of the objects of the class `k - 3`, and the least such that `size` fits.
pub record IsClass (size k r : ℕ) : Type 0 where
  pub low : 3 ≤ k
  pub high : k ≤ 12
  pub power : r ≡ 2 ^ k
  pub fits : size ≤ r
  pub least : (k ≡ 3) ⊎ (r < 2 * size)

IsClass-intro :
    (size r k : ℕ)
    → leb 3 k && leb k 12 && (r == 2 ^ k) && leb size r && (k == 3 || ltb r (2 * size)) ≡ true
    → IsClass size k r
IsClass-intro size r k t = record {
  low = ground arith;
  high = ground arith;
  power = ground arith;
  fits = ground arith;
  least = elim (Bool-cases (k == 3)) [ inl h ↦ inl (ground arith) | inr h ↦ inr (ground arith) ];
}

-- For every size from 1 to 4096 the rounded size is 2^k for the k from 3 to 12 that __ctzdi2
-- counts in it, it is at least the size, and k is 3 or it is less than twice the size: the least
-- power of two from 8 on that the size fits.
pub slab_round_up-IsClass :
    (size : ℕ)
    → 0 < size
    → size ≤ 4096
    → IsClass size (ctz (slab_round_up size)) (slab_round_up size)
unfolding class_test
slab_round_up-IsClass size pos small =
    let t = holds_below_lem class_test 4096 (size - 1) class_table (omega arith) in
    let e : size - 1 + 1 ≡ size = omega arith in
    rw (sym e) (
      IsClass-intro (size - 1 + 1) (slab_round_up (size - 1 + 1))
        (ctz (slab_round_up (size - 1 + 1))) t)
