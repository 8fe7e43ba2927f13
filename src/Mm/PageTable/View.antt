-- ===== src/Mm/PageTable/View.antt =====
-- What page tables say: the entry of a virtual address.
use loeux_riscv.Base.{
  ℕ, zero, suc, ◌+◌, ◌*◌, ◌≤◌, true, false, done, ◌==◌, ltb, if◌then◌else◌, ◌≡◌, refl, arith,
  Bool-cases, inl, inr,
}
use loeux_riscv.Mm.Pages.{Memory}
use loeux_riscv.Mm.Words.{get_word}
use loeux_riscv.Mm.PageTable.{max_va, px, pte_pa, is_valid, walk_from, pte_walk}

-- The address of the entry that the tables from `t` on, at the level, have for the address `va`,
-- and 0 where a table on the way is missing.
unfoldable pub slot : (ℕ → ℕ) → ℕ → ℕ → ℕ → ℕ
slot b zero t va = t + 8 * px 0 va
slot b (suc level) t va =
    let rest = slot b level (pte_pa (get_word b (t + 8 * px (suc level) va))) va in
    if is_valid (get_word b (t + 8 * px (suc level) va)) then rest else 0

-- The entry, and 0 where there is none.
unfoldable pub view : (ℕ → ℕ) → ℕ → ℕ → ℕ → ℕ
unfolding slot
view b level t va = if slot b level t va == 0 then 0 else get_word b (slot b level t va)

pub slot-valid :
    (b : ℕ → ℕ) (level t va : ℕ)
    → is_valid (get_word b (t + 8 * px (suc level) va)) ≡ true
    → slot b (suc level) t va ≡ slot b level (pte_pa (get_word b (t + 8 * px (suc level) va))) va
unfolding slot
slot-valid b level t va e = rw e refl

pub walk_from_look :
    (hart level pt va : ℕ) (m : Memory)
    → walk_from hart level pt va false m ≡ done (slot m.bytes level pt va, m)
unfolding walk_from slot
walk_from_look hart zero pt va m = refl
walk_from_look hart (suc level) pt va m =
    let p = get_word m.bytes (pt + 8 * px (suc level) va) in
    elim (Bool-cases (is_valid p)) [
      | inl e ↦ rw (walk_from, e) (walk_from_look hart level (pte_pa p) va m)
      | inr e ↦ rw (walk_from, e) refl
    ]

-- Without create, pte_walk returns the address of the entry, NULL where a table is missing, and
-- leaves the memory as it is.
pub pte_walk_look :
    (hart pt va : ℕ) (m : Memory)
    → va ≤ max_va
    → pte_walk hart pt va false m ≡ done (slot m.bytes 2 pt va, m)
unfolding pte_walk
pte_walk_look hart pt va m h =
    let e : ltb max_va va ≡ false = ground arith in rw (e, walk_from_look hart 2 pt va m) refl
