-- ===== src/Mm/PageTable/Shape.antt =====
-- The well-formed page tables: every table is an aligned page of its own, and a valid entry leads
-- to the table of the level below for its part of the addresses.
use loeux_riscv.Base.{
  ℕ, zero, suc, ◌+◌, ◌*◌, ◌/◌, ◌%◌, ◌^◌, ◌≤◌, ◌<◌, true, ◌≡◌, ◌≢◌, ◌⊎◌, inl, inr, refl, ◌∙◌, ap,
  arith, Bool-cases,
}
use loeux_riscv.Mm.Words.{get_word}
use loeux_riscv.Mm.PageTable.{px, pte_pa, is_valid}
use loeux_riscv.Mm.PageTable.View.{slot}

-- Which addresses hold a table. `height` is 0 where there is none, and 1 more than the level of the
-- table where there is one; `prefix` is what the addresses that the table serves share.
pub record Shape : Type 0 where
  pub height : ℕ → ℕ
  pub prefix : ℕ → ℕ

-- The addresses `2 ^ (12 + 9 * level)` apart have different entries in a table of the level.
abbrev pub group : ℕ → ℕ → ℕ
group level va = va / 2 ^ (12 + 9 * level)

-- The table `t` is the one of the level for the address `va`.
pub record Serves (s : Shape) (level t va : ℕ) : Type 0 where
  pub height : s.height t ≡ suc level
  pub prefix : s.prefix t ≡ group (suc level) va

pub record IsTable (t : ℕ) : Type 0 where
  pub aligned : t % 4096 ≡ 0
  pub nonnull : t ≢ 0
  pub small : t < 2 ^ 56

pub record Child (s : Shape) (t level n : ℕ) : Type 0 where
  pub height : s.height t ≡ suc level
  pub prefix : s.prefix t ≡ n

pub record IsTree (s : Shape) (b : ℕ → ℕ) (root : ℕ) : Type 0 where
  pub tables : (t : ℕ) → 0 < s.height t → IsTable t
  pub heights : (t : ℕ) → s.height t ≤ 3
  pub root_height : s.height root ≡ 3
  pub root_prefix : s.prefix root ≡ 0
  pub children :
      (t level i : ℕ)
      → s.height t ≡ suc (suc level)
      → i < 512
      → is_valid (get_word b (t + 8 * i)) ≡ true
      → Child s (pte_pa (get_word b (t + 8 * i))) level (512 * s.prefix t + i)

pub group-suc :
    (level va : ℕ) → level ≤ 2 → 512 * group (suc level) va + px level va ≡ group level va
group-suc zero va h = ground arith
group-suc (suc zero) va h = ground arith
group-suc (suc (suc zero)) va h = ground arith
group-suc (suc (suc (suc level))) va h = ground arith

pub px_below : (level va : ℕ) → px level va < 512
px_below level va = ground arith

-- Two different tables share no entry.
pub entries_apart :
    (t u i j : ℕ)
    → IsTable t
    → IsTable u
    → t ≢ u
    → i < 512
    → j < 512
    → (t + 8 * i + 8 ≤ u + 8 * j) ⊎ (u + 8 * j + 8 ≤ t + 8 * i)
entries_apart t u i j a b h hi hj =
    let e : t % 4096 ≡ 0 = a.aligned in let f : u % 4096 ≡ 0 = b.aligned in ground arith

pub Serves-child :
    (s : Shape) (b : ℕ → ℕ) (root level t va : ℕ)
    → IsTree s b root
    → Serves s (suc level) t va
    → is_valid (get_word b (t + 8 * px (suc level) va)) ≡ true
    → Serves s level (pte_pa (get_word b (t + 8 * px (suc level) va))) va
Serves-child s b root level t va k v e =
    let c = k.children t level (px (suc level) va) v.height (px_below (suc level) va) e in
    let low : suc level ≤ 2 = omega (arith, k.heights t, v.height) in
    record {
      height = c.height;
      prefix =
          c.prefix ∙ ap (λ x. 512 * x + px (suc level) va) v.prefix ∙ group-suc (suc level) va low;
    }

pub Serves-root :
    (s : Shape) (b : ℕ → ℕ) (root va : ℕ) → IsTree s b root → va < 2 ^ 39 → Serves s 2 root va
Serves-root s b root va k h = record {
  height = k.root_height;
  prefix = k.root_prefix ∙ ground arith;
}

-- The words that decide where the entry of an address is are those of the tables above it.
pub slot-same :
    (s : Shape) (b b' : ℕ → ℕ) (root level t va : ℕ)
    → IsTree s b root
    → Serves s level t va
    → ((u k : ℕ)
        → Serves s (suc k) u va
        → get_word b' (u + 8 * px (suc k) va) ≡ get_word b (u + 8 * px (suc k) va))
    → slot b' level t va ≡ slot b level t va
unfolding slot
slot-same s b b' root zero t va k v h = refl
slot-same s b b' root (suc level) t va k v h =
    elim (Bool-cases (is_valid (get_word b (t + 8 * px (suc level) va)))) [
      | inl e ↦
          rw (slot, h t level v, e)
            (slot-same s b b' root level _ va k (Serves-child s b root level t va k v e) h)
      | inr e ↦ rw (slot, h t level v, e) refl
    ]

-- The entry of an address is an entry of a table of the lowest level that serves it.
pub slot-leaf :
    (s : Shape) (b : ℕ → ℕ) (root level t va : ℕ)
    → IsTree s b root
    → Serves s level t va
    → slot b level t va ≢ 0
    → (u : ℕ) × Serves s 0 u va × (slot b level t va ≡ u + 8 * px 0 va)
unfolding slot
slot-leaf s b root zero t va k v h = (t, v, refl)
slot-leaf s b root (suc level) t va k v h =
    elim (Bool-cases (is_valid (get_word b (t + 8 * px (suc level) va)))) [
      | inl e ↦
          let open_up : slot b (suc level) t va
              ≡ slot b level (pte_pa (get_word b (t + 8 * px (suc level) va))) va =
            rw (slot, e) refl in
          let (u, w, f) =
            slot-leaf s b root level _ va k (Serves-child s b root level t va k v e)
              (rw open_up at h) in
          (u, w, open_up ∙ f)
      | inr e ↦
          let none_there : slot b (suc level) t va ≡ 0 = rw (slot, e) refl in absurd (h none_there)
    ]
