-- ===== src/Mm/UserCopy/Apart.antt =====
-- Writes outside of the page tables leave what the tables say.
use loeux_riscv.Base.{
  ℕ, suc, ◌+◌, ◌-◌, ◌*◌, ◌%◌, ◌^◌, ◌≤◌, ◌<◌, ◌==◌, ◌≡◌, ◌≢◌, inl, inr, refl, arith, Bool-cases,
}
use loeux_riscv.Mm.Words.{get_word, get_word-same}
use loeux_riscv.Mm.PageTable.{px}
use loeux_riscv.Mm.PageTable.View.{slot, view}
use loeux_riscv.Mm.PageTable.Shape.{Shape, IsTree, px_below, Serves-root, slot-same, slot-leaf}
use loeux_riscv.Mm.UserCopy.{write_bytes}

module _ (s : Shape) (b b' : ℕ → ℕ) (root : ℕ) (tree : IsTree s b root)
    (same : (u k : ℕ) → 0 < s.height u → k < 4096 → b' (u + k) ≡ b (u + k)) where
  table_word :
      (u i : ℕ) → 0 < s.height u → i < 512 → get_word b' (u + 8 * i) ≡ get_word b (u + 8 * i)
  table_word u i h hi = get_word-same b' b (u + 8 * i) (λ k low high.
      let e : u + (k - u) ≡ k = omega arith in rw e at (same u (k - u) h (omega arith)))

  pub apart-IsTree : IsTree s b' root
  apart-IsTree = record {
    tables = tree.tables;
    heights = tree.heights;
    root_height = tree.root_height;
    root_prefix = tree.root_prefix;
    children = λ t level i h hi e.
        let word = table_word t i (omega (arith, h)) hi in
        rw word (tree.children t level i h hi (rw word at e));
  }

  pub apart-view : (w : ℕ) → w < 2 ^ 39 → view b' 2 root w ≡ view b 2 root w
  unfolding view
  apart-view w h =
      let serves = Serves-root s b root w tree h in
      let slots : slot b' 2 root w ≡ slot b 2 root w =
        slot-same s b b' root 2 root w tree serves
          (λ u k v. table_word u (px (suc k) w) (omega (arith, v.height)) (px_below (suc k) w)) in
      elim (Bool-cases (slot b 2 root w == 0)) [
        | inl e ↦ rw (slots, e) refl
        | inr e ↦
            let (u, v, f) = slot-leaf s b root 2 root w tree serves (λ x. ground arith) in
            rw (slots, e, f) (table_word u (px 0 w) (omega (arith, v.height)) (px_below 0 w))
      ]

-- The page at `pa` is no table.
abbrev pub IsData : Shape → ℕ → Type 0
IsData s pa = (pa % 4096 ≡ 0) × (s.height pa ≡ 0)

-- Bytes within a page that is no table.
pub write_bytes_apart :
    (s : Shape) (b : ℕ → ℕ) (root pa off n : ℕ) (src : ℕ → ℕ)
    → IsTree s b root
    → IsData s pa
    → off + n ≤ 4096
    → (u k : ℕ) → 0 < s.height u
    → k < 4096
    → write_bytes b (pa + off) src n (u + k) ≡ b (u + k)
unfolding write_bytes
write_bytes_apart s b root pa off n src tree plain room u k h hk =
    let d : u ≢ pa = λ x. ground (arith, plain.1) in
    let a : u % 4096 ≡ 0 = (tree.tables u h).aligned in
    let p : pa % 4096 ≡ 0 = plain.0 in ground arith
