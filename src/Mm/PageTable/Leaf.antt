-- ===== src/Mm/PageTable/Leaf.antt =====
-- A write to an entry of the lowest level: what the tables say changes for one page of addresses.
use loeux_riscv.Base.{
  ℕ, zero, suc, ◌+◌, ◌*◌, ◌/◌, ◌%◌, ◌^◌, ◌≤◌, ◌<◌, false, ◌==◌, if◌then◌else◌, ◌≡◌, ◌≢◌, ◌⊎◌, inl,
  inr, refl, ◌∙◌, ap, arith, Bool-cases,
}
use loeux_riscv.Mm.Words.{get_word, set_word, get_word-set_word_self, get_word-set_word_apart}
use loeux_riscv.Mm.PageTable.{px, pte_pa, is_valid}
use loeux_riscv.Mm.PageTable.View.{slot, view}
use loeux_riscv.Mm.PageTable.Shape.{
  Shape, IsTree, group-suc, px_below, entries_apart, Serves-root, slot-same, slot-leaf,
}

px_page : (level va w : ℕ) → level ≤ 2 → va / 4096 ≡ w / 4096 → px level va ≡ px level w
px_page zero va w h e = ground arith
px_page (suc zero) va w h e = ground arith
px_page (suc (suc zero)) va w h e = ground arith
px_page (suc (suc (suc level))) va w h e = ground arith

-- The addresses of a page have the same entry.
pub slot_page :
    (b : ℕ → ℕ) (level t va w : ℕ)
    → level ≤ 2
    → va / 4096 ≡ w / 4096
    → slot b level t va ≡ slot b level t w
unfolding slot
slot_page b zero t va w h e = rw (px_page 0 va w h e) refl
slot_page b (suc level) t va w h e = rw (px_page (suc level) va w h e) (
    ap (λ x. if is_valid (get_word b (t + 8 * px (suc level) w)) then x else 0)
      (slot_page b level (pte_pa (get_word b (t + 8 * px (suc level) w))) va w (omega arith) e))

-- Addresses with the same entry are in one page.
pub slot_page_of :
    (s : Shape) (b : ℕ → ℕ) (root va w : ℕ)
    → IsTree s b root
    → va < 2 ^ 39
    → w < 2 ^ 39
    → slot b 2 root va ≢ 0
    → slot b 2 root va ≡ slot b 2 root w
    → va / 4096 ≡ w / 4096
slot_page_of s b root va w k h h' p e =
    let (u, v, f) = slot-leaf s b root 2 root va k (Serves-root s b root va k h) p in
    let (u', v', f') =
      slot-leaf s b root 2 root w k (Serves-root s b root w k h') (λ x. p (e ∙ x)) in
    let t = k.tables u (omega (arith, v.height)) in
    let t' = k.tables u' (omega (arith, v'.height)) in
    let same_table : u ≡ u' = ground (arith, t.aligned, t'.aligned, px_below 0 va, px_below 0 w) in
    let same_index : px 0 va ≡ px 0 w = ground arith in
    let prefix : s.prefix u ≡ s.prefix u' = ap s.prefix same_table in
    omega (
      arith,
      prefix,
      v.prefix,
      v'.prefix,
      group-suc 0 va (omega arith),
      group-suc 0 w (omega arith),
      same_index,
    )

module _ (s : Shape) (b : ℕ → ℕ) (root va v : ℕ) (tree : IsTree s b root) (bound : va < 2 ^ 39)
    (there : slot b 2 root va ≢ 0) (word : v < 2 ^ 64) where
  abbrev pub written : ℕ → ℕ
  written = set_word b (slot b 2 root va) v

  -- The entries of other tables, and the other entries, stay.
  written_other :
      (u i : ℕ) → 2 ≤ s.height u → i < 512 → get_word written (u + 8 * i) ≡ get_word b (u + 8 * i)
  written_other u i h hi =
      let (t, served, e) =
        slot-leaf s b root 2 root va tree (Serves-root s b root va tree bound) there in
      let d : u ≢ t = λ x. ground (arith, served.height) in
      let apart =
        entries_apart u t i (px 0 va) (tree.tables u (omega arith))
          (tree.tables t (omega (arith, served.height))) d hi (px_below 0 va) in
      get_word-set_word_apart b (slot b 2 root va) v (u + 8 * i) (rw e apart)

  pub written-IsTree : IsTree s written root
  written-IsTree = record {
    tables = tree.tables;
    heights = tree.heights;
    root_height = tree.root_height;
    root_prefix = tree.root_prefix;
    children = λ t level i h hi e.
        let same = written_other t i (omega (arith, h)) hi in
        rw same (tree.children t level i h hi (rw same at e));
  }

  pub written-slot : (w : ℕ) → w < 2 ^ 39 → slot written 2 root w ≡ slot b 2 root w
  written-slot w h =
      slot-same s b written root 2 root w tree (Serves-root s b root w tree h) (λ u k served.
        written_other u (px (suc k) w) (omega (arith, served.height)) (px_below (suc k) w))

  pub written-view_here : (w : ℕ) → w < 2 ^ 39 → w / 4096 ≡ va / 4096 → view written 2 root w ≡ v
  unfolding view
  written-view_here w h e =
      let at_w : slot b 2 root w ≡ slot b 2 root va = slot_page b 2 root w va (omega arith) e in
      let nonnull : slot b 2 root va == 0 ≡ false = ground arith in
      rw (written-slot w h, at_w, nonnull, get_word-set_word_self b (slot b 2 root va) v word) refl

  slot_aligned : (w : ℕ) → w < 2 ^ 39 → slot b 2 root w ≢ 0 → slot b 2 root w % 8 ≡ 0
  slot_aligned w h p =
      let (u, served, e) = slot-leaf s b root 2 root w tree (Serves-root s b root w tree h) p in
      let t = tree.tables u (omega (arith, served.height)) in omega (arith, t.aligned, e)

  pub written-view_other :
      (w : ℕ) → w < 2 ^ 39 → w / 4096 ≢ va / 4096 → view written 2 root w ≡ view b 2 root w
  unfolding view
  written-view_other w h d =
      let e = written-slot w h in
      elim (Bool-cases (slot b 2 root w == 0)) [
        | inl f ↦ rw (e, f) refl
        | inr f ↦
            let p : slot b 2 root w ≢ 0 = λ x. ground arith in
            let distinct : slot b 2 root w ≢ slot b 2 root va =
              λ x. d (slot_page_of s b root w va tree h bound p x) in
            let apart : (slot b 2 root w + 8 ≤ slot b 2 root va)
                ⊎ (slot b 2 root va + 8 ≤ slot b 2 root w) =
              ground (arith, slot_aligned w h p, slot_aligned va bound there) in
            rw (e, f) (get_word-set_word_apart b (slot b 2 root va) v (slot b 2 root w) apart)
      ]
