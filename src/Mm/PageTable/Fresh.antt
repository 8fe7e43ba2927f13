-- ===== src/Mm/PageTable/Fresh.antt =====
-- A fresh page becomes a table: what `pte_walk` does where a table is missing.
use loeux_riscv.Base.{
  ℕ, zero, suc, ◌+◌, ◌-◌, ◌*◌, ◌%◌, ◌^◌, ◌≤◌, ◌<◌, true, false, ◌&&◌, ◌==◌, update, ◌≡◌, ◌≢◌, ◌⊎◌,
  inl, inr, refl, sym, ◌∙◌, ap, arith, Bool-cases,
}
use loeux_riscv.Mm.Words.{
  get_word, set_word, get_word-set_word_self, get_word-set_word_apart, get_word-same, get_word-zero,
}
use loeux_riscv.Mm.PageTable.{px, pte_pa, pa_pte, is_valid}
use loeux_riscv.Mm.PageTable.View.{slot, view}
use loeux_riscv.Mm.PageTable.Shape.{
  Shape, group, Serves, IsTable, Child, IsTree, group-suc, px_below, entries_apart, Serves-child,
}

pub view-valid :
    (b : ℕ → ℕ) (level t va : ℕ)
    → is_valid (get_word b (t + 8 * px (suc level) va)) ≡ true
    → view b (suc level) t va ≡ view b level (pte_pa (get_word b (t + 8 * px (suc level) va))) va
unfolding view
view-valid b level t va e = rw (slot, e) refl

pub view-invalid :
    (b : ℕ → ℕ) (level t va : ℕ)
    → is_valid (get_word b (t + 8 * px (suc level) va)) ≡ false
    → view b (suc level) t va ≡ 0
unfolding view
view-invalid b level t va e = rw (slot, e) refl

-- A table of zeros has no entries.
view-zero :
    (b : ℕ → ℕ) (level t va : ℕ)
    → ((j : ℕ) → j < 512 → get_word b (t + 8 * j) ≡ 0)
    → view b level t va ≡ 0
unfolding view slot
view-zero b zero t va h = rw (h (px 0 va) (px_below 0 va)) (ground arith)
view-zero b (suc level) t va h =
    let e : is_valid (get_word b (t + 8 * px (suc level) va)) ≡ false =
      rw (h (px (suc level) va) (px_below (suc level) va)) refl in
    view-invalid b level t va e

pub pte_pa-pa_pte :
    (pa f : ℕ) → pa % 4096 ≡ 0 → pa < 2 ^ 56 → f < 2 ^ 10 → pte_pa (pa_pte pa + f) ≡ pa
unfolding pte_pa pa_pte
pte_pa-pa_pte pa f h k l = ground arith

pub entry-valid : (pa f : ℕ) → is_valid (pa_pte pa + f) ≡ (f % 2 == 1)
unfolding pa_pte
entry-valid pa f = ground arith

-- The page `a`, all zeros, becomes the table that the entry of `va` in the table `t` leads to.
module _ (s : Shape) (b b₁ : ℕ → ℕ) (root t level va a : ℕ) (tree : IsTree s b root)
    (serves : Serves s (suc level) t va)
    (missing : is_valid (get_word b (t + 8 * px (suc level) va)) ≡ false) (table : IsTable a)
    (fresh : s.height a ≡ 0) (zeros : (k : ℕ) → k < 4096 → b₁ (a + k) ≡ 0)
    (kept : (c : ℕ) → (c < a) ⊎ (a + 4096 ≤ c) → b₁ c ≡ b c) where
  abbrev pub entry_at : ℕ
  entry_at = t + 8 * px (suc level) va

  abbrev pub linked : ℕ → ℕ
  linked = set_word b₁ entry_at (pa_pte a + 1)

  abbrev pub grown : Shape
  grown = record {
    height = update s.height a (suc level);
    prefix = update s.prefix a (group (suc level) va);
  }

  t-IsTable : IsTable t
  t-IsTable = tree.tables t (omega (arith, serves.height))

  t_other : t ≢ a
  t_other = λ e. ground (arith, serves.height, fresh)

  pub linked_entry : get_word linked entry_at ≡ pa_pte a + 1
  unfolding pa_pte
  linked_entry = get_word-set_word_self b₁ entry_at (pa_pte a + 1) (ground (arith, table.small))

  linked_fresh : (j : ℕ) → j < 512 → get_word linked (a + 8 * j) ≡ 0
  linked_fresh j h =
      get_word-set_word_apart b₁ entry_at (pa_pte a + 1) (a + 8 * j) (
        entries_apart a t j (px (suc level) va) table t-IsTable (λ e. t_other (sym e)) h
          (px_below (suc level) va))
      ∙ get_word-zero b₁ (a + 8 * j) (λ k low high.
        let e : a + (k - a) ≡ k = omega arith in rw e at (zeros (k - a) (omega arith)))

  -- The words of the tables that were there stay, but for the entry.
  pub linked_old :
      (u j : ℕ)
      → 0 < s.height u
      → j < 512
      → (u ≢ t) ⊎ (j ≢ px (suc level) va)
      → get_word linked (u + 8 * j) ≡ get_word b (u + 8 * j)
  linked_old u j hu hj other =
      let u_table = tree.tables u hu in
      let u_other : u ≢ a = λ e. ground (arith, fresh) in
      let apart : (u + 8 * j + 8 ≤ entry_at) ⊎ (entry_at + 8 ≤ u + 8 * j) = elim other [
        | inl d ↦
            entries_apart u t j (px (suc level) va) u_table t-IsTable d hj (px_below (suc level) va)
        | inr d ↦ elim (Bool-cases (u == t)) [
          | inl e ↦ ground arith
          | inr e ↦
              entries_apart u t j (px (suc level) va) u_table t-IsTable (λ x. ground arith) hj
                (px_below (suc level) va)
        ]
      ] in
      get_word-set_word_apart b₁ entry_at (pa_pte a + 1) (u + 8 * j) apart
      ∙ get_word-same b₁ b (u + 8 * j)
          (λ k low high. kept k (ground (arith, u_table.aligned, table.aligned)))

  grown-children :
      (u l i : ℕ)
      → grown.height u ≡ suc (suc l)
      → i < 512
      → is_valid (get_word linked (u + 8 * i)) ≡ true
      → Child grown (pte_pa (get_word linked (u + 8 * i))) l (512 * grown.prefix u + i)
  grown-children u l i hu hi v = elim (Bool-cases (u == a)) [
    | inl e ↦
        let here : u ≡ a = ground arith in
        let none_valid : is_valid (get_word linked (u + 8 * i)) ≡ false =
          rw (here, linked_fresh i hi) refl in
        ground arith
    | inr e ↦
        let old_height : s.height u ≡ suc (suc l) = ground arith in
        elim (Bool-cases (u == t && (i == px (suc level) va))) [
          | inl f ↦
              let at_t : u ≡ t = ground arith in
              let at_i : i ≡ px (suc level) va = ground arith in
              let word : get_word linked (u + 8 * i) ≡ pa_pte a + 1 =
                rw (at_t, at_i) linked_entry in
              let target : pte_pa (get_word linked (u + 8 * i)) ≡ a =
                ap pte_pa word ∙ pte_pa-pa_pte a 1 table.aligned table.small (omega arith) in
              let low : suc level ≤ 2 = omega (arith, tree.heights t, serves.height) in
              let level_of : level ≡ l = ground (arith, serves.height) in
              rw target (record {
                height = ground arith;
                prefix = ground (arith, group-suc (suc level) va low, serves.prefix, t_other);
              })
          | inr f ↦
              let word : get_word linked (u + 8 * i) ≡ get_word b (u + 8 * i) =
                linked_old u i (omega arith) hi (ground arith) in
              let c = tree.children u l i old_height hi (rw word at v) in
              let not_fresh : pte_pa (get_word b (u + 8 * i)) ≢ a =
                λ x. ground (arith, c.height, fresh) in
              rw word
                (record { height = ground (arith, c.height); prefix = ground (arith, c.prefix) })
        ]
  ]

  pub grown-IsTree : IsTree grown linked root
  grown-IsTree = record {
    tables = λ u h. elim (Bool-cases (u == a)) [
      | inl e ↦ let here : u ≡ a = ground arith in rw here table
      | inr e ↦ tree.tables u (ground arith)
    ];
    heights = λ u. ground (arith, tree.heights u, tree.heights t, serves.height);
    root_height = ground (arith, tree.root_height, fresh);
    root_prefix = ground (arith, tree.root_height, tree.root_prefix, fresh);
    children = grown-children;
  }

  pub grown-Serves : Serves grown level a va
  grown-Serves = record { height = ground arith; prefix = ground arith }

  -- What the tables say stays.
  pub grown-view : (l u w : ℕ) → Serves s l u w → view linked l u w ≡ view b l u w
  unfolding view slot
  grown-view zero u w v =
      let other : u ≢ t = λ x. ground (arith, v.height, serves.height) in
      rw (linked_old u (px 0 w) (omega (arith, v.height)) (px_below 0 w) (inl other)) refl
  grown-view (suc l) u w v = elim (Bool-cases (u == t && (px (suc l) w == px (suc level) va))) [
    | inl f ↦
        let at_t : u ≡ t = ground arith in
        let at_i : px (suc l) w ≡ px (suc level) va = ground arith in
        let entry : get_word linked (u + 8 * px (suc l) w) ≡ pa_pte a + 1 =
          rw (at_t, at_i) linked_entry in
        let e : is_valid (get_word linked (u + 8 * px (suc l) w)) ≡ true =
          rw (entry, entry-valid a 1) refl in
        let target : pte_pa (get_word linked (u + 8 * px (suc l) w)) ≡ a =
          ap pte_pa entry ∙ pte_pa-pa_pte a 1 table.aligned table.small (omega arith) in
        let before : is_valid (get_word b (u + 8 * px (suc l) w)) ≡ false =
          rw (at_t, at_i) missing in
        view-valid linked l u w e
        ∙ rw target (view-zero linked l a w linked_fresh)
        ∙ sym (view-invalid b l u w before)
    | inr f ↦
        let word : get_word linked (u + 8 * px (suc l) w) ≡ get_word b (u + 8 * px (suc l) w) =
          linked_old u (px (suc l) w) (omega (arith, v.height)) (px_below (suc l) w)
            (ground arith) in
        elim (Bool-cases (is_valid (get_word b (u + 8 * px (suc l) w)))) [
          | inl e ↦
              view-valid linked l u w (rw word e)
              ∙ rw word (grown-view l _ w (Serves-child s b root l u w tree v e))
              ∙ sym (view-valid b l u w e)
          | inr e ↦ view-invalid linked l u w (rw word e) ∙ sym (view-invalid b l u w e)
        ]
  ]
