-- ===== src/Mm/PageTable/Grow.antt =====
-- `pte_walk` with create, on well-formed tables and a free list of pages that are no tables.
use loeux_riscv.Base.{
  ℕ, zero, suc, ◌+◌, ◌*◌, ◌^◌, ◌≤◌, ◌<◌, true, false, ◌==◌, update, List, [], ◌∷◌, length, ◌>>=◌,
  Returns, ◌≡◌, ◌≢◌, ◌⊎◌, inl, inr, refl, sym, ◌∙◌, ap, arith, Bool-cases,
}
use loeux_riscv.Mm.Pages.{Page, Memory, memory_start}
use loeux_riscv.Mm.Pages.Queue.{NotIn}
use loeux_riscv.Mm.Pages.Laws.{IsQueue, Allocated, alloc_page_empty, alloc_page-Allocated}
use loeux_riscv.Mm.Words.{get_word, set_word_outside}
use loeux_riscv.Mm.PageTable.{px, pte_pa, pa_pte, is_valid, store, walk_from}
use loeux_riscv.Mm.PageTable.View.{slot, view, slot-valid}
use loeux_riscv.Mm.PageTable.Shape.{
  Shape, Serves, IsTable, IsTree, px_below, Serves-child, Serves-root,
}
use loeux_riscv.Mm.PageTable.Fresh.{
  grown, linked_old, linked_entry, entry-valid, pte_pa-pa_pte, grown-IsTree, grown-Serves,
  grown-view,
}

-- Each page of the list is at its place in the memory and holds no table.
abbrev pub Spare : (ℕ → Page) → (ℕ → ℕ) → List ℕ → Type 0
Spare pages height [] = Unit
Spare pages height (i ∷ l) =
    ((pages i).paddr ≡ memory_start + 4096 * i)
    × (i < 2 ^ 40)
    × (height (memory_start + 4096 * i) ≡ 0)
    × Spare pages height l

-- No page of the list is at the address.
abbrev pub Away : ℕ → List ℕ → Type 0
Away u [] = Unit
Away u (i ∷ l) = (u ≢ memory_start + 4096 * i) × Away u l

pub record IsMapped (m : Memory) (s : Shape) (root : ℕ) (l : List ℕ) : Type 0 where
  pub queue : IsQueue m l
  pub tree : IsTree s m.bytes root
  pub spare : Spare m.pages s.height l

Spare-step :
    (pages pages' : ℕ → Page) (height : ℕ → ℕ) (i h : ℕ) (l : List ℕ)
    → Spare pages height l
    → NotIn i l
    → ((j : ℕ) → j ≢ i → pages' j ≡ pages j)
    → Spare pages' (update height (memory_start + 4096 * i) h) l
Spare-step pages pages' height i h [] k out o = tt
Spare-step pages pages' height i h (x ∷ l) k out o =
    let e : pages' x ≡ pages x = o x (λ q. out.0 (sym q)) in
    let apart : i ≢ x = out.0 in
    (
      ap (λ p. p.paddr) e ∙ k.0,
      k.1,
      ground (arith, k.2),
      Spare-step pages pages' height i h l k.3 out.1 o,
    )

-- What the walk with create did: the tables are well-formed, they say the same, their valid entries
-- stay, new tables come from the list, bytes outside of tables stay, and the answer is where the entry is, or NULL where the list of free pages was too short.
pub record Walked (m : Memory) (s : Shape) (root level t va : ℕ) (l : List ℕ) (r : ℕ × Memory)
    : Type 0 where
  pub shape : Shape
  pub left : List ℕ
  pub mapped : IsMapped r.1 shape root left
  pub same : (w : ℕ) → w < 2 ^ 39 → view r.1.bytes 2 root w ≡ view m.bytes 2 root w
  pub entries :
      (u i : ℕ)
      → 0 < s.height u
      → i < 512
      → is_valid (get_word m.bytes (u + 8 * i)) ≡ true
      → get_word r.1.bytes (u + 8 * i) ≡ get_word m.bytes (u + 8 * i)
  pub kept :
      (c : ℕ) → ((u : ℕ) → 0 < shape.height u → (c < u) ⊎ (u + 4096 ≤ c)) → r.1.bytes c ≡ m.bytes c
  pub fresh : (u : ℕ) → s.height u ≡ 0 → Away u l → (shape.height u ≡ 0) × Away u left
  pub larger : (u : ℕ) → 0 < s.height u → 0 < shape.height u
  pub cost : length l ≤ length left + level
  pub answer : ((r.0 ≡ 0) × (length l < level)) ⊎ ((r.0 ≢ 0) × (slot r.1.bytes level t va ≡ r.0))

-- The first page of the list becomes the missing table.
module _ (m : Memory) (s : Shape) (root level t va i : ℕ) (l : List ℕ) (r : ℕ × Memory)
    (k : IsMapped m s root (i ∷ l)) (v : Serves s (suc level) t va)
    (missing : is_valid (get_word m.bytes (t + 8 * px (suc level) va)) ≡ false)
    (made : Allocated m i l r) where
  page_at : r.0 ≡ memory_start + 4096 * i
  page_at = made.address ∙ k.spare.0

  page-IsTable : IsTable r.0
  page-IsTable = rw page_at (record {
    aligned = omega arith;
    nonnull = λ e. omega arith;
    small = omega (arith, k.spare.1);
  })

  page_unused : s.height r.0 ≡ 0
  page_unused = rw page_at k.spare.2

  page_zeros : (j : ℕ) → j < 4096 → r.1.bytes (r.0 + j) ≡ 0
  page_zeros j h = rw made.address (made.cleared j h)

  page_kept : (c : ℕ) → (c < r.0) ⊎ (r.0 + 4096 ≤ c) → r.1.bytes c ≡ m.bytes c
  page_kept c h = made.kept c (rw made.address at h)

  abbrev joined : Memory
  joined = store r.1 (t + 8 * px (suc level) va) (pa_pte r.0 + 1)

  abbrev joined_shape : Shape
  joined_shape =
      grown s m.bytes r.1.bytes root t level va r.0 k.tree v missing page-IsTable page_unused
        page_zeros page_kept

  joined-IsMapped : IsMapped joined joined_shape root l
  joined-IsMapped = record {
    queue = record {
      links = made.queue.links;
      tail = made.queue.tail;
      distinct = made.queue.distinct;
      free = made.queue.free;
      unlocked = made.queue.unlocked;
    };
    tree =
        grown-IsTree s m.bytes r.1.bytes root t level va r.0 k.tree v missing page-IsTable
          page_unused page_zeros page_kept;
    spare = rw page_at (
        Spare-step m.pages r.1.pages s.height i (suc level) l k.spare.3 k.queue.distinct.0
          made.others);
  }

  joined-Serves : Serves joined_shape level r.0 va
  joined-Serves =
      grown-Serves s m.bytes r.1.bytes root t level va r.0 k.tree v missing page-IsTable page_unused
        page_zeros page_kept

  joined_old :
      (u j : ℕ)
      → 0 < s.height u
      → j < 512
      → is_valid (get_word m.bytes (u + 8 * j)) ≡ true
      → get_word joined.bytes (u + 8 * j) ≡ get_word m.bytes (u + 8 * j)
  joined_old u j h hj e =
      linked_old s m.bytes r.1.bytes root t level va r.0 k.tree v missing page-IsTable page_unused
        page_zeros page_kept u j h hj
        (elim (Bool-cases (u == t)) [
          | inl f ↦
              let at_t : u ≡ t = ground arith in
              inr (λ x.
                let both : is_valid (get_word m.bytes (t + 8 * px (suc level) va)) ≡ true =
                  rw (at_t, x) at e in
                ground arith)
          | inr f ↦ inl (λ x. ground arith)
        ])

  joined_entry : get_word joined.bytes (t + 8 * px (suc level) va) ≡ pa_pte r.0 + 1
  joined_entry =
      linked_entry s m.bytes r.1.bytes root t level va r.0 k.tree v missing page-IsTable page_unused
        page_zeros page_kept

  joined_entry-valid : is_valid (get_word joined.bytes (t + 8 * px (suc level) va)) ≡ true
  joined_entry-valid = rw (joined_entry, entry-valid r.0 1) refl

  -- The walk goes on from the new table.
  module _ (r' : ℕ × Memory) (w : Walked joined joined_shape root level r.0 va l r') where
    entry_after : get_word r'.1.bytes (t + 8 * px (suc level) va) ≡ pa_pte r.0 + 1
    entry_after =
        w.entries t (px (suc level) va) (ground (arith, v.height)) (px_below (suc level) va)
          joined_entry-valid
        ∙ joined_entry

    slot_after : slot r'.1.bytes (suc level) t va ≡ slot r'.1.bytes level r.0 va
    slot_after =
        let e : is_valid (get_word r'.1.bytes (t + 8 * px (suc level) va)) ≡ true =
          rw (entry_after, entry-valid r.0 1) refl in
        let target : pte_pa (get_word r'.1.bytes (t + 8 * px (suc level) va)) ≡ r.0 =
          ap pte_pa entry_after
          ∙ pte_pa-pa_pte r.0 1 page-IsTable.aligned page-IsTable.small (omega arith) in
        slot-valid r'.1.bytes level t va e ∙ rw target refl

    Walked-join : Walked m s root (suc level) t va (i ∷ l) r'
    Walked-join = record {
      shape = w.shape;
      left = w.left;
      mapped = w.mapped;
      same = λ x h.
          w.same x h
          ∙ grown-view s m.bytes r.1.bytes root t level va r.0 k.tree v missing page-IsTable
              page_unused page_zeros page_kept 2 root x (Serves-root s m.bytes root x k.tree h);
      entries = λ u j h hj e.
          let old = joined_old u j h hj e in w.entries u j (ground arith) hj (rw old e) ∙ old;
      kept = λ c away.
          let beside = away t (w.larger t (ground (arith, v.height))) in
          let index = px_below (suc level) va in
          w.kept c away
          ∙ set_word_outside r.1.bytes (t + 8 * px (suc level) va) (pa_pte r.0 + 1) c (ground arith)
          ∙ page_kept c (away r.0 (w.larger r.0 (ground arith)));
      fresh = λ u e away. w.fresh u (ground (arith, page_at)) away.1;
      larger = λ u h. w.larger u (ground arith);
      cost = omega (arith, w.cost);
      answer = elim w.answer [
        | inl n ↦ inl (n.0, omega (arith, n.1))
        | inr f ↦ inr (f.0, slot_after ∙ f.1)
      ];
    }

-- The walk goes through an entry that is there.
Walked-through :
    (m : Memory) (s : Shape) (root level t va : ℕ) (l : List ℕ) (r : ℕ × Memory)
    → Serves s (suc level) t va
    → is_valid (get_word m.bytes (t + 8 * px (suc level) va)) ≡ true
    → Walked m s root level (pte_pa (get_word m.bytes (t + 8 * px (suc level) va))) va l r
    → Walked m s root (suc level) t va l r
Walked-through m s root level t va l r v e w =
    let same_entry =
      w.entries t (px (suc level) va) (omega (arith, v.height)) (px_below (suc level) va) e in
    record {
      shape = w.shape;
      left = w.left;
      mapped = w.mapped;
      same = w.same;
      entries = w.entries;
      kept = w.kept;
      fresh = w.fresh;
      larger = w.larger;
      cost = omega (arith, w.cost);
      answer = elim w.answer [
        | inl n ↦ inl (n.0, omega (arith, n.1))
        | inr f ↦ inr (f.0, slot-valid r.1.bytes level t va (rw same_entry e) ∙ rw same_entry f.1)
      ];
    }

module _ (hart root va : ℕ) where
  -- The rest of the walk is given.
  walk_missing :
      (level t : ℕ) (m : Memory) (s : Shape) (l : List ℕ)
      → ((t' : ℕ) (m' : Memory) (s' : Shape) (l' : List ℕ)
          → IsMapped m' s' root l'
          → Serves s' level t' va
          → Returns (walk_from hart level t' va true m') (Walked m' s' root level t' va l'))
      → IsMapped m s root l
      → Serves s (suc level) t va
      → is_valid (get_word m.bytes (t + 8 * px (suc level) va)) ≡ false
      → Returns (walk_from hart (suc level) t va true m) (Walked m s root (suc level) t va l)
  unfolding walk_from
  walk_missing level t m s [] rest k v e = (
    (0, m),
    rw (walk_from, e, alloc_page_empty hart m k.queue, ◌>>=◌) refl,
    record {
      shape = s;
      left = [];
      mapped = k;
      same = λ w h. refl;
      entries = λ u i h b f. refl;
      kept = λ c away. refl;
      fresh = λ u e away. (e, away);
      larger = λ u h. h;
      cost = omega arith;
      answer = inl (refl, omega arith);
    },
  )
  walk_missing level t m s (i ∷ l) rest k v e =
      let (r, eq, made) = alloc_page-Allocated hart m i l k.queue in
      let nonnull : r.0 == 0 ≡ false =
        ground (arith, page_at m s root level t va i l r k v e made) in
      let (r', eq', w) =
        rest r.0 (joined m s root level t va i l r k v e made) _ l
          (joined-IsMapped m s root level t va i l r k v e made)
          (joined-Serves m s root level t va i l r k v e made) in
      (
        r',
        rw (walk_from, e, eq, ◌>>=◌, nonnull) eq',
        Walked-join m s root level t va i l r k v e made r' w,
      )

  pub walk_from-Walked :
      (level t : ℕ) (m : Memory) (s : Shape) (l : List ℕ)
      → IsMapped m s root l
      → Serves s level t va
      → Returns (walk_from hart level t va true m) (Walked m s root level t va l)
  unfolding walk_from slot
  walk_from-Walked zero t m s l k v = (
    (t + 8 * px 0 va, m),
    refl,
    record {
      shape = s;
      left = l;
      mapped = k;
      same = λ w h. refl;
      entries = λ u i h b e. refl;
      kept = λ c away. refl;
      fresh = λ u e away. (e, away);
      larger = λ u h. h;
      cost = omega arith;
      answer = inr (λ e. ground (arith, k.tree.tables t, v.height), refl);
    },
  )
  walk_from-Walked (suc level) t m s l k v =
      elim (Bool-cases (is_valid (get_word m.bytes (t + 8 * px (suc level) va)))) [
        | inl e ↦
            let (r, eq, w) =
              walk_from-Walked level _ m s l k
                (Serves-child s m.bytes root level t va k.tree v e) in
            (r, rw (walk_from, e) eq, Walked-through m s root level t va l r v e w)
        | inr e ↦ walk_missing level t m s l (walk_from-Walked level) k v e
      ]
