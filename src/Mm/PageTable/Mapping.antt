-- ===== src/Mm/PageTable/Mapping.antt =====
-- `mappages` refines the update of a map from pages of addresses to entries.
use loeux_riscv.Base.{
  ℕ, zero, suc, ◌+◌, ◌-◌, ◌*◌, ◌/◌, ◌%◌, ◌^◌, ◌≤◌, ◌<◌, Bool, true, false, ◌==◌, ltb, List, length,
  done, ◌>>=◌, Returns, ◌≡◌, ◌≢◌, ◌⊎◌, inl, inr, refl, sym, ◌∙◌, ap, arith, Bool-cases,
}
use loeux_riscv.Mm.Pages.{Memory}
use loeux_riscv.Mm.Words.{get_word, set_word_outside}
use loeux_riscv.Mm.PageTable.{
  max_va, pa_pte, is_valid, with_valid, store, pte_walk, map_loop, mappages,
}
use loeux_riscv.Mm.PageTable.View.{slot, view}
use loeux_riscv.Mm.PageTable.Shape.{Shape, Serves-root, slot-leaf, px_below}
use loeux_riscv.Mm.PageTable.Grow.{IsMapped, Away, Walked, walk_from-Walked}
use loeux_riscv.Mm.PageTable.Leaf.{written-IsTree, written-view_here, written-view_other}

pub view-slot :
    (b : ℕ → ℕ) (root va : ℕ)
    → slot b 2 root va ≢ 0
    → view b 2 root va ≡ get_word b (slot b 2 root va)
unfolding view
view-slot b root va h = let e : slot b 2 root va == 0 ≡ false = ground arith in rw e refl

pub pte_walk-Walked :
    (hart root va : ℕ) (m : Memory) (s : Shape) (l : List ℕ)
    → IsMapped m s root l
    → va ≤ max_va
    → Returns (pte_walk hart root va true m) (Walked m s root 2 root va l)
unfolding pte_walk
pte_walk-Walked hart root va m s l k h =
    let e : ltb max_va va ≡ false = ground arith in
    rw e (
      walk_from-Walked hart root va 2 root m s l k
        (Serves-root s m.bytes root va k.tree (omega arith)))

-- A write to the entry of `va`.
module _ (m : Memory) (s : Shape) (root va v : ℕ) (l : List ℕ) (k : IsMapped m s root l)
    (bound : va < 2 ^ 39) (there : slot m.bytes 2 root va ≢ 0) (word : v < 2 ^ 64) where
  abbrev pub entered : Memory
  entered = store m (slot m.bytes 2 root va) v

  pub entered-IsMapped : IsMapped entered s root l
  entered-IsMapped = record {
    queue = record {
      links = k.queue.links;
      tail = k.queue.tail;
      distinct = k.queue.distinct;
      free = k.queue.free;
      unlocked = k.queue.unlocked;
    };
    tree = written-IsTree s m.bytes root va v k.tree bound there word;
    spare = k.spare;
  }

  pub entered_here : (w : ℕ) → w < 2 ^ 39 → w / 4096 ≡ va / 4096 → view entered.bytes 2 root w ≡ v
  entered_here = written-view_here s m.bytes root va v k.tree bound there word

  pub entered_other :
      (w : ℕ)
      → w < 2 ^ 39
      → w / 4096 ≢ va / 4096
      → view entered.bytes 2 root w ≡ view m.bytes 2 root w
  entered_other = written-view_other s m.bytes root va v k.tree bound there word

-- The entry of the `w` of a range from `a` on that is mapped to `pa` on.
abbrev pub entry_of : ℕ → ℕ → ℕ → ℕ → ℕ
entry_of a pa perm w = pa_pte (pa + (w - a) / 4096 * 4096) + with_valid perm

-- What mapping `n` pages from `a` on did: `count` pages from `a` on have their entries, all other
-- entries are as they were; new tables come from the list, and bytes outside of tables stay;
-- either all pages are mapped, or the free pages ran out.
pub record Mapped (m : Memory) (s : Shape) (root a pa perm n : ℕ) (l : List ℕ) (r : Bool × Memory)
    : Type 0 where
  pub shape : Shape
  pub left : List ℕ
  pub mapped : IsMapped r.1 shape root left
  pub count : ℕ
  pub inside :
      (w : ℕ)
      → w < 2 ^ 39
      → a ≤ w
      → w < a + 4096 * count
      → view r.1.bytes 2 root w ≡ entry_of a pa perm w
  pub outside :
      (w : ℕ)
      → w < 2 ^ 39
      → (w < a) ⊎ (a + 4096 * count ≤ w)
      → view r.1.bytes 2 root w ≡ view m.bytes 2 root w
  pub kept :
      (c : ℕ) → ((u : ℕ) → 0 < shape.height u → (c < u) ⊎ (u + 4096 ≤ c)) → r.1.bytes c ≡ m.bytes c
  pub fresh : (u : ℕ) → s.height u ≡ 0 → Away u l → (shape.height u ≡ 0) × Away u left
  pub larger : (u : ℕ) → 0 < s.height u → 0 < shape.height u
  pub cost : length l ≤ length left + 2 * n
  pub answer : ((r.0 ≡ true) × (count ≡ n)) ⊎ ((r.0 ≡ false) × (count < n) × (length l < 2 * n))

-- No page of the range has a valid entry, and the range keeps the limits of the code.
pub record IsClear (m : Memory) (root a pa n : ℕ) : Type 0 where
  pub aligned : a % 4096 ≡ 0
  pub top : a + 4096 * n ≤ max_va + 4096
  pub phys : pa + 4096 * n ≤ 2 ^ 56
  pub unmapped :
      (w : ℕ) → a ≤ w → w < a + 4096 * n → w < 2 ^ 39 → is_valid (view m.bytes 2 root w) ≡ false

entry_small : (pa perm : ℕ) → pa < 2 ^ 56 → perm < 2 ^ 10 → pa_pte pa + with_valid perm < 2 ^ 64
unfolding pa_pte
entry_small pa perm h p = ground arith

module _ (hart root perm : ℕ) (small : perm < 2 ^ 10) where
  -- The first page is mapped, the rest of the loop follows.
  module _ (a pa n : ℕ) (m : Memory) (s : Shape) (l : List ℕ) (clear : IsClear m root a pa (suc n))
      (r : ℕ × Memory) (w : Walked m s root 2 root a l r) (found : r.0 ≢ 0)
      (at : slot r.1.bytes 2 root a ≡ r.0) where
    there : slot r.1.bytes 2 root a ≢ 0
    there = λ e. found (sym at ∙ e)

    abbrev pub after_first : Memory
    after_first = store r.1 (slot r.1.bytes 2 root a) (pa_pte pa + with_valid perm)

    word_small : pa_pte pa + with_valid perm < 2 ^ 64
    word_small = entry_small pa perm (omega (arith, clear.phys)) small

    pub first-IsMapped : IsMapped after_first w.shape root w.left
    first-IsMapped =
        entered-IsMapped r.1 w.shape root a _ w.left w.mapped (omega (arith, clear.top)) there
          word_small

    pub first_here :
        (x : ℕ)
        → x < 2 ^ 39
        → x / 4096 ≡ a / 4096
        → view after_first.bytes 2 root x ≡ pa_pte pa + with_valid perm
    first_here =
        entered_here r.1 w.shape root a _ w.left w.mapped (omega (arith, clear.top)) there
          word_small

    pub first_other :
        (x : ℕ)
        → x < 2 ^ 39
        → x / 4096 ≢ a / 4096
        → view after_first.bytes 2 root x ≡ view m.bytes 2 root x
    first_other x h d =
        entered_other r.1 w.shape root a _ w.left w.mapped (omega (arith, clear.top)) there
          word_small x h d
        ∙ w.same x h

    pub first-IsClear : IsClear after_first root (a + 4096) (pa + 4096) n
    first-IsClear = record {
      aligned = omega (arith, clear.aligned);
      top = omega (arith, clear.top);
      phys = omega (arith, clear.phys);
      unmapped = λ x low high h.
          rw (first_other x h (λ e. omega (arith, clear.aligned)))
            (clear.unmapped x (omega arith) (omega arith) h);
    }

    -- The loop finds the entry free, writes it and goes on.
    pub map_loop_first :
        (more : ℕ)
        → pte_walk hart root a true m ≡ done r
        → map_loop hart root a pa perm (suc more) m
          ≡ map_loop hart root (a + 4096) (pa + 4096) perm more after_first
    unfolding map_loop
    map_loop_first more e =
        let nonnull : r.0 == 0 ≡ false = ground arith in
        let entry : get_word r.1.bytes r.0 ≡ view m.bytes 2 root a =
          ap (get_word r.1.bytes) (sym at)
          ∙ sym (view-slot r.1.bytes root a there)
          ∙ w.same a (omega (arith, clear.top)) in
        let free : is_valid (get_word r.1.bytes r.0) ≡ false =
          rw entry (clear.unmapped a (omega arith) (omega arith) (omega (arith, clear.top))) in
        let va_step : (a + 4096) % 2 ^ 64 ≡ a + 4096 = omega (arith, clear.top) in
        let pa_step : (pa + 4096) % 2 ^ 64 ≡ pa + 4096 = omega (arith, clear.phys) in
        rw (map_loop, e, ◌>>=◌, nonnull, free, va_step, pa_step, at) refl

    first_kept :
        (c : ℕ)
        → ((u : ℕ) → 0 < w.shape.height u → (c < u) ⊎ (u + 4096 ≤ c))
        → after_first.bytes c ≡ r.1.bytes c
    first_kept c away =
        let tree = w.mapped.tree in
        let serves = Serves-root w.shape r.1.bytes root a tree (omega (arith, clear.top)) in
        let (u, v, e) = slot-leaf w.shape r.1.bytes root 2 root a tree serves there in
        let beside = away u (omega (arith, v.height)) in
        set_word_outside r.1.bytes (slot r.1.bytes 2 root a) (pa_pte pa + with_valid perm) c
          (ground (arith, px_below 0 a))

    Mapped-first :
        (r₂ : Bool × Memory)
        → Mapped after_first w.shape root (a + 4096) (pa + 4096) perm n w.left r₂
        → Mapped m s root a pa perm (suc n) l r₂
    Mapped-first r₂ z = record {
      shape = z.shape;
      left = z.left;
      mapped = z.mapped;
      count = suc z.count;
      inside = λ x h low high. elim (Bool-cases (ltb x (a + 4096))) [
        | inl e ↦
            let offset : pa + (x - a) / 4096 * 4096 ≡ pa = ground arith in
            z.outside x h (inl (ground arith))
            ∙ first_here x h (ground (arith, clear.aligned))
            ∙ ap (λ y. pa_pte y + with_valid perm) (sym offset)
        | inr e ↦
            let offset : pa + 4096 + (x - (a + 4096)) / 4096 * 4096 ≡ pa + (x - a) / 4096 * 4096 =
              ground arith in
            z.inside x h (ground arith) (ground arith) ∙ ap (λ y. pa_pte y + with_valid perm) offset
      ];
      outside = λ x h away.
          z.outside x h (ground arith) ∙ first_other x h (λ e. ground (arith, clear.aligned));
      kept = λ c away.
          z.kept c away
          ∙ first_kept c (λ u h. away u (z.larger u h))
          ∙ w.kept c (λ u h. away u (z.larger u h));
      fresh = λ u e away. let f = w.fresh u e away in z.fresh u f.0 f.1;
      larger = λ u h. z.larger u (w.larger u h);
      cost = omega (arith, z.cost, w.cost);
      answer = elim z.answer [
        | inl y ↦ inl (y.0, ap suc y.1)
        | inr y ↦ inr (y.0, omega (arith, y.1), omega (arith, y.2, w.cost))
      ];
    }

  pub map_loop-Mapped :
      (a pa n : ℕ) (m : Memory) (s : Shape) (l : List ℕ)
      → IsMapped m s root l
      → IsClear m root a pa n
      → Returns (map_loop hart root a pa perm n m) (Mapped m s root a pa perm n l)
  unfolding map_loop
  map_loop-Mapped a pa zero m s l k clear = (
    (true, m),
    refl,
    record {
      shape = s;
      left = l;
      mapped = k;
      count = 0;
      inside = λ w h low high. absurd (omega arith);
      outside = λ w h away. refl;
      kept = λ c away. refl;
      fresh = λ u e away. (e, away);
      larger = λ u h. h;
      cost = omega arith;
      answer = inl (refl, refl);
    },
  )
  map_loop-Mapped a pa (suc n) m s l k clear =
      let (r, e, w) = pte_walk-Walked hart root a m s l k (omega (arith, clear.top)) in
      elim w.answer [
        | inl none_left ↦ (
          (false, r.1),
          rw (map_loop, e, ◌>>=◌, none_left.0) refl,
          record {
            shape = w.shape;
            left = w.left;
            mapped = w.mapped;
            count = 0;
            inside = λ x h low high. absurd (omega arith);
            outside = λ x h away. w.same x h;
            kept = w.kept;
            fresh = w.fresh;
            larger = w.larger;
            cost = omega (arith, w.cost);
            answer = inr (refl, omega arith, omega (arith, none_left.1));
          },
        )
        | inr found ↦
            let (r₂, e₂, z) =
              map_loop-Mapped (a + 4096) (pa + 4096) n
                (after_first a pa n m s l clear r w found.0 found.1) w.shape w.left
                (first-IsMapped a pa n m s l clear r w found.0 found.1)
                (first-IsClear a pa n m s l clear r w found.0 found.1) in
            (
              r₂,
              map_loop_first a pa n m s l clear r w found.0 found.1 n e ∙ e₂,
              Mapped-first a pa n m s l clear r w found.0 found.1 r₂ z,
            )
      ]

  -- For well-formed page tables, flags below 2^10 and a range of n + 1 pages, aligned, up to 2^38
  -- + 4096, without valid entries, to physical addresses up to 2^56, mappages returns with well-
  -- formed tables in which a number of pages from va on have the entries of their physical pages
  -- with the flags and PTE_V, and every other address below 2^39 has the entry that it had. Either
  -- the answer is 0 and all n + 1 pages are mapped, or it is -1, fewer are, and there were less
  -- than 2 (n + 1) free pages. New tables come from the free list, and bytes outside of tables
  -- stay.
  pub mappages-Mapped :
      (va pa n : ℕ) (m : Memory) (s : Shape) (l : List ℕ)
      → IsMapped m s root l
      → IsClear m root va pa (suc n)
      → Returns
          (mappages hart root va (4096 * suc n) pa perm m)
          (Mapped m s root va pa perm (suc n) l)
  unfolding mappages
  mappages-Mapped va pa n m s l k clear =
      let (r, e, z) = map_loop-Mapped va pa (suc n) m s l k clear in
      let aligned : va % 4096 == 0 ≡ true = ground (arith, clear.aligned) in
      let whole : 4096 * suc n % 4096 == 0 ≡ true = ground arith in
      let some_size : 4096 * suc n == 0 ≡ false = ground arith in
      let count : 4096 * suc n / 4096 ≡ suc n = omega arith in
      (r, rw (mappages, aligned, whole, some_size, count) e, z)
