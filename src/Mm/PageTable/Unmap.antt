-- ===== src/Mm/PageTable/Unmap.antt =====
-- `pg_unmap` without freeing takes the entries of a range away.
use loeux_riscv.Base.{
  ℕ, zero, suc, ◌+◌, ◌*◌, ◌/◌, ◌%◌, ◌^◌, ◌≤◌, ◌<◌, true, false, ◌||◌, ◌==◌, not, ltb, if◌then◌else◌,
  List, ◌>>=◌, Returns, ◌≡◌, ◌≢◌, ◌⊎◌, inl, inr, refl, ◌∙◌, ap, arith, Bool-cases,
}
use loeux_riscv.Mm.Pages.{Memory}
use loeux_riscv.Mm.Words.{get_word}
use loeux_riscv.Mm.PageTable.{max_va, is_valid, unmap_page, unmap_loop, pg_unmap}
use loeux_riscv.Mm.PageTable.View.{slot, view, pte_walk_look}
use loeux_riscv.Mm.PageTable.Shape.{Shape}
use loeux_riscv.Mm.PageTable.Leaf.{slot_page}
use loeux_riscv.Mm.PageTable.Grow.{IsMapped}
use loeux_riscv.Mm.PageTable.Mapping.{
  view-slot, entered, entered-IsMapped, entered_here, entered_other,
}

-- The entry of an unmapped page: 0, or what it was where it was not valid.
abbrev pub cleared_entry : ℕ → ℕ
cleared_entry entry = if is_valid entry then 0 else entry

-- What unmapping `n` pages from `a` on did.
pub record Unmapped (m : Memory) (s : Shape) (root a n : ℕ) (l : List ℕ) (r : Memory) : Type 0 where
  pub mapped : IsMapped r s root l
  pub inside :
      (w : ℕ)
      → w < 2 ^ 39
      → a ≤ w
      → w < a + 4096 * n
      → view r.bytes 2 root w ≡ cleared_entry (view m.bytes 2 root w)
  pub outside :
      (w : ℕ)
      → w < 2 ^ 39
      → (w < a) ⊎ (a + 4096 * n ≤ w)
      → view r.bytes 2 root w ≡ view m.bytes 2 root w

pub view-page :
    (b : ℕ → ℕ) (root va w : ℕ) → va / 4096 ≡ w / 4096 → view b 2 root va ≡ view b 2 root w
unfolding view
view-page b root va w e = rw (slot_page b 2 root va w (omega arith) e) refl

pub view-none : (b : ℕ → ℕ) (root va : ℕ) → slot b 2 root va ≡ 0 → view b 2 root va ≡ 0
unfolding view
view-none b root va e = rw e refl

module _ (hart root : ℕ) where
  unmap_nothing :
      (a : ℕ) (m : Memory)
      → slot m.bytes 2 root a == 0 || not (is_valid (get_word m.bytes (slot m.bytes 2 root a)))
        ≡ true
      → is_valid (view m.bytes 2 root a) ≡ false
  unmap_nothing a m e = elim (Bool-cases (slot m.bytes 2 root a == 0)) [
    | inl z ↦ rw (view-none m.bytes root a (ground arith)) refl
    | inr z ↦ rw (view-slot m.bytes root a (λ x. ground arith)) (ground arith)
  ]

  unmap_page-Unmapped :
      (a : ℕ) (m : Memory) (s : Shape) (l : List ℕ)
      → IsMapped m s root l
      → a % 4096 ≡ 0
      → a ≤ max_va
      → Returns (unmap_page hart root a false m) (Unmapped m s root a 1 l)
  unfolding unmap_page
  unmap_page-Unmapped a m s l k aligned h =
      let look = pte_walk_look hart root a m h in
      let p = slot m.bytes 2 root a in
      elim (Bool-cases (p == 0 || not (is_valid (get_word m.bytes p)))) [
        | inl e ↦ (
          m,
          rw (unmap_page, look, ◌>>=◌) (ground arith),
          record {
            mapped = k;
            inside = λ w bound low high.
                let in_page : w / 4096 ≡ a / 4096 = omega arith in
                rw (view-page m.bytes root w a in_page, unmap_nothing a m e) refl;
            outside = λ w bound away. refl;
          },
        )
        | inr e ↦
            let there : p ≢ 0 = λ x. ground arith in
            let null : p == 0 ≡ false = ground arith in
            let valid : is_valid (get_word m.bytes p) ≡ true = ground arith in
            (
              entered m s root a 0 l k (omega arith) there (omega arith),
              rw (unmap_page, look, ◌>>=◌, null, valid) refl,
              record {
                mapped = entered-IsMapped m s root a 0 l k (omega arith) there (omega arith);
                inside = λ w bound low high.
                    let in_page : w / 4096 ≡ a / 4096 = omega arith in
                    entered_here m s root a 0 l k (omega arith) there (omega arith) w bound in_page
                    ∙ rw (view-page m.bytes root w a in_page, view-slot m.bytes root a there, valid)
                        refl;
                outside = λ w bound away.
                    entered_other m s root a 0 l k (omega arith) there (omega arith) w bound
                      (λ x. omega arith);
              },
            )
      ]

  -- The loop over the pages.
  unmap_loop-Unmapped :
      (n a : ℕ) (m : Memory) (s : Shape) (l : List ℕ)
      → IsMapped m s root l
      → a % 4096 ≡ 0
      → a + 4096 * n ≤ max_va + 4096
      → Returns (unmap_loop hart root a false n m) (Unmapped m s root a n l)
  unfolding unmap_loop
  unmap_loop-Unmapped zero a m s l k aligned top = (
    m,
    refl,
    record {
      mapped = k;
      inside = λ w bound low high. absurd (omega arith);
      outside = λ w bound away. refl;
    },
  )
  unmap_loop-Unmapped (suc n) a m s l k aligned top =
      let (m₁, e₁, u₁) = unmap_page-Unmapped a m s l k aligned (omega arith) in
      let (m₂, e₂, u₂) =
        unmap_loop-Unmapped n (a + 4096) m₁ s l u₁.mapped (omega arith) (omega arith) in
      (
        m₂,
        rw (unmap_loop, e₁, ◌>>=◌) e₂,
        record {
          mapped = u₂.mapped;
          inside = λ w bound low high. elim (Bool-cases (ltb w (a + 4096))) [
            | inl f ↦ u₂.outside w bound (inl (ground arith)) ∙ u₁.inside w bound low (ground arith)
            | inr f ↦
                u₂.inside w bound (ground arith) (ground arith)
                ∙ ap cleared_entry (u₁.outside w bound (inr (ground arith)))
          ];
          outside =
              λ w bound away. u₂.outside w bound (ground arith) ∙ u₁.outside w bound (ground arith);
        },
      )

  -- For well-formed page tables and n aligned pages up to 2^38 + 4096, pg_unmap without freeing
  -- returns with well-formed tables and the same free pages, in which each valid entry of the
  -- range is 0 and all other entries are as they were.
  pub pg_unmap-Unmapped :
      (n va : ℕ) (m : Memory) (s : Shape) (l : List ℕ)
      → IsMapped m s root l
      → va % 4096 ≡ 0
      → va + 4096 * n ≤ max_va + 4096
      → Returns (pg_unmap hart root va n false m) (Unmapped m s root va n l)
  unfolding pg_unmap
  pg_unmap-Unmapped n va m s l k aligned top =
      let e : va % 4096 == 0 ≡ true = ground arith in
      let (r, f, u) = unmap_loop-Unmapped n va m s l k aligned top in (r, rw (pg_unmap, e) f, u)
