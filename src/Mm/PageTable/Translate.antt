-- ===== src/Mm/PageTable/Translate.antt =====
-- The reads of page tables: `va2pa` and `walkaddr` give what the entry says, and what `mappages` and
-- `kvminit` wrote.
use loeux_riscv.Base.{
  ℕ, zero, suc, ◌+◌, ◌-◌, ◌*◌, ◌/◌, ◌%◌, ◌^◌, ◌≤◌, ◌<◌, true, false, ◌&&◌, ◌==◌, ltb, leb,
  if◌then◌else◌, List, length, done, ◌>>=◌, Returns, ◌≡◌, inl, inr, refl, ◌∙◌, ap, arith,
  Bool-cases,
}
use loeux_riscv.Mm.Pages.{Memory}
use loeux_riscv.Mm.Words.{get_word}
use loeux_riscv.Mm.PageTable.{
  max_va, px, pte_pa, pa_pte, flag, pte_u, is_valid, with_valid, mappages, va2pa_from, va2pa,
  walkaddr_from, walkaddr,
}
use loeux_riscv.Mm.PageTable.View.{slot, view, pte_walk_look}
use loeux_riscv.Mm.PageTable.Shape.{Shape, Serves, IsTree, Serves-root, Serves-child}
use loeux_riscv.Mm.PageTable.Fresh.{view-valid, view-invalid, entry-valid, pte_pa-pa_pte}
use loeux_riscv.Mm.PageTable.Grow.{IsMapped}
use loeux_riscv.Mm.PageTable.Mapping.{IsClear, mappages-Mapped}

-- The physical address that an entry gives for `va`.
abbrev pub translate : ℕ → ℕ → ℕ
translate entry va = if is_valid entry then pte_pa entry + va % 4096 else 2 ^ 64 - 1

va2pa_from-view :
    (s : Shape) (root level t va : ℕ) (m : Memory)
    → IsTree s m.bytes root
    → Serves s level t va
    → va2pa_from level t va m ≡ translate (view m.bytes level t va) va
unfolding va2pa_from view slot
va2pa_from-view s root zero t va m k v =
    let table = k.tables t (omega (arith, v.height)) in
    let nonnull : t + 8 * px 0 va == 0 ≡ false = ground (arith, table.nonnull) in
    rw nonnull (ground arith)
va2pa_from-view s root (suc level) t va m k v =
    let p = get_word m.bytes (t + 8 * px (suc level) va) in
    elim (Bool-cases (is_valid p)) [
      | inl e ↦
          rw (va2pa_from, view-valid m.bytes level t va e, e)
            (va2pa_from-view s root level (pte_pa p) va m k
              (Serves-child s m.bytes root level t va k v e))
      | inr e ↦ rw (va2pa_from, view-invalid m.bytes level t va e, e) refl
    ]

-- va2pa reads the entry of the address.
pub va2pa-view :
    (root va : ℕ) (m : Memory) (s : Shape)
    → IsTree s m.bytes root
    → va < 2 ^ 39
    → va2pa root va m ≡ translate (view m.bytes 2 root va) va
unfolding va2pa
va2pa-view root va m s k h =
    va2pa_from-view s root 2 root va m k (Serves-root s m.bytes root va k h)

-- The physical address that an entry gives a user.
abbrev pub user_page : ℕ → ℕ
user_page entry = if is_valid entry && flag pte_u entry then pte_pa entry else 0

walkaddr_from-view :
    (hart root va : ℕ) (m : Memory)
    → va < max_va
    → walkaddr_from hart root va m ≡ done (user_page (view m.bytes 2 root va))
unfolding walkaddr_from view
walkaddr_from-view hart root va m h =
    let look = pte_walk_look hart root va m (omega arith) in
    let p = slot m.bytes 2 root va in
    let entry = get_word m.bytes p in
    elim (Bool-cases (p == 0)) [
      | inl e ↦ rw (walkaddr_from, look, ◌>>=◌, e) refl
      | inr e ↦ elim (Bool-cases (is_valid entry)) [
        | inr f ↦ rw (walkaddr_from, look, ◌>>=◌, e, f) refl
        | inl f ↦ elim (Bool-cases (flag pte_u entry)) [
          | inl g ↦ rw (walkaddr_from, look, ◌>>=◌, e, f, g) refl
          | inr g ↦ rw (walkaddr_from, look, ◌>>=◌, e, f, g) refl
        ]
      ]
    ]

-- walkaddr reads the entry of an address below MAX_VA.
pub walkaddr-view :
    (hart root va : ℕ) (m : Memory)
    → walkaddr hart root va m
      ≡ done (if ltb va max_va then user_page (view m.bytes 2 root va) else 0)
unfolding walkaddr
walkaddr-view hart root va m = elim (Bool-cases (ltb va max_va)) [
  | inl e ↦
      let inside : leb max_va va ≡ false = ground arith in
      rw (inside, e) (walkaddr_from-view hart root va m (ground arith))
  | inr e ↦ let outside : leb max_va va ≡ true = ground arith in rw (outside, e) refl
]

-- An entry as `mappages` writes it gives its page.
translate-entry :
    (pa perm va : ℕ)
    → pa % 4096 ≡ 0
    → pa < 2 ^ 56
    → perm < 2 ^ 10
    → translate (pa_pte pa + with_valid perm) va ≡ pa + va % 4096
translate-entry pa perm va h k small =
    let valid : is_valid (pa_pte pa + with_valid perm) ≡ true =
      entry-valid pa (with_valid perm) ∙ ground arith in
    let page : pte_pa (pa_pte pa + with_valid perm) ≡ pa =
      pte_pa-pa_pte pa (with_valid perm) h k (ground arith) in
    rw (valid, page) refl

-- Under the same conditions, with an aligned pa and at least 2 (n + 1) free pages, mappages
-- answers 0, and va2pa then translates every address w of the range to pa + (w - va).
pub va2pa-mappages :
    (hart root va pa n perm : ℕ) (m : Memory) (s : Shape) (l : List ℕ)
    → perm < 2 ^ 10
    → pa % 4096 ≡ 0
    → IsMapped m s root l
    → IsClear m root va pa (suc n)
    → 2 * suc n ≤ length l
    → Returns (mappages hart root va (4096 * suc n) pa perm m) (λ r.
      (r.0 ≡ true)
      × ((w : ℕ) → va ≤ w → w < va + 4096 * suc n → w < 2 ^ 39 → va2pa root w r.1 ≡ pa + (w - va)))
va2pa-mappages hart root va pa n perm m s l small aligned k clear enough =
    let (r, e, z) = mappages-Mapped hart root perm small va pa n m s l k clear in
    let all_done : (r.0 ≡ true) × (z.count ≡ suc n) = elim z.answer [
      | inl y ↦ y
      | inr y ↦ absurd (omega (arith, y.2))
    ] in
    (
      r,
      e,
      (
        all_done.0,
        λ w low high bound.
            let page = pa + (w - va) / 4096 * 4096 in
            let whole : page + w % 4096 ≡ pa + (w - va) = omega (arith, clear.aligned) in
            va2pa-view root w r.1 z.shape z.mapped.tree bound
            ∙ ap (λ x. translate x w) (z.inside w bound low (omega (arith, all_done.1)))
            ∙ translate-entry page perm w (omega arith) (omega (arith, clear.phys)) small
            ∙ whole,
      ),
    )
