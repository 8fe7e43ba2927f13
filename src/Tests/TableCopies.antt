-- ===== src/Tests/TableCopies.antt =====
-- A page of a user is copied to the tables of a new task, whose root is the empty page 20.
use loeux_riscv.Base.{
  ℕ, ◌+◌, ◌-◌, ◌*◌, ◌/◌, ◌≤◌, ◌<◌, true, List, [], ◌∷◌, done, ◌≡◌, ◌≢◌, refl, ap, ◌∙◌, arith,
  if◌then◌else◌, ◌==◌,
}
use loeux_riscv.Mm.Pages.{Page, Memory, memory_start}
use loeux_riscv.Mm.Words.{get_word, get_word-zero}
use loeux_riscv.Mm.PageTable.{pte_pa, pa_pte, px}
use loeux_riscv.Mm.PageTable.View.{view}
use loeux_riscv.Mm.PageTable.Shape.{Shape, IsTree, px_below}
use loeux_riscv.Mm.PageTable.Fresh.{pte_pa-pa_pte, view-invalid}
use loeux_riscv.Mm.PageTable.Grow.{Spare, Away, IsMapped}
use loeux_riscv.Mm.TableCopy.{vm_pagetbl_copy_asign}
use loeux_riscv.Mm.TableCopy.Frame.{IsApart}
use loeux_riscv.Mm.TableCopy.Laws.{IsCopyable, Copied, vm_pagetbl_copy_asign-Copied}
use loeux_riscv.Tests.PageTables.{root, spare_pages, two_pages, two_pages-Mapped, all_mapped}

abbrev child : ℕ
child = memory_start + 4096 * 20

abbrev child_only : Shape
child_only = record { height = λ t. if t == child then 3 else 0; prefix = λ t. 0 }

abbrev parent : Shape
parent = two_pages-Mapped.shape

abbrev free_pages : List ℕ
free_pages = two_pages-Mapped.left

away : (u : ℕ) → memory_start + 4096 * 10 ≤ u → Away u spare_pages
away u h = (
  (λ e. omega arith),
  (
    (λ e. omega arith),
    (
      (λ e. omega arith),
      (
        (λ e. omega arith),
        ((λ e. omega arith), ((λ e. omega arith), ((λ e. omega arith), ((λ e. omega arith), tt)))),
      ),
    ),
  ),
)

child_free : (parent.height child ≡ 0) × Away child free_pages
child_free = two_pages-Mapped.fresh child refl (away child (omega arith))

child_zero : (k : ℕ) → k < 4096 → two_pages.bytes (child + k) ≡ 0
child_zero k h = two_pages-Mapped.kept (child + k) (λ t ht.
    let table = two_pages-Mapped.mapped.tree.tables t ht in
    let d : t ≢ child = λ e. ground (arith, child_free.0) in ground (arith, table.aligned))

child_word : (i : ℕ) → i < 512 → get_word two_pages.bytes (child + 8 * i) ≡ 0
child_word i h = get_word-zero two_pages.bytes (child + 8 * i) (λ k low high.
    let e : child + (k - child) ≡ k = omega arith in rw e at (child_zero (k - child) (omega arith)))

child_only-IsTree : IsTree child_only two_pages.bytes child
child_only-IsTree = record {
  tables = λ t h.
      let here : t ≡ child = ground arith in
      rw here (record { aligned = refl; nonnull = λ e. omega arith; small = omega arith });
  heights = λ t. ground arith;
  root_height = refl;
  root_prefix = refl;
  children = λ t level i h hi e.
      let here : t ≡ child = ground arith in
      let word : get_word two_pages.bytes (t + 8 * i) ≡ 0 = rw here (child_word i hi) in
      absurd (ground arith);
}

Spare-child :
    (pages : ℕ → Page) (height : ℕ → ℕ) (l : List ℕ)
    → Spare pages height l
    → Away child l
    → Spare pages child_only.height l
Spare-child pages height [] k out = tt
Spare-child pages height (i ∷ l) k out =
    (k.0, k.1, ground (arith, out.0), Spare-child pages height l k.3 out.1)

Away-table :
    (pages : ℕ → Page) (height : ℕ → ℕ) (u : ℕ) (l : List ℕ)
    → Spare pages height l
    → 0 < height u
    → Away u l
Away-table pages height u [] k h = tt
Away-table pages height u (i ∷ l) k h =
    ((λ e. ground (arith, k.2)), Away-table pages height u l k.3 h)

child-IsMapped : IsMapped two_pages child_only child free_pages
child-IsMapped = record {
  queue = two_pages-Mapped.mapped.queue;
  tree = child_only-IsTree;
  spare =
      Spare-child two_pages.pages parent.height free_pages two_pages-Mapped.mapped.spare
        child_free.1;
}

parent-IsApart : IsApart two_pages child_only free_pages parent root
parent-IsApart = record {
  tree = two_pages-Mapped.mapped.tree;
  other = λ u h. (
    (two_pages-Mapped.mapped.tree.tables u h).aligned,
    ground (arith, child_free.0),
    Away-table two_pages.pages parent.height u free_pages two_pages-Mapped.mapped.spare h,
  );
}

child_empty : (w : ℕ) → view two_pages.bytes 2 child w ≡ 0
child_empty w =
    let word = child_word (px 2 w) (px_below 2 w) in
    view-invalid two_pages.bytes 1 child w (rw word refl)

one_page-IsCopyable : IsCopyable two_pages child_only root child 0x5000 1 free_pages
one_page-IsCopyable = record {
  aligned = refl;
  top = omega arith;
  unmapped = λ w low high. rw (child_empty w) refl;
  pages = λ w low high e.
      let entry : view two_pages.bytes 2 root w
          ≡ pa_pte (0x9000_0000 + (w - 0x4000) / 4096 * 4096) + 23 =
        two_pages-Mapped.inside w (omega arith) (omega arith) (omega (arith, all_mapped)) in
      let at : 0x9000_0000 + (w - 0x4000) / 4096 * 4096 ≡ 0x9000_1000 = omega arith in
      let page : pte_pa (view two_pages.bytes 2 root w) ≡ 0x9000_1000 =
        ap pte_pa entry
        ∙ ap (λ x. pte_pa (pa_pte x + 23)) at
        ∙ pte_pa-pa_pte 0x9000_1000 23 refl (omega arith) (omega arith) in
      let free = two_pages-Mapped.fresh 0x9000_1000 refl (away 0x9000_1000 (omega arith)) in
      rw page (refl, refl, free.1);
}

vm_pagetbl_copy_asign-Copied_example :
    (m' : Memory) × (vm_pagetbl_copy_asign 0 root child 0x5000 (4096 * 1) two_pages
      ≡ done (true, m'))
    × Copied two_pages child_only root child 0x5000 1 free_pages m'
vm_pagetbl_copy_asign-Copied_example =
    vm_pagetbl_copy_asign-Copied 0 root child parent 1 0x5000 two_pages child_only free_pages
      child-IsMapped parent-IsApart one_page-IsCopyable (omega (arith, two_pages-Mapped.cost))
