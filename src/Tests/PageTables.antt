-- ===== src/Tests/PageTables.antt =====
-- A memory of zeros with the page 1 as root table and the pages 2 to 9 free.
use loeux_riscv.Base.{
  ℕ, ◌+◌, ◌-◌, ◌*◌, ◌^◌, ◌≤◌, ◌<◌, true, false, none, some, List, [], ◌∷◌, Returns, ◌≡◌, inl, inr,
  refl, arith, ltb, leb, ◌&&◌, if◌then◌else◌, ◌==◌,
}
use loeux_riscv.Mm.Pages.{Memory, memory_start}
use loeux_riscv.Mm.Pages.Laws.{IsQueue}
use loeux_riscv.Mm.Words.{get_word, get_word-zero}
use loeux_riscv.Mm.PageTable.{px, mappages, pg_unmap, va2pa}
use loeux_riscv.Mm.PageTable.View.{slot, view}
use loeux_riscv.Mm.PageTable.Shape.{Shape, IsTree}
use loeux_riscv.Mm.PageTable.Grow.{IsMapped}
use loeux_riscv.Mm.PageTable.Mapping.{IsClear, Mapped, mappages-Mapped}
use loeux_riscv.Mm.PageTable.Translate.{va2pa-mappages}
use loeux_riscv.Mm.PageTable.Unmap.{Unmapped, pg_unmap-Unmapped}
use loeux_riscv.Sync.Spinlock.{init_spinlock}

abbrev pub blank : Memory
blank = record {
  pages = λ i. record {
    paddr = memory_start + 4096 * i;
    refcount = if leb 2 i && ltb i 10 then 0 else 1;
    flags = if leb 2 i && ltb i 10 then 0 else 2;
    slab = 0;
    prev = none;
    next = if leb 2 i && ltb i 9 then some (i + 1) else none;
  };
  free_head = some 2;
  free_tail = some 9;
  free_start_at = memory_start + 4096;
  free_end_at = memory_start + 4096 * 10;
  lock = init_spinlock;
  bytes = λ a. 0;
}

abbrev pub root : ℕ
root = memory_start + 4096

abbrev pub spare_pages : List ℕ
spare_pages = 2 ∷ 3 ∷ 4 ∷ 5 ∷ 6 ∷ 7 ∷ 8 ∷ 9 ∷ []

abbrev pub root_only : Shape
root_only = record { height = λ t. if t == root then 3 else 0; prefix = λ t. 0 }

pub blank-IsQueue : IsQueue blank spare_pages
blank-IsQueue = record {
  links = (refl, (refl, (refl, (refl, (refl, (refl, (refl, (refl, refl))))))));
  tail = refl;
  distinct = ground arith;
  free = (
    refl,
    refl,
    (
      refl,
      refl,
      (refl, refl, (refl, refl, (refl, refl, (refl, refl, (refl, refl, (refl, refl, tt)))))),
    ),
  );
  unlocked = refl;
}

blank_word : (a : ℕ) → get_word (λ k. 0) a ≡ 0
blank_word a = get_word-zero (λ k. 0) a (λ k low high. refl)

root_only-IsTree : IsTree root_only blank.bytes root
root_only-IsTree = record {
  tables = λ t h.
      let here : t ≡ root = ground arith in
      rw here (record { aligned = refl; nonnull = λ e. omega arith; small = omega arith });
  heights = λ t. ground arith;
  root_height = refl;
  root_prefix = refl;
  children = λ t level i h hi e. absurd (ground (arith, blank_word (t + 8 * i)));
}

pub blank-IsMapped : IsMapped blank root_only root spare_pages
blank-IsMapped = record {
  queue = blank-IsQueue;
  tree = root_only-IsTree;
  spare = (
    refl,
    omega arith,
    refl,
    (
      refl,
      omega arith,
      refl,
      (
        refl,
        omega arith,
        refl,
        (
          refl,
          omega arith,
          refl,
          (
            refl,
            omega arith,
            refl,
            (refl, omega arith, refl, (refl, omega arith, refl, (refl, omega arith, refl, tt))),
          ),
        ),
      ),
    ),
  );
}

pub no_entry : (va : ℕ) → view blank.bytes 2 root va ≡ 0
unfolding view slot
no_entry va = rw (blank_word (root + 8 * px 2 va)) refl

blank-IsClear : IsClear blank root 0x4000 0x9000_0000 2
blank-IsClear = record {
  aligned = refl;
  top = omega arith;
  phys = omega arith;
  unmapped = λ w low high bound. rw (no_entry w) refl;
}

mappages-Mapped_example :
    Returns
      (mappages 0 root 0x4000 0x2000 0x9000_0000 22 blank)
      (Mapped blank root_only root 0x4000 0x9000_0000 22 2 spare_pages)
mappages-Mapped_example =
    mappages-Mapped 0 root 22 (omega arith) 0x4000 0x9000_0000 1 blank root_only spare_pages
      blank-IsMapped blank-IsClear

va2pa-mappages_example : Returns (mappages 0 root 0x4000 0x2000 0x9000_0000 22 blank) (λ r.
    (r.0 ≡ true)
    × ((w : ℕ)
        → 0x4000 ≤ w
        → w < 0x6000
        → w < 2 ^ 39
        → va2pa root w r.1 ≡ 0x9000_0000 + (w - 0x4000)))
va2pa-mappages_example =
    va2pa-mappages 0 root 0x4000 0x9000_0000 1 22 blank root_only spare_pages (omega arith) refl
      blank-IsMapped blank-IsClear (omega arith)

-- Two pages are mapped.
pub mapping_run :
    Returns
      (mappages 0 root 0x4000 0x2000 0x9000_0000 22 blank)
      (Mapped blank root_only root 0x4000 0x9000_0000 22 2 spare_pages)
mapping_run =
    mappages-Mapped 0 root 22 (omega arith) 0x4000 0x9000_0000 1 blank root_only spare_pages
      blank-IsMapped blank-IsClear

abbrev pub two_pages : Memory
two_pages = mapping_run.0.1

pub two_pages-Mapped : Mapped blank root_only root 0x4000 0x9000_0000 22 2 spare_pages mapping_run.0
two_pages-Mapped = mapping_run.2

pub all_mapped : two_pages-Mapped.count ≡ 2
all_mapped = elim two_pages-Mapped.answer [ inl y ↦ y.1 | inr y ↦ absurd (omega (arith, y.2)) ]

pg_unmap-Unmapped_example :
    Returns
      (pg_unmap 0 root 0x4000 2 false two_pages)
      (Unmapped two_pages two_pages-Mapped.shape root 0x4000 2 two_pages-Mapped.left)
pg_unmap-Unmapped_example =
    pg_unmap-Unmapped 0 root 2 0x4000 two_pages two_pages-Mapped.shape two_pages-Mapped.left
      two_pages-Mapped.mapped refl (omega arith)
