-- ===== src/Mm/Slab/Storage.antt =====
-- The objects that a new slab gets from a page.
use loeux_riscv.Base.{
  ℕ, ◌+◌, ◌-◌, ◌*◌, ◌%◌, ◌^◌, ◌<◌, Bool, true, false, List, ◌∷◌, update, ◌>>=◌, Returns, ◌≡◌, ◌≢◌,
  refl, sym, ◌∙◌, ap, arith, ◌==◌,
}
use loeux_riscv.Mm.Pages.Laws.{IsQueue, alloc_page-Allocated}
use loeux_riscv.Mm.Pages.{memory_start, page_size, phy_to_page}
use loeux_riscv.Mm.Slab.Carve.{objects, length-objects, carve-Linked}
use loeux_riscv.Mm.Slab.Objects.{IsSlab, IsSlab-intro, IsObject}
use loeux_riscv.Mm.Slab.{Slab, Slabs, do_create_slab_object_storage, carve}
use native.Mathlib.Nat.{mul-mod_left}
use loeux_riscv.Sync.Spinlock.{init_spinlock}

-- A slab that has its sizes, but no objects yet.
pub record IsBare (g : Slabs) (s : ℕ) : Type 0 where
  pub unlocked : (g.slabs s).lock ≡ init_spinlock
  pub unused : (g.slabs s).free ≡ (g.slabs s).total
  pub some : 0 < (g.slabs s).total
  pub wide : 0 < (g.slabs s).object_size

-- The slab `s` got the page `i`.
pub record Stored (g : Slabs) (s i : ℕ) (r : Bool × Slabs) : Type 0 where
  pub ok : r.0 ≡ true
  pub slab :
      IsSlab r.1 s
        (objects (memory_start + page_size * i) (g.slabs s).object_size ((g.slabs s).total - 1))
  pub accepted :
      (k : ℕ)
      → k * (g.slabs s).object_size < page_size
      → IsObject r.1 s (memory_start + page_size * i + k * (g.slabs s).object_size)
  pub others : (u : ℕ) → u ≢ s → r.1.slabs u ≡ g.slabs u

page_index : (i : ℕ) → i < 2 ^ 40 → phy_to_page (memory_start + page_size * i) ≡ i
unfolding phy_to_page
page_index i range = omega arith

IsObject-intro :
    (g : Slabs) (s i off size : ℕ)
    → (g.memory.pages i).slab ≡ s
    → (g.memory.pages i).paddr ≡ memory_start + page_size * i
    → (g.slabs s).object_size ≡ size
    → s ≢ 0
    → i < 2 ^ 40
    → off < page_size
    → off % size ≡ 0
    → IsObject g s (memory_start + page_size * i + off)
unfolding phy_to_page
IsObject-intro g s i off size owned home wide real range inside aligned =
    let ptr : ℕ = memory_start + page_size * i + off in
    let index : phy_to_page ptr ≡ i = omega arith in
    let offset : (ptr + 2 ^ 64 - (memory_start + page_size * i)) % 2 ^ 64 ≡ off = omega arith in
    record {
      nonnull = omega arith;
      slab = rw index owned;
      real = real;
      inside = rw (index, home, offset) inside;
      aligned = rw (index, home, offset, wide) aligned;
    }

-- For an unlocked slab with all its objects counted as free, at least one of them and of nonzero
-- size, and a page allocator whose next page i lies below the index 2^40 at its place in memory,
-- the creation of the storage succeeds: the free objects are the addresses from the start of the
-- page in steps of the object size, every multiple of that size in the page is an address that
-- slab_free accepts as an object of the slab, and the other slabs are unchanged.
pub storage-Stored :
    (hart : ℕ) (g : Slabs) (s i : ℕ) (rest : List ℕ)
    → IsQueue g.memory (i ∷ rest)
    → (g.memory.pages i).paddr ≡ memory_start + page_size * i
    → i < 2 ^ 40
    → s ≢ 0
    → IsBare g s
    → Returns (do_create_slab_object_storage hart g s) (Stored g s i)
unfolding do_create_slab_object_storage
storage-Stored hart g s i rest q home range real b =
    let ((page, m), ran, a) = alloc_page-Allocated hart g.memory i rest q in
    let pa : ℕ = memory_start + page_size * i in
    let sl = g.slabs s in
    let at : page ≡ pa = a.address ∙ home in
    let index : phy_to_page page ≡ i = rw at (page_index i range) in
    let nonnull : (page == 0) ≡ false = ground (arith, at) in
    let left : Slab = record sl { freelist = page } in
    let g' : Slabs = record g {
      memory = record m {
        pages =
            update m.pages (phy_to_page page) (record (m.pages (phy_to_page page)) { slab = s });
      };
      links = carve g.links page sl.object_size (sl.total - 1) 0;
      slabs = update g.slabs s left;
    } in
    let there : g'.slabs s ≡ left = ground arith in
    (
      (true, g'),
      rw (do_create_slab_object_storage, ran, ◌>>=◌, nonnull) refl,
      record {
        ok = refl;
        slab =
            IsSlab-intro g' s left (objects pa sl.object_size (sl.total - 1)) there b.unlocked
              (rw (sym at)
                (carve-Linked g.links page sl.object_size (sl.total - 1) (omega arith) b.wide))
              (ground (arith, b.unused, b.some, length-objects pa sl.object_size (sl.total - 1)));
        accepted = λ k inside.
            IsObject-intro g' s i (k * sl.object_size) sl.object_size (rw index (ground arith))
              (rw index (ground (arith, a.home, home))) (ap (λ (x : Slab). x.object_size) there)
              real range inside (mul-mod_left k sl.object_size);
        others = λ u ne. ground arith;
      },
    )
