-- ===== src/Mm/Slab/Objects.antt =====
-- A slab gives out the objects of its free list, and takes them back at its front.
use loeux_riscv.Base.{
  ℕ, zero, suc, ◌+◌, ◌-◌, ◌%◌, ◌^◌, ◌≤◌, ◌<◌, true, false, ◌||◌, List, ◌∷◌, length, update, ◌>>=◌,
  Returns, ◌≡◌, ◌≢◌, refl, ap, arith, ◌==◌, ltb, leb,
}
use loeux_riscv.Mm.Pages.{phy_to_page, page_size}
use loeux_riscv.Mm.SizeClass.Laws.{slab_round_up-IsClass}
use loeux_riscv.Mm.SizeClass.{slab_round_up, ctz}
use loeux_riscv.Mm.Slab.Carve.{Linked, Apart, Linked-update}
use loeux_riscv.Mm.Slab.{
  Slab, Slabs, pop_object, alloc_from, slab_alloc, do_free_slab_object_from_out, slab_free,
}
use loeux_riscv.Sync.Spinlock.Laws.{take_free, drop_held, held_by}
use loeux_riscv.Sync.Spinlock.{init_spinlock}

-- The slab `s` has the free objects `l`, and nobody holds its lock.
pub record IsSlab (g : Slabs) (s : ℕ) (l : List ℕ) : Type 0 where
  pub unlocked : (g.slabs s).lock ≡ init_spinlock
  pub linked : Linked g.links (g.slabs s).freelist l
  pub count : (g.slabs s).free ≡ length l

-- From the slab `s` on, `n` full slabs lead to the slab `t`.
pub data Walk (g : Slabs) : ℕ → ℕ → ℕ → Type 0 where
  here : {s : ℕ} → Walk g s s 0
  past :
      {s t n : ℕ}
      → (g.slabs s).lock ≡ init_spinlock
      → (g.slabs s).free ≡ 0
      → (g.slabs s).next ≢ 0
      → Walk g (g.slabs s).next t n
      → Walk g s t (suc n)

-- The object `p` left the slab `t`, which keeps `l`.
pub record Allocated (g : Slabs) (t p : ℕ) (l : List ℕ) (r : ℕ × Slabs) : Type 0 where
  pub object : r.0 ≡ p
  pub rest : IsSlab r.1 t l
  pub size : (r.1.slabs t).object_size ≡ (g.slabs t).object_size
  pub others : (u : ℕ) → u ≢ t → r.1.slabs u ≡ g.slabs u
  pub links : r.1.links ≡ g.links
  pub memory : r.1.memory ≡ g.memory
  pub caches : r.1.caches ≡ g.caches

pub IsSlab-intro :
    (g : Slabs) (s : ℕ) (sl : Slab) (l : List ℕ)
    → g.slabs s ≡ sl
    → sl.lock ≡ init_spinlock
    → Linked g.links sl.freelist l
    → sl.free ≡ length l
    → IsSlab g s l
IsSlab-intro g s sl l e u k c = record { unlocked = rw e u; linked = rw e k; count = rw e c }

pop_object-Allocated :
    (hart : ℕ) (g : Slabs) (t p : ℕ) (l : List ℕ)
    → IsSlab g t (p ∷ l)
    → Returns (pop_object hart g t (held_by hart)) (Allocated g t p l)
unfolding pop_object Linked
pop_object-Allocated hart g t p l v =
    let sl = g.slabs t in
    let next : g.links sl.freelist ≡ g.links p = ap g.links v.linked.0 in
    let left : Slab = record sl {
      lock = init_spinlock;
      freelist = g.links sl.freelist;
      free = sl.free - 1;
    } in
    let g' : Slabs = record g { slabs = update g.slabs t left } in
    let at : g'.slabs t ≡ left = ground arith in
    (
      (sl.freelist, g'),
      rw (drop_held hart) refl,
      record {
        object = v.linked.0;
        rest = IsSlab-intro g' t left l at refl (rw next v.linked.2) (ground (arith, v.count));
        size = ap (λ (x : Slab). x.object_size) at;
        others = λ u ne. ground arith;
        links = refl;
        memory = refl;
        caches = refl;
      },
    )

alloc_from-Allocated :
    (fuel hart : ℕ) (g : Slabs) (s t n p : ℕ) (l : List ℕ)
    → Walk g s t n
    → IsSlab g t (p ∷ l)
    → n < fuel
    → Returns (alloc_from fuel hart g s) (Allocated g t p l)
unfolding alloc_from
alloc_from-Allocated zero hart g s t n p l w v enough = absurd (omega arith)
alloc_from-Allocated (suc fuel) hart g s t zero p l here v enough =
    let (r, ran, a) = pop_object-Allocated hart g s p l v in
    let some : ((g.slabs s).free == 0) ≡ false = ground (arith, v.count) in
    (r, rw (alloc_from, v.unlocked, take_free hart, ◌>>=◌, some) ran, a)
alloc_from-Allocated (suc fuel) hart g s t (suc n) p l (past free empty more w) v enough =
    let (r, ran, a) = alloc_from-Allocated fuel hart g (g.slabs s).next t n p l w v (omega arith) in
    let full : ((g.slabs s).free == 0) ≡ true = ground arith in
    let linked : ((g.slabs s).next == 0) ≡ false = ground arith in
    (r, rw (alloc_from, free, take_free hart, ◌>>=◌, full, linked, drop_held hart, ◌>>=◌) ran, a)

-- For a size from 1 to 4096 whose class starts with n full slabs, each unlocked and linked to the
-- next, and then an unlocked slab with the free objects p, l, slab_alloc returns p on any fuel
-- above n; that slab then has the free objects l, and the other slabs, the links and the memory
-- are unchanged.
pub slab_alloc-Allocated :
    (fuel hart : ℕ) (g : Slabs) (size t n p : ℕ) (l : List ℕ)
    → 0 < size
    → size ≤ 4096
    → Walk g (g.caches (ctz (slab_round_up size) - 3)) t n
    → IsSlab g t (p ∷ l)
    → n < fuel
    → Returns (slab_alloc fuel hart g size) (Allocated g t p l)
unfolding slab_alloc
slab_alloc-Allocated fuel hart g size t n p l pos small w v enough =
    let c = slab_round_up-IsClass size pos small in
    let r = slab_round_up size in
    let some : (r == 0) ≡ false = ground (arith, c.fits) in
    let low : (ltb (ctz r) 3 || ltb 9 (ctz r - 3)) ≡ false = ground (arith, c.low, c.high) in
    rw (slab_alloc, some, low)
      (alloc_from-Allocated fuel hart g (g.caches (ctz r - 3)) t n p l w v enough)

-- The object `ptr` went to the front of the free objects `l` of the slab `s`.
pub record Freed (g : Slabs) (s ptr : ℕ) (l : List ℕ) (g' : Slabs) : Type 0 where
  pub slab : IsSlab g' s (ptr ∷ l)
  pub size : (g'.slabs s).object_size ≡ (g.slabs s).object_size
  pub others : (u : ℕ) (k : List ℕ) → u ≢ s → Apart ptr k → IsSlab g u k → IsSlab g' u k
  pub memory : g'.memory ≡ g.memory
  pub caches : g'.caches ≡ g.caches

-- `slab_free` accepts `ptr` as an object of the slab `s`.
pub record IsObject (g : Slabs) (s ptr : ℕ) : Type 0 where
  pub nonnull : ptr ≢ 0
  pub slab : (g.memory.pages (phy_to_page ptr)).slab ≡ s
  pub real : s ≢ 0
  pub inside : (ptr + 2 ^ 64 - (g.memory.pages (phy_to_page ptr)).paddr) % 2 ^ 64 < page_size
  pub aligned :
      (ptr + 2 ^ 64 - (g.memory.pages (phy_to_page ptr)).paddr) % 2 ^ 64 % (g.slabs s).object_size
      ≡ 0

-- For an address that passes the checks as an object of the slab s, which is unlocked and has the
-- free objects l without it, slab_free returns; s then has the free objects ptr, l, every other
-- slab without ptr keeps its free objects, and the memory is unchanged.
pub slab_free-Freed :
    (hart : ℕ) (g : Slabs) (s ptr : ℕ) (l : List ℕ)
    → IsObject g s ptr
    → IsSlab g s l
    → Apart ptr l
    → Returns (slab_free hart g ptr) (Freed g s ptr l)
unfolding slab_free do_free_slab_object_from_out Linked
slab_free-Freed hart g s ptr l o v a =
    let sl = g.slabs s in
    let left : Slab = record sl { lock = init_spinlock; freelist = ptr; free = sl.free + 1 } in
    let g' : Slabs = record g {
      links = update g.links ptr sl.freelist;
      slabs = update g.slabs s left;
    } in
    let at : g'.slabs s ≡ left = ground arith in
    let back : update g.links ptr sl.freelist ptr ≡ sl.freelist = ground arith in
    let nonnull : (ptr == 0) ≡ false = ground (arith, o.nonnull) in
    let real : (s == 0) ≡ false = ground (arith, o.real) in
    let inside : leb page_size ((ptr + 2 ^ 64 - (g.memory.pages (phy_to_page ptr)).paddr) % 2 ^ 64)
        ≡ false =
      ground (arith, o.inside) in
    (
      g',
      rw
          (
            slab_free,
            nonnull,
            o.slab,
            real,
            inside,
            o.aligned,
            do_free_slab_object_from_out,
            v.unlocked,
            take_free hart,
            ◌>>=◌,
            drop_held hart,
          )
          refl,
      record {
        slab =
            IsSlab-intro g' s left (ptr ∷ l) at refl
              (
                refl,
                o.nonnull,
                rw back (Linked-update g.links sl.freelist ptr sl.freelist l a v.linked),
              )
              (ground (arith, v.count));
        size = ap (λ (x : Slab). x.object_size) at;
        others = λ u k ne apart w.
            let same : g'.slabs u ≡ g.slabs u = ground arith in
            IsSlab-intro g' u (g.slabs u) k same w.unlocked
              (Linked-update g.links (g.slabs u).freelist ptr sl.freelist k apart w.linked) w.count;
        memory = refl;
        caches = refl;
      },
    )

-- After slab_free of an object of the first slab of its class, slab_alloc of a size of the class
-- returns that object, on any hart, and the slab has the free objects that it had before.
pub slab_alloc-slab_free :
    (fuel hart hart' : ℕ) (g : Slabs) (size s ptr : ℕ) (l : List ℕ)
    → 0 < size
    → size ≤ 4096
    → g.caches (ctz (slab_round_up size) - 3) ≡ s
    → IsObject g s ptr
    → IsSlab g s l
    → Apart ptr l
    → Returns
        (slab_free hart g ptr >>= λ g'. slab_alloc (suc fuel) hart' g' size)
        (λ r. (r.0 ≡ ptr) × IsSlab r.1 s l)
slab_alloc-slab_free fuel hart hart' g size s ptr l pos small first o v a =
    let (g', ran, f) = slab_free-Freed hart g s ptr l o v a in
    let start : g'.caches (ctz (slab_round_up size) - 3) ≡ s = rw f.caches first in
    let (r, ran', b) =
      slab_alloc-Allocated (suc fuel) hart' g' size s 0 ptr l pos small (rw start here) f.slab
        (omega arith) in
    (r, rw (ran, ◌>>=◌) ran', (b.object, b.rest))
