-- ===== src/Mm/TableCopy/Laws.antt =====
-- The copy of a range of a user's memory to other tables.
use loeux_riscv.Base.{
  ℕ, zero, suc, ◌+◌, ◌-◌, ◌*◌, ◌/◌, ◌%◌, ◌^◌, ◌≤◌, ◌<◌, Bool, true, false, ◌&&◌, not, ◌==◌, ltb,
  List, [], ◌∷◌, length, done, ◌>>=◌, ◌≡◌, ◌≢◌, ◌⊎◌, inl, inr, refl, sym, ◌∙◌, ap, arith,
  Bool-cases,
}
use loeux_riscv.Mm.Pages.{Memory}
use loeux_riscv.Mm.PageTable.{max_va, pte_pa, pa_pte, is_valid}
use loeux_riscv.Mm.PageTable.View.{slot, view, pte_walk_look}
use loeux_riscv.Mm.PageTable.Shape.{Shape}
use loeux_riscv.Mm.PageTable.Fresh.{pte_pa-pa_pte}
use loeux_riscv.Mm.PageTable.Grow.{IsMapped}
use loeux_riscv.Mm.PageTable.Mapping.{view-slot}
use loeux_riscv.Mm.PageTable.Unmap.{view-page, view-none}
use loeux_riscv.Mm.UserCopy.Read.{user_at}
use loeux_riscv.Mm.TableCopy.{
  copy_mapped, copy_page, copy_pages, vm_pagetbl_copy, vm_pagetbl_copy_asign,
}
use loeux_riscv.Mm.TableCopy.Frame.{
  IsOther, Frame, Frame-refl, Frame-trans, IsApart, frame-IsApart, frame-view, frame_byte,
}
use loeux_riscv.Mm.TableCopy.OnePage.{PageCopied, copy_mapped-PageCopied}

-- The loops copy the page of such an entry.
abbrev pub is_copied : ℕ → Bool
is_copied entry = is_valid entry && not (pte_pa entry == 0)

-- The range of `n` pages from `va` on keeps the limits, nothing is mapped there in the target, and
-- the pages to copy are neither tables of the target nor free.
pub record IsCopyable (m : Memory) (s : Shape) (src dst va n : ℕ) (l : List ℕ) : Type 0 where
  pub aligned : va % 4096 ≡ 0
  pub top : va + 4096 * n ≤ max_va + 4096
  pub unmapped : (w : ℕ) → va ≤ w → w < va + 4096 * n → is_valid (view m.bytes 2 dst w) ≡ false
  pub pages :
      (w : ℕ)
      → va ≤ w
      → w < va + 4096 * n
      → is_copied (view m.bytes 2 src w) ≡ true
      → IsOther s l (pte_pa (view m.bytes 2 src w))

-- `w` has the flags of the source in the target, and the same byte, in a page that is neither a
-- table nor free.
pub record Same (m : Memory) (src dst w : ℕ) (r : Memory) (s : Shape) (l : List ℕ) : Type 0 where
  pub flags : view r.bytes 2 dst w % 2 ^ 10 ≡ view m.bytes 2 src w % 2 ^ 10
  pub byte : r.bytes (user_at r.bytes dst w) ≡ m.bytes (user_at m.bytes src w)
  pub own : IsOther s l (pte_pa (view r.bytes 2 dst w))

pub record Copied (m : Memory) (s : Shape) (src dst va n : ℕ) (l : List ℕ) (r : Memory)
    : Type 0 where
  pub shape : Shape
  pub left : List ℕ
  pub mapped : IsMapped r shape dst left
  pub frame : Frame m s l r shape left
  pub inside :
      (w : ℕ)
      → va ≤ w
      → w < va + 4096 * n
      → w < 2 ^ 39
      → is_copied (view m.bytes 2 src w) ≡ true
      → Same m src dst w r shape left
  pub others :
      (w : ℕ)
      → w < 2 ^ 39
      → (w < va) ⊎ (va + 4096 * n ≤ w) ⊎ (is_copied (view m.bytes 2 src w) ≡ false)
      → view r.bytes 2 dst w ≡ view m.bytes 2 dst w
  pub cost : length l ≤ length left + 3 * n

module _ (hart src dst va : ℕ) (m : Memory) where
  copy_page_skip :
      va ≤ max_va
      → is_copied (view m.bytes 2 src va) ≡ false
      → copy_page hart src dst va m ≡ done (true, m)
  unfolding copy_page
  copy_page_skip h e =
      let look = pte_walk_look hart src va m h in
      elim (Bool-cases (slot m.bytes 2 src va == 0)) [
        | inl z ↦ rw (copy_page, look, ◌>>=◌, z) refl
        | inr z ↦
            let entry = view-slot m.bytes src va (λ x. ground arith) in
            elim (Bool-cases (is_valid (view m.bytes 2 src va))) [
              | inr f ↦ rw (copy_page, look, ◌>>=◌, z, sym entry, f) refl
              | inl f ↦
                  let null : pte_pa (view m.bytes 2 src va) == 0 ≡ true = ground arith in
                  rw (copy_page, look, ◌>>=◌, z, sym entry, f, null) refl
            ]
      ]

  copy_page_take :
      va ≤ max_va
      → is_copied (view m.bytes 2 src va) ≡ true
      → copy_page hart src dst va m
        ≡ copy_mapped hart dst va
            (pte_pa (view m.bytes 2 src va))
            (view m.bytes 2 src va % 2 ^ 10)
            m
  unfolding copy_page
  copy_page_take h e =
      let look = pte_walk_look hart src va m h in
      let valid : is_valid (view m.bytes 2 src va) ≡ true = ground arith in
      let page : pte_pa (view m.bytes 2 src va) == 0 ≡ false = ground arith in
      let there : slot m.bytes 2 src va ≢ 0 =
        λ x. let none_there = view-none m.bytes src va x in ground arith in
      let z : slot m.bytes 2 src va == 0 ≡ false = ground arith in
      let entry = view-slot m.bytes src va there in
      rw (copy_page, look, ◌>>=◌, z, sym entry, valid, page) refl

  module _ (s : Shape) (l : List ℕ) (k : IsMapped m s dst l)
      (c : IsCopyable m s src dst va 1 l) where
    skipped-Copied : is_copied (view m.bytes 2 src va) ≡ false → Copied m s src dst va 1 l m
    skipped-Copied e = record {
      shape = s;
      left = l;
      mapped = k;
      frame = Frame-refl m s l;
      inside = λ w low high h f.
          let page = view-page m.bytes src w va (omega (arith, c.aligned)) in absurd (ground arith);
      others = λ w h away. refl;
      cost = omega arith;
    }

    page-Copied :
        (r : Memory)
        → is_copied (view m.bytes 2 src va) ≡ true
        → PageCopied m s dst va
            (pte_pa (view m.bytes 2 src va))
            (view m.bytes 2 src va % 2 ^ 10)
            l
            r
        → Copied m s src dst va 1 l r
    unfolding pa_pte
    page-Copied r e p =
        let flags = view m.bytes 2 src va % 2 ^ 10 in
        let target : pte_pa (pa_pte p.chunk + flags) ≡ p.chunk =
          pte_pa-pa_pte p.chunk flags p.other.0 p.small (omega arith) in
        record {
          shape = p.shape;
          left = p.left;
          mapped = p.mapped;
          frame = p.frame;
          inside = λ w low high h f.
              let in_page : w / 4096 ≡ va / 4096 = omega (arith, c.aligned) in
              let page = view-page m.bytes src w va in_page in
              let entry = p.here w in_page in
              record {
                flags = rw (entry, page) (omega arith);
                byte = rw (entry, target, page) (p.bytes (w % 4096) (omega arith));
                own = rw (entry, target) p.other;
              };
          others = λ w h away. elim (Bool-cases (w / 4096 == va / 4096)) [
            | inl f ↦
                let page = view-page m.bytes src w va (ground arith) in
                absurd (ground (arith, c.aligned))
            | inr f ↦ p.others w h (λ x. ground arith)
          ];
          cost = omega (arith, p.cost);
        }

module _ (hart src dst : ℕ) (s₁ : Shape) where
  -- One page.
  copy_page-Copied :
      (va : ℕ) (m : Memory) (s : Shape) (l : List ℕ)
      → IsMapped m s dst l
      → IsApart m s l s₁ src
      → IsCopyable m s src dst va 1 l
      → 3 ≤ length l
      → (m' : Memory) × (copy_page hart src dst va m ≡ done (true, m'))
        × Copied m s src dst va 1 l m'
  copy_page-Copied va m s [] k a c enough = absurd (omega arith)
  copy_page-Copied va m s (i ∷ l) k a c enough =
      let top : va ≤ max_va = omega (arith, c.top) in
      elim (Bool-cases (is_copied (view m.bytes 2 src va))) [
        | inr e ↦ (
          m,
          copy_page_skip hart src dst va m top e,
          skipped-Copied hart src dst va m s (i ∷ l) k c e,
        )
        | inl e ↦
            let flags = view m.bytes 2 src va % 2 ^ 10 in
            let odd : flags % 2 ≡ 1 = ground arith in
            let (m', run, p) =
              copy_mapped-PageCopied hart dst va (pte_pa (view m.bytes 2 src va)) flags i m s l k
                odd (omega arith) c.aligned top (c.unmapped va (omega arith) (omega arith))
                (omega arith) (c.pages va (omega arith) (omega arith) e) in
            (
              m',
              copy_page_take hart src dst va m top e ∙ run,
              page-Copied hart src dst va m s (i ∷ l) k c m' e p,
            )
      ]

  -- The first page, then the others.
  module _ (va n : ℕ) (m m₁ : Memory) (s : Shape) (l : List ℕ) (a : IsApart m s l s₁ src)
      (c : IsCopyable m s src dst va (suc n) l) (x : Copied m s src dst va 1 l m₁) where
    source_view : (w : ℕ) → w < 2 ^ 39 → view m₁.bytes 2 src w ≡ view m.bytes 2 src w
    source_view = frame-view m m₁ s x.shape l x.left x.frame s₁ src a

    rest-IsApart : IsApart m₁ x.shape x.left s₁ src
    rest-IsApart = frame-IsApart m m₁ s x.shape l x.left x.frame s₁ src a

    rest-IsCopyable : IsCopyable m₁ x.shape src dst (va + 4096) n x.left
    rest-IsCopyable = record {
      aligned = omega (arith, c.aligned);
      top = omega (arith, c.top);
      unmapped = λ w low high.
          rw (x.others w (omega (arith, c.top)) (inr (inl (omega arith))))
            (c.unmapped w (omega arith) (omega arith));
      pages = λ w low high e.
          let same = source_view w (omega (arith, c.top)) in
          rw same (
            x.frame.still (pte_pa (view m.bytes 2 src w))
              (c.pages w (omega arith) (omega arith) (rw same at e)));
    }

    Copied-append :
        (m₂ : Memory)
        → Copied m₁ x.shape src dst (va + 4096) n x.left m₂
        → Copied m s src dst va (suc n) l m₂
    Copied-append m₂ y = record {
      shape = y.shape;
      left = y.left;
      mapped = y.mapped;
      frame = Frame-trans m m₁ m₂ s x.shape y.shape l x.left y.left x.frame y.frame;
      inside = λ w low high h e. elim (Bool-cases (ltb w (va + 4096))) [
        | inl f ↦
            let first = x.inside w low (ground arith) h e in
            let entry = y.others w h (inl (ground arith)) in
            record {
              flags = rw entry first.flags;
              byte =
                  ap (λ p. m₂.bytes (pte_pa p + w % 4096)) entry
                  ∙ y.frame.bytes (pte_pa (view m₁.bytes 2 dst w)) (w % 4096) first.own
                      (omega arith)
                  ∙ first.byte;
              own = rw entry (y.frame.still (pte_pa (view m₁.bytes 2 dst w)) first.own);
            }
        | inr f ↦
            let same = source_view w h in
            let later = y.inside w (ground arith) (ground arith) h (rw same e) in
            record {
              flags = later.flags ∙ ap (λ p. p % 2 ^ 10) same;
              byte =
                  later.byte
                  ∙ frame_byte m m₁ s x.shape l x.left x.frame s₁ src a w h (c.pages w low high e);
              own = later.own;
            }
      ];
      others = λ w h away.
          let same = source_view w h in
          y.others w h (elim away [
            | inl b ↦ inl (omega arith)
            | inr (inl b) ↦ inr (inl (omega arith))
            | inr (inr b) ↦ inr (inr (rw same b))
          ])
          ∙ x.others w h (elim away [
            | inl b ↦ inl b
            | inr (inl b) ↦ inr (inl (omega arith))
            | inr (inr b) ↦ inr (inr b)
          ]);
      cost = omega (arith, x.cost, y.cost);
    }

  copy_pages-Copied :
      (n va : ℕ) (m : Memory) (s : Shape) (l : List ℕ)
      → IsMapped m s dst l
      → IsApart m s l s₁ src
      → IsCopyable m s src dst va n l
      → 3 * n ≤ length l
      → (m' : Memory) × (copy_pages hart src dst va n m ≡ done (true, m'))
        × Copied m s src dst va n l m'
  unfolding copy_pages
  copy_pages-Copied zero va m s l k a c enough = (
    m,
    refl,
    record {
      shape = s;
      left = l;
      mapped = k;
      frame = Frame-refl m s l;
      inside = λ w low high h e. absurd (omega arith);
      others = λ w h away. refl;
      cost = omega arith;
    },
  )
  copy_pages-Copied (suc n) va m s l k a c enough =
      let first : IsCopyable m s src dst va 1 l = record {
        aligned = c.aligned;
        top = omega (arith, c.top);
        unmapped = λ w low high. c.unmapped w low (omega arith);
        pages = λ w low high e. c.pages w low (omega arith) e;
      } in
      let (m₁, run, x) = copy_page-Copied va m s l k a first (omega arith) in
      let (m₂, run', y) =
        copy_pages-Copied n (va + 4096) m₁ x.shape x.left x.mapped
          (rest-IsApart va n m m₁ s l a c x) (rest-IsCopyable va n m m₁ s l a c x)
          (omega (arith, x.cost)) in
      (m₂, rw (copy_pages, run, ◌>>=◌) run', Copied-append va n m m₁ s l a c x m₂ y)

  -- For well-formed target tables without valid entries in n aligned pages up to 2^38 + 4096,
  -- source tables whose pages are neither target tables nor free, as are the pages behind the
  -- valid, nonzero entries of the range, and at least 3 n free pages, vm_pagetbl_copy_asign
  -- returns 0; each address with such an entry then has the flags of the source in the target, and
  -- the same byte, in a page that is neither a table nor free; every other entry of the target,
  -- and all pages that were neither tables nor free, are as they were.
  pub vm_pagetbl_copy_asign-Copied :
      (n va : ℕ) (m : Memory) (s : Shape) (l : List ℕ)
      → IsMapped m s dst l
      → IsApart m s l s₁ src
      → IsCopyable m s src dst va n l
      → 3 * n ≤ length l
      → (m' : Memory) × (vm_pagetbl_copy_asign hart src dst va (4096 * n) m ≡ done (true, m'))
        × Copied m s src dst va n l m'
  unfolding vm_pagetbl_copy_asign
  vm_pagetbl_copy_asign-Copied n va m s l k a c enough =
      let count : (4096 * n + 4096 - 1) / 4096 ≡ n = omega arith in
      rw count (copy_pages-Copied n va m s l k a c enough)

  -- The copy of a task's program, whose pages start at 0x1000.
  pub vm_pagetbl_copy-Copied :
      (sz : ℕ) (m : Memory) (s : Shape) (l : List ℕ)
      → 4096 ≤ sz
      → IsMapped m s dst l
      → IsApart m s l s₁ src
      → IsCopyable m s src dst 4096 ((sz - 4096) / 4096 + 1) l
      → 3 * ((sz - 4096) / 4096 + 1) ≤ length l
      → (m' : Memory) × (vm_pagetbl_copy hart src dst sz true m ≡ done (true, m'))
        × Copied m s src dst 4096 ((sz - 4096) / 4096 + 1) l m'
  unfolding vm_pagetbl_copy
  vm_pagetbl_copy-Copied sz m s l h k a c enough =
      let some_pages : ltb sz 4096 ≡ false = ground arith in
      rw some_pages (copy_pages-Copied ((sz - 4096) / 4096 + 1) 4096 m s l k a c enough)
