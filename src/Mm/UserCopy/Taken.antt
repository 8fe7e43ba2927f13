-- ===== src/Mm/UserCopy/Taken.antt =====
-- A page that `alloc_page` takes from the free list is no table.
use loeux_riscv.Base.{ℕ, ◌+◌, ◌*◌, ◌^◌, ◌<◌, List, [], ◌∷◌, ◌≡◌, ◌≢◌, sym, ◌∙◌, ap, arith}
use loeux_riscv.Mm.Pages.{Page, Memory, memory_start}
use loeux_riscv.Mm.Pages.Queue.{NotIn}
use loeux_riscv.Mm.Pages.Laws.{Allocated}
use loeux_riscv.Mm.PageTable.View.{view}
use loeux_riscv.Mm.PageTable.Shape.{Shape}
use loeux_riscv.Mm.PageTable.Grow.{IsMapped, Spare, Away}
use loeux_riscv.Mm.UserCopy.Apart.{apart-IsTree, apart-view}

Spare-keep :
    (pages pages' : ℕ → Page) (height : ℕ → ℕ) (i : ℕ) (l : List ℕ)
    → Spare pages height l
    → NotIn i l
    → ((j : ℕ) → j ≢ i → pages' j ≡ pages j)
    → Spare pages' height l
Spare-keep pages pages' height i [] k out o = tt
Spare-keep pages pages' height i (x ∷ l) k out o =
    let e : pages' x ≡ pages x = o x (λ q. out.0 (sym q)) in
    (ap (λ p. p.paddr) e ∙ k.0, k.1, k.2, Spare-keep pages pages' height i l k.3 out.1 o)

pub Away-NotIn : (i : ℕ) (l : List ℕ) → NotIn i l → Away (memory_start + 4096 * i) l
Away-NotIn i [] out = tt
Away-NotIn i (x ∷ l) out = ((λ e. out.0 (omega arith)), Away-NotIn i l out.1)

-- `alloc_page` takes a page that is no table.
module _ (m : Memory) (s : Shape) (root i : ℕ) (l : List ℕ) (r : ℕ × Memory)
    (k : IsMapped m s root (i ∷ l)) (made : Allocated m i l r) where
  pub taken_at : r.0 ≡ memory_start + 4096 * i
  taken_at = made.address ∙ k.spare.0

  pub taken_apart : (u j : ℕ) → 0 < s.height u → j < 4096 → r.1.bytes (u + j) ≡ m.bytes (u + j)
  taken_apart u j h hj =
      let a = k.tree.tables u h in
      let d : u ≢ memory_start + 4096 * i = λ e. ground (arith, k.spare.2) in
      made.kept (u + j) (ground (arith, a.aligned, k.spare.0))

  pub taken-IsMapped : IsMapped r.1 s root l
  taken-IsMapped = record {
    queue = made.queue;
    tree = apart-IsTree s m.bytes r.1.bytes root k.tree taken_apart;
    spare = Spare-keep m.pages r.1.pages s.height i l k.spare.3 k.queue.distinct.0 made.others;
  }

  pub taken-view : (w : ℕ) → w < 2 ^ 39 → view r.1.bytes 2 root w ≡ view m.bytes 2 root w
  taken-view = apart-view s m.bytes r.1.bytes root k.tree taken_apart
