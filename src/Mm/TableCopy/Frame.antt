-- ===== src/Mm/TableCopy/Frame.antt =====
-- What the operations on page tables leave alone: pages that are neither tables nor free.
use loeux_riscv.Base.{ℕ, ◌+◌, ◌%◌, ◌^◌, ◌<◌, List, ◌≡◌, refl, ◌∙◌, ap, arith}
use loeux_riscv.Mm.Pages.{Memory}
use loeux_riscv.Mm.PageTable.{pte_pa}
use loeux_riscv.Mm.PageTable.View.{view}
use loeux_riscv.Mm.PageTable.Shape.{Shape, IsTree}
use loeux_riscv.Mm.PageTable.Grow.{Away}
use loeux_riscv.Mm.UserCopy.Apart.{apart-IsTree, apart-view}
use loeux_riscv.Mm.UserCopy.Read.{user_at}

-- The page at `u` is no table of the shape and not on the free list.
abbrev pub IsOther : Shape → List ℕ → ℕ → Type 0
IsOther s l u = (u % 4096 ≡ 0) × (s.height u ≡ 0) × Away u l

-- From `m` to `m'` such pages stay such pages, with their bytes.
pub record Frame (m : Memory) (s : Shape) (l : List ℕ) (m' : Memory) (s' : Shape) (l' : List ℕ)
    : Type 0 where
  pub still : (u : ℕ) → IsOther s l u → IsOther s' l' u
  pub bytes : (u k : ℕ) → IsOther s l u → k < 4096 → m'.bytes (u + k) ≡ m.bytes (u + k)

pub Frame-refl : (m : Memory) (s : Shape) (l : List ℕ) → Frame m s l m s l
Frame-refl m s l = record { still = λ u o. o; bytes = λ u k o h. refl }

pub Frame-trans :
    (m m₁ m₂ : Memory) (s s₁ s₂ : Shape) (l l₁ l₂ : List ℕ)
    → Frame m s l m₁ s₁ l₁
    → Frame m₁ s₁ l₁ m₂ s₂ l₂
    → Frame m s l m₂ s₂ l₂
Frame-trans m m₁ m₂ s s₁ s₂ l l₁ l₂ f g = record {
  still = λ u o. g.still u (f.still u o);
  bytes = λ u k o h. g.bytes u k (f.still u o) h ∙ f.bytes u k o h;
}

-- The tables of another task: each of their pages is such a page.
pub record IsApart (m : Memory) (s : Shape) (l : List ℕ) (s₁ : Shape) (root : ℕ) : Type 0 where
  pub tree : IsTree s₁ m.bytes root
  pub other : (u : ℕ) → 0 < s₁.height u → IsOther s l u

module _ (m m' : Memory) (s s' : Shape) (l l' : List ℕ) (f : Frame m s l m' s' l') (s₁ : Shape)
    (root : ℕ) (a : IsApart m s l s₁ root) where
  frame_tables : (u k : ℕ) → 0 < s₁.height u → k < 4096 → m'.bytes (u + k) ≡ m.bytes (u + k)
  frame_tables u k h hk = f.bytes u k (a.other u h) hk

  pub frame-IsApart : IsApart m' s' l' s₁ root
  frame-IsApart = record {
    tree = apart-IsTree s₁ m.bytes m'.bytes root a.tree frame_tables;
    other = λ u h. f.still u (a.other u h);
  }

  pub frame-view : (w : ℕ) → w < 2 ^ 39 → view m'.bytes 2 root w ≡ view m.bytes 2 root w
  frame-view = apart-view s₁ m.bytes m'.bytes root a.tree frame_tables

  -- The user's byte behind such a page.
  pub frame_byte :
      (w : ℕ)
      → w < 2 ^ 39
      → IsOther s l (pte_pa (view m.bytes 2 root w))
      → m'.bytes (user_at m'.bytes root w) ≡ m.bytes (user_at m.bytes root w)
  frame_byte w h o =
      ap (λ e. m'.bytes (pte_pa e + w % 4096)) (frame-view w h)
      ∙ f.bytes (pte_pa (view m.bytes 2 root w)) (w % 4096) o (omega arith)
