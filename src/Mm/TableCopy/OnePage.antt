-- ===== src/Mm/TableCopy/OnePage.antt =====
-- The copy of one page of a user.
use loeux_riscv.Base.{
  ℕ, ◌+◌, ◌-◌, ◌*◌, ◌/◌, ◌%◌, ◌^◌, ◌≤◌, ◌<◌, Bool, true, false, ◌&&◌, ◌==◌, ltb, leb, List, ◌∷◌,
  length, done, ◌>>=◌, ◌≡◌, ◌≢◌, inl, inr, refl, ◌∙◌, ap, arith,
}
use loeux_riscv.Mm.Pages.{Memory, memory_start, alloc_page}
use loeux_riscv.Mm.Pages.Laws.{Allocated, alloc_page-Allocated}
use loeux_riscv.Mm.PageTable.{max_va, pa_pte, with_valid, is_valid, mappages}
use loeux_riscv.Mm.PageTable.View.{view}
use loeux_riscv.Mm.PageTable.Shape.{Shape}
use loeux_riscv.Mm.PageTable.Grow.{IsMapped}
use loeux_riscv.Mm.PageTable.Mapping.{IsClear, Mapped, mappages-Mapped}
use loeux_riscv.Mm.PageTable.Unmap.{view-page}
use loeux_riscv.Mm.UserCopy.{write_bytes}
use loeux_riscv.Mm.UserCopy.Apart.{apart-IsTree, apart-view}
use loeux_riscv.Mm.UserCopy.Taken.{Away-NotIn, taken_at, taken-IsMapped}
use loeux_riscv.Mm.TableCopy.{copy_mapped}
use loeux_riscv.Mm.TableCopy.Frame.{IsOther, Frame}

-- What the copy of the page `pa` to the address `va` did: a page of its own, with the same bytes and
-- the flags, is mapped there; no other entry changes.
pub record PageCopied (m : Memory) (s : Shape) (dst va pa flags : ℕ) (l : List ℕ) (r : Memory)
    : Type 0 where
  pub shape : Shape
  pub left : List ℕ
  pub mapped : IsMapped r shape dst left
  pub frame : Frame m s l r shape left
  pub chunk : ℕ
  pub other : IsOther shape left chunk
  pub small : chunk < 2 ^ 56
  pub bytes : (k : ℕ) → k < 4096 → r.bytes (chunk + k) ≡ m.bytes (pa + k)
  pub here : (w : ℕ) → w / 4096 ≡ va / 4096 → view r.bytes 2 dst w ≡ pa_pte chunk + flags
  pub others :
      (w : ℕ) → w < 2 ^ 39 → w / 4096 ≢ va / 4096 → view r.bytes 2 dst w ≡ view m.bytes 2 dst w
  pub cost : length l ≤ length left + 3

module _ (hart dst va pa flags i : ℕ) (m : Memory) (s : Shape) (l : List ℕ)
    (k : IsMapped m s dst (i ∷ l)) (odd : flags % 2 ≡ 1) (low : flags < 2 ^ 10)
    (aligned : va % 4096 ≡ 0) (top : va ≤ max_va)
    (unmapped : is_valid (view m.bytes 2 dst va) ≡ false) (enough : 2 ≤ length l)
    (source : IsOther s (i ∷ l) pa) where
  abbrev page : ℕ
  page = memory_start + 4096 * i

  module _ (r : ℕ × Memory) (made : Allocated m i l r) where
    abbrev filled : Memory
    filled = record r.1 { bytes = write_bytes r.1.bytes r.0 (λ j. r.1.bytes (pa + j)) 4096 }

    at : r.0 ≡ page
    at = taken_at m s dst i l r k made

    filled_page : (j : ℕ) → j < 4096 → filled.bytes (page + j) ≡ m.bytes (pa + j)
    unfolding write_bytes
    filled_page j h =
        let inside : leb r.0 (page + j) && ltb (page + j) (r.0 + 4096) ≡ true =
          ground (arith, at) in
        let offset : page + j - r.0 ≡ j = omega (arith, at) in
        let apart : pa ≢ page = source.2.0 in
        rw (inside, offset) (made.kept (pa + j) (ground (arith, k.spare.0, source.0)))

    filled_beside :
        (u j : ℕ) → u % 4096 ≡ 0 → u ≢ page → j < 4096 → filled.bytes (u + j) ≡ m.bytes (u + j)
    unfolding write_bytes
    filled_beside u j a d h =
        let outside : leb r.0 (u + j) && ltb (u + j) (r.0 + 4096) ≡ false = ground (arith, at) in
        rw outside (made.kept (u + j) (ground (arith, k.spare.0)))

    filled_tables : (u j : ℕ) → 0 < s.height u → j < 4096 → filled.bytes (u + j) ≡ m.bytes (u + j)
    filled_tables u j h hj =
        filled_beside u j (k.tree.tables u h).aligned (λ e. ground (arith, k.spare.2)) hj

    filled-IsMapped : IsMapped filled s dst l
    filled-IsMapped =
        let taken = taken-IsMapped m s dst i l r k made in
        record {
          queue = record {
            links = taken.queue.links;
            tail = taken.queue.tail;
            distinct = taken.queue.distinct;
            free = taken.queue.free;
            unlocked = taken.queue.unlocked;
          };
          tree = apart-IsTree s m.bytes filled.bytes dst k.tree filled_tables;
          spare = taken.spare;
        }

    filled-view : (w : ℕ) → w < 2 ^ 39 → view filled.bytes 2 dst w ≡ view m.bytes 2 dst w
    filled-view = apart-view s m.bytes filled.bytes dst k.tree filled_tables

    filled-IsClear : IsClear filled dst va r.0 1
    filled-IsClear = record {
      aligned = aligned;
      top = omega arith;
      phys = omega (arith, at, k.spare.1);
      unmapped =
          λ w from to h. rw (filled-view w h, view-page m.bytes dst w va (omega arith)) unmapped;
    }

    module _ (r₂ : Bool × Memory) (z : Mapped filled s dst va r.0 flags 1 l r₂) where
      all_mapped : (r₂.0 ≡ true) × (z.count ≡ 1)
      all_mapped = elim z.answer [ inl y ↦ y | inr y ↦ absurd (omega (arith, y.2, enough)) ]

      -- A page that is no table afterwards keeps its bytes.
      kept_page :
          (u j : ℕ)
          → u % 4096 ≡ 0
          → z.shape.height u ≡ 0
          → j < 4096
          → r₂.1.bytes (u + j) ≡ filled.bytes (u + j)
      kept_page u j a e h = z.kept (u + j) (λ t ht.
          let b = z.mapped.tree.tables t ht in
          let d : t ≢ u = λ x. ground arith in ground (arith, b.aligned))

      mapped-IsOther : IsOther z.shape z.left page
      mapped-IsOther =
          let f = z.fresh page k.spare.2 (Away-NotIn i l k.queue.distinct.0) in
          (omega arith, f.0, f.1)

      PageCopied-mapped : PageCopied m s dst va pa flags (i ∷ l) r₂.1
      PageCopied-mapped = record {
        shape = z.shape;
        left = z.left;
        mapped = z.mapped;
        frame = record {
          still = λ u o. let f = z.fresh u o.1 o.2.1 in (o.0, f.0, f.1);
          bytes = λ u j o h.
              kept_page u j o.0 (z.fresh u o.1 o.2.1).0 h ∙ filled_beside u j o.0 o.2.0 h;
        };
        chunk = page;
        other = mapped-IsOther;
        small = omega (arith, k.spare.1);
        bytes = λ j h. kept_page page j (omega arith) mapped-IsOther.1 h ∙ filled_page j h;
        here = λ w e.
            let offset : r.0 + (w - va) / 4096 * 4096 ≡ page = omega (arith, at) in
            let same_flags : with_valid flags ≡ flags = ground arith in
            z.inside w (omega arith) (omega arith) (omega (arith, all_mapped.1))
            ∙ ap (λ x. pa_pte x + with_valid flags) offset
            ∙ ap (λ x. pa_pte page + x) same_flags;
        others = λ w h d. z.outside w h (ground (arith, all_mapped.1)) ∙ filled-view w h;
        cost = omega (arith, z.cost);
      }

      copy_run :
          alloc_page hart m ≡ done r
          → mappages hart dst va 4096 r.0 flags filled ≡ done r₂
          → copy_mapped hart dst va pa flags m ≡ done (true, r₂.1)
      unfolding copy_mapped
      copy_run alloc map =
          let nonnull : r.0 == 0 ≡ false = ground (arith, at) in
          rw (copy_mapped, alloc, ◌>>=◌, nonnull, map, all_mapped.0) refl

  pub copy_mapped-PageCopied :
      (m' : Memory) × (copy_mapped hart dst va pa flags m ≡ done (true, m'))
      × PageCopied m s dst va pa flags (i ∷ l) m'
  copy_mapped-PageCopied =
      let (r, alloc, made) = alloc_page-Allocated hart m i l k.queue in
      let (r₂, map, z) =
        mappages-Mapped hart dst flags low va r.0 0 (filled r made) s l (filled-IsMapped r made)
          (filled-IsClear r made) in
      (r₂.1, copy_run r made r₂ z alloc map, PageCopied-mapped r made r₂ z)
