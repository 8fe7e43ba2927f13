-- ===== src/Mm/UserCopy/Write.antt =====
-- `copy_to_user` writes the user's bytes of the range, and nothing else.
use loeux_riscv.Base.{
  ℕ, zero, suc, ◌+◌, ◌-◌, ◌*◌, ◌/◌, ◌%◌, ◌^◌, ◌≤◌, ◌<◌, true, false, ◌&&◌, ◌==◌, ltb, leb, List, [],
  ◌∷◌, done, ◌>>=◌, ◌≡◌, ◌≢◌, inl, inr, refl, sym, ◌∙◌, ap, arith, Bool-cases,
}
use loeux_riscv.Mm.Pages.{Memory}
use loeux_riscv.Mm.Words.{get_word}
use loeux_riscv.Mm.PageTable.{max_va, pte_pa, flag, pte_w, is_valid}
use loeux_riscv.Mm.PageTable.View.{slot, view, pte_walk_look}
use loeux_riscv.Mm.PageTable.Shape.{Shape}
use loeux_riscv.Mm.PageTable.Grow.{IsMapped}
use loeux_riscv.Mm.PageTable.Mapping.{view-slot}
use loeux_riscv.Mm.PageTable.Unmap.{view-page, view-none}
use loeux_riscv.Mm.UserCopy.{
  Process, store, copied, write_bytes, chunk, write_user, copy_to_loop, copy_to_user,
  copy_from_user,
}
use loeux_riscv.Mm.UserCopy.Apart.{apart-IsTree, apart-view, write_bytes_apart}
use loeux_riscv.Mm.UserCopy.Read.{
  user_at, IsReadable, page_of-view, user_at-add, user_bytes, copy_from_user-user,
}

-- The user may write each address of the range, through pages that are no tables; addresses of
-- different pages have different pages behind them.
pub record IsWritable (s : Shape) (b : ℕ → ℕ) (root va len : ℕ) : Type 0 where
  pub readable : IsReadable b root va len
  pub writable : (w : ℕ) → va ≤ w → w < va + len → flag pte_w (view b 2 root w) ≡ true
  pub plain : (w : ℕ) → va ≤ w → w < va + len → s.height (pte_pa (view b 2 root w)) ≡ 0
  pub own :
      (w x : ℕ)
      → va ≤ w
      → w < va + len
      → va ≤ x
      → x < va + len
      → pte_pa (view b 2 root w) ≡ pte_pa (view b 2 root x)
      → w / 4096 ≡ x / 4096

-- The tables are as they were, the user's bytes of the range are those of `src`, and all other bytes
-- of the memory stay.
pub record Written (m : Memory) (s : Shape) (root va len : ℕ) (src : ℕ → ℕ) (l : List ℕ)
    (r : Memory) : Type 0 where
  pub mapped : IsMapped r s root l
  pub same : (w : ℕ) → w < 2 ^ 39 → view r.bytes 2 root w ≡ view m.bytes 2 root w
  pub inside : (k : ℕ) → k < len → r.bytes (user_at m.bytes root (va + k)) ≡ src k
  pub outside :
      (c : ℕ) → ((k : ℕ) → k < len → c ≢ user_at m.bytes root (va + k)) → r.bytes c ≡ m.bytes c

pte_pa_aligned : (p : ℕ) → pte_pa p % 4096 ≡ 0
unfolding pte_pa
pte_pa_aligned p = omega arith

-- A user's byte has one address.
user_at_own :
    (s : Shape) (b : ℕ → ℕ) (root va len w x : ℕ)
    → IsWritable s b root va len
    → va ≤ w
    → w < va + len
    → va ≤ x
    → x < va + len
    → user_at b root w ≡ user_at b root x
    → w ≡ x
user_at_own s b root va len w x k lw hw lx hx e =
    let p = pte_pa_aligned (view b 2 root w) in
    let q = pte_pa_aligned (view b 2 root x) in
    let same_page = k.own w x lw hw lx hx (omega arith) in omega arith

module _ (hart root : ℕ) (t : Process) (s : Shape) (l : List ℕ) where
  -- The bytes of one page.
  abbrev page_written : ℕ → ℕ → (ℕ → ℕ) → Memory → Memory
  page_written va n src m = record m { bytes = write_bytes m.bytes (user_at m.bytes root va) src n }

  page_written_apart :
      (va n : ℕ) (src : ℕ → ℕ) (m : Memory)
      → IsMapped m s root l
      → va % 4096 + n ≤ 4096
      → s.height (pte_pa (view m.bytes 2 root va)) ≡ 0
      → (u k : ℕ) → 0 < s.height u
      → k < 4096
      → (page_written va n src m).bytes (u + k) ≡ m.bytes (u + k)
  page_written_apart va n src m k room plain =
      write_bytes_apart s m.bytes root (pte_pa (view m.bytes 2 root va)) (va % 4096) n src k.tree
        (pte_pa_aligned (view m.bytes 2 root va), plain) room

  page_written-Written :
      (va n : ℕ) (src : ℕ → ℕ) (m : Memory)
      → IsMapped m s root l
      → va % 4096 + n ≤ 4096
      → s.height (pte_pa (view m.bytes 2 root va)) ≡ 0
      → Written m s root va n src l (page_written va n src m)
  unfolding write_bytes
  page_written-Written va n src m k room plain = record {
    mapped = record {
      queue = record {
        links = k.queue.links;
        tail = k.queue.tail;
        distinct = k.queue.distinct;
        free = k.queue.free;
        unlocked = k.queue.unlocked;
      };
      tree = apart-IsTree s m.bytes _ root k.tree (page_written_apart va n src m k room plain);
      spare = k.spare;
    };
    same = apart-view s m.bytes _ root k.tree (page_written_apart va n src m k room plain);
    inside = λ j h. let at = user_at-add m.bytes root va j (omega arith) in ground arith;
    outside = λ c away.
        elim (Bool-cases (leb (user_at m.bytes root va) c && ltb c (user_at m.bytes root va + n))) [
          | inl e ↦
              let j = c - user_at m.bytes root va in
              let small : j < n = ground arith in
              let at = user_at-add m.bytes root va j (omega arith) in
              let here : c ≡ user_at m.bytes root (va + j) = ground arith in
              absurd (away j small here)
          | inr e ↦ rw e refl
        ];
  }

  address_after :
      (va n : ℕ) (src : ℕ → ℕ) (m m₁ : Memory)
      → Written m s root va n src l m₁
      → (w : ℕ) → w < 2 ^ 39
      → user_at m₁.bytes root w ≡ user_at m.bytes root w
  address_after va n src m m₁ a w h = ap (λ p. pte_pa p + w % 4096) (a.same w h)

  IsWritable-after :
      (va n len : ℕ) (src : ℕ → ℕ) (m m₁ : Memory)
      → IsWritable s m.bytes root va (n + len)
      → Written m s root va n src l m₁
      → IsWritable s m₁.bytes root (va + n) len
  IsWritable-after va n len src m m₁ k a =
      let top : va + (n + len) ≤ max_va = k.readable.top in
      record {
        readable = record {
          top = omega arith;
          entries = λ w low high.
              rw (a.same w (omega arith)) (k.readable.entries w (omega arith) (omega arith));
        };
        writable =
            λ w low high. rw (a.same w (omega arith)) (k.writable w (omega arith) (omega arith));
        plain = λ w low high. rw (a.same w (omega arith)) (k.plain w (omega arith) (omega arith));
        own = λ w x lw hw lx hx.
            rw (a.same w (omega arith), a.same x (omega arith))
              (k.own w x (omega arith) (omega arith) (omega arith) (omega arith));
      }

  Written-none :
      (va : ℕ) (src : ℕ → ℕ) (m : Memory) → IsMapped m s root l → Written m s root va 0 src l m
  Written-none va src m k = record {
    mapped = k;
    same = λ x y. refl;
    inside = λ j y. absurd (omega arith);
    outside = λ c y. refl;
  }

  -- One round, then the rest.
  Written-append :
      (va n len : ℕ) (src : ℕ → ℕ) (m m₁ m₂ : Memory)
      → va + (n + len) ≤ max_va
      → IsWritable s m.bytes root va (n + len)
      → Written m s root va n src l m₁
      → Written m₁ s root (va + n) len (λ k. src (n + k)) l m₂
      → Written m s root va (n + len) src l m₂
  Written-append va n len src m m₁ m₂ top k a z =
      let address₁ = address_after va n src m m₁ a in
      record {
        mapped = z.mapped;
        same = λ w h. z.same w h ∙ a.same w h;
        inside = λ j h. elim (Bool-cases (ltb j n)) [
          | inl e ↦
              z.outside (user_at m.bytes root (va + j)) (λ i hi x.
                let y = x ∙ address₁ (va + n + i) (omega arith) in
                let same_at =
                  user_at_own s m.bytes root va (n + len) (va + j) (va + n + i) k (omega arith)
                    (omega arith) (omega arith) (omega arith) y in
                ground arith)
              ∙ a.inside j (ground arith)
          | inr e ↦
              let i = j - n in
              let sum : n + i ≡ j = ground arith in
              let at : va + n + i ≡ va + j = omega arith in
              rw (sym at, sym (address₁ (va + n + i) (omega arith)))
                (z.inside i (ground arith) ∙ ap src sum)
        ];
        outside = λ c away.
            z.outside c (λ i hi x.
              let at : va + n + i ≡ va + (n + i) = omega arith in
              away (n + i) (omega arith)
                (x ∙ address₁ (va + n + i) (omega arith) ∙ ap (user_at m.bytes root) at))
            ∙ a.outside c (λ i hi. away i (omega arith));
      }

  copy_to_loop_end :
      (fuel va : ℕ) (src : ℕ → ℕ) (m : Memory)
      → copy_to_loop fuel hart root va src 0 t m ≡ done (copied, t, m)
  unfolding copy_to_loop
  copy_to_loop_end zero va src m = refl
  copy_to_loop_end (suc fuel) va src m = refl

  write_user-page :
      (va n : ℕ) (src : ℕ → ℕ) (m : Memory)
      → va < max_va
      → is_valid (view m.bytes 2 root va) ≡ true
      → flag pte_w (view m.bytes 2 root va) ≡ true
      → write_user hart root va (pte_pa (view m.bytes 2 root va)) src n m
        ≡ done (true, page_written va n src m)
  unfolding write_user
  write_user-page va n src m h valid writable =
      let base = va / 4096 * 4096 in
      let page = view-page m.bytes root base va (omega arith) in
      let look = pte_walk_look hart root base m (omega arith) in
      let there : slot m.bytes 2 root base ≢ 0 =
        λ x. let zero_entry = view-none m.bytes root base x in ground arith in
      let nonnull : slot m.bytes 2 root base == 0 ≡ false = ground arith in
      let entry : get_word m.bytes (slot m.bytes 2 root base) ≡ view m.bytes 2 root va =
        sym (view-slot m.bytes root base there) ∙ page in
      rw (write_user, look, ◌>>=◌, nonnull, entry, writable) refl

  -- The loop from the address `va` on leaves `m'`.
  abbrev Copies : ℕ → ℕ → ℕ → (ℕ → ℕ) → ℕ → Memory → Type 0
  Copies fuel start va src len m =
      (m' : Memory) × (copy_to_loop fuel hart root start src len t m ≡ done (copied, t, m'))
      × Written m s root va len src l m'

  copy_to_loop-Written :
      (fuel va len : ℕ) (src : ℕ → ℕ) (m : Memory)
      → len ≤ fuel
      → IsMapped m s root l
      → IsWritable s m.bytes root va len
      → Copies fuel va va src len m
  unfolding copy_to_loop
  copy_to_loop-Written fuel va zero src m h k w =
      (m, copy_to_loop_end fuel va src m, Written-none va src m k)
  copy_to_loop-Written zero va (suc len) src m h k w = absurd (omega arith)
  copy_to_loop-Written (suc fuel) va (suc len) src m h k w =
      let n = chunk va (suc len) in
      let base = va / 4096 * 4096 in
      let entry = w.readable.entries va (omega arith) (omega arith) in
      let low : va < max_va = omega (arith, w.readable.top) in
      let here = page_of-view hart root va store t m low entry in
      let below : ltb max_va base ≡ false = ground (arith, w.readable.top) in
      let room : va % 4096 + n ≤ 4096 = ground arith in
      let some_left : suc len == 0 ≡ false = ground arith in
      let total : n + (suc len - n) ≡ suc len = ground arith in
      let write =
        write_user-page va n src m low entry.0 (w.writable va (omega arith) (omega arith)) in
      let first = page_written-Written va n src m k room (w.plain va (omega arith) (omega arith)) in
      let all : IsWritable s m.bytes root va (n + (suc len - n)) = rw total w in
      let m₁ = page_written va n src m in
      let rest : Copies fuel (base + 4096) (va + n) (λ j. src (n + j)) (suc len - n) m₁ =
        elim (Bool-cases (ltb (suc len) (4096 - va % 4096))) [
          | inl e ↦
              let last : suc len - n ≡ 0 = ground arith in
              rw last (
                m₁,
                copy_to_loop_end fuel (base + 4096) (λ j. src (n + j)) m₁,
                Written-none (va + n) (λ j. src (n + j)) m₁ first.mapped,
              )
          | inr e ↦
              let next : base + 4096 ≡ va + n = ground arith in
              rw next (
                copy_to_loop-Written fuel (va + n) (suc len - n) (λ j. src (n + j)) m₁
                  (ground arith) first.mapped
                  (IsWritable-after va n (suc len - n) src m m₁ all first))
        ] in
      let (m₂, run, written) = rest in
      (
        m₂,
        rw (copy_to_loop, some_left, below, here, ◌>>=◌, write) run,
        rw total at
            (Written-append va n (suc len - n) src m m₁ m₂ all.readable.top all first written),
      )

  -- For well-formed tables and a range below 2^38 whose addresses have valid entries for the user
  -- with the right to write, nonzero pages that are no tables, and different pages behind
  -- different pages of addresses, copy_to_user returns 0; the byte behind the address va + k is
  -- then the k-th of the source, every other byte of the memory and every entry is as it was, and
  -- the task is unchanged.
  pub copy_to_user-Written :
      (va len : ℕ) (src : ℕ → ℕ) (m : Memory)
      → IsMapped m s root l
      → IsWritable s m.bytes root va len
      → (m' : Memory) × (copy_to_user hart root va src len t m ≡ done (copied, t, m'))
        × Written m s root va len src l m'
  unfolding copy_to_user
  copy_to_user-Written va len src m k w = copy_to_loop-Written len va len src m (omega arith) k w

-- The list of the first `n` bytes of a source.
abbrev pub first_bytes : (ℕ → ℕ) → ℕ → List ℕ
first_bytes src zero = []
first_bytes src (suc n) = src 0 ∷ first_bytes (λ k. src (suc k)) n

user_bytes-first_bytes :
    (b : ℕ → ℕ) (root va n : ℕ) (src : ℕ → ℕ)
    → ((k : ℕ) → k < n → b (user_at b root (va + k)) ≡ src k)
    → user_bytes b root va n ≡ first_bytes src n
user_bytes-first_bytes b root va zero src h = refl
user_bytes-first_bytes b root va (suc n) src h =
    let start : va + 0 ≡ va = omega arith in
    let first : b (user_at b root va) ≡ src 0 = rw start at (h 0 (omega arith)) in
    let rest =
      user_bytes-first_bytes b root (va + 1) n (λ k. src (suc k))
        (λ k low.
          let at_k : va + suc k ≡ va + 1 + k = omega arith in
          rw at_k at (h (suc k) (omega arith))) in
    rw (first, rest) refl

-- Under the same conditions copy_to_user returns 0, and copy_from_user of the same range after it
-- returns 0 with the bytes of the source, in their order, whatever pages the range crosses.
pub copy_from_user-copy_to_user :
    (hart root va len : ℕ) (src : ℕ → ℕ) (t : Process) (m : Memory) (s : Shape) (l : List ℕ)
    → IsMapped m s root l
    → IsWritable s m.bytes root va len
    → (m' : Memory) × (copy_to_user hart root va src len t m ≡ done (copied, t, m'))
      × (copy_from_user hart root va len t m' ≡ done (copied, first_bytes src len, t, m'))
copy_from_user-copy_to_user hart root va len src t m s l k w =
    let (m', run, z) = copy_to_user-Written hart root t s l va len src m k w in
    let top : va + len ≤ max_va = w.readable.top in
    let readable : IsReadable m'.bytes root va len = record {
      top = top;
      entries = λ x low high. rw (z.same x (omega arith)) (w.readable.entries x low high);
    } in
    let bytes : user_bytes m'.bytes root va len ≡ first_bytes src len =
      user_bytes-first_bytes m'.bytes root va len src (λ j h.
        ap (λ p. m'.bytes (pte_pa p + (va + j) % 4096)) (z.same (va + j) (omega arith))
        ∙ z.inside j h) in
    (
      m',
      run,
      copy_from_user-user hart root t m' va len readable ∙ ap (λ x. done (copied, x, t, m')) bytes,
    )
