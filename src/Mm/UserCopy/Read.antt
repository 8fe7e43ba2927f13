-- ===== src/Mm/UserCopy/Read.antt =====
-- `copy_from_user` reads what the user's addresses mean.
use loeux_riscv.Base.{
  ℕ, zero, suc, ◌+◌, ◌-◌, ◌*◌, ◌/◌, ◌%◌, ◌≤◌, ◌<◌, true, false, ◌==◌, ltb, some, List, [], ◌∷◌,
  ◌++◌, done, ◌>>=◌, ◌≡◌, ◌≢◌, inl, inr, refl, sym, ◌∙◌, ap, arith, Bool-cases,
}
use loeux_riscv.Mm.Pages.{Memory}
use loeux_riscv.Mm.PageTable.{max_va, pte_pa, flag, pte_u, is_valid}
use loeux_riscv.Mm.PageTable.View.{view}
use loeux_riscv.Mm.PageTable.Translate.{walkaddr-view}
use loeux_riscv.Mm.PageTable.Unmap.{view-page}
use loeux_riscv.Mm.UserCopy.{
  PageFault, Process, load, copied, read_bytes, page_of, chunk, copy_from_loop, copy_from_user,
}

-- The physical address of a user's byte.
abbrev pub user_at : (ℕ → ℕ) → ℕ → ℕ → ℕ
user_at b root w = pte_pa (view b 2 root w) + w % 4096

-- The `n` bytes that a user sees from `va` on.
abbrev pub user_bytes : (ℕ → ℕ) → ℕ → ℕ → ℕ → List ℕ
user_bytes b root va zero = []
user_bytes b root va (suc n) = b (user_at b root va) ∷ user_bytes b root (va + 1) n

-- The entry gives a user a page.
abbrev pub IsUserEntry : ℕ → Type 0
IsUserEntry entry = (is_valid entry ≡ true) × (flag pte_u entry ≡ true) × (pte_pa entry ≢ 0)

-- The user has a page at each address of the range.
pub record IsReadable (b : ℕ → ℕ) (root va len : ℕ) : Type 0 where
  pub top : va + len ≤ max_va
  pub entries : (w : ℕ) → va ≤ w → w < va + len → IsUserEntry (view b 2 root w)

pub page_of-view :
    (hart root va : ℕ) (type : PageFault) (t : Process) (m : Memory)
    → va < max_va
    → IsUserEntry (view m.bytes 2 root va)
    → page_of hart root (va / 4096 * 4096) type t m
      ≡ done (some (pte_pa (view m.bytes 2 root va)), t, m)
unfolding page_of
page_of-view hart root va type t m h u =
    let base = va / 4096 * 4096 in
    let page : view m.bytes 2 root base ≡ view m.bytes 2 root va =
      view-page m.bytes root base va (omega arith) in
    let below : ltb base max_va ≡ true = ground arith in
    let nonnull : pte_pa (view m.bytes 2 root va) == 0 ≡ false = ground (arith, u.2) in
    rw (page_of, walkaddr-view hart root base m, below, page, u.0, u.1, ◌>>=◌, nonnull) refl

pub user_bytes-append :
    (b : ℕ → ℕ) (root va n k : ℕ)
    → user_bytes b root va n ++ user_bytes b root (va + n) k ≡ user_bytes b root va (n + k)
user_bytes-append b root va zero k =
    let e : va + 0 ≡ va = omega arith in let f : 0 + k ≡ k = omega arith in rw (e, f) refl
user_bytes-append b root va (suc n) k =
    let e : va + suc n ≡ va + 1 + n = omega arith in
    let f : suc n + k ≡ suc (n + k) = omega arith in
    rw (e, f) (ap (λ l. b (user_at b root va) ∷ l) (user_bytes-append b root (va + 1) n k))

pub user_at-add :
    (b : ℕ → ℕ) (root va k : ℕ)
    → va % 4096 + k < 4096
    → user_at b root (va + k) ≡ user_at b root va + k
user_at-add b root va k h =
    let page = view-page b root (va + k) va (omega arith) in rw page (omega arith)

-- The bytes of one page.
pub read_bytes-user :
    (b : ℕ → ℕ) (root va n : ℕ)
    → va % 4096 + n ≤ 4096
    → read_bytes b (user_at b root va) n ≡ user_bytes b root va n
unfolding read_bytes
read_bytes-user b root va zero h = refl
read_bytes-user b root va (suc zero) h = refl
read_bytes-user b root va (suc (suc n)) h =
    let next = sym (user_at-add b root va 1 (omega arith)) in
    ap (λ l. b (user_at b root va) ∷ l)
      (ap (λ a. read_bytes b a (suc n)) next
        ∙ read_bytes-user b root (va + 1) (suc n) (omega arith))

module _ (hart root : ℕ) (t : Process) (m : Memory) where
  copy_from_loop_end :
      (fuel va : ℕ) → copy_from_loop fuel hart root va 0 t m ≡ done (copied, [], t, m)
  unfolding copy_from_loop
  copy_from_loop_end zero va = refl
  copy_from_loop_end (suc fuel) va = refl

  copy_from_loop-user :
      (fuel va len : ℕ)
      → len ≤ fuel
      → IsReadable m.bytes root va len
      → copy_from_loop fuel hart root va len t m
        ≡ done (copied, user_bytes m.bytes root va len, t, m)
  unfolding copy_from_loop
  copy_from_loop-user fuel va zero h r = copy_from_loop_end fuel va
  copy_from_loop-user zero va (suc len) h r = absurd (omega arith)
  copy_from_loop-user (suc fuel) va (suc len) h r =
      let n = chunk va (suc len) in
      let base = va / 4096 * 4096 in
      let here =
        page_of-view hart root va load t m (omega (arith, r.top))
          (r.entries va (omega arith) (omega arith)) in
      let below : ltb max_va base ≡ false = ground (arith, r.top) in
      let room : va % 4096 + n ≤ 4096 = ground arith in
      let some_left : suc len == 0 ≡ false = ground arith in
      let total : n + (suc len - n) ≡ suc len = ground arith in
      let rest : copy_from_loop fuel hart root (base + 4096) (suc len - n) t m
          ≡ done (copied, user_bytes m.bytes root (va + n) (suc len - n), t, m) =
        elim (Bool-cases (ltb (suc len) (4096 - va % 4096))) [
          | inl e ↦
              let last : suc len - n ≡ 0 = ground arith in
              rw last (copy_from_loop_end fuel (base + 4096))
          | inr e ↦
              let next : base + 4096 ≡ va + n = ground arith in
              let room_left : n + (suc len - n) ≡ suc len = ground arith in
              rw next (
                copy_from_loop-user fuel (va + n) (suc len - n) (ground arith) (record {
                  top = ground (arith, r.top);
                  entries = λ w low high. r.entries w (ground arith) (ground arith);
                }))
        ] in
      rw
        (
          copy_from_loop,
          some_left,
          below,
          here,
          ◌>>=◌,
          rest,
          read_bytes-user m.bytes root va n room,
          user_bytes-append m.bytes root va n (suc len - n),
          total,
        )
        refl

  -- copy_from_user reads what the user sees.
  pub copy_from_user-user :
      (va len : ℕ)
      → IsReadable m.bytes root va len
      → copy_from_user hart root va len t m ≡ done (copied, user_bytes m.bytes root va len, t, m)
  unfolding copy_from_user
  copy_from_user-user va len r = copy_from_loop-user len va len (omega arith) r
