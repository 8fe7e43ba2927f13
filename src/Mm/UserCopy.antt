-- ===== src/Mm/UserCopy.antt =====
-- Page faults and the copies between the kernel and a user's memory, in mm/vm.c.
pub mod Apart
pub mod Read
pub mod Write
pub mod Strings
pub mod Taken
pub mod Fault
use loeux_riscv.Base.{
  ℕ, zero, suc, ◌+◌, ◌-◌, ◌*◌, ◌/◌, ◌%◌, ◌^◌, Bool, true, false, ◌&&◌, ◌||◌, not, Option, none,
  some, List, [], ◌∷◌, ◌++◌, Outcome, done, halt, spin, ◌>>=◌, ◌==◌, ltb, leb, if◌then◌else◌,
}
use loeux_riscv.Sync.Spinlock.{Spinlock, take, drop}
use loeux_riscv.Mm.Pages.{Memory, page_size, alloc_page, free_page}
use loeux_riscv.Mm.Words.{get_word}
use loeux_riscv.Mm.PageTable.{max_va, flag, pte_w, pte_walk, mappages, walkaddr}

-- `enum page_fault_type`
pub data PageFault : Type 0 where
  load : PageFault
  store : PageFault
  instruction : PageFault

unfoldable pub get_page_fault_type : ℕ → PageFault
get_page_fault_type scause =
    if scause == 13
    then load
    else if scause == 15
    then store
    else if scause == 12
    then instruction
    else instruction

-- The fields of the running task that a page fault uses.
pub record Process : Type 0 where
  pub pg : ℕ
  pub heap_start : ℕ
  pub heap_brk : ℕ
  pub lk : Spinlock

abbrev pub is_data_access : PageFault → Bool
is_data_access load = true
is_data_access store = true
is_data_access instruction = false

-- `PTE_V | PTE_W | PTE_R | PTE_U`
abbrev pub user_perm : ℕ
user_perm = 23

-- The fault handler from the call of `mappages` on, for the page `pa`. The answer is the page.
unfoldable pub map_fault : ℕ → ℕ → ℕ → Process → Memory → Outcome (Option ℕ × Process × Memory)
map_fault hart va pa t m = do
  lk ← take hart t.lk
  (is_mapped, m₁) ← mappages hart t.pg va page_size pa user_perm m
  lk' ← drop hart lk
  let t' = record t { lk = lk' }
  if is_mapped then done (some pa, t', m₁) else (free_page hart m₁ pa >>= λ r. done (none, t', r.1))

-- `do_page_fault_with_new_pa`; `none` is the answer -1. `alloc_page` clears the page, so that the
-- `memset` changes nothing.
unfoldable pub do_page_fault_with_new_pa :
    ℕ → ℕ → PageFault → Process → Memory → Outcome (Option ℕ × Process × Memory)
do_page_fault_with_new_pa hart fault_addr type t m =
    if not (is_data_access type)
    then done (none, t, m)
    else if ltb fault_addr t.heap_start || leb t.heap_brk fault_addr
    then done (none, t, m)
    else (alloc_page hart m >>= λ r.
        if r.0 == 0
        then done (none, t, r.1)
        else map_fault hart (fault_addr / page_size * page_size) r.0 t r.1)

-- `do_page_fault`, which has the same body; `true` is a call of `to_kill`.
unfoldable pub do_page_fault :
    ℕ → ℕ → PageFault → Process → Memory → Outcome (Bool × Process × Memory)
do_page_fault hart fault_addr type t m = do
  (pa, t', m') ← do_page_fault_with_new_pa hart fault_addr type t m
  done (elim pa [ none ↦ true | some a ↦ false ], t', m')

-- What the copies answer: 0, -1 or EFAULT.
pub data Copy : Type 0 where
  copied : Copy
  refused : Copy
  fault : Copy

-- `memmove` of `n` bytes to `a`. The source `src` gives the byte at each offset: it lies outside of
-- the memory that the copy writes.
unfoldable pub write_bytes : (ℕ → ℕ) → ℕ → (ℕ → ℕ) → ℕ → ℕ → ℕ
write_bytes b a src n k = if leb a k && ltb k (a + n) then src (k - a) else b k

-- `memmove` of `n` bytes from `a`.
unfoldable pub read_bytes : (ℕ → ℕ) → ℕ → ℕ → List ℕ
read_bytes b a zero = []
read_bytes b a (suc n) = b a ∷ read_bytes b (a + 1) n

-- The page behind `va0`, after a page fault where `walkaddr` finds none.
unfoldable pub page_of :
    ℕ → ℕ → ℕ → PageFault → Process → Memory → Outcome (Option ℕ × Process × Memory)
page_of hart pt va0 type t m = do
  pa0 ← walkaddr hart pt va0 m
  if pa0 == 0 then do_page_fault_with_new_pa hart va0 type t m else done (some pa0, t, m)

-- `n`, the bytes of this round.
abbrev pub chunk : ℕ → ℕ → ℕ
chunk va len = if ltb len (page_size - va % page_size) then len else page_size - va % page_size

-- The round of `copy_to_user` once the page is known. A NULL from `pte_walk` is read through, which
-- traps in the kernel and stops it.
unfoldable pub write_user : ℕ → ℕ → ℕ → ℕ → (ℕ → ℕ) → ℕ → Memory → Outcome (Bool × Memory)
write_user hart pt dstva pa0 src n m = do
  (p, m') ← pte_walk hart pt (dstva / page_size * page_size) false m
  if p == 0
      then halt
      else if not (flag pte_w (get_word m'.bytes p))
      then done (false, m')
      else done (true, record m' { bytes = write_bytes m'.bytes (pa0 + dstva % page_size) src n })

-- The loop of `copy_to_user`, each round of which copies a byte at least.
unfoldable pub copy_to_loop :
    ℕ → ℕ → ℕ → ℕ → (ℕ → ℕ) → ℕ → Process → Memory → Outcome (Copy × Process × Memory)
copy_to_loop zero hart pt dstva src len t m = if len == 0 then done (copied, t, m) else spin
copy_to_loop (suc fuel) hart pt dstva src len t m =
    let va0 = dstva / page_size * page_size in
    let n = chunk dstva len in
    if len == 0
    then done (copied, t, m)
    else if ltb max_va va0
    then done (refused, t, m)
    else (page_of hart pt va0 store t m >>= λ r. elim r.0 [
      | none ↦ done (fault, r.1, r.2)
      | some pa0 ↦ write_user hart pt dstva pa0 src n r.2 >>= λ w. elim w.0 [
        | false ↦ done (refused, r.1, w.1)
        | true ↦ copy_to_loop fuel hart pt (va0 + page_size) (λ k. src (n + k)) (len - n) r.1 w.1
      ]
    ])

unfoldable pub copy_to_user :
    ℕ → ℕ → ℕ → (ℕ → ℕ) → ℕ → Process → Memory → Outcome (Copy × Process × Memory)
copy_to_user hart pt dstva src len t m = copy_to_loop len hart pt dstva src len t m

-- The loop of `copy_from_user`, with the bytes that it wrote to its destination.
unfoldable pub copy_from_loop :
    ℕ → ℕ → ℕ → ℕ → ℕ → Process → Memory → Outcome (Copy × List ℕ × Process × Memory)
copy_from_loop zero hart pt srcva len t m = if len == 0 then done (copied, [], t, m) else spin
copy_from_loop (suc fuel) hart pt srcva len t m =
    let va0 = srcva / page_size * page_size in
    let n = chunk srcva len in
    if len == 0
    then done (copied, [], t, m)
    else if ltb max_va va0
    then done (refused, [], t, m)
    else (page_of hart pt va0 load t m >>= λ r. elim r.0 [
      | none ↦ done (fault, [], r.1, r.2)
      | some pa0 ↦ copy_from_loop fuel hart pt (va0 + page_size) (len - n) r.1 r.2 >>= λ w.
          done (w.0, read_bytes r.2.bytes (pa0 + srcva % page_size) n ++ w.1, w.2, w.3)
    ])

unfoldable pub copy_from_user :
    ℕ → ℕ → ℕ → ℕ → Process → Memory → Outcome (Copy × List ℕ × Process × Memory)
copy_from_user hart pt srcva len t m = copy_from_loop len hart pt srcva len t m

-- The inner loop of `copy_str_from_user` over the `n` bytes of a page: whether the string ended, and
-- what it wrote.
unfoldable pub scan_page : (ℕ → ℕ) → ℕ → ℕ → Bool × List ℕ
scan_page b a zero = (false, [])
scan_page b a (suc n) =
    let rest = scan_page b (a + 1) n in if b a == 0 then (true, 0 ∷ []) else (rest.0, b a ∷ rest.1)

-- The outer loop, with the bytes that it wrote; `max` bytes are left. Where the string goes on, the
-- inner loop took `n` from `max`.
unfoldable pub copy_str_loop :
    ℕ → ℕ → ℕ → ℕ → ℕ → Process → Memory → Outcome (Copy × List ℕ × Process × Memory)
copy_str_loop zero hart pt srcva max t m = if max == 0 then done (refused, [], t, m) else spin
copy_str_loop (suc fuel) hart pt srcva max t m =
    let va0 = srcva / page_size * page_size in
    let n = chunk srcva max in
    if max == 0
    then done (refused, [], t, m)
    else if ltb max_va va0
    then done (refused, [], t, m)
    else (page_of hart pt va0 load t m >>= λ r. elim r.0 [
      | none ↦ done (fault, [], r.1, r.2)
      | some pa0 ↦ elim (scan_page r.2.bytes (pa0 + srcva % page_size) n).0 [
        | true ↦ done (copied, (scan_page r.2.bytes (pa0 + srcva % page_size) n).1, r.1, r.2)
        | false ↦ copy_str_loop fuel hart pt (va0 + page_size) (max - n) r.1 r.2 >>= λ w.
            done (w.0, (scan_page r.2.bytes (pa0 + srcva % page_size) n).1 ++ w.1, w.2, w.3)
      ]
    ])

unfoldable pub copy_str_from_user :
    ℕ → ℕ → ℕ → ℕ → Process → Memory → Outcome (Copy × List ℕ × Process × Memory)
copy_str_from_user hart pt srcva max t m = copy_str_loop max hart pt srcva max t m
