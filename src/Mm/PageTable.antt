-- ===== src/Mm/PageTable.antt =====
-- The page tables of mm/vm.c (Sv39, three levels). A table is named by its address; its entries are
-- words of the memory. 0 is the null pointer.
pub mod View
pub mod Shape
pub mod Fresh
pub mod Grow
pub mod Leaf
pub mod Mapping
pub mod Translate
pub mod Unmap
pub mod Boot
use loeux_riscv.Base.{
  ℕ, zero, suc, ◌+◌, ◌-◌, ◌*◌, ◌/◌, ◌%◌, ◌^◌, Bool, true, false, ◌&&◌, ◌||◌, not, Outcome, done,
  halt, spin, ◌>>=◌, ◌==◌, ltb, leb, if◌then◌else◌,
}
use loeux_riscv.Mm.Pages.{Memory, page_size, alloc_page, free_page}
use loeux_riscv.Mm.Words.{get_word, set_word}

abbrev pub max_va : ℕ
max_va = 2 ^ 38

abbrev pub px : ℕ → ℕ → ℕ
px level va = va / 2 ^ (12 + 9 * level) % 512

-- `PTE2PA`, in 64 bits.
unfoldable pub pte_pa : ℕ → ℕ
pte_pa p = p / 2 ^ 10 * 2 ^ 12 % 2 ^ 64

-- `PA2PTE`. Its low ten bits are 0, so that `|` with flags below 2^10 is a sum.
unfoldable pub pa_pte : ℕ → ℕ
pa_pte pa = pa / 2 ^ 12 * 2 ^ 10

-- Whether the flag of value `2 ^ k` is set.
abbrev pub flag : ℕ → ℕ → Bool
flag k p = p / 2 ^ k % 2 == 1

abbrev pub pte_v : ℕ
pte_v = 0

abbrev pub pte_r : ℕ
pte_r = 1

abbrev pub pte_w : ℕ
pte_w = 2

abbrev pub pte_x : ℕ
pte_x = 3

abbrev pub pte_u : ℕ
pte_u = 4

-- `perm | PTE_V`
abbrev pub with_valid : ℕ → ℕ
with_valid perm = if perm % 2 == 1 then perm else perm + 1

abbrev pub is_valid : ℕ → Bool
is_valid p = p % 2 == 1

-- `*p = v`
abbrev pub store : Memory → ℕ → ℕ → Memory
store m p v = record m { bytes = set_word m.bytes p v }

-- The loop of `pte_walk` from a table of the level on; the answer is the address of the entry of
-- the lowest level.
unfoldable pub walk_from : ℕ → ℕ → ℕ → ℕ → Bool → Memory → Outcome (ℕ × Memory)
walk_from hart zero pt va create m = done (pt + 8 * px 0 va, m)
walk_from hart (suc level) pt va create m =
    let p = pt + 8 * px (suc level) va in
    elim (is_valid (get_word m.bytes p)) [
      | true ↦ walk_from hart level (pte_pa (get_word m.bytes p)) va create m
      | false ↦ elim create [
        | false ↦ done (0, m)
        | true ↦ alloc_page hart m >>= λ r. elim (r.0 == 0) [
          | true ↦ done (0, r.1)
          | false ↦ walk_from hart level r.0 va true (store r.1 p (pa_pte r.0 + 1))
        ]
      ]
    ]

unfoldable pub pte_walk : ℕ → ℕ → ℕ → Bool → Memory → Outcome (ℕ × Memory)
unfolding walk_from
pte_walk hart pt va create m =
    if ltb max_va va then done (0, m) else walk_from hart 2 pt va create m

-- The loop of `mappages` for `n` pages: `false` is the answer -1. Its test `a == last` holds first
-- in round `size / PG_4K_SIZE`.
unfoldable pub map_loop : ℕ → ℕ → ℕ → ℕ → ℕ → ℕ → Memory → Outcome (Bool × Memory)
unfolding pte_walk
map_loop hart pt a pa perm zero m = done (true, m)
map_loop hart pt a pa perm (suc n) m = do
  (p, m') ← pte_walk hart pt a true m
  if p == 0
      then done (false, m')
      else if is_valid (get_word m'.bytes p)
      then halt
      else map_loop hart pt ((a + page_size) % 2 ^ 64) ((pa + page_size) % 2 ^ 64) perm n
          (store m' p (pa_pte pa + with_valid perm))

unfoldable pub mappages : ℕ → ℕ → ℕ → ℕ → ℕ → ℕ → Memory → Outcome (Bool × Memory)
unfolding map_loop
mappages hart pt va size pa perm m =
    if not (va % page_size == 0)
    then halt
    else if not (size % page_size == 0)
    then halt
    else if size == 0
    then halt
    else map_loop hart pt va pa perm (size / page_size) m

-- The loop of `kvminit`, which replaces an entry that is there.
unfoldable pub kvminit_loop : ℕ → ℕ → ℕ → ℕ → ℕ → ℕ → Memory → Outcome Memory
unfolding pte_walk
kvminit_loop hart pt vad pad flags zero m = done m
kvminit_loop hart pt vad pad flags (suc n) m = do
  (p, m') ← pte_walk hart pt vad true m
  if p == 0
      then halt
      else kvminit_loop hart pt ((vad + page_size) % 2 ^ 64) ((pad + page_size) % 2 ^ 64) flags n
          (store m' p (pa_pte pad + flags))

unfoldable pub kvminit : ℕ → ℕ → ℕ → ℕ → ℕ → ℕ → Memory → Outcome Memory
unfolding kvminit_loop
kvminit hart pt va pa pages flags m =
    kvminit_loop hart pt (va / page_size * page_size) (pa / page_size * page_size) flags pages m

-- `alloc_page` clears the page, so that the `memset` of `pg_create` changes nothing.
unfoldable pub pg_create : ℕ → Memory → Outcome (ℕ × Memory)
pg_create hart m = alloc_page hart m

-- A round of `pg_unmap` at the address `a`.
unfoldable pub unmap_page : ℕ → ℕ → ℕ → Bool → Memory → Outcome Memory
unfolding pte_walk
unmap_page hart pt a do_free m = do
  (p, m₁) ← pte_walk hart pt a false m
  let entry = get_word m₁.bytes p
  if p == 0
      then done m₁
      else if not (is_valid entry)
      then done m₁
      else if do_free
      then (free_page hart m₁ (pte_pa entry) >>= λ r. done (store r.1 p 0))
      else done (store m₁ p 0)

unfoldable pub unmap_loop : ℕ → ℕ → ℕ → Bool → ℕ → Memory → Outcome Memory
unfolding unmap_page
unmap_loop hart pt a do_free zero m = done m
unmap_loop hart pt a do_free (suc n) m = do
  m' ← unmap_page hart pt a do_free m
  unmap_loop hart pt (a + page_size) do_free n m'

-- The loop runs to `va + npages * PG_4K_SIZE`, which stays in 64 bits for every range of the code.
unfoldable pub pg_unmap : ℕ → ℕ → ℕ → ℕ → Bool → Memory → Outcome Memory
unfolding unmap_loop
pg_unmap hart pt va npages do_free m =
    if not (va % page_size == 0) then halt else unmap_loop hart pt va do_free npages m

-- The loop of `freewalk` over the entries from `i` on, `n` of them, with the call for a child.
unfoldable pub freewalk_loop : (ℕ → Memory → Outcome Memory) → ℕ → ℕ → ℕ → Memory → Outcome Memory
freewalk_loop child pt i zero m = done m
freewalk_loop child pt i (suc n) m =
    let p = get_word m.bytes (pt + 8 * i) in
    if is_valid p && not (flag pte_r p || (flag pte_w p || flag pte_x p))
    then (child (pte_pa p) m >>= λ m'. freewalk_loop child pt (i + 1) n (store m' (pt + 8 * i) 0))
    else if is_valid p
    then halt
    else freewalk_loop child pt (i + 1) n m

-- `freewalk`, on fuel for the levels of tables below and at this one.
unfoldable pub freewalk : ℕ → ℕ → ℕ → Memory → Outcome Memory
unfolding freewalk_loop
freewalk hart zero pt m = spin
freewalk hart (suc fuel) pt m =
    freewalk_loop (freewalk hart fuel) pt 0 512 m >>= λ m'. free_page hart m' pt >>= λ r. done r.1

-- `walkaddr` after its test of `va`.
unfoldable pub walkaddr_from : ℕ → ℕ → ℕ → Memory → Outcome ℕ
unfolding pte_walk
walkaddr_from hart pt va m = do
  (p, m') ← pte_walk hart pt va false m
  let entry = get_word m'.bytes p
  if p == 0
      then done 0
      else if not (is_valid entry)
      then done 0
      else if not (flag pte_u entry)
      then done 0
      else done (pte_pa entry)

unfoldable pub walkaddr : ℕ → ℕ → ℕ → Memory → Outcome ℕ
unfolding walkaddr_from
walkaddr hart pt va m = if leb max_va va then done 0 else walkaddr_from hart pt va m

-- `va2pa` without the limit on `va`. `PTE2PA(*p) | (va & 0xFFF)` is a sum; -1 is 2^64 - 1.
unfoldable pub va2pa_from : ℕ → ℕ → ℕ → Memory → ℕ
va2pa_from zero pt va m =
    let p = get_word m.bytes (pt + 8 * px 0 va) in
    if not (is_valid p) then 2 ^ 64 - 1 else pte_pa p + va % 2 ^ 12
va2pa_from (suc level) pt va m =
    let p = get_word m.bytes (pt + 8 * px (suc level) va) in
    let rest = va2pa_from level (pte_pa p) va m in if not (is_valid p) then 2 ^ 64 - 1 else rest

unfoldable pub va2pa : ℕ → ℕ → Memory → ℕ
unfolding va2pa_from
va2pa pt va m = va2pa_from 2 pt va m
