-- ===== src/Mm/Pages.antt =====
-- The page allocator of mm/memory.c: the array of `struct page`, the free list that runs through it,
-- and the bytes behind the pages. A pointer to a page is the page's index, the null pointer `none`;
-- an address is a number, 0 is NULL.
pub mod Queue
pub mod Laws
use loeux_riscv.Base.{
  update, ℕ, ◌+◌, ◌-◌, ◌*◌, ◌/◌, ◌%◌, ◌^◌, Bool, true, false, ◌&&◌, ◌||◌, not, Option, none, some,
  Outcome, done, halt, ◌>>=◌, ◌==◌, ltb, leb, if◌then◌else◌,
}
use loeux_riscv.Sync.Spinlock.{Spinlock, take, drop}

-- `struct page`. `refcount` is an `int32_t` that never gets near its limits or below 0.
pub record Page : Type 0 where
  pub paddr : ℕ
  pub refcount : ℕ
  pub flags : ℕ
  pub slab : ℕ
  pub prev : Option ℕ
  pub next : Option ℕ

-- The fields of `gmd` that the allocator uses, the page array, `memory_lock` and the memory.
pub record Memory : Type 0 where
  pub pages : ℕ → Page
  pub free_head : Option ℕ
  pub free_tail : Option ℕ
  pub free_start_at : ℕ
  pub free_end_at : ℕ
  pub lock : Spinlock
  pub bytes : ℕ → ℕ

abbrev pub page_size : ℕ
page_size = 4096

abbrev pub memory_start : ℕ
memory_start = 0x8000_0000

-- `PHY_TO_PAGE`, in 64 bits.
unfoldable pub phy_to_page : ℕ → ℕ
phy_to_page phys = (phys + 2 ^ 64 - memory_start) % 2 ^ 64 / page_size

-- `memset((char*)paddr, 0, PG_4K_SIZE)`
unfoldable pub clear_page : (ℕ → ℕ) → ℕ → ℕ → ℕ
clear_page bytes p a = if leb p a && ltb a (p + page_size) then 0 else bytes a

abbrev pub flag_free : ℕ
flag_free = 0

abbrev pub flag_used : ℕ
flag_used = 2

-- `flags & PG_FLAG_RESERVED` and `flags & PG_FLAG_USED`
unfoldable pub is_reserved : Page → Bool
is_reserved p = p.flags % 2 == 1

unfoldable pub is_used : Page → Bool
is_used p = p.flags / 2 % 2 == 1

-- The head of the free list leaves it. The page that becomes the head keeps its `prev`.
unfoldable pub alloc_page : ℕ → Memory → Outcome (ℕ × Memory)
unfolding clear_page
alloc_page hart m = do
  lk ← take hart m.lock
  elim m.free_head [
    | none ↦ do lk' ← drop hart lk; done (0, record m { lock = lk' })
    | some i ↦ do
      let p = m.pages i
      lk' ← drop hart lk
      done (
        p.paddr,
        record m {
          free_head = p.next;
          free_tail = elim p.next [ none ↦ none | some j ↦ m.free_tail ];
          pages = update m.pages i (record p {
            next = none;
            prev = none;
            flags = flag_used;
            refcount = p.refcount + 1;
            slab = 0;
          });
          lock = lk';
          bytes = clear_page m.bytes p.paddr;
        },
      )
  ]

-- `pg->prev = gmd.free_tail; ...`: the page `i` becomes the tail of the free list.
unfoldable pub push_tail : Memory → ℕ → Memory
push_tail m i =
    let cleaned =
      update m.pages i
        (record (m.pages i) { flags = flag_free; next = none; prev = m.free_tail }) in
    elim m.free_tail [
      | none ↦ record m { pages = cleaned; free_head = some i; free_tail = some i }
      | some t ↦ record m {
        pages = update cleaned t (record (cleaned t) { next = some i });
        free_tail = some i;
      }
    ]

-- `free_page` from the acquisition of the lock on, for the page `i`.
unfoldable pub free_locked : ℕ → Memory → ℕ → Outcome (ℕ × Memory)
free_locked hart m i = do
  lk ← take hart m.lock
  lk' ← drop hart lk
  let p = m.pages i
  let count = if ltb 0 p.refcount then p.refcount - 1 else p.refcount
  let m₁ = record m { pages = update m.pages i (record p { refcount = count }); lock = lk' }
  let m₂ = push_tail m₁ i
  if is_reserved p
      then halt
      else if not (is_used p)
      then halt
      else if ltb 0 count
      then done (0, m₁)
      else done (0, record m₂ { bytes = clear_page m.bytes p.paddr })

unfoldable pub free_page : ℕ → Memory → ℕ → Outcome (ℕ × Memory)
free_page hart m pa =
    if pa == 0
    then halt
    else if not (pa % page_size == 0) || ltb pa m.free_start_at || ltb m.free_end_at pa
    then halt
    else free_locked hart m (phy_to_page pa)
