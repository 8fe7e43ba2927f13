-- ===== src/Mm/Slab.antt =====
-- The slab allocator of mm/slab.c over the page allocator. A slab is named by the address of its
-- `slab_t`, 0 is NULL. `links` holds the first eight bytes of every free object and free `slab_t`,
-- where the next one of its list is written; nothing else of a free object is looked at.
pub mod Carve
pub mod Objects
pub mod Storage
use loeux_riscv.Base.{
  ℕ, zero, suc, ◌+◌, ◌-◌, ◌*◌, ◌/◌, ◌%◌, ◌^◌, Bool, true, false, ◌&&◌, ◌||◌, not, update, Outcome,
  done, halt, spin, ◌>>=◌, ◌==◌, ltb, leb, if◌then◌else◌,
}
use loeux_riscv.Mm.Pages.{Page, Memory, alloc_page, phy_to_page, page_size}
use loeux_riscv.Mm.SizeClass.{slab_round_up, ctz}
use loeux_riscv.Sync.Spinlock.{Spinlock, init_spinlock, take, drop}

pub record Slab : Type 0 where
  pub lock : Spinlock
  pub freelist : ℕ
  pub next : ℕ
  pub object_size : ℕ
  pub total : ℕ
  pub free : ℕ

pub record MetaPool : Type 0 where
  pub lock : Spinlock
  pub freelist : ℕ
  pub end : ℕ
  pub total : ℕ
  pub free : ℕ

-- The memory, the lists through it, the slabs by their addresses, and the two global objects.
pub record Slabs : Type 0 where
  pub memory : Memory
  pub links : ℕ → ℕ
  pub slabs : ℕ → Slab
  pub caches : ℕ → ℕ
  pub pool : MetaPool

-- `sizeof(slab_t)` and how many a page has.
abbrev pub slab_t_size : ℕ
slab_t_size = 64

abbrev pub slab_count : ℕ
slab_count = 64

-- The loop that links the `n + 1` objects of `size` bytes from the address `base` on; the link of the
-- last one is `tail`.
unfoldable pub carve : (ℕ → ℕ) → ℕ → ℕ → ℕ → ℕ → ℕ → ℕ
carve links base size zero tail = update links base tail
carve links base size (suc n) tail =
    carve (update links base (base + size)) (base + size) size n tail

-- `slab_free_meta`
unfoldable pub slab_free_meta : ℕ → Slabs → ℕ → Outcome Slabs
slab_free_meta hart g slab = do
  lk ← take hart g.pool.lock
  lk' ← drop hart lk
  done (record g {
    links = update g.links slab g.pool.freelist;
    pool = record g.pool { lock = lk'; freelist = slab; free = g.pool.free + 1 };
  })

-- A page that `inflate_slab_meta_pool` adds at the end of the list: the link of its last `slab_t` is
-- set when the next page comes, or to 0 after the last page.
unfoldable pub add_meta_page : Slabs → ℕ → Slabs
unfolding carve
add_meta_page g page = record g {
  links =
      carve (if g.pool.end == 0 then g.links else update g.links g.pool.end page) page slab_t_size
        (slab_count - 1) 0;
  pool = record g.pool {
    freelist = if g.pool.end == 0 then page else g.pool.freelist;
    end = page + (slab_count - 1) * slab_t_size;
    total = g.pool.total + slab_count;
    free = g.pool.free + slab_count;
  };
}

-- `inflate_slab_meta_pool`, with the pool's lock held.
unfoldable pub inflate_slab_meta_pool : ℕ → Slabs → ℕ → Outcome Slabs
unfolding add_meta_page
inflate_slab_meta_pool hart g zero = done g
inflate_slab_meta_pool hart g (suc n) = do
  (page, m) ← alloc_page hart g.memory
  if page == 0
      then halt
      else inflate_slab_meta_pool hart (add_meta_page (record g { memory = m }) page) n

unfoldable pub grow_pool : ℕ → Slabs → Outcome Slabs
unfolding inflate_slab_meta_pool
grow_pool hart g = do
  lk ← take hart g.pool.lock
  let locked = record g { pool = record g.pool { lock = lk } }
  g' ← (if g.pool.free == 1 then inflate_slab_meta_pool hart locked 2 else done locked)
  lk' ← drop hart g'.pool.lock
  done (record g' { pool = record g'.pool { lock = lk' } })

unfoldable pub take_meta : ℕ → Slabs → Outcome (ℕ × Slabs)
take_meta hart g = do
  lk ← take hart g.pool.lock
  lk' ← drop hart lk
  done (
    g.pool.freelist,
    record g {
      pool = record g.pool {
        lock = lk';
        freelist = g.links g.pool.freelist;
        free = (g.pool.free + 2 ^ 64 - 1) % 2 ^ 64;
      };
    },
  )

unfoldable pub slab_alloc_meta : ℕ → Slabs → Outcome (ℕ × Slabs)
unfolding grow_pool take_meta
slab_alloc_meta hart g = do
  g' ← (if g.pool.free == 1 then grow_pool hart g else done g)
  take_meta hart g'

-- `do_create_slab_object_storage`: `true` is the answer 0.
unfoldable pub do_create_slab_object_storage : ℕ → Slabs → ℕ → Outcome (Bool × Slabs)
unfolding carve
do_create_slab_object_storage hart g s = do
  (page, m) ← alloc_page hart g.memory
  let i = phy_to_page page
  let sl = g.slabs s
  if page == 0
      then done (false, record g { memory = m })
      else done (
        true,
        record g {
          memory = record m { pages = update m.pages i (record (m.pages i) { slab = s }) };
          links = carve g.links page sl.object_size (sl.total - 1) 0;
          slabs = update g.slabs s (record sl { freelist = page });
        },
      )

unfoldable pub do_create_new_slab : ℕ → Slabs → ℕ → Outcome (ℕ × Slabs)
unfolding slab_alloc_meta slab_free_meta do_create_slab_object_storage
do_create_new_slab hart g father = do
  (s, g') ← slab_alloc_meta hart g
  let f = g'.slabs father
  let fresh : Slab = record {
    lock = init_spinlock;
    freelist = (g'.slabs s).freelist;
    next = 0;
    object_size = f.object_size;
    total = f.total;
    free = f.total;
  }
  if s == 0
      then done (0, g')
      else do_create_slab_object_storage hart (record g' { slabs = update g'.slabs s fresh }) s
        >>= λ r. if r.0 then done (s, r.1) else slab_free_meta hart r.1 s >>= λ g''. done (0, g'')

-- The first object of the slab `s`, whose lock is held as `lk`, leaves its list.
unfoldable pub pop_object : ℕ → Slabs → ℕ → Spinlock → Outcome (ℕ × Slabs)
pop_object hart g s lk = do
  let sl = g.slabs s
  lk' ← drop hart lk
  done (
    sl.freelist,
    record g {
      slabs =
          update g.slabs s
            (record sl { lock = lk'; freelist = g.links sl.freelist; free = sl.free - 1 });
    },
  )

-- A new slab is linked behind the last one, `s`, whose lock is held.
unfoldable pub extend : ℕ → Slabs → ℕ → Spinlock → Outcome (ℕ × Slabs)
unfolding do_create_new_slab
extend hart g s lk = do
  (new, g') ←
      do_create_new_slab hart
        (record g { slabs = update g.slabs s (record (g.slabs s) { lock = lk }) }) s
  lk' ← drop hart lk
  let sl = g'.slabs s
  done (
    new,
    record g' {
      slabs =
          update g'.slabs s (record sl { next = if new == 0 then sl.next else new; lock = lk' });
    },
  )

-- The loop of `slab_alloc` along the slabs of a class, on fuel.
unfoldable pub alloc_from : ℕ → ℕ → Slabs → ℕ → Outcome (ℕ × Slabs)
unfolding pop_object extend
alloc_from zero hart g s = spin
alloc_from (suc n) hart g s = take hart (g.slabs s).lock >>= λ lk. elim ((g.slabs s).free == 0) [
  | false ↦ pop_object hart g s lk
  | true ↦ elim ((g.slabs s).next == 0) [
    | false ↦ drop hart lk >>= λ lk'. alloc_from n hart g (g.slabs s).next
    | true ↦ extend hart g s lk >>= λ r. elim (r.0 == 0) [
      | true ↦ done (0, r.1)
      | false ↦ alloc_from n hart r.1 r.0
    ]
  ]
]

unfoldable pub slab_alloc : ℕ → ℕ → Slabs → ℕ → Outcome (ℕ × Slabs)
unfolding alloc_from
slab_alloc fuel hart g size =
    let r = slab_round_up size in
    let i = ctz r - 3 in
    if r == 0
    then done (0, g)
    else if ltb (ctz r) 3 || ltb 9 i
    then done (0, g)
    else alloc_from fuel hart g (g.caches i)

unfoldable pub do_free_slab_object_from_out : ℕ → Slabs → ℕ → ℕ → Outcome Slabs
do_free_slab_object_from_out hart g s ptr = do
  let sl = g.slabs s
  lk ← take hart sl.lock
  lk' ← drop hart lk
  done (record g {
    links = update g.links ptr sl.freelist;
    slabs = update g.slabs s (record sl { lock = lk'; freelist = ptr; free = sl.free + 1 });
  })

unfoldable pub slab_free : ℕ → Slabs → ℕ → Outcome Slabs
unfolding do_free_slab_object_from_out
slab_free hart g ptr =
    let pg = g.memory.pages (phy_to_page ptr) in
    let offset = (ptr + 2 ^ 64 - pg.paddr) % 2 ^ 64 in
    if ptr == 0
    then halt
    else if pg.slab == 0
    then halt
    else if leb page_size offset || not (offset % (g.slabs pg.slab).object_size == 0)
    then halt
    else do_free_slab_object_from_out hart g pg.slab ptr

-- `init_slab_meta_pool`: a first page by itself, then two more.
unfoldable pub init_slab_meta_pool : ℕ → Slabs → Outcome Slabs
unfolding carve inflate_slab_meta_pool
init_slab_meta_pool hart g = do
  (page, m) ← alloc_page hart g.memory
  let first : MetaPool = record {
    lock = init_spinlock;
    freelist = page;
    end = page + (slab_count - 1) * slab_t_size;
    total = slab_count;
    free = slab_count;
  }
  if page == 0
      then halt
      else inflate_slab_meta_pool hart
          (record g {
            memory = m;
            links = carve g.links page slab_t_size (slab_count - 1) 0;
            pool = first;
          })
          2

-- The classes from `i` on, `n` of them, get their first slab; a failed allocation stops the kernel.
unfoldable pub init_classes : ℕ → Slabs → ℕ → ℕ → Outcome Slabs
unfolding slab_alloc_meta do_create_slab_object_storage
init_classes hart g i zero = done g
init_classes hart g i (suc n) = do
  (s, g') ← slab_alloc_meta hart g
  let size = 8 * 2 ^ i
  let first : Slab = record {
    lock = init_spinlock;
    freelist = (g'.slabs s).freelist;
    next = 0;
    object_size = size;
    total = page_size / size;
    free = page_size / size;
  }
  (ok, g'') ←
      do_create_slab_object_storage hart
        (record g' { slabs = update g'.slabs s first; caches = update g'.caches i s }) s
  if ok then init_classes hart g'' (i + 1) n else halt

unfoldable pub init_slab : ℕ → Slabs → Outcome Slabs
unfolding init_slab_meta_pool init_classes
init_slab hart g = do g' ← init_slab_meta_pool hart g; init_classes hart g' 0 10
