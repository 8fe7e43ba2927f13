-- ===== src/Tests/Slab.antt =====
-- A slab of objects of 32 bytes on page 2, with two of them free, and a bare slab beside page 1.
use loeux_riscv.Base.{
  ℕ, ◌+◌, ◌-◌, ◌*◌, none, some, [], ◌∷◌, Returns, ◌>>=◌, ◌≡◌, refl, arith, ◌==◌, if◌then◌else◌,
}
use loeux_riscv.Mm.Pages.Laws.{IsQueue}
use loeux_riscv.Mm.Pages.{Memory, phy_to_page, memory_start}
use loeux_riscv.Mm.SizeClass.Laws.{IsClass, slab_round_up-IsClass}
use loeux_riscv.Mm.SizeClass.{slab_round_up, ctz, ctz_step, smear}
use loeux_riscv.Mm.Slab.Carve.{Linked, Apart}
use loeux_riscv.Mm.Slab.Objects.{
  IsSlab, Walk, here, past, Allocated, slab_alloc-Allocated, IsObject, slab_alloc-slab_free,
}
use loeux_riscv.Mm.Slab.Storage.{IsBare, Stored, storage-Stored}
use loeux_riscv.Mm.Slab.{Slabs, slab_alloc, slab_free, do_create_slab_object_storage}
use loeux_riscv.Sync.Spinlock.{init_spinlock}

abbrev memory : Memory
memory = record {
  pages = λ j. record {
    paddr = memory_start + 4096 * j;
    refcount = 0;
    flags = 0;
    slab = if j == 2 then 500 else 0;
    prev = none;
    next = none;
  };
  free_head = some 1;
  free_tail = some 1;
  free_start_at = memory_start;
  free_end_at = memory_start + 4096 * 8;
  lock = init_spinlock;
  bytes = λ a. 0;
}

memory-IsQueue : IsQueue memory (1 ∷ [])
memory-IsQueue = record {
  links = (refl, refl);
  tail = refl;
  distinct = (tt, tt);
  free = (refl, refl, tt);
  unlocked = refl;
}

abbrev object : ℕ → ℕ
object k = memory_start + 8192 + 32 * k

-- The class of 32 bytes starts with a full slab at 400.
abbrev state : Slabs
state = record {
  memory = memory;
  links = λ a. if a == object 3 then object 1 else 0;
  slabs = λ s. record {
    lock = init_spinlock;
    freelist = if s == 500 then object 3 else 0;
    next = if s == 400 then 500 else 0;
    object_size = 32;
    total = 128;
    free = if s == 500 then 2 else if s == 400 then 0 else 128;
  };
  caches = λ i. if i == 2 then 400 else 500;
  pool = record { lock = init_spinlock; freelist = 0; end = 0; total = 0; free = 0 };
}

state-IsSlab : IsSlab state 500 (object 3 ∷ object 1 ∷ [])
unfolding Linked
state-IsSlab = record {
  unlocked = refl;
  linked = (refl, omega arith, (refl, omega arith, refl));
  count = refl;
}

start_of_class : Walk state (state.caches (ctz (slab_round_up 20) - 3)) 500 1
unfolding slab_round_up ctz ctz_step smear
start_of_class = past refl refl (omega arith) here

slab_round_up-IsClass_example : IsClass 100 (ctz (slab_round_up 100)) (slab_round_up 100)
slab_round_up-IsClass_example = slab_round_up-IsClass 100 (omega arith) (omega arith)

slab_alloc-Allocated_example :
    Returns (slab_alloc 2 0 state 20) (Allocated state 500 (object 3) (object 1 ∷ []))
slab_alloc-Allocated_example =
    slab_alloc-Allocated 2 0 state 20 500 1 (object 3) (object 1 ∷ []) (omega arith) (omega arith)
      start_of_class state-IsSlab (omega arith)

used-IsObject : IsObject state 500 (object 5)
unfolding phy_to_page
used-IsObject = record {
  nonnull = omega arith;
  slab = refl;
  real = omega arith;
  inside = omega arith;
  aligned = refl;
}

used-Apart : Apart (object 5) (object 3 ∷ object 1 ∷ [])
unfolding Apart
used-Apart = (omega arith, (omega arith, tt))

class_of_100 : state.caches (ctz (slab_round_up 100) - 3) ≡ 500
unfolding slab_round_up ctz ctz_step smear
class_of_100 = refl

slab_alloc-slab_free_example :
    Returns
      (slab_free 0 state (object 5) >>= λ g. slab_alloc 1 1 g 100)
      (λ r. (r.0 ≡ object 5) × IsSlab r.1 500 (object 3 ∷ object 1 ∷ []))
slab_alloc-slab_free_example =
    slab_alloc-slab_free 0 0 1 state 100 500 (object 5) (object 3 ∷ object 1 ∷ []) (omega arith)
      (omega arith) class_of_100 used-IsObject state-IsSlab used-Apart

bare : IsBare state 600
bare = record { unlocked = refl; unused = refl; some = omega arith; wide = omega arith }

storage-Stored_example : Returns (do_create_slab_object_storage 0 state 600) (Stored state 600 1)
storage-Stored_example =
    storage-Stored 0 state 600 1 [] memory-IsQueue refl (omega arith) (omega arith) bare
