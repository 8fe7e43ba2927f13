-- ===== src/HashMap/Table/Lookup.antt =====
-- `hash_table_lookup` reads the abstract map.
use loeux_riscv.Base.{
  ℕ, ◌%◌, ◌||◌, Option, none, some, [], get_or, done, ◌≡◌, ◌≢◌, arith, ◌==◌, if◌then◌else◌,
}
use loeux_riscv.HashMap.Chain.Laws.{find-eq-none}
use loeux_riscv.HashMap.Chain.{Probe, find}
use loeux_riscv.HashMap.Table.Valid.{value_of, view, IsValid}
use loeux_riscv.HashMap.Table.{Table, probe, lookup_locked, lookup_in}
use loeux_riscv.Mm.SlabApi.{SlabApi}
use loeux_riscv.Sync.Spinlock.Laws.{take_free, drop_held}
use loeux_riscv.Sync.Spinlock.{init_spinlock}

-- A missing key and a stored NULL give the same answer.
abbrev pub or_null : Option ℕ → ℕ
or_null none = 0
or_null (some v) = v

-- A table whose lock is free is itself with a free lock.
pub relock : (ht : Table) → ht.lock ≡ init_spinlock → record ht { lock = init_spinlock } ≡ ht
relock ht e = cc

module _ {ℓ} {S : Type ℓ} (slab : SlabApi S) where
  lookup_locked-find :
      (hart : ℕ) {s : S} (ht : Table) (q : Probe) (index : ℕ)
      → IsValid slab s ht
      → lookup_locked hart ht index q
        ≡ done (or_null (value_of (find ht.key_equal q (get_or ht.buckets index []))), ht)
  unfolding lookup_locked
  lookup_locked-find hart ht q index v = ground (arith, take_free hart, drop_held hart)

  -- A lookup in a valid table answers NULL for a NULL or empty key, else the value that the
  -- abstract map has at the key or NULL, and leaves the table unchanged, its lock free.
  pub lookup_in-view :
      (hart : ℕ) {s : S} (ht : Table) (key len : ℕ)
      → IsValid slab s ht
      → lookup_in hart ht key len
        ≡ done (if key == 0 || len == 0 then 0 else or_null (view ht (probe ht key len)), ht)
  unfolding lookup_in view
  lookup_in-view hart ht key len v =
      ground
        (arith, lookup_locked-find hart ht (probe ht key len) (ht.hash_func key len % ht.size) v)

  -- The search under the lock of a valid table, at a bucket index that is not the probe's index
  -- for the present size, answers NULL whatever the table holds.
  pub lookup_locked_stale :
      (hart : ℕ) {s : S} (ht : Table) (q : Probe) (index : ℕ)
      → IsValid slab s ht
      → index ≢ q.hash % ht.size
      → lookup_locked hart ht index q ≡ done (0, ht)
  lookup_locked_stale hart ht q index v stale = ground (
    arith,
    lookup_locked-find hart ht q index v,
    v.sound.placed.once q index,
    find-eq-none ht.key_equal q (get_or ht.buckets index []),
  )
