-- ===== src/HashMap/Life.antt =====
-- Creation and destruction of a table.
pub mod Laws
pub mod Destroy
use loeux_riscv.Base.{
  ℕ, ◌*◌, ◌%◌, ◌^◌, Option, none, some, List, [], ◌∷◌, replicate, Outcome, done, ◌>>=◌, ◌==◌, ltb,
  if◌then◌else◌,
}
use loeux_riscv.Base.{Bool}
use loeux_riscv.HashMap.Chain.{Node}
use loeux_riscv.HashMap.Keys.{round_up_pow2, default_hash_func, default_key_equal}
use loeux_riscv.HashMap.Table.{Table, min_size}
use loeux_riscv.Mm.SlabApi.{SlabApi}
use loeux_riscv.Sync.Spinlock.{init_spinlock, take, drop}

abbrev pub or_default {ℓ} : {A : Type ℓ} → Option A → A → A
or_default none d = d
or_default (some a) d = a

module _ {ℓ} {S : Type ℓ} (slab : SlabApi S) where
  -- `sizeof(hash_table_t)` is 48. `mem` is the memory that the built-in functions read.
  unfoldable pub create :
      (ℕ → ℕ) → S → ℕ → Option (ℕ → ℕ → ℕ) → Option (ℕ → ℕ → ℕ → Bool) → Outcome (Option Table × S)
  create mem s initial_size hash_func key_equal = do
    n ← round_up_pow2 (if ltb initial_size min_size then min_size else initial_size)
    let t = slab.alloc s 48
    let b = slab.alloc t.1 (8 * n % 2 ^ 32)
    if t.0 == 0
        then done (none, t.1)
        else if b.0 == 0
        then slab.free b.1 t.0 >>= (λ s'. done (none, s'))
        else done (
          some (record {
            addr = t.0;
            bucket_addr = b.0;
            buckets = replicate n [];
            size = n;
            count = 0;
            lock = init_spinlock;
            hash_func = or_default hash_func (default_hash_func mem);
            key_equal = or_default key_equal (default_key_equal mem);
          }),
          b.1,
        )

  unfoldable pub free_nodes : List Node → S → Outcome S
  free_nodes [] s = done s
  free_nodes (x ∷ c) s = slab.free s x.addr >>= free_nodes c

  unfoldable pub free_buckets : List (List Node) → S → Outcome S
  unfolding free_nodes
  free_buckets [] s = done s
  free_buckets (c ∷ cs) s = free_nodes c s >>= free_buckets cs

  unfoldable pub destroy : ℕ → Option Table → S → Outcome S
  unfolding free_buckets
  destroy hart none s = done s
  destroy hart (some ht) s = do
    lk ← take hart ht.lock
    s₁ ← free_buckets ht.buckets s
    lk' ← drop hart lk
    s₂ ← slab.free s₁ ht.bucket_addr
    slab.free s₂ ht.addr
