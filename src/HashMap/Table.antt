-- ===== src/HashMap/Table.antt =====
-- The table and its operations. Each is a call on a hart; its search, with what follows it, runs
-- under the table's lock, at a bucket index that the code computes before it takes the lock.
pub mod Valid
pub mod Resize
pub mod Lookup
pub mod Insert
pub mod Calls
pub mod Delete
use loeux_riscv.Base.{
  ℕ, ◌+◌, ◌-◌, ◌*◌, ◌/◌, ◌%◌, ◌^◌, Bool, true, false, ◌&&◌, ◌||◌, Option, none, some, List, [], ◌∷◌,
  get_or, set, replicate, Outcome, done, ◌>>=◌, ◌==◌, ltb, if◌then◌else◌,
}
use loeux_riscv.HashMap.Buckets.{place, move_all}
use loeux_riscv.HashMap.Chain.{Node, Probe, find, assign, unlink}
use loeux_riscv.HashMap.Keys.{round_up_pow2, default_hash_func, default_key_equal}
use loeux_riscv.Mm.SlabApi.{SlabApi}
use loeux_riscv.Sync.Spinlock.{Spinlock, init_spinlock, take, drop}

-- `hash_table_t`, with the addresses of the table and of its bucket array.
pub record Table : Type 0 where
  pub addr : ℕ
  pub bucket_addr : ℕ
  pub buckets : List (List Node)
  pub size : ℕ
  pub count : ℕ
  pub lock : Spinlock
  pub hash_func : ℕ → ℕ → ℕ
  pub key_equal : ℕ → ℕ → ℕ → Bool

abbrev pub min_size : ℕ
min_size = 8

abbrev pub load_factor : ℕ
load_factor = 75

abbrev pub probe : Table → ℕ → ℕ → Probe
probe ht key len = record { key = key; len = len; hash = ht.hash_func key len }

-- The part of `hash_table_lookup` under the lock.
unfoldable pub lookup_locked : ℕ → Table → ℕ → Probe → Outcome (ℕ × Table)
lookup_locked hart ht index q = do
  lk ← take hart ht.lock
  let value : ℕ = elim (find ht.key_equal q (get_or ht.buckets index [])) [
    | none ↦ 0
    | some x ↦ x.value
  ]
  lk' ← drop hart lk
  done (value, record ht { lock = lk' })

unfoldable pub lookup_in : ℕ → Table → ℕ → ℕ → Outcome (ℕ × Table)
unfolding lookup_locked
lookup_in hart ht key len =
    if key == 0 || len == 0
    then done (0, ht)
    else lookup_locked hart ht (ht.hash_func key len % ht.size) (probe ht key len)

unfoldable pub lookup : ℕ → Option Table → ℕ → ℕ → Outcome (ℕ × Option Table)
unfolding lookup_in
lookup hart none key len = done (0, none)
lookup hart (some ht) key len = do (value, ht') ← lookup_in hart ht key len; done (value, some ht')

unfoldable pub count : ℕ → Option Table → Outcome (ℕ × Option Table)
count hart none = done (0, none)
count hart (some ht) = do
  lk ← take hart ht.lock
  lk' ← drop hart lk
  done (ht.count, some (record ht { lock = lk' }))

-- The callback is a step on a state of the caller's.
module _ {ℓ} {A : Type ℓ} (callback : ℕ → ℕ → ℕ → A → A) where
  unfoldable pub visit_chain : List Node → A → A
  visit_chain [] a = a
  visit_chain (x ∷ c) a = visit_chain c (callback x.key x.key_len x.value a)

  unfoldable pub visit_all : List (List Node) → A → A
  unfolding visit_chain
  visit_all [] a = a
  visit_all (c ∷ cs) a = visit_all cs (visit_chain c a)

unfoldable pub foreach {ℓ} :
    {A : Type ℓ} → ℕ → Option Table → Option (ℕ → ℕ → ℕ → A → A) → A → Outcome (A × Option Table)
unfolding visit_all
foreach hart none callback a = done (a, none)
foreach hart (some ht) none a = done (a, some ht)
foreach hart (some ht) (some callback) a = do
  lk ← take hart ht.lock
  let a' = visit_all callback ht.buckets a
  lk' ← drop hart lk
  done (a', some (record ht { lock = lk' }))

module _ {ℓ} {S : Type ℓ} (slab : SlabApi S) where
  -- From the allocation on; the pointers of the new array take `8 * n` bytes, in 32 bits.
  unfoldable pub resize_to : Table → S → ℕ → Outcome (Bool × Table × S)
  resize_to ht s n =
      let r = slab.alloc s (8 * n % 2 ^ 32) in
      if r.0 == 0 then done (false, ht, r.1) else do
        s' ← slab.free r.1 ht.bucket_addr
        done (
          true,
          record ht {
            bucket_addr = r.0;
            buckets = move_all n ht.buckets (replicate n []);
            size = n;
          },
          s',
        )

  unfoldable pub resize : Table → S → ℕ → Outcome (Bool × Table × S)
  unfolding resize_to
  resize ht s new_size = do
    n ← round_up_pow2 new_size
    if ltb n min_size then done (false, ht, s) else resize_to ht s n

  -- The load test before an insertion. A failed resize is only reported.
  unfoldable pub grow : Table → S → Outcome (Table × S)
  unfolding resize
  grow ht s =
      if ltb load_factor ((ht.count + 1) * 100 % 2 ^ 32 / ht.size)
      then resize ht s (ht.size * 2 % 2 ^ 32) >>= (λ r. done (r.1, r.2))
      else done (ht, s)

  -- The new node, from the load test to the release of the lock.
  unfoldable pub add_node : ℕ → Table → S → Probe → ℕ → Outcome (Bool × Table × S)
  unfolding grow
  add_node hart ht s q value = do
    (ht', s') ← grow ht s
    let r = slab.alloc s' 32
    let x : Node = record { addr = r.0; key = q.key; value = value; key_len = q.len; hash = q.hash }
    lk ← drop hart ht'.lock
    done (
        if r.0 == 0 then (false, record ht' { lock = lk }, r.1) else (
          true,
          record ht' {
            buckets = place ht'.size x ht'.buckets;
            count = (ht'.count + 1) % 2 ^ 32;
            lock = lk;
          },
          r.1,
        ))

  unfoldable pub insert_locked : ℕ → Table → S → ℕ → Probe → ℕ → Bool → Outcome (Bool × Table × S)
  unfolding add_node
  insert_locked hart ht s index q value overwrite = do
    lk ← take hart ht.lock
    let chain = get_or ht.buckets index []
    elim (find ht.key_equal q chain) [
      | some x ↦ do
        lk' ← drop hart lk
        done (
          overwrite,
          record ht {
            buckets =
                if overwrite
                then set ht.buckets index (assign ht.key_equal q value chain)
                else ht.buckets;
            lock = lk';
          },
          s,
        )
      | none ↦ add_node hart (record ht { lock = lk }) s q value
    ]

  unfoldable pub insert_in : ℕ → Table → S → ℕ → ℕ → ℕ → Bool → Outcome (Bool × Table × S)
  unfolding insert_locked
  insert_in hart ht s key len value overwrite =
      if key == 0 || len == 0
      then done (false, ht, s)
      else insert_locked hart ht s (ht.hash_func key len % ht.size) (probe ht key len) value
          overwrite

  unfoldable pub insert :
      ℕ → Option Table → S → ℕ → ℕ → ℕ → Bool → Outcome (Bool × Option Table × S)
  unfolding insert_in
  insert hart none s key len value overwrite = done (false, none, s)
  insert hart (some ht) s key len value overwrite = do
    (ok, ht', s') ← insert_in hart ht s key len value overwrite
    done (ok, some ht', s')

  -- The search and the insertion in one critical section, for a key that is not there.
  unfoldable pub insert_if_absent_in : ℕ → Table → S → ℕ → ℕ → ℕ → Outcome (Bool × Table × S)
  unfolding add_node
  insert_if_absent_in hart ht s key len value =
      let q = probe ht key len in
      if key == 0 || len == 0
      then done (false, ht, s)
      else take hart ht.lock >>= λ lk.
          elim (find ht.key_equal q (get_or ht.buckets (q.hash % ht.size) [])) [
            | some x ↦ do lk' ← drop hart lk; done (false, record ht { lock = lk' }, s)
            | none ↦ add_node hart (record ht { lock = lk }) s q value
          ]

  unfoldable pub insert_if_absent :
      ℕ → Option Table → S → ℕ → ℕ → ℕ → Outcome (Bool × Option Table × S)
  unfolding insert_if_absent_in
  insert_if_absent hart none s key len value = done (false, none, s)
  insert_if_absent hart (some ht) s key len value = do
    (ok, ht', s') ← insert_if_absent_in hart ht s key len value
    done (ok, some ht', s')

  -- The load test after a deletion.
  unfoldable pub shrink : Table → S → Outcome (Table × S)
  unfolding resize
  shrink ht s =
      if ltb min_size ht.size && ltb (ht.count * 100 % 2 ^ 32 / ht.size) (load_factor / 2)
      then resize ht s (ht.size / 2) >>= (λ r. done (r.1, r.2))
      else done (ht, s)

  unfoldable pub delete_locked : ℕ → Table → S → ℕ → Probe → Outcome (Bool × Table × S)
  unfolding shrink
  delete_locked hart ht s index q = do
    lk ← take hart ht.lock
    let chain = get_or ht.buckets index []
    elim (find ht.key_equal q chain) [
      | none ↦ do lk' ← drop hart lk; done (false, record ht { lock = lk' }, s)
      | some x ↦ do
        s' ← slab.free s x.addr
        (ht', s'') ←
            shrink
              (record ht {
                buckets = set ht.buckets index (unlink ht.key_equal q chain);
                count = (ht.count + 2 ^ 32 - 1) % 2 ^ 32;
                lock = lk;
              })
              s'
        lk' ← drop hart ht'.lock
        done (true, record ht' { lock = lk' }, s'')
    ]

  unfoldable pub delete_in : ℕ → Table → S → ℕ → ℕ → Outcome (Bool × Table × S)
  unfolding delete_locked
  delete_in hart ht s key len =
      if key == 0 || len == 0
      then done (false, ht, s)
      else delete_locked hart ht s (ht.hash_func key len % ht.size) (probe ht key len)

  unfoldable pub delete : ℕ → Option Table → S → ℕ → ℕ → Outcome (Bool × Option Table × S)
  unfolding delete_in
  delete hart none s key len = done (false, none, s)
  delete hart (some ht) s key len = do
    (ok, ht', s') ← delete_in hart ht s key len
    done (ok, some ht', s')
