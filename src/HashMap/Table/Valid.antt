-- ===== src/HashMap/Table/Valid.antt =====
-- The invariant of a table, and the map from probes to values that it stands for.
use loeux_riscv.Base.{
  ℕ, ◌*◌, ◌^◌, ◌≤◌, Bool, true, ◌&&◌, Option, none, some, List, [], ◌∷◌, ◌≡◌, refl, arith, length,
  ◌==◌,
}
use loeux_riscv.HashMap.Buckets.Laws.{nodes, chain_of, IsPlaced}
use loeux_riscv.HashMap.Chain.Laws.{IsLawful}
use loeux_riscv.HashMap.Chain.{Node, Probe, is_match, find}
use loeux_riscv.HashMap.Table.{Table}
use loeux_riscv.Mm.SlabApi.{SlabApi}
use loeux_riscv.Sync.Spinlock.{Spinlock, init_spinlock}

-- One key for the table: the code's test, between two probes.
abbrev pub same : (ℕ → ℕ → ℕ → Bool) → Probe → Probe → Bool
same ke p q = q.hash == p.hash && q.len == p.len && ke q.key p.key p.len

abbrev pub value_of : Option Node → Option ℕ
value_of none = none
value_of (some x) = some x.value

-- The abstract map.
unfoldable pub view : Table → Probe → Option ℕ
view ht q = value_of (find ht.key_equal q (chain_of ht.size q ht.buckets))

-- A power of two between 8 and 512: the pointers of a larger array are no slab object.
abbrev pub IsSize : ℕ → Type 0
IsSize n = ((k : ℕ) × (n ≡ 8 * 2 ^ k)) × (8 ≤ n) × (n ≤ 512)

module _ {ℓ} {S : Type ℓ} (slab : SlabApi S) where
  pub record IsSound (s : S) (ht : Table) : Type ℓ where
    pub placed : IsPlaced ht.key_equal ht.size ht.buckets
    pub counted : length (nodes ht.buckets) ≡ ht.count
    pub sized : IsSize ht.size
    pub lawful : IsLawful ht.hash_func ht.key_equal
    pub owned :
        (q : Probe) (x : Node)
        → find ht.key_equal q (chain_of ht.size q ht.buckets) ≡ some x
        → slab.is_object s x.addr ≡ true
    pub array : slab.is_object s ht.bucket_addr ≡ true
    pub self : slab.is_object s ht.addr ≡ true

  -- Between two calls nobody holds the lock.
  pub record IsValid (s : S) (ht : Table) : Type ℓ where
    pub sound : IsSound s ht
    pub unlocked : ht.lock ≡ init_spinlock

  -- What a resize and the release of the lock leave alone.
  pub record Keeps (ht ht' : Table) : Type 0 where
    pub addr : ht'.addr ≡ ht.addr
    pub hash_func : ht'.hash_func ≡ ht.hash_func
    pub key_equal : ht'.key_equal ≡ ht.key_equal
    pub count : ht'.count ≡ ht.count
    pub views : (q : Probe) → view ht' q ≡ view ht q

-- `same` is an equivalence that `is_match` respects.
module _ {hash_func : ℕ → ℕ → ℕ} {ke : ℕ → ℕ → ℕ → Bool} (lawful : IsLawful hash_func ke) where
  pub is_match-same :
      (p q : Probe) (x : Node) → is_match ke q x ≡ true → is_match ke p x ≡ same ke p q
  unfolding is_match
  is_match-same p q x h = ground (
    arith,
    lawful.equal_symm x.key q.key q.len,
    lawful.equal_trans q.key x.key p.key q.len,
    lawful.equal_trans x.key q.key p.key q.len,
  )

module _ {ℓ} {S : Type ℓ} (slab : SlabApi S) where
  -- The invariant does not speak of the lock.
  pub relock-IsSound :
      {s : S} {ht : Table} (lk : Spinlock)
      → IsSound slab s ht
      → IsSound slab s (record ht { lock = lk })
  relock-IsSound lk v = record {
    placed = v.placed;
    counted = v.counted;
    sized = v.sized;
    lawful = v.lawful;
    owned = v.owned;
    array = v.array;
    self = v.self;
  }

  pub relock-view :
      (ht : Table) (lk : Spinlock) (q : Probe) → view (record ht { lock = lk }) q ≡ view ht q
  unfolding view
  relock-view ht lk q = refl

module _ {hash_func : ℕ → ℕ → ℕ} {ke : ℕ → ℕ → ℕ → Bool} (lawful : IsLawful hash_func ke) where
  is_match_congr_same :
      (p q : Probe) (x : Node) → same ke p q ≡ true → is_match ke p x ≡ is_match ke q x
  unfolding is_match
  is_match_congr_same p q x h = ground (
    arith,
    lawful.equal_symm q.key p.key p.len,
    lawful.equal_trans x.key q.key p.key p.len,
    lawful.equal_trans x.key p.key q.key p.len,
  )

  find_congr_same : (p q : Probe) (c : List Node) → same ke p q ≡ true → find ke p c ≡ find ke q c
  unfolding find
  find_congr_same p q [] h = refl
  find_congr_same p q (x ∷ c) h = ground (arith, is_match_congr_same p q x, find_congr_same p q c)

-- The abstract map does not distinguish two spellings of one key.
pub view_congr :
    {hash_func : ℕ → ℕ → ℕ} (ht : Table) (p q : Probe)
    → IsLawful hash_func ht.key_equal
    → same ht.key_equal p q ≡ true
    → view ht p ≡ view ht q
unfolding view
view_congr ht p q lawful h =
    ground (arith, find_congr_same lawful p q (chain_of ht.size q ht.buckets))
