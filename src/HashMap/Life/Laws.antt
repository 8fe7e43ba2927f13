-- ===== src/HashMap/Life/Laws.antt =====
-- A new table is valid and empty; the destruction of a valid table frees objects only.
use loeux_riscv.Base.{
  ℕ, ◌*◌, ◌%◌, ◌^◌, ◌≤◌, ◌<◌, Bool, true, false, Option, none, some, [], replicate, length,
  length-replicate, done, spin, ◌>>=◌, Returns, ◌≡◌, ◌≢◌, ◌⊎◌, refl, ap, arith, ◌==◌, ltb,
  if◌then◌else◌, Bool-cases, inl, inr,
}
use native.Mathlib.Nat.{mul-le-mul_left}
use loeux_riscv.HashMap.Buckets.Laws.{chain_of}
use loeux_riscv.HashMap.Buckets.Nodes.{hits-replicate, nodes-replicate}
use loeux_riscv.HashMap.Chain.Laws.{IsLawful, find-eq-none}
use loeux_riscv.HashMap.Chain.{Probe, find}
use loeux_riscv.HashMap.Keys.Size.{
  IsRounded, round_up_pow2-IsRounded, double_until_large, one-le-pow,
}
use loeux_riscv.HashMap.Keys.{round_up_pow2, default_hash_func, default_key_equal}
use loeux_riscv.HashMap.Life.{or_default, create}
use loeux_riscv.HashMap.Table.Valid.{view, IsSize, IsValid}
use loeux_riscv.HashMap.Table.{Table, min_size}
use loeux_riscv.Mm.SlabApi.{SlabApi}
use loeux_riscv.Sync.Spinlock.{init_spinlock}

module _ {ℓ} {S : Type ℓ} (slab : SlabApi S) where
  -- The table is NULL exactly where one of the two allocations, of the table and of its `n` buckets,
  -- fails; the table is given back then. Else it has the two objects, and is valid and empty.
  pub record Created (hf : ℕ → ℕ → ℕ) (ke : ℕ → ℕ → ℕ → Bool) (s : S) (n : ℕ) (r : Option Table × S)
      : Type ℓ where
    pub answer :
        (((slab.alloc s 48).0 ≡ 0) × (r ≡ (none, (slab.alloc s 48).1)))
        ⊎ (((slab.alloc s 48).0 ≢ 0)
            × ((slab.alloc (slab.alloc s 48).1 (8 * n)).0 ≡ 0)
            × (r.0 ≡ none)
            × (slab.free (slab.alloc (slab.alloc s 48).1 (8 * n)).1 (slab.alloc s 48).0 ≡ done r.1))
        ⊎ ((ht : Table) × (r ≡ (some ht, (slab.alloc (slab.alloc s 48).1 (8 * n)).1))
            × (ht.addr ≡ (slab.alloc s 48).0)
            × (ht.addr ≢ 0)
            × (ht.bucket_addr ≡ (slab.alloc (slab.alloc s 48).1 (8 * n)).0)
            × (ht.bucket_addr ≢ 0)
            × (ht.size ≡ n)
            × (ht.count ≡ 0)
            × (ht.hash_func ≡ hf)
            × (ht.key_equal ≡ ke)
            × IsValid slab r.1 ht
            × ((q : Probe) → view ht q ≡ none))

  module _ (hf : ℕ → ℕ → ℕ) (ke : ℕ → ℕ → ℕ → Bool) (t b n : ℕ) where
    abbrev pub cleared : Table
    cleared = record {
      addr = t;
      bucket_addr = b;
      buckets = replicate n [];
      size = n;
      count = 0;
      lock = init_spinlock;
      hash_func = hf;
      key_equal = ke;
    }

    find-cleared : (q : Probe) → find ke q (chain_of n q (replicate n [])) ≡ none
    find-cleared q = find-eq-none ke q _ (hits-replicate ke n q (q.hash % n))

    pub cleared-IsValid :
        (s : S)
        → IsLawful hf ke
        → IsSize n
        → slab.is_object s b ≡ true
        → slab.is_object s t ≡ true
        → IsValid slab s cleared × (cleared.count ≡ 0) × ((q : Probe) → view cleared q ≡ none)
    unfolding view
    cleared-IsValid s lawful sized array self = (
      record {
        sound = record {
          placed = record {
            width = length-replicate n [];
            once = λ q i. ground (arith, hits-replicate ke n q i);
          };
          counted = ap length (nodes-replicate n);
          sized = sized;
          lawful = lawful;
          owned = λ q x e. absurd (ground (arith, find-cleared q));
          array = array;
          self = self;
        };
        unlocked = refl;
      },
      refl,
      λ q. rw (find-cleared q),
    )

  module _ (mem : ℕ → ℕ) (s : S) (hf : Option (ℕ → ℕ → ℕ)) (ke : Option (ℕ → ℕ → ℕ → Bool)) where
    hash_func : ℕ → ℕ → ℕ
    hash_func = or_default hf (default_hash_func mem)

    key_equal : ℕ → ℕ → ℕ → Bool
    key_equal = or_default ke (default_key_equal mem)

    -- From the size on.
    create_at :
        (initial_size n : ℕ)
        → round_up_pow2 (if ltb initial_size min_size then min_size else initial_size) ≡ done n
        → (k : ℕ) × (n ≡ 8 * 2 ^ k)
        → 8 ≤ n
        → n ≤ 2 ^ 28
        → IsLawful hash_func key_equal
        → Returns (create slab mem s initial_size hf ke) (
            Created
              (or_default hf (default_hash_func mem))
              (or_default ke (default_key_equal mem))
              s
              n)
    unfolding create hash_func key_equal
    create_at initial_size n run power least most lawful =
        let t = slab.alloc s 48 in
        let bytes : 8 * n % 2 ^ 32 ≡ 8 * n = omega arith in
        let b = slab.alloc t.1 (8 * n) in
        elim (Bool-cases (t.0 == 0)) [
          | inl failed ↦ (
            (none, t.1),
            rw (run, ◌>>=◌, failed) refl,
            record { answer = inl (ground arith, refl) },
          )
          | inr got ↦
              let object =
                slab.alloc_keeps t.1 (8 * n) t.0 (slab.alloc_object s 48 (ground arith)) in
              elim (Bool-cases (b.0 == 0)) [
                | inl failed ↦
                    let (s', freed, old) = slab.free_keeps b.1 t.0 object in
                    (
                      (none, s'),
                      rw (run, ◌>>=◌, bytes, got, failed, freed) refl,
                      record { answer = inr (inl (ground arith, ground arith, refl, freed)) },
                    )
                | inr room ↦
                    let ht : Table =
                      cleared (or_default hf (default_hash_func mem))
                        (or_default ke (default_key_equal mem)) t.0 b.0 n in
                    let valid =
                      cleared-IsValid (or_default hf (default_hash_func mem))
                        (or_default ke (default_key_equal mem)) t.0 b.0 n b.1 lawful
                        (power, least, ground (arith, slab.alloc_large t.1 (8 * n)))
                        (slab.alloc_object t.1 (8 * n) (ground arith)) object in
                    (
                      (some ht, b.1),
                      rw (run, ◌>>=◌, bytes, got, room) refl,
                      record {
                        answer = inr (
                            inr (
                              ht,
                              refl,
                              refl,
                              ground arith,
                              refl,
                              ground arith,
                              refl,
                              refl,
                              refl,
                              refl,
                              valid.0,
                              valid.2,
                            ));
                      },
                    )
              ]
        ]

    -- For at most 2^27 requested buckets and lawful functions (the built-in ones where NULL is
    -- given), hash_table_create returns. Let n be the least of the sizes 8 times a power of two
    -- that are not below the request. Either the allocation of the 48 bytes of the table fails,
    -- and the answer is NULL; or that of 8 n bytes for the buckets then fails, the answer is NULL
    -- and the table is given back to the allocator; or the answer is a valid table that consists
    -- of these two objects, of size n and count 0, with the functions asked for, in which no probe
    -- finds anything. The allocator is called for nothing else.
    pub create-Created :
        (initial_size : ℕ)
        → initial_size ≤ 2 ^ 27
        → IsLawful (or_default hf (default_hash_func mem)) (or_default ke (default_key_equal mem))
        → (n : ℕ) × IsRounded 8 (if ltb initial_size min_size then min_size else initial_size) n
          × Returns (create slab mem s initial_size hf ke) (
              Created
                (or_default hf (default_hash_func mem))
                (or_default ke (default_key_equal mem))
                s
                n)
    unfolding hash_func key_equal
    create-Created initial_size h lawful =
        let (n, run, rounded) =
          round_up_pow2-IsRounded (if ltb initial_size min_size then min_size else initial_size)
            (ground arith) in
        let (power, large, first) = rounded in
        let least : 8 * 1 ≤ n = rw power.1 (mul-le-mul_left 8 (one-le-pow power.0)) in
        (n, rounded, create_at initial_size n run power (omega arith) (ground arith) lawful)

    -- For more than 2^31 requested buckets hash_table_create does not return: the doubling in
    -- round_up_pow2 wraps to 0 and never reaches the request.
    pub create-spin :
        (initial_size : ℕ) → 2 ^ 31 < initial_size → create slab mem s initial_size hf ke ≡ spin
    unfolding create round_up_pow2
    create-spin initial_size h =
        let large : ltb initial_size min_size ≡ false = ground arith in
        rw (large, double_until_large 32 initial_size h) refl
