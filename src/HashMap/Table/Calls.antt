-- ===== src/HashMap/Table/Calls.antt =====
-- The insertions as their callers see them, and a lookup after one.
use loeux_riscv.Base.{
  ℕ, ◌+◌, ◌%◌, ◌^◌, ◌<◌, Bool, true, false, ◌&&◌, ◌||◌, some, done, Returns, ◌≡◌, ◌≢◌, refl, ◌∙◌,
  ap, arith, ◌==◌, if◌then◌else◌, Option-cases, inl, inr,
}
use loeux_riscv.HashMap.Buckets.Laws.{chain_of}
use loeux_riscv.HashMap.Chain.{Node, Probe, find}
use loeux_riscv.HashMap.Table.Insert.{
  Inserted, overwritten, overwritten-IsSound, overwritten-view, insert_locked_overwrite,
  insert_locked_refuse, insert_locked_new, add_node-Inserted,
}
use loeux_riscv.HashMap.Table.Lookup.{or_null, lookup_in-view}
use loeux_riscv.HashMap.Table.Valid.{view, IsValid}
use loeux_riscv.HashMap.Table.{
  Table, probe, insert_locked, insert_in, insert_if_absent_in, lookup_in,
}
use loeux_riscv.Mm.SlabApi.{SlabApi}

module _ {ℓ} {S : Type ℓ} (slab : SlabApi S) where
  module _ (hart : ℕ) {s : S} {ht : Table} (valid : IsValid slab s ht) where
    insert_locked-Inserted :
        (q : Probe) (value : ℕ) (overwrite : Bool)
        → ht.count + 1 < 2 ^ 32
        → Returns
            (insert_locked slab hart ht s (q.hash % ht.size) q value overwrite)
            (Inserted slab ht q value overwrite)
    unfolding overwritten view
    insert_locked-Inserted q value overwrite room =
        elim (Option-cases (find ht.key_equal q (chain_of ht.size q ht.buckets))) [
          | inl e ↦
              rw (insert_locked_new slab hart valid q value e overwrite)
                (add_node-Inserted slab hart valid q value overwrite e room)
          | inr (x, e) ↦ found x e overwrite
        ]
      where
        found :
            (x : Node)
            → find ht.key_equal q (chain_of ht.size q ht.buckets) ≡ some x
            → (overwrite : Bool)
            → Returns
                (insert_locked slab hart ht s (q.hash % ht.size) q value overwrite)
                (Inserted slab ht q value overwrite)
        found x e true = (
          (true, overwritten slab valid.sound q value, s),
          insert_locked_overwrite slab hart valid q value x e,
          record {
            valid = record {
              sound = overwritten-IsSound slab valid.sound q value x e;
              unlocked = refl;
            };
            key_equal = refl;
            hash_func = refl;
            writes = overwritten-view slab valid.sound q value x e;
            counts = ground arith;
            present = λ old h. refl;
            absent = λ h _. absurd (ground arith);
          },
        )
        found x e false = (
          (false, ht, s),
          insert_locked_refuse slab hart valid q value x e,
          record {
            valid = valid;
            key_equal = refl;
            hash_func = refl;
            writes = λ p. refl;
            counts = omega arith;
            present = λ old h. refl;
            absent = λ h _. absurd (ground arith);
          },
        )

    -- For a valid table with room in its count and a non-null, non-empty key, an insertion returns
    -- a valid table in which every probe finds the new value exactly where the call succeeded and
    -- the key is the same, and else what it found; the count grows by one exactly for a new key; a
    -- present key is overwritten exactly if asked, and a new key is refused only where an
    -- allocation of its node fails.
    pub insert_in-Inserted :
        (key len value : ℕ) (overwrite : Bool)
        → key ≢ 0
        → len ≢ 0
        → ht.count + 1 < 2 ^ 32
        → Returns
            (insert_in slab hart ht s key len value overwrite)
            (Inserted slab ht (probe ht key len) value overwrite)
    unfolding insert_in
    insert_in-Inserted key len value overwrite k l room =
        let checks : (key == 0 || len == 0) ≡ false = ground arith in
        rw checks (insert_locked-Inserted (probe ht key len) value overwrite room)

    -- For a valid table with room in its 32-bit count and non-null, non-empty keys, an insertion
    -- returns, and a lookup of any key after it, on any hart, answers the new value if the
    -- insertion reported success and the keys are the same by the table's comparison, and
    -- otherwise what the table held before; the table is unchanged by the lookup.
    pub lookup_in-insert_in :
        (key len value : ℕ) (overwrite : Bool) (key' len' : ℕ)
        → key ≢ 0
        → len ≢ 0
        → key' ≢ 0
        → len' ≢ 0
        → ht.count + 1 < 2 ^ 32
        → Returns (insert_in slab hart ht s key len value overwrite) (λ r.
          (other : ℕ)
          → lookup_in other r.1 key' len'
            ≡ done (
              if r.0 && (len == len' && ht.key_equal key key' len')
                  then value
                  else or_null (view ht (probe ht key' len')),
              r.1,
            ))
    lookup_in-insert_in key len value overwrite key' len' k l k' l' room =
        let (r, run, w) = insert_in-Inserted key len value overwrite k l room in
        let q' = probe ht key' len' in
        let e : probe r.1 key' len' ≡ q' =
          ap (λ (f : ℕ → ℕ → ℕ). probe (record ht { hash_func = f }) key' len') w.hash_func in
        (
          r,
          run,
          λ other.
              lookup_in-view slab other r.1 key' len' w.valid
              ∙ rw (e, w.writes q') (ground (arith, valid.sound.lawful.hash-equal key key' len')),
        )

  -- On every table, valid or not, hash_table_insert_if_absent does what hash_table_insert does
  -- with overwrite set to false: the same answer, table and allocator state, or the same failure
  -- to return.
  pub insert_if_absent_in-eq-insert_in :
      (hart : ℕ) (ht : Table) (s : S) (key len value : ℕ)
      → insert_if_absent_in slab hart ht s key len value
        ≡ insert_in slab hart ht s key len value false
  unfolding insert_if_absent_in insert_in insert_locked
  insert_if_absent_in-eq-insert_in hart ht s key len value = ground arith
