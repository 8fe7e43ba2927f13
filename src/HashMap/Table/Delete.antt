-- ===== src/HashMap/Table/Delete.antt =====
-- `hash_table_delete` removes the key from the abstract map.
use loeux_riscv.Base.{
  ℕ, ◌+◌, ◌-◌, ◌%◌, ◌^◌, ◌<◌, Bool, true, false, not, ◌&&◌, ◌||◌, none, some, set, done, ◌>>=◌,
  Returns, ◌≡◌, ◌≢◌, refl, ◌∙◌, ap, arith, ◌==◌, if◌then◌else◌, Option-cases, inl, inr,
}
use loeux_riscv.HashMap.Buckets.Laws.{chain_of}
use loeux_riscv.HashMap.Buckets.Write.{unlink-IsPlaced, find-set-unlink, length-nodes-unlink}
use loeux_riscv.HashMap.Chain.Laws.{to_nat, find-is_match}
use loeux_riscv.HashMap.Chain.{Node, Probe, find, unlink}
use loeux_riscv.HashMap.Table.Insert.{is_new}
use loeux_riscv.HashMap.Table.Lookup.{or_null, lookup_in-view}
use loeux_riscv.HashMap.Table.Resize.{Resized, shrink-Resized}
use loeux_riscv.HashMap.Table.Valid.{
  same, view, IsSound, IsValid, is_match-same, relock-IsSound, relock-view, view_congr,
}
use loeux_riscv.HashMap.Table.{Table, probe, delete_locked, delete_in, lookup_in}
use loeux_riscv.Mm.SlabApi.{SlabApi}
use loeux_riscv.Sync.Spinlock.Laws.{held_by, take_free, drop_held}
use loeux_riscv.Sync.Spinlock.{init_spinlock}

module _ {ℓ} {S : Type ℓ} (slab : SlabApi S) where
  pub record Deleted (ht : Table) (q : Probe) (r : Bool × Table × S) : Type ℓ where
    -- the result is valid, answers for no key that is the same, and for every other as before
    pub valid : IsValid slab r.2 r.1
    pub key_equal : r.1.key_equal ≡ ht.key_equal
    pub hash_func : r.1.hash_func ≡ ht.hash_func
    pub writes : (p : Probe) → view r.1 p ≡ (if same ht.key_equal p q then none else view ht p)
    -- the answer says whether the key was there, and the count follows
    pub found : r.0 ≡ not (is_new (view ht q))
    pub counts : r.1.count + to_nat r.0 ≡ ht.count

  module _ (hart : ℕ) {s : S} {ht : Table} (valid : IsValid slab s ht) (q : Probe)
      (small : ht.count < 2 ^ 32) where
    absent-Deleted :
        find ht.key_equal q (chain_of ht.size q ht.buckets) ≡ none → Deleted ht q (false, ht, s)
    unfolding view
    absent-Deleted e = record {
      valid = valid;
      key_equal = refl;
      hash_func = refl;
      writes = λ p. ground (arith, view_congr ht p q valid.sound.lawful);
      found = ground arith;
      counts = omega arith;
    }

    module _ (x : Node) (e : find ht.key_equal q (chain_of ht.size q ht.buckets) ≡ some x) where
      pos : 0 < ht.size
      pos = omega (arith, valid.sound.sized.1)

      -- The table when the load test is made, the lock still held.
      rest : Table
      rest = record ht {
        buckets =
            set ht.buckets (q.hash % ht.size)
              (unlink ht.key_equal q (chain_of ht.size q ht.buckets));
        count = (ht.count + 2 ^ 32 - 1) % 2 ^ 32;
        lock = held_by hart;
      }

      rest-IsSound :
          (s' : S)
          → ((p : ℕ) → slab.is_object s p ≡ true → slab.is_object s' p ≡ true)
          → IsSound slab s' rest
      unfolding rest
      rest-IsSound s' old =
          let v = valid.sound in
          record {
            placed = unlink-IsPlaced v.placed v.lawful pos q x e;
            counted = omega (arith, length-nodes-unlink v.placed v.lawful pos q x e, v.counted);
            sized = v.sized;
            lawful = v.lawful;
            owned = λ p y h.
                ground
                  (arith, find-set-unlink v.placed v.lawful pos q x e p, old y.addr, v.owned p y);
            array = old ht.bucket_addr v.array;
            self = old ht.addr v.self;
          }

      rest-view : (p : Probe) → view rest p ≡ (if same ht.key_equal p q then none else view ht p)
      unfolding rest view
      rest-view p =
          let v = valid.sound in
          ground (
            arith,
            find-set-unlink v.placed v.lawful pos q x e p,
            is_match-same v.lawful p q x (find-is_match ht.key_equal q _ x e),
          )

      present-Deleted :
          {s' s'' : S} {ht' : Table}
          → Resized slab s' rest (ht', s'')
          → Deleted ht q (true, record ht' { lock = init_spinlock }, s'')
      unfolding rest view
      present-Deleted {ht' = ht'} rz =
          let v = valid.sound in
          record {
            valid = record { sound = relock-IsSound slab init_spinlock rz.sound; unlocked = refl };
            key_equal = rz.keeps.key_equal;
            hash_func = rz.keeps.hash_func;
            writes = λ p. relock-view slab ht' init_spinlock p ∙ rz.keeps.views p ∙ rest-view p;
            found = ground arith;
            counts =
                omega (
                  arith,
                  rz.keeps.count,
                  length-nodes-unlink v.placed v.lawful pos q x e,
                  v.counted,
                );
          }

    pub delete_locked-Deleted :
        Returns (delete_locked slab hart ht s (q.hash % ht.size) q) (Deleted ht q)
    unfolding delete_locked rest
    delete_locked-Deleted =
        elim (Option-cases (find ht.key_equal q (chain_of ht.size q ht.buckets))) [
          | inl e ↦
              ((false, ht, s), ground (arith, take_free hart, drop_held hart), absent-Deleted e)
          | inr (x, e) ↦
              let (s', run, old) = slab.free_keeps s x.addr (valid.sound.owned q x e) in
              let ((ht', s''), run', rz) = shrink-Resized slab (rest-IsSound x e s' old) in
              (
                (true, record ht' { lock = init_spinlock }, s''),
                rw (valid.unlocked, take_free hart, ◌>>=◌, e, run, run', rz.lock, drop_held hart)
                    refl,
                present-Deleted x e rz,
              )
        ]

  module _ (hart : ℕ) {s : S} {ht : Table} (valid : IsValid slab s ht)
      (small : ht.count < 2 ^ 32) where
    -- For a valid table whose count fits 32 bits and a non-null, non-empty key, a deletion returns
    -- a valid table in which no probe for the same key finds anything and every other probe finds
    -- what it found; it answers whether the key was there, and the count falls by one exactly
    -- then.
    pub delete_in-Deleted :
        (key len : ℕ)
        → key ≢ 0
        → len ≢ 0
        → Returns (delete_in slab hart ht s key len) (Deleted ht (probe ht key len))
    unfolding delete_in
    delete_in-Deleted key len k l =
        let checks : (key == 0 || len == 0) ≡ false = ground arith in
        rw checks (delete_locked-Deleted hart valid (probe ht key len) small)

    -- For a valid table and non-null, non-empty keys, a deletion returns, and a lookup of any key
    -- after it answers NULL if the keys are the same by the table's comparison, and else what the
    -- table held before.
    pub lookup_in-delete_in :
        (key len key' len' : ℕ)
        → key ≢ 0
        → len ≢ 0
        → key' ≢ 0
        → len' ≢ 0
        → Returns (delete_in slab hart ht s key len) (λ r.
          (other : ℕ)
          → lookup_in other r.1 key' len'
            ≡ done (
              if len == len' && ht.key_equal key key' len'
                  then 0
                  else or_null (view ht (probe ht key' len')),
              r.1,
            ))
    lookup_in-delete_in key len key' len' k l k' l' =
        let (r, run, w) = delete_in-Deleted key len k l in
        let q' = probe ht key' len' in
        let e : probe r.1 key' len' ≡ q' =
          ap (λ (f : ℕ → ℕ → ℕ). probe (record ht { hash_func = f }) key' len') w.hash_func in
        (
          r,
          run,
          λ other.
              lookup_in-view slab other r.1 key' len' w.valid
              ∙ rw (e, w.writes q') (ground (arith, valid.sound.lawful.hash-equal key key' len')),
        )
