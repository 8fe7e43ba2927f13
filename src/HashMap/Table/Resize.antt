-- ===== src/HashMap/Table/Resize.antt =====
-- A resize does not fail in a way that a caller sees: it returns, the invariant holds, and every
-- probe finds what it found.
use native.Mathlib.Nat.{mul-le-mul_left}
use loeux_riscv.Base.{
  ℕ, ◌+◌, ◌*◌, ◌/◌, ◌%◌, ◌^◌, ◌≤◌, true, false, ◌&&◌, ◌≡◌, refl, arith, Bool-cases, Returns, ◌>>=◌,
  ◌==◌, ltb, inl, inr, ◌∙◌, sym,
}
use loeux_riscv.HashMap.Buckets.Nodes.{move_all-Moved}
use loeux_riscv.HashMap.Keys.Size.{round_up_pow2-IsRounded, one-le-pow}
use loeux_riscv.HashMap.Table.Valid.{view, IsSound, Keeps}
use loeux_riscv.HashMap.Table.{Table, resize_to, resize, grow, shrink, min_size}
use loeux_riscv.Mm.SlabApi.{SlabApi}

module _ {ℓ} {S : Type ℓ} (slab : SlabApi S) where
  -- The result of a resize: sound, with the same contents, whether or not it was carried out.
  pub record Resized (s : S) (ht : Table) (r : Table × S) : Type ℓ where
    pub sound : IsSound slab r.1 r.0
    pub lock : r.0.lock ≡ ht.lock
    pub keeps : Keeps slab ht r.0

  module _ {s : S} {ht : Table} (v : IsSound slab s ht) where
    unchanged :
        (s' : S)
        → ((p : ℕ) → slab.is_object s p ≡ true → slab.is_object s' p ≡ true)
        → Resized s ht (ht, s')
    unchanged s' old = record {
      sound = record {
        placed = v.placed;
        counted = v.counted;
        sized = v.sized;
        lawful = v.lawful;
        owned = λ q x e. old x.addr (v.owned q x e);
        array = old ht.bucket_addr v.array;
        self = old ht.addr v.self;
      };
      lock = refl;
      keeps = record {
        addr = refl;
        hash_func = refl;
        key_equal = refl;
        count = refl;
        views = λ q. refl;
      };
    }

    resize_to-Resized :
        (n : ℕ)
        → (k : ℕ) × (n ≡ 8 * 2 ^ k)
        → 8 ≤ n
        → n ≤ 2 ^ 28
        → Returns (resize_to slab ht s n) (λ r. Resized s ht (r.1, r.2))
    unfolding resize_to view
    resize_to-Resized n power least most =
        let r = slab.alloc s (8 * n % 2 ^ 32) in
        elim (Bool-cases (r.0 == 0)) [
          | inl failed ↦ ((false, ht, r.1), rw failed refl, unchanged r.1 (slab.alloc_keeps s _))
          | inr got ↦
              let m = move_all-Moved ht.key_equal ht.size n ht.buckets v.placed (omega arith) in
              let object = slab.alloc_object s (8 * n % 2 ^ 32) (ground arith) in
              let (s', run, old) =
                slab.free_keeps r.1 ht.bucket_addr (slab.alloc_keeps s _ _ v.array) in
              let kept = λ (p : ℕ) (h : slab.is_object s p ≡ true).
                old p (slab.alloc_keeps s (8 * n % 2 ^ 32) p h) in
              (
                (true, _, s'),
                rw (got, run) refl,
                record {
                  sound = record {
                    placed = m.placed;
                    counted = m.kept ∙ v.counted;
                    sized = (power, least, ground (arith, slab.alloc_large s (8 * n % 2 ^ 32)));
                    lawful = v.lawful;
                    owned = λ q x e. kept x.addr (v.owned q x (sym (m.finds q) ∙ e));
                    array = old r.0 object;
                    self = kept ht.addr v.self;
                  };
                  lock = refl;
                  keeps = record {
                    addr = refl;
                    hash_func = refl;
                    key_equal = refl;
                    count = refl;
                    views = λ q. rw (m.finds q);
                  };
                },
              )
        ]

    -- A resize of a sound table to at most 2^27 requested buckets returns, whether or not the new
    -- array is allocated, with a sound table (a power of two between 8 and 512 buckets, each key
    -- at most once and in its bucket), the same count, lock and functions, in which every probe
    -- finds what it found.
    pub resize-Resized :
        (n : ℕ) → n ≤ 2 ^ 27 → Returns (resize slab ht s n) (λ r. Resized s ht (r.1, r.2))
    unfolding resize
    resize-Resized n h =
        let (m, run, (power, large, first)) = round_up_pow2-IsRounded n (omega arith) in
        let least : 8 * 1 ≤ m = rw power.1 (mul-le-mul_left 8 (one-le-pow power.0)) in
        let (r, run', p) = resize_to-Resized m power (omega arith) (omega arith) in
        let enough : ltb m min_size ≡ false = ground arith in (r, rw (run, ◌>>=◌, enough, run'), p)

    -- The load test before an insertion, and the one after a deletion.
    pub grow-Resized : Returns (grow slab ht s) (Resized s ht)
    unfolding grow
    grow-Resized = elim (Bool-cases (ltb 75 ((ht.count + 1) * 100 % 2 ^ 32 / ht.size))) [
      | inl full ↦
          let (r, run, p) = resize-Resized (ht.size * 2 % 2 ^ 32) (omega (arith, v.sized.2)) in
          ((r.1, r.2), rw (full, run, ◌>>=◌), p)
      | inr roomy ↦ ((ht, s), rw roomy refl, unchanged s (λ p h. h))
    ]

    pub shrink-Resized : Returns (shrink slab ht s) (Resized s ht)
    unfolding shrink
    shrink-Resized =
        elim (Bool-cases (ltb 8 ht.size && ltb (ht.count * 100 % 2 ^ 32 / ht.size) (75 / 2))) [
          | inl sparse ↦
              let (r, run, p) = resize-Resized (ht.size / 2) (omega (arith, v.sized.2)) in
              ((r.1, r.2), rw (sparse, run, ◌>>=◌), p)
          | inr dense ↦ ((ht, s), rw dense refl, unchanged s (λ p h. h))
        ]
