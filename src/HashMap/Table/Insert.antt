-- ===== src/HashMap/Table/Insert.antt =====
-- `hash_table_insert` writes the abstract map.
use loeux_riscv.Base.{
  ℕ, ◌+◌, ◌%◌, ◌^◌, ◌<◌, Bool, true, false, ◌&&◌, Option, none, some, set, done, ◌>>=◌, Returns,
  ◌≡◌, ◌≢◌, refl, ◌∙◌, arith, ◌==◌, if◌then◌else◌, Bool-cases, inl, inr,
}
use loeux_riscv.HashMap.Buckets.Laws.{chain_of, find-place, length-nodes-place}
use loeux_riscv.HashMap.Buckets.Write.{
  assign-IsPlaced, find-set-assign, length-nodes-assign, place-IsPlaced,
}
use loeux_riscv.HashMap.Buckets.{place}
use loeux_riscv.HashMap.Chain.Laws.{to_nat, find-is_match, is_match-probe_of}
use loeux_riscv.HashMap.Chain.{Node, Probe, find, assign}
use loeux_riscv.HashMap.Table.Resize.{Resized, grow-Resized}
use loeux_riscv.HashMap.Table.Valid.{
  same, view, IsSound, IsValid, is_match-same, relock-IsSound, relock-view,
}
use loeux_riscv.HashMap.Table.{Table, add_node, insert_locked}
use loeux_riscv.Mm.SlabApi.{SlabApi}
use loeux_riscv.Sync.Spinlock.Laws.{held_by, take_free, drop_held}
use loeux_riscv.Sync.Spinlock.{init_spinlock}

abbrev pub is_new : Option ℕ → Bool
is_new none = true
is_new (some v) = false

module _ {ℓ} {S : Type ℓ} (slab : SlabApi S) where
  -- A call that wrote `v` under `q`, or refused to.
  pub record Inserted (ht : Table) (q : Probe) (v : ℕ) (overwrite : Bool) (r : Bool × Table × S)
      : Type ℓ where
    -- the result is valid, and every probe finds the new value exactly where it is the same key
    pub valid : IsValid slab r.2 r.1
    pub key_equal : r.1.key_equal ≡ ht.key_equal
    pub hash_func : r.1.hash_func ≡ ht.hash_func
    pub writes :
        (p : Probe) → view r.1 p ≡ (if r.0 && same ht.key_equal p q then some v else view ht p)
    pub counts : r.1.count ≡ ht.count + to_nat (r.0 && is_new (view ht q))
    -- a key that is there is overwritten exactly if that was asked for; a new key is refused only
    -- where the allocation of its node fails
    pub present : (old : ℕ) → view ht q ≡ some old → r.0 ≡ overwrite
    pub absent : view ht q ≡ none → r.0 ≡ false → (s : S) × ((slab.alloc s 32).0 ≡ 0)

  grown :
      {s s' : S} {ht : Table}
      → ((p : ℕ) → slab.is_object s p ≡ true → slab.is_object s' p ≡ true)
      → IsSound slab s ht
      → IsSound slab s' ht
  grown old v = record {
    placed = v.placed;
    counted = v.counted;
    sized = v.sized;
    lawful = v.lawful;
    owned = λ q x e. old x.addr (v.owned q x e);
    array = old _ v.array;
    self = old _ v.self;
  }

  module _ {s : S} {ht : Table} (v : IsSound slab s ht) (q : Probe) (value : ℕ) where
    unfoldable pub overwritten : Table
    overwritten = record ht {
      buckets =
          set ht.buckets (q.hash % ht.size)
            (assign ht.key_equal q value (chain_of ht.size q ht.buckets));
      lock = init_spinlock;
    }

    pub overwritten-IsSound :
        (x : Node)
        → find ht.key_equal q (chain_of ht.size q ht.buckets) ≡ some x
        → IsSound slab s overwritten
    unfolding overwritten
    overwritten-IsSound x e =
        let pos : 0 < ht.size = omega (arith, v.sized.1) in
        record {
          placed = assign-IsPlaced v.placed v.lawful pos q x e value;
          counted = length-nodes-assign v.placed v.lawful pos q x e value ∙ v.counted;
          sized = v.sized;
          lawful = v.lawful;
          owned = λ p y h. ground (
            arith,
            find-set-assign v.placed v.lawful pos q x e p value,
            v.owned q x e,
            v.owned p y,
          );
          array = v.array;
          self = v.self;
        }

    pub overwritten-view :
        (x : Node)
        → find ht.key_equal q (chain_of ht.size q ht.buckets) ≡ some x
        → (p : Probe)
        → view overwritten p ≡ (if same ht.key_equal p q then some value else view ht p)
    unfolding overwritten view
    overwritten-view x e p =
        let pos : 0 < ht.size = omega (arith, v.sized.1) in
        ground (
          arith,
          find-set-assign v.placed v.lawful pos q x e p value,
          is_match-same v.lawful p q x (find-is_match ht.key_equal q _ x e),
        )

    added : ℕ → Table
    added addr = record ht {
      buckets =
          place ht.size
            (record { addr = addr; key = q.key; value = value; key_len = q.len; hash = q.hash })
            ht.buckets;
      count = (ht.count + 1) % 2 ^ 32;
      lock = init_spinlock;
    }

    added-IsSound :
        (s' : S) (addr : ℕ)
        → ((p : ℕ) → slab.is_object s p ≡ true → slab.is_object s' p ≡ true)
        → slab.is_object s' addr ≡ true
        → find ht.key_equal q (chain_of ht.size q ht.buckets) ≡ none
        → ht.count + 1 < 2 ^ 32
        → IsSound slab s' (added addr)
    unfolding added
    added-IsSound s' addr old new e room =
        let pos : 0 < ht.size = omega (arith, v.sized.1) in
        let x : Node = record {
          addr = addr;
          key = q.key;
          value = value;
          key_len = q.len;
          hash = q.hash;
        } in
        record {
          placed = place-IsPlaced v.placed v.lawful pos x e;
          counted = omega (
            arith,
            length-nodes-place ht.key_equal ht.size x ht.buckets v.placed.width pos,
            v.counted,
          );
          sized = v.sized;
          lawful = v.lawful;
          owned = λ p y h. ground (
            arith,
            find-place ht.key_equal ht.size x ht.buckets p v.placed.width pos,
            old y.addr,
            v.owned p y,
          );
          array = old ht.bucket_addr v.array;
          self = old ht.addr v.self;
        }

    added-view :
        (addr : ℕ)
        → (p : Probe)
        → view (added addr) p ≡ (if same ht.key_equal p q then some value else view ht p)
    unfolding added view
    added-view addr p =
        let pos : 0 < ht.size = omega (arith, v.sized.1) in
        let x : Node = record {
          addr = addr;
          key = q.key;
          value = value;
          key_len = q.len;
          hash = q.hash;
        } in
        ground (
          arith,
          find-place ht.key_equal ht.size x ht.buckets p v.placed.width pos,
          is_match-same v.lawful p q x (is_match-probe_of v.lawful x),
        )

  module _ (hart : ℕ) {s : S} {ht : Table} (valid : IsValid slab s ht) (q : Probe) (value : ℕ) where
    pub insert_locked_overwrite :
        (x : Node)
        → find ht.key_equal q (chain_of ht.size q ht.buckets) ≡ some x
        → insert_locked slab hart ht s (q.hash % ht.size) q value true
          ≡ done (true, overwritten valid.sound q value, s)
    unfolding insert_locked overwritten
    insert_locked_overwrite x e = ground (arith, take_free hart, drop_held hart)

    pub insert_locked_refuse :
        (x : Node)
        → find ht.key_equal q (chain_of ht.size q ht.buckets) ≡ some x
        → insert_locked slab hart ht s (q.hash % ht.size) q value false ≡ done (false, ht, s)
    unfolding insert_locked
    insert_locked_refuse x e = ground (arith, take_free hart, drop_held hart)

    pub insert_locked_new :
        find ht.key_equal q (chain_of ht.size q ht.buckets) ≡ none
        → (overwrite : Bool)
        → insert_locked slab hart ht s (q.hash % ht.size) q value overwrite
          ≡ add_node slab hart (record ht { lock = held_by hart }) s q value
    unfolding insert_locked
    insert_locked_new e overwrite = ground (arith, take_free hart)

    -- After the load test: the allocation fails, or the node is linked in.
    module _ {ht' : Table} {s' : S}
        (rz : Resized slab s (record ht { lock = held_by hart }) (ht', s')) where
      absent_there :
          find ht.key_equal q (chain_of ht.size q ht.buckets) ≡ none
          → find ht'.key_equal q (chain_of ht'.size q ht'.buckets) ≡ none
      unfolding view
      absent_there e = ground (arith, rz.keeps.views q)

      kept_view : (p : Probe) → view ht' p ≡ view ht p
      kept_view p = rz.keeps.views p ∙ relock-view slab ht (held_by hart) p

      no_room :
          (overwrite : Bool)
          → (slab.alloc s' 32).0 ≡ 0
          → view ht q ≡ none
          → Inserted ht q value overwrite
              (false, record ht' { lock = init_spinlock }, (slab.alloc s' 32).1)
      no_room overwrite failed e = record {
        valid = record {
          sound = relock-IsSound slab init_spinlock (grown (slab.alloc_keeps s' 32) rz.sound);
          unlocked = refl;
        };
        key_equal = rz.keeps.key_equal;
        hash_func = rz.keeps.hash_func;
        writes = λ p. relock-view slab ht' init_spinlock p ∙ kept_view p;
        counts = omega (arith, rz.keeps.count);
        present = λ old h. cc;
        absent = λ _ _. (s', failed);
      }

      linked :
          (overwrite : Bool)
          → (slab.alloc s' 32).0 ≢ 0
          → find ht.key_equal q (chain_of ht.size q ht.buckets) ≡ none
          → ht.count + 1 < 2 ^ 32
          → Inserted ht q value overwrite
              (true, added rz.sound q value (slab.alloc s' 32).0, (slab.alloc s' 32).1)
      unfolding added view
      linked overwrite got e room = record {
        valid = record {
          sound =
              added-IsSound rz.sound q value (slab.alloc s' 32).1 _ (slab.alloc_keeps s' 32)
                (slab.alloc_object s' 32 got) (absent_there e) (rw rz.keeps.count room);
          unlocked = refl;
        };
        key_equal = rz.keeps.key_equal;
        hash_func = rz.keeps.hash_func;
        writes = λ p.
            added-view rz.sound q value (slab.alloc s' 32).0 p
            ∙ ground (arith, kept_view p, rz.keeps.key_equal);
        counts = ground (arith, rz.keeps.count);
        present = λ old h. ground arith;
        absent = λ _ h. absurd (cc);
      }

    pub add_node-Inserted :
        (overwrite : Bool)
        → find ht.key_equal q (chain_of ht.size q ht.buckets) ≡ none
        → ht.count + 1 < 2 ^ 32
        → Returns
            (add_node slab hart (record ht { lock = held_by hart }) s q value)
            (Inserted ht q value overwrite)
    unfolding add_node added view
    add_node-Inserted overwrite e room =
        let ((ht', s'), run, rz) =
          grow-Resized slab (relock-IsSound slab (held_by hart) valid.sound) in
        elim (Bool-cases ((slab.alloc s' 32).0 == 0)) [
          | inl failed ↦ (
            (false, record ht' { lock = init_spinlock }, (slab.alloc s' 32).1),
            rw (run, ◌>>=◌, rz.lock, drop_held hart, failed) refl,
            no_room rz overwrite (ground arith) (rw e refl),
          )
          | inr got ↦ (
            (true, added rz.sound q value (slab.alloc s' 32).0, (slab.alloc s' 32).1),
            rw (run, ◌>>=◌, rz.lock, drop_held hart, got) refl,
            linked rz overwrite (ground arith) e room,
          )
        ]
