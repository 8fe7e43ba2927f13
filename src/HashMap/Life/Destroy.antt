-- ===== src/HashMap/Life/Destroy.antt =====
-- The destruction of a valid table frees the nodes, the array and the table, all of them objects.
use mathlib.Core.Path.{fun_ext}
use loeux_riscv.Base.{
  ◌%◌, ℕ, ◌≤◌, Bool, true, some, List, [], ◌∷◌, ◌++◌, ◌>>=◌, Returns, bind_assoc, ◌≡◌, refl, sym,
  ◌∙◌, arith,
}
use loeux_riscv.HashMap.Buckets.Laws.{nodes}
use loeux_riscv.HashMap.Buckets.Nodes.{hits-nodes, find-nodes}
use loeux_riscv.HashMap.Chain.Laws.{IsLawful, hits, find-eq-none, is_match-probe_of}
use loeux_riscv.HashMap.Chain.{Node, Probe, probe_of, find}
use loeux_riscv.HashMap.Life.{free_nodes, free_buckets, destroy}
use loeux_riscv.HashMap.Table.Valid.{IsValid}
use loeux_riscv.HashMap.Table.{Table}
use loeux_riscv.Mm.SlabApi.{SlabApi}
use loeux_riscv.Sync.Spinlock.Laws.{take_free, drop_held}

abbrev AllNodes {ℓ} : (Node → Type ℓ) → List Node → Type ℓ
AllNodes P [] = Unit
AllNodes P (x ∷ c) = P x × AllNodes P c

module _ {hash_func : ℕ → ℕ → ℕ} {ke : ℕ → ℕ → ℕ → Bool} (lawful : IsLawful hash_func ke) where
  -- Where no two nodes match one probe, a search for each node finds that node.
  all_found :
      (P : Node → Type 0) (c : List Node)
      → ((q : Probe) → hits ke q c ≤ 1)
      → ((q : Probe) (x : Node) → find ke q c ≡ some x → P x)
      → AllNodes P c
  unfolding find hits
  all_found P [] once h = tt
  all_found P (x ∷ c) once h = (
    h (probe_of x) x (ground (arith, is_match-probe_of lawful x)),
    all_found P c (λ q. omega (arith, once q))
        (λ q y e. h q y (ground (arith, once q, find-eq-none ke q c))),
  )

module _ {ℓ} {S : Type ℓ} (slab : SlabApi S) where
  abbrev pub Objects : S → S → Type 0
  Objects s s' = (p : ℕ) → slab.is_object s p ≡ true → slab.is_object s' p ≡ true

  free_nodes-Returns :
      (c : List Node) (s : S)
      → AllNodes (λ x. slab.is_object s x.addr ≡ true) c
      → Returns (free_nodes slab c s) (Objects s)
  unfolding free_nodes
  free_nodes-Returns [] s h = (s, refl, λ p k. k)
  free_nodes-Returns (x ∷ c) s h =
      let (s', run, old) = slab.free_keeps s x.addr h.0 in
      let (s'', run', old') = free_nodes-Returns c s' (AllNodes-map c old h.1) in
      (s'', rw run run', λ p k. old' p (old p k))
    where
      AllNodes-map :
          {s' : S} (c : List Node)
          → Objects s s'
          → AllNodes (λ x. slab.is_object s x.addr ≡ true) c
          → AllNodes (λ x. slab.is_object s' x.addr ≡ true) c
      AllNodes-map [] old h = tt
      AllNodes-map (x ∷ c) old h = (old x.addr h.0, AllNodes-map c old h.1)

  free_nodes-append :
      (c d : List Node) (s : S)
      → free_nodes slab (c ++ d) s ≡ (free_nodes slab c s >>= free_nodes slab d)
  unfolding free_nodes
  free_nodes-append [] d s = refl
  free_nodes-append (x ∷ c) d s =
      rw (fun_ext (free_nodes-append c d)) (sym (bind_assoc (slab.free s x.addr) _ _))

  free_buckets-nodes :
      (bs : List (List Node)) (s : S) → free_buckets slab bs s ≡ free_nodes slab (nodes bs) s
  unfolding free_buckets nodes free_nodes
  free_buckets-nodes [] s = refl
  free_buckets-nodes (c ∷ cs) s =
      rw (free_nodes-append c (nodes cs) s, fun_ext (free_buckets-nodes cs))

  -- The destruction of a valid table returns: every node, the bucket array and the table pass the
  -- checks of slab_free, and what was a slab object stays one.
  pub destroy-Returns :
      (hart : ℕ) (s : S) (ht : Table)
      → IsValid slab s ht
      → Returns (destroy slab hart (some ht) s) (Objects s)
  unfolding destroy
  destroy-Returns hart s ht valid =
      let v = valid.sound in
      let (s₁, run, old) = free_nodes-Returns (nodes ht.buckets) s (
        all_found v.lawful _ (nodes ht.buckets)
          (λ q. ground (arith, hits-nodes v.placed q, v.placed.once q (q.hash % ht.size)))
          (λ q x e. v.owned q x (sym (find-nodes v.placed q) ∙ e))) in
      let (s₂, run₂, old₂) = slab.free_keeps s₁ ht.bucket_addr (old ht.bucket_addr v.array) in
      let (s₃, run₃, old₃) = slab.free_keeps s₂ ht.addr (old₂ ht.addr (old ht.addr v.self)) in
      (
        s₃,
        rw
            (
              valid.unlocked,
              take_free hart,
              ◌>>=◌,
              free_buckets-nodes ht.buckets s,
              run,
              drop_held hart,
              run₂,
            )
            run₃,
        λ p k. old₃ p (old₂ p (old p k)),
      )
