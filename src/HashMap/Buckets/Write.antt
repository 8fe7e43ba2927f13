-- ===== src/HashMap/Buckets/Write.antt =====
-- A write to one bucket, and a new node: the placement and what every probe finds after it.
use loeux_riscv.Base.{
  ℕ, ◌+◌, ◌%◌, ◌≤◌, ◌<◌, Bool, true, Option, none, some, List, [], ◌≡◌, ◌∙◌, arith, length, get_or,
  set, get_or-set_self, get_or-set_ne, length-set, if◌then◌else◌, ◌==◌, ==_iff, Bool-cases, inl,
  inr,
}
use loeux_riscv.HashMap.Buckets.{place}
use loeux_riscv.HashMap.Buckets.Laws.{
  nodes, chain_of, IsPlaced, length-nodes-set, hash_of_match, hits-place, length-place,
}
use loeux_riscv.HashMap.Chain.Laws.{
  IsLawful, hits, hits-eq-zero, hits_congr, find-is_match, find-assign, find-unlink, hits-assign,
  hits-unlink-le, length-assign, length-unlink, is_match-probe_of,
}
use loeux_riscv.HashMap.Chain.{Node, Probe, probe_of, is_match, find, assign, unlink}

get_or-set :
    (bs : List (List Node)) (i j : ℕ) (c : List Node)
    → i < length bs
    → get_or (set bs i c) j [] ≡ (if j == i then c else get_or bs j [])
get_or-set bs i j c h = elim (Bool-cases (j == i)) [
  | inl same ↦ rw (same, (==_iff j i).0 same) (get_or-set_self bs i c [] h)
  | inr other ↦ rw other (get_or-set_ne bs i j c [] (ground arith))
]

module _ {ke : ℕ → ℕ → ℕ → Bool} {n : ℕ} {bs : List (List Node)} (placed : IsPlaced ke n bs) where
  set-IsPlaced :
      (i : ℕ) (c : List Node)
      → i < n
      → ((p : Probe) → hits ke p c ≤ hits ke p (get_or bs i []))
      → IsPlaced ke n (set bs i c)
  set-IsPlaced i c h fewer = record {
    width = length-set bs i c ∙ placed.width;
    once = λ p j.
        rw (get_or-set bs i j c (rw placed.width h)) (ground (arith, placed.once p j, fewer p));
  }

  module _ {hash_func : ℕ → ℕ → ℕ} (lawful : IsLawful hash_func ke) (pos : 0 < n) where
    module _ (q : Probe) (x : Node) (found : find ke q (chain_of n q bs) ≡ some x) where
      matches : is_match ke q x ≡ true
      matches = find-is_match ke q (chain_of n q bs) x found

      in_range : q.hash % n < length bs
      in_range = rw placed.width (omega arith)

      pub assign-IsPlaced :
          (v : ℕ) → IsPlaced ke n (set bs (q.hash % n) (assign ke q v (chain_of n q bs)))
      assign-IsPlaced v =
          set-IsPlaced (q.hash % n) _ (omega arith)
            (λ p. omega (arith, hits-assign ke p q v (chain_of n q bs)))

      pub unlink-IsPlaced : IsPlaced ke n (set bs (q.hash % n) (unlink ke q (chain_of n q bs)))
      unlink-IsPlaced =
          set-IsPlaced (q.hash % n) _ (omega arith) (λ p. hits-unlink-le ke p q (chain_of n q bs))

      -- A write to the bucket of `q` that changes what is found only at the node found.
      find-set :
          (p : Probe) (c : List Node) (o : Option Node)
          → find ke p c ≡ (if is_match ke p x then o else find ke p (chain_of n q bs))
          → find ke p (chain_of n p (set bs (q.hash % n) c))
            ≡ (if is_match ke p x then o else find ke p (chain_of n p bs))
      find-set p c o local =
          rw (get_or-set bs (q.hash % n) (p.hash % n) c in_range)
            (elim (Bool-cases (p.hash % n == q.hash % n)) [
              | inl here ↦ rw (here, (==_iff (p.hash % n) (q.hash % n)).0 here) local
              | inr elsewhere ↦ ground (arith, hash_of_match ke p x, hash_of_match ke q x matches)
            ])

      pub find-set-assign :
          (p : Probe) (v : ℕ)
          → find ke p (chain_of n p (set bs (q.hash % n) (assign ke q v (chain_of n q bs)))) ≡ (
              if is_match ke p x
              then some (record x { value = v })
              else find ke p (chain_of n p bs))
      find-set-assign p v = find-set p _ _ (find-assign lawful p q v (chain_of n q bs) x found)

      pub find-set-unlink :
          (p : Probe)
          → find ke p (chain_of n p (set bs (q.hash % n) (unlink ke q (chain_of n q bs))))
            ≡ (if is_match ke p x then none else find ke p (chain_of n p bs))
      find-set-unlink p = find-set p _ _ (
          find-unlink lawful p q (chain_of n q bs) x found
            (ground (arith, placed.once p (q.hash % n))))

      pub length-nodes-assign :
          (v : ℕ)
          → length (nodes (set bs (q.hash % n) (assign ke q v (chain_of n q bs))))
            ≡ length (nodes bs)
      length-nodes-assign v = omega (
        arith,
        length-nodes-set bs (q.hash % n) (assign ke q v (chain_of n q bs)) in_range,
        length-assign ke q v (chain_of n q bs),
      )

      pub length-nodes-unlink :
          length (nodes (set bs (q.hash % n) (unlink ke q (chain_of n q bs)))) + 1
          ≡ length (nodes bs)
      length-nodes-unlink = omega (
        arith,
        length-nodes-set bs (q.hash % n) (unlink ke q (chain_of n q bs)) in_range,
        length-unlink ke q (chain_of n q bs) x found,
      )

    -- A node for a probe that finds nothing.
    pub place-IsPlaced :
        (x : Node)
        → find ke (probe_of x) (chain_of n (probe_of x) bs) ≡ none
        → IsPlaced ke n (place n x bs)
    place-IsPlaced x absent = record {
      width = length-place ke n x bs ∙ placed.width;
      once = λ p i. ground (
        arith,
        hits-place ke n x bs p i placed.width pos,
        placed.once p i,
        hash_of_match ke p x,
        hits_congr lawful p (probe_of x) x (get_or bs i []),
        is_match-probe_of lawful x,
        hits-eq-zero ke (probe_of x) (get_or bs (x.hash % n) []) absent,
      );
    }
