-- ===== src/HashMap/Buckets/Nodes.antt =====
-- In a placed array the bucket of a probe answers for the whole array.
use mathlib.Core.Option.{or_else}
use loeux_riscv.Base.{
  ℕ, zero, suc, ◌%◌, ◌≤◌, ◌<◌, Bool, List, [], ◌∷◌, ◌++◌, ◌≡◌, refl, ◌∙◌, ap, arith, length, get_or,
  replicate, length-replicate, get_or-replicate, ◌==◌,
}
use loeux_riscv.HashMap.Chain.{Node, Probe, find}
use loeux_riscv.HashMap.Chain.Laws.{to_nat, hits, find-eq-none, hits-append}
use loeux_riscv.HashMap.Buckets.{move_chain, move_all}
use loeux_riscv.HashMap.Buckets.Laws.{
  nodes, chain_of, IsPlaced, move_all-nodes, length-move_chain, hits-move_chain, find-move_chain,
  length-nodes-move_chain,
}

-- An array of empty chains, as the code clears it.
pub hits-replicate :
    (ke : ℕ → ℕ → ℕ → Bool) (n : ℕ) (q : Probe) (i : ℕ)
    → hits ke q (get_or (replicate n []) i []) ≡ 0
unfolding hits
hits-replicate ke n q i = rw (get_or-replicate {A = List Node} n i []) refl

pub nodes-replicate : (n : ℕ) → nodes (replicate n []) ≡ []
unfolding nodes
nodes-replicate zero = refl
nodes-replicate (suc n) = nodes-replicate n

module _ (ke : ℕ → ℕ → ℕ → Bool) (q : Probe) where
  find-append : (c d : List Node) → find ke q (c ++ d) ≡ or_else (find ke q c) (find ke q d)
  unfolding find or_else
  find-append [] d = refl
  find-append (x ∷ c) d = rw (find-append c d) (ground arith)

  no_hits :
      (bs : List (List Node))
      → ((i : ℕ) → hits ke q (get_or bs i []) ≤ 0)
      → hits ke q (nodes bs) ≡ 0
  unfolding nodes hits
  no_hits [] none_there = refl
  no_hits (c ∷ bs) none_there =
      omega
        (arith, none_there 0, hits-append ke q c (nodes bs), no_hits bs (λ i. none_there (suc i)))

  hits-nodes_at :
      (bs : List (List Node)) (h : ℕ)
      → ((i : ℕ) → hits ke q (get_or bs i []) ≤ to_nat (i == h))
      → hits ke q (nodes bs) ≡ hits ke q (get_or bs h [])
  unfolding nodes hits
  hits-nodes_at [] h once = refl
  hits-nodes_at (c ∷ bs) zero once =
      omega (arith, hits-append ke q c (nodes bs), no_hits bs (λ i. ground (arith, once (suc i))))
  hits-nodes_at (c ∷ bs) (suc h) once = ground (
    arith,
    hits-append ke q c (nodes bs),
    once 0,
    hits-nodes_at bs h (λ i. ground (arith, once (suc i))),
  )

  find-nodes_at :
      (bs : List (List Node)) (h : ℕ)
      → ((i : ℕ) → hits ke q (get_or bs i []) ≤ to_nat (i == h))
      → find ke q (nodes bs) ≡ find ke q (get_or bs h [])
  unfolding nodes find or_else
  find-nodes_at [] h once = refl
  find-nodes_at (c ∷ bs) zero once = ground (
    arith,
    find-append c (nodes bs),
    find-eq-none ke q (nodes bs),
    no_hits bs (λ i. ground (arith, once (suc i))),
  )
  find-nodes_at (c ∷ bs) (suc h) once = ground (
    arith,
    find-append c (nodes bs),
    find-eq-none ke q c,
    once 0,
    find-nodes_at bs h (λ i. ground (arith, once (suc i))),
  )

module _ {ke : ℕ → ℕ → ℕ → Bool} {n : ℕ} {bs : List (List Node)} (placed : IsPlaced ke n bs)
    (q : Probe) where
  pub hits-nodes : hits ke q (nodes bs) ≡ hits ke q (chain_of n q bs)
  hits-nodes = hits-nodes_at ke q bs (q.hash % n) (placed.once q)

  pub find-nodes : find ke q (nodes bs) ≡ find ke q (chain_of n q bs)
  find-nodes = find-nodes_at ke q bs (q.hash % n) (placed.once q)

-- Moving every node to a cleared array of another size keeps the placement, what every probe finds
-- and the number of nodes.
pub record Moved (ke : ℕ → ℕ → ℕ → Bool) (n m : ℕ) (bs cs : List (List Node)) : Type 0 where
  pub placed : IsPlaced ke m cs
  pub finds : (q : Probe) → find ke q (chain_of m q cs) ≡ find ke q (chain_of n q bs)
  pub kept : length (nodes cs) ≡ length (nodes bs)

module _ (ke : ℕ → ℕ → ℕ → Bool) (n m : ℕ) (bs : List (List Node)) (p : IsPlaced ke n bs)
    (pos : 0 < m) where
  at_most_one : (q : Probe) → hits ke q (nodes bs) ≤ 1
  at_most_one q = ground (arith, hits-nodes p q, p.once q (q.hash % n))

  moved_once :
      (q : Probe) (i : ℕ)
      → hits ke q (get_or (move_chain m (nodes bs) (replicate m [])) i [])
        ≤ to_nat (i == q.hash % m)
  moved_once q i = ground (
    arith,
    hits-move_chain ke m pos (nodes bs) (replicate m []) q i (length-replicate m []),
    hits-replicate ke m q i,
    at_most_one q,
  )

  moved_finds :
      (q : Probe)
      → find ke q (chain_of m q (move_chain m (nodes bs) (replicate m [])))
        ≡ find ke q (chain_of n q bs)
  unfolding or_else
  moved_finds q = ground (
    arith,
    find-move_chain ke m pos (nodes bs) (replicate m []) q (length-replicate m []),
    hits-replicate ke m q (q.hash % m),
    find-eq-none ke q (chain_of m q (replicate m [])),
    at_most_one q,
    find-nodes p q,
  )

  pub move_all-Moved : Moved ke n m bs (move_all m bs (replicate m []))
  move_all-Moved =
      let w = length-replicate {A = List Node} m [] in
      rw (move_all-nodes ke m bs (replicate m [])) (record {
        placed = record { width = length-move_chain ke m (nodes bs) _ ∙ w; once = moved_once };
        finds = moved_finds;
        kept = omega (
          arith,
          length-nodes-move_chain ke m pos (nodes bs) (replicate m []) w,
          ap length (nodes-replicate m),
        );
      })
