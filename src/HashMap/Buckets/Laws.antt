-- ===== src/HashMap/Buckets/Laws.antt =====
-- Where nodes stand in the bucket array, what a search in it finds, and how a write to one bucket
-- and the move to a new array change that.
use mathlib.Core.Option.{or_else}
use loeux_riscv.Base.{
  ℕ, zero, suc, ◌+◌, ◌%◌, ◌≤◌, ◌<◌, Bool, true, some, List, [], ◌∷◌, ◌++◌, ◌≡◌, refl, sym, ◌∙◌, inl,
  inr, arith, length, get_or, set, length-append, length-set, get_or-set_self, get_or-set_ne,
  if◌then◌else◌, ◌==◌, Bool-cases, ==_iff,
}
use loeux_riscv.HashMap.Chain.{Node, Probe, is_match, find}
use loeux_riscv.HashMap.Chain.Laws.{to_nat, hits, find-eq-none}
use loeux_riscv.HashMap.Buckets.{place, move_chain, move_all}

-- All the nodes, bucket by bucket.
unfoldable pub nodes : List (List Node) → List Node
nodes [] = []
nodes (c ∷ cs) = c ++ nodes cs

abbrev pub chain_of : ℕ → Probe → List (List Node) → List Node
chain_of n q bs = get_or bs (q.hash % n) []

pub length-nodes-set :
    (bs : List (List Node)) (i : ℕ) (c : List Node)
    → i < length bs
    → length (nodes (set bs i c)) + length (get_or bs i []) ≡ length (nodes bs) + length c
unfolding nodes
length-nodes-set [] i c h = absurd (omega arith)
length-nodes-set (x ∷ bs) zero c h =
    omega (arith, length-append c (nodes bs), length-append x (nodes bs))
length-nodes-set (x ∷ bs) (suc i) c h = omega (
  arith,
  length-append x (nodes (set bs i c)),
  length-append x (nodes bs),
  length-nodes-set bs i c (omega arith),
)

-- `n` buckets, and a probe is matched by one node at most, which stands in the probe's bucket.
pub record IsPlaced (ke : ℕ → ℕ → ℕ → Bool) (n : ℕ) (bs : List (List Node)) : Type 0 where
  pub width : length bs ≡ n
  pub once : (q : Probe) (i : ℕ) → hits ke q (get_or bs i []) ≤ to_nat (i == q.hash % n)

module _ (ke : ℕ → ℕ → ℕ → Bool) where
  pub hash_of_match : (q : Probe) (x : Node) → is_match ke q x ≡ true → x.hash ≡ q.hash
  unfolding is_match
  hash_of_match q x h = ground arith

  pub get_or-place :
      (n : ℕ) (x : Node) (bs : List (List Node)) (j : ℕ)
      → length bs ≡ n
      → 0 < n
      → get_or (place n x bs) j []
        ≡ (if j == x.hash % n then x ∷ get_or bs j [] else get_or bs j [])
  unfolding place
  get_or-place n x bs j w pos = elim (Bool-cases (j == x.hash % n)) [
    | inl same ↦
        let e = (==_iff j (x.hash % n)).0 same in
        rw (same, e) (get_or-set_self bs _ _ [] (rw w (omega arith)))
    | inr other ↦ rw other (get_or-set_ne bs _ j _ [] (ground arith))
  ]

  pub hits-place :
      (n : ℕ) (x : Node) (bs : List (List Node)) (q : Probe) (j : ℕ)
      → length bs ≡ n
      → 0 < n
      → hits ke q (get_or (place n x bs) j [])
        ≡ (if j == q.hash % n then to_nat (is_match ke q x) else 0) + hits ke q (get_or bs j [])
  unfolding hits
  hits-place n x bs q j w pos = rw (get_or-place n x bs j w pos) (ground (arith, hash_of_match q x))

  pub find-place :
      (n : ℕ) (x : Node) (bs : List (List Node)) (q : Probe)
      → length bs ≡ n
      → 0 < n
      → find ke q (chain_of n q (place n x bs))
        ≡ (if is_match ke q x then some x else find ke q (chain_of n q bs))
  unfolding find
  find-place n x bs q w pos =
      rw (get_or-place n x bs (q.hash % n) w pos) (ground (arith, hash_of_match q x))

  pub length-place : (n : ℕ) (x : Node) (bs : List (List Node)) → length (place n x bs) ≡ length bs
  unfolding place
  length-place n x bs = length-set bs _ _

  pub length-nodes-place :
      (n : ℕ) (x : Node) (bs : List (List Node))
      → length bs ≡ n
      → 0 < n
      → length (nodes (place n x bs)) ≡ suc (length (nodes bs))
  unfolding place
  length-nodes-place n x bs w pos =
      omega (
        arith,
        length-nodes-set bs (x.hash % n) (x ∷ get_or bs (x.hash % n) []) (rw w (omega arith)),
      )

  pub length-move_chain :
      (n : ℕ) (c : List Node) (bs : List (List Node)) → length (move_chain n c bs) ≡ length bs
  unfolding move_chain
  length-move_chain n [] bs = refl
  length-move_chain n (x ∷ c) bs = length-move_chain n c (place n x bs) ∙ length-place n x bs

  move_chain-append :
      (n : ℕ) (c d : List Node) (bs : List (List Node))
      → move_chain n (c ++ d) bs ≡ move_chain n d (move_chain n c bs)
  unfolding move_chain
  move_chain-append n [] d bs = refl
  move_chain-append n (x ∷ c) d bs = move_chain-append n c d (place n x bs)

  -- The two nested loops are one loop over all the nodes.
  pub move_all-nodes :
      (n : ℕ) (cs bs : List (List Node)) → move_all n cs bs ≡ move_chain n (nodes cs) bs
  unfolding move_all nodes move_chain
  move_all-nodes n [] bs = refl
  move_all-nodes n (c ∷ cs) bs =
      move_all-nodes n cs (move_chain n c bs) ∙ sym (move_chain-append n c (nodes cs) bs)

  module _ (n : ℕ) (pos : 0 < n) where
    pub hits-move_chain :
        (c : List Node) (bs : List (List Node)) (q : Probe) (j : ℕ)
        → length bs ≡ n
        → hits ke q (get_or (move_chain n c bs) j [])
          ≡ (if j == q.hash % n then hits ke q c else 0) + hits ke q (get_or bs j [])
    unfolding hits move_chain
    hits-move_chain [] bs q j w = ground arith
    hits-move_chain (x ∷ c) bs q j w =
        ground
          (arith, hits-move_chain c (place n x bs) q j, length-place n x bs, hits-place n x bs q j)

    pub find-move_chain :
        (c : List Node) (bs : List (List Node)) (q : Probe)
        → length bs ≡ n
        → hits ke q c + hits ke q (chain_of n q bs) ≤ 1
        → find ke q (chain_of n q (move_chain n c bs))
          ≡ or_else (find ke q c) (find ke q (chain_of n q bs))
    unfolding hits move_chain find or_else
    find-move_chain [] bs q w h = refl
    find-move_chain (x ∷ c) bs q w h = ground (
      arith,
      find-move_chain c (place n x bs) q,
      length-place n x bs,
      hits-place n x bs q (q.hash % n),
      find-place n x bs q,
      find-eq-none ke q c,
    )

    pub length-nodes-move_chain :
        (c : List Node) (bs : List (List Node))
        → length bs ≡ n
        → length (nodes (move_chain n c bs)) ≡ length c + length (nodes bs)
    unfolding move_chain
    length-nodes-move_chain [] bs w = omega arith
    length-nodes-move_chain (x ∷ c) bs w = omega (
      arith,
      length-nodes-move_chain c (place n x bs) (length-place n x bs ∙ w),
      length-nodes-place n x bs w pos,
    )
