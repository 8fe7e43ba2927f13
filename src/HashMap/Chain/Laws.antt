-- ===== src/HashMap/Chain/Laws.antt =====
-- What the key comparison is asked to satisfy, and how the chain operations act on the first match
-- and on the number of matches.
use loeux_riscv.Base.{
  ℕ, ◌+◌, ◌≤◌, Bool, true, false, none, some, List, [], ◌∷◌, ◌++◌, ◌≡◌, refl, arith, length,
  if◌then◌else◌,
}
use loeux_riscv.HashMap.Chain.{Node, Probe, probe_of, is_match, find, assign, unlink}

-- An equivalence at each length, and the hash agrees with it.
pub record IsLawful (hash_func : ℕ → ℕ → ℕ) (key_equal : ℕ → ℕ → ℕ → Bool) : Type 0 where
  pub equal_refl : (a n : ℕ) → key_equal a a n ≡ true
  pub equal_symm : (a b n : ℕ) → key_equal a b n ≡ key_equal b a n
  pub equal_trans :
      (a b c n : ℕ) → key_equal a b n ≡ true → key_equal b c n ≡ true → key_equal a c n ≡ true
  pub hash-equal : (a b n : ℕ) → key_equal a b n ≡ true → hash_func a n ≡ hash_func b n

abbrev pub to_nat : Bool → ℕ
to_nat true = 1
to_nat false = 0

module _ (key_equal : ℕ → ℕ → ℕ → Bool) where
  -- How many nodes of the chain match.
  unfoldable pub hits : Probe → List Node → ℕ
  hits q [] = 0
  hits q (x ∷ c) = to_nat (is_match key_equal q x) + hits q c

module _ {hash_func : ℕ → ℕ → ℕ} {ke : ℕ → ℕ → ℕ → Bool} (lawful : IsLawful hash_func ke) where
  pub is_match-probe_of : (x : Node) → is_match ke (probe_of x) x ≡ true
  unfolding is_match
  is_match-probe_of x = ground (arith, lawful.equal_refl x.key x.key_len)

  -- Two probes that match one node match the same nodes.
  pub is_match_congr :
      (q : Probe) (x y : Node)
      → is_match ke q x ≡ true
      → is_match ke q y ≡ is_match ke (probe_of x) y
  unfolding is_match
  is_match_congr q x y h = ground (
    arith,
    lawful.equal_symm x.key q.key q.len,
    lawful.equal_trans y.key q.key x.key q.len,
    lawful.equal_trans y.key x.key q.key q.len,
  )

module _ (ke : ℕ → ℕ → ℕ → Bool) where
  pub is_match-record :
      (q : Probe) (x : Node) (v : ℕ) → is_match ke q (record x { value = v }) ≡ is_match ke q x
  unfolding is_match
  is_match-record q x v = refl

  pub find-eq-none : (q : Probe) (c : List Node) → hits ke q c ≡ 0 → find ke q c ≡ none
  unfolding hits find
  find-eq-none q [] h = refl
  find-eq-none q (x ∷ c) h = ground (arith, find-eq-none q c)

  pub hits-eq-zero : (q : Probe) (c : List Node) → find ke q c ≡ none → hits ke q c ≡ 0
  unfolding hits find
  hits-eq-zero q [] h = refl
  hits-eq-zero q (x ∷ c) h = ground (arith, hits-eq-zero q c)

  pub hits-append : (q : Probe) (c d : List Node) → hits ke q (c ++ d) ≡ hits ke q c + hits ke q d
  unfolding hits
  hits-append q [] d = omega arith
  hits-append q (x ∷ c) d = omega (arith, hits-append q c d)

  -- What the search finds matches.
  pub find-is_match :
      (q : Probe) (c : List Node) (x : Node) → find ke q c ≡ some x → is_match ke q x ≡ true
  unfolding find
  find-is_match q [] x h = ground arith
  find-is_match q (y ∷ c) x h = ground (arith, find-is_match q c x)

  pub length-assign : (q : Probe) (v : ℕ) (c : List Node) → length (assign ke q v c) ≡ length c
  unfolding assign
  length-assign q v [] = refl
  length-assign q v (x ∷ c) = ground (arith, length-assign q v c)

  pub length-unlink :
      (q : Probe) (c : List Node) (x : Node)
      → find ke q c ≡ some x
      → length (unlink ke q c) + 1 ≡ length c
  unfolding unlink find
  length-unlink q [] x h = ground arith
  length-unlink q (y ∷ c) x h = ground (arith, length-unlink q c x)

  -- Writing a value changes no key.
  pub hits-assign :
      (p q : Probe) (v : ℕ) (c : List Node) → hits ke p (assign ke q v c) ≡ hits ke p c
  unfolding hits assign is_match
  hits-assign p q v [] = refl
  hits-assign p q v (x ∷ c) = ground (arith, hits-assign p q v c)

  pub hits-unlink-le : (p q : Probe) (c : List Node) → hits ke p (unlink ke q c) ≤ hits ke p c
  unfolding hits unlink
  hits-unlink-le p q [] = omega arith
  hits-unlink-le p q (x ∷ c) = ground (arith, hits-unlink-le p q c)

module _ {hash_func : ℕ → ℕ → ℕ} {ke : ℕ → ℕ → ℕ → Bool} (lawful : IsLawful hash_func ke) where
  -- The node that a search finds answers for every probe that matches it.
  pub find-assign :
      (p q : Probe) (v : ℕ) (c : List Node) (x : Node)
      → find ke q c ≡ some x
      → find ke p (assign ke q v c)
        ≡ (if is_match ke p x then some (record x { value = v }) else find ke p c)
  unfolding find assign
  find-assign p q v [] x h = ground arith
  find-assign p q v (y ∷ c) x h = ground (
    arith,
    find-assign p q v c x,
    is_match_congr lawful p x y,
    is_match_congr lawful q x y,
    find-is_match ke q c x,
    is_match-record ke p y v,
  )

  pub find-unlink :
      (p q : Probe) (c : List Node) (x : Node)
      → find ke q c ≡ some x
      → hits ke p c ≤ 1
      → find ke p (unlink ke q c) ≡ (if is_match ke p x then none else find ke p c)
  unfolding find unlink hits
  find-unlink p q [] x h once = ground arith
  find-unlink p q (y ∷ c) x h once = ground (
    arith,
    find-unlink p q c x,
    is_match_congr lawful p x y,
    is_match_congr lawful q x y,
    find-is_match ke q c x,
    find-eq-none ke p c,
  )

  -- Nothing matches a probe that a node which is not there answers for.
  pub hits_congr :
      (p q : Probe) (x : Node) (c : List Node)
      → is_match ke p x ≡ true
      → is_match ke q x ≡ true
      → hits ke p c ≡ hits ke q c
  unfolding hits
  hits_congr p q x [] hp hq = refl
  hits_congr p q x (y ∷ c) hp hq =
      ground (arith, hits_congr p q x c, is_match_congr lawful p x y, is_match_congr lawful q x y)
