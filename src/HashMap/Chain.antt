-- ===== src/HashMap/Chain.antt =====
-- One conflict chain: the nodes that share a bucket.
pub mod Laws
use loeux_riscv.Base.{
  ℕ, ◌+◌, Bool, true, false, ◌&&◌, Option, none, some, List, [], ◌∷◌, ◌==◌, if◌then◌else◌,
}

-- `hash_node_t`, with the address at which it was allocated.
pub record Node : Type 0 where
  pub addr : ℕ
  pub key : ℕ
  pub value : ℕ
  pub key_len : ℕ
  pub hash : ℕ

-- What an operation looks for: the caller's key, its length, and its hash.
pub record Probe : Type 0 where
  pub key : ℕ
  pub len : ℕ
  pub hash : ℕ

abbrev pub probe_of : Node → Probe
probe_of x = record { key = x.key; len = x.key_len; hash = x.hash }

module _ (key_equal : ℕ → ℕ → ℕ → Bool) where
  -- The condition of every search loop.
  unfoldable pub is_match : Probe → Node → Bool
  is_match q x = x.hash == q.hash && x.key_len == q.len && key_equal x.key q.key q.len

  -- The search loop: the first node that matches.
  unfoldable pub find : Probe → List Node → Option Node
  find q [] = none
  find q (x ∷ c) = if is_match q x then some x else find q c

  -- `node->value = value`, at the node that the search found.
  unfoldable pub assign : Probe → ℕ → List Node → List Node
  assign q v [] = []
  assign q v (x ∷ c) = if is_match q x then record x { value = v } ∷ c else x ∷ assign q v c

  -- `prev->next = node->next`, at the node that the search found.
  unfoldable pub unlink : Probe → List Node → List Node
  unlink q [] = []
  unlink q (x ∷ c) = if is_match q x then c else x ∷ unlink q c
