-- ===== src/Sync/Sleeplock/Ring.antt =====
-- The wait queue as a list: the sentinel, the waiting tasks in their order, and the sentinel again.
use loeux_riscv.Base.{update, ℕ, List, [], ◌∷◌, ◌++◌, ◌≡◌, ◌≢◌, sym, ◌∙◌, arith}
use loeux_riscv.Mm.Pages.Queue.{NotIn, Distinct}

-- The links from the node `a` through the nodes `l` to the node `b`, and back.
abbrev pub Ring : (ℕ → ℕ) → (ℕ → ℕ) → ℕ → List ℕ → ℕ → Type 0
Ring next prev a [] b = (next a ≡ b) × (prev b ≡ a)
Ring next prev a (x ∷ l) b = (next a ≡ x) × (prev x ≡ a) × Ring next prev x l b

-- Writes to a `next` outside of the path, and to a `prev` outside of it.
pub Ring-update :
    (next prev : ℕ → ℕ) (a b n v p w : ℕ) (l : List ℕ)
    → n ≢ a
    → p ≢ b
    → NotIn n l
    → NotIn p l
    → Ring next prev a l b
    → Ring (update next n v) (update prev p w) a l b
Ring-update next prev a b n v p w [] na pb out out' k = (ground arith, ground arith)
Ring-update next prev a b n v p w (x ∷ l) na pb out out' k =
    (ground arith, ground arith, Ring-update next prev x b n v p w l out.0 pb out.1 out'.1 k.2)

-- The first node leaves.
pub Ring-tail :
    (next prev : ℕ → ℕ) (x : ℕ) (l : List ℕ)
    → NotIn 0 (x ∷ l)
    → Distinct (x ∷ l)
    → Ring next prev 0 (x ∷ l) 0
    → Ring (update next 0 (next x)) (update prev (next x) 0) 0 l 0
Ring-tail next prev x [] nz d k = (ground arith, ground arith)
Ring-tail next prev x (y ∷ l) nz d k =
    let at_y : next x ≡ y = k.2.0 in
    (
      ground arith,
      ground arith,
      Ring-update next prev y 0 0 (next x) (next x) 0 l (λ e. nz.1.0 e)
          (λ e. nz.1.0 (sym (sym at_y ∙ e))) nz.1.1 (rw at_y d.1.0) k.2.2,
    )

-- The last node of a path is one of its nodes.
pub last_node :
    (next prev : ℕ → ℕ) (x z : ℕ) (l : List ℕ)
    → z ≢ x
    → NotIn z l
    → Ring next prev x l 0
    → prev 0 ≢ z
last_node next prev x z [] d out k = λ e. d (sym e ∙ k.1)
last_node next prev x z (y ∷ l) d out k = last_node next prev y z l out.0 out.1 k.2

-- A node joins before the sentinel.
pub Ring-append :
    (next prev : ℕ → ℕ) (a p : ℕ) (l : List ℕ)
    → p ≢ 0
    → p ≢ a
    → NotIn p l
    → NotIn a l
    → NotIn 0 l
    → Distinct l
    → Ring next prev a l 0
    → Ring
        (update (update next (prev 0) p) p 0)
        (update (update prev p (prev 0)) 0 p)
        a
        (l ++ p ∷ [])
        0
Ring-append next prev a p [] pz pa out away nz d k =
    (ground arith, ground arith, (ground arith, ground arith))
Ring-append next prev a p (x ∷ l) pz pa out away nz d k =
    let last = last_node next prev x a l away.0 away.1 k.2 in
    (
      ground arith,
      ground (arith, nz.0, out.0),
      Ring-append next prev x p l pz out.0 out.1 d.0 nz.1 d.1 k.2,
    )
