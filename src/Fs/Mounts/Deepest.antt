-- ===== src/Fs/Mounts/Deepest.antt =====
-- The search for a mount in a tree whose mounts are nested.
use loeux_riscv.Base.{
  ℕ, true, List, [], ◌∷◌, ◌++◌, ◌≡◌, ◌⊎◌, inl, inr, refl, sym, ◌∙◌, ap, arith, Bool-cases,
}
use mathlib.Core.Path.{subst}
use loeux_riscv.Fs.Mounts.{
  Mount, null, mount, mount_path_match, descend, is_absolute, vfs_find_mount,
}

abbrev pub IsEnd : List ℕ → Type 0
IsEnd [] = Unit
IsEnd (c ∷ rest) = c ≡ 47

-- The path is `p`, or `p` with a slash and more behind it.
abbrev pub Under : List ℕ → List ℕ → Type 0
Under p path = (rest : List ℕ) × (path ≡ p ++ rest) × IsEnd rest

-- The mount is one of a list of siblings, or below one of them.
abbrev pub Among : Mount → Mount → Type 0
Among m null = ⊥
Among m (mount p sb child next) = (m ≡ mount p sb child next) ⊎ Among m child ⊎ Among m next

abbrev pub path_of : Mount → List ℕ
path_of null = []
path_of (mount p sb child next) = p

-- The paths of the mounts below a mount are under its own, and no path is under it and under a mount
-- among its later siblings.
abbrev pub IsNested : Mount → Type 0
IsNested null = Unit
IsNested (mount p sb child next) =
    ((m : Mount) → Among m child → Under p (path_of m))
    × ((m : Mount) (path : List ℕ) → Among m next → Under p path → Under (path_of m) path → ⊥)
    × IsNested child
    × IsNested next

match-Under : (p path : List ℕ) → mount_path_match p path ≡ true → Under p path
unfolding mount_path_match
match-Under [] [] e = ([], refl, tt)
match-Under [] (c ∷ path) e = (c ∷ path, refl, ground arith)
match-Under (a ∷ p) [] e = absurd cc
match-Under (a ∷ p) (c ∷ path) e =
    let (rest, split, end) = match-Under p path (ground arith) in
    let same : c ≡ a = ground arith in (rest, ap (λ x. x ∷ path) same ∙ ap (λ l. a ∷ l) split, end)

match-append : (p rest : List ℕ) → IsEnd rest → mount_path_match p (p ++ rest) ≡ true
unfolding mount_path_match
match-append [] [] e = refl
match-append [] (c ∷ rest) e = ground arith
match-append (a ∷ p) rest e = ground (arith, match-append p rest e)

pub Under-match : (p path : List ℕ) → Under p path → mount_path_match p path ≡ true
Under-match p path (rest, split, end) = ap (mount_path_match p) split ∙ match-append p rest end

append_assoc : (a b c : List ℕ) → (a ++ b) ++ c ≡ a ++ (b ++ c)
append_assoc [] b c = refl
append_assoc (x ∷ a) b c = ap (λ l. x ∷ l) (append_assoc a b c)

IsEnd-append : (s t : List ℕ) → IsEnd s → IsEnd t → IsEnd (s ++ t)
IsEnd-append [] t a b = b
IsEnd-append (c ∷ s) t a b = a

append_nil : (p : List ℕ) → p ≡ p ++ []
append_nil [] = refl
append_nil (c ∷ p) = ap (λ l. c ∷ l) (append_nil p)

Under-refl : (p : List ℕ) → Under p p
Under-refl p = ([], append_nil p, tt)

Under-trans : (p q r : List ℕ) → Under p q → Under q r → Under p r
Under-trans p q r (s, e, a) (t, f, b) =
    (s ++ t, f ∙ ap (λ l. l ++ t) e ∙ append_assoc p s t, IsEnd-append s t a b)

-- The answer `r` of a search that starts at `here`: `here` where no mount of the list covers the
-- path, or else the deepest of the mounts that do, each of which covers its path.
pub record Deepest (here list : Mount) (path : List ℕ) (r : Mount) : Type 0 where
  pub answer :
      ((r ≡ here) × ((m : Mount) → Among m list → Under (path_of m) path → ⊥))
      ⊎ (Among r list
          × Under (path_of r) path
          × ((m : Mount) → Among m list → Under (path_of m) path → Under (path_of m) (path_of r)))

-- The first mount of the list covers the path.
inside-Deepest :
    (here c n r : Mount) (q : List ℕ) (b : ℕ) (path : List ℕ)
    → IsNested (mount q b c n)
    → Under q path
    → Deepest (mount q b c n) c path r
    → Deepest here (mount q b c n) path r
inside-Deepest here c n r q b path nested u d = record {
  answer = elim d.answer [
    | inl (e, none) ↦
        let p : path_of r ≡ q = ap path_of e in
        inr (
          inl e,
          subst (λ s. Under s path) (sym p) u,
          λ m a k. elim a [
            | inl same ↦
                subst (λ s. Under (path_of m) s) (ap path_of same ∙ sym p) (Under-refl (path_of m))
            | inr (inl below) ↦ absurd (none m below k)
            | inr (inr behind) ↦ absurd (nested.1 m path behind u k)
          ],
        )
    | inr (in_c, under, best) ↦ inr (
      inr (inl in_c),
      under,
      λ m a k. elim a [
        | inl same ↦ subst (λ s. Under s (path_of r)) (sym (ap path_of same)) (nested.0 r in_c)
        | inr (inl below) ↦ best m below k
        | inr (inr behind) ↦ absurd (nested.1 m path behind u k)
      ],
    )
  ];
}

-- It does not, and neither does a mount below it.
past-Deepest :
    (here c n r : Mount) (q : List ℕ) (b : ℕ) (path : List ℕ)
    → IsNested (mount q b c n)
    → (Under q path → ⊥)
    → Deepest here n path r
    → Deepest here (mount q b c n) path r
past-Deepest here c n r q b path nested not_under d =
    let off : (m : Mount) → Among m c → Under (path_of m) path → ⊥ =
      λ m a k. not_under (Under-trans q (path_of m) path (nested.0 m a) k) in
    record {
      answer = elim d.answer [
        | inl (e, none) ↦ inl (
          e,
          λ m a k. elim a [
            | inl same ↦ not_under (subst (λ s. Under s path) (ap path_of same) k)
            | inr (inl below) ↦ off m below k
            | inr (inr behind) ↦ none m behind k
          ],
        )
        | inr (in_n, under, best) ↦ inr (
          inr (inr in_n),
          under,
          λ m a k. elim a [
            | inl same ↦ absurd (not_under (subst (λ s. Under s path) (ap path_of same) k))
            | inr (inl below) ↦ absurd (off m below k)
            | inr (inr behind) ↦ best m behind k
          ],
        )
      ];
    }

descend-Deepest :
    (here list : Mount) (path : List ℕ)
    → IsNested list
    → Deepest here list path (descend path here list)
unfolding descend
descend-Deepest here null path nested = record { answer = inl (refl, λ m a. absurd a) }
descend-Deepest here (mount q b c n) path nested = elim (Bool-cases (mount_path_match q path)) [
  | inl e ↦
      rw (descend, e)
        (inside-Deepest here c n (descend path (mount q b c n) c) q b path nested
          (match-Under q path e) (descend-Deepest (mount q b c n) c path nested.2))
  | inr e ↦
      rw (descend, e)
        (past-Deepest here c n (descend path here n) q b path nested
          (λ u. let f = sym (Under-match q path u) ∙ e in cc)
          (descend-Deepest here n path nested.3))
]

-- Say that a path is under another if it is that path, or that path with a slash and more behind
-- it. In a tree where the path of each mount below the root is under that of its parent, and no
-- path is under a mount and under one among its later siblings and what is below them,
-- vfs_find_mount of an absolute path answers the root where the path is under no mount below the
-- root. Else it answers a mount of the tree that the path is under, and whose path is under that
-- of each mount below the root that the path is under: the deepest of them.
pub vfs_find_mount-Deepest :
    (p : List ℕ) (sb : ℕ) (child next : Mount) (path : List ℕ)
    → IsNested child
    → is_absolute path ≡ true
    → Deepest (mount p sb child next) child path (vfs_find_mount (mount p sb child next) path)
unfolding vfs_find_mount
vfs_find_mount-Deepest p sb child next path nested e =
    rw e (descend-Deepest (mount p sb child next) child path nested)
