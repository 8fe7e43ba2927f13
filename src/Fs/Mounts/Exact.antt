-- ===== src/Fs/Mounts/Exact.antt =====
-- The search for the mount of a path visits the whole tree below the root.
use loeux_riscv.Base.{
  ℕ, true, false, List, [], ◌∷◌, ◌≡◌, ◌≢◌, ◌⊎◌, refl, arith, Bool-cases, inl, inr,
}
use loeux_riscv.Fs.Mounts.{Mount, null, mount, same_path, find_exact, vfs_find_mount_exact}
use loeux_riscv.Fs.Mounts.Search.{child_of}

-- A mount of this path is on the list or below it.
unfoldable pub Has : List ℕ → Mount → Type 0
Has path null = ⊥
Has path (mount p sb child next) = (p ≡ path) ⊎ (Has path child ⊎ Has path next)

abbrev pub HasPath : List ℕ → Mount → Type 0
HasPath path null = ⊥
HasPath path (mount p sb child next) = p ≡ path

-- The answer is a mount of the path, or NULL and there is none.
unfoldable pub Answers : List ℕ → Mount → Mount → Type 0
Answers path l r = HasPath path r ⊎ ((r ≡ null) × (Has path l → ⊥))

same_path-true : (a b : List ℕ) → same_path a b ≡ true → a ≡ b
unfolding same_path
same_path-true [] [] e = refl
same_path-true [] (c ∷ b) e = ground arith
same_path-true (c ∷ a) [] e = ground arith
same_path-true (c ∷ a) (d ∷ b) e =
    let heads : c ≡ d = ground arith in
    let tails : a ≡ b = same_path-true a b (ground arith) in rw (heads, tails) refl

same_path_refl : (a : List ℕ) → same_path a a ≡ true
unfolding same_path
same_path_refl [] = refl
same_path_refl (c ∷ a) = ground (arith, same_path_refl a)

same_path-false : (a b : List ℕ) → same_path a b ≡ false → a ≢ b
same_path-false a b e same =
    let t : same_path a b ≡ true = rw same (same_path_refl b) in ground arith

HasPath-first :
    (path : List ℕ) (r other : Mount)
    → HasPath path r
    → HasPath path (elim r [ null ↦ other | mount q b c n ↦ mount q b c n ])
HasPath-first path null other h = absurd h
HasPath-first path (mount q b c n) other h = h

find_exact-Answers : (path : List ℕ) (l : Mount) → Answers path l (find_exact path l)
unfolding find_exact Answers Has
find_exact-Answers path null = inr (refl, λ h. h)
find_exact-Answers path (mount p sb child next) = elim (Bool-cases (same_path p path)) [
  | inl e ↦ rw (find_exact, e) (inl (same_path-true p path e))
  | inr e ↦ elim (find_exact-Answers path child) [
    | inl found ↦
        rw (find_exact, e)
          (inl (HasPath-first path (find_exact path child) (find_exact path next) found))
    | inr (none_below, absent) ↦ elim (find_exact-Answers path next) [
      | inl found ↦ rw (find_exact, e, none_below) (inl found)
      | inr (none_behind, gone) ↦
          rw (find_exact, e, none_below)
            (inr (
              none_behind,
              λ h. elim h [
                | inl here ↦ same_path-false p path e here
                | inr (inl below) ↦ absent below
                | inr (inr behind) ↦ gone behind
              ],
            ))
    ]
  ]
]

-- vfs_find_mount_exact answers a mount of exactly the path, or NULL, and then no mount anywhere
-- below the root has that path.
pub vfs_find_mount_exact-Answers :
    (root : Mount) (path : List ℕ) → Answers path (child_of root) (vfs_find_mount_exact root path)
unfolding vfs_find_mount_exact Answers Has
vfs_find_mount_exact-Answers null path = inr (refl, λ h. h)
vfs_find_mount_exact-Answers (mount p sb child next) path = find_exact-Answers path child
