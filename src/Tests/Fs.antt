-- ===== src/Tests/Fs.antt =====
-- A tree with the root 1 at "/", 2 at "/a" and 3 at "/a/b", below 2; and permissions of one file.
use loeux_riscv.Base.{
  ℕ, true, false, List, [], ◌∷◌, some, ◌≡◌, ◌↔◌, ◌++◌, sym, ap, ◌∙◌, refl, arith, inl, inr,
}
use mathlib.Core.Path.{subst}
use loeux_riscv.Fs.Mounts.Deepest.{
  Under, IsNested, path_of, Deepest, Under-match, vfs_find_mount-Deepest,
}
use loeux_riscv.Fs.Mounts.{Mount, null, mount, mount_path_match, vfs_find_mount, link_mount}
use loeux_riscv.Fs.Permission.Laws.{ClassOf, group, Grants, vfs_permission_iff, InGroup, Member}
use loeux_riscv.Fs.Permission.{Credentials, Inode, vfs_permission}

abbrev at_a : List ℕ
at_a = 47 ∷ 97 ∷ []

abbrev at_ab : List ℕ
at_ab = 47 ∷ 97 ∷ 47 ∷ 98 ∷ []

abbrev at_ac : List ℕ
at_ac = 47 ∷ 97 ∷ 99 ∷ []

abbrev below_a : Mount
below_a = mount at_a 2 (mount at_ab 3 null null) null

abbrev below_root : Mount
below_root = mount at_a 2 (mount at_ab 3 null null) (mount at_ac 4 null null)

abbrev nested : Mount
nested = mount (47 ∷ []) 1 below_root null

abbrev tree : Mount
tree = mount (47 ∷ []) 1 below_a null

-- No path is under "/a" and under "/ac".
apart : (path : List ℕ) → Under at_a path → Under at_ac path → ⊥
unfolding mount_path_match
apart path a (rest, split, end) =
    let e : mount_path_match at_a (at_ac ++ rest) ≡ true =
      ap (mount_path_match at_a) (sym split) ∙ Under-match at_a path a in
    cc

below_root-IsNested : IsNested below_root
below_root-IsNested = (
  λ m a. elim a [
    | inl e ↦ (47 ∷ 98 ∷ [], ap path_of e, refl)
    | inr k ↦ elim k [ inl x ↦ absurd x | inr x ↦ absurd x ]
  ],
  λ m path a u v. elim a [
    | inl e ↦ apart path u (subst (λ s. Under s path) (ap path_of e) v)
    | inr k ↦ elim k [ inl x ↦ absurd x | inr x ↦ absurd x ]
  ],
  (λ m a. absurd a, λ m path a. absurd a, tt, tt),
  (λ m a. absurd a, λ m path a. absurd a, tt, tt),
)

vfs_find_mount-Deepest_example : Deepest nested below_root at_ab (vfs_find_mount nested at_ab)
vfs_find_mount-Deepest_example =
    vfs_find_mount-Deepest (47 ∷ []) 1 below_root null at_ab below_root-IsNested refl

-- Where "/a/b" is mounted before "/a", the path "/a/b" is found in the second.
out_of_order :
    path_of (
      vfs_find_mount (link_mount (mount (47 ∷ []) 1 (mount at_ab 3 null null) null) at_a 2).1 at_ab)
    ≡ at_a
unfolding vfs_find_mount link_mount
out_of_order = refl

mounts : (link_mount tree at_ac 4).0 ≡ true
unfolding link_mount
mounts = refl

not_covered : mount_path_match at_ac at_ab ≡ false
unfolding mount_path_match
not_covered = refl

abbrev file : Inode
file = record { mode = 0o640; uid = 1000; gid = 50 }

abbrev user : Credentials
user = record { uid = 1001; gid = 1001; groups = 20 ∷ 50 ∷ [] }

user-ClassOf : ClassOf file user 3
unfolding InGroup Member
user-ClassOf = group (omega arith) (inr (inr (inl refl)))

vfs_permission_iff_example : (vfs_permission (some file) (some user) 3 ≡ true) ↔ Grants file 3 3
vfs_permission_iff_example = vfs_permission_iff file user 3 3 (omega arith) user-ClassOf
