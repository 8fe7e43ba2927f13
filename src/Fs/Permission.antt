-- ===== src/Fs/Permission.antt =====
-- The permission check of fs/vfs.c.
pub mod Laws
use loeux_riscv.Base.{
  ℕ, ◌+◌, ◌/◌, ◌%◌, ◌^◌, Bool, true, false, ◌&&◌, ◌||◌, not, Option, none, some, List, [], ◌∷◌,
  ◌==◌, if◌then◌else◌,
}

-- `struct credentials`; `groups` are the first `ngroups` entries of its array.
pub record Credentials : Type 0 where
  pub uid : ℕ
  pub gid : ℕ
  pub groups : List ℕ

-- The fields of `struct inode` that the check reads.
pub record Inode : Type 0 where
  pub mode : ℕ
  pub uid : ℕ
  pub gid : ℕ

abbrev pub is_one_of : ℕ → List ℕ → Bool
is_one_of gid [] = false
is_one_of gid (g ∷ gs) = g == gid || is_one_of gid gs

unfoldable pub vfs_in_group : Credentials → ℕ → Bool
vfs_in_group cred gid = cred.gid == gid || is_one_of gid cred.groups

-- Whether the bit of value `2 ^ k` is set.
abbrev pub bit : ℕ → ℕ → Bool
bit k x = x / 2 ^ k % 2 == 1

-- The three bits of the class that the credentials have: owner, group or others.
unfoldable pub perm_of : Inode → Credentials → ℕ
unfolding vfs_in_group
perm_of inode cred =
    if cred.uid == inode.uid
    then inode.mode / 2 ^ 6 % 8
    else if vfs_in_group cred inode.gid
    then inode.mode / 2 ^ 3 % 8
    else inode.mode % 8

-- `MAY_READ`, `MAY_WRITE` and `MAY_EXEC` are the bits 0, 1 and 2 of a mask; in a mode `r`, `w` and `x`
-- are the bits 2, 1 and 0 of each class. `true` is the answer 0.
unfoldable pub vfs_permission : Option Inode → Option Credentials → ℕ → Bool
unfolding perm_of
vfs_permission none cred mask = false
vfs_permission (some inode) none mask = false
vfs_permission (some inode) (some cred) mask =
    let perm = perm_of inode cred in
    if cred.uid == 0
    then true
    else if bit 0 mask && not (bit 2 perm)
    then false
    else if bit 1 mask && not (bit 1 perm)
    then false
    else if bit 2 mask && not (bit 0 perm)
    then false
    else true
