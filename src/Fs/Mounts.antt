-- ===== src/Fs/Mounts.antt =====
-- The mount tree of fs/vfs.c. A path is the list of its characters.
pub mod Search
pub mod Exact
pub mod Deepest
use loeux_riscv.Base.{
  ℕ, Bool, true, false, ◌&&◌, not, Option, none, some, List, [], ◌∷◌, ◌==◌, if◌then◌else◌,
}

-- A `struct mount*`: NULL, or a mount with its path, its super block, its first child and its next
-- sibling.
pub data Mount : Type 0 where
  null : Mount
  mount : List ℕ → ℕ → Mount → Mount → Mount

abbrev pub slash : ℕ
slash = 47

unfoldable pub mount_path_match : List ℕ → List ℕ → Bool
mount_path_match [] [] = true
mount_path_match [] (c ∷ path) = c == slash
mount_path_match (a ∷ mnt) [] = false
mount_path_match (a ∷ mnt) (c ∷ path) = a == c && mount_path_match mnt path

-- The loops of `vfs_find_mount`: from the mount `here`, of whose children the ones from the third
-- argument on are left.
unfoldable pub descend : List ℕ → Mount → Mount → Mount
unfolding mount_path_match
descend path here null = here
descend path here (mount p sb child next) = elim (mount_path_match p path) [
  | true ↦ descend path (mount p sb child next) child
  | false ↦ descend path here next
]

abbrev pub is_absolute : List ℕ → Bool
is_absolute [] = false
is_absolute (c ∷ path) = c == slash

unfoldable pub vfs_find_mount : Mount → List ℕ → Mount
unfolding descend
vfs_find_mount null path = null
vfs_find_mount (mount p sb child next) path =
    if is_absolute path then descend path (mount p sb child next) child else null

-- The new mount becomes the first child of the mount that `vfs_find_mount` finds for its path; these
-- are the children of that mount afterwards, or of the one on the way to it. `none` if no sibling
-- leads on.
unfoldable pub attach_in : List ℕ → ℕ → Mount → Option Mount
unfolding mount_path_match
attach_in target sb null = none
attach_in target sb (mount p b child next) =
    let below = attach_in target sb child in
    let behind = attach_in target sb next in
    if mount_path_match p target
    then some (mount p b (elim below [ none ↦ mount target sb null child | some l ↦ l ]) next)
    else elim behind [ none ↦ none | some l ↦ some (mount p b child l) ]

unfoldable pub attach : List ℕ → ℕ → Mount → Mount
unfolding attach_in
attach target sb child = elim (attach_in target sb child) [
  | none ↦ mount target sb null child
  | some l ↦ l
]

abbrev pub is_root : List ℕ → Bool
is_root [] = false
is_root (c ∷ []) = c == slash
is_root (c ∷ d ∷ path) = false

-- What `vfs_mount` does to the tree for a super block that it has: `false` is the answer -1.
unfoldable pub link_mount : Mount → List ℕ → ℕ → Bool × Mount
unfolding attach
link_mount null target sb =
    if is_root target then (true, mount target sb null null) else (false, null)
link_mount (mount p b child next) target sb =
    if is_root target
    then (false, mount p b child next)
    else if is_absolute target
    then (true, mount p b (attach target sb child) next)
    else (false, mount p b child next)

-- `strcmp(a, b) == 0`
unfoldable pub same_path : List ℕ → List ℕ → Bool
same_path [] [] = true
same_path [] (c ∷ b) = false
same_path (c ∷ a) [] = false
same_path (c ∷ a) (d ∷ b) = c == d && same_path a b

-- The loop of `vfs_find_mount_exact` over the children from the second argument on.
unfoldable pub find_exact : List ℕ → Mount → Mount
unfolding same_path
find_exact path null = null
find_exact path (mount p sb child next) =
    let below = find_exact path child in
    let behind = find_exact path next in
    if same_path p path
    then mount p sb child next
    else elim below [ null ↦ behind | mount q b c n ↦ mount q b c n ]

unfoldable pub vfs_find_mount_exact : Mount → List ℕ → Mount
unfolding find_exact
vfs_find_mount_exact null path = null
vfs_find_mount_exact (mount p sb child next) path = find_exact path child
