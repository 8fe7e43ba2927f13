-- ===== src/Fs/Permission/Laws.antt =====
-- A request is granted exactly where each right in it is, and the class decides alone.
use loeux_riscv.Base.{
  ℕ, ◌+◌, ◌/◌, ◌%◌, ◌^◌, Bool, true, false, ◌&&◌, not, some, List, [], ◌∷◌, ◌≡◌, ◌≢◌, ◌↔◌, ◌⊎◌, inl,
  inr, refl, sym, ◌∙◌, ap, arith, ◌==◌, if◌then◌else◌,
}
use loeux_riscv.Fs.Permission.{
  Credentials, Inode, is_one_of, vfs_in_group, bit, perm_of, vfs_permission,
}

-- The rights.
pub data Right : Type 0 where
  read : Right
  write : Right
  execute : Right

-- The bit of a right in a mask, and its bit in each class of a mode.
unfoldable pub mask_bit : Right → ℕ
mask_bit read = 0
mask_bit write = 1
mask_bit execute = 2

unfoldable pub mode_bit : Right → ℕ
mode_bit read = 2
mode_bit write = 1
mode_bit execute = 0

unfoldable pub Member : ℕ → List ℕ → Type 0
Member gid [] = ⊥
Member gid (g ∷ gs) = (g ≡ gid) ⊎ Member gid gs

-- The group of the credentials, or one of the further ones.
unfoldable pub InGroup : Credentials → ℕ → Type 0
InGroup cred gid = (cred.gid ≡ gid) ⊎ Member gid cred.groups

-- The bit of a mode at which the class of the credentials starts.
pub data ClassOf (inode : Inode) (cred : Credentials) : ℕ → Type 0 where
  owner : cred.uid ≡ inode.uid → ClassOf inode cred 6
  group : cred.uid ≢ inode.uid → InGroup cred inode.gid → ClassOf inode cred 3
  other : cred.uid ≢ inode.uid → (InGroup cred inode.gid → ⊥) → ClassOf inode cred 0

is_one_of-true : (gid : ℕ) (gs : List ℕ) → Member gid gs → is_one_of gid gs ≡ true
unfolding Member
is_one_of-true gid [] m = absurd m
is_one_of-true gid (g ∷ gs) (inl e) = ground arith
is_one_of-true gid (g ∷ gs) (inr m) = ground (arith, is_one_of-true gid gs m)

is_one_of-false : (gid : ℕ) (gs : List ℕ) → (Member gid gs → ⊥) → is_one_of gid gs ≡ false
unfolding Member
is_one_of-false gid [] m = refl
is_one_of-false gid (g ∷ gs) m =
    let ne : g ≢ gid = λ e. m (inl e) in ground (arith, is_one_of-false gid gs (λ k. m (inr k)))

InGroup-true : (cred : Credentials) (gid : ℕ) → InGroup cred gid → vfs_in_group cred gid ≡ true
unfolding vfs_in_group InGroup
InGroup-true cred gid (inl e) = ground arith
InGroup-true cred gid (inr m) = ground (arith, is_one_of-true gid cred.groups m)

InGroup-false :
    (cred : Credentials) (gid : ℕ) → (InGroup cred gid → ⊥) → vfs_in_group cred gid ≡ false
unfolding vfs_in_group InGroup
InGroup-false cred gid m =
    let ne : cred.gid ≢ gid = λ e. m (inl e) in
    ground (arith, is_one_of-false gid cred.groups (λ k. m (inr k)))

perm_of_class :
    (inode : Inode) (cred : Credentials) (s : ℕ)
    → ClassOf inode cred s
    → perm_of inode cred ≡ inode.mode / 2 ^ s % 8
unfolding perm_of
perm_of_class inode cred s (owner e) = ground arith
perm_of_class inode cred s (group ne m) = ground (arith, InGroup-true cred inode.gid m)
perm_of_class inode cred s (other ne m) = ground (arith, InGroup-false cred inode.gid m)

-- A right of a class is a bit of the mode.
bit_of_class :
    (m s k : ℕ)
    → (s ≡ 6) ⊎ ((s ≡ 3) ⊎ (s ≡ 0))
    → (k ≡ 0) ⊎ ((k ≡ 1) ⊎ (k ≡ 2))
    → bit k (m / 2 ^ s % 8) ≡ bit (k + s) m
bit_of_class m s k (inl e) (inl e') = rw (e, e') (ap (λ x. x == 1) (omega arith))
bit_of_class m s k (inl e) (inr (inl e')) = rw (e, e') (ap (λ x. x == 1) (omega arith))
bit_of_class m s k (inl e) (inr (inr e')) = rw (e, e') (ap (λ x. x == 1) (omega arith))
bit_of_class m s k (inr (inl e)) (inl e') = rw (e, e') (ap (λ x. x == 1) (omega arith))
bit_of_class m s k (inr (inl e)) (inr (inl e')) = rw (e, e') (ap (λ x. x == 1) (omega arith))
bit_of_class m s k (inr (inl e)) (inr (inr e')) = rw (e, e') (ap (λ x. x == 1) (omega arith))
bit_of_class m s k (inr (inr e)) (inl e') = rw (e, e') (ap (λ x. x == 1) (omega arith))
bit_of_class m s k (inr (inr e)) (inr (inl e')) = rw (e, e') (ap (λ x. x == 1) (omega arith))
bit_of_class m s k (inr (inr e)) (inr (inr e')) = rw (e, e') (ap (λ x. x == 1) (omega arith))

start_cases :
    (inode : Inode) (cred : Credentials) (s : ℕ)
    → ClassOf inode cred s
    → (s ≡ 6) ⊎ ((s ≡ 3) ⊎ (s ≡ 0))
start_cases inode cred s (owner e) = inl refl
start_cases inode cred s (group ne m) = inr (inl refl)
start_cases inode cred s (other ne m) = inr (inr refl)

three_checks :
    (a r b w c x : Bool)
    → ((if a && not r
          then false
          else if b && not w
          then false
          else if c && not x
          then false
          else true)
        ≡ true)
      ↔ ((a ≡ true → r ≡ true) × (b ≡ true → w ≡ true) × (c ≡ true → x ≡ true))
three_checks a r b w c x =
    (λ e. (λ t. ground arith, λ t. ground arith, λ t. ground arith), λ (h, k, l). ground arith)

-- Every right that the mask asks for is given to the class that starts at the bit `s`.
unfoldable pub Grants : Inode → ℕ → ℕ → Type 0
Grants inode s mask =
    (r : Right) → bit (mask_bit r) mask ≡ true → bit (mode_bit r + s) inode.mode ≡ true

Grants-intro :
    (inode : Inode) (s mask : ℕ)
    → (bit 0 mask ≡ true → bit (2 + s) inode.mode ≡ true)
    → (bit 1 mask ≡ true → bit (1 + s) inode.mode ≡ true)
    → (bit 2 mask ≡ true → bit (0 + s) inode.mode ≡ true)
    → Grants inode s mask
unfolding Grants mask_bit mode_bit
Grants-intro inode s mask f g h read e = f e
Grants-intro inode s mask f g h write e = g e
Grants-intro inode s mask f g h execute e = h e

-- For a user other than 0 whose class (owner; else main or further group; else others) starts at
-- the bit s of the mode, vfs_permission grants a mask exactly if, for each of read, write and
-- execute that the mask asks for, the class has that right in the mode.
pub vfs_permission_iff :
    (inode : Inode) (cred : Credentials) (mask s : ℕ)
    → cred.uid ≢ 0
    → ClassOf inode cred s
    → (vfs_permission (some inode) (some cred) mask ≡ true) ↔ Grants inode s mask
unfolding vfs_permission Grants mask_bit mode_bit
vfs_permission_iff inode cred mask s user c =
    let cases = start_cases inode cred s c in
    let e = perm_of_class inode cred s c in
    let r : bit 2 (perm_of inode cred) ≡ bit (2 + s) inode.mode =
      rw e (bit_of_class inode.mode s 2 cases (inr (inr refl))) in
    let w : bit 1 (perm_of inode cred) ≡ bit (1 + s) inode.mode =
      rw e (bit_of_class inode.mode s 1 cases (inr (inl refl))) in
    let x : bit 0 (perm_of inode cred) ≡ bit (0 + s) inode.mode =
      rw e (bit_of_class inode.mode s 0 cases (inl refl)) in
    let root : (cred.uid == 0) ≡ false = ground (arith, user) in
    let checks =
      three_checks (bit 0 mask) (bit 2 (perm_of inode cred)) (bit 1 mask)
        (bit 1 (perm_of inode cred)) (bit 2 mask) (bit 0 (perm_of inode cred)) in
    rw (vfs_permission, root)
      (
        λ granted.
            Grants-intro inode s mask (λ asked. sym r ∙ (checks.0 granted).0 asked)
              (λ asked. sym w ∙ (checks.0 granted).1 asked)
              (λ asked. sym x ∙ (checks.0 granted).2 asked),
        λ grants.
            checks.1 (λ t. r ∙ grants read t, λ t. w ∙ grants write t, λ t. x ∙ grants execute t),
      )
