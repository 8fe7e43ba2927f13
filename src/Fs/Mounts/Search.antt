-- ===== src/Fs/Mounts/Search.antt =====
-- What the two searches find, before and after a mount.
use loeux_riscv.Base.{
  ℕ, true, false, Option, none, some, List, [], ◌∷◌, ◌≡◌, refl, sym, ◌∙◌, ap, arith, Bool-cases,
  Option-cases, inl, inr,
}
use loeux_riscv.Fs.Mounts.{
  Mount, null, mount, mount_path_match, descend, is_absolute, is_root, vfs_find_mount, attach_in,
  attach, link_mount,
}

-- The super block of a mount, 0 for NULL.
abbrev pub sb_of : Mount → ℕ
sb_of null = 0
sb_of (mount p sb child next) = sb

match_refl : (path : List ℕ) → mount_path_match path path ≡ true
unfolding mount_path_match
match_refl [] = refl
match_refl (c ∷ path) = ground (arith, match_refl path)

abbrev pub child_of : Mount → Mount
child_of null = null
child_of (mount p sb child next) = child

some_of : Option Mount → Mount
some_of none = null
some_of (some x) = x

attach_in-finds :
    (target : List ℕ) (sb : ℕ) (here l l' : Mount)
    → attach_in target sb l ≡ some l'
    → sb_of (descend target here l') ≡ sb
unfolding attach_in descend some_of
attach_in-finds target sb here null l' e = ground arith
attach_in-finds target sb here (mount p b c n) l' e =
    elim (Bool-cases (mount_path_match p target)) [
      | inl covers ↦ elim (Option-cases (attach_in target sb c)) [
        | inl last ↦
            let step : attach_in target sb (mount p b c n)
                ≡ some (mount p b (mount target sb null c) n) =
              rw (attach_in, last, covers) refl in
            let got : l' ≡ mount p b (mount target sb null c) n = ap some_of (sym e ∙ step) in
            rw (got, descend, covers, descend, match_refl target) refl
        | inr (c', more) ↦
            let step : attach_in target sb (mount p b c n) ≡ some (mount p b c' n) =
              rw (attach_in, more, covers) refl in
            let got : l' ≡ mount p b c' n = ap some_of (sym e ∙ step) in
            rw (got, descend, covers) (attach_in-finds target sb (mount p b c' n) c c' more)
      ]
      | inr apart ↦ elim (Option-cases (attach_in target sb n)) [
        | inl last ↦ ground arith
        | inr (n', more) ↦
            let step : attach_in target sb (mount p b c n) ≡ some (mount p b c n') =
              rw (attach_in, more, apart) refl in
            let got : l' ≡ mount p b c n' = ap some_of (sym e ∙ step) in
            rw (got, descend, apart) (attach_in-finds target sb here n n' more)
      ]
    ]

attach-finds :
    (target : List ℕ) (sb : ℕ) (here l : Mount)
    → sb_of (descend target here (attach target sb l)) ≡ sb
unfolding attach descend
attach-finds target sb here l = elim (Option-cases (attach_in target sb l)) [
  | inl last ↦ rw (attach, last, descend, match_refl target) refl
  | inr (l', more) ↦ rw (attach, more) (attach_in-finds target sb here l l' more)
]

-- In every tree, after a mount at an absolute path that succeeds, vfs_find_mount of that path
-- answers a mount of the new super block.
pub link_mount-finds :
    (root : Mount) (target : List ℕ) (sb : ℕ)
    → is_absolute target ≡ true
    → (link_mount root target sb).0 ≡ true
    → sb_of (vfs_find_mount (link_mount root target sb).1 target) ≡ sb
unfolding link_mount vfs_find_mount descend
link_mount-finds null target sb abs e = elim (Bool-cases (is_root target)) [
  | inl top ↦ rw (top, abs) refl
  | inr below ↦ ground arith
]
link_mount-finds (mount p b child next) target sb abs e = elim (Bool-cases (is_root target)) [
  | inl top ↦ ground arith
  | inr below ↦
      rw (below, abs, vfs_find_mount, abs)
        (attach-finds target sb (mount p b (attach target sb child) next) child)
]

descend_same :
    (path : List ℕ) (here here' l : Mount)
    → sb_of here ≡ sb_of here'
    → sb_of (descend path here l) ≡ sb_of (descend path here' l)
unfolding descend
descend_same path here here' null same = same
descend_same path here here' (mount p b c n) same = elim (Bool-cases (mount_path_match p path)) [
  | inl e ↦ rw (descend, e) refl
  | inr e ↦ rw (descend, e) (descend_same path here here' n same)
]

-- How the list looks where its first mount leads to the target, and where it does not.
attach_in-below :
    (target : List ℕ) (sb b : ℕ) (p : List ℕ) (c n l' : Mount)
    → mount_path_match p target ≡ true
    → attach_in target sb (mount p b c n) ≡ some l'
    → l' ≡ mount p b (attach target sb c) n
unfolding attach_in attach some_of
attach_in-below target sb b p c n l' covers e =
    let step : attach_in target sb (mount p b c n) ≡ some (mount p b (attach target sb c) n) =
      rw (attach_in, covers) refl in
    ap some_of (sym e ∙ step)

attach_in-behind :
    (target : List ℕ) (sb b : ℕ) (p : List ℕ) (c n n' l' : Mount)
    → mount_path_match p target ≡ false
    → attach_in target sb n ≡ some n'
    → attach_in target sb (mount p b c n) ≡ some l'
    → l' ≡ mount p b c n'
unfolding attach_in some_of
attach_in-behind target sb b p c n n' l' apart more e =
    let step : attach_in target sb (mount p b c n) ≡ some (mount p b c n') =
      rw (attach_in, more, apart) refl in
    ap some_of (sym e ∙ step)

attach_in-keeps :
    (target path : List ℕ) (sb : ℕ) (here here' l l' : Mount)
    → mount_path_match target path ≡ false
    → sb_of here ≡ sb_of here'
    → attach_in target sb l ≡ some l'
    → sb_of (descend path here l') ≡ sb_of (descend path here' l)
unfolding attach_in descend attach
attach_in-keeps target path sb here here' null l' apart same e = ground arith
attach_in-keeps target path sb here here' (mount p b c n) l' apart same e =
    elim (Bool-cases (mount_path_match p target)) [
      | inl covers ↦
          let shape = attach_in-below target sb b p c n l' covers e in
          elim (Bool-cases (mount_path_match p path)) [
            | inl on ↦ elim (Option-cases (attach_in target sb c)) [
              | inl last ↦
                  rw (shape, descend, on, attach, last, descend, apart)
                    (descend_same path (mount p b (mount target sb null c) n) (mount p b c n) c
                      refl)
              | inr (c', more) ↦
                  rw (shape, descend, on, attach, more)
                    (attach_in-keeps target path sb (mount p b c' n) (mount p b c n) c c' apart refl
                      more)
            ]
            | inr off ↦ rw (shape, descend, off) (descend_same path here here' n same)
          ]
      | inr past ↦ elim (Option-cases (attach_in target sb n)) [
        | inl last ↦ ground arith
        | inr (n', more) ↦
            let shape = attach_in-behind target sb b p c n n' l' past more e in
            elim (Bool-cases (mount_path_match p path)) [
              | inl on ↦
                  rw (shape, descend, on)
                    (descend_same path (mount p b c n') (mount p b c n) c refl)
              | inr off ↦
                  rw (shape, descend, off)
                    (attach_in-keeps target path sb here here' n n' apart same more)
            ]
      ]
    ]

attach-keeps :
    (target path : List ℕ) (sb : ℕ) (here here' l : Mount)
    → mount_path_match target path ≡ false
    → sb_of here ≡ sb_of here'
    → sb_of (descend path here (attach target sb l)) ≡ sb_of (descend path here' l)
unfolding attach descend
attach-keeps target path sb here here' l apart same = elim (Option-cases (attach_in target sb l)) [
  | inl last ↦ rw (attach, last, descend, apart) (descend_same path here here' l same)
  | inr (l', more) ↦
      rw (attach, more) (attach_in-keeps target path sb here here' l l' apart same more)
]

-- In a tree with a root, a mount, whether it succeeds or not, does not change which super block
-- vfs_find_mount answers for a path that the new mount does not cover.
pub link_mount-keeps :
    (p : List ℕ) (b : ℕ) (child next : Mount) (target path : List ℕ) (sb : ℕ)
    → mount_path_match target path ≡ false
    → sb_of (vfs_find_mount (link_mount (mount p b child next) target sb).1 path)
      ≡ sb_of (vfs_find_mount (mount p b child next) path)
unfolding link_mount vfs_find_mount
link_mount-keeps p b child next target path sb apart =
    let root = mount p b child next in
    elim (Bool-cases (is_root target)) [
      | inl top ↦ rw (link_mount, top) refl
      | inr below ↦ elim (Bool-cases (is_absolute target)) [
        | inr relative ↦ rw (link_mount, below, relative) refl
        | inl abs ↦ elim (Bool-cases (is_absolute path)) [
          | inr none_there ↦ rw (link_mount, below, abs, vfs_find_mount, none_there) refl
          | inl there ↦
              rw (link_mount, below, abs, vfs_find_mount, there)
                (attach-keeps target path sb (mount p b (attach target sb child) next) root child
                  apart refl)
        ]
      ]
    ]
