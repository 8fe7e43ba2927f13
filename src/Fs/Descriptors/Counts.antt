-- ===== src/Fs/Descriptors/Counts.antt =====
-- The count of a file is the number of its descriptors and of the references held elsewhere.
use loeux_riscv.Base.{
  ℕ, zero, suc, ◌+◌, ◌-◌, ◌%◌, ◌^◌, ◌≤◌, ◌<◌, Bool, true, false, Option, some, List, [], ◌∷◌,
  get_or, set, length, length-set, get_or-set_self, get_or-set_ne, update, ◌>>=◌, Returns, ◌≡◌, ◌≢◌,
  refl, sym, ap, arith, ◌==◌, ltb, if◌then◌else◌, Bool-cases, Option-cases, inl, inr,
}
use loeux_riscv.Fs.Descriptors.{Task, nofile, first_free, vfs_dup, fd_close}
use loeux_riscv.Fs.Descriptors.FileLock.{IsFree, Unlocked, Unlocked-trans, file_put-Unlocked}
use loeux_riscv.Fs.Descriptors.Open.{one_more, fd_get_open, fd_alloc_free}
use loeux_riscv.Sync.Spinlock.Laws.{take_free, drop_held}
use loeux_riscv.Sync.Spinlock.{init_spinlock}

unfoldable pub occurrences : ℕ → List ℕ → ℕ
occurrences f [] = 0
occurrences f (g ∷ gs) = if g == f then suc (occurrences f gs) else occurrences f gs

-- Nobody holds the lock of the task, and besides the descriptors of a file there are `held` other
-- references to it.
pub record IsCounted (held : ℕ → ℕ) (t : Task) : Type 0 where
  pub pid : t.pid ≢ 0
  pub unlocked : t.lk ≡ init_spinlock
  pub size : length t.ofile ≡ nofile
  pub counts : (f : ℕ) → f ≢ 0 → t.refcount f ≡ occurrences f t.ofile + held f
  pub small : (f : ℕ) → held f < 2 ^ 31

occurrences_le : (f : ℕ) (l : List ℕ) → occurrences f l ≤ length l
unfolding occurrences
occurrences_le f [] = omega arith
occurrences_le f (g ∷ gs) = ground (arith, occurrences_le f gs)

abbrev one_if : Bool → ℕ
one_if b = if b then 1 else 0

occurrences-set :
    (f : ℕ) (l : List ℕ) (i v : ℕ)
    → i < length l
    → occurrences f (set l i v) + one_if (get_or l i 0 == f) ≡ occurrences f l + one_if (v == f)
unfolding occurrences
occurrences-set f [] i v lt = absurd (omega arith)
occurrences-set f (g ∷ gs) zero v lt = ground arith
occurrences-set f (g ∷ gs) (suc i) v lt = ground (arith, occurrences-set f gs i v (omega arith))

pub record Closed (held : ℕ → ℕ) (t : Task) (fd : ℕ) (r : Bool × Task) : Type 0 where
  pub counted : IsCounted held r.1
  pub ok : r.0 ≡ true
  pub gone : get_or r.1.ofile fd 0 ≡ 0
  pub destroyed : r.1.destroyed ≡ (
      if occurrences (get_or t.ofile fd 0) r.1.ofile + held (get_or t.ofile fd 0) == 0
      then get_or t.ofile fd 0 ∷ t.destroyed
      else t.destroyed)
  pub locks : Unlocked t.slk (get_or t.ofile fd 0) r.1.slk

-- For such a task and an open descriptor whose file has a sleep lock that no task has (its
-- spinlock is free, and tasks may wait in its queue), fd_close returns 0, the entry is free, the
-- counts are right for the same references held elsewhere, the file is destroyed exactly if no
-- descriptor of the task and no reference held elsewhere is left, the lock of the file is free
-- again and the locks of the other files are unchanged.
pub fd_close-Closed :
    (held : ℕ → ℕ) (hart : ℕ) (t : Task) (fd : ℕ)
    → IsCounted held t
    → fd < nofile
    → get_or t.ofile fd 0 ≢ 0
    → IsFree (t.slk (get_or t.ofile fd 0))
    → Returns (fd_close hart t fd) (Closed held t fd)
unfolding fd_close
fd_close-Closed held hart t fd v inside open_there is_free =
    let file = get_or t.ofile fd 0 in
    let s = occurrences-set file t.ofile fd 0 (ground (arith, v.size)) in
    let before = v.counts file open_there in
    let n : ℕ = t.refcount file - 1 in
    let after : n ≡ occurrences file (set t.ofile fd 0) + held file = ground arith in
    let real : (file == 0) ≡ false = ground arith in
    let into : ltb fd nofile ≡ true = ground arith in
    let t₁ : Task = record t { ofile = set t.ofile fd 0; lk = init_spinlock } in
    let (slk, put, locks) =
      file_put-Unlocked hart t₁ file v.pid is_free open_there (ground arith) in
    let t' : Task = record t₁ {
      refcount = update t.refcount file n;
      slk = slk;
      destroyed = if n == 0 then file ∷ t.destroyed else t.destroyed;
    } in
    (
      (true, t'),
      rw (fd_close, into, v.unlocked, take_free hart, ◌>>=◌, drop_held hart, ◌>>=◌, real, put) refl,
      record {
        counted = record {
          pid = v.pid;
          unlocked = refl;
          size = ground (arith, length-set t.ofile fd 0, v.size);
          counts = λ f ne. elim (Bool-cases (f == file)) [
            | inl e ↦ let same : f ≡ file = ground arith in rw same (ground (arith, after))
            | inr e ↦ ground (arith, occurrences-set f t.ofile fd 0, v.size, v.counts f)
          ];
          small = v.small;
        };
        ok = refl;
        gone = get_or-set_self t.ofile fd 0 0 (ground (arith, v.size));
        destroyed = ap (λ (k : ℕ). if k == 0 then file ∷ t.destroyed else t.destroyed) after;
        locks = locks;
      },
    )

first_free-suc :
    (f : ℕ) (fs : List ℕ) (i : ℕ)
    → first_free (f ∷ fs) ≡ some (suc i)
    → (f ≢ 0) × (first_free fs ≡ some i)
unfolding first_free
first_free-suc f fs i e = elim (Option-cases (first_free fs)) [
  | inl full ↦ (ground arith, ground arith)
  | inr (j, more) ↦ (ground arith, ground arith)
]

first_free-free : (l : List ℕ) (i : ℕ) → first_free l ≡ some i → (i < length l) × (get_or l i 0 ≡ 0)
unfolding first_free
first_free-free [] i e = ground arith
first_free-free (f ∷ fs) zero e = elim (Option-cases (first_free fs)) [
  | inl full ↦ (omega arith, ground arith)
  | inr (j, more) ↦ (omega arith, ground arith)
]
first_free-free (f ∷ fs) (suc i) e =
    let s = first_free-suc f fs i e in
    let rest = first_free-free fs i s.1 in (omega (arith, rest.0), rest.1)

first_free-least : (l : List ℕ) (i j : ℕ) → first_free l ≡ some i → j < i → get_or l j 0 ≢ 0
unfolding first_free
first_free-least l zero j e lt = absurd (omega arith)
first_free-least [] (suc i) j e lt = ground arith
first_free-least (f ∷ fs) (suc i) zero e lt = (first_free-suc f fs i e).0
first_free-least (f ∷ fs) (suc i) (suc j) e lt =
    first_free-least fs i j (first_free-suc f fs i e).1 (omega arith)

-- The descriptor `i` is a second one for the file of `fd`, and the first that was free.
pub record Duplicated (held : ℕ → ℕ) (t : Task) (fd i : ℕ) (r : Option ℕ × Task) : Type 0 where
  pub counted : IsCounted held r.1
  pub answer : r.0 ≡ some i
  pub opened : get_or r.1.ofile i 0 ≡ get_or t.ofile fd 0
  pub least : (j : ℕ) → j < i → get_or t.ofile j 0 ≢ 0
  pub others : (j : ℕ) → j ≢ i → get_or r.1.ofile j 0 ≡ get_or t.ofile j 0
  pub destroyed : r.1.destroyed ≡ t.destroyed
  pub locks : Unlocked t.slk (get_or t.ofile fd 0) r.1.slk

-- For a task with a nonzero pid and its lock free whose file counts are the numbers of its
-- descriptors and of fewer than 2^31 references held elsewhere, and an open descriptor whose file
-- has a sleep lock that no task has (its spinlock is free, and tasks may wait in its queue), where
-- i is the first free entry, vfs_dup returns i: no entry before it was free, it now has the file
-- of the descriptor, the other entries are unchanged, no file is destroyed, the counts are right
-- for the same references held elsewhere, the lock of the file is free again and the locks of the
-- other files are unchanged.
pub vfs_dup-Duplicated :
    (held : ℕ → ℕ) (hart : ℕ) (t : Task) (fd i : ℕ)
    → IsCounted held t
    → fd < nofile
    → get_or t.ofile fd 0 ≢ 0
    → first_free t.ofile ≡ some i
    → IsFree (t.slk (get_or t.ofile fd 0))
    → Returns (vfs_dup hart t fd) (Duplicated held t fd i)
unfolding vfs_dup
vfs_dup-Duplicated held hart t fd i v inside open_there free is_free =
    let file = get_or t.ofile fd 0 in
    let (within, empty) = first_free-free t.ofile i free in
    let s = occurrences-set file t.ofile i file within in
    let before = v.counts file open_there in
    let small = v.small file in
    let few = occurrences_le file t.ofile in
    let real : (file == 0) ≡ false = ground arith in
    let one : (t.refcount file + 1) % 2 ^ 32 ≡ t.refcount file + 1 = ground (arith, v.size) in
    let two : (t.refcount file + 1 + 1) % 2 ^ 32 ≡ t.refcount file + 2 = ground (arith, v.size) in
    let same : (file == file) ≡ true = ground arith in
    let (slk₁, get₁, locks₁) = fd_get_open hart t v.pid v.unlocked fd inside open_there is_free in
    let count₁ : ℕ → ℕ = one_more t file in
    let t₁ : Task = record t { lk = init_spinlock; refcount = count₁; slk = slk₁ } in
    let (slk₂, get₂, locks₂) =
      fd_alloc_free hart t₁ v.pid refl file i free open_there locks₁.is_free in
    let count₂ : ℕ → ℕ = one_more t₁ file in
    let t₃ : Task = record t₁ { ofile = set t.ofile i file; refcount = count₂; slk = slk₂ } in
    let some_there : count₂ file ≡ t.refcount file + 2 = rw (same, one, two) refl in
    let (slk₃, put₃, locks₃) =
      file_put-Unlocked hart t₃ file v.pid locks₂.is_free open_there (omega (arith, some_there)) in
    let left : count₂ file - 1 == 0 ≡ false = ground (arith, some_there) in
    let fewer : count₂ file - 1 ≡ t.refcount file + 1 = omega (arith, some_there) in
    let t' : Task = record t₃ { refcount = update count₂ file (count₂ file - 1); slk = slk₃ } in
    (
      (some i, t'),
      rw (vfs_dup, get₁, real, get₂, put₃, left) refl,
      record {
        counted = record {
          pid = v.pid;
          unlocked = refl;
          size = ground (arith, length-set t.ofile i file, v.size);
          counts = λ f ne. elim (Bool-cases (f == file)) [
            | inl e ↦ let eq : f ≡ file = ground arith in rw eq (ground arith)
            | inr e ↦ ground (arith, occurrences-set f t.ofile i file, v.counts f)
          ];
          small = v.small;
        };
        answer = refl;
        opened = get_or-set_self t.ofile i file 0 within;
        least = λ j lt. first_free-least t.ofile i j free lt;
        others = λ j ne. get_or-set_ne t.ofile i j file 0 (λ e. ne (sym e));
        destroyed = refl;
        locks =
            Unlocked-trans t.slk slk₁ slk₃ file locks₁
              (Unlocked-trans slk₁ slk₂ slk₃ file locks₂ locks₃);
      },
    )
