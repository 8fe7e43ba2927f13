-- ===== src/Fs/Descriptors.antt =====
-- The file descriptors of a task in fs/vfs.c, and the reference counts of the open files. A file is
-- named by its address, 0 is NULL. What `file_put` does to a file without references (its close, the
-- release of its inode and of its memory) is recorded in `destroyed`. A sleep lock has
-- its own view of the states of the tasks that wait for it.
pub mod FileLock
pub mod Open
pub mod Counts
pub mod Busy
use loeux_riscv.Base.{
  ℕ, zero, suc, ◌+◌, ◌-◌, ◌%◌, ◌^◌, Bool, true, false, not, Option, none, some, List, [], ◌∷◌,
  get_or, set, update, Outcome, done, spin, ◌>>=◌, ◌==◌, ltb, if◌then◌else◌,
}
use loeux_riscv.Sync.Sleeplock.{Sleeplock, acquire_turn, release_sleep}
use loeux_riscv.Sync.Spinlock.{Spinlock, take, drop}

-- `NOFILE`
abbrev pub nofile : ℕ
nofile = 64

-- The pid, the array `ofile` and the lock of a task, and the counts and the sleep locks of the files.
pub record Task : Type 0 where
  pub pid : ℕ
  pub ofile : List ℕ
  pub lk : Spinlock
  pub refcount : ℕ → ℕ
  pub slk : ℕ → Sleeplock
  pub destroyed : List ℕ

-- `acquire_sleep(&file->slk)`. Where another task has the lock, this one goes to sleep under its own
-- lock, which panics if it holds that already; no step of this task wakes it.
unfoldable pub lock_file : ℕ → Task → ℕ → Outcome Task
lock_file hart t file = do
  (has_lock, s) ← acquire_turn hart t.pid true (t.slk file)
  if has_lock
      then done (record t { slk = update t.slk file s })
      else (take hart t.lk >>= λ lk. spin)

-- `release_sleep(&file->slk)`
unfoldable pub unlock_file : ℕ → Task → ℕ → Outcome Task
unlock_file hart t file =
    release_sleep hart t.pid (t.slk file) >>= λ s. done (record t { slk = update t.slk file s })

unfoldable pub file_get : ℕ → Task → ℕ → Outcome Task
file_get hart t file = if file == 0 then done t else do
  t₁ ← lock_file hart t file
  unlock_file hart
      (record t₁ { refcount = update t₁.refcount file ((t₁.refcount file + 1) % 2 ^ 32) }) file

unfoldable pub file_put : ℕ → Task → ℕ → Outcome Task
file_put hart t file = if file == 0 then done t else do
  t₁ ← lock_file hart t file
  let n = if ltb 0 (t₁.refcount file) then t₁.refcount file - 1 else t₁.refcount file
  t₂ ← unlock_file hart (record t₁ { refcount = update t₁.refcount file n }) file
  done (record t₂ { destroyed = if n == 0 then file ∷ t₂.destroyed else t₂.destroyed })

-- The index of the first entry that is NULL.
unfoldable pub first_free : List ℕ → Option ℕ
first_free [] = none
first_free (f ∷ fs) =
    let rest = first_free fs in
    if f == 0 then some 0 else elim rest [ none ↦ none | some i ↦ some (suc i) ]

-- `none` is the answer -1.
unfoldable pub fd_alloc : ℕ → Task → ℕ → Outcome (Option ℕ × Task)
fd_alloc hart t file = if file == 0 then done (none, t) else do
  lk ← take hart t.lk
  elim (first_free t.ofile) [
    | none ↦ drop hart lk >>= λ lk'. done (none, record t { lk = lk' })
    | some i ↦ file_get hart (record t { ofile = set t.ofile i file; lk = lk }) file >>= λ t₁.
        drop hart t₁.lk >>= λ lk'. done (some i, record t₁ { lk = lk' })
  ]

-- A negative descriptor is refused as one from 64 on is.
unfoldable pub fd_get : ℕ → Task → ℕ → Outcome (ℕ × Task)
fd_get hart t fd = if not (ltb fd nofile) then done (0, t) else do
  lk ← take hart t.lk
  t₁ ← file_get hart (record t { lk = lk }) (get_or t.ofile fd 0)
  lk' ← drop hart t₁.lk
  done (get_or t.ofile fd 0, record t₁ { lk = lk' })

unfoldable pub vfs_dup : ℕ → Task → ℕ → Outcome (Option ℕ × Task)
vfs_dup hart t oldfd = do
  (file, t') ← fd_get hart t oldfd
  if file == 0
      then done (none, t')
      else (fd_alloc hart t' file >>= λ r. file_put hart r.1 file >>= λ t₁. done (r.0, t₁))

unfoldable pub fd_close : ℕ → Task → ℕ → Outcome (Bool × Task)
fd_close hart t fd =
    let file = get_or t.ofile fd 0 in
    if not (ltb fd nofile) then done (false, t) else do
      lk ← take hart t.lk
      lk' ← drop hart lk
      if file == 0
          then done (false, record t { lk = lk' })
          else (file_put hart (record t { ofile = set t.ofile fd 0; lk = lk' }) file >>= λ t₁.
              done (true, t₁))
