-- ===== src/Fs/Descriptors/Open.antt =====
-- The entries of `ofile` under the lock of the task.
use loeux_riscv.Base.{
  ℕ, ◌+◌, ◌%◌, ◌^◌, ◌<◌, true, false, some, get_or, set, update, done, ◌>>=◌, ◌≡◌, ◌≢◌, refl, arith,
  ◌==◌, ltb,
}
use loeux_riscv.Fs.Descriptors.FileLock.{IsFree, Unlocked, file_get-Unlocked}
use loeux_riscv.Fs.Descriptors.{Task, nofile, first_free, fd_alloc, fd_get}
use loeux_riscv.Sync.Sleeplock.{Sleeplock}
use loeux_riscv.Sync.Spinlock.Laws.{held_by, take_free, drop_held}
use loeux_riscv.Sync.Spinlock.{init_spinlock}

-- `file` has one reference more.
abbrev pub one_more : Task → ℕ → ℕ → ℕ
one_more t file = update t.refcount file ((t.refcount file + 1) % 2 ^ 32)

module _ (hart : ℕ) (t : Task) (pid : t.pid ≢ 0) (unlocked : t.lk ≡ init_spinlock) where
  pub fd_get_open :
      (fd : ℕ)
      → fd < nofile
      → get_or t.ofile fd 0 ≢ 0
      → IsFree (t.slk (get_or t.ofile fd 0))
      → (slk : ℕ → Sleeplock) × (fd_get hart t fd
          ≡ done (
            get_or t.ofile fd 0,
            record t { lk = init_spinlock; refcount = one_more t (get_or t.ofile fd 0); slk = slk },
          ))
        × Unlocked t.slk (get_or t.ofile fd 0) slk
  unfolding fd_get
  fd_get_open fd inside open_there is_free =
      let file = get_or t.ofile fd 0 in
      let into : ltb fd nofile ≡ true = ground arith in
      let t₁ : Task = record t { lk = held_by hart } in
      let (slk, get, locks) = file_get-Unlocked hart t₁ file pid is_free open_there in
      (slk, rw (fd_get, into, unlocked, take_free hart, ◌>>=◌, get, drop_held hart) refl, locks)

  pub fd_alloc_free :
      (file i : ℕ)
      → first_free t.ofile ≡ some i
      → file ≢ 0
      → IsFree (t.slk file)
      → (slk : ℕ → Sleeplock) × (fd_alloc hart t file
          ≡ done (
            some i,
            record t {
              ofile = set t.ofile i file;
              lk = init_spinlock;
              refcount = one_more t file;
              slk = slk;
            },
          ))
        × Unlocked t.slk file slk
  unfolding fd_alloc
  fd_alloc_free file i free real is_free =
      let some_file : file == 0 ≡ false = ground arith in
      let t₁ : Task = record t { ofile = set t.ofile i file; lk = held_by hart } in
      let (slk, get, locks) = file_get-Unlocked hart t₁ file pid is_free real in
      (
        slk,
        rw (fd_alloc, some_file, unlocked, take_free hart, ◌>>=◌, free, get, drop_held hart) refl,
        locks,
      )
