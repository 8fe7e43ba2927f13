-- ===== src/Fs/Descriptors/Busy.antt =====
-- A descriptor of a file whose sleep lock another task has, as in a read or a write of that task.
use loeux_riscv.Base.{
  ℕ, ◌<◌, true, false, List, halt, ◌>>=◌, ◌≡◌, ◌≢◌, refl, arith, ◌==◌, ltb, get_or,
}
use loeux_riscv.Fs.Descriptors.{Task, nofile, lock_file, file_get, fd_get, vfs_dup}
use loeux_riscv.Sync.Sleeplock.Waiting.{IsWaiting, acquire_turn-taken}
use loeux_riscv.Sync.Spinlock.Laws.{take_free, take_again}
use loeux_riscv.Sync.Spinlock.{init_spinlock}

-- Busy.
pub vfs_dup_busy :
    (hart : ℕ) (t : Task) (fd : ℕ) (l : List ℕ)
    → t.lk ≡ init_spinlock
    → fd < nofile
    → get_or t.ofile fd 0 ≢ 0
    → IsWaiting (t.slk (get_or t.ofile fd 0)) l
    → (t.slk (get_or t.ofile fd 0)).locked ≡ true
    → (t.slk (get_or t.ofile fd 0)).holder ≢ t.pid
    → vfs_dup hart t fd ≡ halt
unfolding vfs_dup fd_get file_get lock_file
vfs_dup_busy hart t fd l unlocked inside open_there k taken other =
    let file = get_or t.ofile fd 0 in
    let real : file == 0 ≡ false = ground arith in
    let into : ltb fd nofile ≡ true = ground arith in
    let turn = acquire_turn-taken hart t.pid true (t.slk file) l k taken other in
    rw
      (
        vfs_dup,
        fd_get,
        into,
        unlocked,
        take_free hart,
        ◌>>=◌,
        file_get,
        real,
        lock_file,
        turn,
        take_again hart,
      )
      refl
