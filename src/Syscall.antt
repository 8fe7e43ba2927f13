-- ===== src/Syscall.antt =====
-- The handlers of system calls in kernel/syscall_impl.c.
use loeux_riscv.Base.{ℕ, ◌+◌, ◌-◌, ◌%◌, ◌^◌, ltb, if◌then◌else◌}

-- The fields of a task that say where its heap is.
pub record HeapArea : Type 0 where
  pub heap_start : ℕ
  pub heap_brk : ℕ
  pub heap_history_max : ℕ

-- `get_arg_int` of a register: the low 32 bits, with their sign, as 64 bits.
unfoldable pub get_arg_int : ℕ → ℕ
get_arg_int a = if ltb (a % 2 ^ 32) (2 ^ 31) then a % 2 ^ 32 else a % 2 ^ 32 + (2 ^ 64 - 2 ^ 32)

-- `sys_sbrk` for the argument register `a`.
unfoldable pub sys_sbrk : HeapArea → ℕ → ℕ × HeapArea
sys_sbrk t a =
    let moved = (t.heap_brk + get_arg_int a) % 2 ^ 64 in
    if ltb moved t.heap_start then (2 ^ 64 - 1, t) else (
      t.heap_brk,
      record t {
        heap_brk = moved;
        heap_history_max = if ltb t.heap_history_max moved then moved else t.heap_history_max;
      },
    )
