-- ===== src/Tests/HashMap.antt =====
-- The hash table over a toy allocator, which hands out 1, 2, 3, ... and takes nothing back.
use loeux_riscv.Base.{
  ℕ, ◌+◌, ◌%◌, ◌^◌, ◌<◌, Bool, true, false, ◌&&◌, ◌||◌, none, done, spin, Returns, ◌≡◌, ◌≢◌, refl,
  arith, ◌==◌, ltb, leb, if◌then◌else◌,
}
use loeux_riscv.HashMap.Keys.Lawful.{default-IsLawful}
use loeux_riscv.HashMap.Keys.Size.{IsRounded, round_up_pow2-IsRounded}
use loeux_riscv.HashMap.Keys.{default_hash_func, default_key_equal, round_up_pow2}
use loeux_riscv.HashMap.Life.Laws.{cleared, cleared-IsValid, Created, create-Created, create-spin}
use loeux_riscv.HashMap.Life.{create}
use loeux_riscv.HashMap.Table.Calls.{
  insert_in-Inserted, lookup_in-insert_in, insert_if_absent_in-eq-insert_in,
}
use loeux_riscv.HashMap.Table.Insert.{Inserted}
use loeux_riscv.HashMap.Table.Delete.{Deleted, delete_in-Deleted}
use loeux_riscv.HashMap.Table.Lookup.{or_null, lookup_locked_stale}
use loeux_riscv.HashMap.Table.Resize.{Resized, resize-Resized}
use loeux_riscv.HashMap.Table.Valid.{IsValid, view}
use loeux_riscv.HashMap.Table.{
  min_size, Table, probe, lookup_in, lookup_locked, insert_in, insert_if_absent_in, delete_in,
  resize,
}
use loeux_riscv.Mm.SlabApi.{SlabApi}

abbrev toy_alloc : ℕ → ℕ → ℕ × ℕ
toy_alloc s size = if size == 0 || ltb 4096 size then (0, s) else (s + 1, s + 1)

abbrev toy_object : ℕ → ℕ → Bool
toy_object s p = ltb 0 p && leb p s

toy_alloc_large : (s size : ℕ) → 4096 < size → (toy_alloc s size).0 ≡ 0
toy_alloc_large s size h = ground arith

toy_alloc_object :
    (s size : ℕ)
    → (toy_alloc s size).0 ≢ 0
    → toy_object (toy_alloc s size).1 (toy_alloc s size).0 ≡ true
toy_alloc_object s size h = ground arith

toy_alloc_keeps : (s size p : ℕ) → toy_object s p ≡ true → toy_object (toy_alloc s size).1 p ≡ true
toy_alloc_keeps s size p h = ground arith

abbrev toy : SlabApi ℕ
toy = record {
  alloc = toy_alloc;
  free = λ s p. done s;
  is_object = toy_object;
  alloc_large = toy_alloc_large;
  alloc_object = toy_alloc_object;
  alloc_keeps = toy_alloc_keeps;
  free_keeps = λ s p h. (s, refl, λ q k. k);
}

abbrev mem : ℕ → ℕ
mem a = a % 16

abbrev empty : Table
empty = cleared toy (default_hash_func mem) (default_key_equal mem) 1 2 8

empty-IsValid : IsValid toy 2 empty
empty-IsValid =
    (cleared-IsValid toy (default_hash_func mem) (default_key_equal mem) 1 2 8 2
      (default-IsLawful mem) ((0, refl), omega arith, omega arith) refl refl).0

insert_in-Inserted_example :
    Returns (insert_in toy 0 empty 2 16 4 7 true) (Inserted toy empty (probe empty 16 4) 7 true)
insert_in-Inserted_example =
    insert_in-Inserted toy 0 empty-IsValid 16 4 7 true (omega arith) (omega arith) (omega arith)

-- The table with the entry that this call made.
abbrev one : Table
one = insert_in-Inserted_example.0.1

one-IsValid : IsValid toy insert_in-Inserted_example.0.2 one
one-IsValid = insert_in-Inserted_example.2.valid

lookup_in-insert_in_example : Returns (insert_in toy 0 empty 2 16 4 7 true) (λ r.
    (other : ℕ)
    → lookup_in other r.1 32 4
      ≡ done (
        if r.0 && ((4 == 4) && default_key_equal mem 16 32 4)
            then 7
            else or_null (view empty (probe empty 32 4)),
        r.1,
      ))
lookup_in-insert_in_example =
    lookup_in-insert_in toy 0 empty-IsValid 16 4 7 true 32 4 (omega arith) (omega arith)
      (omega arith) (omega arith) (omega arith)

lookup_locked_stale_example :
    lookup_locked 1 empty 3 (record { key = 16; len = 4; hash = 9 }) ≡ done (0, empty)
lookup_locked_stale_example =
    lookup_locked_stale toy 1 empty (record { key = 16; len = 4; hash = 9 }) 3 empty-IsValid
      (omega arith)

delete_in-Deleted_example :
    Returns (delete_in toy 0 empty 2 16 4) (Deleted toy empty (probe empty 16 4))
delete_in-Deleted_example =
    delete_in-Deleted toy 0 empty-IsValid (omega arith) 16 4 (omega arith) (omega arith)

resize-Resized_example : Returns (resize toy empty 2 16) (λ r. Resized toy 2 empty (r.1, r.2))
resize-Resized_example = resize-Resized toy empty-IsValid.sound 16 (omega arith)

round_up_pow2-IsRounded_example : Returns (round_up_pow2 100) (IsRounded 8 100)
round_up_pow2-IsRounded_example = round_up_pow2-IsRounded 100 (omega arith)

create-Created_example :
    (n : ℕ) × IsRounded 8 (if ltb 100 min_size then min_size else 100) n
    × Returns
        (create toy mem 0 100 none none)
        (Created toy (default_hash_func mem) (default_key_equal mem) 0 n)
create-Created_example = create-Created toy mem 0 none none 100 (omega arith) (default-IsLawful mem)

create-spin_example : create toy mem 0 (2 ^ 31 + 1) none none ≡ spin
create-spin_example = create-spin toy mem 0 none none (2 ^ 31 + 1) (omega arith)

insert_if_absent_in-eq-insert_in_example :
    insert_if_absent_in toy 0 empty 2 16 4 7 ≡ insert_in toy 0 empty 2 16 4 7 false
insert_if_absent_in-eq-insert_in_example = insert_if_absent_in-eq-insert_in toy 0 empty 2 16 4 7
