-- ===== src/User/Execvp.antt =====
-- The search of user/ulib.c for a command. A string is the list of its characters before the
-- terminating 0. `exec` is a system call, a parameter: the bits of the `int` that it answers where it
-- returns, and the kernel's next state.
pub mod Laws
use loeux_riscv.Base.{
  ℕ, zero, suc, ◌+◌, ◌-◌, ◌^◌, Bool, true, false, ◌==◌, leb, if◌then◌else◌, Option, none, some,
  List, [], ◌∷◌, ◌++◌, length, Outcome, done, spin,
}

abbrev pub exec_path_max : ℕ
exec_path_max = 128

-- The answer -1.
abbrev pub failed : ℕ
failed = 2 ^ 32 - 1

unfoldable pub has_slash : List ℕ → Bool
has_slash [] = false
has_slash (c ∷ s) = let rest = has_slash s in if c == 47 then true else rest

-- The characters up to the next ':' or the end, and what is behind a ':'.
unfoldable pub next_segment : List ℕ → List ℕ × Option (List ℕ)
next_segment [] = ([], none)
next_segment (c ∷ l) =
    let rest = next_segment l in if c == 58 then ([], some l) else (c ∷ rest.0, rest.1)

module _ {ℓ} {K : Type ℓ} (exec : K → List ℕ → ℕ × K) where
  -- One directory of the path.
  unfoldable pub try_segment : List ℕ → List ℕ → K → ℕ × K
  try_segment file dir kernel =
      if length dir == 0
      then exec kernel file
      else if leb (length dir + 1 + length file + 1) exec_path_max
      then exec kernel (dir ++ 47 ∷ file)
      else (failed, kernel)

  -- The loop of `execvp`, on fuel for the directories.
  unfoldable pub search_path : ℕ → List ℕ → List ℕ → K → Outcome (ℕ × K)
  search_path zero file path kernel = spin
  search_path (suc fuel) file path kernel =
      let segment = next_segment path in
      let tried = try_segment file segment.0 kernel in
      if tried.0 == failed
      then elim segment.1 [
        | none ↦ done (failed, tried.1)
        | some rest ↦ search_path fuel file rest tried.1
      ]
      else done tried

  -- `execvp` with the path that `set_path` has set; the arguments of the program go along with `exec`.
  unfoldable pub execvp : ℕ → List ℕ → Option (List ℕ) → K → Outcome (ℕ × K)
  execvp fuel path none kernel = done (failed, kernel)
  execvp fuel path (some []) kernel = done (failed, kernel)
  execvp fuel path (some (c ∷ file)) kernel =
      if has_slash (c ∷ file)
      then done (exec kernel (c ∷ file))
      else search_path fuel (c ∷ file) path kernel
