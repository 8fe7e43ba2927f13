-- ===== src/Tests/Execvp.antt =====
-- The file `ls` in the second directory of `/bin:/sbin`, whose names have 7 and 8 characters.
use loeux_riscv.Base.{
  ℕ, ◌+◌, ◌==◌, if◌then◌else◌, some, List, [], ◌∷◌, length, done, ◌≡◌, refl, arith,
}
use loeux_riscv.User.Execvp.{failed, has_slash, next_segment, try_segment, search_path, execvp}
use loeux_riscv.User.Execvp.Laws.{directories, candidates, first_taken, execvp-first_taken}

-- The state counts the calls; only a name of eight characters is a program.
abbrev exec_eight : ℕ → List ℕ → ℕ × ℕ
exec_eight calls name = (if length name == 8 then 0 else failed, calls + 1)

abbrev two_directories : List ℕ
two_directories = 47 ∷ 98 ∷ 105 ∷ 110 ∷ 58 ∷ 47 ∷ 115 ∷ 98 ∷ 105 ∷ 110 ∷ []

execvp-first_taken_example :
    execvp exec_eight 11 two_directories (some (108 ∷ 115 ∷ [])) 0
    ≡ done (
        first_taken exec_eight
          (if has_slash (108 ∷ 115 ∷ [])
            then (108 ∷ 115 ∷ []) ∷ []
            else candidates (108 ∷ 115 ∷ []) (directories two_directories))
          0)
execvp-first_taken_example =
    execvp-first_taken exec_eight 11 108 (115 ∷ []) two_directories 0 (omega arith)

two_calls : execvp exec_eight 11 two_directories (some (108 ∷ 115 ∷ [])) 0 ≡ done (0, 2)
unfolding execvp search_path try_segment next_segment has_slash
two_calls = refl
