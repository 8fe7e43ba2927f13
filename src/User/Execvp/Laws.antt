-- ===== src/User/Execvp/Laws.antt =====
-- `execvp` goes through the directories of the path in their order.
use loeux_riscv.Base.{
  ℕ, zero, suc, ◌+◌, ◌<◌, false, ◌==◌, leb, if◌then◌else◌, Option, none, some, List, [], ◌∷◌, ◌++◌,
  length, done, ◌≡◌, inl, inr, refl, ap, arith, Bool-cases, Option-cases,
}
use mathlib.Core.Path.{subst}
use loeux_riscv.User.Execvp.{failed, has_slash, next_segment, try_segment, search_path, execvp}

-- A character in front of the first string of a list.
abbrev pub onto_first : ℕ → List (List ℕ) → List (List ℕ)
onto_first c [] = (c ∷ []) ∷ []
onto_first c (s ∷ l) = (c ∷ s) ∷ l

-- The directories of a path: the strings between its colons, empty ones included.
abbrev pub directories : List ℕ → List (List ℕ)
directories [] = [] ∷ []
directories (c ∷ l) = if c == 58 then [] ∷ directories l else onto_first c (directories l)

-- The names to try in the directories: the file itself for an empty directory, and none where the
-- name with its 0 has more than 128 characters.
abbrev pub candidates : List ℕ → List (List ℕ) → List (List ℕ)
candidates file [] = []
candidates file ([] ∷ l) = file ∷ candidates file l
candidates file ((c ∷ dir) ∷ l) =
    if leb (length (c ∷ dir ++ 47 ∷ file) + 1) 128
    then (c ∷ dir ++ 47 ∷ file) ∷ candidates file l
    else candidates file l

module _ {ℓ} {K : Type ℓ} (exec : K → List ℕ → ℕ × K) where
  -- The answer for the first name that `exec` takes, or -1.
  abbrev pub first_taken : List (List ℕ) → K → ℕ × K
  first_taken [] kernel = (failed, kernel)
  first_taken (name ∷ l) kernel =
      if (exec kernel name).0 == failed
      then first_taken l (exec kernel name).1
      else exec kernel name

-- What `next_segment` leaves.
abbrev rest_of : Option (List ℕ) → List (List ℕ)
rest_of none = []
rest_of (some l) = directories l

directories-next_segment :
    (path : List ℕ) → directories path ≡ (next_segment path).0 ∷ rest_of (next_segment path).1
unfolding next_segment
directories-next_segment [] = refl
directories-next_segment (c ∷ l) = elim (Bool-cases (c == 58)) [
  | inl e ↦ rw (directories, next_segment, e) refl
  | inr e ↦ rw (directories, next_segment, e) (ap (onto_first c) (directories-next_segment l))
]

abbrev Shorter : Option (List ℕ) → ℕ → Type 0
Shorter none n = Unit
Shorter (some l) n = length l < n

Shorter-more : (o : Option (List ℕ)) (n : ℕ) → Shorter o n → Shorter o (suc n)
Shorter-more none n k = tt
Shorter-more (some l) n k = omega arith

next_segment-Shorter : (path : List ℕ) → Shorter (next_segment path).1 (length path)
unfolding next_segment
next_segment-Shorter [] = tt
next_segment-Shorter (c ∷ l) = elim (Bool-cases (c == 58)) [
  | inl e ↦ rw (next_segment, e) (omega arith)
  | inr e ↦
      rw (next_segment, e) (Shorter-more (next_segment l).1 (length l) (next_segment-Shorter l))
]

length-name : (dir file : List ℕ) → length (dir ++ 47 ∷ file) + 1 ≡ length dir + 1 + length file + 1
length-name [] file = omega arith
length-name (c ∷ dir) file = let rest = length-name dir file in omega arith

module _ {ℓ} {K : Type ℓ} (exec : K → List ℕ → ℕ × K) (file : List ℕ) where
  first_taken-try :
      (dir : List ℕ) (l : List (List ℕ)) (kernel : K)
      → first_taken exec (candidates file (dir ∷ l)) kernel ≡ (
          if (try_segment exec file dir kernel).0 == failed
          then first_taken exec (candidates file l) (try_segment exec file dir kernel).1
          else try_segment exec file dir kernel)
  unfolding try_segment
  first_taken-try [] l kernel = refl
  first_taken-try (c ∷ dir) l kernel =
      let name : length (c ∷ dir ++ 47 ∷ file) + 1 ≡ length (c ∷ dir) + 1 + length file + 1 =
        length-name (c ∷ dir) file in
      let some_dir : length (c ∷ dir) == 0 ≡ false = ground arith in
      elim (Bool-cases (leb (length (c ∷ dir) + 1 + length file + 1) 128)) [
        | inl e ↦ rw (candidates, name, e, some_dir) refl
        | inr e ↦ rw (candidates, name, e, some_dir) refl
      ]

  search_path-first_taken :
      (fuel : ℕ) (path : List ℕ) (kernel : K)
      → length path < fuel
      → search_path exec fuel file path kernel
        ≡ done (first_taken exec (candidates file (directories path)) kernel)
  unfolding search_path
  search_path-first_taken zero path kernel enough = absurd (omega arith)
  search_path-first_taken (suc fuel) path kernel enough =
      let dir : List ℕ = (next_segment path).0 in
      let split = directories-next_segment path in
      let trial = first_taken-try dir (rest_of (next_segment path).1) kernel in
      elim (Bool-cases ((try_segment exec file dir kernel).0 == failed)) [
        | inr f ↦ rw (search_path, split, trial, f) refl
        | inl f ↦ elim (Option-cases (next_segment path).1) [
          | inl e ↦ rw (search_path, split, trial, f, e) refl
          | inr (rest, e) ↦
              let shorter : length rest < length path =
                subst (λ o. Shorter o (length path)) e (next_segment-Shorter path) in
              rw (search_path, split, trial, f, e)
                (search_path-first_taken fuel rest (try_segment exec file dir kernel).1
                  (omega arith))
        ]
      ]

module _ {ℓ} {K : Type ℓ} (exec : K → List ℕ → ℕ × K) where
  first_taken_one :
      (name : List ℕ) (kernel : K) → exec kernel name ≡ first_taken exec (name ∷ []) kernel
  first_taken_one name kernel = elim (Bool-cases ((exec kernel name).0 == failed)) [
    | inl f ↦
        let answer : (exec kernel name).0 ≡ failed = ground arith in
        rw f (ap (λ v. (v, (exec kernel name).1)) answer)
    | inr f ↦ rw f refl
  ]

  -- For a file that is not empty and fuel above the length of the path, execvp returns the answer
  -- of the first name that exec does not refuse with -1, or -1 where it refuses all, after these
  -- calls of exec and no others. The one name is the file itself where it has a slash; else the
  -- names are those in the directories between the colons of the path, in their order: the file
  -- itself for an empty directory, and none where the name with its 0 has more than 128
  -- characters.
  pub execvp-first_taken :
      (fuel c : ℕ) (file path : List ℕ) (kernel : K)
      → length path < fuel
      → execvp exec fuel path (some (c ∷ file)) kernel
        ≡ done (
            first_taken exec
              (if has_slash (c ∷ file)
                then (c ∷ file) ∷ []
                else candidates (c ∷ file) (directories path))
              kernel)
  unfolding execvp
  execvp-first_taken fuel c file path kernel enough = elim (Bool-cases (has_slash (c ∷ file))) [
    | inl e ↦ rw (execvp, e) (ap done (first_taken_one (c ∷ file) kernel))
    | inr e ↦ rw (execvp, e) (search_path-first_taken exec (c ∷ file) fuel path kernel enough)
  ]
