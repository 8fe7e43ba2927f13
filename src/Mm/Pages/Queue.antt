-- ===== src/Mm/Pages/Queue.antt =====
-- The free list as a queue: what the links between the pages must be for a list of indices.
use loeux_riscv.Base.{
  update, ℕ, Option, none, some, List, [], ◌∷◌, ◌++◌, ◌≡◌, ◌≢◌, refl, sym, arith,
}
use loeux_riscv.Mm.Pages.{Page}

abbrev pub NotIn : ℕ → List ℕ → Type 0
NotIn i [] = Unit
NotIn i (x ∷ l) = (i ≢ x) × NotIn i l

abbrev pub Distinct : List ℕ → Type 0
Distinct [] = Unit
Distinct (x ∷ l) = NotIn x l × Distinct l

abbrev pub last : List ℕ → Option ℕ
last [] = none
last (x ∷ []) = some x
last (x ∷ y ∷ l) = last (y ∷ l)

-- From the pointer `h` the `next` links go through the pages `l`, and then end.
abbrev pub Links : (ℕ → Page) → Option ℕ → List ℕ → Type 0
Links pages h [] = h ≡ none
Links pages h (x ∷ l) = (h ≡ some x) × Links pages (pages x).next l

abbrev pub AllFree : (ℕ → Page) → List ℕ → Type 0
AllFree pages [] = Unit
AllFree pages (x ∷ l) = ((pages x).flags ≡ 0) × ((pages x).refcount ≡ 0) × AllFree pages l

-- A write to a page that is not on the list.
pub Links-update :
    (pages : ℕ → Page) (h : Option ℕ) (l : List ℕ) (i : ℕ) (p : Page)
    → NotIn i l
    → Links pages h l
    → Links (update pages i p) h l
Links-update pages h [] i p out k = k
Links-update pages h (x ∷ l) i p out k =
    (k.0, rw off (Links-update pages (pages x).next l i p out.1 k.1))
  where
    off : (update pages i p x).next ≡ (pages x).next
    off = ground arith

pub AllFree-update :
    (pages : ℕ → Page) (l : List ℕ) (i : ℕ) (p : Page)
    → NotIn i l
    → AllFree pages l
    → AllFree (update pages i p) l
AllFree-update pages [] i p out k = tt
AllFree-update pages (x ∷ l) i p out k =
    (ground arith, ground arith, AllFree-update pages l i p out.1 k.2)

-- Only a page with clear flags is on the list.
pub not_on_list :
    (pages : ℕ → Page) (l : List ℕ) (i : ℕ) → (pages i).flags ≢ 0 → AllFree pages l → NotIn i l
not_on_list pages [] i h k = tt
not_on_list pages (x ∷ l) i h k = (λ e. h (rw e k.0), not_on_list pages l i h k.2)

not_last : (l : List ℕ) (x t : ℕ) → NotIn x l → last l ≡ some t → x ≢ t
not_last [] x t out e = cc
not_last (y ∷ []) x t out e = λ s. out.0 (cc)
not_last (y ∷ z ∷ l) x t out e = not_last (z ∷ l) x t out.1 e

pub last-append : (l : List ℕ) (i : ℕ) → last (l ++ i ∷ []) ≡ some i
last-append [] i = refl
last-append (x ∷ []) i = refl
last-append (x ∷ y ∷ l) i = last-append (y ∷ l) i

pub NotIn-append : (l : List ℕ) (x i : ℕ) → NotIn x l → x ≢ i → NotIn x (l ++ i ∷ [])
NotIn-append [] x i out h = (h, tt)
NotIn-append (y ∷ l) x i out h = (out.0, NotIn-append l x i out.1 h)

pub Distinct-append : (l : List ℕ) (i : ℕ) → Distinct l → NotIn i l → Distinct (l ++ i ∷ [])
Distinct-append [] i d out = (tt, tt)
Distinct-append (x ∷ l) i d out =
    (NotIn-append l x i d.0 (λ e. out.0 (sym e)), Distinct-append l i d.1 out.1)

pub AllFree-append :
    (pages : ℕ → Page) (l : List ℕ) (i : ℕ)
    → AllFree pages l
    → (pages i).flags ≡ 0
    → (pages i).refcount ≡ 0
    → AllFree pages (l ++ i ∷ [])
AllFree-append pages [] i k f r = (f, r, tt)
AllFree-append pages (x ∷ l) i k f r = (k.0, k.1, AllFree-append pages l i k.2 f r)

-- The link from the old tail `t` to the new tail `i`.
pub Links-append :
    (pages : ℕ → Page) (h : Option ℕ) (l : List ℕ) (t i : ℕ) (p : Page)
    → Distinct l
    → last l ≡ some t
    → NotIn i l
    → (pages i).next ≡ none
    → p.next ≡ some i
    → Links pages h l
    → Links (update pages t p) h (l ++ i ∷ [])
Links-append pages h [] t i p d e out n q k = cc
Links-append pages h (x ∷ []) t i p d e out n q k = (k.0, (ground arith, ground arith))
Links-append pages h (x ∷ y ∷ l) t i p d e out n q k =
    (k.0, rw off (Links-append pages (pages x).next (y ∷ l) t i p d.1 e out.1 n q k.1))
  where
    off : (update pages t p x).next ≡ (pages x).next
    off = ground (arith, not_last (y ∷ l) x t d.0 e)

-- A write to the `next` of any page.
pub AllFree-relink :
    (pages : ℕ → Page) (l : List ℕ) (t : ℕ) (n : Option ℕ)
    → AllFree pages l
    → AllFree (update pages t (record (pages t) { next = n })) l
AllFree-relink pages [] t n k = tt
AllFree-relink pages (x ∷ l) t n k = (ground arith, ground arith, AllFree-relink pages l t n k.2)
