-- ===== src/Mm/Pages/Laws.antt =====
-- The allocator implements a queue of pages: `alloc_page` takes the first, `free_page` adds a last.
use loeux_riscv.Base.{
  update, ℕ, ◌+◌, ◌-◌, ◌%◌, ◌≤◌, ◌<◌, true, false, Option, none, some, List, [], ◌∷◌, ◌++◌, done,
  halt, ◌>>=◌, Returns, ◌≡◌, ◌≢◌, ◌⊎◌, refl, sym, ◌∙◌, arith, ltb, if◌then◌else◌,
}
use loeux_riscv.Mm.Pages.Queue.{
  NotIn, Distinct, last, Links, AllFree, Links-update, AllFree-update, not_on_list, last-append,
  Distinct-append, AllFree-append, AllFree-relink, Links-append,
}
use loeux_riscv.Mm.Pages.{
  Page, Memory, phy_to_page, clear_page, is_reserved, is_used, alloc_page, push_tail, free_locked,
  free_page,
}
use loeux_riscv.Sync.Spinlock.Laws.{take_free, drop_held}
use loeux_riscv.Sync.Spinlock.{init_spinlock}

-- The free list holds the pages `l`, in this order, and nobody holds the lock.
pub record IsQueue (m : Memory) (l : List ℕ) : Type 0 where
  pub links : Links m.pages m.free_head l
  pub tail : m.free_tail ≡ last l
  pub distinct : Distinct l
  pub free : AllFree m.pages l
  pub unlocked : m.lock ≡ init_spinlock

pub alloc_page_empty : (hart : ℕ) (m : Memory) → IsQueue m [] → alloc_page hart m ≡ done (0, m)
unfolding alloc_page
alloc_page_empty hart m q = ground (arith, take_free hart, drop_held hart)

-- What `alloc_page` did to the page `i`, and that it left the other pages alone.
pub record Allocated (m : Memory) (i : ℕ) (l : List ℕ) (r : ℕ × Memory) : Type 0 where
  pub address : r.0 ≡ (m.pages i).paddr
  pub home : (r.1.pages i).paddr ≡ (m.pages i).paddr
  pub queue : IsQueue r.1 l
  pub used : is_used (r.1.pages i) ≡ true
  pub referenced : (r.1.pages i).refcount ≡ 1
  pub cleared : (k : ℕ) → k < 4096 → r.1.bytes ((m.pages i).paddr + k) ≡ 0
  pub others : (j : ℕ) → j ≢ i → r.1.pages j ≡ m.pages j
  pub kept :
      (a : ℕ) → (a < (m.pages i).paddr) ⊎ ((m.pages i).paddr + 4096 ≤ a) → r.1.bytes a ≡ m.bytes a

tail_of_rest :
    (p : Option ℕ) (t : Option ℕ) (i : ℕ) (pages : ℕ → Page) (l : List ℕ)
    → Links pages p l
    → t ≡ last (i ∷ l)
    → (elim p [ none ↦ none | some j ↦ t ]) ≡ last l
tail_of_rest p t i pages [] k e = rw k
tail_of_rest p t i pages (x ∷ l) k e = rw k.0 e

abbrev popped : Memory → ℕ → Memory
popped m i = record m {
  free_head = (m.pages i).next;
  free_tail = elim (m.pages i).next [ none ↦ none | some j ↦ m.free_tail ];
  pages = update m.pages i (record (m.pages i) {
    next = none;
    prev = none;
    flags = 2;
    refcount = (m.pages i).refcount + 1;
    slab = 0;
  });
  lock = init_spinlock;
  bytes = clear_page m.bytes (m.pages i).paddr;
}

-- Where the free list holds the pages i, l in this order and the lock is free, alloc_page returns
-- the address of i, the list then holds l, the page i is in use with one reference, its 4096 bytes
-- are 0, and every other page is unchanged.
pub alloc_page-Allocated :
    (hart : ℕ) (m : Memory) (i : ℕ) (l : List ℕ)
    → IsQueue m (i ∷ l)
    → Returns (alloc_page hart m) (Allocated m i l)
unfolding alloc_page clear_page is_used
alloc_page-Allocated hart m i l q = (
  ((m.pages i).paddr, popped m i),
  rw (q.unlocked, take_free hart, ◌>>=◌, q.links.0, drop_held hart) refl,
  record {
    address = refl;
    home = ground arith;
    queue = record {
      links = Links-update m.pages (m.pages i).next l i _ q.distinct.0 q.links.1;
      tail = tail_of_rest (m.pages i).next m.free_tail i m.pages l q.links.1 q.tail;
      distinct = q.distinct.1;
      free = AllFree-update m.pages l i _ q.distinct.0 q.free.2;
      unlocked = refl;
    };
    used = ground arith;
    referenced = ground arith;
    cleared = λ k h. ground arith;
    others = λ j h. ground arith;
    kept = λ a h. ground arith;
  },
)

-- The code's checks of the address, and of the page behind it.
pub record IsFreeable (m : Memory) (pa i : ℕ) : Type 0 where
  pub aligned : pa % 4096 ≡ 0
  pub nonnull : pa ≢ 0
  pub above : m.free_start_at ≤ pa
  pub below : pa ≤ m.free_end_at
  pub index : phy_to_page pa ≡ i

free_page-locked :
    (hart : ℕ) (m : Memory) (pa i : ℕ)
    → IsFreeable m pa i
    → free_page hart m pa ≡ free_locked hart m i
unfolding free_page
free_page-locked hart m pa i f = rw (sym f.index) (ground arith)

-- A page on the free list: freeing it again stops the kernel.
free_locked_clear :
    (hart : ℕ) (m : Memory) (i : ℕ)
    → m.lock ≡ init_spinlock
    → (m.pages i).flags ≡ 0
    → free_locked hart m i ≡ halt
unfolding free_locked is_reserved is_used
free_locked_clear hart m i u f = rw (u, take_free hart, ◌>>=◌, drop_held hart, f) refl

clear_on_list :
    (pages : ℕ → Page) (l l' : List ℕ) (i : ℕ) → AllFree pages (l ++ i ∷ l') → (pages i).flags ≡ 0
clear_on_list pages [] l' i k = k.0
clear_on_list pages (x ∷ l) l' i k = clear_on_list pages l l' i k.2

-- Freeing the address of a page that is anywhere on the free list stops the kernel.
pub free_page_twice :
    (hart : ℕ) (m : Memory) (pa i : ℕ) (l l' : List ℕ)
    → IsQueue m (l ++ i ∷ l')
    → IsFreeable m pa i
    → free_page hart m pa ≡ halt
free_page_twice hart m pa i l l' q f =
    free_page-locked hart m pa i f
    ∙ free_locked_clear hart m i q.unlocked (clear_on_list m.pages l l' i q.free)

-- What `free_page` did with the last reference to the page `i`.
pub record Freed (m : Memory) (pa i : ℕ) (l : List ℕ) (r : ℕ × Memory) : Type 0 where
  pub answer : r.0 ≡ 0
  pub queue : IsQueue r.1 (l ++ i ∷ [])
  pub cleared : (k : ℕ) → k < 4096 → r.1.bytes (pa + k) ≡ 0
  pub others :
      (j : ℕ)
      → j ≢ i
      → ((r.1.pages j).flags ≡ (m.pages j).flags) × ((r.1.pages j).refcount ≡ (m.pages j).refcount)

last-some : (x : ℕ) (l : List ℕ) → (t : ℕ) × (last (x ∷ l) ≡ some t)
last-some x [] = (x, refl)
last-some x (y ∷ l) = last-some y l

-- The page joins the queue at its end.
push_tail-IsQueue :
    (m : Memory) (l : List ℕ) (i : ℕ)
    → IsQueue m l
    → NotIn i l
    → (m.pages i).refcount ≡ 0
    → IsQueue (push_tail m i) (l ++ i ∷ [])
unfolding push_tail
push_tail-IsQueue m [] i q out c =
    let e : m.free_tail ≡ none = q.tail in
    rw e (record {
      links = (refl, ground arith);
      tail = refl;
      distinct = (tt, tt);
      free = (ground arith, ground arith, tt);
      unlocked = q.unlocked;
    })
push_tail-IsQueue m (x ∷ l) i q out c =
    let (t, e) = last-some x l in
    let tail : m.free_tail ≡ some t = q.tail ∙ e in
    let cleaned = update m.pages i (record (m.pages i) { flags = 0; next = none; prev = some t }) in
    rw tail (record {
      links =
          Links-append cleaned m.free_head (x ∷ l) t i (record (cleaned t) { next = some i })
            q.distinct e out (ground arith) refl
            (Links-update m.pages m.free_head (x ∷ l) i _ out q.links);
      tail = sym (last-append (x ∷ l) i);
      distinct = Distinct-append (x ∷ l) i q.distinct out;
      free = AllFree-relink cleaned (x ∷ l ++ i ∷ []) t (some i) (
          AllFree-append cleaned (x ∷ l) i (AllFree-update m.pages (x ∷ l) i _ out q.free)
            (ground arith) (ground arith));
      unlocked = q.unlocked;
    })

module _ (hart : ℕ) (m : Memory) (pa i : ℕ) (l : List ℕ) where
  -- The page with its reference count at `count`, the lock free.
  abbrev pub counted : ℕ → Memory
  counted count = record m {
    pages = update m.pages i (record (m.pages i) { refcount = count });
    lock = init_spinlock;
  }

  counted-IsQueue : (count : ℕ) → IsQueue m l → NotIn i l → IsQueue (counted count) l
  counted-IsQueue count q out = record {
    links = Links-update m.pages m.free_head l i _ out q.links;
    tail = q.tail;
    distinct = q.distinct;
    free = AllFree-update m.pages l i _ out q.free;
    unlocked = refl;
  }

  push_tail_others :
      (j : ℕ)
      → j ≢ i
      → (((push_tail (counted 0) i).pages j).flags ≡ (m.pages j).flags)
        × (((push_tail (counted 0) i).pages j).refcount ≡ (m.pages j).refcount)
  unfolding push_tail
  push_tail_others j h = ground arith

  module _ (q : IsQueue m l) (f : IsFreeable m pa i) (r : is_reserved (m.pages i) ≡ false)
      (u : is_used (m.pages i) ≡ true) where
    outside : NotIn i l
    unfolding is_used
    outside = not_on_list m.pages l i (ground arith) q.free

    -- Where the free list holds l, freeing the aligned, in-range address of a page that is in use,
    -- not reserved and has at most one reference returns 0, the list then holds l with that page
    -- at its end, its 4096 bytes are 0, and flags and counts of the other pages are unchanged.
    pub free_page-Freed :
        (m.pages i).paddr ≡ pa
        → (m.pages i).refcount ≤ 1
        → Returns (free_page hart m pa) (Freed m pa i l)
    unfolding free_locked clear_page
    free_page-Freed a c =
        let queue =
          push_tail-IsQueue (counted 0) l i (counted-IsQueue 0 q outside) outside (ground arith) in
        let p = m.pages i in
        let none_left : (if ltb 0 p.refcount then p.refcount - 1 else p.refcount) ≡ 0 =
          ground arith in
        (
          (0, record (push_tail (counted 0) i) { bytes = clear_page m.bytes (m.pages i).paddr }),
          free_page-locked hart m pa i f
              ∙ rw (q.unlocked, take_free hart, ◌>>=◌, drop_held hart, r, u, none_left) refl,
          record {
            answer = refl;
            queue = record {
              links = queue.links;
              tail = queue.tail;
              distinct = queue.distinct;
              free = queue.free;
              unlocked = queue.unlocked;
            };
            cleared = λ k h. ground arith;
            others = push_tail_others;
          },
        )

    -- Freeing a page that is in use, not reserved and has two or more references only takes one
    -- reference away: list, bytes and all else stay, and the lock is free again.
    pub free_page_shared :
        2 ≤ (m.pages i).refcount
        → free_page hart m pa ≡ done (0, counted ((m.pages i).refcount - 1))
    unfolding free_locked
    free_page_shared c =
        let p = m.pages i in
        let one_less : (if ltb 0 p.refcount then p.refcount - 1 else p.refcount) ≡ p.refcount - 1 =
          ground arith in
        let some_left : ltb 0 (p.refcount - 1) ≡ true = ground arith in
        free_page-locked hart m pa i f
        ∙ rw (q.unlocked, take_free hart, ◌>>=◌, drop_held hart, r, u, one_less, some_left) refl
