-- ===== src/Queue/Seg.antt =====
-- A chain of elements behind a cell, as the macros of include/queue.h keep it.
use buaa_os_25spring.Prelude.{
  ℕ, ◌≡◌, refl, ap, ◌∙◌, Bool, true, false, ◌||◌, List, [], ◌∷◌, ◌++◌, has, Distinct, arith, ==_iff,
  ==_self, ◌==◌,
}
use buaa_os_25spring.Queue.{Slot, first_of, next_of, same_slot, Links}

-- The cell at `w` is the first of a chain through the elements `xs`, whose last cell holds NULL.
abbrev pub Seg : (Slot → ℕ) → (ℕ → Slot) → Slot → List ℕ → Type 0
Seg c p w [] = c w ≡ 0
Seg c p w (x ∷ xs) = (c w ≡ x) × (p x ≡ w) × Seg c p (next_of x) xs

-- The last cell of the chain.
abbrev pub end_of : Slot → List ℕ → Slot
end_of w [] = w
end_of w (x ∷ xs) = end_of (next_of x) xs

-- The cell belongs to one of the elements.
abbrev pub owned : Slot → List ℕ → Bool
owned (first_of h) xs = false
owned (next_of x) xs = has x xs

-- The list at head `h` holds the elements `xs`, each once and none of them NULL.
pub record ListHolds (s : Links) (h : ℕ) (xs : List ℕ) : Type 0 where
  pub chain : Seg s.cells s.prev (first_of h) xs
  pub distinct : Distinct xs
  pub no_null : has 0 xs ≡ false

-- A tail queue also knows its last cell.
pub record TailqHolds (s : Links) (h : ℕ) (xs : List ℕ) : Type 0 where
  pub holds : ListHolds s h xs
  pub at_end : s.last h ≡ end_of (first_of h) xs

pub same_slot_self : (w : Slot) → same_slot w w ≡ true
same_slot_self (first_of h) = ==_self h
same_slot_self (next_of x) = ==_self x

pub same_slot→eq : (w u : Slot) → same_slot w u ≡ true → w ≡ u
same_slot→eq (first_of h) (first_of k) e = ap first_of ((==_iff h k).0 e)
same_slot→eq (next_of x) (next_of y) e = ap next_of ((==_iff x y).0 e)
same_slot→eq (first_of h) (next_of y) e = absurd (ground arith)
same_slot→eq (next_of x) (first_of k) e = absurd (ground arith)

pub end_of-append : (w : Slot) (xs ys : List ℕ) → end_of w (xs ++ ys) ≡ end_of (end_of w xs) ys
end_of-append w [] ys = refl
end_of-append w (x ∷ xs) ys = end_of-append (next_of x) xs ys

-- A tail of a chain.
pub Seg-right :
    (c : Slot → ℕ) (p : ℕ → Slot) (w : Slot) (xs ys : List ℕ)
    → Seg c p w (xs ++ ys)
    → Seg c p (end_of w xs) ys
Seg-right c p w [] ys h = h
Seg-right c p w (x ∷ xs) ys h = Seg-right c p (next_of x) xs ys h.2

-- A chain whose cells and elements are unchanged.
module _ (c d : Slot → ℕ) (p q : ℕ → Slot) where
  pub Seg-keeps :
      (w : Slot) (xs : List ℕ)
      → d w ≡ c w
      → ((z : ℕ) → has z xs ≡ true → (d (next_of z) ≡ c (next_of z)) × (q z ≡ p z))
      → Seg c p w xs
      → Seg d q w xs
  Seg-keeps w [] e k h = e ∙ h
  Seg-keeps w (x ∷ xs) e k h = (
    e ∙ h.0,
    (k x here).1 ∙ h.1,
    Seg-keeps (next_of x) xs (k x here).0 (λ z m. k z (there z m)) h.2,
  )
    where
      here : (x == x || has x xs) ≡ true
      here = ground (arith, ==_self x)

      there : (z : ℕ) → has z xs ≡ true → (z == x || has z xs) ≡ true
      there z m = ground arith
