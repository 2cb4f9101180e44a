-- ===== src/Queue/Splice.antt =====
-- What an insertion and a removal do to a chain, whichever macro performs them.
use buaa_os_25spring.Prelude.{
  ℕ, ◌≡◌, ◌≢◌, refl, sym, ap, ◌∙◌, true, false, List, [], ◌∷◌, ◌++◌, has, Distinct, has-append,
  arith, ==_self,
}
use buaa_os_25spring.Queue.{Slot, first_of, next_of}
use buaa_os_25spring.Queue.Seg.{Seg, end_of, owned, Seg-keeps, Seg-right}
use mathlib.Core.Path.{subst}

-- The element `e` is put behind the cell `w`.
pub record Linked (c d : Slot → ℕ) (p q : ℕ → Slot) (w : Slot) (e : ℕ) : Type 0 where
  pub cell : d w ≡ e
  pub link : d (next_of e) ≡ c w
  pub other_cells : (u : Slot) → u ≢ w → u ≢ next_of e → d u ≡ c u
  pub back : q e ≡ w
  pub moved : c w ≢ 0 → q (c w) ≡ next_of e
  pub other_backs : (z : ℕ) → z ≢ e → z ≢ c w → q z ≡ p z

-- The element `e` is taken off the cell before it.
pub record Unlinked (c d : Slot → ℕ) (p q : ℕ → Slot) (e : ℕ) : Type 0 where
  pub cell : d (p e) ≡ c (next_of e)
  pub other_cells : (u : Slot) → u ≢ p e → d u ≡ c u
  pub moved : c (next_of e) ≢ 0 → q (c (next_of e)) ≡ p e
  pub other_backs : (z : ℕ) → z ≢ c (next_of e) → q z ≡ p z

-- Elements are told apart by membership.
pub apart : (a b : ℕ) (xs : List ℕ) → has a xs ≡ true → has b xs ≡ false → a ≢ b
apart a b xs m n e = absurd (ground (arith, m, n, e))

pub next_of_injective : (x y : ℕ) → next_of x ≡ next_of y → x ≡ y
next_of_injective x y e = ap number e
  where
    number : Slot → ℕ
    number (first_of h) = h
    number (next_of z) = z

pub owned-next :
    (w : Slot) (z : ℕ) (xs : List ℕ) → has z xs ≡ true → owned w xs ≡ false → w ≢ next_of z
owned-next (first_of h) z xs m n = λ e. absurd (ground arith)
owned-next (next_of x) z xs m n = λ e. apart z x xs m n (sym (next_of_injective x z e))

pub owned-tail : (w : Slot) (x : ℕ) (xs : List ℕ) → owned w (x ∷ xs) ≡ false → owned w xs ≡ false
owned-tail (first_of h) x xs o = refl
owned-tail (next_of y) x xs o = ground arith

pub has_self : (x : ℕ) (xs : List ℕ) → has x (x ∷ xs) ≡ true
has_self x xs = ground (arith, ==_self x)

-- A chain never comes back to a cell that its elements do not own.
pub owned-end_of :
    (w : Slot) (x : ℕ) (xs ys : List ℕ)
    → owned w (x ∷ (xs ++ ys)) ≡ false
    → w ≢ end_of (next_of x) xs
owned-end_of w x [] ys o = owned-next w x (x ∷ ys) (has_self x ys) o
owned-end_of w x (y ∷ xs) ys o = owned-end_of w y xs ys (owned-tail w x (y ∷ (xs ++ ys)) o)

-- What stands in a cell is NULL or the next element.
pub cell_apart :
    (c : Slot → ℕ) (p : ℕ → Slot) (w : Slot) (x : ℕ) (ys : List ℕ)
    → Seg c p w ys
    → x ≢ 0
    → has x ys ≡ false
    → x ≢ c w
cell_apart c p w x [] h n m = λ e. n (e ∙ h)
cell_apart c p w x (y ∷ ys) h n m = λ e. apart y x (y ∷ ys) (has_self y ys) m (sym (e ∙ h.0))

has-right : (x : ℕ) (xs ys : List ℕ) → has x (xs ++ ys) ≡ false → has x ys ≡ false
has-right x xs ys h = ground (arith, has-append x xs ys)

pub not_zero : (x : ℕ) (xs : List ℕ) → has x xs ≡ true → has 0 xs ≡ false → x ≢ 0
not_zero x xs m z = apart x 0 xs m z

-- The cells and elements of a chain that an insertion behind another cell leaves.
module _ (c d : Slot → ℕ) (p q : ℕ → Slot) (w : Slot) (e : ℕ) (l : Linked c d p q w e) where
  cell_elsewhere :
      (z : ℕ) (xs : List ℕ)
      → has z xs ≡ true
      → owned w xs ≡ false
      → has e xs ≡ false
      → d (next_of z) ≡ c (next_of z)
  cell_elsewhere z xs m o n =
      l.other_cells (next_of z) (λ i. owned-next w z xs m o (sym i))
        (λ i. apart z e xs m n (next_of_injective z e i))

  linked_first :
      (ys : List ℕ)
      → owned w ys ≡ false
      → has e ys ≡ false
      → Distinct ys
      → has 0 ys ≡ false
      → Seg c p w ys
      → Seg d q (next_of e) ys
  linked_first [] o n dis z h = l.link ∙ h
  linked_first (y ∷ ys) o n dis z h = (
    l.link ∙ h.0,
    subst (λ t. q t ≡ next_of e) h.0
        (l.moved (λ i. not_zero y (y ∷ ys) (has_self y ys) z (sym h.0 ∙ i))),
    Seg-keeps c d p q (next_of y) ys (cell_elsewhere y (y ∷ ys) (has_self y ys) o n) keeps h.2,
  )
    where
      keeps : (x : ℕ) → has x ys ≡ true → (d (next_of x) ≡ c (next_of x)) × (q x ≡ p x)
      keeps x m = (
        cell_elsewhere x (y ∷ ys) (ground (arith, m)) o n,
        l.other_backs x (apart x e ys m (ground (arith, n))) (λ i. apart x y ys m dis.0 (i ∙ h.0)),
      )

-- An insertion anywhere in a chain.
module _ (c d : Slot → ℕ) (p q : ℕ → Slot) (e : ℕ) where
  pub insert-Seg :
      (w : Slot) (xs ys : List ℕ)
      → Linked c d p q (end_of w xs) e
      → owned w (xs ++ ys) ≡ false
      → w ≢ next_of e
      → has e (xs ++ ys) ≡ false
      → Distinct (xs ++ ys)
      → has 0 (xs ++ ys) ≡ false
      → Seg c p w (xs ++ ys)
      → Seg d q w (xs ++ (e ∷ ys))
  insert-Seg w [] ys l o ne n dis z h = (l.cell, l.back, linked_first c d p q w e l ys o n dis z h)
  insert-Seg w (x ∷ xs) ys l o ne n dis z h = (
    l.other_cells w (owned-end_of w x xs ys o) ne ∙ h.0,
    l.other_backs x x_new x_cell ∙ h.1,
    insert-Seg (next_of x) xs ys l dis.0 (λ i. x_new (next_of_injective x e i)) (ground (arith, n))
        dis.1 (ground (arith, z)) h.2,
  )
    where
      x_new : x ≢ e
      x_new = apart x e (x ∷ (xs ++ ys)) (has_self x (xs ++ ys)) n

      x_cell : x ≢ c (end_of (next_of x) xs)
      x_cell =
          cell_apart c p (end_of (next_of x) xs) x ys (Seg-right c p (next_of x) xs ys h.2)
            (not_zero x (x ∷ (xs ++ ys)) (has_self x (xs ++ ys)) z) (has-right x xs ys dis.0)

-- A removal anywhere in a chain.
module _ (c d : Slot → ℕ) (p q : ℕ → Slot) (e : ℕ) (l : Unlinked c d p q e) where
  unlinked_first :
      (w : Slot) (ys : List ℕ)
      → p e ≡ w
      → owned w (e ∷ ys) ≡ false
      → has e ys ≡ false
      → Distinct ys
      → has 0 ys ≡ false
      → Seg c p (next_of e) ys
      → Seg d q w ys
  unlinked_first w [] b o n dis z h = subst (λ u. d u ≡ 0) b (l.cell ∙ h)
  unlinked_first w (y ∷ ys) b o n dis z h = (
    subst (λ u. d u ≡ y) b (l.cell ∙ h.0),
    subst (λ t. q t ≡ p e) h.0 (l.moved (λ i. not_zero y (y ∷ ys) (has_self y ys) z (sym h.0 ∙ i)))
        ∙ b,
    Seg-keeps c d p q (next_of y) ys (cell_kept y (ground (arith, has_self y ys))) keeps h.2,
  )
    where
      cell_kept : (x : ℕ) → has x (e ∷ (y ∷ ys)) ≡ true → d (next_of x) ≡ c (next_of x)
      cell_kept x m =
          l.other_cells (next_of x) (λ i. owned-next w x (e ∷ (y ∷ ys)) m o (sym b ∙ sym i))

      keeps : (x : ℕ) → has x ys ≡ true → (d (next_of x) ≡ c (next_of x)) × (q x ≡ p x)
      keeps x m =
          (cell_kept x (ground (arith, m)), l.other_backs x (λ i. apart x y ys m dis.0 (i ∙ h.0)))

  pub remove-Seg :
      (w : Slot) (xs ys : List ℕ)
      → owned w (xs ++ (e ∷ ys)) ≡ false
      → Distinct (xs ++ (e ∷ ys))
      → has 0 (xs ++ (e ∷ ys)) ≡ false
      → Seg c p w (xs ++ (e ∷ ys))
      → Seg d q w (xs ++ ys)
  remove-Seg w [] ys o dis z h = unlinked_first w ys h.1 o dis.0 dis.1 (ground (arith, z)) h.2
  remove-Seg w (x ∷ xs) ys o dis z h = (
    l.other_cells w (λ i. owned-end_of w x xs (e ∷ ys) o (i ∙ at_end.1)) ∙ h.0,
    l.other_backs x x_cell ∙ h.1,
    remove-Seg (next_of x) xs ys dis.0 dis.1 (ground (arith, z)) h.2,
  )
    where
      at_end : Seg c p (end_of (next_of x) xs) (e ∷ ys)
      at_end = Seg-right c p (next_of x) xs (e ∷ ys) h.2

      x_cell : x ≢ c (next_of e)
      x_cell =
          cell_apart c p (next_of e) x ys at_end.2
            (not_zero x (x ∷ (xs ++ (e ∷ ys))) (has_self x (xs ++ (e ∷ ys))) z)
            (ground (arith, has-right x xs (e ∷ ys) dis.0))
