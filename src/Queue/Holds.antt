-- ===== src/Queue/Holds.antt =====
-- A list of include/queue.h after an insertion and a removal, whichever macro performs them.
use buaa_os_25spring.Prelude.{
  ℕ, ◌≡◌, ◌≢◌, refl, sym, ap, false, List, [], ◌∷◌, ◌++◌, has, Distinct, has-append, arith, ==_self,
}
use buaa_os_25spring.Queue.{Slot, first_of, next_of, Links}
use buaa_os_25spring.Queue.Seg.{ListHolds, end_of, Seg-right}
use buaa_os_25spring.Queue.Splice.{
  Linked, Unlinked, insert-Seg, remove-Seg, apart, next_of_injective, cell_apart,
}

abbrev pub Inserts : Links → Links → Slot → ℕ → Type 0
Inserts s t w e = Linked s.cells t.cells s.prev t.prev w e

abbrev pub Removes : Links → Links → ℕ → Type 0
Removes s t e = Unlinked s.cells t.cells s.prev t.prev e

Distinct-insert :
    (e : ℕ) (xs ys : List ℕ)
    → has e (xs ++ ys) ≡ false
    → Distinct (xs ++ ys)
    → Distinct (xs ++ (e ∷ ys))
Distinct-insert e [] ys n d = (n, d)
Distinct-insert e (x ∷ xs) ys n d = (
  ground (arith, has-append x xs (e ∷ ys), has-append x xs ys),
  Distinct-insert e xs ys (ground (arith, n)) d.1,
)

Distinct-remove : (e : ℕ) (xs ys : List ℕ) → Distinct (xs ++ (e ∷ ys)) → Distinct (xs ++ ys)
Distinct-remove e [] ys d = d.1
Distinct-remove e (x ∷ xs) ys d =
    (ground (arith, has-append x xs (e ∷ ys), has-append x xs ys), Distinct-remove e xs ys d.1)

pub first_of_apart : (h e : ℕ) → first_of h ≢ next_of e
first_of_apart h e i = absurd (ground arith)

pub end_of_apart :
    (w : Slot) (e : ℕ) (xs : List ℕ) → w ≢ next_of e → has e xs ≡ false → end_of w xs ≢ next_of e
end_of_apart w e [] n m = n
end_of_apart w e (x ∷ xs) n m =
    end_of_apart (next_of x) e xs
      (λ i. apart x e (x ∷ xs) (ground (arith, ==_self x)) m (next_of_injective x e i))
      (ground (arith, m))

-- The cell behind the elements `xs` of a list is no cell of a new element, and does not hold it.
module _ (s : Links) (h e : ℕ) (xs ys : List ℕ) where
  pub cell_new : has e (xs ++ ys) ≡ false → end_of (first_of h) xs ≢ next_of e
  cell_new n =
      end_of_apart (first_of h) e xs (first_of_apart h e) (ground (arith, has-append e xs ys))

  pub value_new :
      ListHolds s h (xs ++ ys)
      → has e (xs ++ ys) ≡ false
      → e ≢ 0
      → s.cells (end_of (first_of h) xs) ≢ e
  value_new l n z = λ i.
      cell_apart s.cells s.prev (end_of (first_of h) xs) e ys
        (Seg-right s.cells s.prev (first_of h) xs ys l.chain) z (ground (arith, has-append e xs ys))
        (sym i)

  -- The insertion of a new element keeps a list, with the element in its place.
  pub Inserts-ListHolds :
      (t : Links)
      → Inserts s t (end_of (first_of h) xs) e
      → has e (xs ++ ys) ≡ false
      → e ≢ 0
      → ListHolds s h (xs ++ ys)
      → ListHolds t h (xs ++ (e ∷ ys))
  Inserts-ListHolds t i n z l = record {
    chain =
        insert-Seg s.cells t.cells s.prev t.prev e (first_of h) xs ys i refl (first_of_apart h e) n
          l.distinct l.no_null l.chain;
    distinct = Distinct-insert e xs ys n l.distinct;
    no_null = ground (arith, has-append 0 xs (e ∷ ys), has-append 0 xs ys, l.no_null);
  }

  pub Removes-ListHolds :
      (t : Links) → Removes s t e → ListHolds s h (xs ++ (e ∷ ys)) → ListHolds t h (xs ++ ys)
  Removes-ListHolds t r l = record {
    chain =
        remove-Seg s.cells t.cells s.prev t.prev e r (first_of h) xs ys refl l.distinct l.no_null
          l.chain;
    distinct = Distinct-remove e xs ys l.distinct;
    no_null = ground (arith, has-append 0 xs (e ∷ ys), has-append 0 xs ys, l.no_null);
  }

-- Where an element of the list stands.
pub back_at :
    (s : Links) (h e : ℕ) (xs ys : List ℕ)
    → ListHolds s h (xs ++ (e ∷ ys))
    → s.prev e ≡ end_of (first_of h) xs
back_at s h e xs ys l = (Seg-right s.cells s.prev (first_of h) xs (e ∷ ys) l.chain).1

pub cell_at :
    (s : Links) (h e : ℕ) (xs ys : List ℕ)
    → ListHolds s h (xs ++ (e ∷ ys))
    → s.cells (end_of (first_of h) xs) ≡ e
cell_at s h e xs ys l = (Seg-right s.cells s.prev (first_of h) xs (e ∷ ys) l.chain).0

pub snoc-append : (xs ys : List ℕ) (y : ℕ) → xs ++ (y ∷ ys) ≡ (xs ++ (y ∷ [])) ++ ys
snoc-append [] ys y = refl
snoc-append (x ∷ xs) ys y = ap (λ t. x ∷ t) (snoc-append xs ys y)

pub end_of-snoc : (w : Slot) (xs : List ℕ) (y : ℕ) → end_of w (xs ++ (y ∷ [])) ≡ next_of y
end_of-snoc w [] y = refl
end_of-snoc w (x ∷ xs) y = end_of-snoc (next_of x) xs y

-- An element of the list is not the next one, and not a new one.
pub link_apart :
    (s : Links) (h e : ℕ) (xs ys : List ℕ)
    → ListHolds s h (xs ++ (e ∷ ys))
    → e ≢ s.cells (next_of e)
link_apart s h e xs ys l =
    cell_apart s.cells s.prev (next_of e) e ys
      (Seg-right s.cells s.prev (first_of h) xs (e ∷ ys) l.chain).2
      (λ z. absurd (ground (arith, has-append 0 xs (e ∷ ys), l.no_null, z))) (once xs l.distinct)
  where
    once : (zs : List ℕ) → Distinct (zs ++ (e ∷ ys)) → has e ys ≡ false
    once [] d = d.0
    once (z ∷ zs) d = once zs d.1

pub member_apart : (x e : ℕ) (xs ys : List ℕ) → has e (xs ++ (x ∷ ys)) ≡ false → x ≢ e
member_apart x e xs ys n = λ i. absurd (ground (arith, has-append e xs (x ∷ ys), n, i))

pub append_nil : (xs : List ℕ) → xs ++ [] ≡ xs
append_nil [] = refl
append_nil (x ∷ xs) = ap (λ t. x ∷ t) (append_nil xs)
