-- ===== src/Queue/Concat.antt =====
-- TAILQ_CONCAT of include/queue.h appends one queue to another and empties it.
use buaa_os_25spring.Prelude.{
  ℕ, ◌≡◌, ◌≢◌, refl, sym, ap, ◌∙◌, true, false, List, [], ◌∷◌, ◌++◌, has, Distinct, has-append,
  arith, ==_ne,
}
use buaa_os_25spring.Queue.{
  Slot, first_of, next_of, Links, put_cell, put_slot, tailq_concat, tailq_empty, tailq_init,
}
use buaa_os_25spring.Queue.Seg.{ListHolds, TailqHolds, Seg, Seg-keeps, end_of, owned, end_of-append}
use buaa_os_25spring.Queue.Splice.{apart, owned-end_of, has_self}
use buaa_os_25spring.Queue.Holds.{end_of_apart, first_of_apart, append_nil}
use buaa_os_25spring.Queue.Puts.{
  put_cell_self, put_cell_ne, put_slot_self, put_slot_ne, same_slot_ne,
}

-- Two chains are joined at the last cell of the first.
module _ (c d : Slot → ℕ) (p q : ℕ → Slot) (k y : ℕ) where
  join-Seg :
      (w : Slot) (xs ys : List ℕ)
      → d (end_of w xs) ≡ y
      → q y ≡ end_of w xs
      → ((u : Slot) → u ≢ end_of w xs → u ≢ first_of k → d u ≡ c u)
      → ((z : ℕ) → z ≢ y → q z ≡ p z)
      → owned w xs ≡ false
      → w ≢ first_of k
      → has y xs ≡ false
      → Distinct xs
      → Seg c p w xs
      → Seg d q (next_of y) ys
      → Seg d q w (xs ++ (y ∷ ys))
  join-Seg w [] ys joined back cells backs o n m dis h tail = (joined, back, tail)
  join-Seg w (x ∷ xs) ys joined back cells backs o n m dis h tail = (
    cells w (owned-end_of w x xs [] (rw (append_nil xs) o)) n ∙ h.0,
    backs x (apart x y (x ∷ xs) (has_self x xs) m) ∙ h.1,
    join-Seg (next_of x) xs ys joined back cells backs dis.0 (λ i. first_of_apart k x (sym i))
        (ground (arith, m)) dis.1 h.2 tail,
  )

has_left : (z : ℕ) (xs ys : List ℕ) → has z (xs ++ ys) ≡ false → has z xs ≡ false
has_left z xs ys h = ground (arith, has-append z xs ys)

-- Elements of the two halves of a list without repetition differ.
halves :
    (xs ys : List ℕ)
    → Distinct (xs ++ ys)
    → Distinct xs × Distinct ys × ((z : ℕ) → has z ys ≡ true → has z xs ≡ false)
halves [] ys d = (tt, d, λ z m. refl)
halves (x ∷ xs) ys d =
    let rest = halves xs ys d.1 in
    (
      (has_left x xs ys d.0, rest.0),
      rest.1,
      λ z m. ground (
        arith,
        rest.2 z m,
        m,
        ==_ne z x (λ i. absurd (ground (arith, has-append x xs ys, d.0, m, i))),
      ),
    )

first_of_injective : (h k : ℕ) → first_of h ≡ first_of k → h ≡ k
first_of_injective h k e = ap number e
  where
    number : Slot → ℕ
    number (first_of i) = i
    number (next_of z) = z

other_head : (h k : ℕ) (xs : List ℕ) → h ≢ k → end_of (first_of h) xs ≢ first_of k
other_head h k [] n = λ e. n (first_of_injective h k e)
other_head h k (x ∷ xs) n = inside x xs
  where
    inside : (z : ℕ) (zs : List ℕ) → end_of (next_of z) zs ≢ first_of k
    inside z [] = λ e. first_of_apart k z (sym e)
    inside z (a ∷ zs) = inside a zs

-- The state that TAILQ_CONCAT leaves when the second queue is not empty.
module _ (s : Links) (h k : ℕ) (xs ys : List ℕ) (y : ℕ) (n : h ≢ k)
    (dis : Distinct (xs ++ (y ∷ ys))) (t : TailqHolds s h xs) (u : TailqHolds s k (y ∷ ys)) where
  abbrev c1 : Slot → ℕ
  c1 = put_cell (put_cell s.cells (end_of (first_of h) xs) y) (first_of k) 0

  abbrev q1 : ℕ → Slot
  q1 = put_slot s.prev y (end_of (first_of h) xs)

  cell_kept : (v : Slot) → v ≢ end_of (first_of h) xs → v ≢ first_of k → c1 v ≡ s.cells v
  cell_kept v a b =
      put_cell_ne (put_cell s.cells (end_of (first_of h) xs) y) (first_of k) v 0 b
      ∙ put_cell_ne s.cells (end_of (first_of h) xs) v y a

  tail_kept : (z : ℕ) → has z (y ∷ ys) ≡ true → c1 (next_of z) ≡ s.cells (next_of z)
  tail_kept z m =
      cell_kept (next_of z)
        (λ i.
          end_of_apart (first_of h) z xs (first_of_apart h z) ((halves xs (y ∷ ys) dis).2 z m)
            (sym i))
        (λ i. first_of_apart k z (sym i))

  tail : Seg c1 q1 (next_of y) ys
  tail =
      Seg-keeps s.cells c1 s.prev q1 (next_of y) ys (tail_kept y (has_self y ys))
        (λ z m. (
          tail_kept z (ground (arith, m)),
          put_slot_ne s.prev y z (end_of (first_of h) xs) (apart z y ys m u.holds.distinct.0),
        ))
        u.holds.chain.2

  joined :
      (l : ℕ → Slot) → ListHolds (record { cells = c1; prev = q1; last = l }) h (xs ++ (y ∷ ys))
  joined l = record {
    chain =
        join-Seg s.cells c1 s.prev q1 k y (first_of h) xs ys
          (put_cell_ne (put_cell s.cells (end_of (first_of h) xs) y) (first_of k)
              (end_of (first_of h) xs) 0 (other_head h k xs n)
            ∙ put_cell_self s.cells (end_of (first_of h) xs) y)
          (put_slot_self s.prev y (end_of (first_of h) xs)) cell_kept
          (λ z m. put_slot_ne s.prev y z (end_of (first_of h) xs) m) refl
          (λ i. n (first_of_injective h k i)) ((halves xs (y ∷ ys) dis).2 y (has_self y ys))
          (halves xs (y ∷ ys) dis).0 t.holds.chain tail;
    distinct = dis;
    no_null = ground (arith, has-append 0 xs (y ∷ ys), t.holds.no_null, u.holds.no_null);
  }

-- TAILQ_CONCAT appends the elements of the second queue and leaves that queue empty, when the two
-- are different queues without a common element.
pub tailq_concat_lem :
    (s : Links) (h k : ℕ) (xs ys : List ℕ)
    → h ≢ k
    → Distinct (xs ++ ys)
    → TailqHolds s h xs
    → TailqHolds s k ys
    → TailqHolds (tailq_concat h k s) h (xs ++ ys) × TailqHolds (tailq_concat h k s) k []
unfolding tailq_concat tailq_empty tailq_init
tailq_concat_lem s h k xs [] n dis t u = rw (u.holds.chain) (rw (append_nil xs) t, u)
tailq_concat_lem s h k xs (y ∷ ys) n dis t u =
    rw
      (
        u.holds.chain.0,
        ==_ne y 0 not_null,
        t.at_end,
        u.at_end,
        same_slot_ne (first_of k) (end_of (first_of h) xs) (λ i. other_head h k xs n (sym i)),
      )
      (
        record {
          holds =
              joined s h k xs ys y n dis t u
                (put_slot (put_slot s.last h (end_of (next_of y) ys)) k (first_of k));
          at_end =
              put_slot_ne (put_slot s.last h (end_of (next_of y) ys)) k h (first_of k) n
              ∙ put_slot_self s.last h (end_of (next_of y) ys)
              ∙ sym (end_of-append (first_of h) xs (y ∷ ys));
        },
        record {
          holds = record {
            chain = put_cell_self (put_cell s.cells (end_of (first_of h) xs) y) (first_of k) 0;
            distinct = tt;
            no_null = refl;
          };
          at_end = put_slot_self (put_slot s.last h (end_of (next_of y) ys)) k (first_of k);
        },
      )
  where
    not_null : y ≢ 0
    not_null i = absurd (ground (arith, u.holds.no_null, i))
