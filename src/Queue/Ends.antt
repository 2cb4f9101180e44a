-- ===== src/Queue/Ends.antt =====
-- Reading the lists of include/queue.h: LIST_FOREACH, LIST_EMPTY, TAILQ_LAST and TAILQ_PREV.
use buaa_os_25spring.Prelude.{
  ℕ, zero, suc, ◌≡◌, ◌<◌, refl, false, List, [], ◌∷◌, ◌++◌, some, has, arith, ==_ne, length,
}
use buaa_os_25spring.Queue.{
  Slot, first_of, next_of, Links, foreach, list_first, list_init, tailq_init, tailq_last,
  tailq_prev, second_word,
}
use buaa_os_25spring.Queue.Seg.{ListHolds, TailqHolds, Seg, end_of}
use buaa_os_25spring.Queue.Holds.{back_at, append_nil}
use buaa_os_25spring.Queue.Puts.{put_cell_self, put_slot_self}

foreach-Seg :
    (fuel : ℕ) (w : Slot) (xs : List ℕ) (s : Links)
    → Seg s.cells s.prev w xs
    → has 0 xs ≡ false
    → length xs < fuel
    → foreach fuel (s.cells w) s ≡ some xs
unfolding foreach
foreach-Seg zero w xs s h z f = absurd (omega arith)
foreach-Seg (suc fuel) w [] s h z f = rw h refl
foreach-Seg (suc fuel) w (x ∷ xs) s h z f =
    rw
      (
        h.0,
        ==_ne x 0 (λ i. absurd (ground (arith, z, i))),
        foreach-Seg fuel (next_of x) xs s h.2 (ground (arith, z)) (omega arith),
      )
      refl

-- LIST_FOREACH over a list of n elements visits them in order and stops after n + 1 tests.
pub foreach_lem :
    (s : Links) (h fuel : ℕ) (xs : List ℕ)
    → ListHolds s h xs
    → length xs < fuel
    → foreach fuel (list_first h s) s ≡ some xs
unfolding list_first
foreach_lem s h fuel xs l f = foreach-Seg fuel (first_of h) xs s l.chain l.no_null f

-- LIST_INIT and TAILQ_INIT leave an empty list.
pub list_init_lem : (s : Links) (h : ℕ) → ListHolds (list_init h s) h []
unfolding list_init
list_init_lem s h = record {
  chain = put_cell_self s.cells (first_of h) 0;
  distinct = tt;
  no_null = refl;
}

pub tailq_init_lem : (s : Links) (h : ℕ) → TailqHolds (tailq_init h s) h []
unfolding tailq_init
tailq_init_lem s h = record {
  holds = record { chain = put_cell_self s.cells (first_of h) 0; distinct = tt; no_null = refl };
  at_end = put_slot_self s.last h (first_of h);
}

abbrev pub last_or_null : List ℕ → ℕ
last_or_null [] = 0
last_or_null (x ∷ []) = x
last_or_null (x ∷ (y ∷ ys)) = last_or_null (y ∷ ys)

-- The second word behind the last cell of a stretch is the cell before it.
last-Seg :
    (s : Links) (x : ℕ) (xs ys : List ℕ) (w : Slot)
    → Seg s.cells s.prev w (x ∷ (xs ++ ys))
    → s.cells (second_word s (end_of (next_of x) xs)) ≡ last_or_null (x ∷ xs)
unfolding second_word
last-Seg s x [] ys w h = rw (h.1) (h.0)
last-Seg s x (y ∷ xs) ys w h = last-Seg s y xs ys (next_of x) h.2

end_value :
    (s : Links) (w : Slot) (xs : List ℕ) → Seg s.cells s.prev w xs → s.cells (end_of w xs) ≡ 0
end_value s w [] h = h
end_value s w (x ∷ xs) h = end_value s (next_of x) xs h.2

-- TAILQ_LAST yields the last element of a tail queue, and NULL for an empty one.
pub tailq_last_lem :
    (s : Links) (h : ℕ) (xs : List ℕ) → TailqHolds s h xs → tailq_last h s ≡ last_or_null xs
unfolding tailq_last second_word
tailq_last_lem s h [] t = rw (tailq_last, t.at_end, second_word, t.at_end) t.holds.chain
tailq_last_lem s h (x ∷ xs) t =
    rw (tailq_last, t.at_end) (last-Seg s x xs [] (first_of h) (rw (append_nil xs) t.holds.chain))

-- TAILQ_PREV yields the element before an element of a tail queue, and NULL for the first.
pub tailq_prev_lem :
    (s : Links) (h e : ℕ) (xs ys : List ℕ)
    → TailqHolds s h (xs ++ (e ∷ ys))
    → tailq_prev e s ≡ last_or_null xs
unfolding tailq_prev second_word
tailq_prev_lem s h e [] ys t =
    rw (tailq_prev, t.holds.chain.1, second_word, t.at_end)
      (end_value s (first_of h) (e ∷ ys) t.holds.chain)
tailq_prev_lem s h e (x ∷ xs) ys t =
    rw (tailq_prev, back_at s h e (x ∷ xs) ys t.holds)
      (last-Seg s x xs (e ∷ ys) (first_of h) t.holds.chain)
