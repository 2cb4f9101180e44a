-- ===== src/Queue/Lists.antt =====
-- The LIST macros of include/queue.h keep a list of elements.
use buaa_os_25spring.Prelude.{ℕ, ◌≡◌, ◌≢◌, sym, false, List, [], ◌∷◌, ◌++◌, has, ==_ne, ℕ_discrete}
use buaa_os_25spring.Queue.{
  Slot, first_of, next_of, Links, put_cell, put_slot, assign, set_prev, set_prev_unless_null,
  list_insert_head, list_insert_after, list_insert_before, list_remove,
}
use buaa_os_25spring.Queue.Seg.{ListHolds, end_of}
use buaa_os_25spring.Queue.Splice.{Linked}
use buaa_os_25spring.Queue.Holds.{
  Inserts, Removes, Inserts-ListHolds, Removes-ListHolds, cell_new, value_new, back_at, cell_at,
  snoc-append, end_of-snoc, first_of_apart, link_apart, member_apart,
}
use mathlib.Core.Path.{subst}
use buaa_os_25spring.Queue.Puts.{
  put_cell_self, put_slot_ne, Linked-at_end, Linked-inside, Linked-before, Unlinked-at_end,
  Unlinked-inside,
}

-- The body that LIST_INSERT_HEAD and LIST_INSERT_AFTER share.
abbrev insert_at : Slot → ℕ → Links → Links
insert_at w e s =
    let s1 = assign (next_of e) (s.cells w) s in
    let s2 = set_prev_unless_null (s1.cells (next_of e)) (next_of e) s1 in
    set_prev e w (assign w e s2)

insert_at-Inserts :
    (w : Slot) (e : ℕ) (s : Links) → w ≢ next_of e → s.cells w ≢ e → Inserts s (insert_at w e s) w e
insert_at-Inserts w e s n m = elim (ℕ_discrete (s.cells w) 0) [
  | yes z ↦
      rw (put_cell_self s.cells (next_of e) (s.cells w), z)
        (subst
          (λ v.
            Linked s.cells (put_cell (put_cell s.cells (next_of e) v) w e) s.prev
              (put_slot s.prev e w) w e)
          z (Linked-at_end s.cells s.prev w e n z))
  | no z ↦
      rw (put_cell_self s.cells (next_of e) (s.cells w), ==_ne (s.cells w) 0 z)
        (Linked-inside s.cells s.prev w e n m)
]

-- LIST_INSERT_HEAD puts a new element before the others of the list.
pub list_insert_head_lem :
    (s : Links) (h e : ℕ) (ys : List ℕ)
    → ListHolds s h ys
    → has e ys ≡ false
    → e ≢ 0
    → ListHolds (list_insert_head h e s) h (e ∷ ys)
unfolding list_insert_head
list_insert_head_lem s h e ys l n z =
    Inserts-ListHolds s h e [] ys (list_insert_head h e s)
      (insert_at-Inserts (first_of h) e s (first_of_apart h e) (value_new s h e [] ys l n z)) n z l

-- LIST_INSERT_AFTER puts a new element right behind an element of the list.
pub list_insert_after_lem :
    (s : Links) (h x e : ℕ) (xs ys : List ℕ)
    → ListHolds s h (xs ++ (x ∷ ys))
    → has e (xs ++ (x ∷ ys)) ≡ false
    → e ≢ 0
    → ListHolds (list_insert_after x e s) h (xs ++ (x ∷ (e ∷ ys)))
unfolding list_insert_after
list_insert_after_lem s h x e xs ys l n z =
    rw (snoc-append xs (e ∷ ys) x)
      (after (rw (sym (snoc-append xs ys x)) l) (rw (sym (snoc-append xs ys x)) n))
  where
    front : List ℕ
    front = xs ++ (x ∷ [])

    after :
        ListHolds s h (front ++ ys)
        → has e (front ++ ys) ≡ false
        → ListHolds (insert_at (next_of x) e s) h (front ++ (e ∷ ys))
    after l n =
        Inserts-ListHolds s h e front ys (insert_at (next_of x) e s)
          (rw (end_of-snoc (first_of h) xs x) (
            insert_at-Inserts (next_of x) e s
              (rw (sym (end_of-snoc (first_of h) xs x)) (cell_new s h e front ys n))
              (rw (sym (end_of-snoc (first_of h) xs x)) (value_new s h e front ys l n z))))
          n z l

-- LIST_INSERT_BEFORE puts a new element right before an element of the list.
pub list_insert_before_lem :
    (s : Links) (h x e : ℕ) (xs ys : List ℕ)
    → ListHolds s h (xs ++ (x ∷ ys))
    → has e (xs ++ (x ∷ ys)) ≡ false
    → e ≢ 0
    → ListHolds (list_insert_before x e s) h (xs ++ (e ∷ (x ∷ ys)))
unfolding list_insert_before
list_insert_before_lem s h x e xs ys l n z =
    Inserts-ListHolds s h e xs (x ∷ ys) (list_insert_before x e s)
      (rw (put_slot_ne s.prev e x (s.prev x) (member_apart x e xs ys n), back_at s h x xs ys l)
        (subst
          (λ v.
            Linked s.cells (put_cell (put_cell s.cells (next_of e) v) w e) s.prev
              (put_slot (put_slot s.prev e w) v (next_of e)) w e)
          (cell_at s h x xs ys l)
          (Linked-before s.cells s.prev w e (cell_new s h e xs (x ∷ ys) n)
            (value_new s h e xs (x ∷ ys) l n z))))
      n z l
  where
    w : Slot
    w = end_of (first_of h) xs

-- LIST_REMOVE takes an element of the list off it and keeps the others in order.
pub list_remove_lem :
    (s : Links) (h e : ℕ) (xs ys : List ℕ)
    → ListHolds s h (xs ++ (e ∷ ys))
    → ListHolds (list_remove e s) h (xs ++ ys)
unfolding list_remove
list_remove_lem s h e xs ys l = Removes-ListHolds s h e xs ys (list_remove e s) removes l
  where
    removes : Removes s (list_remove e s) e
    removes = elim (ℕ_discrete (s.cells (next_of e)) 0) [
      | yes z ↦ rw z (Unlinked-at_end s.cells s.prev e z)
      | no z ↦
          rw
            (
              ==_ne (s.cells (next_of e)) 0 z,
              put_slot_ne s.prev (s.cells (next_of e)) e (s.prev e) (link_apart s h e xs ys l),
            )
            (Unlinked-inside s.cells s.prev e)
    ]
