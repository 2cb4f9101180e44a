-- ===== src/Queue/Tails.antt =====
-- The TAILQ macros of include/queue.h keep a list of elements and its last cell.
use buaa_os_25spring.Prelude.{
  ℕ, ◌≡◌, ◌≢◌, sym, ◌∙◌, false, List, [], ◌∷◌, ◌++◌, has, has-append, arith, ==_ne, ℕ_discrete,
}
use buaa_os_25spring.Queue.{
  Slot, first_of, next_of, Links, put_cell, put_slot, assign, set_prev, set_prev_or_last,
  tailq_insert_head, tailq_insert_tail, tailq_insert_after, tailq_insert_before, tailq_remove,
  list_insert_before,
}
use buaa_os_25spring.Queue.Seg.{ListHolds, TailqHolds, end_of, Seg-right, end_of-append}
use buaa_os_25spring.Queue.Splice.{Linked}
use buaa_os_25spring.Queue.Holds.{
  Inserts, Removes, Inserts-ListHolds, Removes-ListHolds, cell_new, value_new, back_at, cell_at,
  snoc-append, end_of-snoc, append_nil, link_apart,
}
use mathlib.Core.Path.{subst}
use buaa_os_25spring.Queue.Puts.{
  put_cell_self, put_slot_ne, put_slot_self, Linked-at_end, Linked-inside, Unlinked-at_end,
  Unlinked-inside,
}
use buaa_os_25spring.Queue.Lists.{list_insert_before_lem}

-- The body that TAILQ_INSERT_HEAD and TAILQ_INSERT_AFTER share.
abbrev insert_at : ℕ → Slot → ℕ → Links → Links
insert_at h w e s =
    let s1 = assign (next_of e) (s.cells w) s in
    let s2 = set_prev_or_last h (s1.cells (next_of e)) (next_of e) (next_of e) s1 in
    set_prev e w (assign w e s2)

insert_at-Inserts :
    (h : ℕ) (w : Slot) (e : ℕ) (s : Links)
    → w ≢ next_of e
    → s.cells w ≢ e
    → Inserts s (insert_at h w e s) w e
insert_at-Inserts h w e s n m = elim (ℕ_discrete (s.cells w) 0) [
  | yes z ↦
      rw (put_cell_self s.cells (next_of e) (s.cells w), z)
        (subst
          (λ v.
            Linked s.cells (put_cell (put_cell s.cells (next_of e) v) w e) s.prev
              (put_slot s.prev e w) w e)
          z (Linked-at_end s.cells s.prev w e n z))
  | no z ↦
      rw (put_cell_self s.cells (next_of e) (s.cells w), ==_ne (s.cells w) 0 z)
        (Linked-inside s.cells s.prev w e n m)
]

-- `tqh_last` moves to the new element exactly when nothing follows it.
insert_at-last :
    (h e : ℕ) (xs ys : List ℕ) (s : Links)
    → TailqHolds s h (xs ++ ys)
    → (insert_at h (end_of (first_of h) xs) e s).last h ≡ end_of (first_of h) (xs ++ (e ∷ ys))
insert_at-last h e xs [] s t =
    rw
      (
        put_cell_self s.cells (next_of e) (s.cells (end_of (first_of h) xs)),
        Seg-right s.cells s.prev (first_of h) xs [] t.holds.chain,
      )
      (put_slot_self s.last h (next_of e) ∙ sym (end_of-snoc (first_of h) xs e))
insert_at-last h e xs (y ∷ ys) s t =
    rw
      (
        put_cell_self s.cells (next_of e) (s.cells (end_of (first_of h) xs)),
        cell_at s h y xs ys t.holds,
        ==_ne y 0 (λ i. absurd (ground (arith, has-append 0 xs (y ∷ ys), t.holds.no_null, i))),
      )
      (t.at_end
        ∙ end_of-append (first_of h) xs (y ∷ ys)
        ∙ sym (end_of-append (first_of h) xs (e ∷ (y ∷ ys))))

insert_at-TailqHolds :
    (s : Links) (h e : ℕ) (xs ys : List ℕ)
    → TailqHolds s h (xs ++ ys)
    → has e (xs ++ ys) ≡ false
    → e ≢ 0
    → TailqHolds (insert_at h (end_of (first_of h) xs) e s) h (xs ++ (e ∷ ys))
insert_at-TailqHolds s h e xs ys t n z = record {
  holds =
      Inserts-ListHolds s h e xs ys (insert_at h (end_of (first_of h) xs) e s)
        (insert_at-Inserts h (end_of (first_of h) xs) e s (cell_new s h e xs ys n)
          (value_new s h e xs ys t.holds n z))
        n z t.holds;
  at_end = insert_at-last h e xs ys s t;
}

-- TAILQ_INSERT_HEAD puts a new element before the others.
pub tailq_insert_head_lem :
    (s : Links) (h e : ℕ) (ys : List ℕ)
    → TailqHolds s h ys
    → has e ys ≡ false
    → e ≢ 0
    → TailqHolds (tailq_insert_head h e s) h (e ∷ ys)
unfolding tailq_insert_head
tailq_insert_head_lem s h e ys t n z = insert_at-TailqHolds s h e [] ys t n z

-- TAILQ_INSERT_AFTER puts a new element right behind an element of the queue.
pub tailq_insert_after_lem :
    (s : Links) (h x e : ℕ) (xs ys : List ℕ)
    → TailqHolds s h (xs ++ (x ∷ ys))
    → has e (xs ++ (x ∷ ys)) ≡ false
    → e ≢ 0
    → TailqHolds (tailq_insert_after h x e s) h (xs ++ (x ∷ (e ∷ ys)))
unfolding tailq_insert_after
tailq_insert_after_lem s h x e xs ys t n z = rw (snoc-append xs (e ∷ ys) x) (
    subst (λ w. TailqHolds (insert_at h w e s) h ((xs ++ (x ∷ [])) ++ (e ∷ ys)))
      (end_of-snoc (first_of h) xs x)
      (insert_at-TailqHolds s h e (xs ++ (x ∷ [])) ys (rw (sym (snoc-append xs ys x)) t)
        (rw (sym (snoc-append xs ys x)) n) z))

-- TAILQ_INSERT_TAIL puts a new element behind the others.
pub tailq_insert_tail_lem :
    (s : Links) (h e : ℕ) (xs : List ℕ)
    → TailqHolds s h xs
    → has e xs ≡ false
    → e ≢ 0
    → TailqHolds (tailq_insert_tail h e s) h (xs ++ (e ∷ []))
unfolding tailq_insert_tail
tailq_insert_tail_lem s h e xs t n z = record {
  holds =
      Inserts-ListHolds s h e xs [] (tailq_insert_tail h e s) inserts (rw (append_nil xs) n) z
        whole;
  at_end = put_slot_self s.last h (next_of e) ∙ sym (end_of-snoc (first_of h) xs e);
}
  where
    whole : ListHolds s h (xs ++ [])
    whole = rw (append_nil xs) t.holds

    ends : s.cells (end_of (first_of h) xs) ≡ 0
    ends = Seg-right s.cells s.prev (first_of h) xs [] whole.chain

    inserts :
        Linked s.cells
          (put_cell (put_cell s.cells (next_of e) 0) (s.last h) e)
          s.prev
          (put_slot s.prev e (s.last h))
          (end_of (first_of h) xs)
          e
    inserts = rw t.at_end (
        subst
          (λ v.
            Linked s.cells (put_cell (put_cell s.cells (next_of e) v) (end_of (first_of h) xs) e)
              s.prev (put_slot s.prev e (end_of (first_of h) xs)) (end_of (first_of h) xs) e)
          ends
          (Linked-at_end s.cells s.prev (end_of (first_of h) xs) e
            (cell_new s h e xs [] (rw (append_nil xs) n)) ends))

-- TAILQ_INSERT_BEFORE puts a new element right before an element of the queue.
pub tailq_insert_before_lem :
    (s : Links) (h x e : ℕ) (xs ys : List ℕ)
    → TailqHolds s h (xs ++ (x ∷ ys))
    → has e (xs ++ (x ∷ ys)) ≡ false
    → e ≢ 0
    → TailqHolds (tailq_insert_before x e s) h (xs ++ (e ∷ (x ∷ ys)))
unfolding tailq_insert_before list_insert_before
tailq_insert_before_lem s h x e xs ys t n z = record {
  holds = list_insert_before_lem s h x e xs ys t.holds n z;
  at_end =
      t.at_end
      ∙ end_of-append (first_of h) xs (x ∷ ys)
      ∙ sym (end_of-append (first_of h) xs (e ∷ (x ∷ ys)));
}

-- TAILQ_REMOVE takes an element off the queue and keeps the others in order.
pub tailq_remove_lem :
    (s : Links) (h e : ℕ) (xs ys : List ℕ)
    → TailqHolds s h (xs ++ (e ∷ ys))
    → TailqHolds (tailq_remove h e s) h (xs ++ ys)
unfolding tailq_remove
tailq_remove_lem s h e xs ys t = record {
  holds = Removes-ListHolds s h e xs ys (tailq_remove h e s) removes t.holds;
  at_end = at_end ys t;
}
  where
    removes : Removes s (tailq_remove h e s) e
    removes = elim (ℕ_discrete (s.cells (next_of e)) 0) [
      | yes z ↦ rw z (Unlinked-at_end s.cells s.prev e z)
      | no z ↦
          rw
            (
              ==_ne (s.cells (next_of e)) 0 z,
              put_slot_ne s.prev (s.cells (next_of e)) e (s.prev e)
                  (link_apart s h e xs ys t.holds),
            )
            (Unlinked-inside s.cells s.prev e)
    ]

    at_end :
        (zs : List ℕ)
        → TailqHolds s h (xs ++ (e ∷ zs))
        → (tailq_remove h e s).last h ≡ end_of (first_of h) (xs ++ zs)
    at_end [] u =
        rw (append_nil xs, (Seg-right s.cells s.prev (first_of h) xs (e ∷ []) u.holds.chain).2)
          (put_slot_self s.last h (s.prev e) ∙ back_at s h e xs [] u.holds)
    at_end (z ∷ zs) u =
        rw
          (
            (Seg-right s.cells s.prev (first_of h) xs (e ∷ (z ∷ zs)) u.holds.chain).2.0,
            ==_ne z 0
                (λ i. absurd (ground (arith, has-append 0 xs (e ∷ (z ∷ zs)), u.holds.no_null, i))),
          )
          (u.at_end
            ∙ end_of-append (first_of h) xs (e ∷ (z ∷ zs))
            ∙ sym (end_of-append (first_of h) xs (z ∷ zs)))
