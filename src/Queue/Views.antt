-- ===== src/Queue/Views.antt =====
-- The queue operations that the kernel composes, on the list of elements that a head holds.
use buaa_os_25spring.Prelude.{
  ℕ, ◌≡◌, ◌≢◌, refl, sym, ap, true, false, ◌==◌, List, [], ◌∷◌, ◌++◌, has, erase, arith, ==_iff,
  Bool-cases, inl, inr, has-erase_self,
}
use buaa_os_25spring.Queue.{Links, list_insert_head, list_remove, tailq_insert_tail, tailq_remove}
use buaa_os_25spring.Queue.Seg.{ListHolds, TailqHolds}
use buaa_os_25spring.Queue.Lists.{list_insert_head_lem, list_remove_lem}
use buaa_os_25spring.Queue.Tails.{tailq_insert_tail_lem, tailq_remove_lem}

-- A member stands between a front and a rest, and its removal leaves these two.
split_at :
    (e : ℕ) (xs : List ℕ)
    → has e xs ≡ true
    → (front : List ℕ) × (rest : List ℕ) × (xs ≡ front ++ (e ∷ rest)) × (erase e xs ≡ front ++ rest)
split_at e [] m = absurd (ground (arith, m))
split_at e (x ∷ xs) m = elim (Bool-cases (e == x)) [
  | inl i ↦ ([], xs, ap (λ t. t ∷ xs) (sym ((==_iff e x).0 i)), rw i refl)
  | inr i ↦
      let (front, rest, a, b) = split_at e xs (ground (arith, m, i)) in
      (x ∷ front, rest, ap (λ t. x ∷ t) a, rw i (ap (λ t. x ∷ t) b))
]

-- LIST_REMOVE erases an element of the list.
pub list_remove-erase :
    (s : Links) (h e : ℕ) (xs : List ℕ)
    → ListHolds s h xs
    → has e xs ≡ true
    → ListHolds (list_remove e s) h (erase e xs)
list_remove-erase s h e xs l m =
    let (front, rest, a, b) = split_at e xs m in
    rw b (list_remove_lem s h e front rest (rw (sym a) l))

-- TAILQ_REMOVE erases an element of the queue.
pub tailq_remove-erase :
    (s : Links) (h e : ℕ) (xs : List ℕ)
    → TailqHolds s h xs
    → has e xs ≡ true
    → TailqHolds (tailq_remove h e s) h (erase e xs)
tailq_remove-erase s h e xs t m =
    let (front, rest, a, b) = split_at e xs m in
    rw b (tailq_remove_lem s h e front rest (rw (sym a) t))

-- TAILQ_REMOVE and then TAILQ_INSERT_TAIL of an element of the queue, as `schedule` does them,
-- move that element behind the others, whose order stays.
pub tailq_insert_tail-tailq_remove :
    (s : Links) (h e : ℕ) (xs : List ℕ)
    → TailqHolds s h xs
    → has e xs ≡ true
    → e ≢ 0
    → TailqHolds (tailq_insert_tail h e (tailq_remove h e s)) h (erase e xs ++ (e ∷ []))
tailq_insert_tail-tailq_remove s h e xs t m z =
    tailq_insert_tail_lem (tailq_remove h e s) h e (erase e xs) (tailq_remove-erase s h e xs t m)
      (has-erase_self e xs t.holds.distinct) z

-- LIST_REMOVE undoes LIST_INSERT_HEAD of a new element: the head holds the same list again.
pub list_remove-list_insert_head :
    (s : Links) (h e : ℕ) (xs : List ℕ)
    → ListHolds s h xs
    → has e xs ≡ false
    → e ≢ 0
    → ListHolds (list_remove e (list_insert_head h e s)) h xs
list_remove-list_insert_head s h e xs l n z =
    list_remove_lem (list_insert_head h e s) h e [] xs (list_insert_head_lem s h e xs l n z)
