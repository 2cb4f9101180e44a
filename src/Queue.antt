-- ===== src/Queue.antt =====
-- include/queue.h: the doubly linked lists (LIST) and tail queues (TAILQ) whose links stand inside
-- their elements. An element is a number, NULL is 0 and a head is a number of its own space.
mod Seg
mod Splice
mod Puts
mod Holds
mod Lists
mod Tails
mod Concat
mod Views
mod Ends
mod Tests
use buaa_os_25spring.Prelude.{
  ℕ, zero, suc, Bool, false, not, Option, none, some, List, [], ◌∷◌, ◌==◌, if◌then◌else◌,
}

-- The address of a cell that holds a `struct type *`: the first field of a head, or the next
-- field of an element. The values of `le_prev`, `tqe_prev` and `tqh_last` are such addresses.
pub data Slot : Type 0 where
  first_of : ℕ → Slot
  next_of : ℕ → Slot

abbrev pub same_slot : Slot → Slot → Bool
same_slot (first_of h) (first_of k) = h == k
same_slot (next_of x) (next_of y) = x == y
same_slot (first_of h) (next_of y) = false
same_slot (next_of x) (first_of k) = false

-- `cells` are the fields lh_first, le_next, tqh_first and tqe_next, by their addresses; `prev` is
-- le_prev or tqe_prev of an element, `last` the tqh_last of a head.
pub record Links : Type 0 where
  pub cells : Slot → ℕ
  pub prev : ℕ → Slot
  pub last : ℕ → Slot

abbrev pub put_cell : (Slot → ℕ) → Slot → ℕ → Slot → ℕ
put_cell c w v u = if same_slot u w then v else c u

abbrev pub put_slot : (ℕ → Slot) → ℕ → Slot → ℕ → Slot
put_slot p x w y = if y == x then w else p y

-- `*w = v`, `x->field.le_prev = w` (or `tqe_prev`) and `h->tqh_last = w`.
abbrev pub assign : Slot → ℕ → Links → Links
assign w v s = record s { cells = put_cell s.cells w v }

abbrev pub set_prev : ℕ → Slot → Links → Links
set_prev x w s = record s { prev = put_slot s.prev x w }

abbrev pub set_last : ℕ → Slot → Links → Links
set_last h w s = record s { last = put_slot s.last h w }

-- `if (x != NULL) x->field.le_prev = w;`
abbrev pub set_prev_unless_null : ℕ → Slot → Links → Links
set_prev_unless_null x w s = if x == 0 then s else set_prev x w s

unfoldable pub list_empty : ℕ → Links → Bool
list_empty h s = s.cells (first_of h) == 0

unfoldable pub list_first : ℕ → Links → ℕ
list_first h s = s.cells (first_of h)

unfoldable pub list_next : ℕ → Links → ℕ
list_next x s = s.cells (next_of x)

unfoldable pub list_init : ℕ → Links → Links
list_init h s = assign (first_of h) 0 s

unfoldable pub list_insert_after : ℕ → ℕ → Links → Links
list_insert_after listelm elm s =
    let s1 = assign (next_of elm) (s.cells (next_of listelm)) s in
    let s2 = set_prev_unless_null (s1.cells (next_of elm)) (next_of elm) s1 in
    let s3 = assign (next_of listelm) elm s2 in set_prev elm (next_of listelm) s3

unfoldable pub list_insert_before : ℕ → ℕ → Links → Links
list_insert_before listelm elm s =
    let s1 = set_prev elm (s.prev listelm) s in
    let s2 = assign (next_of elm) listelm s1 in
    let s3 = assign (s2.prev listelm) elm s2 in set_prev listelm (next_of elm) s3

unfoldable pub list_insert_head : ℕ → ℕ → Links → Links
list_insert_head h elm s =
    let s1 = assign (next_of elm) (s.cells (first_of h)) s in
    let s2 = set_prev_unless_null (s1.cells (next_of elm)) (next_of elm) s1 in
    let s3 = assign (first_of h) elm s2 in set_prev elm (first_of h) s3

unfoldable pub list_remove : ℕ → Links → Links
list_remove elm s =
    let s1 = set_prev_unless_null (s.cells (next_of elm)) (s.prev elm) s in
    assign (s1.prev elm) (s1.cells (next_of elm)) s1

-- The elements that LIST_FOREACH and TAILQ_FOREACH visit from `var` on, `none` when `fuel` steps
-- do not reach NULL.
unfoldable pub foreach : ℕ → ℕ → Links → Option (List ℕ)
foreach zero var s = none
foreach (suc fuel) var s =
    let rest = foreach fuel (s.cells (next_of var)) s in
    if var == 0 then some [] else visit var rest
  where
    visit : ℕ → Option (List ℕ) → Option (List ℕ)
    visit x none = none
    visit x (some xs) = some (x ∷ xs)

unfoldable pub tailq_empty : ℕ → Links → Bool
tailq_empty h s = s.cells (first_of h) == 0

unfoldable pub tailq_init : ℕ → Links → Links
tailq_init h s = set_last h (first_of h) (assign (first_of h) 0 s)

-- `if (x != NULL) x->field.tqe_prev = w; else head->tqh_last = v;`
abbrev pub set_prev_or_last : ℕ → ℕ → Slot → Slot → Links → Links
set_prev_or_last h x w v s = if x == 0 then set_last h v s else set_prev x w s

unfoldable pub tailq_insert_head : ℕ → ℕ → Links → Links
tailq_insert_head h elm s =
    let s1 = assign (next_of elm) (s.cells (first_of h)) s in
    let s2 = set_prev_or_last h (s1.cells (next_of elm)) (next_of elm) (next_of elm) s1 in
    let s3 = assign (first_of h) elm s2 in set_prev elm (first_of h) s3

unfoldable pub tailq_insert_tail : ℕ → ℕ → Links → Links
tailq_insert_tail h elm s =
    let s1 = assign (next_of elm) 0 s in
    let s2 = set_prev elm (s1.last h) s1 in
    let s3 = assign (s2.last h) elm s2 in set_last h (next_of elm) s3

unfoldable pub tailq_insert_after : ℕ → ℕ → ℕ → Links → Links
tailq_insert_after h listelm elm s =
    let s1 = assign (next_of elm) (s.cells (next_of listelm)) s in
    let s2 = set_prev_or_last h (s1.cells (next_of elm)) (next_of elm) (next_of elm) s1 in
    let s3 = assign (next_of listelm) elm s2 in set_prev elm (next_of listelm) s3

unfoldable pub tailq_insert_before : ℕ → ℕ → Links → Links
tailq_insert_before listelm elm s =
    let s1 = set_prev elm (s.prev listelm) s in
    let s2 = assign (next_of elm) listelm s1 in
    let s3 = assign (s2.prev listelm) elm s2 in set_prev listelm (next_of elm) s3

unfoldable pub tailq_remove : ℕ → ℕ → Links → Links
tailq_remove h elm s =
    let s1 = set_prev_or_last h (s.cells (next_of elm)) (s.prev elm) (s.prev elm) s in
    assign (s1.prev elm) (s1.cells (next_of elm)) s1

unfoldable pub tailq_concat : ℕ → ℕ → Links → Links
tailq_concat h k s = if not (tailq_empty k s) then joined else s
  where
    joined : Links
    joined =
        let s1 = assign (s.last h) (s.cells (first_of k)) s in
        let s2 = set_prev (s1.cells (first_of k)) (s1.last h) s1 in
        let s3 = set_last h (s2.last k) s2 in tailq_init k s3

-- `((struct headname *)w)->tqh_last`: the second word behind a cell, `tqe_prev` of an element or
-- `tqh_last` of a head, which have the same place.
unfoldable pub second_word : Links → Slot → Slot
second_word s (first_of h) = s.last h
second_word s (next_of x) = s.prev x

unfoldable pub tailq_last : ℕ → Links → ℕ
tailq_last h s = s.cells (second_word s (s.last h))

unfoldable pub tailq_prev : ℕ → Links → ℕ
tailq_prev elm s = s.cells (second_word s (s.prev elm))
