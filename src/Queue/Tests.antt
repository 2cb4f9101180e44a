-- ===== src/Queue/Tests.antt =====
-- The queue macros on two queues of two elements each, and a list of two.
use buaa_os_25spring.Prelude.{ℕ, ◌≡◌, refl, [], ◌∷◌, some, arith, ◌==◌, if◌then◌else◌}
use buaa_os_25spring.Queue.{
  Links, Slot, first_of, next_of, foreach, list_init, list_insert_head, list_insert_before,
  list_remove, tailq_init, tailq_insert_tail, tailq_remove, tailq_concat, tailq_prev,
}
use buaa_os_25spring.Queue.Seg.{ListHolds, TailqHolds}
use buaa_os_25spring.Queue.Lists.{list_insert_head_lem, list_insert_before_lem}
use buaa_os_25spring.Queue.Tails.{tailq_insert_tail_lem}
use buaa_os_25spring.Queue.Ends.{list_init_lem, tailq_init_lem, tailq_prev_lem}
use buaa_os_25spring.Queue.Concat.{tailq_concat_lem}
use buaa_os_25spring.Queue.Views.{list_remove-list_insert_head, tailq_insert_tail-tailq_remove}

abbrev blank : Links
blank = record { cells = λ w. 9; prev = λ x. first_of 7; last = λ h. first_of 8 }

-- The queue at head 0 holds 5 and 6.
abbrev one_queue : Links
one_queue = tailq_insert_tail 0 6 (tailq_insert_tail 0 5 (tailq_init 0 blank))

one_queue-TailqHolds : TailqHolds one_queue 0 (5 ∷ 6 ∷ [])
one_queue-TailqHolds =
    tailq_insert_tail_lem (tailq_insert_tail 0 5 (tailq_init 0 blank)) 0 6 (5 ∷ [])
      (tailq_insert_tail_lem (tailq_init 0 blank) 0 5 [] (tailq_init_lem blank 0) refl
        (omega arith))
      refl (omega arith)

-- The list at head 0 holds 5 and 6.
abbrev one_list : Links
one_list = list_insert_head 0 5 (list_insert_head 0 6 (list_init 0 blank))

one_list-ListHolds : ListHolds one_list 0 (5 ∷ 6 ∷ [])
one_list-ListHolds =
    list_insert_head_lem (list_insert_head 0 6 (list_init 0 blank)) 0 5 (6 ∷ [])
      (list_insert_head_lem (list_init 0 blank) 0 6 [] (list_init_lem blank 0) refl (omega arith))
      refl (omega arith)

visited_in_order : foreach 3 5 one_list ≡ some (5 ∷ 6 ∷ [])
unfolding foreach list_insert_head list_init
visited_in_order = refl

-- The queue at head 1, beside the one at head 0.
abbrev both : Links
both = record { cells = cells; prev = prev; last = last }
  where
    cells : Slot → ℕ
    cells (first_of h) = if h == 0 then 5 else 8
    cells (next_of x) = if x == 5 then 6 else 0

    prev : ℕ → Slot
    prev x = if x == 5 then first_of 0 else if x == 6 then next_of 5 else first_of 1

    last : ℕ → Slot
    last h = if h == 0 then next_of 6 else next_of 8

left-TailqHolds : TailqHolds both 0 (5 ∷ 6 ∷ [])
left-TailqHolds = record {
  holds = record {
    chain = (refl, refl, (refl, refl, refl));
    distinct = (refl, (refl, tt));
    no_null = refl;
  };
  at_end = refl;
}

right-TailqHolds : TailqHolds both 1 (8 ∷ [])
right-TailqHolds = record {
  holds = record { chain = (refl, refl, refl); distinct = (refl, tt); no_null = refl };
  at_end = refl;
}

tailq_concat_lem_example :
    TailqHolds (tailq_concat 0 1 both) 0 (5 ∷ 6 ∷ 8 ∷ []) × TailqHolds (tailq_concat 0 1 both) 1 []
tailq_concat_lem_example =
    tailq_concat_lem both 0 1 (5 ∷ 6 ∷ []) (8 ∷ []) (omega arith) (refl, (refl, (refl, tt)))
      left-TailqHolds right-TailqHolds

tailq_insert_tail-tailq_remove_example :
    TailqHolds (tailq_insert_tail 0 5 (tailq_remove 0 5 one_queue)) 0 (6 ∷ 5 ∷ [])
tailq_insert_tail-tailq_remove_example =
    tailq_insert_tail-tailq_remove one_queue 0 5 (5 ∷ 6 ∷ []) one_queue-TailqHolds refl
      (omega arith)

list_insert_before_lem_example : ListHolds (list_insert_before 6 7 one_list) 0 (5 ∷ 7 ∷ 6 ∷ [])
list_insert_before_lem_example =
    list_insert_before_lem one_list 0 6 7 (5 ∷ []) [] one_list-ListHolds refl (omega arith)

five_before_six : tailq_prev 6 one_queue ≡ 5
five_before_six = tailq_prev_lem one_queue 0 6 (5 ∷ []) [] one_queue-TailqHolds

list_remove-list_insert_head_example :
    ListHolds (list_remove 7 (list_insert_head 0 7 one_list)) 0 (5 ∷ 6 ∷ [])
list_remove-list_insert_head_example =
    list_remove-list_insert_head one_list 0 7 (5 ∷ 6 ∷ []) one_list-ListHolds refl (omega arith)
