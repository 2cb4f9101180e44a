-- ===== src/Queue/Puts.antt =====
-- The assignments of the macros of include/queue.h, as insertions behind a cell and removals.
use buaa_os_25spring.Prelude.{
  ℕ, ◌≡◌, ◌≢◌, refl, sym, ◌∙◌, false, ==_self, ==_ne, Bool-cases, inl, inr,
}
use buaa_os_25spring.Queue.{Slot, next_of, same_slot, put_cell, put_slot}
use buaa_os_25spring.Queue.Seg.{same_slot_self, same_slot→eq}
use buaa_os_25spring.Queue.Splice.{Linked, Unlinked}

pub same_slot_ne : (w u : Slot) → w ≢ u → same_slot w u ≡ false
same_slot_ne w u n = elim (Bool-cases (same_slot w u)) [
  | inl e ↦ absurd (n (same_slot→eq w u e))
  | inr e ↦ e
]

pub put_cell_self : (c : Slot → ℕ) (w : Slot) (v : ℕ) → put_cell c w v w ≡ v
put_cell_self c w v = rw (same_slot_self w) refl

pub put_cell_ne : (c : Slot → ℕ) (w u : Slot) (v : ℕ) → u ≢ w → put_cell c w v u ≡ c u
put_cell_ne c w u v n = rw (same_slot_ne u w n) refl

pub put_slot_self : (p : ℕ → Slot) (x : ℕ) (w : Slot) → put_slot p x w x ≡ w
put_slot_self p x w = rw (==_self x) refl

pub put_slot_ne : (p : ℕ → Slot) (x y : ℕ) (w : Slot) → y ≢ x → put_slot p x w y ≡ p y
put_slot_ne p x y w n = rw (==_ne y x n) refl

module _ (c : Slot → ℕ) (p : ℕ → Slot) (w : Slot) (e : ℕ) (apart : w ≢ next_of e) where
  abbrev pub linked_cells : Slot → ℕ
  linked_cells = put_cell (put_cell c (next_of e) (c w)) w e

  link : linked_cells (next_of e) ≡ c w
  link =
      put_cell_ne (put_cell c (next_of e) (c w)) w (next_of e) e (λ i. apart (sym i))
      ∙ put_cell_self c (next_of e) (c w)

  others : (u : Slot) → u ≢ w → u ≢ next_of e → linked_cells u ≡ c u
  others u n m =
      put_cell_ne (put_cell c (next_of e) (c w)) w u e n ∙ put_cell_ne c (next_of e) u (c w) m

  -- At the end of a chain no element's `prev` moves.
  pub Linked-at_end : c w ≡ 0 → Linked c linked_cells p (put_slot p e w) w e
  Linked-at_end z = record {
    cell = put_cell_self (put_cell c (next_of e) (c w)) w e;
    link = link;
    other_cells = others;
    back = put_slot_self p e w;
    moved = λ n. absurd (n z);
    other_backs = λ y n m. put_slot_ne p e y w n;
  }

  -- The next element's `prev` is set before the new element's, or after it.
  module _ (new : c w ≢ e) where
    pub Linked-inside : Linked c linked_cells p (put_slot (put_slot p (c w) (next_of e)) e w) w e
    Linked-inside = record {
      cell = put_cell_self (put_cell c (next_of e) (c w)) w e;
      link = link;
      other_cells = others;
      back = put_slot_self (put_slot p (c w) (next_of e)) e w;
      moved =
          λ _. put_slot_ne (put_slot p (c w) (next_of e)) e (c w) w new ∙ put_slot_self p (c w) _;
      other_backs =
          λ y n m. put_slot_ne (put_slot p (c w) (next_of e)) e y w n ∙ put_slot_ne p (c w) y _ m;
    }

    pub Linked-before : Linked c linked_cells p (put_slot (put_slot p e w) (c w) (next_of e)) w e
    Linked-before = record {
      cell = put_cell_self (put_cell c (next_of e) (c w)) w e;
      link = link;
      other_cells = others;
      back = put_slot_ne (put_slot p e w) (c w) e _ (λ i. new (sym i)) ∙ put_slot_self p e w;
      moved = λ _. put_slot_self (put_slot p e w) (c w) (next_of e);
      other_backs = λ y n m. put_slot_ne (put_slot p e w) (c w) y _ m ∙ put_slot_ne p e y w n;
    }

module _ (c : Slot → ℕ) (p : ℕ → Slot) (e : ℕ) where
  pub Unlinked-at_end : c (next_of e) ≡ 0 → Unlinked c (put_cell c (p e) (c (next_of e))) p p e
  Unlinked-at_end z = record {
    cell = put_cell_self c (p e) _;
    other_cells = λ u n. put_cell_ne c (p e) u _ n;
    moved = λ n. absurd (n z);
    other_backs = λ y n. refl;
  }

  pub Unlinked-inside :
      Unlinked c (put_cell c (p e) (c (next_of e))) p (put_slot p (c (next_of e)) (p e)) e
  Unlinked-inside = record {
    cell = put_cell_self c (p e) _;
    other_cells = λ u n. put_cell_ne c (p e) u _ n;
    moved = λ _. put_slot_self p _ (p e);
    other_backs = λ y n. put_slot_ne p _ y (p e) n;
  }
