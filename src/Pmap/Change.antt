-- ===== src/Pmap/Change.antt =====
-- How a write to a page table changes the abstract view of a directory.
use buaa_os_25spring.Prelude.{
  ℕ, ◌+◌, ◌<◌, ◌≡◌, ◌≢◌, sym, ap, true, ◌&&◌, none, some, arith, ◌==◌, if◌then◌else◌,
  sum_below_same, sum_below_change, ==_ne, ==_self, Bool-cases, inl, inr, ℕ_discrete, ◌∙◌,
}
use buaa_os_25spring.Mmu.{ppn, is_valid}
use buaa_os_25spring.Pmap.{update_word}
use buaa_os_25spring.Pmap.Space.{
  IsSpace, IsData, pde, table, pte, slot, user_tables, ref_of, table_refs, dir_refs,
}

-- The frames `g` have the same directory as `f`.
module _ (npage : ℕ) (f g : ℕ → ℕ → ℕ) (pgdir : ℕ)
    (same : (k : ℕ) → k < user_tables → g pgdir k ≡ f pgdir k) where
  pub IsData-same : (p : ℕ) → IsData npage f pgdir p → IsData npage g pgdir p
  IsData-same p h = record {
    within = h.within;
    ne_dir = h.ne_dir;
    ne_table = λ k hk dk. rw (same k hk) (h.ne_table k hk (rw (same k hk) at dk));
  }

  pub IsSpace-same :
      IsSpace npage f pgdir
      → ((k l : ℕ)
          → k < user_tables
          → l < 1024
          → is_valid (pde f pgdir k) ≡ true
          → is_valid (g (table f pgdir k) l) ≡ true
          → IsData npage f pgdir (ppn (g (table f pgdir k) l)))
      → IsSpace npage g pgdir
  IsSpace-same s entries = record {
    dir_in = s.dir_in;
    table_in = λ k hk dk. rw (same k hk) (s.table_in k hk (rw (same k hk) at dk));
    table_ne = λ k hk dk. rw (same k hk) (s.table_ne k hk (rw (same k hk) at dk));
    apart = λ k l hk hl dk dl e.
        s.apart k l hk hl (rw (same k hk) at dk) (rw (same l hl) at dl)
          (sym (ap ppn (same k hk)) ∙ e ∙ ap ppn (same l hl));
    data_page = λ k l hk hl dk dl.
        rw (same k hk)
          (IsData-same _ (entries k l hk hl (rw (same k hk) at dk) (rw (same k hk) at dl)));
  }

-- Besides, the tables of `g` are those of `f` but for `v` in entry `j` of table `i`.
module _ (f g : ℕ → ℕ → ℕ) (pgdir i j v : ℕ) (hi : i < user_tables) (hj : j < 1024)
    (d : is_valid (pde f pgdir i) ≡ true) (same : (k : ℕ) → k < user_tables → g pgdir k ≡ f pgdir k)
    (entry_is : (k l : ℕ)
      → k < user_tables
      → is_valid (pde f pgdir k) ≡ true
      → g (table f pgdir k) l ≡ (if k == i && l == j then v else pte f pgdir k l)) where
  pub slot-change :
      (k l : ℕ)
      → k < user_tables
      → slot g pgdir k l
        ≡ (if k == i && l == j then (if is_valid v then some v else none) else slot f pgdir k l)
  slot-change k l hk = elim (Bool-cases (is_valid (pde f pgdir k))) [
    | inl dk ↦ rw (same k hk, entry_is k l hk dk) (ground arith)
    | inr dk ↦ rw (same k hk, dk) (ground arith)
  ]

  table_refs-other :
      (p k : ℕ) → k < user_tables → k ≢ i → table_refs g pgdir p k ≡ table_refs f pgdir p k
  unfolding table_refs
  table_refs-other p k hk ne = elim (Bool-cases (is_valid (pde f pgdir k))) [
    | inl dk ↦
        rw (same k hk, dk)
          (ap (λ t. (if table f pgdir k == p then 1 else 0) + t)
            (sum_below_same 1024 _ _
              (λ l hl. ap (ref_of p) (rw (entry_is k l hk dk, ==_ne k i ne)))))
    | inr dk ↦ rw (same k hk, dk)
  ]

  table_refs_self :
      (p : ℕ)
      → table_refs g pgdir p i + ref_of p (pte f pgdir i j) ≡ table_refs f pgdir p i + ref_of p v
  unfolding table_refs
  table_refs_self p =
      rw (same i hi, d)
        (omega (
          arith,
          sum_below_change 1024 j (λ l. ref_of p (g (table f pgdir i) l))
              (λ l. ref_of p (pte f pgdir i l)) hj
              (λ l hl ne. ap (ref_of p) (rw (entry_is i l hi d, ==_self i, ==_ne l j ne))),
          ap (ref_of p) here,
        ))
    where
      here : g (table f pgdir i) j ≡ v
      here = rw (entry_is i j hi d, ==_self i, ==_self j)

  pub dir_refs-change :
      (p : ℕ) → dir_refs g pgdir p + ref_of p (pte f pgdir i j) ≡ dir_refs f pgdir p + ref_of p v
  unfolding dir_refs
  dir_refs-change p = omega (
    arith,
    table_refs_self p,
    sum_below_change user_tables i (table_refs g pgdir p) (table_refs f pgdir p) hi
        (λ k. table_refs-other p k),
  )

-- A write to entry `j` of table `i` is such a change.
module _ (npage : ℕ) (f : ℕ → ℕ → ℕ) (pgdir i j v : ℕ) (s : IsSpace npage f pgdir)
    (hi : i < user_tables) (d : is_valid (pde f pgdir i) ≡ true) where
  abbrev pub written : ℕ → ℕ → ℕ
  written = update_word f (table f pgdir i) j v

  pub written-same : (k : ℕ) → k < user_tables → written pgdir k ≡ f pgdir k
  written-same k hk = rw (==_ne pgdir (table f pgdir i) (λ e. s.table_ne i hi d (sym e)))

  same_table :
      (k : ℕ)
      → k < user_tables
      → is_valid (pde f pgdir k) ≡ true
      → (table f pgdir k == table f pgdir i) ≡ (k == i)
  same_table k hk dk = elim (ℕ_discrete k i) [
    | yes e ↦ rw e (==_self (table f pgdir i) ∙ sym (==_self i))
    | no ne ↦ ==_ne _ _ (λ q. ne (s.apart k i hk hi dk d q)) ∙ sym (==_ne k i ne)
  ]

  pub written-entry :
      (k l : ℕ)
      → k < user_tables
      → is_valid (pde f pgdir k) ≡ true
      → written (table f pgdir k) l ≡ (if k == i && l == j then v else pte f pgdir k l)
  written-entry k l hk dk =
      ap (λ b. if b && l == j then v else pte f pgdir k l) (same_table k hk dk)

  pub IsSpace-written :
      (is_valid v ≡ true → IsData npage f pgdir (ppn v)) → IsSpace npage written pgdir
  IsSpace-written h = IsSpace-same npage f written pgdir written-same s (λ k l hk hl dk dl.
      elim (Bool-cases (k == i && l == j)) [
        | inl e ↦
            let new : written (table f pgdir k) l ≡ v = rw (written-entry k l hk dk, e) in
            rw new (h (sym (ap is_valid new) ∙ dl))
        | inr e ↦
            let old : written (table f pgdir k) l ≡ pte f pgdir k l =
              rw (written-entry k l hk dk, e) in
            rw old (s.data_page k l hk hl dk (sym (ap is_valid old) ∙ dl))
      ])
