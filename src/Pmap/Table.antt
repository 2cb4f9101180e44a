-- ===== src/Pmap/Table.antt =====
-- How a fresh page table changes the abstract view of a directory: it translates nothing yet.
use buaa_os_25spring.Prelude.{
  ℕ, ◌+◌, ◌<◌, ◌≡◌, ◌≢◌, sym, ap, true, false, arith, ◌==◌, if◌then◌else◌, sum_below_same,
  sum_below_change, ==_iff, Bool-cases, inl, inr, ℕ_discrete, ◌∙◌, sum_below-zero,
}
use buaa_os_25spring.Mmu.{ppn, is_valid, entry, is_valid-entry, ppn-entry, not-is_valid-zero}
use buaa_os_25spring.Pmap.Space.{
  IsSpace, IsData, pde, table, pte, slot, user_tables, ref_of, table_refs, dir_refs,
}

module _ (f g : ℕ → ℕ → ℕ) (pgdir i t : ℕ) (hi : i < user_tables)
    (d : is_valid (pde f pgdir i) ≡ false)
    (same : (k : ℕ) → k < user_tables → k ≢ i → g pgdir k ≡ f pgdir k) (new : g pgdir i ≡ entry t 0)
    (empty : (l : ℕ) → g t l ≡ 0)
    (kept : (k l : ℕ)
      → k < user_tables
      → is_valid (pde f pgdir k) ≡ true
      → g (table f pgdir k) l ≡ pte f pgdir k l) where
  new_valid : is_valid (pde g pgdir i) ≡ true
  new_valid = rw new (is_valid-entry t 0)

  new_table : table g pgdir i ≡ t
  new_table = rw new (ppn-entry t 0 (omega arith))

  pub slot-table : (k l : ℕ) → k < user_tables → slot g pgdir k l ≡ slot f pgdir k l
  slot-table k l hk = elim (Bool-cases (k == i)) [
    | inl e ↦
        let k≡i = (==_iff k i).0 e in
        rw (k≡i, new_table, empty l, not-is_valid-zero, d) (ground arith)
    | inr e ↦ elim (Bool-cases (is_valid (pde f pgdir k))) [
      | inl dk ↦ rw (same k hk (ground arith), kept k l hk dk)
      | inr dk ↦ rw (same k hk (ground arith), dk)
    ]
  ]

  table_refs-kept :
      (p k : ℕ) → k < user_tables → k ≢ i → table_refs g pgdir p k ≡ table_refs f pgdir p k
  unfolding table_refs
  table_refs-kept p k hk ne = elim (Bool-cases (is_valid (pde f pgdir k))) [
    | inl dk ↦
        rw (same k hk ne, dk)
          (ap (λ s. (if table f pgdir k == p then 1 else 0) + s)
            (sum_below_same 1024 _ _ (λ l hl. ap (ref_of p) (kept k l hk dk))))
    | inr dk ↦ rw (same k hk ne, dk)
  ]

  table_refs-new : (p : ℕ) → table_refs g pgdir p i ≡ (if t == p then 1 else 0)
  unfolding table_refs
  table_refs-new p =
      rw (new_valid, new_table)
        (omega (
          arith,
          sum_below-zero 1024,
          sum_below_same 1024 (λ l. ref_of p (g t l)) (λ _. 0) (λ l hl. no_ref l),
        ))
    where
      no_ref : (l : ℕ) → ref_of p (g t l) ≡ 0
      no_ref l = rw (empty l, not-is_valid-zero)

  table_refs-old : (p : ℕ) → table_refs f pgdir p i ≡ 0
  unfolding table_refs
  table_refs-old p = rw d

  pub dir_refs-table : (p : ℕ) → dir_refs g pgdir p ≡ dir_refs f pgdir p + (if t == p then 1 else 0)
  unfolding dir_refs
  dir_refs-table p = omega (
    arith,
    table_refs-new p,
    table_refs-old p,
    sum_below_change user_tables i (table_refs g pgdir p) (table_refs f pgdir p) hi
        (λ k. table_refs-kept p k),
  )

  -- `t` is a page that nothing in the directory refers to.
  module _ (npage : ℕ) (s : IsSpace npage f pgdir) (t_in : t < npage) (t_ne : t ≢ pgdir)
      (t_new : (k : ℕ) → k < user_tables → is_valid (pde f pgdir k) ≡ true → table f pgdir k ≢ t)
      (t_unmapped : (k l : ℕ)
        → k < user_tables
        → l < 1024
        → is_valid (pde f pgdir k) ≡ true
        → is_valid (pte f pgdir k l) ≡ true
        → ppn (pte f pgdir k l) ≢ t) where
    -- A valid entry of the new directory is the new one or an old one.
    by_entry :
        (P : ℕ → Type 0) (k : ℕ)
        → k < user_tables
        → is_valid (pde g pgdir k) ≡ true
        → P t
        → (k ≢ i → is_valid (pde f pgdir k) ≡ true → P (table f pgdir k))
        → P (table g pgdir k)
    by_entry P k hk dk fresh old = elim (Bool-cases (k == i)) [
      | inl e ↦ rw ((==_iff k i).0 e, new_table) fresh
      | inr e ↦
          let ne : k ≢ i = ground arith in
          let same_k = same k hk ne in rw same_k (old ne (rw same_k at dk))
    ]

    pub IsData-table : (p : ℕ) → p ≢ t → IsData npage f pgdir p → IsData npage g pgdir p
    IsData-table p ne h = record {
      within = h.within;
      ne_dir = h.ne_dir;
      ne_table = λ k hk dk. by_entry (λ q. q ≢ p) k hk dk (λ e. ne (sym e)) (λ _. h.ne_table k hk);
    }

    old_valid :
        (k : ℕ)
        → k < user_tables
        → k ≢ i
        → is_valid (pde g pgdir k) ≡ true
        → is_valid (pde f pgdir k) ≡ true
    old_valid k hk ne dk = rw (same k hk ne) at dk

    old_table : (k : ℕ) → k < user_tables → k ≢ i → table g pgdir k ≡ table f pgdir k
    old_table k hk ne = ap ppn (same k hk ne)

    at_new : (k : ℕ) → k ≡ i → table g pgdir k ≡ t
    at_new k e = ap (λ q. table g pgdir q) e ∙ new_table

    table_apart :
        (k l : ℕ)
        → k < user_tables
        → l < user_tables
        → is_valid (pde g pgdir k) ≡ true
        → is_valid (pde g pgdir l) ≡ true
        → table g pgdir k ≡ table g pgdir l
        → k ≡ l
    table_apart k l hk hl dk dl e = elim (ℕ_discrete k i) [
      | yes ek ↦ elim (ℕ_discrete l i) [
        | yes el ↦ ek ∙ sym el
        | no nl ↦
            absurd
              (t_new l hl (old_valid l hl nl dl) (sym (old_table l hl nl) ∙ sym e ∙ at_new k ek))
      ]
      | no nk ↦ elim (ℕ_discrete l i) [
        | yes el ↦
            absurd (t_new k hk (old_valid k hk nk dk) (sym (old_table k hk nk) ∙ e ∙ at_new l el))
        | no nl ↦
            s.apart k l hk hl (old_valid k hk nk dk) (old_valid l hl nl dl)
              (sym (old_table k hk nk) ∙ e ∙ old_table l hl nl)
      ]
    ]

    pte-IsData :
        (k l : ℕ)
        → k < user_tables
        → l < 1024
        → is_valid (pde g pgdir k) ≡ true
        → is_valid (pte g pgdir k l) ≡ true
        → IsData npage g pgdir (ppn (pte g pgdir k l))
    pte-IsData k l hk hl dk dl = elim (ℕ_discrete k i) [
      | yes e ↦
          let zero_entry : pte g pgdir k l ≡ 0 = ap (λ q. g q l) (at_new k e) ∙ empty l in
          cc (sym (ap is_valid zero_entry) ∙ dl, not-is_valid-zero)
      | no ne ↦
          let dk' = old_valid k hk ne dk in
          let old : pte g pgdir k l ≡ pte f pgdir k l =
            ap (λ q. g q l) (old_table k hk ne) ∙ kept k l hk dk' in
          let dl' = sym (ap is_valid old) ∙ dl in
          rw old (IsData-table _ (t_unmapped k l hk hl dk' dl') (s.data_page k l hk hl dk' dl'))
    ]

    pub IsSpace-table : IsSpace npage g pgdir
    IsSpace-table = record {
      dir_in = s.dir_in;
      table_in = λ k hk dk. by_entry (λ q. q < npage) k hk dk t_in (λ _. s.table_in k hk);
      table_ne = λ k hk dk. by_entry (λ q. q ≢ pgdir) k hk dk t_ne (λ _. s.table_ne k hk);
      apart = table_apart;
      data_page = pte-IsData;
    }
