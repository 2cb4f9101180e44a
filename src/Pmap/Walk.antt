-- ===== src/Pmap/Walk.antt =====
-- pgdir_walk and page_lookup of kern/pmap.c on a well-formed directory.
use buaa_os_25spring.Prelude.{
  ℕ, ◌+◌, ◌^◌, ◌%◌, ◌<◌, ◌≡◌, Bool, true, false, none, some, List, [], ◌∷◌, arith, inl, inr,
  Bool-cases, lt→ltb,
}
use buaa_os_25spring.Exec.{ok, fail, e_no_mem}
use buaa_os_25spring.Mmu.{pdx, ptx, ppn, is_valid, entry, dir_entry, ppn-pte_addr, ptx-lt}
use buaa_os_25spring.Pmap.{Pmem, update, update_word, fill, create_table, pgdir_walk, page_lookup}
use buaa_os_25spring.Pmap.Alloc.{page_alloc-ok, page_alloc-fail}
use buaa_os_25spring.Pmap.Space.{IsSpace, pde, table, pte, slot, translate, user_tables}

-- The memory after a fresh table `t` is put into entry `i` of the directory.
abbrev pub with_table : Pmem → ℕ → ℕ → ℕ → List ℕ → Pmem
with_table m pgdir i t rest = record m {
  page_free_list = rest;
  pp_ref = update m.pp_ref t ((m.pp_ref t + 1) % 2 ^ 16);
  frame = update_word (fill m.frame t 0) pgdir i (entry t 0);
}

pub slot-some :
    (frame : ℕ → ℕ → ℕ) (pgdir i j e : ℕ)
    → slot frame pgdir i j ≡ some e
    → (is_valid (pde frame pgdir i) ≡ true)
      × (is_valid (pte frame pgdir i j) ≡ true)
      × (pte frame pgdir i j ≡ e)
slot-some frame pgdir i j e h = ground arith

pub slot-none :
    (frame : ℕ → ℕ → ℕ) (pgdir i j : ℕ)
    → slot frame pgdir i j ≡ none
    → is_valid (pde frame pgdir i) ≡ true
    → is_valid (pte frame pgdir i j) ≡ false
slot-none frame pgdir i j h d = ground arith

module _ (m : Pmem) (pgdir va : ℕ) where
  pub pgdir_walk-missing :
      is_valid (pde m.frame pgdir (pdx va)) ≡ false → pgdir_walk pgdir va false m ≡ ok none m
  unfolding pgdir_walk
  pgdir_walk-missing h = simp h

  pub pgdir_walk-full :
      is_valid (pde m.frame pgdir (pdx va)) ≡ false
      → m.page_free_list ≡ []
      → pgdir_walk pgdir va true m ≡ fail e_no_mem m
  unfolding pgdir_walk create_table
  pgdir_walk-full h e = simp (h, page_alloc-fail m e)

  pub pgdir_walk-new :
      (t : ℕ) (rest : List ℕ)
      → is_valid (pde m.frame pgdir (pdx va)) ≡ false
      → m.page_free_list ≡ t ∷ rest
      → t < m.npage
      → pgdir_walk pgdir va true m ≡ ok (some (t, ptx va)) (with_table m pgdir (pdx va) t rest)
  unfolding pgdir_walk create_table
  pgdir_walk-new t rest h e l = simp (h, page_alloc-ok m t rest e l, lt→ltb t m.npage l, dir_entry)

  module _ (s : IsSpace m.npage m.frame pgdir) (user : pdx va < user_tables) where
    pub pgdir_walk-found :
        (create : Bool)
        → is_valid (pde m.frame pgdir (pdx va)) ≡ true
        → pgdir_walk pgdir va create m ≡ ok (some (table m.frame pgdir (pdx va), ptx va)) m
    unfolding pgdir_walk
    pgdir_walk-found create h =
        simp (h, ppn-pte_addr, lt→ltb (table m.frame pgdir (pdx va)) m.npage (s.table_in _ user h))

    -- The page that `va` translates to, and a pointer to the entry that says so.
    pub page_lookup-some :
        (e : ℕ)
        → translate m.frame pgdir va ≡ some e
        → page_lookup pgdir va m ≡ ok (some (ppn e, (table m.frame pgdir (pdx va), ptx va))) m
    unfolding page_lookup
    page_lookup-some e h =
        let (d, p, q) = slot-some m.frame pgdir (pdx va) (ptx va) e h in
        let within = (s.data_page (pdx va) (ptx va) user (ptx-lt va) d p).within in
        simp
          (
            pgdir_walk-found false d,
            p,
            lt→ltb (ppn (pte m.frame pgdir (pdx va) (ptx va))) m.npage within,
          )
          (rw q)

    pub page_lookup-none : translate m.frame pgdir va ≡ none → page_lookup pgdir va m ≡ ok none m
    unfolding page_lookup
    page_lookup-none h = elim (Bool-cases (is_valid (pde m.frame pgdir (pdx va)))) [
      | inr d ↦ simp (pgdir_walk-missing d)
      | inl d ↦ simp (pgdir_walk-found false d, slot-none m.frame pgdir (pdx va) (ptx va) h d)
    ]
