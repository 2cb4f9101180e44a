-- ===== src/Pmap/Refs.antt =====
-- What a directory refers to is in use, so it is neither free nor the page of the directory.
use buaa_os_25spring.Prelude.{
  ℕ, ◌+◌, ◌≤◌, ◌<◌, ◌≡◌, ◌≢◌, ap, true, some, arith, ◌==◌, if◌then◌else◌, has, sum_below,
  summand-le-sum_below, ==_self,
}
use buaa_os_25spring.Mmu.{ppn, is_valid}
use buaa_os_25spring.Pmap.{Pmem}
use buaa_os_25spring.Pmap.Space.{
  IsGood, pde, table, pte, slot, user_tables, ref_of, table_refs, dir_refs,
}
use buaa_os_25spring.Pmap.Walk.{slot-some}

module _ (f : ℕ → ℕ → ℕ) (pgdir i : ℕ) (hi : i < user_tables)
    (d : is_valid (pde f pgdir i) ≡ true) where
  table_refs-le : (p : ℕ) → table_refs f pgdir p i ≤ dir_refs f pgdir p
  unfolding dir_refs
  table_refs-le p = summand-le-sum_below user_tables i (table_refs f pgdir p) hi

  table_refs_valid :
      (p : ℕ)
      → table_refs f pgdir p i
        ≡ (if table f pgdir i == p then 1 else 0) + sum_below 1024 (λ j. ref_of p (pte f pgdir i j))
  unfolding table_refs
  table_refs_valid p = rw d

  dir_refs-table_pos : 0 < dir_refs f pgdir (table f pgdir i)
  dir_refs-table_pos =
      let p = table f pgdir i in ground (arith, table_refs-le p, table_refs_valid p)

  dir_refs-entry_pos :
      (j : ℕ)
      → j < 1024
      → is_valid (pte f pgdir i j) ≡ true
      → 0 < dir_refs f pgdir (ppn (pte f pgdir i j))
  dir_refs-entry_pos j hj e =
      let p = ppn (pte f pgdir i j) in
      let one : ref_of p (pte f pgdir i j) ≡ 1 = rw (e, ==_self p) in
      omega (
        arith,
        one,
        table_refs-le p,
        table_refs_valid p,
        summand-le-sum_below 1024 j (λ l. ref_of p (pte f pgdir i l)) hj,
      )

module _ (ext : ℕ → ℕ) (pgdir : ℕ) (m : Pmem) (good : IsGood ext pgdir m) where
  pub table_used :
      (i : ℕ)
      → i < user_tables
      → is_valid (pde m.frame pgdir i) ≡ true
      → 0 < m.pp_ref (table m.frame pgdir i)
  table_used i hi d =
      omega (arith, good.refs (table m.frame pgdir i), dir_refs-table_pos m.frame pgdir i hi d)

  pub page_used :
      (i j e : ℕ)
      → i < user_tables
      → j < 1024
      → slot m.frame pgdir i j ≡ some e
      → 0 < m.pp_ref (ppn e)
  page_used i j e hi hj h =
      let (d, v, same) = slot-some m.frame pgdir i j e h in
      rw (← same) (
        omega (
          arith,
          good.refs (ppn (pte m.frame pgdir i j)),
          dir_refs-entry_pos m.frame pgdir i hi d j hj v,
        ))

  pub dir_used : 0 < m.pp_ref pgdir
  dir_used = omega (arith, good.refs pgdir, good.held)

  -- A free page has no reference.
  pub free-ne : (t p : ℕ) → has t m.page_free_list ≡ true → 0 < m.pp_ref p → p ≢ t
  free-ne t p h u e = omega (arith, good.free.unused t h, ap m.pp_ref e)
