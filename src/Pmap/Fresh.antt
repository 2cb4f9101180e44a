-- ===== src/Pmap/Fresh.antt =====
-- pgdir_walk with `create`: a fresh page table keeps the directory well-formed and what it maps.
use buaa_os_25spring.Prelude.{
  ℕ, ◌+◌, ◌<◌, ◌≡◌, ◌≢◌, sym, ap, ◌∙◌, true, false, List, ◌∷◌, arith, has, ==_self, ==_ne,
}
use buaa_os_25spring.Mmu.{ppn, is_valid, entry, is_valid-entry, ppn-entry}
use buaa_os_25spring.Pmap.{Pmem}
use buaa_os_25spring.Pmap.Alloc.{HandedOut, handed_out, tail-IsFreeList}
use buaa_os_25spring.Pmap.Space.{
  IsGood, IsData, IsMappable, pde, pte, slot, table, user_tables, dir_refs,
}
use buaa_os_25spring.Pmap.Walk.{with_table}
use buaa_os_25spring.Pmap.Table.{slot-table, dir_refs-table, IsData-table, IsSpace-table}
use buaa_os_25spring.Pmap.Refs.{table_used, page_used, dir_used, free-ne}

module _ (ext : ℕ → ℕ) (pgdir i : ℕ) (m : Pmem) (t : ℕ) (rest : List ℕ) (good : IsGood ext pgdir m)
    (hi : i < user_tables) (d : is_valid (pde m.frame pgdir i) ≡ false)
    (e : m.page_free_list ≡ t ∷ rest) where
  abbrev after : Pmem
  after = with_table m pgdir i t rest

  taken : HandedOut m t (handed_out m t rest)
  taken = tail-IsFreeList m t rest good.free e

  free_t : has t m.page_free_list ≡ true
  free_t = ap (has t) e ∙ ground (arith, ==_self t)

  t_ne_dir : t ≢ pgdir
  t_ne_dir q = free-ne ext pgdir m good t pgdir free_t (dir_used ext pgdir m good) (sym q)

  t_ne_table :
      (k : ℕ) → k < user_tables → is_valid (pde m.frame pgdir k) ≡ true → table m.frame pgdir k ≢ t
  t_ne_table k hk dk =
      free-ne ext pgdir m good t (table m.frame pgdir k) free_t
        (table_used ext pgdir m good k hk dk)

  t_unmapped :
      (k l : ℕ)
      → k < user_tables
      → l < 1024
      → is_valid (pde m.frame pgdir k) ≡ true
      → is_valid (pte m.frame pgdir k l) ≡ true
      → ppn (pte m.frame pgdir k l) ≢ t
  t_unmapped k l hk hl dk dl =
      free-ne ext pgdir m good t _ free_t
        (page_used ext pgdir m good k l (pte m.frame pgdir k l) hk hl (rw (dk, dl)))

  same : (k : ℕ) → k < user_tables → k ≢ i → after.frame pgdir k ≡ m.frame pgdir k
  same k hk ne = rw (==_ne k i ne, ==_ne pgdir t (λ q. t_ne_dir (sym q))) (ground arith)

  new : after.frame pgdir i ≡ entry t 0
  new = rw (==_self pgdir, ==_self i)

  pub valid-with_table : is_valid (pde after.frame pgdir i) ≡ true
  valid-with_table = rw new (is_valid-entry t 0)

  pub table-with_table : table after.frame pgdir i ≡ t
  table-with_table = ap ppn new ∙ ppn-entry t 0 (omega arith)

  empty : (l : ℕ) → after.frame t l ≡ 0
  empty l = rw (==_ne t pgdir t_ne_dir, ==_self t)

  kept :
      (k l : ℕ)
      → k < user_tables
      → is_valid (pde m.frame pgdir k) ≡ true
      → after.frame (table m.frame pgdir k) l ≡ pte m.frame pgdir k l
  kept k l hk dk = rw (==_ne _ pgdir (good.space.table_ne k hk dk), ==_ne _ t (t_ne_table k hk dk))

  pub slot-with_table :
      (k l : ℕ) → k < user_tables → slot after.frame pgdir k l ≡ slot m.frame pgdir k l
  slot-with_table = slot-table m.frame after.frame pgdir i t hi d same new empty kept

  pub IsData-with_table :
      (p : ℕ)
      → has p m.page_free_list ≡ false
      → IsData m.npage m.frame pgdir p
      → IsData m.npage after.frame pgdir p
  IsData-with_table p h =
      IsData-table m.frame after.frame pgdir i t hi d same new empty kept m.npage good.space
        taken.within t_ne_dir t_ne_table t_unmapped p
        (λ q. cc (ap (λ x. has x m.page_free_list) q, free_t, h))

  -- The page that was first on the free list is no longer there, and is not `p` if `p` was in use.
  pub IsMappable-with_table : (p : ℕ) → IsMappable m pgdir p → IsMappable after pgdir p
  IsMappable-with_table p may = record {
    page = IsData-with_table p may.taken may.page;
    taken = ground (arith, ap (has p) e, may.taken);
    room = ground (arith, free_t, may.taken, may.room);
  }

  pub first_within : t < m.npage
  first_within = taken.within

  refs : (p : ℕ) → after.pp_ref p ≡ ext p + dir_refs after.frame pgdir p
  refs p = ground (
    arith,
    good.refs p,
    taken.unused,
    dir_refs-table m.frame after.frame pgdir i t hi d same new empty kept p,
  )

  pub with_table-IsGood : IsGood ext pgdir after
  with_table-IsGood = record {
    free = record {
      below = taken.free.below;
      unused = λ p h. ground (arith, taken.free.unused p h, taken.taken);
      distinct = taken.free.distinct;
    };
    space =
        IsSpace-table m.frame after.frame pgdir i t hi d same new empty kept m.npage good.space
          taken.within t_ne_dir t_ne_table t_unmapped;
    refs = refs;
    held = good.held;
  }
