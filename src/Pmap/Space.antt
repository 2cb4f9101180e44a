-- ===== src/Pmap/Space.antt =====
-- The abstract view of a page directory: which page table entry, if any, translates a virtual
-- page, how often a page is referred to, and what makes a directory well-formed below UTOP.
use buaa_os_25spring.Prelude.{
  ℕ, ◌+◌, ◌-◌, ◌^◌, ◌<◌, ◌≡◌, ◌≢◌, true, false, ◌&&◌, Option, none, some, ◌==◌, if◌then◌else◌, has,
  Distinct, sum_below,
}
use buaa_os_25spring.Mmu.{pdx, ptx, ppn, is_valid}
use buaa_os_25spring.Pmap.{Pmem}

-- PDX(UTOP): the directory entries of user space lie below it.
abbrev pub user_tables : ℕ
user_tables = 509

-- An entry `e` refers to page `p`.
abbrev pub ref_of : ℕ → ℕ → ℕ
ref_of p e = if is_valid e && ppn e == p then 1 else 0

module _ (frame : ℕ → ℕ → ℕ) (pgdir : ℕ) where
  abbrev pub pde : ℕ → ℕ
  pde i = frame pgdir i

  abbrev pub table : ℕ → ℕ
  table i = ppn (pde i)

  abbrev pub pte : ℕ → ℕ → ℕ
  pte i j = frame (table i) j

  -- The valid entry in slot `j` of table `i`.
  abbrev pub slot : ℕ → ℕ → Option ℕ
  slot i j = if is_valid (pde i) && is_valid (pte i j) then some (pte i j) else none

  -- What the directory says of a virtual address.
  abbrev pub translate : ℕ → Option ℕ
  translate va = slot (pdx va) (ptx va)

  -- The references to page `p` from table `i`: as the table, and from its entries.
  unfoldable pub table_refs : ℕ → ℕ → ℕ
  table_refs p i =
      if is_valid (pde i)
      then (if table i == p then 1 else 0) + sum_below 1024 (λ j. ref_of p (pte i j))
      else 0

  -- The references to page `p` from the user part of the directory.
  unfoldable pub dir_refs : ℕ → ℕ
  dir_refs p = sum_below user_tables (table_refs p)

-- The free list holds each free page once, and none of them is in use.
pub record IsFreeList (m : Pmem) : Type 0 where
  pub below : (p : ℕ) → has p m.page_free_list ≡ true → p < m.npage
  pub unused : (p : ℕ) → has p m.page_free_list ≡ true → m.pp_ref p ≡ 0
  pub distinct : Distinct m.page_free_list

module _ (npage : ℕ) (frame : ℕ → ℕ → ℕ) (pgdir : ℕ) where
  -- `p` is no part of the directory's own structure.
  pub record IsData (p : ℕ) : Type 0 where
    pub within : p < npage
    pub ne_dir : p ≢ pgdir
    pub ne_table :
        (i : ℕ) → i < user_tables → is_valid (pde frame pgdir i) ≡ true → table frame pgdir i ≢ p

  pub record IsSpace : Type 0 where
    pub dir_in : pgdir < npage
    pub table_in :
        (i : ℕ)
        → i < user_tables
        → is_valid (pde frame pgdir i) ≡ true
        → table frame pgdir i < npage
    pub table_ne :
        (i : ℕ)
        → i < user_tables
        → is_valid (pde frame pgdir i) ≡ true
        → table frame pgdir i ≢ pgdir
    pub apart :
        (i k : ℕ)
        → i < user_tables
        → k < user_tables
        → is_valid (pde frame pgdir i) ≡ true
        → is_valid (pde frame pgdir k) ≡ true
        → table frame pgdir i ≡ table frame pgdir k
        → i ≡ k
    pub data_page :
        (i j : ℕ)
        → i < user_tables
        → j < 1024
        → is_valid (pde frame pgdir i) ≡ true
        → is_valid (pte frame pgdir i j) ≡ true
        → IsData (ppn (pte frame pgdir i j))

-- A well-formed directory in a well-formed memory. `pp_ref` counts the references from the
-- directory, and `ext` those from elsewhere: other directories, and the kernel's own pointers.
pub record IsGood (ext : ℕ → ℕ) (pgdir : ℕ) (m : Pmem) : Type 0 where
  pub free : IsFreeList m
  pub space : IsSpace m.npage m.frame pgdir
  pub refs : (p : ℕ) → m.pp_ref p ≡ ext p + dir_refs m.frame pgdir p
  pub held : 0 < ext pgdir

-- `p` may be mapped in the directory: it is in use elsewhere or just allocated, with room for one
-- more reference in its 16-bit count.
pub record IsMappable (m : Pmem) (pgdir p : ℕ) : Type 0 where
  pub page : IsData m.npage m.frame pgdir p
  pub taken : has p m.page_free_list ≡ false
  pub room : m.pp_ref p < 2 ^ 16 - 1
