-- ===== src/Pmap.antt =====
-- kern/pmap.c: physical pages and two-level page tables. The pages are numbered, `struct Page *`
-- is a page number and `page_free_list` the sequence of its elements; `frame p` is the content of
-- physical page `p` as 1024 words of 32 bits. A `Pde *` is the page that holds the directory, a
-- `Pte *` a page and an index in it. `tlb` records the arguments of `tlb_out`, latest first.
pub mod Alloc
pub mod Space
pub mod Walk
pub mod Change
mod Tests
pub mod Empty
pub mod Correct
pub mod Insert
pub mod Replace
pub mod Mapping
pub mod Fresh
pub mod Remove
pub mod Refs
pub mod Table
pub mod Handed
use buaa_os_25spring.Prelude.{
  ℕ, ◌+◌, ◌-◌, ◌*◌, ◌/◌, ◌%◌, ◌^◌, Bool, true, false, not, ◌&&◌, Option, none, some, List, [], ◌∷◌,
  ltb, leb, ◌==◌, if◌then◌else◌, bit_or,
}
use buaa_os_25spring.Exec.{
  Run, ok, fail, panic, Error, e_no_mem, Cmd, pure, throw, get, modify, halt, assert, ◌>>=◌, ◌>>◌,
}
use buaa_os_25spring.Mmu.{
  pdx, ptx, ppn, pte_addr, pte_v, pte_c_cacheable, is_valid, page2pa, entry, page_size,
}

pub record Pmem : Type 0 where
  pub npage : ℕ
  pub page_free_list : List ℕ
  pub pp_ref : ℕ → ℕ
  pub frame : ℕ → ℕ → ℕ
  pub tlb : List ℕ

-- `Pte *`: the page that holds the table, and the index.
abbrev pub PtePtr : Type 0
PtePtr = ℕ × ℕ

abbrev pub MemCmd : Type 0 → Type 0
MemCmd = Cmd Pmem

abbrev pub update : (ℕ → ℕ) → ℕ → ℕ → ℕ → ℕ
update f p v q = if q == p then v else f q

abbrev pub update_word : (ℕ → ℕ → ℕ) → ℕ → ℕ → ℕ → ℕ → ℕ → ℕ
update_word f p i v q j = if q == p && j == i then v else f q j

abbrev pub fill : (ℕ → ℕ → ℕ) → ℕ → ℕ → ℕ → ℕ → ℕ
fill f p v q j = if q == p then v else f q j

-- `*pte`
unfoldable pub load : PtePtr → MemCmd ℕ
load (p, i) m = ok (m.frame p i) m

-- `*pte = v`
unfoldable pub store : PtePtr → ℕ → MemCmd (Unit {0})
store (p, i) v m = ok tt (record m { frame = update_word m.frame p i v })

-- `KADDR(pa)`, as a page number: it panics beyond the physical memory.
unfoldable pub kaddr_page : ℕ → MemCmd ℕ
kaddr_page p m = if ltb p m.npage then ok p m else panic

-- `pa2page(pa)`: it panics beyond the physical memory.
unfoldable pub pa2page : ℕ → MemCmd ℕ
pa2page pa m = if ltb (ppn pa) m.npage then ok (ppn pa) m else panic

-- `(pp->pp_ref)++` on a `u_short`.
unfoldable pub ref_inc : ℕ → MemCmd (Unit {0})
ref_inc pp m = ok tt (record m { pp_ref = update m.pp_ref pp ((m.pp_ref pp + 1) % 2 ^ 16) })

-- `tlb_out((va & ~GENMASK(PGSHIFT, 0)) | (asid & (NASID - 1)))`
unfoldable pub tlb_invalidate : ℕ → ℕ → MemCmd (Unit {0})
tlb_invalidate asid va m =
    ok tt (record m { tlb = bit_or (va / 2 ^ 13 * 2 ^ 13) (asid % 256) ∷ m.tlb })

unfoldable pub page_alloc : MemCmd ℕ
unfolding kaddr_page
page_alloc m = elim m.page_free_list [
  | [] ↦ fail e_no_mem m
  | pp ∷ rest ↦
      (do
        modify (λ s. record s { page_free_list = rest })
        p ← kaddr_page pp
        modify (λ s. record s { frame = fill s.frame p 0 })
        pure pp)
        m
]

unfoldable pub page_free : ℕ → MemCmd (Unit {0})
page_free pp m =
    (do
      assert (m.pp_ref pp == 0)
      modify (λ s. record s { page_free_list = pp ∷ s.page_free_list }))
      m

unfoldable pub page_decref : ℕ → MemCmd (Unit {0})
unfolding page_free
page_decref pp m =
    (do
      assert (ltb 0 (m.pp_ref pp))
      modify (λ s. record s { pp_ref = update s.pp_ref pp (s.pp_ref pp - 1) })
      if m.pp_ref pp - 1 == 0 then page_free pp else pure tt)
      m

-- Gives the directory entry at `pde` a fresh page table.
unfoldable pub create_table : PtePtr → MemCmd ℕ
unfolding page_alloc ref_inc store kaddr_page
create_table pde = do
  pp ← page_alloc
  ref_inc pp
  store pde (bit_or (bit_or (page2pa pp) pte_c_cacheable) pte_v)
  kaddr_page pp

unfoldable pub pgdir_walk : ℕ → ℕ → Bool → MemCmd (Option PtePtr)
unfolding load kaddr_page
pgdir_walk pgdir va create = do
  e ← load (pgdir, pdx va)
  if not (is_valid e)
      then (if create
          then (do p ← create_table (pgdir, pdx va); pure (some (p, ptx va)))
          else pure none)
      else (do p ← kaddr_page (ppn (pte_addr e)); pure (some (p, ptx va)))

-- The page mapped at `va`, with its page table entry.
unfoldable pub page_lookup : ℕ → ℕ → MemCmd (Option (ℕ × PtePtr))
unfolding load pa2page
page_lookup pgdir va = do
  found ← pgdir_walk pgdir va false
  elim found [
    | none ↦ pure none
    | some p ↦ do
      e ← load p
      if not (is_valid e) then pure none else (do pp ← pa2page e; pure (some (pp, p)))
  ]

unfoldable pub page_remove : ℕ → ℕ → ℕ → MemCmd (Unit {0})
unfolding store tlb_invalidate
page_remove pgdir asid va = do
  found ← page_lookup pgdir va
  elim found [
    | none ↦ pure tt
    | some (pp, p) ↦ do page_decref pp; store p 0; tlb_invalidate asid va
  ]

-- Steps 2 to 4 of `page_insert`.
unfoldable pub insert_new : ℕ → ℕ → ℕ → ℕ → ℕ → MemCmd (Unit {0})
unfolding tlb_invalidate ref_inc store
insert_new pgdir asid pp va perm = do
  tlb_invalidate asid va
  found ← pgdir_walk pgdir va true
  elim found [ none ↦ halt | some p ↦ do ref_inc pp; store p (entry pp perm) ]

unfoldable pub page_insert : ℕ → ℕ → ℕ → ℕ → ℕ → MemCmd (Unit {0})
unfolding load pa2page tlb_invalidate store
page_insert pgdir asid pp va perm = do
  found ← pgdir_walk pgdir va false
  elim found [
    | none ↦ insert_new pgdir asid pp va perm
    | some p ↦ do
      e ← load p
      if not (is_valid e) then insert_new pgdir asid pp va perm else (do
        old ← pa2page e
        if old == pp
            then (do tlb_invalidate asid va; store p (entry pp perm))
            else (do page_remove pgdir asid va; insert_new pgdir asid pp va perm))
  ]

-- The physical address at `va`, or `~0` where nothing is mapped.
unfoldable pub va2pa : ℕ → ℕ → MemCmd ℕ
unfolding load kaddr_page
va2pa pgdir va = do
  d ← load (pgdir, pdx va)
  if not (is_valid d) then pure (2 ^ 32 - 1) else (do
    p ← kaddr_page (ppn (pte_addr d))
    e ← load (p, ptx va)
    if not (is_valid e) then pure (2 ^ 32 - 1) else pure (pte_addr e))
