-- ===== src/Pmap/Tests.antt =====
-- Runs of kern/pmap.c on a small memory, and the theorems at it: page 1 is an empty directory,
-- page 2 is allocated and not yet mapped, pages 3 to 5 are free.
use buaa_os_25spring.Prelude.{
  ℕ, ◌≡◌, refl, none, some, [], ◌∷◌, arith, ◌==◌, if◌then◌else◌, ◌-◌, ◌<◌, ◌^◌,
}
use buaa_os_25spring.Exec.{ok, e_no_mem}
use buaa_os_25spring.Exec.Ends.{Ends}
use buaa_os_25spring.Mmu.{entry, utop, pte_addr, pdx, ptx, ppn, is_valid, page2pa}
use buaa_os_25spring.Pmap.{
  Pmem, PtePtr, page_alloc, page_insert, page_remove, page_lookup, va2pa, pgdir_walk, create_table,
  insert_new,
}
use buaa_os_25spring.Pmap.Space.{IsGood, IsFreeList, IsMappable, translate}
use buaa_os_25spring.Pmap.Empty.{empty-IsGood}
use buaa_os_25spring.Pmap.Alloc.{HandedOut, page_alloc_lem}
use buaa_os_25spring.Pmap.Correct.{
  UpdatedAt, page_insert_total, page_insert-ok, page_remove_total, page_lookup-page_insert,
  va2pa_lem,
}
use buaa_os_25spring.Pmap.Mapping.{mapped}
use buaa_os_25spring.Pmap.Walk.{with_table}
use buaa_os_25spring.Pmap.Insert.{flush}

abbrev small : Pmem
small = record {
  npage = 6;
  page_free_list = 3 ∷ 4 ∷ 5 ∷ [];
  pp_ref = λ p. if p == 1 then 1 else 0;
  frame = λ p i. 0;
  tlb = [];
}

abbrev va : ℕ
va = 0x400000

abbrev inserted : Pmem
inserted = mapped (with_table (flush 7 va small) 1 (pdx va) 3 (4 ∷ 5 ∷ [])) 1 va 2 0x100

insert_runs : page_insert 1 7 2 va 0x100 small ≡ ok tt inserted
unfolding page_insert insert_new pgdir_walk create_table page_alloc pdx ptx ppn is_valid page2pa
    entry
insert_runs = refl

-- An address inside the page that was mapped.
va2pa_runs : va2pa 1 0x400abc inserted ≡ ok 0x2000 inserted
unfolding va2pa pdx ptx ppn is_valid page2pa entry pte_addr
va2pa_runs = refl

small-IsFreeList : IsFreeList small
small-IsFreeList = record {
  below = λ p h. ground arith;
  unused = λ p h. ground arith;
  distinct = (refl, (refl, (refl, tt)));
}

small-IsGood : IsGood small.pp_ref 1 small
unfolding is_valid
small-IsGood = empty-IsGood 1 small small-IsFreeList (omega arith) (omega arith) (λ k hk. refl)

two-IsMappable : IsMappable small 1 2
unfolding is_valid
two-IsMappable = record {
  page = record { within = omega arith; ne_dir = omega arith; ne_table = λ i hi d. cc };
  taken = refl;
  room = omega arith;
}

small_allocates :
    Ends
      (HandedOut small)
      (λ e m'. (e ≡ e_no_mem) × (m' ≡ small) × (small.page_free_list ≡ []))
      (page_alloc small)
small_allocates = page_alloc_lem small small-IsFreeList

page_insert_total_example :
    Ends
      (λ _ m'. IsGood small.pp_ref 1 m' × UpdatedAt 1 va (some (entry 2 0x100)) small m')
      (λ e m'.
        (e ≡ e_no_mem)
        × (small.page_free_list ≡ [])
        × IsGood small.pp_ref 1 m'
        × ((vb : ℕ) → vb < utop → translate m'.frame 1 vb ≡ translate small.frame 1 vb))
      (page_insert 1 7 2 va 0x100 small)
page_insert_total_example =
    page_insert_total small.pp_ref 1 7 va 2 0x100 small (omega arith) (omega arith) small-IsGood
      two-IsMappable

inserted-IsGood : IsGood small.pp_ref 1 inserted
inserted-IsGood =
    (page_insert-ok small.pp_ref 1 7 va 2 0x100 small inserted (omega arith) (omega arith)
      small-IsGood two-IsMappable insert_runs).0

page_remove_total_example :
    (m' : Pmem) × (page_remove 1 7 va inserted ≡ ok tt m')
    × IsGood small.pp_ref 1 m'
    × UpdatedAt 1 va none inserted m'
page_remove_total_example =
    page_remove_total small.pp_ref 1 7 va inserted (omega arith) inserted-IsGood

page_lookup-page_insert_example :
    (p : PtePtr) × (page_lookup 1 va inserted ≡ ok (some (2, p)) inserted)
page_lookup-page_insert_example =
    page_lookup-page_insert small.pp_ref 1 7 va 2 0x100 small inserted (omega arith) (omega arith)
      small-IsGood two-IsMappable insert_runs

inserted_address :
    va2pa 1 va inserted
    ≡ ok (elim (translate inserted.frame 1 va) [ none ↦ 2 ^ 32 - 1 | some e ↦ pte_addr e ]) inserted
inserted_address = va2pa_lem 1 va inserted (omega arith) inserted-IsGood.space
