-- ===== src/Tlb/Tests.antt =====
-- A refill at the start of the program text, in a memory of six pages whose directory is empty.
use buaa_os_25spring.Prelude.{ℕ, ◌≡◌, refl, some, [], ◌∷◌, arith, ◌==◌, if◌then◌else◌}
use buaa_os_25spring.Exec.{ok}
use buaa_os_25spring.Mmu.{is_valid, entry, pte_d}
use buaa_os_25spring.Pmap.{Pmem}
use buaa_os_25spring.Pmap.Space.{IsGood, IsFreeList}
use buaa_os_25spring.Pmap.Empty.{empty-IsGood}
use buaa_os_25spring.Tlb.{do_tlb_refill}
use buaa_os_25spring.Tlb.Refill.{Refilled, do_tlb_refill_lem}

abbrev six_pages : Pmem
six_pages = record {
  npage = 6;
  page_free_list = 3 ∷ 4 ∷ 5 ∷ [];
  pp_ref = λ p. if p == 1 then 1 else 0;
  frame = λ p i. 0;
  tlb = [];
}

six_pages-IsFreeList : IsFreeList six_pages
six_pages-IsFreeList = record {
  below = λ p h. ground arith;
  unused = λ p h. ground arith;
  distinct = (refl, (refl, (refl, tt)));
}

six_pages-IsGood : IsGood six_pages.pp_ref 1 six_pages
unfolding is_valid
six_pages-IsGood =
    empty-IsGood 1 six_pages six_pages-IsFreeList (omega arith) (omega arith) (λ k hk. refl)

do_tlb_refill_lem_example :
    (r : ℕ × ℕ) × (m' : Pmem) × (do_tlb_refill 2 1 0x401234 7 six_pages ≡ ok (some r) m')
    × Refilled six_pages.pp_ref 1 0x401234 (entry 3 pte_d) six_pages r m'
unfolding is_valid
do_tlb_refill_lem_example =
    do_tlb_refill_lem six_pages.pp_ref 0 1 7 0x401234 3 4 (5 ∷ []) six_pages (omega arith)
      (omega arith) six_pages-IsGood refl
