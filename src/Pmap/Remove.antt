-- ===== src/Pmap/Remove.antt =====
-- page_remove of kern/pmap.c: the page is no longer mapped, and its reference is given back.
use buaa_os_25spring.Prelude.{
  ℕ, ◌+◌, ◌*◌, ◌/◌, ◌%◌, ◌^◌, ◌<◌, ◌≡◌, true, ◌&&◌, none, some, ◌∷◌, arith, ◌==◌, if◌then◌else◌,
  ◌∙◌, bit_or,
}
use buaa_os_25spring.Exec.{ok}
use buaa_os_25spring.Mmu.{pdx, ptx, ppn, is_valid, ptx-lt, not-is_valid-zero}
use buaa_os_25spring.Pmap.{Pmem, update_word, page_remove}
use buaa_os_25spring.Pmap.Alloc.{released, page_decref-ok, released-IsFreeList}
use buaa_os_25spring.Pmap.Space.{
  IsFreeList, IsGood, pde, pte, table, translate, user_tables, dir_refs, ref_of,
}
use buaa_os_25spring.Pmap.Walk.{page_lookup-some, page_lookup-none, slot-some}
use buaa_os_25spring.Pmap.Change.{
  slot-change, dir_refs-change, written-same, written-entry, IsSpace-written,
}
use buaa_os_25spring.Pmap.Refs.{page_used}

-- The argument of `tlb_out` for an address.
abbrev pub flushed : ℕ → ℕ → ℕ
flushed asid va = bit_or (va / 2 ^ 13 * 2 ^ 13) (asid % 256)

-- The memory after the entry `e` that maps `va` is removed.
abbrev pub unmapped : Pmem → ℕ → ℕ → ℕ → ℕ → Pmem
unmapped m pgdir asid va e = record (released m (ppn e)) {
  frame = update_word m.frame (table m.frame pgdir (pdx va)) (ptx va) 0;
  tlb = flushed asid va ∷ m.tlb;
}

module _ (ext : ℕ → ℕ) (pgdir asid va : ℕ) (m : Pmem) (good : IsGood ext pgdir m)
    (user : pdx va < user_tables) where
  pub page_remove-none : translate m.frame pgdir va ≡ none → page_remove pgdir asid va m ≡ ok tt m
  unfolding page_remove
  page_remove-none h = simp (page_lookup-none m pgdir va good.space user h)

  module _ (e : ℕ) (h : translate m.frame pgdir va ≡ some e) where
    used : 0 < m.pp_ref (ppn e)
    used = page_used ext pgdir m good (pdx va) (ptx va) e user (ptx-lt va) h

    pub page_remove-some : page_remove pgdir asid va m ≡ ok tt (unmapped m pgdir asid va e)
    unfolding page_remove
    page_remove-some =
        simp (page_lookup-some m pgdir va good.space user e h, page_decref-ok m (ppn e) used)

    here :
        (is_valid (pde m.frame pgdir (pdx va)) ≡ true)
        × (is_valid (pte m.frame pgdir (pdx va) (ptx va)) ≡ true)
        × (pte m.frame pgdir (pdx va) (ptx va) ≡ e)
    here = slot-some m.frame pgdir (pdx va) (ptx va) e h

    abbrev after : ℕ → ℕ → ℕ
    after = (unmapped m pgdir asid va e).frame

    pub translate-unmapped :
        (vb : ℕ)
        → pdx vb < user_tables
        → translate (unmapped m pgdir asid va e).frame pgdir vb
          ≡ (if pdx vb == pdx va && ptx vb == ptx va then none else translate m.frame pgdir vb)
    translate-unmapped vb hb =
        slot-change m.frame after pgdir (pdx va) (ptx va) 0 user (ptx-lt va) here.0
          (written-same m.npage m.frame pgdir (pdx va) (ptx va) 0 good.space user here.0)
          (written-entry m.npage m.frame pgdir (pdx va) (ptx va) 0 good.space user here.0) (pdx vb)
          (ptx vb) hb
        ∙ rw not-is_valid-zero

    left : IsFreeList (released m (ppn e))
    left = released-IsFreeList m (ppn e) good.free within used
      where
        within : ppn e < m.npage
        within =
            rw (← here.2)
              ((good.space.data_page (pdx va) (ptx va) user (ptx-lt va) here.0 here.1).within)

    refs_change :
        (p : ℕ)
        → dir_refs after pgdir p + ref_of p (pte m.frame pgdir (pdx va) (ptx va))
          ≡ dir_refs m.frame pgdir p + ref_of p 0
    refs_change =
        dir_refs-change m.frame after pgdir (pdx va) (ptx va) 0 user (ptx-lt va) here.0
          (written-same m.npage m.frame pgdir (pdx va) (ptx va) 0 good.space user here.0)
          (written-entry m.npage m.frame pgdir (pdx va) (ptx va) 0 good.space user here.0)

    pub unmapped-IsGood : IsGood ext pgdir (unmapped m pgdir asid va e)
    unmapped-IsGood = record {
      free = record { below = left.below; unused = left.unused; distinct = left.distinct };
      space =
          IsSpace-written m.npage m.frame pgdir (pdx va) (ptx va) 0 good.space user here.0
            (λ v. absurd (ground (arith, not-is_valid-zero)));
      refs = λ p. ground (arith, good.refs p, used, not-is_valid-zero, here, refs_change p);
      held = good.held;
    }
