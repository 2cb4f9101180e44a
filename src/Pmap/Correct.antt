-- ===== src/Pmap/Correct.antt =====
-- What kern/pmap.c promises of an address space: insertion, lookup and removal are those of a
-- finite map from virtual pages to page table entries, and the reference counts are exact.
use mathlib.Core.Path.{subst}
use buaa_os_25spring.Prelude.{
  ℕ, ◌-◌, ◌/◌, ◌^◌, ◌<◌, ◌≡◌, ap, ◌∙◌, ◌&&◌, Option, none, some, arith, ◌==◌, if◌then◌else◌,
  Option-cases, inl, inr, ==_self, ==_iff, Bool-cases, [], lt→ltb,
}
use buaa_os_25spring.Exec.{Run, ok, fail, panic, e_no_mem}
use buaa_os_25spring.Exec.Ends.{Ends}
use buaa_os_25spring.Mmu.{
  pdx, ptx, entry, ppn-entry, ppn-pte_addr, same_page, page_fields, utop, pte_addr, pdx-lt_user,
  is_valid,
}
use buaa_os_25spring.Pmap.{Pmem, PtePtr, page_insert, page_remove, page_lookup, va2pa}
use buaa_os_25spring.Pmap.Space.{IsGood, IsSpace, IsMappable, translate, pde, pte, table}
use buaa_os_25spring.Pmap.Walk.{page_lookup-some}
use buaa_os_25spring.Pmap.Remove.{
  unmapped, page_remove-none, page_remove-some, unmapped-IsGood, translate-unmapped,
}
use buaa_os_25spring.Pmap.Insert.{Inserted, OutOfMemory}
use buaa_os_25spring.Pmap.Replace.{page_insert_lem}

-- The address space of `m'` is that of `m` but at the page of `va`.
abbrev pub UpdatedAt : ℕ → ℕ → Option ℕ → Pmem → Pmem → Type 0
UpdatedAt pgdir va e m m' =
    (vb : ℕ)
    → vb < utop
    → translate m'.frame pgdir vb
      ≡ (if vb / 2 ^ 12 == va / 2 ^ 12 then e else translate m.frame pgdir vb)

by_page :
    (va : ℕ)
    → va < utop
    → (vb : ℕ) → vb < utop
    → (x y : Option ℕ)
    → (if pdx vb == pdx va && ptx vb == ptx va then x else y)
      ≡ (if vb / 2 ^ 12 == va / 2 ^ 12 then x else y)
by_page va ha vb hb x y = ap (λ b. if b then x else y) (same_page vb va (omega arith) (omega arith))

unmapped_already :
    (pgdir va : ℕ) (m : Pmem) → translate m.frame pgdir va ≡ none → UpdatedAt pgdir va none m m
unmapped_already pgdir va m h vb hb = elim (Bool-cases (vb / 2 ^ 12 == va / 2 ^ 12)) [
  | inl e ↦ let (p, q) = page_fields vb va ((==_iff _ _).0 e) in rw (e, p, q) h
  | inr e ↦ rw e
]

-- `page_insert` of a page that may be mapped never panics. On success the user address space is
-- updated at the page of `va` only, to the new entry; it fails only with -E_NO_MEM, when no page
-- is free, and then translates every user address as before. Either way the free list, the
-- directory and the exact reference counts stay well-formed.
pub page_insert_total :
    (ext : ℕ → ℕ) (pgdir asid va pp perm : ℕ) (m : Pmem)
    → va < utop
    → perm < 2 ^ 12
    → IsGood ext pgdir m
    → IsMappable m pgdir pp
    → Ends
        (λ _ m'. IsGood ext pgdir m' × UpdatedAt pgdir va (some (entry pp perm)) m m')
        (λ e m'.
          (e ≡ e_no_mem)
          × (m.page_free_list ≡ [])
          × IsGood ext pgdir m'
          × ((vb : ℕ) → vb < utop → translate m'.frame pgdir vb ≡ translate m.frame pgdir vb))
        (page_insert pgdir asid pp va perm m)
page_insert_total ext pgdir asid va pp perm m user small good may =
    weaken (page_insert pgdir asid pp va perm m)
      (page_insert_lem ext pgdir asid va pp perm (pdx-lt_user va user) small m good may)
  where
    weaken :
        (r : Run Pmem (Unit {0}))
        → Ends (λ _. Inserted ext pgdir va (entry pp perm) m) (OutOfMemory ext pgdir m) r
        → Ends
            (λ _ m'. IsGood ext pgdir m' × UpdatedAt pgdir va (some (entry pp perm)) m m')
            (λ e m'.
              (e ≡ e_no_mem)
              × (m.page_free_list ≡ [])
              × IsGood ext pgdir m'
              × ((vb : ℕ) → vb < utop → translate m'.frame pgdir vb ≡ translate m.frame pgdir vb))
            r
    weaken (ok a s) (g, maps) = (
      g,
      λ vb hb.
          maps vb (pdx-lt_user vb hb)
          ∙ by_page va user vb hb (some (entry pp perm)) (translate m.frame pgdir vb),
    )
    weaken (fail e s) (c, f, g, same) = (c, f, g, λ vb hb. same vb (pdx-lt_user vb hb))
    weaken panic h = h

-- `page_remove` always succeeds: afterwards no address of the page of `va` is mapped, every other
-- user address is translated as before, and the counts are exact.
pub page_remove_total :
    (ext : ℕ → ℕ) (pgdir asid va : ℕ) (m : Pmem)
    → va < utop
    → IsGood ext pgdir m
    → (m' : Pmem) × (page_remove pgdir asid va m ≡ ok tt m')
      × IsGood ext pgdir m'
      × UpdatedAt pgdir va none m m'
page_remove_total ext pgdir asid va m user good = elim (Option-cases (translate m.frame pgdir va)) [
  | inl h ↦ (
    m,
    page_remove-none ext pgdir asid va m good (pdx-lt_user va user) h,
    good,
    unmapped_already pgdir va m h,
  )
  | inr (e, h) ↦ (
    unmapped m pgdir asid va e,
    page_remove-some ext pgdir asid va m good (pdx-lt_user va user) e h,
    unmapped-IsGood ext pgdir asid va m good (pdx-lt_user va user) e h,
    λ vb hb.
        translate-unmapped ext pgdir asid va m good (pdx-lt_user va user) e h vb (pdx-lt_user vb hb)
        ∙ by_page va user vb hb none (translate m.frame pgdir vb),
  )
]

-- What a successful run leaves.
pub page_insert-ok :
    (ext : ℕ → ℕ) (pgdir asid va pp perm : ℕ) (m m' : Pmem)
    → va < utop
    → perm < 2 ^ 12
    → IsGood ext pgdir m
    → IsMappable m pgdir pp
    → page_insert pgdir asid pp va perm m ≡ ok tt m'
    → IsGood ext pgdir m' × UpdatedAt pgdir va (some (entry pp perm)) m m'
page_insert-ok ext pgdir asid va pp perm m m' user small good may e =
    subst
      (Ends (λ _ s. IsGood ext pgdir s × UpdatedAt pgdir va (some (entry pp perm)) m s)
        (λ e s.
          (e ≡ e_no_mem)
          × (m.page_free_list ≡ [])
          × IsGood ext pgdir s
          × ((vb : ℕ) → vb < utop → translate s.frame pgdir vb ≡ translate m.frame pgdir vb)))
      e (page_insert_total ext pgdir asid va pp perm m user small good may)

-- After a successful `page_insert`, `page_lookup` at the address finds the page that was put there.
pub page_lookup-page_insert :
    (ext : ℕ → ℕ) (pgdir asid va pp perm : ℕ) (m m' : Pmem)
    → va < utop
    → perm < 2 ^ 12
    → IsGood ext pgdir m
    → IsMappable m pgdir pp
    → page_insert pgdir asid pp va perm m ≡ ok tt m'
    → (p : PtePtr) × (page_lookup pgdir va m' ≡ ok (some (pp, p)) m')
page_lookup-page_insert ext pgdir asid va pp perm m m' user small good may e =
    let (good', maps) = page_insert-ok ext pgdir asid va pp perm m m' user small good may e in
    let here = maps va user ∙ rw (==_self (va / 2 ^ 12)) in
    (
      (table m'.frame pgdir (pdx va), ptx va),
      page_lookup-some m' pgdir va good'.space (pdx-lt_user va user) (entry pp perm) here
          ∙ rw (ppn-entry pp perm small),
    )

-- `va2pa` agrees with the translation: the frame address of the entry, or `~0` where there is none.
pub va2pa_lem :
    (pgdir va : ℕ) (m : Pmem)
    → va < utop
    → IsSpace m.npage m.frame pgdir
    → va2pa pgdir va m
      ≡ ok (elim (translate m.frame pgdir va) [ none ↦ 2 ^ 32 - 1 | some e ↦ pte_addr e ]) m
unfolding va2pa
va2pa_lem pgdir va m user s = elim (Bool-cases (is_valid (pde m.frame pgdir (pdx va)))) [
  | inr d ↦ rw d
  | inl d ↦ elim (Bool-cases (is_valid (pte m.frame pgdir (pdx va) (ptx va)))) [
    | inl v ↦
        simp (d, ppn-pte_addr, lt→ltb _ m.npage (s.table_in (pdx va) (pdx-lt_user va user) d), v)
    | inr v ↦
        simp (d, ppn-pte_addr, lt→ltb _ m.npage (s.table_in (pdx va) (pdx-lt_user va user) d), v)
  ]
]
