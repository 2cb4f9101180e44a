-- ===== src/Pmap/Replace.antt =====
-- page_insert of kern/pmap.c on every branch: nothing is mapped at `va`, the page itself is, or
-- another page is, which is removed first.
use buaa_os_25spring.Prelude.{
  ℕ, ◌^◌, ◌<◌, ◌≡◌, ◌≢◌, ◌∙◌, true, false, ◌&&◌, none, some, arith, ◌==◌, if◌then◌else◌, ==_self,
  ==_ne, Bool-cases, inl, inr, ℕ_discrete, lt→ltb,
}
use buaa_os_25spring.Exec.Ends.{Ends}
use buaa_os_25spring.Mmu.{pdx, ptx, ppn, is_valid, entry, ptx-lt}
use buaa_os_25spring.Pmap.{Pmem, page_insert}
use buaa_os_25spring.Pmap.Space.{IsGood, IsMappable, pde, pte, translate, user_tables}
use buaa_os_25spring.Pmap.Walk.{pgdir_walk-missing, pgdir_walk-found}
use buaa_os_25spring.Pmap.Mapping.{translate-with_entry, remapped-IsGood}
use buaa_os_25spring.Pmap.Change.{IsData-same, written-same}
use buaa_os_25spring.Pmap.Remove.{unmapped, page_remove-some, unmapped-IsGood, translate-unmapped}
use buaa_os_25spring.Pmap.Insert.{
  flush-IsGood, Inserted, OutOfMemory, insert_new_lem, insert_new-found, found-Inserted,
}

module _ (ext : ℕ → ℕ) (pgdir asid va pp perm : ℕ) (user : pdx va < user_tables)
    (small : perm < 2 ^ 12) (m : Pmem) (good : IsGood ext pgdir m)
    (may : IsMappable m pgdir pp) where
  abbrev Goal : Type 0
  Goal =
      Ends (λ _. Inserted ext pgdir va (entry pp perm) m) (OutOfMemory ext pgdir m)
        (page_insert pgdir asid pp va perm m)

  insert-no_table : is_valid (pde m.frame pgdir (pdx va)) ≡ false → Goal
  unfolding page_insert
  insert-no_table d =
      rw (pgdir_walk-missing m pgdir va d)
        (insert_new_lem ext pgdir asid va pp perm user small m good may (rw d))

  module _ (d : is_valid (pde m.frame pgdir (pdx va)) ≡ true) where
    insert-empty : is_valid (pte m.frame pgdir (pdx va) (ptx va)) ≡ false → Goal
    unfolding page_insert
    insert-empty v =
        rw (pgdir_walk-found m pgdir va good.space user false d, v)
          (insert_new_lem ext pgdir asid va pp perm user small m good may (rw (d, v)))

    module _ (v : is_valid (pte m.frame pgdir (pdx va) (ptx va)) ≡ true) where
      abbrev old : ℕ
      old = ppn (pte m.frame pgdir (pdx va) (ptx va))

      old_within : old < m.npage
      old_within = (good.space.data_page (pdx va) (ptx va) user (ptx-lt va) d v).within

      insert-same : old ≡ pp → Goal
      unfolding page_insert
      insert-same e =
          rw
            (
              pgdir_walk-found m pgdir va good.space user false d,
              v,
              lt→ltb _ _ old_within,
              e,
              ==_self pp,
            )
            (
              flush-IsGood ext pgdir asid va _
                  (remapped-IsGood ext pgdir va m pp perm good user small may.page d v e),
              translate-with_entry ext pgdir va m pp perm good user small may.page d,
            )

      mapped_here : translate m.frame pgdir va ≡ some (pte m.frame pgdir (pdx va) (ptx va))
      mapped_here = rw (d, v)

      abbrev m₁ : Pmem
      m₁ = unmapped m pgdir asid va (pte m.frame pgdir (pdx va) (ptx va))

      good₁ : IsGood ext pgdir m₁
      good₁ = unmapped-IsGood ext pgdir asid va m good user _ mapped_here

      same_dir : (k : ℕ) → k < user_tables → m₁.frame pgdir k ≡ m.frame pgdir k
      same_dir = written-same m.npage m.frame pgdir (pdx va) (ptx va) 0 good.space user d

      d₁ : is_valid (pde m₁.frame pgdir (pdx va)) ≡ true
      d₁ = rw (same_dir (pdx va) user) d

      may₁ : old ≢ pp → IsMappable m₁ pgdir pp
      may₁ ne = record {
        page = IsData-same m.npage m.frame m₁.frame pgdir same_dir pp may.page;
        taken = ground (arith, may.taken);
        room = ground (arith, may.room);
      }

      at_va : translate m₁.frame pgdir va ≡ none
      at_va =
          translate-unmapped ext pgdir asid va m good user _ mapped_here va user
          ∙ rw (==_self (pdx va), ==_self (ptx va))

      -- Removing first and writing then says the same of every address.
      at_other :
          (vb : ℕ)
          → pdx vb < user_tables
          → (if pdx vb == pdx va && ptx vb == ptx va
              then some (entry pp perm)
              else translate m₁.frame pgdir vb)
            ≡ (if pdx vb == pdx va && ptx vb == ptx va
                then some (entry pp perm)
                else translate m.frame pgdir vb)
      at_other vb hb =
          rw (translate-unmapped ext pgdir asid va m good user _ mapped_here vb hb)
            (elim (Bool-cases (pdx vb == pdx va && ptx vb == ptx va)) [
              | inl e ↦ rw e
              | inr e ↦ rw e
            ])

      insert-other : old ≢ pp → Goal
      unfolding page_insert
      insert-other ne =
          let (good₂, maps₂) =
            found-Inserted ext pgdir asid va pp perm user small m₁ good₁ (may₁ ne) at_va d₁ in
          rw
            (
              pgdir_walk-found m pgdir va good.space user false d,
              v,
              lt→ltb _ _ old_within,
              ==_ne old pp ne,
              page_remove-some ext pgdir asid va m good user _ mapped_here,
              insert_new-found ext pgdir asid va pp perm user small m₁ good₁ (may₁ ne) at_va d₁,
            )
            (good₂, λ vb hb. maps₂ vb hb ∙ at_other vb hb)

  -- `page_insert` on every branch.
  pub page_insert_lem : Goal
  page_insert_lem = elim (Bool-cases (is_valid (pde m.frame pgdir (pdx va)))) [
    | inr d ↦ insert-no_table d
    | inl d ↦ elim (Bool-cases (is_valid (pte m.frame pgdir (pdx va) (ptx va)))) [
      | inr v ↦ insert-empty d v
      | inl v ↦ elim (ℕ_discrete (old d v) pp) [
        | yes e ↦ insert-same d v e
        | no ne ↦ insert-other d v ne
      ]
    ]
  ]
