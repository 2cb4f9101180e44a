-- ===== src/Pmap/Insert.antt =====
-- page_insert of kern/pmap.c: afterwards `va` maps to the page, every other page of the address
-- space is as before, and the reference counts are exact; or there was no memory for the table.
use mathlib.Core.Path.{subst}
use buaa_os_25spring.Prelude.{
  Bool-cases, inl, inr, ℕ, ◌^◌, ◌<◌, ◌≡◌, refl, ap, ◌∙◌, true, false, ◌&&◌, none, some, List, [],
  ◌∷◌, ◌==◌, if◌then◌else◌,
}
use buaa_os_25spring.Exec.{ok, Error, e_no_mem, ◌>>◌}
use buaa_os_25spring.Exec.Ends.{Ends}
use buaa_os_25spring.Mmu.{pdx, ptx, is_valid, entry}
use buaa_os_25spring.Pmap.{Pmem, insert_new, ref_inc, store}
use buaa_os_25spring.Pmap.Space.{IsGood, IsMappable, pde, slot, translate, user_tables}
use buaa_os_25spring.Pmap.Walk.{
  pgdir_walk-full, pgdir_walk-new, pgdir_walk-found, with_table, slot-none,
}
use buaa_os_25spring.Pmap.Fresh.{
  slot-with_table, with_table-IsGood, IsMappable-with_table, valid-with_table, table-with_table,
  first_within,
}
use buaa_os_25spring.Pmap.Mapping.{mapped, mapped-IsGood, translate-with_entry}
use buaa_os_25spring.Pmap.Remove.{flushed}

-- A flush of the TLB leaves the rest of the memory alone.
abbrev pub flush : ℕ → ℕ → Pmem → Pmem
flush asid va m = record m { tlb = flushed asid va ∷ m.tlb }

pub flush-IsGood :
    (ext : ℕ → ℕ) (pgdir asid va : ℕ) (m : Pmem)
    → IsGood ext pgdir m
    → IsGood ext pgdir (flush asid va m)
flush-IsGood ext pgdir asid va m good = record {
  free = record {
    below = good.free.below;
    unused = good.free.unused;
    distinct = good.free.distinct;
  };
  space = good.space;
  refs = good.refs;
  held = good.held;
}

-- The directory of `m'` is that of `m` with `va` mapped by `e`.
abbrev pub Maps : ℕ → ℕ → ℕ → Pmem → Pmem → Type 0
Maps pgdir va e m m' =
    (vb : ℕ)
    → pdx vb < user_tables
    → translate m'.frame pgdir vb
      ≡ (if pdx vb == pdx va && ptx vb == ptx va then some e else translate m.frame pgdir vb)

abbrev pub Unchanged : ℕ → Pmem → Pmem → Type 0
Unchanged pgdir m m' =
    (vb : ℕ) → pdx vb < user_tables → translate m'.frame pgdir vb ≡ translate m.frame pgdir vb

-- What `page_insert` leaves on success, and where there is no page for the table.
abbrev pub Inserted : (ℕ → ℕ) → ℕ → ℕ → ℕ → Pmem → Pmem → Type 0
Inserted ext pgdir va e m m' = IsGood ext pgdir m' × Maps pgdir va e m m'

abbrev pub OutOfMemory : (ℕ → ℕ) → ℕ → Pmem → Error → Pmem → Type 0
OutOfMemory ext pgdir m e m' =
    (e ≡ e_no_mem) × (m.page_free_list ≡ []) × IsGood ext pgdir m' × Unchanged pgdir m m'

module _ (ext : ℕ → ℕ) (pgdir asid va pp perm : ℕ) (user : pdx va < user_tables)
    (small : perm < 2 ^ 12) where
  module _ (m : Pmem) (good : IsGood ext pgdir m) (may : IsMappable m pgdir pp)
      (free_slot : translate m.frame pgdir va ≡ none) where
    pub insert_new-found :
        is_valid (pde m.frame pgdir (pdx va)) ≡ true
        → insert_new pgdir asid pp va perm m ≡ ok tt (mapped (flush asid va m) pgdir va pp perm)
    unfolding insert_new
    insert_new-found d = simp (pgdir_walk-found (flush asid va m) pgdir va good.space user true d)

    pub found-Inserted :
        is_valid (pde m.frame pgdir (pdx va)) ≡ true
        → Inserted ext pgdir va (entry pp perm) m (mapped (flush asid va m) pgdir va pp perm)
    found-Inserted d = (
      mapped-IsGood ext pgdir va (flush asid va m) pp perm (flush-IsGood ext pgdir asid va m good)
          user small may.page d (slot-none m.frame pgdir (pdx va) (ptx va) free_slot d) may.taken
          may.room,
      translate-with_entry ext pgdir va m pp perm good user small may.page d,
    )

    new-full :
        is_valid (pde m.frame pgdir (pdx va)) ≡ false
        → m.page_free_list ≡ []
        → Ends
            (λ _. Inserted ext pgdir va (entry pp perm) m)
            (OutOfMemory ext pgdir m)
            (insert_new pgdir asid pp va perm m)
    unfolding insert_new
    new-full d e =
        rw (pgdir_walk-full (flush asid va m) pgdir va d e)
          (refl, e, flush-IsGood ext pgdir asid va m good, λ vb hb. refl)

    module _ (t : ℕ) (rest : List ℕ) (d : is_valid (pde m.frame pgdir (pdx va)) ≡ false)
        (e : m.page_free_list ≡ t ∷ rest) where
      abbrev m₀ : Pmem
      m₀ = flush asid va m

      abbrev m₁ : Pmem
      m₁ = with_table m₀ pgdir (pdx va) t rest

      good₀ : IsGood ext pgdir m₀
      good₀ = flush-IsGood ext pgdir asid va m good

      may₀ : IsMappable m₀ pgdir pp
      may₀ = record { page = may.page; taken = may.taken; room = may.room }

      good₁ : IsGood ext pgdir m₁
      good₁ = with_table-IsGood ext pgdir (pdx va) m₀ t rest good₀ user d e

      may₁ : IsMappable m₁ pgdir pp
      may₁ = IsMappable-with_table ext pgdir (pdx va) m₀ t rest good₀ user d e pp may₀

      d₁ : is_valid (pde m₁.frame pgdir (pdx va)) ≡ true
      d₁ = valid-with_table ext pgdir (pdx va) m₀ t rest good₀ user d e

      same : (k l : ℕ) → k < user_tables → slot m₁.frame pgdir k l ≡ slot m.frame pgdir k l
      same = slot-with_table ext pgdir (pdx va) m₀ t rest good₀ user d e

      table_first-IsGood : IsGood ext pgdir (mapped m₁ pgdir va pp perm)
      table_first-IsGood =
          mapped-IsGood ext pgdir va m₁ pp perm good₁ user small may₁.page d₁
            (slot-none m₁.frame pgdir (pdx va) (ptx va) (same (pdx va) (ptx va) user ∙ free_slot)
              d₁)
            may₁.taken may₁.room

      table_first-Maps : Maps pgdir va (entry pp perm) m (mapped m₁ pgdir va pp perm)
      table_first-Maps vb hb =
          translate-with_entry ext pgdir va m₁ pp perm good₁ user small may₁.page d₁ vb hb
          ∙ ap (λ o. if pdx vb == pdx va && ptx vb == ptx va then some (entry pp perm) else o)
              (same (pdx vb) (ptx vb) hb)

      new-table :
          Ends
            (λ _. Inserted ext pgdir va (entry pp perm) m)
            (OutOfMemory ext pgdir m)
            (insert_new pgdir asid pp va perm m)
      unfolding insert_new
      new-table =
          rw
            (pgdir_walk-new m₀ pgdir va t rest d e
              (first_within ext pgdir (pdx va) m₀ t rest good₀ user d e))
            (subst
              (λ q.
                Ends (λ _. Inserted ext pgdir va (entry pp perm) m) (OutOfMemory ext pgdir m)
                  ((ref_inc pp >> store (q, ptx va) (entry pp perm)) m₁))
              (table-with_table ext pgdir (pdx va) m₀ t rest good₀ user d e)
              (table_first-IsGood, table_first-Maps))

    -- Steps 2 to 4 of `page_insert`, where nothing is mapped at `va`.
    pub insert_new_lem :
        Ends
          (λ _. Inserted ext pgdir va (entry pp perm) m)
          (OutOfMemory ext pgdir m)
          (insert_new pgdir asid pp va perm m)
    insert_new_lem = elim (Bool-cases (is_valid (pde m.frame pgdir (pdx va)))) [
      | inl d ↦ rw (insert_new-found d) (found-Inserted d)
      | inr d ↦ by_list d m.page_free_list refl
    ]
      where
        by_list :
            is_valid (pde m.frame pgdir (pdx va)) ≡ false
            → (l : List ℕ) → m.page_free_list ≡ l
            → Ends
                (λ _. Inserted ext pgdir va (entry pp perm) m)
                (OutOfMemory ext pgdir m)
                (insert_new pgdir asid pp va perm m)
        by_list d [] e = new-full d e
        by_list d (t ∷ rest) e = new-table t rest d e
