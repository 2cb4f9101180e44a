-- ===== src/Pmap/Handed.antt =====
-- page_alloc on a well-formed directory: the page that it hands out may be mapped, and what the
-- directory maps stays.
use buaa_os_25spring.Prelude.{
  ℕ, ◌+◌, ◌<◌, ◌≡◌, refl, sym, ap, ◌∙◌, true, List, ◌∷◌, arith, has, ==_self, ==_ne, Bool-cases,
  inl, inr, sum_below_same, ◌==◌, if◌then◌else◌,
}
use buaa_os_25spring.Mmu.{is_valid}
use buaa_os_25spring.Pmap.{Pmem}
use buaa_os_25spring.Pmap.Alloc.{HandedOut, handed_out, tail-IsFreeList}
use buaa_os_25spring.Pmap.Space.{
  IsGood, IsMappable, pde, pte, slot, table, user_tables, dir_refs, table_refs, ref_of,
}
use buaa_os_25spring.Pmap.Change.{IsData-same, IsSpace-same}
use buaa_os_25spring.Pmap.Refs.{table_used, dir_used, free-ne}

-- Frames with the same directory and the same tables have the same references.
module _ (f g : ℕ → ℕ → ℕ) (pgdir : ℕ) (same : (k : ℕ) → k < user_tables → g pgdir k ≡ f pgdir k)
    (kept : (k l : ℕ)
      → k < user_tables
      → is_valid (pde f pgdir k) ≡ true
      → g (table f pgdir k) l ≡ pte f pgdir k l) where
  dir_refs-same : (p : ℕ) → dir_refs g pgdir p ≡ dir_refs f pgdir p
  unfolding dir_refs table_refs
  dir_refs-same p =
      sum_below_same user_tables (table_refs g pgdir p) (table_refs f pgdir p) (λ k hk.
        elim (Bool-cases (is_valid (pde f pgdir k))) [
          | inl d ↦
              rw (same k hk, d)
                (ap (λ n. (if table f pgdir k == p then 1 else 0) + n)
                  (sum_below_same 1024 _ _ (λ l hl. ap (ref_of p) (kept k l hk d))))
          | inr d ↦ rw (same k hk, d) refl
        ])

module _ (ext : ℕ → ℕ) (pgdir : ℕ) (m : Pmem) (t : ℕ) (rest : List ℕ) (good : IsGood ext pgdir m)
    (e : m.page_free_list ≡ t ∷ rest) where
  abbrev after : Pmem
  after = handed_out m t rest

  taken : HandedOut m t (handed_out m t rest)
  taken = tail-IsFreeList m t rest good.free e

  free_t : has t m.page_free_list ≡ true
  free_t = ap (has t) e ∙ ground (arith, ==_self t)

  same : (k : ℕ) → after.frame pgdir k ≡ m.frame pgdir k
  same k =
      rw (==_ne pgdir t (free-ne ext pgdir m good t pgdir free_t (dir_used ext pgdir m good))) refl

  kept :
      (k l : ℕ)
      → k < user_tables
      → is_valid (pde m.frame pgdir k) ≡ true
      → after.frame (table m.frame pgdir k) l ≡ pte m.frame pgdir k l
  kept k l hk d =
      rw
        (==_ne (table m.frame pgdir k) t (
          free-ne ext pgdir m good t (table m.frame pgdir k) free_t
            (table_used ext pgdir m good k hk d)))
        refl

  pub slot-handed_out :
      (k l : ℕ) → k < user_tables → slot after.frame pgdir k l ≡ slot m.frame pgdir k l
  slot-handed_out k l hk = elim (Bool-cases (is_valid (pde m.frame pgdir k))) [
    | inl d ↦ rw (same k, kept k l hk d) refl
    | inr d ↦ rw (same k, d) refl
  ]

  pub handed_out-IsGood : IsGood ext pgdir after
  handed_out-IsGood = record {
    free = taken.free;
    space =
        IsSpace-same m.npage m.frame after.frame pgdir (λ k hk. same k) good.space
          (λ k l hk hl d v.
            rw (kept k l hk d) (good.space.data_page k l hk hl d (rw (kept k l hk d) at v)));
    refs = λ p. rw (dir_refs-same m.frame after.frame pgdir (λ k hk. same k) kept p) (good.refs p);
    held = good.held;
  }

  pub handed_out-IsMappable : IsMappable after pgdir t
  handed_out-IsMappable = record {
    page =
        IsData-same m.npage m.frame after.frame pgdir (λ k hk. same k) t
          record {
            within = taken.within;
            ne_dir =
                λ q. free-ne ext pgdir m good t pgdir free_t (dir_used ext pgdir m good) (sym q);
            ne_table = λ k hk d.
                free-ne ext pgdir m good t (table m.frame pgdir k) free_t
                  (table_used ext pgdir m good k hk d);
          };
    taken = taken.taken;
    room = omega (arith, taken.unused);
  }
