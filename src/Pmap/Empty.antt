-- ===== src/Pmap/Empty.antt =====
-- A directory whose user part is empty, as env_setup_vm of kern/env.c makes it.
use buaa_os_25spring.Prelude.{ℕ, ◌<◌, ◌≡◌, false, arith, sum_below-zero, sum_below_same}
use buaa_os_25spring.Mmu.{is_valid}
use buaa_os_25spring.Pmap.{Pmem}
use buaa_os_25spring.Pmap.Space.{
  IsFreeList, IsGood, IsSpace, pde, user_tables, dir_refs, table_refs,
}

module _ (f : ℕ → ℕ → ℕ) (pgdir : ℕ)
    (empty : (k : ℕ) → k < user_tables → is_valid (pde f pgdir k) ≡ false) where
  table_refs-empty : (p k : ℕ) → k < user_tables → table_refs f pgdir p k ≡ 0
  unfolding table_refs
  table_refs-empty p k hk = rw (empty k hk)

  pub dir_refs-empty : (p : ℕ) → dir_refs f pgdir p ≡ 0
  unfolding dir_refs
  dir_refs-empty p = omega (
    arith,
    sum_below-zero user_tables,
    sum_below_same user_tables (table_refs f pgdir p) (λ _. 0) (table_refs-empty p),
  )

  pub empty-IsSpace : (npage : ℕ) → pgdir < npage → IsSpace npage f pgdir
  empty-IsSpace npage l = record {
    dir_in = l;
    table_in = λ k hk d. cc (empty k hk);
    table_ne = λ k hk d. absurd (cc (empty k hk));
    apart = λ k i hk hi d. absurd (cc (empty k hk));
    data_page = λ k j hk hj d. absurd (cc (empty k hk));
  }

-- Everything that is referred to is referred to from elsewhere.
pub empty-IsGood :
    (pgdir : ℕ) (m : Pmem)
    → IsFreeList m
    → pgdir < m.npage
    → 0 < m.pp_ref pgdir
    → ((k : ℕ) → k < user_tables → is_valid (pde m.frame pgdir k) ≡ false)
    → IsGood m.pp_ref pgdir m
empty-IsGood pgdir m f l u empty = record {
  free = f;
  space = empty-IsSpace m.frame pgdir empty m.npage l;
  refs = λ p. omega (arith, dir_refs-empty m.frame pgdir empty p);
  held = u;
}
