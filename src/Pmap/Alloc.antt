-- ===== src/Pmap/Alloc.antt =====
-- The page allocator: page_alloc, page_free and page_decref of kern/pmap.c.
use mathlib.Core.Path.{subst}
use buaa_os_25spring.Prelude.{
  ℕ, ◌-◌, ◌<◌, ◌≡◌, refl, false, List, [], ◌∷◌, arith, ◌==◌, has, lt→ltb, ==_self, if◌then◌else◌,
  Distinct, Bool-cases, inl, inr,
}
use buaa_os_25spring.Exec.{ok, fail, e_no_mem}
use buaa_os_25spring.Exec.Ends.{Ends}
use buaa_os_25spring.Pmap.{Pmem, update, fill, page_alloc, page_decref}
use buaa_os_25spring.Pmap.Space.{IsFreeList}

-- The memory after the page at the head of the free list is handed out.
abbrev pub handed_out : Pmem → ℕ → List ℕ → Pmem
handed_out m pp rest = record m { page_free_list = rest; frame = fill m.frame pp 0 }

pub record HandedOut (m : Pmem) (pp : ℕ) (m' : Pmem) : Type 0 where
  pub was_first : m.page_free_list ≡ pp ∷ m'.page_free_list
  pub result : m' ≡ handed_out m pp m'.page_free_list
  pub free : IsFreeList m'
  pub taken : has pp m'.page_free_list ≡ false
  pub unused : m.pp_ref pp ≡ 0
  pub within : pp < m.npage

pub tail-IsFreeList :
    (m : Pmem) (pp : ℕ) (rest : List ℕ)
    → IsFreeList m
    → m.page_free_list ≡ pp ∷ rest
    → HandedOut m pp (handed_out m pp rest)
tail-IsFreeList m pp rest f e = record {
  was_first = e;
  result = refl;
  free = record {
    below = λ p h. f.below p (rw e (ground arith));
    unused = λ p h. f.unused p (rw e (ground arith));
    distinct = split.1;
  };
  taken = split.0;
  unused = f.unused pp (rw e (ground arith));
  within = f.below pp (rw e (ground arith));
}
  where
    split : Distinct (pp ∷ rest)
    split = subst Distinct e f.distinct

pub page_alloc-ok :
    (m : Pmem) (pp : ℕ) (rest : List ℕ)
    → m.page_free_list ≡ pp ∷ rest
    → pp < m.npage
    → page_alloc m ≡ ok pp (handed_out m pp rest)
unfolding page_alloc
page_alloc-ok m pp rest e l = ground arith

pub page_alloc-fail : (m : Pmem) → m.page_free_list ≡ [] → page_alloc m ≡ fail e_no_mem m
unfolding page_alloc
page_alloc-fail m e = ground arith

-- A page is handed out exactly when one is free: the first, zeroed, and no longer on the list;
-- otherwise the call fails with -E_NO_MEM and changes nothing.
pub page_alloc_lem :
    (m : Pmem)
    → IsFreeList m
    → Ends
        (HandedOut m)
        (λ e m'. (e ≡ e_no_mem) × (m' ≡ m) × (m.page_free_list ≡ []))
        (page_alloc m)
page_alloc_lem m f = by_list m.page_free_list refl
  where
    by_list :
        (l : List ℕ)
        → m.page_free_list ≡ l
        → Ends
            (HandedOut m)
            (λ e m'. (e ≡ e_no_mem) × (m' ≡ m) × (m.page_free_list ≡ []))
            (page_alloc m)
    by_list [] e = rw (page_alloc-fail m e) (refl, refl, e)
    by_list (pp ∷ rest) e =
        let out = tail-IsFreeList m pp rest f e in rw (page_alloc-ok m pp rest e out.within) out

-- The memory after one reference to `pp` is dropped.
abbrev pub released : Pmem → ℕ → Pmem
released m pp = record m {
  page_free_list = if m.pp_ref pp - 1 == 0 then pp ∷ m.page_free_list else m.page_free_list;
  pp_ref = update m.pp_ref pp (m.pp_ref pp - 1);
}

pub page_decref-ok :
    (m : Pmem) (pp : ℕ) → 0 < m.pp_ref pp → page_decref pp m ≡ ok tt (released m pp)
unfolding page_decref
page_decref-ok m pp h = elim (Bool-cases (m.pp_ref pp - 1 == 0)) [
  | inl e ↦ simp (lt→ltb 0 (m.pp_ref pp) h, ==_self pp, e)
  | inr e ↦ simp (lt→ltb 0 (m.pp_ref pp) h, e)
]

pub released-IsFreeList :
    (m : Pmem) (pp : ℕ) → IsFreeList m → pp < m.npage → 0 < m.pp_ref pp → IsFreeList (released m pp)
released-IsFreeList m pp f l h = record {
  below = λ p q. ground (arith, f.below p);
  unused = λ p q. ground (arith, f.unused p);
  distinct = ground (arith, f.unused pp, f.distinct);
}
