-- ===== src/Tlb/Refill.antt =====
-- A TLB refill at a user address ends, and maps the page on demand.
use buaa_os_25spring.Prelude.{
  ℕ, suc, ◌+◌, ◌*◌, ◌/◌, ◌%◌, ◌^◌, ◌≤◌, ◌<◌, ◌≡◌, inl, inr, refl, ◌∙◌, true, false, Option, none,
  some, List, [], ◌∷◌, ◌==◌, if◌then◌else◌, arith, ==_self, ==_iff, Bool-cases, Option-cases, leb,
  ltb, ◌&&◌,
}
use buaa_os_25spring.Exec.{Run, ok, fail, panic, and_then, e_no_mem}
use buaa_os_25spring.Exec.Ends.{Ends}
use buaa_os_25spring.Mmu.{
  page_size, pte_d, utemp, ustacktop, utop, uvpt, ulim, pdx, ptx, entry, pdx-lt_user, page_fields,
}
use buaa_os_25spring.Pmap.{Pmem, page_insert, tlb_invalidate}
use buaa_os_25spring.Pmap.Space.{IsGood, IsMappable, translate, table}
use buaa_os_25spring.Pmap.Alloc.{HandedOut, page_alloc-ok, handed_out, tail-IsFreeList}
use buaa_os_25spring.Pmap.Handed.{slot-handed_out, handed_out-IsGood, handed_out-IsMappable}
use buaa_os_25spring.Pmap.Insert.{flush, flush-IsGood}
use buaa_os_25spring.Pmap.Walk.{page_lookup-some, page_lookup-none, slot-some}
use buaa_os_25spring.Pmap.Correct.{page_insert_total, UpdatedAt}
use buaa_os_25spring.Tlb.{may_alloc, do_tlb_refill, refill_loop, passive_alloc, sure, entry_pair}

-- With a free page, page_insert cannot run out of memory.
page_insert_sure :
    (ext : ℕ → ℕ) (pgdir asid va pp perm : ℕ) (m : Pmem) (u : ℕ) (rest : List ℕ)
    → va < utop
    → perm < 2 ^ 12
    → IsGood ext pgdir m
    → IsMappable m pgdir pp
    → m.page_free_list ≡ u ∷ rest
    → (m' : Pmem) × (page_insert pgdir asid pp va perm m ≡ ok tt m')
      × IsGood ext pgdir m'
      × UpdatedAt pgdir va (some (entry pp perm)) m m'
page_insert_sure ext pgdir asid va pp perm m u rest user small good may e =
    go (page_insert pgdir asid pp va perm m) refl
      (page_insert_total ext pgdir asid va pp perm m user small good may)
  where
    go :
        (r : Run Pmem (Unit {0}))
        → page_insert pgdir asid pp va perm m ≡ r
        → Ends
            (λ _ m'. IsGood ext pgdir m' × UpdatedAt pgdir va (some (entry pp perm)) m m')
            (λ e m'.
              (e ≡ e_no_mem)
              × (m.page_free_list ≡ [])
              × IsGood ext pgdir m'
              × ((vb : ℕ) → vb < utop → translate m'.frame pgdir vb ≡ translate m.frame pgdir vb))
            r
        → (m' : Pmem) × (page_insert pgdir asid pp va perm m ≡ ok tt m')
          × IsGood ext pgdir m'
          × UpdatedAt pgdir va (some (entry pp perm)) m m'
    go (ok a t) q h = (t, q, h.0, h.1)
    go (fail c t) q h = absurd (ground (arith, h.1, e))
    go panic q h = absurd h

-- The entry that the page of `va` has after the refill: its own, or one for the fresh page `t`.
abbrev pub entry_or_fresh : Option ℕ → ℕ → ℕ
entry_or_fresh none t = entry t pte_d
entry_or_fresh (some e) t = e

-- `m'` maps `va` by `e` and is otherwise `m`; the pair `r` for the TLB has `e` on the side of `va`.
pub record Refilled (ext : ℕ → ℕ) (pgdir va e : ℕ) (m : Pmem) (r : ℕ × ℕ) (m' : Pmem) : Type 0 where
  pub good : IsGood ext pgdir m'
  pub mapped : UpdatedAt pgdir va (some e) m m'
  pub loaded : (if va / page_size % 2 == 0 then r.0 else r.1) ≡ e / 2 ^ 6

module _ (pgdir va e : ℕ) (m : Pmem) (h : translate m.frame pgdir va ≡ some e) where
  side :
      (if va / page_size % 2 == 0
        then (entry_pair (table m.frame pgdir (pdx va), ptx va) m).0
        else (entry_pair (table m.frame pgdir (pdx va), ptx va) m).1)
      ≡ e / 2 ^ 6
  unfolding ptx
  side = elim (Bool-cases (va / page_size % 2 == 0)) [
    | inl even ↦ rw (even, back_even ((==_iff _ _).0 even), held)
    | inr odd ↦ rw (odd, back_odd odd, held)
  ]
    where
      held : m.frame (table m.frame pgdir (pdx va)) (ptx va) ≡ e
      held = (slot-some m.frame pgdir (pdx va) (ptx va) e h).2

      back_even : va / page_size % 2 ≡ 0 → va / 2 ^ 12 % 1024 / 2 * 2 ≡ va / 2 ^ 12 % 1024
      back_even q = omega arith

      back_odd :
          (va / page_size % 2 == 0) ≡ false → va / 2 ^ 12 % 1024 / 2 * 2 + 1 ≡ va / 2 ^ 12 % 1024
      back_odd q = ground arith

kept_page :
    (pgdir va e : ℕ) (m : Pmem)
    → translate m.frame pgdir va ≡ some e
    → (vb : ℕ)
    → translate m.frame pgdir vb
      ≡ (if vb / 2 ^ 12 == va / 2 ^ 12 then some e else translate m.frame pgdir vb)
kept_page pgdir va e m h vb = elim (Bool-cases (vb / 2 ^ 12 == va / 2 ^ 12)) [
  | inl q ↦ let (p, i) = page_fields vb va ((==_iff _ _).0 q) in rw (q, p, i) h
  | inr q ↦ rw q refl
]

-- One call of `passive_alloc` maps the page.
module _ (ext : ℕ → ℕ) (pgdir asid va t u : ℕ) (rest : List ℕ) (m : Pmem) (low : utemp ≤ va)
    (high : va < ustacktop) (good : IsGood ext pgdir m)
    (e : m.page_free_list ≡ t ∷ (u ∷ rest)) where
  passive_alloc_lem :
      (m' : Pmem) × (passive_alloc va pgdir asid m ≡ ok tt m')
      × IsGood ext pgdir m'
      × UpdatedAt pgdir va (some (entry t pte_d)) m m'
  unfolding passive_alloc sure
  passive_alloc_lem =
      let (m', eq, good', maps) =
        page_insert_sure ext pgdir asid (va / page_size * page_size) t pte_d
          (handed_out m t (u ∷ rest)) u rest (omega arith) (omega arith)
          (handed_out-IsGood ext pgdir m t (u ∷ rest) good e)
          (handed_out-IsMappable ext pgdir m t (u ∷ rest) good e) refl in
      (
        m',
        rw (
          passive_alloc,
          allowed,
          user,
          page_alloc-ok m t (u ∷ rest) e taken.within,
          and_then,
          eq,
        ),
        good',
        λ vb hb.
            maps vb hb
            ∙ rw
                (
                  here,
                  slot-handed_out ext pgdir m t (u ∷ rest) good e (pdx vb) (ptx vb)
                      (pdx-lt_user vb hb),
                )
                refl,
      )
    where
      allowed : may_alloc va ≡ true
      allowed = ground arith

      user : (leb uvpt va && ltb va ulim) ≡ false
      user = ground arith

      taken : HandedOut m t (handed_out m t (u ∷ rest))
      taken = tail-IsFreeList m t (u ∷ rest) good.free e

      here : va / page_size * page_size / 2 ^ 12 ≡ va / 2 ^ 12
      here = omega arith

-- A refill at an address of the user below its stack's end, with two free pages, calls
-- `page_lookup` at most twice and neither fails nor panics: the address is then mapped by the entry
-- that it had or by a fresh page with PTE_D, every other page is mapped as before, the reference
-- counts stay exact, and the entry stands on its side of the pair that is loaded into the TLB.
pub do_tlb_refill_lem :
    (ext : ℕ → ℕ) (fuel pgdir asid va t u : ℕ) (rest : List ℕ) (m : Pmem)
    → utemp ≤ va
    → va < ustacktop
    → IsGood ext pgdir m
    → m.page_free_list ≡ t ∷ (u ∷ rest)
    → (r : ℕ × ℕ) × (m' : Pmem) × (do_tlb_refill (suc (suc fuel)) pgdir va asid m ≡ ok (some r) m')
      × Refilled ext pgdir va (entry_or_fresh (translate m.frame pgdir va) t) m r m'
unfolding do_tlb_refill tlb_invalidate refill_loop
do_tlb_refill_lem ext fuel pgdir asid va t u rest m low high good e =
    elim (Option-cases (translate m.frame pgdir va)) [
      | inr (v, h) ↦ (
        entry_pair (table m.frame pgdir (pdx va), ptx va) (flush asid va m),
        flush asid va m,
        rw
            (
              page_lookup-some (flush asid va m) pgdir va good.space (pdx-lt_user va (omega arith))
                  v h,
              and_then,
            )
            refl,
        rw h record {
          good = flush-IsGood ext pgdir asid va m good;
          mapped = λ vb hb. kept_page pgdir va v m h vb;
          loaded = side pgdir va v m h;
        },
      )
      | inl h ↦
          let (m', eq, good', maps) =
            passive_alloc_lem ext pgdir asid va t u rest (flush asid va m) low high
              (flush-IsGood ext pgdir asid va m good) e in
          let mapped : translate m'.frame pgdir va ≡ some (entry t pte_d) =
            maps va (omega arith) ∙ rw (==_self (va / 2 ^ 12)) refl in
          (
            entry_pair (table m'.frame pgdir (pdx va), ptx va) m',
            m',
            rw
                (
                  page_lookup-none (flush asid va m) pgdir va good.space
                      (pdx-lt_user va (omega arith)) h,
                  and_then,
                  eq,
                  and_then,
                  page_lookup-some m' pgdir va good'.space (pdx-lt_user va (omega arith))
                      (entry t pte_d) mapped,
                  and_then,
                )
                refl,
            rw h record {
              good = good';
              mapped = maps;
              loaded = side pgdir va (entry t pte_d) m' mapped;
            },
          )
    ]
