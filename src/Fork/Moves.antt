-- ===== src/Fork/Moves.antt =====
-- Permissions of user/lib/fork.c, and what a store of the parent and its write fault do to a page.
use buaa_os_25spring.Prelude.{
  ℕ, suc, ◌-◌, ◌/◌, ◌^◌, ◌≤◌, ◌≡◌, ◌≢◌, inl, inr, refl, sym, ap, ◌∙◌, Bool, true, false, not, ◌&&◌,
  ◌||◌, Option, none, some, ◌==◌, if◌then◌else◌, bit_and, bit_or, arith, Bool-cases, ==_self, ==_ne,
  ℕ_discrete,
}
use buaa_os_25spring.Prelude.Bits.{nonzero-bit, bit_cleared, bit_set}
use buaa_os_25spring.Mmu.{page_size}
use buaa_os_25spring.Fork.{
  Family, PageTable, map_at, has_d, has_library, has_cow, to_cow, to_private, write_at, write_page,
  cow_entry,
}

pub to_cow-not_writable : (perm : ℕ) → has_d (to_cow perm) ≡ false
to_cow-not_writable perm =
    nonzero-bit (to_cow perm) 8 ∙ bit_cleared (bit_or perm 1) 8 8 (omega arith) (omega arith)

pub to_private-not_cow : (perm : ℕ) → has_cow (to_private perm) ≡ false
to_private-not_cow perm =
    nonzero-bit (to_private perm) 0
    ∙ bit_set (bit_and perm (2 ^ 32 - 1 - 2 ^ 0)) 8 0 (omega arith) (omega arith)
    ∙ bit_cleared perm 0 0 (omega arith) (omega arith)

-- A mapping that parent and child may have in common.
abbrev pub may_share : ℕ → Bool
may_share perm = not (has_d perm) || has_library perm

-- No page is both writable and marked PTE_COW, unless it is to be shared.
abbrev pub proper : ℕ → Bool
proper perm = not (has_d perm && has_cow perm) || has_library perm

pub unflagged :
    (perm : ℕ)
    → (has_d perm && not (has_library perm) && not (has_cow perm)) ≡ false
    → proper perm ≡ true
    → may_share perm ≡ true
unflagged perm = by_flags (has_d perm) (has_library perm) (has_cow perm)
  where
    by_flags :
        (d l c : Bool)
        → (d && not l && not c) ≡ false
        → (not (d && c) || l) ≡ true
        → (not d || l) ≡ true
    by_flags true true c h p = refl
    by_flags true false true h p = p
    by_flags true false false h p = sym h
    by_flags false l c h p = refl

pub flagged-not_cow :
    (perm : ℕ)
    → (has_d perm && not (has_library perm) && not (has_cow perm)) ≡ true
    → has_cow perm ≡ false
flagged-not_cow perm h = by_flags (has_d perm) (has_library perm) (has_cow perm) h
  where
    by_flags : (d l c : Bool) → (d && not l && not c) ≡ true → c ≡ false
    by_flags d l c h = ground arith

-- What a store of the parent may do at page `v`: nothing, or give it a fresh page.
pub data Moves (v : ℕ) (f t : Family) : Type 0 where
  stays : t.parent v ≡ f.parent v → t.child v ≡ f.child v → f.fresh ≤ t.fresh → Moves v f t
  faults :
      (page perm : ℕ)
      → f.parent v ≡ some (page, perm)
      → has_cow perm ≡ true
      → t.parent v ≡ some (f.fresh, to_private perm)
      → t.child v ≡ f.child v
      → t.fresh ≡ suc f.fresh
      → Moves v f t

write_at-Moves :
    (v w : ℕ) (f : Family) (o : Option (ℕ × ℕ)) → f.parent w ≡ o → Moves v f (write_at w o f)
write_at-Moves v w f none h = stays refl refl (omega arith)
write_at-Moves v w f (some (page, perm)) h = elim (Bool-cases (has_cow perm)) [
  | inr e ↦ rw e (stays refl refl (omega arith))
  | inl e ↦ elim (ℕ_discrete v w) [
    | yes q ↦ rw e (faults page perm (ap f.parent q ∙ h) e (rw (q, ==_self w) refl) refl refl)
    | no ne ↦ rw e (stays (rw (==_ne v w ne) refl) refl (omega arith))
  ]
]

pub write_page-Moves : (v w : ℕ) (f : Family) → Moves v f (write_page w f)
write_page-Moves v w f = write_at-Moves v w f (f.parent w) refl

-- A write fault at a page of PTE_COW gives the process the fresh page, writable, with the contents
-- of the one that was mapped; no other page changes.
pub cow_entry_lem :
    (fresh va page perm : ℕ) (t : PageTable) (contents : ℕ → ℕ → ℕ)
    → t (va / page_size) ≡ some (page, perm)
    → has_cow perm ≡ true
    → (u : PageTable) × (after : ℕ → ℕ → ℕ) × (cow_entry fresh va t contents ≡ some (u, after))
      × ((w : ℕ) → after fresh w ≡ contents page w)
      × (u (va / page_size) ≡ some (fresh, to_private perm))
      × ((p w : ℕ) → p ≢ fresh → after p w ≡ contents p w)
unfolding cow_entry
cow_entry_lem fresh va page perm t contents h c = (
  map_at (va / page_size) (fresh, to_private perm) t,
  (λ p w. if p == fresh then contents page w else contents p w),
  rw (cow_entry, h, c) refl,
  (λ w. rw (==_self fresh) refl),
  rw (==_self (va / page_size)) refl,
  λ p w n. rw (==_ne p fresh n) refl,
)
