-- ===== src/Fork.antt =====
-- user/lib/fork.c: the copying of an address space on demand. `vpt` of a process gives the page and the
-- permissions of each virtual page that is mapped, so `vpd` and the bit PTE_V are in it.
mod Moves
mod Isolation
mod Tests
use buaa_os_25spring.Prelude.{
  ℕ, zero, suc, ◌+◌, ◌-◌, ◌^◌, ◌*◌, ◌/◌, Bool, true, false, not, ◌&&◌, Option, none, some, ◌==◌,
  if◌then◌else◌, List, [], ◌∷◌, bit_and, bit_or,
}
use buaa_os_25spring.Mmu.{page_size, ustacktop}

abbrev pub PageTable : Type 0
PageTable = ℕ → Option (ℕ × ℕ)

-- The address spaces of the parent and of the child; pages from `fresh` on are in neither.
pub record Family : Type 0 where
  pub parent : PageTable
  pub child : PageTable
  pub fresh : ℕ

abbrev pub map_at : ℕ → ℕ × ℕ → PageTable → PageTable
map_at vpn e t v = if v == vpn then some e else t v

-- `perm & PTE_D`, `perm & PTE_LIBRARY` and `perm & PTE_COW`.
abbrev pub has_d : ℕ → Bool
has_d perm = not (bit_and perm 0x100 == 0)

abbrev pub has_library : ℕ → Bool
has_library perm = not (bit_and perm 2 == 0)

abbrev pub has_cow : ℕ → Bool
has_cow perm = not (bit_and perm 1 == 0)

-- `(perm | PTE_COW) & ~PTE_D`, on 32 bits.
abbrev pub to_cow : ℕ → ℕ
to_cow perm = bit_and (bit_or perm 1) (2 ^ 32 - 1 - 2 ^ 8)

-- `(perm & ~PTE_COW) | PTE_D`, on 32 bits.
abbrev pub to_private : ℕ → ℕ
to_private perm = bit_or (bit_and perm (2 ^ 32 - 1 - 2 ^ 0)) 0x100

-- What a store of the parent to a page does to the mappings: at a page of PTE_COW it faults, and
-- `cow_entry` maps a fresh page in its place. A store to a writable page changes no mapping; no
-- other store is made.
abbrev pub write_at : ℕ → Option (ℕ × ℕ) → Family → Family
write_at vpn none f = f
write_at vpn (some (page, perm)) f =
    if has_cow perm
    then record f { parent = map_at vpn (f.fresh, to_private perm) f.parent; fresh = suc f.fresh }
    else f

abbrev pub write_page : ℕ → Family → Family
write_page vpn f = write_at vpn (f.parent vpn) f

abbrev pub write_pages : List ℕ → Family → Family
write_pages [] f = f
write_pages (vpn ∷ rest) f = write_pages rest (write_page vpn f)

-- `syscall_mem_map(0, addr, envid, addr, perm)` and `syscall_mem_map(0, addr, 0, addr, perm)`: the page
-- that the parent has there now.
abbrev pub map_child : ℕ → ℕ → Option (ℕ × ℕ) → Family → Family
map_child vpn perm none f = f
map_child vpn perm (some (page, _)) f = record f { child = map_at vpn (page, perm) f.child }

abbrev pub map_parent : ℕ → ℕ → Option (ℕ × ℕ) → Family → Family
map_parent vpn perm none f = f
map_parent vpn perm (some (page, _)) f = record f { parent = map_at vpn (page, perm) f.parent }

-- `syscall_mem_map` into the child fails where the kernel has no memory for its page table, which
-- `grant` says; a page of the parent that is mapped can always be mapped again. `duppage` returns
-- nothing, so its caller does not see a failure. The parent writes to its own pages meanwhile, its stack
-- for one: to the pages `before i` before `duppage` looks at page `i`, and to `between i` between its
-- two system calls for page `i`.
module _ (grant : ℕ → Bool) (before between : ℕ → List ℕ) where
  abbrev pub dup_entry : ℕ → ℕ → Family → Family
  dup_entry vpn perm f =
      let flag = has_d perm && not (has_library perm) && not (has_cow perm) in
      let perm' = if flag then to_cow perm else perm in
      if grant vpn
      then (let g = write_pages (between vpn) (map_child vpn perm' (f.parent vpn) f) in
          if flag then map_parent vpn perm' (g.parent vpn) g else g)
      else f

  abbrev pub dup_mapped : ℕ → Option (ℕ × ℕ) → Family → Family
  dup_mapped vpn none f = f
  dup_mapped vpn (some (page, perm)) f = dup_entry vpn perm f

  -- The body of the loop of `fork`.
  unfoldable pub duppage : ℕ → Family → Family
  duppage vpn f = dup_mapped vpn (f.parent vpn) f

  -- `n` pages from `i` on, and what is written afterwards.
  unfoldable pub dup_from : ℕ → ℕ → Family → Family
  dup_from zero i f = write_pages (before i) f
  dup_from (suc n) i f = dup_from n (i + 1) (duppage i (write_pages (before i) f))

  -- Step 3 of `fork`.
  unfoldable pub copy_space : Family → Family
  copy_space = dup_from (ustacktop / page_size) 0

-- The parent's table and the contents of pages after `cow_entry` for the address `va`, `none` for
-- `user_panic`; `fresh` is the page that `syscall_mem_alloc` yields.
unfoldable pub cow_entry : ℕ → ℕ → PageTable → (ℕ → ℕ → ℕ) → Option (PageTable × (ℕ → ℕ → ℕ))
cow_entry fresh va t contents = elim (t (va / page_size)) [
  | none ↦ none
  | some (page, perm) ↦
      if has_cow perm
      then some (
        map_at (va / page_size) (fresh, to_private perm) t,
        λ p w. if p == fresh then contents page w else contents p w,
      )
      else none
]
