-- ===== src/Boot.antt =====
-- The set-up of memory and environments: mips_detect_memory, alloc, mips_vm_init and page_init of
-- kern/pmap.c, map_segment and env_init of kern/env.c. `end`, the first address behind the
-- kernel, is placed by the linker and an argument, as are the address and size of `envs`.
mod Loops
mod Pages
mod Lists
mod Tests
use buaa_os_25spring.Prelude.{
  ℕ, zero, suc, ◌+◌, ◌-◌, ◌*◌, ◌/◌, ◌%◌, ◌^◌, Bool, true, false, List, [], ◌∷◌, ltb, ◌==◌,
  if◌then◌else◌,
}
use buaa_os_25spring.Exec.{Run, ok, fail, panic, Cmd, pure, get, modify, halt, assert, ◌>>=◌, ◌>>◌}
use buaa_os_25spring.Mmu.{page_size, ppn, ulim, upages, uenvs, pte_g}
use buaa_os_25spring.Pmap.{Pmem, MemCmd, update, page_alloc, ref_inc, pa2page, page_insert}
use buaa_os_25spring.Str.{memset}
use buaa_os_25spring.Env.State.{Kern, KCmd, Env, env_free, set_env, lift, nenv}

-- `memsize`, `freemem` and `pages` of kern/pmap.c, the bytes of memory, which `alloc` clears,
-- and the state of the pages.
pub record Boot : Type 0 where
  pub memsize : ℕ
  pub freemem : ℕ
  pub pages : ℕ
  pub ram : ℕ → ℕ
  pub mem : Pmem

abbrev pub BCmd : Type 0 → Type 0
BCmd = Cmd Boot

-- `ROUND(a, n)`, for a power of two `n`.
abbrev pub round : ℕ → ℕ → ℕ
round a n = (a + n - 1) % 2 ^ 32 / n * n

-- `PADDR(kva)`: it panics below the kernel's addresses.
unfoldable pub paddr : {S : Type 0} → ℕ → Cmd S ℕ
paddr kva s = if ltb kva ulim then panic else ok (kva - ulim) s

-- `sizeof(struct Page)`: a link of two pointers, and the count.
abbrev pub sizeof_page : ℕ
sizeof_page = 12

unfoldable pub mips_detect_memory : ℕ → BCmd (Unit {0})
mips_detect_memory size s =
    ok tt (record s { memsize = size; mem = record s.mem { npage = size / page_size } })

-- `if (freemem == 0) freemem = (u_long)end;`
abbrev pub first_free : ℕ → ℕ → ℕ
first_free end freemem = if freemem == 0 then end else freemem

unfoldable pub alloc : ℕ → ℕ → ℕ → Bool → BCmd ℕ
unfolding paddr
alloc end n align clear s =
    let start = round (first_free end s.freemem) align in
    (do
      modify (λ t. record t { freemem = (start + n) % 2 ^ 32 })
      pa ← paddr ((start + n) % 2 ^ 32)
      assert (ltb pa s.memsize)
      if clear then modify (λ t. record t { ram = memset start 0 n t.ram }) else pure tt
      pure start)
      s

unfoldable pub mips_vm_init : ℕ → BCmd (Unit {0})
mips_vm_init end s =
    (do
      p ← alloc end (s.mem.npage * sizeof_page % 2 ^ 32) page_size true
      modify (λ t. record t { pages = p }))
      s

-- The loops of `page_init`: `n` pages from `i` on are used, or free.
unfoldable pub mark_used : ℕ → ℕ → Pmem → Pmem
mark_used zero i m = m
mark_used (suc n) i m = mark_used n (i + 1) (record m { pp_ref = update m.pp_ref i 1 })

unfoldable pub mark_free : ℕ → ℕ → Pmem → Pmem
mark_free zero i m = m
mark_free (suc n) i m =
    mark_free n (i + 1)
      (record m { pp_ref = update m.pp_ref i 0; page_free_list = i ∷ m.page_free_list })

unfoldable pub page_init : BCmd (Unit {0})
unfolding paddr
page_init = do
  modify (λ s. record s { mem = record s.mem { page_free_list = [] } })
  modify (λ s. record s { freemem = round s.freemem page_size })
  s ← get
  pa ← paddr s.freemem
  modify (λ t. record t { mem = mark_used (ppn pa) 0 t.mem })
  modify (λ t. record t { mem = mark_free (t.mem.npage - ppn pa) (ppn pa) t.mem })

-- The part of `mips_init` that sets up the memory.
unfoldable pub init_memory : ℕ → ℕ → BCmd (Unit {0})
init_memory end ram_low_size = do mips_detect_memory ram_low_size; mips_vm_init end; page_init

-- The loop of `map_segment` over `n` pages; what `page_insert` returns is not looked at.
unfoldable pub insert_silently : ℕ → ℕ → ℕ → ℕ → ℕ → MemCmd (Unit {0})
insert_silently pgdir asid pa va perm m = keep (pa2page pa m)
  where
    ignored : Run Pmem (Unit {0}) → Run Pmem (Unit {0})
    ignored (ok a t) = ok tt t
    ignored (fail e t) = ok tt t
    ignored panic = panic

    keep : Run Pmem ℕ → Run Pmem (Unit {0})
    keep (ok pp t) = ignored (page_insert pgdir asid pp va perm t)
    keep (fail e t) = fail e t
    keep panic = panic

unfoldable pub map_pages : ℕ → ℕ → ℕ → ℕ → ℕ → ℕ → MemCmd (Unit {0})
map_pages zero pgdir asid pa va perm = pure tt
map_pages (suc n) pgdir asid pa va perm = do
  insert_silently pgdir asid pa va perm
  map_pages n pgdir asid (pa + page_size) (va + page_size) perm

unfoldable pub map_segment : ℕ → ℕ → ℕ → ℕ → ℕ → ℕ → MemCmd (Unit {0})
map_segment pgdir asid pa va size perm = do
  assert (pa % page_size == 0)
  assert (va % page_size == 0)
  assert (size % page_size == 0)
  map_pages (size / page_size) pgdir asid pa va perm

-- The loop of `env_init` over the environments below `n`, from the last one down.
unfoldable pub free_envs : ℕ → KCmd (Unit {0})
free_envs zero = pure tt
free_envs (suc i) = do
  modify (λ k. record k { env_free_list = i ∷ k.env_free_list })
  set_env i (λ v. record v { env_status = env_free })
  free_envs i

-- `panic_on(page_alloc(&p))`.
abbrev pub page_alloc_or_panic : MemCmd ℕ
page_alloc_or_panic m = sure (page_alloc m)
  where
    sure : Run Pmem ℕ → Run Pmem ℕ
    sure (ok pp t) = ok pp t
    sure (fail e t) = panic
    sure panic = panic

-- `pages`, `envs` and `sizeof_env` are the addresses of the arrays and `sizeof(struct Env)`.
unfoldable pub env_init : ℕ → ℕ → ℕ → KCmd (Unit {0})
env_init pages envs sizeof_env = do
  modify (λ k. record k { env_free_list = []; env_sched_list = [] })
  free_envs nenv
  p ← lift page_alloc_or_panic
  lift (ref_inc p)
  modify (λ k. record k { base_pgdir = p })
  k ← get
  pages_pa ← paddr pages
  lift
      (map_segment p 0 pages_pa upages (round (k.mem.npage * sizeof_page % 2 ^ 32) page_size) pte_g)
  envs_pa ← paddr envs
  lift (map_segment p 0 envs_pa uenvs (round (nenv * sizeof_env % 2 ^ 32) page_size) pte_g)
