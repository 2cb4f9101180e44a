-- ===== src/Env/Alloc.antt =====
-- env_setup_vm, env_alloc, env_free and env_destroy of kern/env.c.
use buaa_os_25spring.Prelude.{
  ℕ, zero, suc, ◌+◌, ◌*◌, ◌^◌, Bool, true, false, ◌&&◌, none, some, List, [], ◌∷◌, ◌==◌, ltb, leb,
  if◌then◌else◌, bit_or, erase,
}
use buaa_os_25spring.Exec.{pure, throw, get, modify, e_no_free_env, ◌>>=◌, ◌>>◌}
use buaa_os_25spring.Mmu.{pdx, pte_addr, ppn, page2pa, pte_v, is_valid, utop}
use buaa_os_25spring.Pmap.{
  MemCmd, page_alloc, page_decref, page_remove, ref_inc, load, store, kaddr_page, pa2page,
  tlb_invalidate,
}
use buaa_os_25spring.Env.State.{KCmd, env_free, Trapframe, set_env, lift}
use buaa_os_25spring.Env.Ids.{asid_alloc, asid_free, mkenvid}
use buaa_os_25spring.Env.Sched.{schedule}

abbrev pub uvpt : ℕ
uvpt = 0x7fc00000

-- The `memcpy` of the entries from PDX(UTOP) to PDX(UVPT), from the directory `base` to `p`.
abbrev pub copy_template : ℕ → ℕ → MemCmd (Unit {0})
copy_template base p = modify (λ m. record m {
  frame =
      λ q i. if q == p && leb (pdx utop) i && ltb i (pdx uvpt) then m.frame base i else m.frame q i;
})

-- A new directory, with the template's entries and itself as a page table at UVPT.
unfoldable pub new_directory : ℕ → MemCmd ℕ
unfolding ref_inc store
new_directory base = do
  p ← page_alloc
  ref_inc p
  copy_template base p
  store (p, pdx uvpt) (bit_or (page2pa p) pte_v)
  pure p

unfoldable pub env_setup_vm : ℕ → KCmd (Unit {0})
env_setup_vm e = do
  k ← get
  p ← lift (new_directory k.base_pgdir)
  set_env e (λ v. record v { env_pgdir = p })

-- `STATUS_IM7 | STATUS_IE | STATUS_EXL | STATUS_UM`, and the stack pointer below argc and argv.
abbrev pub user_frame : Trapframe → Trapframe
user_frame tf = record tf {
  cp0_status = 0x8013;
  regs = λ i. if i == 29 then 0x7f3fdff8 else tf.regs i;
}

-- Steps 2 to 5 of `env_alloc`, for the first free environment.
unfoldable pub set_up : ℕ → ℕ → KCmd ℕ
unfolding env_setup_vm
set_up e parent_id = do
  env_setup_vm e
  set_env e (λ v. record v { env_user_tlb_mod_entry = 0; env_runs = 0 })
  id ← mkenvid e
  set_env e (λ v. record v { env_id = id; env_parent_id = parent_id })
  asid ← asid_alloc
  set_env e (λ v. record v { env_asid = asid; env_tf = user_frame v.env_tf })
  modify (λ s. record s { env_free_list = erase e s.env_free_list })
  pure e

abbrev pub alloc_first : List ℕ → ℕ → KCmd ℕ
alloc_first [] parent_id = throw e_no_free_env
alloc_first (e ∷ rest) parent_id = set_up e parent_id

unfoldable pub env_alloc : ℕ → KCmd ℕ
unfolding set_up
env_alloc parent_id k = alloc_first k.env_free_list parent_id k

-- The loop of `env_free` over a page table, with `n` entries left, at `pteno`.
unfoldable pub free_entries : ℕ → ℕ → ℕ → ℕ → ℕ → ℕ → MemCmd (Unit {0})
unfolding load
free_entries zero pteno pgdir asid table pdeno = pure tt
free_entries (suc n) pteno pgdir asid table pdeno = do
  e ← load (table, pteno)
  if is_valid e then page_remove pgdir asid (bit_or (pdeno * 2 ^ 22) (pteno * 2 ^ 12)) else pure tt
  free_entries n (pteno + 1) pgdir asid table pdeno

-- The body of the loop of `env_free` for a mapped page table.
unfoldable pub free_table : ℕ → ℕ → ℕ → ℕ → MemCmd (Unit {0})
unfolding kaddr_page pa2page store tlb_invalidate
free_table pa pdeno pgdir asid = do
  table ← kaddr_page (ppn pa)
  free_entries 1024 0 pgdir asid table pdeno
  store (pgdir, pdeno) 0
  page ← pa2page pa
  page_decref page
  tlb_invalidate asid (uvpt + pdeno * 2 ^ 12)

unfoldable pub free_tables : ℕ → ℕ → ℕ → ℕ → MemCmd (Unit {0})
unfolding load
free_tables zero pdeno pgdir asid = pure tt
free_tables (suc n) pdeno pgdir asid = do
  e ← load (pgdir, pdeno)
  if is_valid e then free_table (pte_addr e) pdeno pgdir asid else pure tt
  free_tables n (pdeno + 1) pgdir asid

-- All that `env_free` does to the memory, for the directory and the number of an environment.
unfoldable pub free_space : ℕ → ℕ → MemCmd (Unit {0})
free_space pgdir asid = do free_tables (pdx utop) 0 pgdir asid; page_decref pgdir

unfoldable pub release : ℕ → KCmd (Unit {0})
release e = do
  set_env e (λ v. record v { env_status = env_free })
  modify (λ s. record s {
    env_free_list = e ∷ s.env_free_list;
    env_sched_list = erase e s.env_sched_list;
  })

unfoldable pub free_env : ℕ → KCmd (Unit {0})
unfolding free_space release tlb_invalidate
free_env e = do
  k ← get
  lift (free_space (k.envs e).env_pgdir (k.envs e).env_asid)
  asid_free (k.envs e).env_asid
  lift (tlb_invalidate (k.envs e).env_asid (uvpt + pdx uvpt * 2 ^ 12))
  release e

-- Returns whether the processor was given away.
unfoldable pub env_destroy : ℕ → KCmd Bool
unfolding free_env
env_destroy e = do
  free_env e
  k ← get
  if elim k.curenv [ none ↦ false | some c ↦ c == e ]
      then (do modify (λ s. record s { curenv = none }); schedule true; pure true)
      else pure false
