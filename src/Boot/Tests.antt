-- ===== src/Boot/Tests.antt =====
-- The set-up of a machine with sixteen pages, whose kernel ends in its fourth page.
use buaa_os_25spring.Prelude.{ℕ, ◌+◌, ◌*◌, ◌/◌, ◌≤◌, ◌≡◌, refl, [], ◌∷◌, arith, none}
use buaa_os_25spring.Exec.{ok}
use buaa_os_25spring.Exec.Ends.{Ends}
use buaa_os_25spring.Mmu.{page_size, ulim}
use buaa_os_25spring.Boot.{Boot, init_memory, mark_used, mark_free, free_envs}
use buaa_os_25spring.Boot.Lists.{Freed, freed_one, free_envs_lem}
use buaa_os_25spring.Env.State.{Kern, Env, Trapframe, env_runnable}
use buaa_os_25spring.Boot.Loops.{SetUp}
use buaa_os_25spring.Boot.Pages.{init_memory_lem}

abbrev switched_off : Boot
switched_off = record {
  memsize = 0;
  freemem = 0;
  pages = 0;
  ram = λ a. 255;
  mem = record { npage = 0; page_free_list = []; pp_ref = λ p. 9; frame = λ p i. 0; tlb = [] };
}

abbrev end : ℕ
end = 0x80003010

free_pages :
    (mark_free 3 5 (mark_used 5 0 (record switched_off.mem { npage = 8 }))).page_free_list
    ≡ 7 ∷ 6 ∷ 5 ∷ []
unfolding mark_free mark_used
free_pages = refl

init_memory_lem_example :
    Ends
      (λ _ t.
        (used : ℕ) × SetUp used t.mem
        × (t.pages + 65536 / page_size * 12 ≤ ulim + used * page_size)
        × (end ≤ t.pages)
        × (t.mem.npage ≡ 65536 / page_size))
      (λ e t. ⊥)
      (init_memory end 65536 switched_off)
init_memory_lem_example =
    init_memory_lem end 65536 switched_off refl (omega arith) (omega arith) refl (omega arith)

abbrev no_frame : Trapframe
no_frame = record {
  regs = λ i. 0;
  cp0_status = 0;
  hi = 0;
  lo = 0;
  cp0_badvaddr = 0;
  cp0_cause = 0;
  cp0_epc = 0;
}

abbrev running : Env
running = record {
  env_tf = no_frame;
  env_id = 0;
  env_asid = 0;
  env_parent_id = 0;
  env_status = env_runnable;
  env_pgdir = 0;
  env_pri = 0;
  env_ipc_value = 0;
  env_ipc_from = 0;
  env_ipc_recving = 0;
  env_ipc_dstva = 0;
  env_ipc_perm = 0;
  env_user_tlb_mod_entry = 0;
  env_runs = 0;
  r_path = [];
  shellid = 0;
  env_exit_value = 0;
}

abbrev new_kernel : Kern
new_kernel = record {
  mem = switched_off.mem;
  envs = λ e. running;
  env_free_list = [];
  env_sched_list = [];
  curenv = none;
  cur_pgdir = 0;
  asid_bitmap = [];
  base_pgdir = 0;
  next_id = 0;
  count = 0;
  stack_tf = no_frame;
}

in_order : free_envs 3 new_kernel ≡ ok tt (freed_one 0 (freed_one 1 (freed_one 2 new_kernel)))
unfolding free_envs
in_order = refl

all-Freed : (t : Kern) × (free_envs 1024 new_kernel ≡ ok tt t) × Freed 1024 new_kernel t
all-Freed = free_envs_lem 1024 new_kernel
