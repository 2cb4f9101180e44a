-- ===== src/Env/Tests.antt =====
-- Runs of kern/env.c and kern/sched.c on a small kernel, and the theorems at it: environments 0
-- and 1 can run, environment 0 is running, and the other environments are free.
use buaa_os_25spring.Prelude.{
  ℕ, ◌/◌, ◌<◌, ◌≤◌, ◌^◌, ◌≡◌, ◌≢◌, ◌⊎◌, refl, true, false, not, ◌&&◌, some, [], ◌∷◌, ◌==◌,
  if◌then◌else◌, arith, has, replicate, length,
}
use buaa_os_25spring.Exec.{ok, panic, e_bad_env}
use buaa_os_25spring.Exec.Ends.{Ends}
use buaa_os_25spring.Pmap.{Pmem}
use buaa_os_25spring.Env.State.{Kern, Env, Status, env_free, env_runnable, Trapframe}
use buaa_os_25spring.Env.Ids.{mkenvid, envx, asid_taken, asid_alloc, asid_free, envid2env}
use buaa_os_25spring.Env.Ids.Unique.{mkenvid_lem}
use buaa_os_25spring.Env.Ids.Asid.{Allocated, Exhausted, asid_alloc_lem, asid_free_lem}
use buaa_os_25spring.Env.Sched.{
  schedule, must_switch, env_run, requeue, pick, select, count_down, save_context,
}
use buaa_os_25spring.Env.Ids.Lookup.{Names, envid2env_lem}
use buaa_os_25spring.Env.Sched.Steps.{running, turned}
use buaa_os_25spring.Env.Sched.Invariant.{IsSched}
use buaa_os_25spring.Env.Sched.Total.{
  schedule_total, schedule_context, schedule_yields, frame_after,
}
use buaa_os_25spring.Env.Sched.Fair.{bounded_wait, Turn, ticks}

abbrev pub empty_mem : Pmem
empty_mem = record {
  npage = 6;
  page_free_list = 3 ∷ 4 ∷ 5 ∷ [];
  pp_ref = λ p. 0;
  frame = λ p i. 0;
  tlb = [];
}

abbrev pub trapframe : ℕ → Trapframe
trapframe pc = record {
  regs = λ i. 0;
  cp0_status = 0;
  hi = 0;
  lo = 0;
  cp0_badvaddr = 0;
  cp0_cause = 0;
  cp0_epc = pc;
}

abbrev pub env_with : ℕ → Status → Env
env_with id status = record {
  env_tf = trapframe id;
  env_id = id;
  env_asid = 0;
  env_parent_id = 0;
  env_status = status;
  env_pgdir = 1;
  env_pri = 2;
  env_ipc_value = 0;
  env_ipc_from = 0;
  env_ipc_recving = 0;
  env_ipc_dstva = 0;
  env_ipc_perm = 0;
  env_user_tlb_mod_entry = 0;
  env_runs = 0;
  r_path = [];
  shellid = 0;
  env_exit_value = 0;
}

abbrev pub two_envs : ℕ → Env
two_envs e =
    if e == 0
    then env_with 2048 env_runnable
    else if e == 1
    then env_with 4097 env_runnable
    else env_with 0 env_free

abbrev pub kernel : Kern
kernel = record {
  mem = empty_mem;
  envs = two_envs;
  env_free_list = 2 ∷ 3 ∷ [];
  env_sched_list = 0 ∷ 1 ∷ [];
  curenv = some 0;
  cur_pgdir = 1;
  asid_bitmap = 3 ∷ replicate 7 0;
  base_pgdir = 0;
  next_id = 2;
  count = 1;
  stack_tf = trapframe 0x400000;
}

pub kernel-IsSched : IsSched kernel
kernel-IsSched = record {
  distinct = (refl, (refl, tt));
  below = λ e h. ground arith;
  listed = λ e h. ground arith;
  current = λ c h. let q : 0 ≡ c = cc h in omega (arith, q);
}

schedule_total_example :
    ((kernel.env_sched_list ≡ []) × (schedule true kernel ≡ panic))
    ⊎ (e : ℕ) × (k' : Kern) × (schedule true kernel ≡ ok tt k')
      × (has e kernel.env_sched_list ≡ true)
      × (k'.curenv ≡ some e)
      × IsSched k'
schedule_total_example = schedule_total true kernel kernel-IsSched

yields : schedule true kernel ≡ ok tt (running (turned kernel 1) 1)
unfolding schedule select count_down must_switch env_run requeue pick save_context
yields = refl

schedule_context_example :
    ((running (turned kernel 1) 1).envs 0).env_tf
    ≡ frame_after kernel.curenv kernel.stack_tf kernel.envs 0
schedule_context_example =
    schedule_context true kernel (running (turned kernel 1) 1) 0 kernel-IsSched yields

kernel_yields : (running (turned kernel 1) 1).curenv ≢ some 0
kernel_yields =
    schedule_yields kernel (running (turned kernel 1) 1) 0 1 kernel-IsSched refl refl (λ q. cc)
      yields

abbrev two : ℕ → ℕ
two _ = 2

two-slices : (x : ℕ) → (1 ≤ 2) × (2 < 2 ^ 31)
two-slices x = (omega arith, omega arith)

kernel-Turn : Turn two two-slices 0 1 (1 ∷ []) kernel
kernel-Turn = record {
  sched = kernel-IsSched;
  list = refl;
  current = refl;
  count = refl;
  small = omega arith;
  pris = λ x h. ground arith;
}

bounded_wait_example :
    (k' : Kern) × (ticks (trapframe 0x400000 ∷ trapframe 0x400004 ∷ []) kernel ≡ ok tt k')
    × (k'.curenv ≡ some 1)
bounded_wait_example =
    bounded_wait two two-slices 1 (trapframe 0x400000 ∷ trapframe 0x400004 ∷ []) 0 1 (1 ∷ []) kernel
      kernel-Turn refl refl

second_number : Ends (Allocated kernel) (Exhausted kernel) (asid_alloc kernel)
second_number = asid_alloc_lem kernel refl

number_freed :
    Ends
      (λ _ k'.
        ((j : ℕ) → asid_taken k'.asid_bitmap j ≡ (not (j == 1) && asid_taken kernel.asid_bitmap j))
        × (k' ≡ record kernel { asid_bitmap = k'.asid_bitmap })
        × (length k'.asid_bitmap ≡ 8))
      (λ _ _. ⊥)
      (asid_free 1 kernel)
number_freed = asid_free_lem kernel 1 refl (omega arith)

new_id :
    (id : ℕ) × (mkenvid 5 kernel ≡ ok id (record kernel { next_id = 3 }))
    × (id ≢ 0)
    × (envx id ≡ 5)
    × (id < 2 ^ 32)
    × (id / 2 ^ 11 ≡ 3)
new_id = mkenvid_lem kernel 5 (omega arith) (omega arith)

abbrev later : Kern
later = record kernel { next_id = 7 }

abbrev peer : ℕ
peer = 4097

envid2env_lem_example :
    Ends
      (λ e k'.
        (k' ≡ kernel)
        × (((peer ≡ 0) × (e ≡ 0)) ⊎ (peer ≢ 0) × (e ≡ envx peer) × Names kernel 0 peer false e))
      (λ err k'.
        (k' ≡ kernel) × (err ≡ e_bad_env) × (peer ≢ 0) × ¬ Names kernel 0 peer false (envx peer))
      (envid2env peer false kernel)
envid2env_lem_example = envid2env_lem peer false 0 kernel refl
