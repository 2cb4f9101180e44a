-- ===== src/Syscall/Tests.antt =====
-- The theorems on kern/syscall_all.c at a small kernel: environments 0 and 1 can run, environment 0
-- is running, and environment 1 is not its child.
use buaa_os_25spring.Prelude.{
  ℕ, ◌+◌, ◌^◌, ◌≤◌, ◌≡◌, ◌≢◌, ◌⊎◌, ◌↔◌, inr, refl, true, false, some, arith, ◌==◌, if◌then◌else◌,
  [], ◌∷◌,
}
use buaa_os_25spring.Exec.{ok, fail, e_bad_env}
use buaa_os_25spring.Env.State.{Kern, env_not_runnable}
use buaa_os_25spring.Env.Ids.{envx}
use buaa_os_25spring.Env.Ids.Lookup.{Names}
use buaa_os_25spring.Env.Sched.Invariant.{IsSched}
use buaa_os_25spring.Env.Tests.{kernel, kernel-IsSched, trapframe, env_with}
use buaa_os_25spring.Syscall.{
  switched, sys_mem_alloc, sys_mem_map, sys_mem_unmap, sys_set_tlb_mod_entry, sys_set_trapframe,
  sys_set_env_status, sys_env_destroy, set_status, sys_ipc_recv, dev_allowed, is_illegal_va,
  is_illegal_va_range,
}
use buaa_os_25spring.Syscall.Dev.{InDevice, InUser, dev_allowed_lem}
use buaa_os_25spring.Syscall.Guard.{OutOfReach, protection}
use buaa_os_25spring.Syscall.Runnable.{set_status_keeps}
use buaa_os_25spring.Syscall.Ipc.{IsBlocked, recv_blocks}

abbrev four : ℕ
four = 4

dev_allowed_lem_example : (dev_allowed 0x400000 0x180003f8 four ≡ true) ↔ (
    ((four ≡ 1) ⊎ (four ≡ 2) ⊎ (four ≡ four))
    × InUser 0x400000 4
    × (InDevice 0x180003f8 four ⊎ (2 ^ 32 ≤ 0x180003f8 + four)))
dev_allowed_lem_example = dev_allowed_lem 0x400000 0x180003f8 four (omega arith) (omega arith)

stranger : ¬ Names kernel 0 4097 true (envx 4097)
unfolding envx
stranger n = ground (arith, n.2 refl)

legal : is_illegal_va 0x400000 ≡ false
unfolding is_illegal_va
legal = refl

legal_too : is_illegal_va 0x500000 ≡ false
unfolding is_illegal_va
legal_too = refl

legal_range : is_illegal_va_range 0x400000 152 ≡ false
unfolding is_illegal_va_range
legal_range = refl

stranger_out : OutOfReach 4097 0 kernel
stranger_out = (refl, (λ q. omega (arith, q)), stranger)

protection_example :
    (sys_mem_alloc 4097 0x400000 0 kernel ≡ fail e_bad_env kernel)
    × (sys_mem_map 4097 0x400000 0 0x500000 0 kernel ≡ fail e_bad_env kernel)
    × (sys_mem_map 0 0x400000 4097 0x500000 0 kernel ≡ fail e_bad_env kernel)
    × (sys_mem_unmap 4097 0x400000 kernel ≡ fail e_bad_env kernel)
    × (sys_set_tlb_mod_entry 4097 0 kernel ≡ fail e_bad_env kernel)
    × (sys_set_trapframe 4097 0x400000 (trapframe 0) kernel ≡ fail e_bad_env kernel)
    × (sys_set_env_status 4097 2 kernel ≡ fail e_bad_env kernel)
    × (sys_env_destroy 4097 kernel ≡ fail e_bad_env kernel)
protection_example =
    protection 4097 0 0 0x400000 0x500000 0 0 2 (trapframe 0) kernel stranger_out legal legal_too
      legal_range (inr refl)

set_status_keeps_example :
    (k' : Kern) × (set_status 1 env_not_runnable kernel ≡ ok tt k')
    × ((k'.envs 1).env_status ≡ env_not_runnable)
    × ((x : ℕ) → x ≢ 1 → k'.envs x ≡ kernel.envs x)
    × IsSched k'
set_status_keeps_example =
    set_status_keeps 1 env_not_runnable kernel (omega arith) refl refl kernel-IsSched

recv_blocks_example :
    (k' : Kern) × (e : ℕ) × (sys_ipc_recv 0 kernel ≡ ok switched k')
    × (k'.curenv ≡ some e)
    × (e ≢ 0)
    × IsBlocked 0 0 kernel.stack_tf k'
    × IsSched k'
recv_blocks_example = recv_blocks 0 1 0 kernel refl refl kernel-IsSched refl (λ q. omega (arith, q))

-- Environment 1 waits for a message.
abbrev receiving : Kern
receiving = record kernel {
  envs = λ e.
      if e == 1
      then (let v = env_with 4097 env_not_runnable in record v { env_ipc_recving = 1 })
      else kernel.envs e;
  env_sched_list = 0 ∷ [];
}
