-- ===== src/Syscall.antt =====
-- kern/syscall_all.c: the system calls on environments, memory and messages. A system call either
-- returns a value to its caller, fails with an error code, or gives the processor away.
pub mod Guard
pub mod Runnable
pub mod Ipc
pub mod Dev
mod Tests
use buaa_os_25spring.Prelude.{
  ℕ, zero, suc, ◌+◌, ◌-◌, ◌%◌, ◌^◌, Bool, true, false, not, ◌&&◌, ◌||◌, Option, none, some, List,
  [], ◌∷◌, ◌++◌, ltb, leb, ◌==◌, if◌then◌else◌, erase, bit_or,
}
use buaa_os_25spring.Exec.{
  ok, fail, panic, Cmd, pure, throw, get, modify, halt, assert, ◌>>=◌, ◌>>◌, e_inval,
  e_ipc_not_recv,
}
use buaa_os_25spring.Mmu.{utop, pte_v}
use buaa_os_25spring.Pmap.{page_alloc, page_insert, page_lookup, page_remove}
use buaa_os_25spring.Env.State.{
  Kern, KCmd, Env, Status, env_runnable, env_not_runnable, Trapframe, is_runnable, is_free,
  is_blocked, set_env, lift, current_of,
}
use buaa_os_25spring.Env.Ids.{envid2env, envx}
use buaa_os_25spring.Env.Sched.{schedule}
use buaa_os_25spring.Env.Alloc.{env_alloc, env_destroy}

-- How a system call that does not fail ends.
pub data Outcome : Type 0 where
  returned : ℕ → Outcome
  switched : Outcome

-- `UTEMP`
abbrev pub utemp : ℕ
utemp = 0x3fe000

unfoldable pub is_illegal_va : ℕ → Bool
is_illegal_va va = ltb va utemp || leb utop va

unfoldable pub is_illegal_va_range : ℕ → ℕ → Bool
is_illegal_va_range va len =
    if len == 0
    then false
    else ltb ((va + len) % 2 ^ 32) va || ltb va utemp || ltb utop ((va + len) % 2 ^ 32)

-- `schedule(1)`, which does not return.
abbrev pub give_up : KCmd Outcome
give_up = schedule true >> pure switched

abbrev pub self : KCmd ℕ
self k = current_of k.curenv k

abbrev pub is_current : Option ℕ → ℕ → Bool
is_current none e = false
is_current (some c) e = c == e

abbrev pub sched_remove : ℕ → KCmd (Unit {0})
sched_remove e = modify (λ s. record s { env_sched_list = erase e s.env_sched_list })

abbrev pub sched_insert_tail : ℕ → KCmd (Unit {0})
sched_insert_tail e = modify (λ s. record s { env_sched_list = s.env_sched_list ++ (e ∷ []) })

-- `page_insert` and `page_remove` in the address space of environment `e`.
abbrev pub insert_in : ℕ → ℕ → ℕ → ℕ → KCmd (Unit {0})
insert_in e pp va perm k = lift (page_insert (k.envs e).env_pgdir (k.envs e).env_asid pp va perm) k

abbrev pub lookup_in : ℕ → ℕ → KCmd (Option (ℕ × (ℕ × ℕ)))
lookup_in e va k = lift (page_lookup (k.envs e).env_pgdir va) k

abbrev pub remove_in : ℕ → ℕ → KCmd (Unit {0})
remove_in e va k = lift (page_remove (k.envs e).env_pgdir (k.envs e).env_asid va) k

unfoldable pub sys_getenvid : KCmd Outcome
sys_getenvid = do c ← self; k ← get; pure (returned (k.envs c).env_id)

unfoldable pub sys_yield : KCmd Outcome
sys_yield = give_up

unfoldable pub sys_set_tlb_mod_entry : ℕ → ℕ → KCmd Outcome
sys_set_tlb_mod_entry envid func = do
  e ← envid2env envid true
  set_env e (λ v. record v { env_user_tlb_mod_entry = func })
  pure (returned 0)

unfoldable pub sys_mem_alloc : ℕ → ℕ → ℕ → KCmd Outcome
unfolding is_illegal_va
sys_mem_alloc envid va perm = if is_illegal_va va then throw e_inval else (do
  e ← envid2env envid true
  pp ← lift page_alloc
  insert_in e pp va perm
  pure (returned 0))

-- The page that a lookup has found, or -E_INVAL.
abbrev pub found_page : Option (ℕ × (ℕ × ℕ)) → KCmd ℕ
found_page none = throw e_inval
found_page (some (pp, _)) = pure pp

unfoldable pub sys_mem_map : ℕ → ℕ → ℕ → ℕ → ℕ → KCmd Outcome
unfolding is_illegal_va
sys_mem_map srcid srcva dstid dstva perm =
    if is_illegal_va srcva || is_illegal_va dstva then throw e_inval else (do
      src ← envid2env srcid true
      dst ← envid2env dstid true
      found ← lookup_in src srcva
      pp ← found_page found
      insert_in dst pp dstva perm
      pure (returned 0))

unfoldable pub sys_mem_unmap : ℕ → ℕ → KCmd Outcome
unfolding is_illegal_va
sys_mem_unmap envid va =
    if is_illegal_va va
    then throw e_inval
    else (do e ← envid2env envid true; remove_in e va; pure (returned 0))

-- The two values of 'status' that a program may set.
abbrev pub settable : ℕ → Option Status
settable n = if n == 1 then some env_runnable else if n == 2 then some env_not_runnable else none

-- Steps 3 and 4 of `sys_set_env_status`.
unfoldable pub set_status : ℕ → Status → KCmd (Unit {0})
set_status e status = do
  k ← get
  if is_blocked status && not (is_blocked (k.envs e).env_status) then sched_remove e else pure tt
  if is_runnable status && not (is_runnable (k.envs e).env_status)
      then sched_insert_tail e
      else pure tt
  set_env e (λ v. record v { env_status = status })

abbrev pub set_env_status_to : ℕ → Option Status → KCmd Outcome
set_env_status_to envid none = throw e_inval
set_env_status_to envid (some status) = do
  e ← envid2env envid true
  set_status e status
  k ← get
  if is_current k.curenv e then give_up else pure (returned 0)

unfoldable pub sys_set_env_status : ℕ → ℕ → KCmd Outcome
unfolding set_status
sys_set_env_status envid status = set_env_status_to envid (settable status)

-- A target that is `curenv` gets its new registers through the frame below KSTACKTOP. `tf` is
-- what the caller's memory holds at `va`.
unfoldable pub sys_set_trapframe : ℕ → ℕ → Trapframe → KCmd Outcome
unfolding is_illegal_va_range
sys_set_trapframe envid va tf = if is_illegal_va_range va 152 then throw e_inval else (do
  e ← envid2env envid true
  k ← get
  if is_current k.curenv e
      then (do modify (λ s. record s { stack_tf = tf }); pure (returned (tf.regs 2)))
      else (do set_env e (λ v. record v { env_tf = tf }); pure (returned 0)))

abbrev pub set_reg : ℕ → ℕ → Trapframe → Trapframe
set_reg i v tf = record tf { regs = λ j. if j == i then v else tf.regs j }

-- Steps 2 to 4 of `sys_ipc_recv`.
unfoldable pub block_receiver : ℕ → ℕ → KCmd (Unit {0})
block_receiver c dstva = do
  set_env c
      (λ v. record v { env_ipc_recving = 1; env_ipc_dstva = dstva; env_status = env_not_runnable })
  sched_remove c
  modify (λ s. record s { stack_tf = set_reg 2 0 s.stack_tf })

unfoldable pub sys_ipc_recv : ℕ → KCmd Outcome
unfolding is_illegal_va block_receiver
sys_ipc_recv dstva =
    if not (dstva == 0) && is_illegal_va dstva
    then throw e_inval
    else (do c ← self; block_receiver c dstva; give_up)

-- Steps 4 and 5 of `sys_ipc_try_send`.
unfoldable pub wake_receiver : ℕ → ℕ → ℕ → ℕ → KCmd (Unit {0})
wake_receiver c e value perm k =
    (do
      set_env e (λ v. record v {
        env_ipc_value = value;
        env_ipc_from = (k.envs c).env_id;
        env_ipc_perm = bit_or pte_v perm;
        env_ipc_recving = 0;
        env_status = env_runnable;
      })
      sched_insert_tail e)
      k

-- Step 6 of `sys_ipc_try_send`.
unfoldable pub send_page : ℕ → ℕ → ℕ → ℕ → KCmd (Unit {0})
send_page c e srcva perm = if srcva == 0 then pure tt else (do
  found ← lookup_in c srcva
  pp ← found_page found
  k ← get
  insert_in e pp (k.envs e).env_ipc_dstva perm)

-- Steps 3 to 6 of `sys_ipc_try_send`.
unfoldable pub send_to : ℕ → ℕ → ℕ → ℕ → KCmd Outcome
unfolding wake_receiver send_page
send_to e value srcva perm = do
  k ← get
  if (k.envs e).env_ipc_recving == 0
      then throw e_ipc_not_recv
      else (do c ← self; wake_receiver c e value perm; send_page c e srcva perm; pure (returned 0))

unfoldable pub sys_ipc_try_send : ℕ → ℕ → ℕ → ℕ → KCmd Outcome
unfolding is_illegal_va send_to
sys_ipc_try_send envid value srcva perm =
    if not (srcva == 0) && is_illegal_va srcva
    then throw e_inval
    else (do e ← envid2env envid false; send_to e value srcva perm)

-- Only an environment that is free again has an exit value for those who wait.
unfoldable pub sys_wait : ℕ → KCmd Outcome
sys_wait envid = do
  k ← get
  let e = k.envs (envx envid)
  if is_free e.env_status then pure (returned e.env_exit_value) else pure (returned (2 ^ 32 - 1))

unfoldable pub sys_exit : ℕ → KCmd Outcome
sys_exit value = do
  c ← self
  set_env c (λ v. record v { env_exit_value = value })
  pure (returned 0)

-- The checks that `sys_write_dev` and `sys_read_dev` share, on 32-bit addresses.
unfoldable pub dev_allowed : ℕ → ℕ → ℕ → Bool
unfolding is_illegal_va_range
dev_allowed va pa len =
    (len == 1 || len == 2 || len == 4)
    && not (is_illegal_va_range va len)
    && (leb 0x180003f8 pa && leb ((pa + len) % 2 ^ 32) (0x180003f8 + 0x20)
        || leb 0x180001f0 pa && leb ((pa + len) % 2 ^ 32) (0x180001f0 + 0x8))

unfoldable pub sys_env_destroy : ℕ → KCmd Outcome
sys_env_destroy envid = do
  e ← envid2env envid true
  gone ← env_destroy e
  if gone then pure switched else pure (returned 0)

-- The child of `c`: it returns 0 from the call, and waits until its status is set.
unfoldable pub set_up_child : ℕ → ℕ → KCmd Outcome
set_up_child c e = do
  k ← get
  let parent = k.envs c
  set_env e (λ v. record v {
    env_tf = set_reg 2 0 k.stack_tf;
    env_status = env_not_runnable;
    env_pri = parent.env_pri;
    r_path = parent.r_path;
    shellid = parent.shellid;
  })
  pure (returned (k.envs e).env_id)

unfoldable pub sys_exofork : KCmd Outcome
unfolding set_up_child
sys_exofork = do c ← self; k ← get; e ← env_alloc (k.envs c).env_id; set_up_child c e
