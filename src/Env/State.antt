-- ===== src/Env/State.antt =====
-- The kernel's state (include/env.h and the globals of kern/env.c, kern/sched.c), and commands.
use buaa_os_25spring.Prelude.{
  ℕ, Bool, true, false, Option, List, none, some, ◌==◌, if◌then◌else◌, ◌≡◌, refl, ==_self, ==_ne,
  ℕ_discrete,
}
use buaa_os_25spring.Exec.{Run, ok, fail, panic, Cmd}
use buaa_os_25spring.Pmap.{Pmem, MemCmd}

-- `env_status` of include/env.h.
pub data Status : Type 0 where
  env_free env_runnable env_not_runnable : Status

-- `struct Trapframe`: the saved registers.
pub record Trapframe : Type 0 where
  pub regs : ℕ → ℕ
  pub cp0_status : ℕ
  pub hi : ℕ
  pub lo : ℕ
  pub cp0_badvaddr : ℕ
  pub cp0_cause : ℕ
  pub cp0_epc : ℕ

pub record Env : Type 0 where
  pub env_tf : Trapframe
  pub env_id : ℕ
  pub env_asid : ℕ
  pub env_parent_id : ℕ
  pub env_status : Status
  pub env_pgdir : ℕ
  pub env_pri : ℕ
  pub env_ipc_value : ℕ
  pub env_ipc_from : ℕ
  pub env_ipc_recving : ℕ
  pub env_ipc_dstva : ℕ
  pub env_ipc_perm : ℕ
  pub env_user_tlb_mod_entry : ℕ
  pub env_runs : ℕ
  pub r_path : List ℕ
  pub shellid : ℕ
  pub env_exit_value : ℕ

-- `next_id` is the static counter of `mkenvid`, `count` the one of `schedule` as a 32-bit pattern,
-- and `stack_tf` the trap frame below KSTACKTOP.
pub record Kern : Type 0 where
  pub mem : Pmem
  pub envs : ℕ → Env
  pub env_free_list : List ℕ
  pub env_sched_list : List ℕ
  pub curenv : Option ℕ
  pub cur_pgdir : ℕ
  pub asid_bitmap : List ℕ
  pub base_pgdir : ℕ
  pub next_id : ℕ
  pub count : ℕ
  pub stack_tf : Trapframe

abbrev pub KCmd : Type 0 → Type 0
KCmd = Cmd Kern

abbrev pub nenv : ℕ
nenv = 1024

abbrev pub update_env : (ℕ → Env) → ℕ → Env → ℕ → Env
update_env f e v i = if i == e then v else f i

-- A part of the environments that a change keeps.
pub update_env-keeps :
    {A : Type 0} (p : Env → A) (f : ℕ → Env) (e : ℕ) (v : Env) (x : ℕ)
    → p v ≡ p (f e)
    → p (update_env f e v x) ≡ p (f x)
update_env-keeps p f e v x h = elim (ℕ_discrete x e) [
  | yes q ↦ rw (q, ==_self e) h
  | no ne ↦ rw (==_ne x e ne) refl
]

-- A change of one environment.
abbrev pub set_env : ℕ → (Env → Env) → KCmd (Unit {0})
set_env e f k = ok tt (record k { envs = update_env k.envs e (f (k.envs e)) })

-- A command on the memory, within the kernel's state.
abbrev pub lift_run : {A : Type 0} → Kern → Run Pmem A → Run Kern A
lift_run k (ok a m) = ok a (record k { mem = m })
lift_run k (fail e m) = fail e (record k { mem = m })
lift_run k panic = panic

abbrev pub lift : {A : Type 0} → MemCmd A → KCmd A
lift c k = lift_run k (c k.mem)

abbrev pub is_runnable : Status → Bool
is_runnable env_runnable = true
is_runnable _ = false

abbrev pub is_free : Status → Bool
is_free env_free = true
is_free _ = false

abbrev pub is_blocked : Status → Bool
is_blocked env_not_runnable = true
is_blocked _ = false

-- `curenv`, where the code follows it without a test.
abbrev pub current_of : Option ℕ → KCmd ℕ
current_of none k = panic
current_of (some e) k = ok e k
