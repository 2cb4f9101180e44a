-- ===== src/Env/Sched.antt =====
-- schedule of kern/sched.c and env_run of kern/env.c. Neither returns: the command ends where
-- `env_pop_tf` gives the processor to `curenv`.
pub mod Steps
pub mod Invariant
pub mod Total
pub mod Fair
use buaa_os_25spring.Prelude.{
  ℕ, ◌+◌, ◌-◌, ◌%◌, ◌^◌, Bool, true, false, not, ◌||◌, Option, none, some, List, [], ◌∷◌, ◌++◌,
  ◌==◌, leb, if◌then◌else◌, erase,
}
use buaa_os_25spring.Exec.{ok, panic, pure, get, modify, assert, halt, ◌>>=◌, ◌>>◌}
use buaa_os_25spring.Env.State.{Kern, KCmd, Env, is_runnable, set_env, current_of}

-- Saves the registers below KSTACKTOP for the environment that was running.
abbrev pub save_for : Option ℕ → KCmd (Unit {0})
save_for none k = ok tt k
save_for (some c) k = set_env c (λ v. record v { env_tf = k.stack_tf }) k

unfoldable pub save_context : KCmd (Unit {0})
save_context k = save_for k.curenv k

unfoldable pub env_run : ℕ → KCmd (Unit {0})
unfolding save_context
env_run e = do
  k ← get
  assert (is_runnable (k.envs e).env_status)
  save_context
  modify (λ s. record s { curenv = some e })
  set_env e (λ v. record v { env_runs = (v.env_runs + 1) % 2 ^ 32 })
  modify (λ s. record s { cur_pgdir = (s.envs e).env_pgdir })

-- `count <= 0` on the bits of an `int`.
abbrev pub expired : ℕ → Bool
expired count = count == 0 || leb (2 ^ 31) count

-- `e == NULL || e->env_status != ENV_RUNNABLE`
abbrev pub cannot_run : Option ℕ → Kern → Bool
cannot_run none k = true
cannot_run (some e) k = not (is_runnable (k.envs e).env_status)

unfoldable pub must_switch : Bool → Kern → Bool
must_switch yield k = yield || expired k.count || cannot_run k.curenv k

-- Takes `e` out of the list, and puts it back at the end if it can still run.
abbrev pub requeue_of : Option ℕ → KCmd (Unit {0})
requeue_of none = pure tt
requeue_of (some e) = do
  modify (λ s. record s { env_sched_list = erase e s.env_sched_list })
  k ← get
  if is_runnable (k.envs e).env_status
      then modify (λ s. record s { env_sched_list = s.env_sched_list ++ (e ∷ []) })
      else pure tt

unfoldable pub requeue : KCmd (Unit {0})
requeue k = requeue_of k.curenv k

abbrev pub pick_from : List ℕ → KCmd ℕ
pick_from [] k = panic
pick_from (e ∷ rest) k = ok e (record k { count = (k.envs e).env_pri })

-- The first of the list, with `count` set to its priority.
unfoldable pub pick : KCmd ℕ
pick k = pick_from k.env_sched_list k

-- The environment to run, after the list is updated.
unfoldable pub select : Bool → KCmd ℕ
unfolding must_switch requeue pick
select yield k = (if must_switch yield k then (do requeue; pick) else current_of k.curenv) k

-- `count--` on the bits of an `int`, and `env_run(e)`.
unfoldable pub count_down : ℕ → KCmd (Unit {0})
count_down e = do modify (λ s. record s { count = (s.count + 2 ^ 32 - 1) % 2 ^ 32 }); env_run e

unfoldable pub schedule : Bool → KCmd (Unit {0})
unfolding select count_down
schedule yield = do e ← select yield; count_down e
