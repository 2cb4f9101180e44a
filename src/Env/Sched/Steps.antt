-- ===== src/Env/Sched/Steps.antt =====
-- schedule of kern/sched.c: the state it ends in, on each of its ways.
use mathlib.Core.Path.{subst}
use buaa_os_25spring.Prelude.{
  ℕ, ◌+◌, ◌-◌, ◌%◌, ◌^◌, ◌≡◌, refl, sym, ap, ◌∙◌, Bool, true, false, Option, none, some, List, [],
  ◌∷◌, ◌++◌, if◌then◌else◌, erase, arith, Bool-cases, inl, inr,
}
use buaa_os_25spring.Exec.{ok, panic, and_then}
use buaa_os_25spring.Env.State.{Kern, Env, is_runnable, update_env, current_of}
use buaa_os_25spring.Env.Sched.{
  env_run, save_context, must_switch, requeue, pick, schedule, requeue_of, save_for, count_down,
  select, pick_from,
}

-- The environments after the context of `curenv` is saved and `e` is started.
abbrev pub saved_for : Option ℕ → Kern → ℕ → Env
saved_for none k = k.envs
saved_for (some c) k = update_env k.envs c (let v = k.envs c in record v { env_tf = k.stack_tf })

abbrev pub saved : Kern → ℕ → Env
saved k = saved_for k.curenv k

abbrev pub started : (ℕ → Env) → ℕ → ℕ → Env
started f e = update_env f e (let v = f e in record v { env_runs = (v.env_runs + 1) % 2 ^ 32 })

-- The state in which `env_run` leaves for user mode.
abbrev pub running : Kern → ℕ → Kern
running k e = record k {
  envs = started (saved k) e;
  curenv = some e;
  cur_pgdir = (started (saved k) e e).env_pgdir;
}

-- The list once the environment that was running has had its turn.
abbrev pub rotated_for : Option ℕ → Kern → List ℕ
rotated_for none k = k.env_sched_list
rotated_for (some c) k =
    if is_runnable (k.envs c).env_status
    then erase c k.env_sched_list ++ (c ∷ [])
    else erase c k.env_sched_list

abbrev pub rotated : Kern → List ℕ
rotated k = rotated_for k.curenv k

saved-status :
    (o : Option ℕ) (k : Kern) (e : ℕ) → (saved_for o k e).env_status ≡ (k.envs e).env_status
saved-status none k e = refl
saved-status (some c) k e = ground arith

save_for_lem : (o : Option ℕ) (k : Kern) → save_for o k ≡ ok tt (record k { envs = saved_for o k })
save_for_lem none k = refl
save_for_lem (some c) k = refl

pub env_run_lem :
    (e : ℕ) (k : Kern)
    → is_runnable (k.envs e).env_status ≡ true
    → env_run e k ≡ ok tt (running k e)
unfolding env_run save_context
env_run_lem e k h = rw (h, save_for_lem k.curenv k) refl

pub requeue_lem : (k : Kern) → requeue k ≡ ok tt (record k { env_sched_list = rotated k })
unfolding requeue
requeue_lem k = by_case k.curenv
  where
    by_case :
        (o : Option ℕ) → requeue_of o k ≡ ok tt (record k { env_sched_list = rotated_for o k })
    by_case none = refl
    by_case (some c) = elim (Bool-cases (is_runnable (k.envs c).env_status)) [
      | inl h ↦ rw h refl
      | inr h ↦ rw h refl
    ]

abbrev pub with_count : ℕ → Kern → Kern
with_count n k = record k { count = n }

abbrev pub with_list : List ℕ → Kern → Kern
with_list l k = record k { env_sched_list = l }

-- `count--`
abbrev pub minus_one : ℕ → ℕ
minus_one n = (n + 2 ^ 32 - 1) % 2 ^ 32

count_down_lem :
    (e : ℕ) (k : Kern)
    → is_runnable (k.envs e).env_status ≡ true
    → count_down e k ≡ ok tt (running (with_count (minus_one k.count) k) e)
unfolding count_down
count_down_lem e k h = env_run_lem e (with_count (minus_one k.count) k) h

select_current :
    (c : ℕ) (yield : Bool) (k : Kern)
    → must_switch yield k ≡ false
    → k.curenv ≡ some c
    → select yield k ≡ ok c k
unfolding select
select_current c yield k h hc = rw (h) (subst (λ o. current_of o k ≡ ok c k) (sym hc) refl)

select_next :
    (yield : Bool) (k : Kern)
    → must_switch yield k ≡ true
    → select yield k ≡ pick_from (rotated k) (with_list (rotated k) k)
unfolding select pick
select_next yield k h = rw (h, requeue_lem k) refl

-- The three ways of `schedule`.
pub schedule_keeps :
    (c : ℕ) (yield : Bool) (k : Kern)
    → must_switch yield k ≡ false
    → k.curenv ≡ some c
    → is_runnable (k.envs c).env_status ≡ true
    → schedule yield k ≡ ok tt (running (with_count (minus_one k.count) k) c)
unfolding schedule
schedule_keeps c yield k h hc hr =
    ap (λ r. and_then r count_down) (select_current c yield k h hc) ∙ count_down_lem c k hr

pub schedule_panics :
    (yield : Bool) (k : Kern)
    → must_switch yield k ≡ true
    → rotated k ≡ []
    → schedule yield k ≡ panic
unfolding schedule
schedule_panics yield k h hr =
    ap (λ r. and_then r count_down)
      (select_next yield k h
        ∙ subst (λ l. pick_from l (with_list (rotated k) k) ≡ panic) (sym hr) refl)

abbrev pub turned : Kern → ℕ → Kern
turned k e = with_count (minus_one (k.envs e).env_pri) (with_list (rotated k) k)

pub schedule_switches :
    (yield : Bool) (e : ℕ) (rest : List ℕ) (k : Kern)
    → must_switch yield k ≡ true
    → rotated k ≡ e ∷ rest
    → is_runnable (k.envs e).env_status ≡ true
    → schedule yield k ≡ ok tt (running (turned k e) e)
unfolding schedule
schedule_switches yield e rest k h hr he =
    ap (λ r. and_then r count_down)
      (select_next yield k h
        ∙ subst (λ l. pick_from l k' ≡ ok e (with_count (k.envs e).env_pri k')) (sym hr) refl)
    ∙ count_down_lem e (with_count (k.envs e).env_pri k') he
  where
    k' : Kern
    k' = with_list (rotated k) k
