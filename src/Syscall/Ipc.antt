-- ===== src/Syscall/Ipc.antt =====
-- sys_ipc_recv and sys_ipc_try_send of kern/syscall_all.c: the rendezvous of two environments.
use buaa_os_25spring.Prelude.{
  ℕ, ◌<◌, ◌≡◌, ◌≢◌, inl, inr, refl, sym, ap, ◌∙◌, true, false, not, ◌&&◌, some, [], ◌∷◌, ◌++◌, ◌==◌,
  erase, has, ◌⊎◌, ==_self, has-erase_ne, has-erase_self, bit_or, Distinct, List,
}
use buaa_os_25spring.Exec.{ok, and_then, ◌>>◌}
use buaa_os_25spring.Mmu.{pte_v}
use buaa_os_25spring.Env.State.{
  Kern, Env, Trapframe, env_runnable, env_not_runnable, is_runnable, nenv, update_env, current_of,
}
use buaa_os_25spring.Env.Sched.{schedule}
use buaa_os_25spring.Env.Sched.Invariant.{IsSched}
use buaa_os_25spring.Env.Sched.Steps.{running, with_count, with_list}
use buaa_os_25spring.Env.Sched.Total.{
  chosen, Chosen, running-keeps, running-IsSched, schedule_context, frame_after,
}
use buaa_os_25spring.Syscall.Runnable.{IsSched-blocked}
use buaa_os_25spring.Syscall.{
  switched, block_receiver, sys_ipc_recv, is_illegal_va, set_reg, give_up,
}

-- The environment that `sys_ipc_recv` leaves blocked.
abbrev waiting : Env → ℕ → Env
waiting v dstva = record v {
  env_ipc_recving = 1;
  env_ipc_dstva = dstva;
  env_status = env_not_runnable;
}

abbrev blocked : ℕ → ℕ → Kern → Kern
blocked c dstva k = record k {
  envs = update_env k.envs c (waiting (k.envs c) dstva);
  env_sched_list = erase c k.env_sched_list;
  stack_tf = set_reg 2 0 k.stack_tf;
}

blocked-IsSched : (c dstva : ℕ) (k : Kern) → c < nenv → IsSched k → IsSched (blocked c dstva k)
blocked-IsSched c dstva k hc g =
    IsSched-blocked k (blocked c dstva k) g c hc (waiting (k.envs c) dstva) refl refl refl refl

recv_runs :
    (c dstva : ℕ) (k : Kern)
    → k.curenv ≡ some c
    → (not (dstva == 0) && is_illegal_va dstva) ≡ false
    → sys_ipc_recv dstva k ≡ and_then (schedule true (blocked c dstva k)) (λ _ s. ok switched s)
unfolding sys_ipc_recv block_receiver
recv_runs c dstva k hc legal =
    rw legal (ap (λ o. and_then (current_of o k) (λ c. block_receiver c dstva >> give_up)) hc)

-- An environment that can be sent a message, for the address `dstva`, and that cannot run until then:
-- it is neither runnable nor in the list, and returns 0 from its call when it runs again.
abbrev pub IsBlocked : ℕ → ℕ → Trapframe → Kern → Type 0
IsBlocked c dstva tf k =
    ((k.envs c).env_ipc_recving ≡ 1)
    × ((k.envs c).env_ipc_dstva ≡ dstva)
    × ((k.envs c).env_status ≡ env_not_runnable)
    × ((k.envs c).env_tf ≡ set_reg 2 0 tf)
    × (has c k.env_sched_list ≡ false)

-- The environment that receives is still blocked when another one is started.
started-IsBlocked :
    (c dstva e n : ℕ) (l : List ℕ) (k : Kern)
    → k.curenv ≡ some c
    → c < nenv
    → IsSched k
    → Chosen true (blocked c dstva k) e n l
    → IsBlocked c dstva k.stack_tf (running (with_count n (with_list l (blocked c dstva k))) e)
started-IsBlocked c dstva e n l k hc small g ch =
    let b = blocked c dstva k in
    let s = with_count n (with_list l b) in
    (
      running-keeps (λ v. v.env_ipc_recving) s e c (λ v t. refl) (λ v n. refl)
          ∙ rw (==_self c) refl,
      running-keeps (λ v. v.env_ipc_dstva) s e c (λ v t. refl) (λ v n. refl) ∙ rw (==_self c) refl,
      running-keeps (λ v. v.env_status) s e c (λ v t. refl) (λ v n. refl) ∙ rw (==_self c) refl,
      schedule_context true b (running s e) c (blocked-IsSched c dstva k small g) ch.ends
          ∙ ap (λ o. frame_after o b.stack_tf b.envs c) hc
          ∙ rw (==_self c) refl,
      ch.same c ∙ has-erase_self c k.env_sched_list g.distinct,
    )

-- If the running environment `c` receives, at address 0 or at a legal address, while another
-- environment can run, then it gives the processor to another environment. It is left waiting for a
-- message at this address, is not runnable and not in the list, and will return 0; the list again
-- holds exactly the runnable environments.
pub recv_blocks :
    (c x dstva : ℕ) (k : Kern)
    → k.curenv ≡ some c
    → (not (dstva == 0) && is_illegal_va dstva) ≡ false
    → IsSched k
    → has x k.env_sched_list ≡ true
    → x ≢ c
    → (k' : Kern) × (e : ℕ) × (sys_ipc_recv dstva k ≡ ok switched k')
      × (k'.curenv ≡ some e)
      × (e ≢ c)
      × IsBlocked c dstva k.stack_tf k'
      × IsSched k'
recv_blocks c x dstva k hc legal g hx ne =
    let b = blocked c dstva k in
    let small = g.current c hc in
    let gb = blocked-IsSched c dstva k small g in
    elim (chosen true b gb) [
      | inl (none_left, _) ↦
          absurd (
            true≢false (sym hx ∙ sym (has-erase_ne x c k.env_sched_list ne) ∙ ap (has x) none_left))
      | inr (e, n, l, ch) ↦ (
        running (with_count n (with_list l b)) e,
        e,
        recv_runs c dstva k hc legal ∙ ap (λ r. and_then r (λ _ s. ok switched s)) ch.ends,
        refl,
        λ q. true≢false (sym ch.member ∙ rw q (has-erase_self c k.env_sched_list g.distinct)),
        started-IsBlocked c dstva e n l k hc small g ch,
        running-IsSched true b e n l gb ch,
      )
    ]
  where
    true≢false : true ≢ false
    true≢false q = cc

-- What the receiver finds.
abbrev pub Delivered : Env → ℕ → ℕ → ℕ → Type 0
Delivered v value sender perm =
    (v.env_ipc_value ≡ value)
    × (v.env_ipc_from ≡ sender)
    × (v.env_ipc_perm ≡ bit_or pte_v perm)
    × (v.env_ipc_recving ≡ 0)
    × (v.env_status ≡ env_runnable)

abbrev woken : Env → ℕ → ℕ → ℕ → Env
woken v value sender perm = record v {
  env_ipc_value = value;
  env_ipc_from = sender;
  env_ipc_perm = bit_or pte_v perm;
  env_ipc_recving = 0;
  env_status = env_runnable;
}

abbrev sent : ℕ → ℕ → ℕ → ℕ → Kern → Kern
sent c e value perm k = record k {
  envs = update_env k.envs e (woken (k.envs e) value (k.envs c).env_id perm);
  env_sched_list = k.env_sched_list ++ (e ∷ []);
}

-- What the list holds once the receiver is put into it: where it could not run before, exactly the
-- runnable environments again; where it could, it is there twice.
abbrev pub Relisted : ℕ → Kern → Kern → Type 0
Relisted e k k' =
    (is_runnable (k.envs e).env_status ≡ false) × IsSched k'
    ⊎ (is_runnable (k.envs e).env_status ≡ true) × ¬ Distinct k'.env_sched_list
