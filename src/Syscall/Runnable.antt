-- ===== src/Syscall/Runnable.antt =====
-- sys_set_env_status, sys_ipc_recv and sys_ipc_try_send of kern/syscall_all.c keep the list of the
-- runnable environments.
use mathlib.Core.Path.{subst}
use buaa_os_25spring.Prelude.{
  ℕ, ◌<◌, ◌≡◌, ◌≢◌, refl, sym, ap, ◌∙◌, true, false, ◌||◌, some, List, [], ◌∷◌, ◌++◌, arith, ◌==◌,
  erase, has, Distinct, ℕ_discrete, ==_self, ==_ne, has-append, has-erase_ne, has-erase_self,
  Distinct-erase, Distinct-append_one,
}
use buaa_os_25spring.Exec.{ok}
use buaa_os_25spring.Env.State.{
  Kern, Env, Status, env_free, env_runnable, env_not_runnable, is_runnable, is_free, nenv,
  update_env,
}
use buaa_os_25spring.Env.Sched.Invariant.{IsSched}
use buaa_os_25spring.Env.Sched.Steps.{with_list}
use buaa_os_25spring.Syscall.{set_status}

pub has-tail : (x e : ℕ) (xs : List ℕ) → has x (xs ++ (e ∷ [])) ≡ (has x xs || x == e)
has-tail x e xs = has-append x xs (e ∷ []) ∙ ground arith

module _ (k : Kern) (k' : Kern) (g : IsSched k) (e : ℕ) (he : e < nenv) (v : Env)
    (envs : k'.envs ≡ update_env k.envs e v) (current : k'.curenv ≡ k.curenv) where
  other : (x : ℕ) → x ≢ e → (k'.envs x).env_status ≡ (k.envs x).env_status
  other x ne = ap (λ f. (f x).env_status) envs ∙ rw (==_ne x e ne) refl

  same : (k'.envs e).env_status ≡ v.env_status
  same = ap (λ f. (f e).env_status) envs ∙ rw (==_self e) refl

  current_below : (c : ℕ) → k'.curenv ≡ some c → c < nenv
  current_below c h = g.current c (sym current ∙ h)

  pub IsSched-woken :
      has e k.env_sched_list ≡ false
      → is_runnable v.env_status ≡ true
      → k'.env_sched_list ≡ k.env_sched_list ++ (e ∷ [])
      → IsSched k'
  IsSched-woken out run list = record {
    distinct = subst Distinct (sym list) (Distinct-append_one k.env_sched_list e g.distinct out);
    below = λ x h. elim (ℕ_discrete x e) [
      | yes q ↦ rw q he
      | no ne ↦
          g.below x
            (ground (arith, has-tail x e k.env_sched_list, ap (has x) list, h, ==_ne x e ne))
    ];
    listed = λ x hx. ap (has x) list ∙ has-tail x e k.env_sched_list ∙ (elim (ℕ_discrete x e) [
      | yes q ↦ rw (q, out, ==_self e, same, run) refl
      | no ne ↦ rw (==_ne x e ne, other x ne, ← g.listed x hx) (ground arith)
    ]);
    current = current_below;
  }

  pub IsSched-blocked :
      is_runnable v.env_status ≡ false → k'.env_sched_list ≡ erase e k.env_sched_list → IsSched k'
  IsSched-blocked stop list = record {
    distinct = subst Distinct (sym list) (Distinct-erase e k.env_sched_list g.distinct);
    below = λ x h. elim (ℕ_discrete x e) [
      | yes q ↦ rw q he
      | no ne ↦ g.below x (sym (ap (has x) list ∙ has-erase_ne x e k.env_sched_list ne) ∙ h)
    ];
    listed = λ x hx. ap (has x) list ∙ (elim (ℕ_discrete x e) [
      | yes q ↦ rw (q, has-erase_self e k.env_sched_list g.distinct, same, stop) refl
      | no ne ↦
          has-erase_ne x e k.env_sched_list ne ∙ g.listed x hx ∙ ap is_runnable (sym (other x ne))
    ]);
    current = current_below;
  }

  pub IsSched-kept :
      is_runnable v.env_status ≡ is_runnable (k.envs e).env_status
      → k'.env_sched_list ≡ k.env_sched_list
      → IsSched k'
  IsSched-kept keep list = record {
    distinct = subst Distinct (sym list) g.distinct;
    below = λ x h. g.below x (sym (ap (has x) list) ∙ h);
    listed = λ x hx. ap (has x) list ∙ g.listed x hx ∙ (elim (ℕ_discrete x e) [
      | yes q ↦ rw (q, same, keep) refl
      | no ne ↦ ap is_runnable (sym (other x ne))
    ]);
    current = current_below;
  }

-- The state in which an environment of the wanted status is left.
abbrev with_status : ℕ → Status → Kern → Kern
with_status e status k = record k {
  envs = update_env k.envs e (let v = k.envs e in record v { env_status = status });
}

-- For a status that a program may set and a list of exactly the runnable environments, steps 3 and
-- 4 of `sys_set_env_status` never fail and never panic; the environment has the new status, every
-- other environment keeps its own, and the list again holds exactly the runnable environments.
pub set_status_keeps :
    (e : ℕ) (status : Status) (k : Kern)
    → e < nenv
    → is_free (k.envs e).env_status ≡ false
    → is_free status ≡ false
    → IsSched k
    → (k' : Kern) × (set_status e status k ≡ ok tt k')
      × ((k'.envs e).env_status ≡ status)
      × ((x : ℕ) → x ≢ e → k'.envs x ≡ k.envs x)
      × IsSched k'
unfolding set_status
set_status_keeps e status k he used free g = by_case status (k.envs e).env_status refl free
  where
    Goal : Status → Type 0
    Goal status =
        (k' : Kern) × (set_status e status k ≡ ok tt k')
        × ((k'.envs e).env_status ≡ status)
        × ((x : ℕ) → x ≢ e → k'.envs x ≡ k.envs x)
        × IsSched k'

    stated : Status → Env
    stated status = let v = k.envs e in record v { env_status = status }

    by_case :
        (status old : Status) → (k.envs e).env_status ≡ old → is_free status ≡ false → Goal status
    by_case env_free old h f = cc
    by_case env_runnable env_runnable h f = (
      with_status e env_runnable k,
      rw h refl,
      rw (==_self e) refl,
      λ x ne. rw (==_ne x e ne) refl,
      IsSched-kept k (with_status e env_runnable k) g e he (stated env_runnable) refl refl
          (rw h refl) refl,
    )
    by_case env_runnable env_not_runnable h f = (
      with_list (k.env_sched_list ++ (e ∷ [])) (with_status e env_runnable k),
      rw h refl,
      rw (==_self e) refl,
      λ x ne. rw (==_ne x e ne) refl,
      IsSched-woken k (with_list (k.env_sched_list ++ (e ∷ [])) (with_status e env_runnable k)) g e
          he (stated env_runnable) refl refl (g.listed e he ∙ rw h refl) refl refl,
    )
    by_case env_runnable env_free h f = absurd (ground (arith, h, used))
    by_case env_not_runnable env_runnable h f = (
      with_list (erase e k.env_sched_list) (with_status e env_not_runnable k),
      rw h refl,
      rw (==_self e) refl,
      λ x ne. rw (==_ne x e ne) refl,
      IsSched-blocked k (with_list (erase e k.env_sched_list) (with_status e env_not_runnable k)) g
          e he (stated env_not_runnable) refl refl refl refl,
    )
    by_case env_not_runnable env_not_runnable h f = (
      with_status e env_not_runnable k,
      rw h refl,
      rw (==_self e) refl,
      λ x ne. rw (==_ne x e ne) refl,
      IsSched-kept k (with_status e env_not_runnable k) g e he (stated env_not_runnable) refl refl
          (rw h refl) refl,
    )
    by_case env_not_runnable env_free h f = absurd (ground (arith, h, used))
