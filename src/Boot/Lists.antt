-- ===== src/Boot/Lists.antt =====
-- The free list of environments that `env_init` builds.
use buaa_os_25spring.Prelude.{
  ℕ, zero, suc, ◌<◌, ◌≡◌, ◌≢◌, refl, ap, ◌∙◌, List, ◌∷◌, arith, ==_self, ==_ne, ℕ_discrete,
}
use buaa_os_25spring.Exec.{ok}
use buaa_os_25spring.Env.State.{Kern, env_free, update_env}
use buaa_os_25spring.Boot.{free_envs}

-- The numbers below `n` in order, before others.
abbrev pub up_to : ℕ → List ℕ → List ℕ
up_to zero l = l
up_to (suc n) l = up_to n (n ∷ l)

-- The state of the kernel with every environment below `n` free and in order at the head of the list.
pub record Freed (n : ℕ) (k t : Kern) : Type 0 where
  pub order : t.env_free_list ≡ up_to n k.env_free_list
  pub status : (e : ℕ) → e < n → (t.envs e).env_status ≡ env_free
  pub others : (e : ℕ) → n < suc e → t.envs e ≡ k.envs e
  pub unchanged : (t.env_sched_list ≡ k.env_sched_list) × (t.curenv ≡ k.curenv) × (t.mem ≡ k.mem)

abbrev pub freed_one : ℕ → Kern → Kern
freed_one i k = record k {
  env_free_list = i ∷ k.env_free_list;
  envs = update_env k.envs i (record (k.envs i) { env_status = env_free });
}

step-Freed : (i : ℕ) (k t : Kern) → Freed i (freed_one i k) t → Freed (suc i) k t
step-Freed i k t f = record {
  order = f.order;
  status = λ e h. elim (ℕ_discrete e i) [
    | yes q ↦ rw q (ap (λ v. v.env_status) (f.others i (omega arith)) ∙ here)
    | no n ↦ f.status e (omega arith)
  ];
  others = λ e h. f.others e (omega arith) ∙ there e (λ q. absurd (omega arith));
  unchanged = f.unchanged;
}
  where
    here : ((freed_one i k).envs i).env_status ≡ env_free
    here = rw (==_self i) refl

    there : (e : ℕ) → e ≢ i → (freed_one i k).envs e ≡ k.envs e
    there e n = rw (==_ne e i n) refl

-- The loop of `env_init` over the first n environments returns: these are free and stand in the
-- free list in the order of the array, before what it held.
pub free_envs_lem : (n : ℕ) (k : Kern) → (t : Kern) × (free_envs n k ≡ ok tt t) × Freed n k t
unfolding free_envs
free_envs_lem zero k = (
  k,
  refl,
  record {
    order = refl;
    status = λ e h. absurd (omega arith);
    others = λ e h. refl;
    unchanged = (refl, refl, refl);
  },
)
free_envs_lem (suc i) k =
    let (t, eq, f) = free_envs_lem i (freed_one i k) in (t, eq, step-Freed i k t f)
