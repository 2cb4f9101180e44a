-- ===== src/Env/Ids/Lookup.antt =====
-- envid2env of kern/env.c: exactly which identifiers lead to an environment.
use buaa_os_25spring.Prelude.{
  ℕ, ◌≡◌, ◌≢◌, ◌⊎◌, inl, inr, refl, sym, Bool, true, false, some, arith, Bool-cases, ==_iff, ==_ne,
  ℕ_discrete, if◌then◌else◌,
}
use mathlib.Core.Path.{subst}
use buaa_os_25spring.Exec.{ok, Error, e_bad_env}
use buaa_os_25spring.Exec.Ends.{Ends}
use buaa_os_25spring.Env.State.{Kern, Env, is_free}
use buaa_os_25spring.Env.Ids.{envid2env, envid2env_for, check_permission, envx, permitted}

-- `c` may act on `e`: they are the same, or `c` is the parent of `e`.
abbrev pub MayActOn : Env → Env → Type 0
MayActOn c e = (c.env_id ≡ e.env_id) ⊎ (c.env_id ≡ e.env_parent_id)

-- What an identifier that is not 0 has to satisfy to lead to the environment `e`.
abbrev pub Names : Kern → ℕ → ℕ → Bool → ℕ → Type 0
Names k c envid checkperm e =
    (is_free (k.envs e).env_status ≡ false)
    × ((k.envs e).env_id ≡ envid)
    × (checkperm ≡ true → MayActOn (k.envs c) (k.envs e))

permitted-MayActOn : (c e : Env) → permitted c e ≡ true → MayActOn c e
permitted-MayActOn c e h = ground arith

not-permitted : (c e : Env) → permitted c e ≡ false → ¬ MayActOn c e
not-permitted c e h (inl q) = ground (arith, q)
not-permitted c e h (inr q) = ground (arith, q)

-- When an environment runs, `envid2env` never panics and never changes the state. It returns the
-- running environment for 0, and for another identifier the environment of that slot if it is not
-- free, carries exactly this identifier and, where 'checkperm' is set, is 'curenv' or its
-- immediate child; it fails, with E_BAD_ENV, exactly if one of these does not hold.
pub envid2env_lem :
    (envid : ℕ) (checkperm : Bool) (c : ℕ) (k : Kern)
    → k.curenv ≡ some c
    → Ends
        (λ e k'.
          (k' ≡ k)
          × (((envid ≡ 0) × (e ≡ c))
              ⊎ (envid ≢ 0) × (e ≡ envx envid) × Names k c envid checkperm e))
        (λ err k'.
          (k' ≡ k) × (err ≡ e_bad_env) × (envid ≢ 0) × ¬ Names k c envid checkperm (envx envid))
        (envid2env envid checkperm k)
unfolding envid2env
envid2env_lem envid checkperm c k hc =
    subst (λ o. Ends Right Wrong (envid2env_for o envid checkperm k)) (sym hc)
      (by_id (ℕ_discrete envid 0))
  where
    Right : ℕ → Kern → Type 0
    Right = λ e k'.
        (k' ≡ k)
        × (((envid ≡ 0) × (e ≡ c)) ⊎ (envid ≢ 0) × (e ≡ envx envid) × Names k c envid checkperm e)

    Wrong : Error → Kern → Type 0
    Wrong = λ err k'.
        (k' ≡ k) × (err ≡ e_bad_env) × (envid ≢ 0) × ¬ Names k c envid checkperm (envx envid)

    by_perm :
        (p : Bool)
        → envid ≢ 0
        → is_free (k.envs (envx envid)).env_status ≡ false
        → (k.envs (envx envid)).env_id ≡ envid
        → p ≡ checkperm
        → Ends Right Wrong
            (if p then check_permission (some c) (envx envid) k else ok (envx envid) k)
    by_perm false ne free id hp =
        (refl, inr (ne, refl, (free, id, λ h. absurd (ground (arith, hp, h)))))
    by_perm true ne free id hp = elim (Bool-cases (permitted (k.envs c) (k.envs (envx envid)))) [
      | inl h ↦ rw h (
        refl,
        inr (ne, refl, (free, id, λ _. permitted-MayActOn (k.envs c) (k.envs (envx envid)) h)),
      )
      | inr h ↦
          rw h
            (refl, refl, ne, λ n. not-permitted (k.envs c) (k.envs (envx envid)) h (n.2 (sym hp)))
    ]

    by_id : Dec (envid ≡ 0) → Ends Right Wrong (envid2env_for (some c) envid checkperm k)
    by_id (yes z) = rw (z) (refl, inl (refl, refl))
    by_id (no ne) = elim (Bool-cases (is_free (k.envs (envx envid)).env_status)) [
      | inl f ↦ rw (==_ne envid 0 ne, f) (refl, refl, ne, λ n. ground (arith, f, n.0))
      | inr f ↦ elim (ℕ_discrete (k.envs (envx envid)).env_id envid) [
        | no wrong ↦ rw (==_ne envid 0 ne, f, ==_ne _ _ wrong) (refl, refl, ne, λ n. wrong n.1)
        | yes id ↦
            rw (==_ne envid 0 ne, f, (==_iff (k.envs (envx envid)).env_id envid).1 id)
              (by_perm checkperm ne f id refl)
      ]
    ]
