-- ===== src/Syscall/Guard.antt =====
-- kern/syscall_all.c: what a program cannot do to other programs.
use buaa_os_25spring.Prelude.{ℕ, ◌≡◌, ◌≢◌, ◌⊎◌, inl, inr, refl, true, false, some}
use buaa_os_25spring.Exec.{Run, ok, fail, panic, e_bad_env}
use buaa_os_25spring.Exec.Ends.{Ends}
use buaa_os_25spring.Env.State.{Kern, Trapframe}
use buaa_os_25spring.Env.Ids.{envid2env, envx}
use buaa_os_25spring.Env.Ids.Lookup.{Names, envid2env_lem}
use buaa_os_25spring.Syscall.{
  sys_mem_alloc, sys_mem_unmap, sys_mem_map, sys_set_tlb_mod_entry, is_illegal_va,
  sys_set_env_status, sys_set_trapframe, sys_env_destroy, is_illegal_va_range,
}

-- An environment that the caller may not act on is refused.
refused :
    (envid c : ℕ) (k : Kern)
    → k.curenv ≡ some c
    → envid ≢ 0
    → ¬ Names k c envid true (envx envid)
    → envid2env envid true k ≡ fail e_bad_env k
refused envid c k hc ne none_named =
    by_run (envid2env envid true k) (envid2env_lem envid true c k hc)
  where
    by_run :
        (r : Run Kern ℕ)
        → Ends
            (λ e k'.
              (k' ≡ k)
              × (((envid ≡ 0) × (e ≡ c)) ⊎ (envid ≢ 0) × (e ≡ envx envid) × Names k c envid true e))
            (λ err k'.
              (k' ≡ k) × (err ≡ e_bad_env) × (envid ≢ 0) × ¬ Names k c envid true (envx envid))
            r
        → r ≡ fail e_bad_env k
    by_run (ok e k') (same, inl (z, _)) = absurd (ne z)
    by_run (ok e k') (same, inr (_, q, names)) = absurd (none_named (rw (← q) names))
    by_run (fail err k') (same, q, _, _) = cc
    by_run panic h = absurd h

-- A lookup changes nothing, and either finds an environment or returns -E_BAD_ENV.
found_or_refused :
    (envid c : ℕ) (k : Kern)
    → k.curenv ≡ some c
    → ((e : ℕ) × (envid2env envid true k ≡ ok e k)) ⊎ (envid2env envid true k ≡ fail e_bad_env k)
found_or_refused envid c k hc = by_run (envid2env envid true k) (envid2env_lem envid true c k hc)
  where
    by_run :
        (r : Run Kern ℕ)
        → Ends
            (λ e k'.
              (k' ≡ k)
              × (((envid ≡ 0) × (e ≡ c)) ⊎ (envid ≢ 0) × (e ≡ envx envid) × Names k c envid true e))
            (λ err k'.
              (k' ≡ k) × (err ≡ e_bad_env) × (envid ≢ 0) × ¬ Names k c envid true (envx envid))
            r
        → ((e : ℕ) × (r ≡ ok e k)) ⊎ (r ≡ fail e_bad_env k)
    by_run (ok e k') (same, _) = inl (e, cc)
    by_run (fail err k') (same, q, _, _) = inr (cc)
    by_run panic h = absurd h

-- An environment that the caller `c` cannot reach: it is neither `c` nor a child of `c`, it is free,
-- or its identifier has changed.
abbrev pub OutOfReach : ℕ → ℕ → Kern → Type 0
OutOfReach envid c k = (k.curenv ≡ some c) × (envid ≢ 0) × ¬ Names k c envid true (envx envid)

-- A page is neither taken from an environment out of reach nor given to one, whatever the other one is.
map_refused :
    (envid other c va va' perm : ℕ) (k : Kern)
    → OutOfReach envid c k
    → is_illegal_va va ≡ false
    → is_illegal_va va' ≡ false
    → (sys_mem_map envid va other va' perm k ≡ fail e_bad_env k)
      × (sys_mem_map other va envid va' perm k ≡ fail e_bad_env k)
unfolding sys_mem_map
map_refused envid other c va va' perm k (hc, ne, none_named) hva hva' =
    let no_env : envid2env envid true k ≡ fail e_bad_env k = refused envid c k hc ne none_named in
    (
      rw (hva, hva', no_env) refl,
      elim (found_or_refused other c k hc) [
        | inl (e, found) ↦ rw (hva, hva', found, no_env) refl
        | inr none_found ↦ rw (hva, hva', none_found) refl
      ],
    )

-- A program cannot reach an environment that is neither itself nor its child, that is free, or
-- whose identifier has changed: for valid addresses and a valid status, the system calls that
-- allocate, map or unmap its memory, that map its pages elsewhere, that set its handler, its
-- registers or its status, and that destroy it, all return -E_BAD_ENV and change nothing.
pub protection :
    (envid other c va va' perm func status : ℕ) (tf : Trapframe) (k : Kern)
    → OutOfReach envid c k
    → is_illegal_va va ≡ false
    → is_illegal_va va' ≡ false
    → is_illegal_va_range va 152 ≡ false
    → (status ≡ 1) ⊎ (status ≡ 2)
    → (sys_mem_alloc envid va perm k ≡ fail e_bad_env k)
      × (sys_mem_map envid va other va' perm k ≡ fail e_bad_env k)
      × (sys_mem_map other va envid va' perm k ≡ fail e_bad_env k)
      × (sys_mem_unmap envid va k ≡ fail e_bad_env k)
      × (sys_set_tlb_mod_entry envid func k ≡ fail e_bad_env k)
      × (sys_set_trapframe envid va tf k ≡ fail e_bad_env k)
      × (sys_set_env_status envid status k ≡ fail e_bad_env k)
      × (sys_env_destroy envid k ≡ fail e_bad_env k)
unfolding sys_mem_alloc sys_mem_unmap sys_set_tlb_mod_entry sys_set_trapframe sys_set_env_status
    sys_env_destroy
protection envid other c va va' perm func status tf k out hva hva' hrange hs =
    let no_env : envid2env envid true k ≡ fail e_bad_env k =
      let (hc, ne, none_named) = out in refused envid c k hc ne none_named in
    let maps = map_refused envid other c va va' perm k out hva hva' in
    (
      rw (hva, no_env) refl,
      maps.0,
      maps.1,
      rw (hva, no_env) refl,
      rw no_env refl,
      rw (hrange, no_env) refl,
      elim hs [ inl q ↦ rw (q, no_env) refl | inr q ↦ rw (q, no_env) refl ],
      rw no_env refl,
    )
