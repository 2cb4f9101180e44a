-- ===== src/Env/Sched/Invariant.antt =====
-- What schedule of kern/sched.c keeps, and which environment it runs.
use mathlib.Core.Path.{subst}
use buaa_os_25spring.Prelude.{
  ℕ, ◌<◌, ◌≡◌, inl, inr, refl, sym, ◌∙◌, true, Option, none, some, List, [], ◌∷◌, ◌++◌, erase, has,
  Distinct, arith, Bool-cases, has-append, has-erase_ne, has-erase_self, Distinct-erase,
  Distinct-append_one, erase_of_not-has, ℕ_discrete,
}
use buaa_os_25spring.Env.State.{Kern, is_runnable, nenv}
use buaa_os_25spring.Env.Sched.Steps.{rotated, rotated_for}

-- 'env_sched_list' contains all runnable environments, each once, and no other.
pub record IsSched (k : Kern) : Type 0 where
  pub distinct : Distinct k.env_sched_list
  pub below : (e : ℕ) → has e k.env_sched_list ≡ true → e < nenv
  pub listed : (e : ℕ) → e < nenv → has e k.env_sched_list ≡ is_runnable (k.envs e).env_status
  pub current : (c : ℕ) → k.curenv ≡ some c → c < nenv

pub runnable-has :
    (k : Kern) (e : ℕ)
    → IsSched k
    → has e k.env_sched_list ≡ true
    → is_runnable (k.envs e).env_status ≡ true
runnable-has k e g h = sym (g.listed e (g.below e h)) ∙ h

has-moved :
    (c x : ℕ) (xs : List ℕ)
    → Distinct xs
    → has c xs ≡ true
    → has x (erase c xs ++ (c ∷ [])) ≡ has x xs
has-moved c x xs d h = elim (ℕ_discrete x c) [
  | yes e ↦ rw (e) (has-append c (erase c xs) (c ∷ []) ∙ ground (arith, h))
  | no ne ↦ has-append x (erase c xs) (c ∷ []) ∙ rw (has-erase_ne x c xs ne) (ground arith)
]

module _ (k : Kern) (g : IsSched k) where
  -- The turn of `curenv` changes the order of the list only.
  rotated_for-perm :
      (o : Option ℕ)
      → k.curenv ≡ o
      → ((x : ℕ) → has x (rotated_for o k) ≡ has x k.env_sched_list) × Distinct (rotated_for o k)
  rotated_for-perm none h = (λ x. refl, g.distinct)
  rotated_for-perm (some c) h = elim (Bool-cases (is_runnable (k.envs c).env_status)) [
    | inl r ↦ rw r (
      λ x. has-moved c x k.env_sched_list g.distinct (g.listed c (g.current c h) ∙ r),
      Distinct-append_one (erase c k.env_sched_list) c
          (Distinct-erase c k.env_sched_list g.distinct)
          (has-erase_self c k.env_sched_list g.distinct),
    )
    | inr r ↦ rw r (
        subst (λ l. ((x : ℕ) → has x l ≡ has x k.env_sched_list) × Distinct l)
          (sym (erase_of_not-has c k.env_sched_list (g.listed c (g.current c h) ∙ r)))
          (λ x. refl, g.distinct))
  ]

  pub has-rotated : (x : ℕ) → has x (rotated k) ≡ has x k.env_sched_list
  has-rotated = (rotated_for-perm k.curenv refl).0

  pub Distinct-rotated : Distinct (rotated k)
  Distinct-rotated = (rotated_for-perm k.curenv refl).1
