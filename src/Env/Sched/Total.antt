-- ===== src/Env/Sched/Total.antt =====
-- What schedule of kern/sched.c does to the kernel's state.
use mathlib.Core.Path.{subst}
use buaa_os_25spring.Prelude.{
  ℕ, ◌+◌, ◌%◌, ◌^◌, ◌<◌, ◌≡◌, ◌≢◌, ◌⊎◌, inl, inr, refl, sym, ap, ◌∙◌, Bool, true, false, ◌||◌,
  Option, none, some, List, [], ◌∷◌, ◌++◌, ◌==◌, if◌then◌else◌, erase, has, Distinct, arith,
  Bool-cases, has-erase_ne, has-erase_self, ==_self, ==_ne, ℕ_discrete,
}
use buaa_os_25spring.Exec.{ok, panic}
use buaa_os_25spring.Env.State.{Kern, Env, Trapframe, is_runnable, nenv, update_env-keeps}
use buaa_os_25spring.Env.Sched.{must_switch, schedule, cannot_run, expired}
use buaa_os_25spring.Env.Sched.Steps.{
  rotated, rotated_for, running, with_count, with_list, minus_one, saved_for, saved, schedule_keeps,
  schedule_panics, schedule_switches,
}
use buaa_os_25spring.Env.Sched.Invariant.{IsSched, has-rotated, Distinct-rotated, runnable-has}

-- Starting an environment changes no part of the environments but the registers and the run counts.
pub running-keeps :
    {A : Type 0} (p : Env → A) (k : Kern) (e x : ℕ)
    → ((v : Env) (t : Trapframe) → p (record v { env_tf = t }) ≡ p v)
    → ((v : Env) (n : ℕ) → p (record v { env_runs = n }) ≡ p v)
    → p ((running k e).envs x) ≡ p (k.envs x)
running-keeps p k e x ht hn =
    update_env-keeps p (saved k) e
      (let v = saved k e in record v { env_runs = (v.env_runs + 1) % 2 ^ 32 }) x
      (hn (saved k e) (((saved k e).env_runs + 1) % 2 ^ 32))
    ∙ saved_part k.curenv
  where
    saved_part : (o : Option ℕ) → p (saved_for o k x) ≡ p (k.envs x)
    saved_part none = refl
    saved_part (some c) =
        update_env-keeps p k.envs c (let v = k.envs c in record v { env_tf = k.stack_tf }) x
          (ht (k.envs c) k.stack_tf)

running-status : (k : Kern) (e x : ℕ) → ((running k e).envs x).env_status ≡ (k.envs x).env_status
running-status k e x = running-keeps (λ v. v.env_status) k e x (λ v t. refl) (λ v n. refl)

-- What the kernel is left with when `e` runs: the order of the list and the count may be new.
pub record Chosen (yield : Bool) (k : Kern) (e n : ℕ) (l : List ℕ) : Type 0 where
  pub ends : schedule yield k ≡ ok tt (running (with_count n (with_list l k)) e)
  pub member : has e k.env_sched_list ≡ true
  pub same : (x : ℕ) → has x l ≡ has x k.env_sched_list
  pub distinct : Distinct l
  pub first : must_switch yield k ≡ true → (rest : List ℕ) × (rotated k ≡ e ∷ rest)

not-must_switch :
    (yield : Bool) (k : Kern)
    → must_switch yield k ≡ false
    → (c : ℕ) × (k.curenv ≡ some c) × (is_runnable (k.envs c).env_status ≡ true)
unfolding must_switch
not-must_switch yield k h = by_case k.curenv refl (or_false yield (expired k.count) _ h)
  where
    or_false : (a b c : Bool) → (a || b || c) ≡ false → c ≡ false
    or_false a b c h = ground arith

    by_case :
        (o : Option ℕ)
        → k.curenv ≡ o
        → cannot_run o k ≡ false
        → (c : ℕ) × (k.curenv ≡ some c) × (is_runnable (k.envs c).env_status ≡ true)
    by_case none e h = cc
    by_case (some c) e h = (c, e, ground arith)

no_member : (xs : List ℕ) → ((x : ℕ) → has x xs ≡ false) → xs ≡ []
no_member [] h = refl
no_member (x ∷ xs) h = absurd (ground (arith, h x, ==_self x))

module _ (yield : Bool) (k : Kern) (g : IsSched k) where
  keeps : must_switch yield k ≡ false → (e n : ℕ) × (l : List ℕ) × Chosen yield k e n l
  keeps h =
      let (c, hc, hr) = not-must_switch yield k h in
      (
        c,
        minus_one k.count,
        k.env_sched_list,
        record {
          ends = schedule_keeps c yield k h hc hr;
          member = g.listed c (g.current c hc) ∙ hr;
          same = λ x. refl;
          distinct = g.distinct;
          first = λ h'. cc;
        },
      )

  pub switches :
      must_switch yield k ≡ true
      → (e : ℕ) (rest : List ℕ) → rotated k ≡ e ∷ rest
      → Chosen yield k e (minus_one (k.envs e).env_pri) (rotated k)
  switches h e rest hr =
      let member : has e k.env_sched_list ≡ true =
        sym (has-rotated k g e) ∙ ap (has e) hr ∙ rw (==_self e) refl in
      record {
        ends = schedule_switches yield e rest k h hr (runnable-has k e g member);
        member = member;
        same = has-rotated k g;
        distinct = Distinct-rotated k g;
        first = λ _. (rest, hr);
      }

  next :
      (yield_set : must_switch yield k ≡ true)
      → (l : List ℕ) → rotated k ≡ l
      → ((k.env_sched_list ≡ []) × (schedule yield k ≡ panic))
        ⊎ (e n : ℕ) × (l : List ℕ) × Chosen yield k e n l
  next h [] hr = inl (no_member k.env_sched_list none_left, schedule_panics yield k h hr)
    where
      none_left : (x : ℕ) → has x k.env_sched_list ≡ false
      none_left x = sym (has-rotated k g x) ∙ ap (has x) hr
  next h (e ∷ rest) hr = inr (e, minus_one (k.envs e).env_pri, rotated k, switches h e rest hr)

  pub chosen :
      ((k.env_sched_list ≡ []) × (schedule yield k ≡ panic))
      ⊎ (e n : ℕ) × (l : List ℕ) × Chosen yield k e n l
  chosen = elim (Bool-cases (must_switch yield k)) [
    | inl h ↦ next h (rotated k) refl
    | inr h ↦ inr (keeps h)
  ]

pub running-IsSched :
    (yield : Bool) (k : Kern) (e n : ℕ) (l : List ℕ)
    → IsSched k
    → Chosen yield k e n l
    → IsSched (running (with_count n (with_list l k)) e)
running-IsSched yield k e n l g c = record {
  distinct = c.distinct;
  below = λ x h. g.below x (sym (c.same x) ∙ h);
  listed = λ x hx.
      c.same x
      ∙ g.listed x hx
      ∙ ap is_runnable (sym (running-status (with_count n (with_list l k)) e x));
  current = λ x h. let q : e ≡ x = cc in subst (λ y. y < nenv) q (g.below e c.member);
}

-- If the list holds all runnable environments, each once, then `schedule` panics exactly if the
-- list is empty; otherwise it runs an environment of the list, and the list again holds all
-- runnable environments, each once.
pub schedule_total :
    (yield : Bool) (k : Kern)
    → IsSched k
    → ((k.env_sched_list ≡ []) × (schedule yield k ≡ panic))
      ⊎ (e : ℕ) × (k' : Kern) × (schedule yield k ≡ ok tt k')
        × (has e k.env_sched_list ≡ true)
        × (k'.curenv ≡ some e)
        × IsSched k'
schedule_total yield k g = elim (chosen yield k g) [
  | inl p ↦ inl p
  | inr (e, n, l, c) ↦ inr (
    e,
    running (with_count n (with_list l k)) e,
    c.ends,
    c.member,
    refl,
    running-IsSched yield k e n l g c,
  )
]

-- The trap frame that each environment has after `schedule`: that of `curenv` is saved.
abbrev pub frame_after : Option ℕ → Trapframe → (ℕ → Env) → ℕ → Trapframe
frame_after none tf f x = (f x).env_tf
frame_after (some c) tf f x = if x == c then tf else (f x).env_tf

running-frame :
    (k : Kern) (e x : ℕ) → ((running k e).envs x).env_tf ≡ frame_after k.curenv k.stack_tf k.envs x
running-frame k e x =
    update_env-keeps (λ v. v.env_tf) (saved k) e
      (let v = saved k e in record v { env_runs = (v.env_runs + 1) % 2 ^ 32 }) x refl
    ∙ saved_frame k.curenv
  where
    saved_frame : (o : Option ℕ) → (saved_for o k x).env_tf ≡ frame_after o k.stack_tf k.envs x
    saved_frame none = refl
    saved_frame (some c) = elim (ℕ_discrete x c) [
      | yes q ↦ rw (q, ==_self c) refl
      | no ne ↦ rw (==_ne x c ne) refl
    ]

-- When `schedule` runs an environment, the registers below KSTACKTOP are saved as those of the
-- environment that was running, and every other environment's saved registers are kept.
pub schedule_context :
    (yield : Bool) (k k' : Kern) (x : ℕ)
    → IsSched k
    → schedule yield k ≡ ok tt k'
    → (k'.envs x).env_tf ≡ frame_after k.curenv k.stack_tf k.envs x
schedule_context yield k k' x g h = elim (chosen yield k g) [
  | inl (_, p) ↦ cc
  | inr (e, n, l, c) ↦
      let q : running (with_count n (with_list l k)) e ≡ k' = cc c.ends in
      subst (λ s. (s.envs x).env_tf ≡ frame_after k.curenv k.stack_tf k.envs x) q
        (running-frame (with_count n (with_list l k)) e x)
]

first-not-last :
    (xs : List ℕ) (c x e : ℕ) (rest : List ℕ)
    → has x xs ≡ true
    → has c xs ≡ false
    → xs ++ (c ∷ []) ≡ e ∷ rest
    → e ≢ c
first-not-last [] c x e rest h hc q = cc
first-not-last (y ∷ ys) c x e rest h hc q =
    let y≡e : y ≡ e = cc q in rw (← y≡e) (λ y≡c. ground (arith, hc, ==_self c))

always : (k : Kern) → must_switch true k ≡ true
unfolding must_switch
always k = refl

rotated-some : (k : Kern) (c : ℕ) → k.curenv ≡ some c → rotated k ≡ rotated_for (some c) k
rotated-some k c h = ap (λ o. rotated_for o k) h

other_next :
    (k : Kern) (c x e : ℕ) {n : ℕ} {l : List ℕ}
    → IsSched k
    → k.curenv ≡ some c
    → has x k.env_sched_list ≡ true
    → x ≢ c
    → must_switch true k ≡ true
    → Chosen true k e n l
    → e ≢ c
other_next k c x e g hc hx ne h ch = elim (Bool-cases (is_runnable (k.envs c).env_status)) [
  | inl r ↦
      let (rest, hr) = ch.first h in
      first-not-last (erase c k.env_sched_list) c x e rest
        (has-erase_ne x c k.env_sched_list ne ∙ hx) (has-erase_self c k.env_sched_list g.distinct)
        (sym (rotated-some k c hc ∙ rw r refl) ∙ hr)
  | inr r ↦ λ q. false≢true (sym r ∙ sym (g.listed c (g.current c hc)) ∙ rw (← q) ch.member)
]
  where
    false≢true : false ≢ true
    false≢true q = cc

-- If 'yield' is set, 'curenv' is not scheduled again unless it is the only runnable environment:
-- if another environment is in the list, `schedule` runs an environment that is not `curenv`.
pub schedule_yields :
    (k k' : Kern) (c x : ℕ)
    → IsSched k
    → k.curenv ≡ some c
    → has x k.env_sched_list ≡ true
    → x ≢ c
    → schedule true k ≡ ok tt k'
    → k'.curenv ≢ some c
schedule_yields k k' c x g hc hx ne h same = elim (chosen true k g) [
  | inl (_, p) ↦ cc
  | inr (e, n, l, ch) ↦
      let q : running (with_count n (with_list l k)) e ≡ k' = cc ch.ends in
      let r : some e ≡ some c = ap (λ s. s.curenv) q ∙ same in
      let e≡c : e ≡ c = cc r in other_next k c x e g hc hx ne (always k) ch e≡c
]
