-- ===== src/Env/Sched/Fair.antt =====
-- schedule of kern/sched.c under the timer: round robin with time slices.
use buaa_os_25spring.Prelude.{
  ℕ, zero, suc, ◌+◌, ◌-◌, ◌^◌, ◌<◌, ◌≤◌, ◌≡◌, refl, sym, ap, ◌∙◌, true, false, ◌||◌, some, List, [],
  ◌∷◌, ◌++◌, ◌==◌, if◌then◌else◌, erase, has, length, arith, ==_self, ==_ne, ℕ_discrete, has-append,
}
use buaa_os_25spring.Exec.{ok, pure, ◌>>◌, and_then}
use buaa_os_25spring.Env.State.{Kern, KCmd, Trapframe, is_runnable}
use buaa_os_25spring.Env.Sched.{must_switch, schedule, expired, cannot_run}
use buaa_os_25spring.Env.Sched.Steps.{
  rotated, rotated_for, running, with_count, with_list, minus_one, turned, schedule_keeps,
}
use buaa_os_25spring.Env.Sched.Invariant.{IsSched, runnable-has}
use buaa_os_25spring.Env.Sched.Total.{Chosen, running-keeps, running-IsSched, switches}

-- A timer interrupt: the registers of `curenv` stand below KSTACKTOP, then `schedule(0)`.
abbrev pub with_frame : Trapframe → Kern → Kern
with_frame t k = record k { stack_tf = t }

abbrev pub tick : Trapframe → KCmd (Unit {0})
tick t k = schedule false (with_frame t k)

abbrev pub ticks : List Trapframe → KCmd (Unit {0})
ticks [] = pure tt
ticks (t ∷ ts) = tick t >> ticks ts

and_then-ok :
    (ts : List Trapframe) (t : Trapframe) (k k1 : Kern)
    → tick t k ≡ ok tt k1
    → ticks (t ∷ ts) k ≡ ticks ts k1
and_then-ok ts t k k1 h = ap (λ r. and_then r (λ _. ticks ts)) h

left : {n : ℕ} → suc n ≡ 1 → n ≡ 0
left h = omega (arith, h)

no_ticks : (ts : List Trapframe) → length ts ≡ 0 → ts ≡ []
no_ticks [] h = refl
no_ticks (t ∷ ts) h = absurd (omega arith)

-- How many ticks the first environment of the list has to go before `e`, for the priorities `pri`.
abbrev pub wait : (ℕ → ℕ) → ℕ → List ℕ → ℕ
wait pri e [] = 0
wait pri e (x ∷ xs) = if e == x then 0 else pri x + wait pri e xs

wait-append :
    (pri : ℕ → ℕ) (e c : ℕ) (xs : List ℕ)
    → has e xs ≡ true
    → wait pri e (xs ++ (c ∷ [])) ≡ wait pri e xs
wait-append pri e c [] h = cc
wait-append pri e c (x ∷ xs) h = ground (arith, wait-append pri e c xs)

module _ (pri : ℕ → ℕ) (slices : (x : ℕ) → (1 ≤ pri x) × (pri x < 2 ^ 31)) where
  -- `c` runs, first in the list, and has `n` more ticks.
  pub record Turn (c n : ℕ) (xs : List ℕ) (k : Kern) : Type 0 where
    pub sched : IsSched k
    pub list : k.env_sched_list ≡ c ∷ xs
    pub current : k.curenv ≡ some c
    pub count : k.count ≡ n
    pub small : n < 2 ^ 31
    pub pris : (x : ℕ) → has x k.env_sched_list ≡ true → (k.envs x).env_pri ≡ pri x

  Turn-runnable :
      (c n : ℕ) (xs : List ℕ) (k : Kern) → Turn c n xs k → is_runnable (k.envs c).env_status ≡ true
  Turn-runnable c n xs k g = runnable-has k c g.sched (rw (g.list, ==_self c) refl)

  Turn-with_frame :
      (c n : ℕ) (xs : List ℕ) (t : Trapframe) (k : Kern)
      → Turn c n xs k
      → Turn c n xs (with_frame t k)
  Turn-with_frame c n xs t k g = record {
    sched = record {
      distinct = g.sched.distinct;
      below = g.sched.below;
      listed = g.sched.listed;
      current = g.sched.current;
    };
    list = g.list;
    current = g.current;
    count = g.count;
    small = g.small;
    pris = g.pris;
  }

  Turn-must_switch :
      (c n : ℕ) (xs : List ℕ) (k : Kern) → Turn c n xs k → must_switch false k ≡ (n == 0)
  unfolding must_switch
  Turn-must_switch c n xs k g =
      ap (λ m. expired m || cannot_run k.curenv k) g.count
      ∙ ap (λ o. expired n || cannot_run o k) g.current
      ∙ rw (Turn-runnable c n xs k g) (not_expired n g.small)
    where
      not_expired : (n : ℕ) → n < 2 ^ 31 → (expired n || false) ≡ (n == 0)
      not_expired n h = ground arith

  pris-running :
      (k : Kern) (e n : ℕ) (l : List ℕ)
      → ((x : ℕ) → has x l ≡ has x k.env_sched_list)
      → ((x : ℕ) → has x k.env_sched_list ≡ true → (k.envs x).env_pri ≡ pri x)
      → (x : ℕ) → has x l ≡ true
      → ((running (with_count n (with_list l k)) e).envs x).env_pri ≡ pri x
  pris-running k e n l same h x hx =
      running-keeps (λ v. v.env_pri) (with_count n (with_list l k)) e x (λ v t. refl) (λ v n. refl)
      ∙ h x (sym (same x) ∙ hx)

  spend :
      (c n : ℕ) (xs : List ℕ) (k : Kern)
      → Turn c (suc n) xs k
      → (k' : Kern) × (schedule false k ≡ ok tt k') × Turn c n xs k'
  spend c n xs k g = (
    running (with_count (minus_one k.count) k) c,
    ends,
    record {
      sched = running-IsSched false k c (minus_one k.count) k.env_sched_list g.sched chosen;
      list = g.list;
      current = refl;
      count = rw (g.count) (omega arith);
      small = omega (arith, g.small);
      pris = pris-running k c (minus_one k.count) k.env_sched_list (λ x. refl) g.pris;
    },
  )
    where
      ends : schedule false k ≡ ok tt (running (with_count (minus_one k.count) k) c)
      ends =
          schedule_keeps c false k (Turn-must_switch c (suc n) xs k g ∙ ground arith) g.current
            (Turn-runnable c (suc n) xs k g)

      chosen : Chosen false k c (minus_one k.count) k.env_sched_list
      chosen = record {
        ends = ends;
        member = rw (g.list, ==_self c) refl;
        same = λ x. refl;
        distinct = g.sched.distinct;
        first = λ h. absurd (ground (arith, Turn-must_switch c (suc n) xs k g));
      }

  rotated-Turn : (c n : ℕ) (xs : List ℕ) (k : Kern) → Turn c n xs k → rotated k ≡ xs ++ (c ∷ [])
  rotated-Turn c n xs k g =
      ap (λ o. rotated_for o k) g.current
      ∙ rw (Turn-runnable c n xs k g) (ap (λ l. erase c l ++ (c ∷ [])) g.list ∙ rw (==_self c) refl)

  turn :
      (c x : ℕ) (xs rest : List ℕ) (k : Kern)
      → Turn c 0 xs k
      → xs ++ (c ∷ []) ≡ x ∷ rest
      → (k' : Kern) × (schedule false k ≡ ok tt k') × Turn x (pri x - 1) rest k'
  turn c x xs rest k g q = (
    running (turned k x) x,
    chosen.ends,
    record {
      sched = running-IsSched false k x (minus_one (k.envs x).env_pri) (rotated k) g.sched chosen;
      list = hr;
      current = refl;
      count = rw (g.pris x chosen.member) (let (lo, hi) = slices x in omega arith);
      small = let (lo, hi) = slices x in omega arith;
      pris = pris-running k x (minus_one (k.envs x).env_pri) (rotated k) chosen.same g.pris;
    },
  )
    where
      hr : rotated k ≡ x ∷ rest
      hr = rotated-Turn c 0 xs k g ∙ q

      chosen : Chosen false k x (minus_one (k.envs x).env_pri) (rotated k)
      chosen = switches false k g.sched (Turn-must_switch c 0 xs k g ∙ refl) x rest hr

  -- While only timer interrupts occur, every environment of the list gets the processor: if `c`
  -- runs with `n` ticks left and is first in a list of exactly the runnable environments, whose
  -- priorities `pri` are at least 1 and less than `2 ^ 31`, then after `n + 1` ticks and one tick
  -- for each unit of priority of those between `c` and `e`, `e` runs, and no tick panics.
  pub bounded_wait :
      (e : ℕ) (ts : List Trapframe) (c n : ℕ) (xs : List ℕ) (k : Kern)
      → Turn c n xs k
      → has e xs ≡ true
      → length ts ≡ suc n + wait pri e xs
      → (k' : Kern) × (ticks ts k ≡ ok tt k') × (k'.curenv ≡ some e)
  bounded_wait e [] c n xs k g he hl = absurd (omega arith)
  bounded_wait e (t ∷ ts) c (suc n) xs k g he hl =
      let (k1, run1, g1) = spend c n xs (with_frame t k) (Turn-with_frame c (suc n) xs t k g) in
      let (k2, run2, last) = bounded_wait e ts c n xs k1 g1 he (omega arith) in
      (k2, and_then-ok ts t k k1 run1 ∙ run2, last)
  bounded_wait e (t ∷ ts) c zero [] k g he hl = cc
  bounded_wait e (t ∷ ts) c zero (x ∷ xs) k g he hl =
      let (k1, run1, g1) =
        turn c x (x ∷ xs) (xs ++ (c ∷ [])) (with_frame t k) (Turn-with_frame c 0 (x ∷ xs) t k g)
          refl in
      elim (ℕ_discrete e x) [
        | yes q ↦
            let done : ts ≡ [] = no_ticks ts (left (rw (q, ==_self x) at hl)) in
            (
              k1,
              and_then-ok ts t k k1 run1 ∙ ap (λ u. ticks u k1) done,
              g1.current ∙ ap some (sym q),
            )
        | no ne ↦
            let later : has e xs ≡ true = rw (==_ne e x ne) at he in
            let rest : length (t ∷ ts) ≡ 1 + (pri x + wait pri e xs) = rw (==_ne e x ne) at hl in
            let (k2, run2, last) =
              bounded_wait e ts x (pri x - 1) (xs ++ (c ∷ [])) k1 g1
                (has-append e xs (c ∷ []) ∙ rw later refl)
                (let (lo, hi) = slices x in omega (arith, rest, wait-append pri e c xs later)) in
            (k2, and_then-ok ts t k k1 run1 ∙ run2, last)
      ]
