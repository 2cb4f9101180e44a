-- ===== src/Vars/Find.antt =====
-- The search of check_var in kern/env.c.
use buaa_os_25spring.Prelude.{
  ℕ, zero, suc, ◌+◌, ◌<◌, ◌≤◌, ◌≡◌, refl, ap, ◌∙◌, Bool, true, false, arith, Option, none, some,
  Bool-cases, lt_or_le, ℕ_discrete, inl, inr, if◌then◌else◌,
}
use buaa_os_25spring.Vars.{find_first}

abbrev pub First : ℕ → ℕ → (ℕ → Bool) → Option ℕ → Type 0
First n i p none = (j : ℕ) → i ≤ j → j < i + n → p j ≡ false
First n i p (some j) =
    (i ≤ j) × (j < i + n) × (p j ≡ true) × ((l : ℕ) → i ≤ l → l < j → p l ≡ false)

pub find_first-First : (n i : ℕ) (p : ℕ → Bool) → First n i p (find_first n i p)
find_first-First zero i p = λ j lo hi. absurd (omega arith)
find_first-First (suc n) i p = elim (Bool-cases (p i)) [
  | inl e ↦ rw (e) (omega arith, omega arith, e, λ l lo hi. absurd (omega arith))
  | inr e ↦ rw e (later (find_first n (i + 1) p) e (find_first-First n (i + 1) p))
]
  where
    later : (o : Option ℕ) → p i ≡ false → First n (i + 1) p o → First (suc n) i p o
    later none e h = λ j lo hi. elim (ℕ_discrete i j) [
      | yes q ↦ rw (← q) e
      | no ne ↦ h j (omega arith) (omega arith)
    ]
    later (some j) e (lo, hi, found, before) = (
      omega arith,
      omega arith,
      found,
      λ l lo' hi'. elim (ℕ_discrete i l) [
        | yes q ↦ rw (← q) e
        | no ne ↦ before l (omega arith) hi'
      ],
    )

-- The search finds what is first.
pub find_first-some : (n i j : ℕ) (p : ℕ → Bool) → First n i p (some j) → find_first n i p ≡ some j
find_first-some n i j p (lo, hi, found, before) =
    by_result (find_first n i p) (find_first-First n i p)
  where
    by_result : (o : Option ℕ) → First n i p o → o ≡ some j
    by_result none h = absurd (ground (arith, h j lo hi))
    by_result (some k) (lo', hi', found', before') = ap some (only (ℕ_discrete k j))
      where
        only : Dec (k ≡ j) → k ≡ j
        only (yes q) = q
        only (no ne) = elim (lt_or_le k j) [
          | inl l ↦ absurd (ground (arith, before k lo' l))
          | inr l ↦ absurd (ground (arith, before' j lo (omega arith)))
        ]

pub find_first-same :
    (n i : ℕ) (p q : ℕ → Bool)
    → ((j : ℕ) → i ≤ j → j < i + n → p j ≡ q j)
    → find_first n i p ≡ find_first n i q
find_first-same zero i p q h = refl
find_first-same (suc n) i p q h =
    rw
      (
        h i (omega arith) (omega arith),
        find_first-same n (i + 1) p q (λ j lo hi. h j (omega arith) (omega arith)),
      )
      refl

-- A number more that does not pass the test changes nothing.
pub find_first-more :
    (n i : ℕ) (p : ℕ → Bool) → p (i + n) ≡ false → find_first (suc n) i p ≡ find_first n i p
find_first-more zero i p h = let z : p i ≡ false = ap p (omega arith) ∙ h in rw z refl
find_first-more (suc n) i p h =
    ap (λ r. if p i then some i else r) (find_first-more n (i + 1) p (ap p (omega arith) ∙ h))
