-- ===== src/Fd/Table.antt =====
-- user/lib/fd.c: fd_alloc finds the first descriptor that is not used.
use buaa_os_25spring.Prelude.{
  ℕ, zero, suc, ◌+◌, ◌/◌, ◌<◌, ◌≤◌, ◌≡◌, inl, inr, refl, sym, arith, Bool, true, false, not, ◌&&◌,
  if◌then◌else◌, Bool-cases, ℕ_discrete,
}
use mathlib.Core.Path.{subst}
use mathlib.Core.Bool.{true≢false}
use buaa_os_25spring.Exec.{Error, Run, ok, fail, panic, e_max_open}
use buaa_os_25spring.Exec.Ends.{Ends}
use buaa_os_25spring.Fd.{Space, index2fd, is_mapped, fd_alloc_from, fd_alloc}

-- A descriptor is in use if its page is mapped, in a page table that is there.
abbrev pub is_used : ℕ → Space → Bool
is_used i s = s.vpd (index2fd i / 1024) && is_mapped (index2fd i) s

abbrev pub First : ℕ → ℕ → Space → ℕ → Space → Type 0
First n i s fd t =
    (t ≡ s)
    × (i' : ℕ) × (fd ≡ index2fd i')
    × (i ≤ i')
    × (i' < i + n)
    × (is_used i' s ≡ false)
    × ((j : ℕ) → i ≤ j → j < i' → is_used j s ≡ true)

abbrev pub AllUsed : ℕ → ℕ → Space → Error → Space → Type 0
AllUsed n i s e t = (e ≡ e_max_open) × (t ≡ s) × ((j : ℕ) → i ≤ j → j < i + n → is_used j s ≡ true)

step_used :
    (n i : ℕ) (s : Space)
    → is_used i s ≡ true
    → fd_alloc_from (suc n) i s ≡ fd_alloc_from n (i + 1) s
unfolding fd_alloc_from
step_used n i s e = both (s.vpd (index2fd i / 1024)) (is_mapped (index2fd i) s) e
  where
    both :
        (a b : Bool)
        → (a && b) ≡ true
        → (if not a
            then ok (index2fd i) s
            else if not b
            then ok (index2fd i) s
            else fd_alloc_from n (i + 1) s)
          ≡ fd_alloc_from n (i + 1) s
    both true true h = refl
    both true false h = absurd (true≢false (sym h))
    both false b h = absurd (true≢false (sym h))

step_free :
    (n i : ℕ) (s : Space) → is_used i s ≡ false → fd_alloc_from (suc n) i s ≡ ok (index2fd i) s
unfolding fd_alloc_from
step_free n i s e = both (s.vpd (index2fd i / 1024)) (is_mapped (index2fd i) s) e
  where
    both :
        (a b : Bool)
        → (a && b) ≡ false
        → (if not a
            then ok (index2fd i) s
            else if not b
            then ok (index2fd i) s
            else fd_alloc_from n (i + 1) s)
          ≡ ok (index2fd i) s
    both true true h = absurd (true≢false h)
    both true false h = refl
    both false b h = refl

First-later :
    (n i : ℕ) (s : Space)
    → is_used i s ≡ true
    → (r : Run Space ℕ) → Ends (First n (i + 1) s) (AllUsed n (i + 1) s) r
    → Ends (First (suc n) i s) (AllUsed (suc n) i s) r
First-later n i s e (ok fd t) (same, i', at, lo, hi, free, below) = (
  same,
  i',
  at,
  omega arith,
  omega arith,
  free,
  λ j h h'. elim (ℕ_discrete i j) [ yes q ↦ rw (← q) e | no ne ↦ below j (omega arith) h' ],
)
First-later n i s e (fail x t) (name, same, all) = (
  name,
  same,
  λ j h h'. elim (ℕ_discrete i j) [
    | yes q ↦ rw (← q) e
    | no ne ↦ all j (omega arith) (omega arith)
  ],
)
First-later n i s e panic h = h

no_round : (i : ℕ) (s : Space) → Ends (First 0 i s) (AllUsed 0 i s) (fd_alloc_from 0 i s)
unfolding fd_alloc_from
no_round i s = (refl, refl, λ j lo hi. absurd (omega arith))

fd_alloc_from_lem : (n i : ℕ) (s : Space) → Ends (First n i s) (AllUsed n i s) (fd_alloc_from n i s)
fd_alloc_from_lem zero i s = no_round i s
fd_alloc_from_lem (suc n) i s = elim (Bool-cases (is_used i s)) [
  | inl e ↦
      subst (Ends (First (suc n) i s) (AllUsed (suc n) i s)) (sym (step_used n i s e))
        (First-later n i s e (fd_alloc_from n (i + 1) s) (fd_alloc_from_lem n (i + 1) s))
  | inr e ↦
      subst (Ends (First (suc n) i s) (AllUsed (suc n) i s)) (sym (step_free n i s e))
        (refl, i, refl, omega arith, omega arith, e, λ j lo hi. absurd (omega arith))
]

-- `fd_alloc` never panics and changes nothing. It returns the first of the descriptors 0 to 30 that is
-- not in use, or fails with E_MAX_OPEN when all of these are in use; descriptor 31 is never
-- returned.
pub fd_alloc_lem : (s : Space) → Ends (First 31 0 s) (AllUsed 31 0 s) (fd_alloc s)
unfolding fd_alloc
fd_alloc_lem s = fd_alloc_from_lem 31 0 s
