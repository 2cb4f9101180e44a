-- ===== src/Prelude/Sum.antt =====
-- Sums over a range of indices, and how a change at one index changes them.
use Prim.Native.Nat.{ℕ, zero, suc, ◌+◌, ◌≤◌, ◌<◌}
use mathlib.Core.Path.{◌≡◌, refl}
use mathlib.Core.Logic.{◌≢◌}
use native.Mathlib.Omega.{arith}
use native.Mathlib.Decide.{ℕ_discrete}

pub sum_below : ℕ → (ℕ → ℕ) → ℕ
sum_below zero f = 0
sum_below (suc n) f = sum_below n f + f n

pub sum_below_same :
    (n : ℕ) (f g : ℕ → ℕ) → ((i : ℕ) → i < n → f i ≡ g i) → sum_below n f ≡ sum_below n g
unfolding sum_below
sum_below_same zero f g h = refl
sum_below_same (suc n) f g h =
    omega (arith, sum_below_same n f g (λ i l. h i (omega arith)), h n (omega arith))

-- The two sums differ by the one summand.
pub sum_below_change :
    (n k : ℕ) (f g : ℕ → ℕ)
    → k < n
    → ((i : ℕ) → i < n → i ≢ k → f i ≡ g i)
    → sum_below n f + g k ≡ sum_below n g + f k
unfolding sum_below
sum_below_change zero k f g l h = absurd (omega arith)
sum_below_change (suc n) k f g l h = elim (ℕ_discrete k n) [
  | yes e ↦ rw e (omega (arith, sum_below_same n f g (λ i p. h i (omega arith) (omega arith))))
  | no ne ↦ omega (
    arith,
    sum_below_change n k f g (omega arith) (λ i p. h i (omega arith)),
    h n (omega arith) (omega arith),
  )
]

pub summand-le-sum_below : (n k : ℕ) (f : ℕ → ℕ) → k < n → f k ≤ sum_below n f
unfolding sum_below
summand-le-sum_below zero k f l = absurd (omega arith)
summand-le-sum_below (suc n) k f l = elim (ℕ_discrete k n) [
  | yes e ↦ rw e (omega arith)
  | no ne ↦ omega (arith, summand-le-sum_below n k f (omega arith))
]

pub sum_below-zero : (n : ℕ) → sum_below n (λ _. 0) ≡ 0
unfolding sum_below
sum_below-zero zero = refl
sum_below-zero (suc n) = omega (arith, sum_below-zero n)
