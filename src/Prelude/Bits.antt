-- ===== src/Prelude/Bits.antt =====
-- `|` and `&` on words of any width: digit by digit, under a shift, and one bit at a time.
use Prim.Native.Nat.{
  ℕ, zero, suc, ◌+◌, ◌*◌, ◌/◌, ◌%◌, ◌^◌, ◌-◌, ◌≤◌, ◌<◌, min, max, bit_and, bit_or, bitwise, digits,
  bit_and-bitwise, bit_or-bitwise,
}
use mathlib.Core.Path.{◌≡◌, refl, sym, ap, ◌∙◌}
use native.Mathlib.Nat.{one-le-pow, pow-suc, div-div-eq-div-mul, div-one}
use native.Mathlib.Omega.{arith}
use mathlib.Core.WellFounded.{Acc, WellFounded, induction}
use mathlib.Core.Bool.{Bool, true, false, not, ◌&&◌, ◌||◌}
use buaa_os_25spring.Prelude.Tests.{◌==◌, ==_iff, if◌then◌else◌}

Acc-below : (k n : ℕ) → n < k → Acc ◌<◌ n
Acc-below zero n h = elim h [ ]
Acc-below (suc k) n h = Acc.intro n (λ m hm. Acc-below k m (omega arith))

pub lt_wf : WellFounded ◌<◌
lt_wf = record { apply = λ n. Acc-below (suc n) n (omega arith) }

-- The count of digits that `digits` is given does not matter once it is enough.
module _ (z : ℕ → ℕ) (f : ℕ → ℕ → ℕ) where
  digits_enough : (b a n k : ℕ) → a ≤ k → a ≤ n → digits z f k a b ≡ digits z f n a b
  digits_enough b (suc a) (suc n) (suc k) below_k below_n =
      ap (λ t. t * 2 + f (suc a % 2) (b % 2))
        (digits_enough (b / 2) (suc a / 2) n k (omega arith) (omega arith))
  digits_enough b (suc a) n zero below_k below_n = elim below_k [ ]
  digits_enough b (suc a) zero k below_k below_n = elim below_n [ ]
  digits_enough b zero n k below_k below_n = no_digits k ∙ sym (no_digits n)
    where
      no_digits : (m : ℕ) → digits z f m zero b ≡ z b
      no_digits zero = refl
      no_digits (suc m) = refl

  lowest_digit :
      (a b : ℕ)
      → bitwise z f (suc a) b ≡ bitwise z f (suc a / 2) (b / 2) * 2 + f (suc a % 2) (b % 2)
  lowest_digit a b =
      ap (λ t. t * 2 + f (suc a % 2) (b % 2))
        (digits_enough (b / 2) (suc a / 2) (suc a / 2) a (omega arith) (omega arith))

bit_or_lowest : (a b : ℕ) → bit_or a b ≡ bit_or (a / 2) (b / 2) * 2 + max (a % 2) (b % 2)
bit_or_lowest zero b = simp bit_or-bitwise (omega arith)
bit_or_lowest (suc a) b = simp bit_or-bitwise (lowest_digit (λ y. y) max a b)

bit_and_lowest : (a b : ℕ) → bit_and a b ≡ bit_and (a / 2) (b / 2) * 2 + min (a % 2) (b % 2)
bit_and_lowest zero b = simp bit_and-bitwise (omega arith)
bit_and_lowest (suc a) b = simp bit_and-bitwise (lowest_digit (λ y. 0) min a b)

bit_or-mod_two : (a b : ℕ) → bit_or a b % 2 ≡ max (a % 2) (b % 2)
bit_or-mod_two a b = omega (arith, bit_or_lowest a b)

bit_and-mod_two : (a b : ℕ) → bit_and a b % 2 ≡ min (a % 2) (b % 2)
bit_and-mod_two a b = omega (arith, bit_and_lowest a b)

bit_or-half : (a b : ℕ) → bit_or a b / 2 ≡ bit_or (a / 2) (b / 2)
bit_or-half a b = omega (arith, bit_or_lowest a b)

bit_and-half : (a b : ℕ) → bit_and a b / 2 ≡ bit_and (a / 2) (b / 2)
bit_and-half a b = omega (arith, bit_and_lowest a b)

div_pow_suc : (a k : ℕ) → a / 2 ^ suc k ≡ a / 2 ^ k / 2
div_pow_suc a k = ap (λ t. a / t) (pow-suc 2 k) ∙ sym (div-div-eq-div-mul a (2 ^ k) 2)

-- A right shift goes under both operations.
pub bit_or-shr : (k a b : ℕ) → bit_or a b / 2 ^ k ≡ bit_or (a / 2 ^ k) (b / 2 ^ k)
bit_or-shr zero a b = simp div-one
bit_or-shr (suc k) a b = simp (div_pow_suc, bit_or-shr k a b) (bit_or-half (a / 2 ^ k) (b / 2 ^ k))

pub bit_and-shr : (k a b : ℕ) → bit_and a b / 2 ^ k ≡ bit_and (a / 2 ^ k) (b / 2 ^ k)
bit_and-shr zero a b = simp div-one
bit_and-shr (suc k) a b =
    simp (div_pow_suc, bit_and-shr k a b) (bit_and-half (a / 2 ^ k) (b / 2 ^ k))

-- Bit `k` of a word.
abbrev pub bit : ℕ → ℕ → ℕ
bit w k = w / 2 ^ k % 2

pub bit-bit_or : (k a b : ℕ) → bit (bit_or a b) k ≡ max (bit a k) (bit b k)
bit-bit_or k a b = rw (bit_or-shr k a b) (bit_or-mod_two (a / 2 ^ k) (b / 2 ^ k))

pub bit-bit_and : (k a b : ℕ) → bit (bit_and a b) k ≡ min (bit a k) (bit b k)
bit-bit_and k a b = rw (bit_and-shr k a b) (bit_and-mod_two (a / 2 ^ k) (b / 2 ^ k))

-- What holds of 0, and of a number whenever it holds of its half, holds of every number.
by_halves : (P : ℕ → Type 0) → P 0 → ((n : ℕ) → P (n / 2) → P n) → (a : ℕ) → P a
by_halves P base from_half a = induction lt_wf {C = P} a below
  where
    below : (n : ℕ) → ((m : ℕ) → m < n → P m) → P n
    below zero smaller = base
    below (suc n) smaller = from_half (suc n) (smaller (suc n / 2) (omega arith))

pub bit_or-zero : (a : ℕ) → bit_or a 0 ≡ a
bit_or-zero a =
    by_halves (λ n. bit_or n 0 ≡ n) refl (λ n half. omega (arith, bit_or_lowest n 0, half)) a

pub bit_and-zero : (a : ℕ) → bit_and a 0 ≡ 0
bit_and-zero a =
    by_halves (λ n. bit_and n 0 ≡ 0) refl (λ n half. omega (arith, bit_and_lowest n 0, half)) a

-- `w & (1 << k)` is nonzero exactly when bit `k` is set.
pub bit_and-pow : (k w : ℕ) → bit_and w (2 ^ k) ≡ bit w k * 2 ^ k
bit_and-pow zero w = omega (arith, bit_and_lowest w 1, bit_and-zero (w / 2))
bit_and-pow (suc k) w =
    rw (bit_and_lowest w (2 ^ suc k), halved, bit_and-pow k (w / 2), shift) (omega (arith, doubled))
  where
    halved : 2 ^ suc k / 2 ≡ 2 ^ k
    halved = omega (arith, pow-suc 2 k)

    shift : w / 2 / 2 ^ k ≡ w / 2 ^ suc k
    shift = div-div-eq-div-mul w 2 (2 ^ k) ∙ ap (λ t. w / t) (omega (arith, pow-suc 2 k))

    doubled : bit w (suc k) * 2 ^ k * 2 + min (w % 2) (2 ^ suc k % 2) ≡ bit w (suc k) * 2 ^ suc k
    doubled = omega (arith, pow-suc 2 k, ap (λ (t : ℕ). bit w (suc k) * t) (pow-suc 2 k))

-- A test that every number below a bound passes, and what a passed test says of one of them.
abbrev passes : (ℕ → Bool) → ℕ → Bool
passes p zero = true
passes p (suc n) = passes p n && p n

passed : (p : ℕ → Bool) {x : ℕ} (n : ℕ) → x < n → passes p n ≡ true → p x ≡ true
passed p zero small all = elim small [ ]
passed p {x = x} (suc n) small all = ground (arith, passed p {x = x} n)

-- The bits of `1 << k` and of `~(1 << k)`, for 32-bit words.
abbrev pow_test : ℕ → ℕ → Bool
pow_test k j = bit (2 ^ k) j == (if k == j then 1 else 0)

abbrev mask_test : ℕ → ℕ → Bool
mask_test k j = bit (2 ^ 32 - 1 - 2 ^ k) j == (if k == j then 0 else 1)

abbrev row : (ℕ → ℕ → Bool) → ℕ → Bool
row p k = passes (p k) 32

pow_table : passes (row pow_test) 32 ≡ true
pow_table = refl

mask_table : passes (row mask_test) 32 ≡ true
mask_table = refl

row_sound : (p : ℕ → ℕ → Bool) (k j : ℕ) → passes (row p) 32 ≡ true → k < 32 → j < 32 → p k j ≡ true
row_sound p k j h hk hj = passed (p k) 32 hj (passed (row p) 32 hk h)

pub bit_pow : (k j : ℕ) → k < 32 → j < 32 → bit (2 ^ k) j ≡ (if k == j then 1 else 0)
bit_pow k j hk hj = (==_iff _ _).0 (row_sound pow_test k j pow_table hk hj)

pub bit_mask : (k j : ℕ) → k < 32 → j < 32 → bit (2 ^ 32 - 1 - 2 ^ k) j ≡ (if k == j then 0 else 1)
bit_mask k j hk hj = (==_iff _ _).0 (row_sound mask_test k j mask_table hk hj)

-- `|` of a multiple of `2 ^ k` and a number below it is their sum.
pub bit_or-add : (k q r : ℕ) → r < 2 ^ k → bit_or (q * 2 ^ k) r ≡ q * 2 ^ k + r
bit_or-add zero q r h =
    let r_zero : r ≡ 0 = omega arith in rw r_zero (bit_or-zero (q * 1) ∙ omega arith)
bit_or-add (suc k) q r h =
    bit_or_lowest (q * 2 ^ suc k) r
    ∙ ap (λ t. bit_or t (r / 2) * 2 + max (q * 2 ^ suc k % 2) (r % 2)) half
    ∙ ap (λ t. t * 2 + max (q * 2 ^ suc k % 2) (r % 2))
        (bit_or-add k q (r / 2) (omega (arith, pow-suc 2 k)))
    ∙ omega (arith, doubled)
  where
    doubled : q * 2 ^ suc k ≡ 2 * (q * 2 ^ k)
    doubled = omega (arith, ap (λ (t : ℕ). q * t) (pow-suc 2 k))

    half : q * 2 ^ suc k / 2 ≡ q * 2 ^ k
    half = omega (arith, doubled)

-- `w & (1 << k)` as a condition.
pub nonzero-bit : (w k : ℕ) → not (bit_and w (2 ^ k) == 0) ≡ (bit w k == 1)
nonzero-bit w k =
    rw (bit_and-pow k w) (two_cases (bit w k) (2 ^ k) (omega arith) (one-le-pow k 2 (omega arith)))
  where
    two_cases : (x n : ℕ) → x < 2 → 1 ≤ n → not (x * n == 0) ≡ (x == 1)
    two_cases zero n hx hn = ground arith
    two_cases (suc zero) n hx hn = ground arith
    two_cases (suc (suc x)) n hx hn = absurd (omega arith)

max-one : (x : ℕ) (c : Bool) → x < 2 → (max x (if c then 1 else 0) == 1) ≡ (c || x == 1)
max-one x true h = ground arith
max-one x false h = ground arith

min-zero : (x : ℕ) (c : Bool) → x < 2 → (min x (if c then 0 else 1) == 1) ≡ (not c && x == 1)
min-zero x true h = ground arith
min-zero x false h = ground arith

-- Setting and clearing bit `i` of a word, read at bit `j`.
pub bit_set :
    (w i j : ℕ) → i < 32 → j < 32 → (bit (bit_or w (2 ^ i)) j == 1) ≡ (i == j || bit w j == 1)
bit_set w i j hi hj =
    rw (bit-bit_or j w (2 ^ i), bit_pow i j hi hj) (max-one (bit w j) (i == j) (omega arith))

pub bit_cleared :
    (w i j : ℕ)
    → i < 32
    → j < 32
    → (bit (bit_and w (2 ^ 32 - 1 - 2 ^ i)) j == 1) ≡ (not (i == j) && bit w j == 1)
bit_cleared w i j hi hj =
    rw (bit-bit_and j w (2 ^ 32 - 1 - 2 ^ i), bit_mask i j hi hj)
      (min-zero (bit w j) (i == j) (omega arith))
