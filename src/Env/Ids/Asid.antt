-- ===== src/Env/Ids/Asid.antt =====
-- asid_alloc and asid_free of kern/env.c: a bitmap of 8 words refines a set of 256 numbers.
use buaa_os_25spring.Prelude.{
  ℕ, zero, suc, ◌+◌, ◌-◌, ◌/◌, ◌%◌, ◌^◌, ◌<◌, ◌≤◌, ◌≡◌, ◌≢◌, refl, sym, ◌∙◌, Bool, true, false, not,
  ◌&&◌, ◌||◌, Option, none, some, List, arith, ◌==◌, bit_and, bit_or, get_or, set, length,
  length-set, get_or-set_self, get_or-set_ne, Bool-cases, inl, inr, ℕ_discrete,
}
use buaa_os_25spring.Prelude.Bits.{bit, nonzero-bit, bit_set, bit_cleared}
use mathlib.Core.Path.{subst}
use buaa_os_25spring.Exec.{ok, fail, e_no_free_env, Error}
use buaa_os_25spring.Exec.Ends.{Ends}
use buaa_os_25spring.Env.State.{Kern}
use buaa_os_25spring.Env.Ids.{asid_taken, asid_loop, asid_alloc, asid_free, nasid}

-- A number is taken exactly if its bit is set.
taken-bit : (b : List ℕ) (i : ℕ) → asid_taken b i ≡ (bit (get_or b (i / 32) 0) (i % 32) == 1)
unfolding asid_taken
taken-bit b i = nonzero-bit (get_or b (i / 32) 0) (i % 32)

-- A write to the word of `i` shows in the numbers of that word only.
word_here :
    (b : List ℕ) (i j w : ℕ)
    → length b ≡ 8
    → i < nasid
    → i / 32 ≡ j / 32
    → get_or (set b (i / 32) w) (j / 32) 0 ≡ w
word_here b i j w h hi e = rw (← e) (get_or-set_self b (i / 32) w 0 (omega arith))

word_other :
    (b : List ℕ) (i j w : ℕ)
    → i / 32 ≢ j / 32
    → get_or (set b (i / 32) w) (j / 32) 0 ≡ get_or b (j / 32) 0
word_other b i j w ne = get_or-set_ne b w 0 ne

abbrev marked : List ℕ → ℕ → List ℕ
marked b i = set b (i / 32) (bit_or (get_or b (i / 32) 0) (2 ^ (i % 32)))

abbrev cleared : List ℕ → ℕ → List ℕ
cleared b i = set b (i / 32) (bit_and (get_or b (i / 32) 0) (2 ^ 32 - 1 - 2 ^ (i % 32)))

same_word : (i j : ℕ) → i / 32 ≡ j / 32 → (i % 32 == j % 32) ≡ (j == i)
same_word i j e = ground arith

other_word : (i j : ℕ) → i / 32 ≢ j / 32 → (j == i) ≡ false
other_word i j ne = ground arith

taken-marked :
    (b : List ℕ) (i j : ℕ)
    → length b ≡ 8
    → i < nasid
    → asid_taken (marked b i) j ≡ (j == i || asid_taken b j)
taken-marked b i j h hi = elim (ℕ_discrete (i / 32) (j / 32)) [
  | yes e ↦
      rw
        (
          taken-bit (marked b i) j,
          taken-bit b j,
          word_here b i j (bit_or (get_or b (i / 32) 0) (2 ^ (i % 32))) h hi e,
          e,
          ← same_word i j e,
        )
        (bit_set (get_or b (j / 32) 0) (i % 32) (j % 32) (omega arith) (omega arith))
  | no ne ↦
      rw
        (
          taken-bit (marked b i) j,
          taken-bit b j,
          word_other b i j (bit_or (get_or b (i / 32) 0) (2 ^ (i % 32))) ne,
          other_word i j ne,
        )
        refl
]

taken-cleared :
    (b : List ℕ) (i j : ℕ)
    → length b ≡ 8
    → i < nasid
    → asid_taken (cleared b i) j ≡ (not (j == i) && asid_taken b j)
taken-cleared b i j h hi = elim (ℕ_discrete (i / 32) (j / 32)) [
  | yes e ↦
      rw
        (
          taken-bit (cleared b i) j,
          taken-bit b j,
          word_here b i j (bit_and (get_or b (i / 32) 0) (2 ^ 32 - 1 - 2 ^ (i % 32))) h hi e,
          e,
          ← same_word i j e,
        )
        (bit_cleared (get_or b (j / 32) 0) (i % 32) (j % 32) (omega arith) (omega arith))
  | no ne ↦
      rw
        (
          taken-bit (cleared b i) j,
          taken-bit b j,
          word_other b i j (bit_and (get_or b (i / 32) 0) (2 ^ 32 - 1 - 2 ^ (i % 32))) ne,
          other_word i j ne,
        )
        refl
]

-- What the loop finds: the first free number from `i` on, or that there is none.
abbrev Found : ℕ → ℕ → List ℕ → Option (ℕ × List ℕ) → Type 0
Found n i b none = (j : ℕ) → i ≤ j → j < i + n → asid_taken b j ≡ true
Found n i b (some (j, b')) =
    (i ≤ j)
    × (j < i + n)
    × (asid_taken b j ≡ false)
    × (b' ≡ marked b j)
    × ((l : ℕ) → i ≤ l → l < j → asid_taken b l ≡ true)

Found-later :
    (n i : ℕ) (b : List ℕ)
    → asid_taken b i ≡ true
    → (r : Option (ℕ × List ℕ)) → Found n (i + 1) b r
    → Found (suc n) i b r
Found-later n i b e none h = λ j lo hi. elim (ℕ_discrete i j) [
  | yes q ↦ rw (← q) e
  | no ne ↦ h j (omega arith) (omega arith)
]
Found-later n i b e (some (j, b')) (lo, hi, free, new, below) = (
  omega arith,
  omega arith,
  free,
  new,
  λ l h h'. elim (ℕ_discrete i l) [ yes q ↦ rw (← q) e | no ne ↦ below l (omega arith) h' ],
)

-- One round of the loop, by what it reads.
asid_loop-suc :
    (n i : ℕ) (b : List ℕ) (t : Bool)
    → asid_taken b i ≡ t
    → asid_loop (suc n) i b ≡ elim t [ true ↦ asid_loop n (i + 1) b | false ↦ some (i, marked b i) ]
unfolding asid_loop
asid_loop-suc n i b t e = rw (asid_loop, e) refl

asid_loop-zero : (i : ℕ) (b : List ℕ) → Found 0 i b (asid_loop 0 i b)
unfolding asid_loop
asid_loop-zero i b = λ j h l. absurd (omega arith)

asid_loop-Found : (n i : ℕ) (b : List ℕ) → Found n i b (asid_loop n i b)
asid_loop-Found zero i b = asid_loop-zero i b
asid_loop-Found (suc n) i b = elim (Bool-cases (asid_taken b i)) [
  | inr e ↦
      subst (Found (suc n) i b) (sym (asid_loop-suc n i b false e))
        (omega arith, omega arith, e, refl, λ l h h'. absurd (omega arith))
  | inl e ↦
      subst (Found (suc n) i b) (sym (asid_loop-suc n i b true e))
        (Found-later n i b e (asid_loop n (i + 1) b) (asid_loop-Found n (i + 1) b))
]

-- What `asid_alloc` promises: a number below 256 that was free and that alone is taken in
-- addition, or the error, with the state unchanged and every number taken.
abbrev pub Allocated : Kern → ℕ → Kern → Type 0
Allocated k i k' =
    (i < nasid)
    × (asid_taken k.asid_bitmap i ≡ false)
    × ((j : ℕ) → asid_taken k'.asid_bitmap j ≡ (j == i || asid_taken k.asid_bitmap j))
    × (k' ≡ record k { asid_bitmap = k'.asid_bitmap })
    × (length k'.asid_bitmap ≡ 8)

abbrev pub Exhausted : Kern → Error → Kern → Type 0
Exhausted k e k' =
    (e ≡ e_no_free_env) × (k' ≡ k) × ((j : ℕ) → j < nasid → asid_taken k.asid_bitmap j ≡ true)

-- With a bitmap of 8 words, `asid_alloc` never panics. If it returns a number, the number is below
-- 256 and was free, afterwards it and what was taken before are taken and nothing else, and
-- nothing but the bitmap has changed. It fails only with E_NO_FREE_ENV, with the state unchanged,
-- when all 256 numbers are taken.
pub asid_alloc_lem :
    (k : Kern) → length k.asid_bitmap ≡ 8 → Ends (Allocated k) (Exhausted k) (asid_alloc k)
unfolding asid_alloc
asid_alloc_lem k h = cases (asid_loop nasid 0 k.asid_bitmap) (asid_loop-Found nasid 0 k.asid_bitmap)
  where
    cases :
        (r : Option (ℕ × List ℕ))
        → Found nasid 0 k.asid_bitmap r
        → Ends (Allocated k) (Exhausted k) (elim r [
          | none ↦ fail e_no_free_env k
          | some (i, bitmap) ↦ ok i (record k { asid_bitmap = bitmap })
        ])
    cases none f = (refl, refl, λ j l. f j (omega arith) (omega arith))
    cases (some (i, b)) (lo, hi, free, new, below) = (
      omega arith,
      free,
      λ j. rw new (taken-marked k.asid_bitmap i j h (omega arith)),
      refl,
      rw new (length-set k.asid_bitmap (i / 32) _ ∙ h),
    )

-- With a bitmap of 8 words, `asid_free` of a number below 256 makes that number free, leaves every
-- other number as it was, and changes nothing but the bitmap.
pub asid_free_lem :
    (k : Kern) (i : ℕ)
    → length k.asid_bitmap ≡ 8
    → i < nasid
    → Ends
        (λ _ k'.
          ((j : ℕ) → asid_taken k'.asid_bitmap j ≡ (not (j == i) && asid_taken k.asid_bitmap j))
          × (k' ≡ record k { asid_bitmap = k'.asid_bitmap })
          × (length k'.asid_bitmap ≡ 8))
        (λ _ _. ⊥)
        (asid_free i k)
unfolding asid_free
asid_free_lem k i h hi =
    (λ j. taken-cleared k.asid_bitmap i j h hi, refl, length-set k.asid_bitmap (i / 32) _ ∙ h)
