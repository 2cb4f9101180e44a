-- ===== src/Print/Buffer.antt =====
-- lib/print.c: what the loops of print_num leave in the buffer.
use buaa_os_25spring.Prelude.{
  ℕ, zero, suc, ◌+◌, ◌-◌, ◌/◌, ◌%◌, ◌^◌, ◌<◌, ◌≤◌, ◌≡◌, ◌≢◌, ◌⊎◌, inl, inr, refl, sym, ap, ◌∙◌,
  arith, Bool, true, false, ◌&&◌, leb, ◌==◌, if◌then◌else◌, length, get_or, ℕ_discrete, lt_or_le,
}
use mathlib.Core.Path.{subst}
use native.Mathlib.Nat.{
  div-lt_iff_lt-mul, mul-le-mul_left, pow-suc, pow-succ', pow-zero, div-div-eq-div-mul, div-one,
}
use buaa_os_25spring.Print.{Buf, put, bytes, digit, digits_loop, pad_loop, swap_loop}

pub put_here : (b : Buf) (i v : ℕ) → put b i v i ≡ v
put_here b i v = ground arith

pub put_other : (b : Buf) (i j v : ℕ) → j ≢ i → put b i v j ≡ b j
put_other b i j v ne = ground arith

-- The padding, and nothing else.
pub pad_loop_outside : (n i c j : ℕ) (b : Buf) → (j < i) ⊎ (i + n ≤ j) → pad_loop n i c b j ≡ b j
unfolding pad_loop
pad_loop_outside zero i c j b far = refl
pad_loop_outside (suc n) i c j b far =
    pad_loop_outside n (i + 1) c j (put b i c) (still far) ∙ put_other b i j c (apart far)
  where
    still : (j < i) ⊎ (i + suc n ≤ j) → (j < i + 1) ⊎ (i + 1 + n ≤ j)
    still (inl h) = inl (omega arith)
    still (inr h) = inr (omega arith)

    apart : (j < i) ⊎ (i + suc n ≤ j) → j ≢ i
    apart (inl h) q = omega arith
    apart (inr h) q = omega arith

pub pad_loop_inside : (n i c j : ℕ) (b : Buf) → i ≤ j → j < i + n → pad_loop n i c b j ≡ c
unfolding pad_loop
pad_loop_inside zero i c j b lo hi = absurd (omega arith)
pad_loop_inside (suc n) i c j b lo hi = elim (ℕ_discrete j i) [
  | yes q ↦ rw q (pad_loop_outside n (i + 1) c i (put b i c) (inl (omega arith)) ∙ put_here b i c)
  | no ne ↦ pad_loop_inside n (i + 1) c j (put b i c) (omega arith) (omega arith)
]

-- The characters from `first` to `last` are reversed, and no other is changed.
swap_loop_stop : (fuel first last : ℕ) (b : Buf) → last ≤ first → swap_loop fuel first last b ≡ b
unfolding swap_loop
swap_loop_stop zero first last b h = refl
swap_loop_stop (suc fuel) first last b h = ground arith

swap_loop_step :
    (fuel first last : ℕ) (b : Buf)
    → first < last
    → swap_loop (suc fuel) first last b
      ≡ swap_loop fuel (first + 1) (last - 1) (put (put b first (b last)) last (b first))
unfolding swap_loop
swap_loop_step fuel first last b h = ground arith

abbrev turned : ℕ → ℕ → Buf → Buf
turned first last b j = if leb first j && leb j last then b (first + last - j) else b j

plus_minus : (first last : ℕ) → first + last - first ≡ last
plus_minus first last = omega arith

minus_plus : (first last : ℕ) → first + last - last ≡ first
minus_plus first last = omega arith

inner : (first last j : ℕ) → first < last → first + 1 + (last - 1) - j ≡ first + last - j
inner first last j h = omega arith

turned_step :
    (first last j : ℕ) (b : Buf)
    → first < last
    → turned (first + 1) (last - 1) (put (put b first (b last)) last (b first)) j
      ≡ turned first last b j
turned_step first last j b h = elim (ℕ_discrete j first) [
  | yes p ↦ rw (p, plus_minus first last) ground arith
  | no np ↦ elim (ℕ_discrete j last) [
    | yes q ↦ rw (q, minus_plus first last) ground arith
    | no nq ↦ rw (inner first last j h) ground arith
  ]
]

unturned : (first last j : ℕ) (b : Buf) → last ≤ first → b j ≡ turned first last b j
unturned first last j b h = elim (ℕ_discrete j first) [
  | yes p ↦ elim (ℕ_discrete first last) [
    | yes e ↦ rw (p, plus_minus first last, ← e) ground arith
    | no ne ↦ rw p ground arith
  ]
  | no np ↦ ground arith
]

pub swap_loop_lem :
    (fuel first last j : ℕ) (b : Buf)
    → last ≤ first + fuel
    → swap_loop fuel first last b j ≡ turned first last b j
swap_loop_lem zero first last j b enough =
    ap (λ (f : Buf). f j) (swap_loop_stop zero first last b (omega arith))
    ∙ unturned first last j b (omega arith)
swap_loop_lem (suc fuel) first last j b enough = elim (lt_or_le first last) [
  | inl h ↦
      ap (λ (f : Buf). f j) (swap_loop_step fuel first last b h)
      ∙ swap_loop_lem fuel (first + 1) (last - 1) j (put (put b first (b last)) last (b first))
          (omega arith)
      ∙ turned_step first last j b h
  | inr h ↦
      ap (λ (f : Buf). f j) (swap_loop_stop (suc fuel) first last b h) ∙ unturned first last j b h
]

-- What is printed of a buffer.
pub length-bytes : (n i : ℕ) (b : Buf) → length (bytes n i b) ≡ n
length-bytes zero i b = refl
length-bytes (suc n) i b = omega (arith, length-bytes n (i + 1) b)

pub get_or-bytes : (n i k : ℕ) (b : Buf) → k < n → get_or (bytes n i b) k 0 ≡ b (i + k)
get_or-bytes zero i k b h = absurd (omega arith)
get_or-bytes (suc n) i zero b h = ap b (omega arith)
get_or-bytes (suc n) i (suc k) b h = get_or-bytes n (i + 1) k b (omega arith) ∙ ap b (omega arith)

-- The digits of `u` from the lowest on: as many as it takes, and no more.
abbrev pub Digits : ℕ → Bool → ℕ → ℕ → ℕ → Buf → Type 0
Digits base upcase u n p b =
    (1 ≤ n)
    × (u / base ^ n ≡ 0)
    × ((k : ℕ) → 1 ≤ k → k < n → u / base ^ k ≢ 0)
    × ((k : ℕ) → k < n → b (p + k) ≡ digit upcase (u / base ^ k % base))

half_enough : (fuel base u : ℕ) → 2 ≤ base → u < 2 ^ suc fuel → u / base < 2 ^ fuel
half_enough fuel base u h lt =
    (div-lt_iff_lt-mul (omega arith)).1
      (omega (arith, mul-le-mul_left (2 ^ fuel) h, pow-suc 2 fuel))

-- Where the loop ends, and what is in the buffer then.
abbrev pub Printed : ℕ → Bool → ℕ → ℕ → Buf → ℕ × Buf → Type 0
Printed base upcase u p b (q, c) =
    (p < q) × Digits base upcase u (q - p) p c × ((i : ℕ) → i < p → c i ≡ b i)

div_more : (u base k : ℕ) → u / base ^ suc k ≡ u / base / base ^ k
div_more u base k = ap (λ t. u / t) (pow-succ' base k) ∙ sym (div-div-eq-div-mul u base (base ^ k))

div_none : (u base : ℕ) → u / base ^ 0 ≡ u
div_none u base = ap (λ t. u / t) (pow-zero base) ∙ div-one u

-- A digit in front of those of the quotient.
one_more :
    (base : ℕ) (upcase : Bool) (u p : ℕ) (b : Buf) (r : ℕ × Buf)
    → u / base ≢ 0
    → Printed base upcase (u / base) (p + 1) (put b p (digit upcase (u % base))) r
    → Printed base upcase u p b r
one_more base upcase u p b (q, c) nz (lt, (some_digit, whole, needed, chars), kept) = (
  omega arith,
  (omega arith, ap (λ n. u / base ^ n) count ∙ div_more u base (q - (p + 1)) ∙ whole, needs, shows),
  λ i h. kept i (omega arith) ∙ put_other b p i (digit upcase (u % base)) (λ e. omega arith),
)
  where
    count : q - p ≡ suc (q - (p + 1))
    count = omega arith

    needs : (k : ℕ) → 1 ≤ k → k < q - p → u / base ^ k ≢ 0
    needs zero lo hi = absurd (omega arith)
    needs (suc zero) lo hi = rw (div_more u base 0, div_none (u / base) base) nz
    needs (suc (suc k)) lo hi =
        rw (div_more u base (suc k)) (needed (suc k) (omega arith) (omega arith))

    shows : (k : ℕ) → k < q - p → c (p + k) ≡ digit upcase (u / base ^ k % base)
    shows zero hi =
        ap c (omega arith)
        ∙ kept p (omega arith)
        ∙ put_here b p (digit upcase (u % base))
        ∙ ap (λ t. digit upcase (t % base)) (sym (div_none u base))
    shows (suc k) hi =
        ap c (omega arith)
        ∙ chars k (omega arith)
        ∙ ap (λ t. digit upcase (t % base)) (sym (div_more u base k))

only_digit :
    (base : ℕ) (upcase : Bool) (u p : ℕ) (b : Buf)
    → u / base ≡ 0
    → Printed base upcase u p b (p + 1, put b p (digit upcase (u % base)))
only_digit base upcase u p b z = (
  omega arith,
  (
    omega arith,
    ap (λ n. u / base ^ n) count ∙ div_more u base 0 ∙ div_none (u / base) base ∙ z,
    λ k lo hi. absurd (omega arith),
    shows,
  ),
  λ i h. put_other b p i (digit upcase (u % base)) (λ e. omega arith),
)
  where
    count : p + 1 - p ≡ suc 0
    count = omega arith

    shows :
        (k : ℕ)
        → k < p + 1 - p
        → put b p (digit upcase (u % base)) (p + k) ≡ digit upcase (u / base ^ k % base)
    shows zero hi =
        ap (put b p (digit upcase (u % base))) (omega arith)
        ∙ put_here b p (digit upcase (u % base))
        ∙ ap (λ t. digit upcase (t % base)) (sym (div_none u base))
    shows (suc k) hi = absurd (omega arith)

more_fuel : (fuel q : ℕ) → q ≢ 0 → q < 2 ^ fuel → 1 ≤ fuel
more_fuel zero q nz lt = absurd (nz (omega arith))
more_fuel (suc fuel) q nz lt = omega arith

digits_step :
    (fuel base : ℕ) (upcase : Bool) (u p : ℕ) (b : Buf) (c : Bool)
    → (u / base == 0) ≡ c
    → digits_loop (suc fuel) base upcase u p b ≡ (
        if c
        then (p + 1, put b p (digit upcase (u % base)))
        else digits_loop fuel base upcase (u / base) (p + 1) (put b p (digit upcase (u % base))))
unfolding digits_loop
digits_step fuel base upcase u p b c e = rw e refl

pub digits_loop-Printed :
    (fuel base : ℕ) (upcase : Bool) (u p : ℕ) (b : Buf)
    → 2 ≤ base
    → 1 ≤ fuel
    → u < 2 ^ fuel
    → Printed base upcase u p b (digits_loop fuel base upcase u p b)
digits_loop-Printed zero base upcase u p b h one lt = absurd (omega arith)
digits_loop-Printed (suc fuel) base upcase u p b h one lt = elim (ℕ_discrete (u / base) 0) [
  | yes z ↦
      subst (Printed base upcase u p b)
        (sym (digits_step fuel base upcase u p b true (ground arith)))
        (only_digit base upcase u p b z)
  | no nz ↦
      subst (Printed base upcase u p b)
        (sym (digits_step fuel base upcase u p b false (ground arith)))
        (one_more base upcase u p b
          (digits_loop fuel base upcase (u / base) (p + 1) (put b p (digit upcase (u % base)))) nz
          (digits_loop-Printed fuel base upcase (u / base) (p + 1)
            (put b p (digit upcase (u % base))) h
            (more_fuel fuel (u / base) nz (half_enough fuel base u h lt))
            (half_enough fuel base u h lt)))
]
