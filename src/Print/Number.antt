-- ===== src/Print/Number.antt =====
-- lib/print.c: the characters that print_num prints, one by one.
use buaa_os_25spring.Prelude.{
  ℕ, ◌+◌, ◌-◌, ◌/◌, ◌%◌, ◌^◌, ◌<◌, ◌≤◌, ◌≡◌, ◌≢◌, inl, inr, refl, sym, ap, ◌∙◌, arith, Bool, true,
  false, ◌&&◌, ◌==◌, ==_iff, Bool-cases,
}
use mathlib.Core.Path.{subst}
use mathlib.Core.Bool.{true≢false}
use buaa_os_25spring.Print.{
  Buf, put, digit, digits_loop, pad_loop, at_least, pad_number, put_sign, finish_number, print_num,
}
use buaa_os_25spring.Print.Buffer.{Digits, Printed, digits_loop-Printed, put_here, put_other}
use buaa_os_25spring.Print.Layout.{
  reversed, number_end, with_sign, Laid, Raw, zeros_after_sign, padded_right, padded_left,
}

at_least_le : (width m : ℕ) → m ≤ at_least width m
at_least_le width m = ground arith

-- What `pad_number` comes to.
pad_number-left :
    (neg : Bool) (len padc m : ℕ) (b : Buf)
    → pad_number neg len true padc m b ≡ pad_loop (len - m) m 32 b
unfolding pad_number
pad_number-left true len padc m b = refl
pad_number-left false len padc m b = refl

pad_number-right :
    (neg : Bool) (len padc m : ℕ) (b : Buf)
    → (neg && padc == 48) ≡ false
    → pad_number neg len false padc m b ≡ pad_loop (len - m) m padc b
unfolding pad_number
pad_number-right true len padc m b e = rw e refl
pad_number-right false len padc m b e = refl

pad_number-zeros :
    (len m : ℕ) (b : Buf)
    → pad_number true len false 48 m b ≡ put (pad_loop (len - m) (m - 1) 48 b) (len - 1) 45
unfolding pad_number
pad_number-zeros len m b = refl

finish_number-reversed :
    (neg ladjust : Bool) (width padc m : ℕ) (b : Buf)
    → finish_number neg width ladjust padc (m, b)
      ≡ reversed
          (at_least width m)
          (number_end ladjust (at_least width m) m - 1)
          (pad_number neg (at_least width m) ladjust padc m b)
unfolding finish_number
finish_number-reversed neg true width padc m b = refl
finish_number-reversed neg false width padc m b = refl

finish_number-Laid :
    (d : ℕ → ℕ) (n width padc : ℕ) (neg ladjust : Bool) (b : Buf)
    → 1 ≤ n
    → Raw d n neg b
    → Laid d n neg ladjust padc
        (at_least width (with_sign neg n))
        (finish_number neg width ladjust padc (with_sign neg n, b))
finish_number-Laid d n width padc neg true b h raw =
    let m = with_sign neg n in
    let len = at_least width m in
    subst (Laid d n neg true padc len)
      (sym (
        finish_number-reversed neg true width padc m b
        ∙ ap (reversed len (m - 1)) (pad_number-left neg len padc m b)))
      (padded_left d n len b h neg padc (at_least_le width m) raw)
finish_number-Laid d n width padc neg false b h raw = elim (Bool-cases (neg && padc == 48)) [
  | inl e ↦ with_zeros neg e raw
  | inr e ↦
      let m = with_sign neg n in
      let len = at_least width m in
      subst (Laid d n neg false padc len)
        (sym (
          finish_number-reversed neg false width padc m b
          ∙ ap (reversed len (len - 1)) (pad_number-right neg len padc m b e)))
        (padded_right d n len b h neg padc (at_least_le width m) e raw)
]
  where
    with_zeros :
        (s : Bool)
        → (s && padc == 48) ≡ true
        → Raw d n s b
        → Laid d n s false padc
            (at_least width (with_sign s n))
            (finish_number s width false padc (with_sign s n, b))
    with_zeros true e r =
        let q : padc ≡ 48 = (==_iff _ _).0 e in
        let len = at_least width (n + 1) in
        rw q (
          subst (Laid d n true false 48 len)
            (sym (
              finish_number-reversed true false width 48 (n + 1) b
              ∙ ap (reversed len (len - 1)) (pad_number-zeros len (n + 1) b)))
            (zeros_after_sign d n len b h (at_least_le width (n + 1)) r))
    with_zeros false e r = absurd (true≢false (sym e))

signed_number-Laid :
    (d : ℕ → ℕ) (n width padc : ℕ) (neg ladjust : Bool) (b : Buf)
    → 1 ≤ n
    → ((k : ℕ) → k < n → b k ≡ d k)
    → Laid d n neg ladjust padc
        (at_least width (with_sign neg n))
        (finish_number neg width ladjust padc (put_sign neg (n, b)))
unfolding put_sign
signed_number-Laid d n width padc true ladjust b h digits =
    finish_number-Laid d n width padc true ladjust (put b n 45) h
      (λ k lt. put_other b n k 45 (λ e. omega arith) ∙ digits k lt, inr (put_here b n 45))
signed_number-Laid d n width padc false ladjust b h digits =
    finish_number-Laid d n width padc false ladjust b h (digits, inl refl)

-- The digit of weight `base ^ k`, as it is printed.
abbrev pub nth_digit : ℕ → Bool → ℕ → ℕ → ℕ
nth_digit base upcase u k = digit upcase (u / base ^ k % base)

-- For a word and a base of at least 2, `print_num` prints the number in as many digits as it takes and
-- no more, at least one; it prints `length` characters, or as many as the digits and the sign need
-- when that is more. The k-th character from the end of the number is the digit of weight `base ^ k`;
-- the number ends where the output ends, or, when it is adjusted to the left, behind its own
-- characters. A minus sign stands in front of the digits, or at the beginning when the padding is '0'.
-- Every other character is the padding, which is a space when the number is adjusted to the left.
pub print_num_lem :
    (u base width padc : ℕ) (neg ladjust upcase : Bool)
    → u < 2 ^ 32
    → 2 ≤ base
    → (n : ℕ) × (1 ≤ n)
      × (u / base ^ n ≡ 0)
      × ((k : ℕ) → 1 ≤ k → k < n → u / base ^ k ≢ 0)
      × Laid
          (nth_digit base upcase u)
          n
          neg
          ladjust
          padc
          (at_least width (with_sign neg n))
          (print_num u base neg width ladjust padc upcase)
unfolding print_num
print_num_lem u base width padc neg ladjust upcase small big =
    finished (digits_loop 32 base upcase u 0 (λ i. 0))
      (digits_loop-Printed 32 base upcase u 0 (λ i. 0) big (omega arith) small)
  where
    number :
        (q : ℕ) (c : Buf)
        → Digits base upcase u q 0 c
        → (n : ℕ) × (1 ≤ n)
          × (u / base ^ n ≡ 0)
          × ((k : ℕ) → 1 ≤ k → k < n → u / base ^ k ≢ 0)
          × Laid
              (nth_digit base upcase u)
              n
              neg
              ladjust
              padc
              (at_least width (with_sign neg n))
              (finish_number neg width ladjust padc (put_sign neg (q, c)))
    number q c (some_digit, whole, needed, chars) = (
      q,
      some_digit,
      whole,
      needed,
      signed_number-Laid (nth_digit base upcase u) q width padc neg ladjust c some_digit
          (λ k h. ap c (omega arith) ∙ chars k h),
    )

    finished :
        (r : ℕ × Buf)
        → Printed base upcase u 0 (λ i. 0) r
        → (n : ℕ) × (1 ≤ n)
          × (u / base ^ n ≡ 0)
          × ((k : ℕ) → 1 ≤ k → k < n → u / base ^ k ≢ 0)
          × Laid
              (nth_digit base upcase u)
              n
              neg
              ladjust
              padc
              (at_least width (with_sign neg n))
              (finish_number neg width ladjust padc (put_sign neg r))
    finished (q, c) (lt, all, kept) =
        let whole : q - 0 ≡ q = omega arith in
        number q c (subst (λ n. Digits base upcase u n 0 c) whole all)
