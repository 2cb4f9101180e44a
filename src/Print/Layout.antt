-- ===== src/Print/Layout.antt =====
-- lib/print.c: padding, sign and reversal: where print_num puts the digits.
use buaa_os_25spring.Prelude.{
  ℕ, ◌+◌, ◌-◌, ◌<◌, ◌≤◌, ◌≡◌, ◌≢◌, ◌⊎◌, inl, inr, refl, ap, ◌∙◌, arith, Bool, true, false, ◌&&◌,
  ◌||◌, leb, ◌==◌, if◌then◌else◌, List, length, get_or,
}
use mathlib.Core.Bool.{true≢false}
use buaa_os_25spring.Print.{Buf, put, bytes, pad_loop, swap_loop}
use buaa_os_25spring.Print.Buffer.{
  pad_loop_inside, pad_loop_outside, swap_loop_lem, length-bytes, get_or-bytes, put_here, put_other,
}

-- What is printed of a buffer whose characters up to `last` are reversed.
abbrev pub reversed : ℕ → ℕ → Buf → List ℕ
reversed length last b = bytes length 0 (swap_loop last 0 last b)

in_reverse :
    (len last j : ℕ) (b : Buf)
    → j < len
    → j ≤ last
    → get_or (reversed len last b) j 0 ≡ b (last - j)
in_reverse len last j b h le =
    get_or-bytes len 0 j (swap_loop last 0 last b) h
    ∙ ap (swap_loop last 0 last b) (omega arith)
    ∙ swap_loop_lem last 0 last j b (omega arith)
    ∙ rw (yes_le j last le) (ap b (omega arith))
  where
    yes_le : (j last : ℕ) → j ≤ last → (leb 0 j && leb j last) ≡ true
    yes_le j last h = ground arith

behind : (len last j : ℕ) (b : Buf) → j < len → last < j → get_or (reversed len last b) j 0 ≡ b j
behind len last j b h lt =
    get_or-bytes len 0 j (swap_loop last 0 last b) h
    ∙ ap (swap_loop last 0 last b) (omega arith)
    ∙ swap_loop_lem last 0 last j b (omega arith)
    ∙ rw (not_le j last lt) refl
  where
    not_le : (j last : ℕ) → last < j → (leb 0 j && leb j last) ≡ false
    not_le j last h = ground arith

-- The place of the sign, and the end of the number, in what is printed.
abbrev pub sign_at : Bool → ℕ → ℕ → ℕ → ℕ
sign_at ladjust padc len m = if ladjust || padc == 48 then 0 else len - m

abbrev pub number_end : Bool → ℕ → ℕ → ℕ
number_end ladjust len m = if ladjust then m else len

abbrev pub with_sign : Bool → ℕ → ℕ
with_sign neg n = if neg then n + 1 else n

-- Of `len` characters, the number of `n` digits stands at its end, the sign at its place, and padding
-- everywhere else.
abbrev pub Laid : (ℕ → ℕ) → ℕ → Bool → Bool → ℕ → ℕ → List ℕ → Type 0
Laid d n neg ladjust padc len out =
    let m = with_sign neg n in
    (length out ≡ len)
    × ((k : ℕ) → k < n → get_or out (number_end ladjust len m - 1 - k) 0 ≡ d k)
    × ((neg ≡ false) ⊎ (get_or out (sign_at ladjust padc len m) 0 ≡ 45))
    × ((j : ℕ)
        → j < len
        → (j + n < number_end ladjust len m) ⊎ (number_end ladjust len m ≤ j)
        → (neg ≡ false) ⊎ (j ≢ sign_at ladjust padc len m)
        → get_or out j 0 ≡ (if ladjust then 32 else padc))

-- The buffer before the padding.
abbrev pub Raw : (ℕ → ℕ) → ℕ → Bool → Buf → Type 0
Raw d n neg b = ((k : ℕ) → k < n → b k ≡ d k) × ((neg ≡ false) ⊎ (b n ≡ 45))

-- The three cases of the padding.
module _ (d : ℕ → ℕ) (n len : ℕ) (b : Buf) (some_digit : 1 ≤ n) where
  pub zeros_after_sign :
      n + 1 ≤ len
      → Raw d n true b
      → Laid d n true false 48 len
          (reversed len (len - 1) (put (pad_loop (len - (n + 1)) (n + 1 - 1) 48 b) (len - 1) 45))
  zeros_after_sign le (digits, sign) = (
    length-bytes len 0 (swap_loop (len - 1) 0 (len - 1) P),
    λ k h.
        in_reverse len (len - 1) (len - 1 - k) P (omega arith) (omega arith)
        ∙ ap P (omega arith)
        ∙ put_other B (len - 1) k 45 (λ e. omega arith)
        ∙ pad_loop_outside (len - (n + 1)) (n + 1 - 1) 48 k b (inl (omega arith))
        ∙ digits k h,
    inr (
        in_reverse len (len - 1) 0 P (omega arith) (omega arith)
        ∙ ap P (omega arith)
        ∙ put_here B (len - 1) 45),
    pad,
  )
    where
      B : Buf
      B = pad_loop (len - (n + 1)) (n + 1 - 1) 48 b

      P : Buf
      P = put B (len - 1) 45

      pad :
          (j : ℕ)
          → j < len
          → (j + n < len) ⊎ (len ≤ j)
          → (true ≡ false) ⊎ (j ≢ 0)
          → get_or (reversed len (len - 1) P) j 0 ≡ 48
      pad j h (inl near) (inr apart) =
          in_reverse len (len - 1) j P h (omega arith)
          ∙ put_other B (len - 1) (len - 1 - j) 45 (λ e. omega arith)
          ∙ pad_loop_inside (len - (n + 1)) (n + 1 - 1) 48 (len - 1 - j) b (omega arith)
              (omega arith)
      pad j h (inr far) apart = absurd (omega arith)
      pad j h near (inl e) = absurd (true≢false e)

  pub padded_right :
      (neg : Bool) (padc : ℕ)
      → with_sign neg n ≤ len
      → (neg && padc == 48) ≡ false
      → Raw d n neg b
      → Laid d n neg false padc len
          (reversed len (len - 1) (pad_loop (len - with_sign neg n) (with_sign neg n) padc b))
  padded_right true padc le zeros (digits, inl e) = absurd (true≢false e)
  padded_right true padc le zeros (digits, inr sign) = rw zeros (
    length-bytes len 0 (swap_loop (len - 1) 0 (len - 1) P),
    λ k h.
        in_reverse len (len - 1) (len - 1 - k) P (omega arith) (omega arith)
        ∙ ap P (omega arith)
        ∙ pad_loop_outside (len - (n + 1)) (n + 1) padc k b (inl (omega arith))
        ∙ digits k h,
    inr (
        in_reverse len (len - 1) (len - (n + 1)) P (omega arith) (omega arith)
        ∙ ap P (omega arith)
        ∙ pad_loop_outside (len - (n + 1)) (n + 1) padc n b (inl (omega arith))
        ∙ sign),
    pad,
  )
    where
      P : Buf
      P = pad_loop (len - (n + 1)) (n + 1) padc b

      pad :
          (j : ℕ)
          → j < len
          → (j + n < len) ⊎ (len ≤ j)
          → (true ≡ false) ⊎ (j ≢ len - (n + 1))
          → get_or (reversed len (len - 1) P) j 0 ≡ padc
      pad j h (inl near) (inr apart) =
          in_reverse len (len - 1) j P h (omega arith)
          ∙ pad_loop_inside (len - (n + 1)) (n + 1) padc (len - 1 - j) b (omega arith) (omega arith)
      pad j h (inr far) apart = absurd (omega arith)
      pad j h near (inl e) = absurd (true≢false e)
  padded_right false padc le zeros (digits, sign) = (
    length-bytes len 0 (swap_loop (len - 1) 0 (len - 1) P),
    λ k h.
        in_reverse len (len - 1) (len - 1 - k) P (omega arith) (omega arith)
        ∙ ap P (omega arith)
        ∙ pad_loop_outside (len - n) n padc k b (inl (omega arith))
        ∙ digits k h,
    inl refl,
    pad,
  )
    where
      P : Buf
      P = pad_loop (len - n) n padc b

      pad :
          (j : ℕ)
          → j < len
          → (j + n < len) ⊎ (len ≤ j)
          → (false ≡ false) ⊎ (j ≢ sign_at false padc len n)
          → get_or (reversed len (len - 1) P) j 0 ≡ padc
      pad j h (inl near) apart =
          in_reverse len (len - 1) j P h (omega arith)
          ∙ pad_loop_inside (len - n) n padc (len - 1 - j) b (omega arith) (omega arith)
      pad j h (inr far) apart = absurd (omega arith)

  pub padded_left :
      (neg : Bool) (padc : ℕ)
      → with_sign neg n ≤ len
      → Raw d n neg b
      → Laid d n neg true padc len (
          reversed len
            (with_sign neg n - 1)
            (pad_loop (len - with_sign neg n) (with_sign neg n) 32 b))
  padded_left true padc le (digits, inl e) = absurd (true≢false e)
  padded_left true padc le (digits, inr sign) = (
    length-bytes len 0 (swap_loop (n + 1 - 1) 0 (n + 1 - 1) P),
    λ k h.
        in_reverse len (n + 1 - 1) (n + 1 - 1 - k) P (omega arith) (omega arith)
        ∙ ap P (omega arith)
        ∙ pad_loop_outside (len - (n + 1)) (n + 1) 32 k b (inl (omega arith))
        ∙ digits k h,
    inr (
        in_reverse len (n + 1 - 1) 0 P (omega arith) (omega arith)
        ∙ ap P (omega arith)
        ∙ pad_loop_outside (len - (n + 1)) (n + 1) 32 n b (inl (omega arith))
        ∙ sign),
    pad,
  )
    where
      P : Buf
      P = pad_loop (len - (n + 1)) (n + 1) 32 b

      pad :
          (j : ℕ)
          → j < len
          → (j + n < n + 1) ⊎ (n + 1 ≤ j)
          → (true ≡ false) ⊎ (j ≢ 0)
          → get_or (reversed len (n + 1 - 1) P) j 0 ≡ 32
      pad j h (inl near) (inr apart) = absurd (omega arith)
      pad j h (inr far) apart =
          behind len (n + 1 - 1) j P h (omega arith)
          ∙ pad_loop_inside (len - (n + 1)) (n + 1) 32 j b (omega arith) (omega arith)
      pad j h near (inl e) = absurd (true≢false e)
  padded_left false padc le (digits, sign) = (
    length-bytes len 0 (swap_loop (n - 1) 0 (n - 1) P),
    λ k h.
        in_reverse len (n - 1) (n - 1 - k) P (omega arith) (omega arith)
        ∙ ap P (omega arith)
        ∙ pad_loop_outside (len - n) n 32 k b (inl (omega arith))
        ∙ digits k h,
    inl refl,
    pad,
  )
    where
      P : Buf
      P = pad_loop (len - n) n 32 b

      pad :
          (j : ℕ)
          → j < len
          → (j + n < n) ⊎ (n ≤ j)
          → (false ≡ false) ⊎ (j ≢ 0)
          → get_or (reversed len (n - 1) P) j 0 ≡ 32
      pad j h (inl near) apart = absurd (omega arith)
      pad j h (inr far) apart =
          behind len (n - 1) j P h (omega arith)
          ∙ pad_loop_inside (len - n) n 32 j b (omega arith) (omega arith)
