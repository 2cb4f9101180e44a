-- ===== src/Str/Copy.antt =====
-- memcpy and memset of lib/string.c: the word loops do what the byte loops do.
use buaa_os_25spring.Prelude.{
  ℕ, zero, suc, ◌+◌, ◌-◌, ◌%◌, ◌<◌, ◌≤◌, ◌≡◌, ◌⊎◌, inl, inr, refl, ap, ◌∙◌, not, arith, ◌==◌,
  Bool-cases, lt_or_le,
}
use buaa_os_25spring.Str.{
  Mem, write, write_word, copy_bytes, copy_words, copy_aligned, memcpy, set_bytes, set_words,
  set_aligned, memset,
}

-- The ranges of `n` bytes at `dst` and at `src` have no byte in common.
abbrev pub Apart : ℕ → ℕ → ℕ → Type 0
Apart n dst src = (dst + n ≤ src) ⊎ (src + n ≤ dst)

abbrev pub Outside : ℕ → ℕ → ℕ → Type 0
Outside n dst a = (a < dst) ⊎ (dst + n ≤ a)

-- `m'` is `m` with the `n` bytes at `src` copied to `dst`.
abbrev pub Copied : ℕ → ℕ → ℕ → Mem → Mem → Type 0
Copied n dst src m m' =
    ((i : ℕ) → i < n → m' (dst + i) ≡ m (src + i)) × ((a : ℕ) → Outside n dst a → m' a ≡ m a)

copying_one : (dst src : ℕ) (m : Mem) → Copied 1 dst src m (write m dst (m src))
copying_one dst src m =
    (λ i h. let z : i ≡ 0 = omega arith in rw z (ground arith), λ a h. ground arith)

copying_more :
    (i n j dst src : ℕ) (m m1 m2 : Mem)
    → n ≡ i + j
    → Apart n dst src
    → Copied i dst src m m1
    → Copied j (dst + i) (src + i) m1 m2
    → Copied n dst src m m2
copying_more i n j dst src m m1 m2 hn apart (in1, out1) (in2, out2) = (
  λ x hx. elim (lt_or_le x i) [
    | inl l ↦ out2 (dst + x) (inl (omega arith)) ∙ in1 x l
    | inr l ↦
        ap m2 (omega arith)
        ∙ in2 (x - i) (omega arith)
        ∙ ap m1 (omega arith)
        ∙ out1 (src + x) (from_source x hx)
  ],
  λ a h. elim h [
    | inl l ↦ out2 a (inl (omega arith)) ∙ out1 a (inl l)
    | inr l ↦ out2 a (inr (omega arith)) ∙ out1 a (inr (omega arith))
  ],
)
  where
    from_source : (x : ℕ) → x < n → Outside i dst (src + x)
    from_source x hx = elim apart [ inl q ↦ inr (omega arith) | inr q ↦ inl (omega arith) ]

-- A part of two ranges that have no byte in common.
Apart-later : (i n j dst src : ℕ) → n ≡ i + j → Apart n dst src → Apart j (dst + i) (src + i)
Apart-later i n j dst src hn apart = elim apart [
  | inl q ↦ inl (omega arith)
  | inr q ↦ inr (omega arith)
]

copy_bytes-Copied :
    (n dst src : ℕ) (m : Mem) → Apart n dst src → Copied n dst src m (copy_bytes n dst src m)
unfolding copy_bytes
copy_bytes-Copied zero dst src m apart = (λ i h. absurd (omega arith), λ a h. refl)
copy_bytes-Copied (suc n) dst src m apart =
    copying_more 1 (suc n) n dst src m (write m dst (m src))
      (copy_bytes n (dst + 1) (src + 1) (write m dst (m src))) (omega arith) apart
      (copying_one dst src m)
      (copy_bytes-Copied n (dst + 1) (src + 1) (write m dst (m src))
        (Apart-later 1 (suc n) n dst src (omega arith) apart))

copying_word :
    (dst src : ℕ) (m : Mem)
    → Copied 4 dst src m (write_word m dst (m src) (m (src + 1)) (m (src + 2)) (m (src + 3)))
copying_word dst src m = (by_byte, λ a h. ground arith)
  where
    by_byte :
        (i : ℕ)
        → i < 4
        → write_word m dst (m src) (m (src + 1)) (m (src + 2)) (m (src + 3)) (dst + i) ≡ m (src + i)
    by_byte zero h = ground arith
    by_byte (suc zero) h = ground arith
    by_byte (suc (suc zero)) h = ground arith
    by_byte (suc (suc (suc zero))) h = ground arith
    by_byte (suc (suc (suc (suc i)))) h = absurd (omega arith)

copy_words-Copied :
    (n dst src : ℕ) (m : Mem) → Apart n dst src → Copied n dst src m (copy_words n dst src m)
unfolding copy_words
copy_words-Copied zero dst src m apart = copy_bytes-Copied 0 dst src m apart
copy_words-Copied (suc zero) dst src m apart = copy_bytes-Copied 1 dst src m apart
copy_words-Copied (suc (suc zero)) dst src m apart = copy_bytes-Copied 2 dst src m apart
copy_words-Copied (suc (suc (suc zero))) dst src m apart = copy_bytes-Copied 3 dst src m apart
copy_words-Copied (suc (suc (suc (suc n)))) dst src m apart =
    copying_more 4 (suc (suc (suc (suc n)))) n dst src m m1 (copy_words n (dst + 4) (src + 4) m1)
      (omega arith) apart (copying_word dst src m)
      (copy_words-Copied n (dst + 4) (src + 4) m1
        (Apart-later 4 (suc (suc (suc (suc n)))) n dst src (omega arith) apart))
  where
    m1 : Mem
    m1 = write_word m dst (m src) (m (src + 1)) (m (src + 2)) (m (src + 3))

copy_aligned-Copied :
    (n dst src : ℕ) (m : Mem) → Apart n dst src → Copied n dst src m (copy_aligned n dst src m)
unfolding copy_aligned
copy_aligned-Copied zero dst src m apart = copy_words-Copied 0 dst src m apart
copy_aligned-Copied (suc n) dst src m apart = elim (Bool-cases (dst % 4 == 0)) [
  | inl h ↦ rw h (copy_words-Copied (suc n) dst src m apart)
  | inr h ↦ rw h (
      copying_more 1 (suc n) n dst src m (write m dst (m src))
        (copy_aligned n (dst + 1) (src + 1) (write m dst (m src))) (omega arith) apart
        (copying_one dst src m)
        (copy_aligned-Copied n (dst + 1) (src + 1) (write m dst (m src))
          (Apart-later 1 (suc n) n dst src (omega arith) apart)))
]

-- For ranges that have no byte in common, `memcpy` copies the `n` bytes at `src` to `dst` and
-- changes no other byte, however the addresses are aligned.
pub memcpy_lem :
    (n dst src : ℕ) (m : Mem) → Apart n dst src → Copied n dst src m (memcpy dst src n m)
unfolding memcpy
memcpy_lem n dst src m apart = elim (Bool-cases (not (src % 4 == dst % 4))) [
  | inl h ↦ rw h (copy_bytes-Copied n dst src m apart)
  | inr h ↦ rw h (copy_aligned-Copied n dst src m apart)
]

-- `m'` is `m` with `byte` in the `n` bytes at `dst`.
abbrev pub Filled : ℕ → ℕ → ℕ → Mem → Mem → Type 0
Filled n dst byte m m' =
    ((i : ℕ) → i < n → m' (dst + i) ≡ byte) × ((a : ℕ) → Outside n dst a → m' a ≡ m a)

filling_one : (dst byte : ℕ) (m : Mem) → Filled 1 dst byte m (write m dst byte)
filling_one dst byte m =
    (λ i h. let z : i ≡ 0 = omega arith in rw z (ground arith), λ a h. ground arith)

filling_more :
    (i n j dst byte : ℕ) (m m1 m2 : Mem)
    → n ≡ i + j
    → Filled i dst byte m m1
    → Filled j (dst + i) byte m1 m2
    → Filled n dst byte m m2
filling_more i n j dst byte m m1 m2 hn (in1, out1) (in2, out2) = (
  λ x hx. elim (lt_or_le x i) [
    | inl l ↦ out2 (dst + x) (inl (omega arith)) ∙ in1 x l
    | inr l ↦ ap m2 (omega arith) ∙ in2 (x - i) (omega arith)
  ],
  λ a h. elim h [
    | inl l ↦ out2 a (inl (omega arith)) ∙ out1 a (inl l)
    | inr l ↦ out2 a (inr (omega arith)) ∙ out1 a (inr (omega arith))
  ],
)

set_bytes-Filled : (n dst byte : ℕ) (m : Mem) → Filled n dst byte m (set_bytes n dst byte m)
unfolding set_bytes
set_bytes-Filled zero dst byte m = (λ i h. absurd (omega arith), λ a h. refl)
set_bytes-Filled (suc n) dst byte m =
    filling_more 1 (suc n) n dst byte m (write m dst byte)
      (set_bytes n (dst + 1) byte (write m dst byte)) (omega arith) (filling_one dst byte m)
      (set_bytes-Filled n (dst + 1) byte (write m dst byte))

filling_word : (dst byte : ℕ) (m : Mem) → Filled 4 dst byte m (write_word m dst byte byte byte byte)
filling_word dst byte m = (by_byte, λ a h. ground arith)
  where
    by_byte : (i : ℕ) → i < 4 → write_word m dst byte byte byte byte (dst + i) ≡ byte
    by_byte zero h = ground arith
    by_byte (suc zero) h = ground arith
    by_byte (suc (suc zero)) h = ground arith
    by_byte (suc (suc (suc zero))) h = ground arith
    by_byte (suc (suc (suc (suc i)))) h = absurd (omega arith)

set_words-Filled : (n dst byte : ℕ) (m : Mem) → Filled n dst byte m (set_words n dst byte m)
unfolding set_words
set_words-Filled zero dst byte m = set_bytes-Filled 0 dst byte m
set_words-Filled (suc zero) dst byte m = set_bytes-Filled 1 dst byte m
set_words-Filled (suc (suc zero)) dst byte m = set_bytes-Filled 2 dst byte m
set_words-Filled (suc (suc (suc zero))) dst byte m = set_bytes-Filled 3 dst byte m
set_words-Filled (suc (suc (suc (suc n)))) dst byte m =
    filling_more 4 (suc (suc (suc (suc n)))) n dst byte m m1 (set_words n (dst + 4) byte m1)
      (omega arith) (filling_word dst byte m) (set_words-Filled n (dst + 4) byte m1)
  where
    m1 : Mem
    m1 = write_word m dst byte byte byte byte

set_aligned-Filled : (n dst byte : ℕ) (m : Mem) → Filled n dst byte m (set_aligned n dst byte m)
unfolding set_aligned
set_aligned-Filled zero dst byte m = set_words-Filled 0 dst byte m
set_aligned-Filled (suc n) dst byte m = elim (Bool-cases (dst % 4 == 0)) [
  | inl h ↦ rw h (set_words-Filled (suc n) dst byte m)
  | inr h ↦ rw h (
      filling_more 1 (suc n) n dst byte m (write m dst byte)
        (set_aligned n (dst + 1) byte (write m dst byte)) (omega arith) (filling_one dst byte m)
        (set_aligned-Filled n (dst + 1) byte (write m dst byte)))
]

-- `memset` gives the `n` bytes at `dst` the low byte of `c` and changes no other byte, however the
-- address is aligned.
pub memset_lem : (n dst c : ℕ) (m : Mem) → Filled n dst (c % 256) m (memset dst c n m)
unfolding memset
memset_lem n dst c m = set_aligned-Filled n dst (c % 256) m
