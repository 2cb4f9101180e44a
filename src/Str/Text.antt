-- ===== src/Str/Text.antt =====
-- The string functions of lib/string.c on strings that end.
use buaa_os_25spring.Prelude.{
  Bool, true, ℕ, zero, suc, ◌+◌, ◌<◌, ◌≤◌, ◌≡◌, ◌≢◌, ◌⊎◌, inl, inr, refl, sym, ap, ◌∙◌, arith, ◌==◌,
  if◌then◌else◌, ==_self, ==_ne, List, [], ◌∷◌, some, length, ltb, false, ℕ_discrete,
}
use buaa_os_25spring.Str.{Mem, write, strlen, strcpy, strcmp, Order, less, equal, greater}
use buaa_os_25spring.Str.Copy.{Outside}

-- At `s` stand the bytes of the list, none of them 0, and then a 0.
abbrev pub HoldsText : Mem → ℕ → List ℕ → Type 0
HoldsText m s [] = m s ≡ 0
HoldsText m s (x ∷ xs) = (m s ≡ x) × (x ≢ 0) × HoldsText m (s + 1) xs

-- Bytes in order, a string before its continuations: the order that `strcmp` decides.
abbrev pub compare_text : List ℕ → List ℕ → Order
compare_text [] [] = equal
compare_text [] (y ∷ ys) = less
compare_text (x ∷ xs) [] = greater
compare_text (x ∷ xs) (y ∷ ys) =
    if x == y then compare_text xs ys else if ltb x y then less else greater

-- `strcmp(a, b) == 0`
abbrev pub is_equal : Order → Bool
is_equal equal = true
is_equal _ = false

pub compare_text_refl : (xs : List ℕ) → compare_text xs xs ≡ equal
compare_text_refl [] = refl
compare_text_refl (x ∷ xs) = rw (==_self x) (compare_text_refl xs)

pub compare_text_eq : (xs ys : List ℕ) → is_equal (compare_text xs ys) ≡ true → xs ≡ ys
compare_text_eq [] [] h = refl
compare_text_eq [] (y ∷ ys) h = cc
compare_text_eq (x ∷ xs) [] h = cc
compare_text_eq (x ∷ xs) (y ∷ ys) h = elim (ℕ_discrete x y) [
  | yes q ↦ let e : xs ≡ ys = compare_text_eq xs ys (rw (q, ==_self y) at h) in cc
  | no ne ↦ absurd (ground (arith, h, ==_ne x y ne))
]

-- `strlen` of a string that ends returns its length, for any fuel above it.
pub strlen_lem :
    (fuel s : ℕ) (m : Mem) (xs : List ℕ)
    → HoldsText m s xs
    → length xs < fuel
    → strlen fuel s m ≡ some (length xs)
unfolding strlen
strlen_lem zero s m xs h f = absurd (omega arith)
strlen_lem (suc fuel) s m [] h f = rw h refl
strlen_lem (suc fuel) s m (x ∷ xs) (e, ne, h) f =
    rw (e, ==_ne x 0 ne, strlen_lem fuel (s + 1) m xs h (omega arith)) (ap some (omega arith))

-- `strcmp` of two strings that end decides their order as texts, for any fuel above the length of
-- the first.
pub strcmp_lem :
    (fuel p q : ℕ) (m : Mem) (xs ys : List ℕ)
    → HoldsText m p xs
    → HoldsText m q ys
    → length xs < fuel
    → strcmp fuel p q m ≡ some (compare_text xs ys)
unfolding strcmp
strcmp_lem zero p q m xs ys hp hq f = absurd (omega arith)
strcmp_lem (suc fuel) p q m [] [] hp hq f = rw (hp, hq) refl
strcmp_lem (suc fuel) p q m [] (y ∷ ys) hp (e, ne, hq) f = rw (hp, e) (ground arith)
strcmp_lem (suc fuel) p q m (x ∷ xs) [] (e, ne, hp) hq f = rw (e, hq) (ground arith)
strcmp_lem (suc fuel) p q m (x ∷ xs) (y ∷ ys) (e, ne, hp) (e', ne', hq) f =
    rw (e, e') (ground (arith, strcmp_lem fuel (p + 1) (q + 1) m xs ys hp hq (omega arith)))

-- What a string is does not depend on the bytes outside it.
pub HoldsText-same :
    (xs : List ℕ) (m m' : Mem) (s : ℕ)
    → ((a : ℕ) → s ≤ a → a ≤ s + length xs → m' a ≡ m a)
    → HoldsText m s xs
    → HoldsText m' s xs
HoldsText-same [] m m' s same h = same s (omega arith) (omega arith) ∙ h
HoldsText-same (x ∷ xs) m m' s same (e, ne, h) = (
  same s (omega arith) (omega arith) ∙ e,
  ne,
  HoldsText-same xs m m' (s + 1) (λ a lo hi. same a (omega arith) (omega arith)) h,
)

write_ne : (m : Mem) (a v b : ℕ) → b ≢ a → write m a v b ≡ m b
write_ne m a v b ne = rw (==_ne b a ne) refl

strcpy-next :
    (fuel dst src : ℕ) (m : Mem)
    → m src ≢ 0
    → strcpy (suc fuel) dst src m ≡ strcpy fuel (dst + 1) (src + 1) (write m dst (m src))
unfolding strcpy
strcpy-next fuel dst src m ne = rw (==_ne (m src) 0 ne) refl

-- `strcpy` of a string that ends, to a place that has no byte in common with it, returns; the
-- text then stands at `dst`, and no byte outside of its place is changed.
pub strcpy_lem :
    (fuel dst src : ℕ) (m : Mem) (xs : List ℕ)
    → HoldsText m src xs
    → (dst + length xs < src) ⊎ (src + length xs < dst)
    → length xs < fuel
    → (m' : Mem) × (strcpy fuel dst src m ≡ some m')
      × HoldsText m' dst xs
      × ((a : ℕ) → Outside (length xs + 1) dst a → m' a ≡ m a)
unfolding strcpy
strcpy_lem zero dst src m xs h apart f = absurd (omega arith)
strcpy_lem (suc fuel) dst src m [] h apart f =
    (write m dst (m src), rw h refl, rw (==_self dst) h, λ a o. ground arith)
strcpy_lem (suc fuel) dst src m (x ∷ xs) (e, ne, h) apart f =
    let (m', run, text, out) =
      strcpy_lem fuel (dst + 1) (src + 1) (write m dst (m src)) xs
        (HoldsText-same xs m (write m dst (m src)) (src + 1)
          (λ a lo hi. write_ne m dst (m src) a (away a lo hi)) h)
        (elim apart [ inl q ↦ inl (omega arith) | inr q ↦ inr (omega arith) ]) (omega arith) in
    (
      m',
      strcpy-next fuel dst src m (λ z. ne (sym e ∙ z)) ∙ run,
      (out dst (inl (omega arith)) ∙ rw (==_self dst) e, ne, text),
      λ a o. out a (later a o) ∙ write_ne m dst (m src) a (other a o),
    )
  where
    away : (a : ℕ) → src + 1 ≤ a → a ≤ src + 1 + length xs → a ≢ dst
    away a lo hi q = elim apart [ inl l ↦ omega arith | inr l ↦ omega arith ]

    later : (a : ℕ) → Outside (suc (length xs) + 1) dst a → Outside (length xs + 1) (dst + 1) a
    later a o = elim o [ inl l ↦ inl (omega arith) | inr l ↦ inr (omega arith) ]

    other : (a : ℕ) → Outside (suc (length xs) + 1) dst a → a ≢ dst
    other a o q = elim o [ inl l ↦ omega arith | inr l ↦ omega arith ]
