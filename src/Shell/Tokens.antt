-- ===== src/Shell/Tokens.antt =====
-- user/sh.c: the tokens of a line are its bytes without the white space.
use buaa_os_25spring.Prelude.{
  ℕ, zero, suc, ◌<◌, ◌≤◌, ◌≡◌, refl, sym, ap, ◌∙◌, arith, true, false, ◌&&◌, ◌||◌, Option, none,
  some, List, [], ◌∷◌, ◌++◌, ◌==◌, if◌then◌else◌, length, Bool-cases, inl, inr,
}
use buaa_os_25spring.Shell.{
  Token, word, symbol, or_token, and_token, is_space, is_symbol, skip_spaces, word_of, after_word,
  double_symbol, first_token, gettoken, put_token, tokens,
}

abbrev pub text : Token → List ℕ
text (word w) = w
text (symbol c) = c ∷ []
text or_token = 124 ∷ 124 ∷ []
text and_token = 38 ∷ 38 ∷ []

abbrev pub texts : List Token → List ℕ
texts [] = []
texts (t ∷ ts) = text t ++ texts ts

-- The bytes that are not white space.
abbrev pub kept : List ℕ → List ℕ
kept [] = []
kept (c ∷ cs) = let rest = kept cs in if is_space c then rest else c ∷ rest

kept-skip_spaces : (s : List ℕ) → kept (skip_spaces s) ≡ kept s
unfolding skip_spaces
kept-skip_spaces [] = refl
kept-skip_spaces (c ∷ cs) = elim (Bool-cases (is_space c)) [
  | inl e ↦ rw e (kept-skip_spaces cs)
  | inr e ↦ rw (e, e) refl
]

length-skip_spaces : (s : List ℕ) → length (skip_spaces s) ≤ length s
unfolding skip_spaces
length-skip_spaces [] = omega arith
length-skip_spaces (c ∷ cs) = elim (Bool-cases (is_space c)) [
  | inl e ↦ rw e (omega (arith, length-skip_spaces cs))
  | inr e ↦ rw e (omega arith)
]

word_kept : (s : List ℕ) → word_of s ++ kept (after_word s) ≡ kept s
unfolding word_of after_word
word_kept [] = refl
word_kept (c ∷ cs) = elim (Bool-cases (is_space c)) [
  | inl e ↦ rw e (rw e refl)
  | inr e ↦ elim (Bool-cases (is_symbol c)) [
    | inl z ↦ rw (e, z) (rw e refl)
    | inr z ↦ rw (e, z) (ap (λ l. c ∷ l) (word_kept cs))
  ]
]

length-after_word : (s : List ℕ) → length (after_word s) ≤ length s
unfolding after_word
length-after_word [] = omega arith
length-after_word (c ∷ cs) = elim (Bool-cases (is_space c || is_symbol c)) [
  | inl e ↦ rw e (omega arith)
  | inr e ↦ rw e (omega (arith, length-after_word cs))
]

symbol_no_space : (c : ℕ) → is_symbol c ≡ true → is_space c ≡ false
unfolding is_symbol is_space
symbol_no_space c h = ground arith

kept_symbol : (c : ℕ) (cs : List ℕ) → is_space c ≡ false → kept (c ∷ cs) ≡ c ∷ kept cs
kept_symbol c cs e = rw e refl

-- One call: the token and what follows it, or nothing.
abbrev Cut : List ℕ → Option (Token × List ℕ) → Type 0
Cut s none = kept s ≡ []
Cut s (some (t, rest)) = (length rest < length s) × (text t ++ kept rest ≡ kept s)

twice :
    (a c d : ℕ) (ds : List ℕ)
    → c ≡ a
    → d ≡ a
    → is_space c ≡ false
    → a ∷ a ∷ kept ds ≡ kept (c ∷ d ∷ ds)
twice a c d ds p q h =
    let h' : is_space d ≡ false = ap is_space (q ∙ sym p) ∙ h in
    ap (λ x. x ∷ a ∷ kept ds) (sym p)
    ∙ ap (λ x. c ∷ x ∷ kept ds) (sym q)
    ∙ sym (kept_symbol c (d ∷ ds) h ∙ ap (λ l. c ∷ l) (kept_symbol d ds h'))

double_symbol-Cut :
    (c : ℕ) (cs : List ℕ) → is_symbol c ≡ true → Cut (c ∷ cs) (some (double_symbol c cs))
double_symbol-Cut c [] h = (omega arith, sym (kept_symbol c [] (symbol_no_space c h)))
double_symbol-Cut c (d ∷ ds) h = elim (Bool-cases (c == 124 && d == 124)) [
  | inl e ↦ rw e (omega arith, twice 124 c d ds (ground arith) (ground arith) (symbol_no_space c h))
  | inr e ↦ elim (Bool-cases (c == 38 && d == 38)) [
    | inl z ↦
        rw (e, z) (omega arith, twice 38 c d ds (ground arith) (ground arith) (symbol_no_space c h))
    | inr z ↦ rw (e, z) (omega arith, sym (kept_symbol c (d ∷ ds) (symbol_no_space c h)))
  ]
]

first_token-Cut : (c : ℕ) (cs : List ℕ) → is_space c ≡ false → Cut (c ∷ cs) (first_token (c ∷ cs))
unfolding word_of after_word
first_token-Cut c cs h = elim (Bool-cases (is_symbol c)) [
  | inl e ↦ rw e (double_symbol-Cut c cs e)
  | inr e ↦ rw (e, h) (omega (arith, length-after_word cs), ap (λ l. c ∷ l) (word_kept cs))
]

abbrev NoSpace : List ℕ → Type 0
NoSpace [] = Unit {0}
NoSpace (c ∷ cs) = is_space c ≡ false

skip_spaces-NoSpace : (s : List ℕ) → NoSpace (skip_spaces s)
unfolding skip_spaces
skip_spaces-NoSpace [] = tt
skip_spaces-NoSpace (c ∷ cs) = elim (Bool-cases (is_space c)) [
  | inl e ↦ rw e (skip_spaces-NoSpace cs)
  | inr e ↦ rw e e
]

first_token-NoSpace : (s : List ℕ) → NoSpace s → Cut s (first_token s)
first_token-NoSpace [] h = refl
first_token-NoSpace (c ∷ cs) h = first_token-Cut c cs h

Cut-skipped : (s : List ℕ) (r : Option (Token × List ℕ)) → Cut (skip_spaces s) r → Cut s r
Cut-skipped s none h = sym (kept-skip_spaces s) ∙ h
Cut-skipped s (some (t, rest)) (shorter, same) =
    (omega (arith, length-skip_spaces s, shorter), same ∙ kept-skip_spaces s)

gettoken-Cut : (s : List ℕ) → Cut s (gettoken s)
unfolding gettoken
gettoken-Cut s =
    Cut-skipped s (first_token (skip_spaces s))
      (first_token-NoSpace (skip_spaces s) (skip_spaces-NoSpace s))

put_token-texts :
    (fuel : ℕ) (s : List ℕ) (r : Option (Token × List ℕ))
    → ((rest : List ℕ) → length rest ≤ fuel → texts (tokens fuel rest) ≡ kept rest)
    → length s ≤ suc fuel
    → Cut s r
    → texts (put_token r (tokens fuel)) ≡ kept s
put_token-texts fuel s none ih h cut = sym cut
put_token-texts fuel s (some (t, rest)) ih h (shorter, same) =
    ap (λ l. text t ++ l) (ih rest (omega (arith, shorter, h))) ∙ same

-- With at least as many calls as the line has bytes, the tokens that `gettoken` returns one after the
-- other are the line without its white space: no other byte is lost, doubled or moved.
pub tokens_lem : (fuel : ℕ) (s : List ℕ) → length s ≤ fuel → texts (tokens fuel s) ≡ kept s
unfolding tokens
tokens_lem zero [] h = refl
tokens_lem zero (c ∷ cs) h = absurd (omega arith)
tokens_lem (suc fuel) s h =
    put_token-texts fuel s (gettoken s) (λ rest le. tokens_lem fuel rest le) h (gettoken-Cut s)
