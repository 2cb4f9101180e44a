-- ===== src/Shell.antt =====
-- user/sh.c: how the shell cuts a line into tokens. A token is the bytes from its beginning to the zero
-- that the code writes behind it; what follows it is returned.
pub mod Tokens
mod Tests
use buaa_os_25spring.Prelude.{
  ℕ, zero, suc, ◌+◌, Bool, true, false, not, ◌&&◌, ◌||◌, Option, none, some, List, [], ◌∷◌, ◌++◌,
  ◌==◌, if◌then◌else◌,
}

-- `strchr(WHITESPACE, c)` and `strchr(SYMBOLS, c)`.
unfoldable pub is_space : ℕ → Bool
is_space c = c == 32 || c == 9 || c == 13 || c == 10

unfoldable pub is_symbol : ℕ → Bool
is_symbol c =
    c == 60 || c == 124 || c == 62 || c == 38 || c == 59 || c == 40 || c == 41 || c == 35 || c == 36

pub data Token : Type 0 where
  word : List ℕ → Token
  symbol : ℕ → Token
  or_token and_token : Token

unfoldable pub skip_spaces : List ℕ → List ℕ
skip_spaces [] = []
skip_spaces (c ∷ cs) = let rest = skip_spaces cs in if is_space c then rest else c ∷ cs

-- The bytes of a word, and what follows it.
unfoldable pub word_of : List ℕ → List ℕ
word_of [] = []
word_of (c ∷ cs) = let rest = word_of cs in if is_space c || is_symbol c then [] else c ∷ rest

unfoldable pub after_word : List ℕ → List ℕ
after_word [] = []
after_word (c ∷ cs) = let rest = after_word cs in if is_space c || is_symbol c then c ∷ cs else rest

-- A symbol, which is one of "||" and "&&" when it is followed by itself.
abbrev pub double_symbol : ℕ → List ℕ → Token × List ℕ
double_symbol c [] = (symbol c, [])
double_symbol c (d ∷ ds) =
    if c == 124 && d == 124
    then (or_token, ds)
    else if c == 38 && d == 38
    then (and_token, ds)
    else (symbol c, d ∷ ds)

abbrev pub first_token : List ℕ → Option (Token × List ℕ)
first_token [] = none
first_token (c ∷ cs) =
    if is_symbol c
    then some (double_symbol c cs)
    else some (word (word_of (c ∷ cs)), after_word (c ∷ cs))

unfoldable pub gettoken : List ℕ → Option (Token × List ℕ)
gettoken s = first_token (skip_spaces s)

-- The tokens that `gettoken` returns one after the other, on fuel.
abbrev pub put_token : Option (Token × List ℕ) → (List ℕ → List Token) → List Token
put_token none next = []
put_token (some (t, rest)) next = t ∷ next rest

unfoldable pub tokens : ℕ → List ℕ → List Token
tokens zero s = []
tokens (suc fuel) s = put_token (gettoken s) (tokens fuel)
