-- ===== src/Shell/Tests.antt =====
-- The tokens of the line "ls |b&& c".
use buaa_os_25spring.Prelude.{ℕ, ◌≡◌, refl, arith, List, [], ◌∷◌}
use buaa_os_25spring.Shell.{
  word, symbol, and_token, gettoken, tokens, is_space, is_symbol, skip_spaces, word_of, after_word,
}
use buaa_os_25spring.Shell.Tokens.{texts, kept, tokens_lem}

abbrev line : List ℕ
line = 108 ∷ 115 ∷ 32 ∷ 124 ∷ 98 ∷ 38 ∷ 38 ∷ 32 ∷ 99 ∷ []

five_tokens :
    tokens 9 line
    ≡ word (108 ∷ 115 ∷ []) ∷ symbol 124 ∷ word (98 ∷ []) ∷ and_token ∷ word (99 ∷ []) ∷ []
unfolding tokens gettoken is_space is_symbol skip_spaces word_of after_word
five_tokens = refl

tokens_lem_example : texts (tokens 9 line) ≡ kept line
tokens_lem_example = tokens_lem 9 line (omega arith)
