-- ===== src/Rpath/Tests.antt =====
-- Paths from the directory `/a`, whose result stands at 200.
use buaa_os_25spring.Prelude.{ℕ, ◌+◌, ◌≡◌, refl, inr, arith, Option, none, some, List, [], ◌∷◌}
use buaa_os_25spring.Str.{Mem}
use buaa_os_25spring.Str.Text.{HoldsText}
use buaa_os_25spring.Rpath.Name.{parse_rpath_lem}
use buaa_os_25spring.Rpath.{
  write_text, parse_rpath, to_end, to_slash, to_parent, skip_dots, append_rest,
}

-- The bytes from `a` on, `n` at most, up to the end of the string.
abbrev text_at : ℕ → ℕ → Mem → List ℕ
text_at a n m = m a ∷ m (a + 1) ∷ m (a + 2) ∷ m (a + 3) ∷ m (a + 4) ∷ []

abbrev blank : Mem
blank a = 1

abbrev from_a : List ℕ → Option (List ℕ)
from_a old = elim (parse_rpath 8 100 200 (47 ∷ 97 ∷ []) (write_text 100 old blank)) [
  | none ↦ none
  | some m ↦ some (text_at 200 5 m)
]

-- `b` is `/a/b`, `..` is `/`, and `../b` is `/b`.
name : from_a (98 ∷ []) ≡ some (47 ∷ 97 ∷ 47 ∷ 98 ∷ 0 ∷ [])
unfolding parse_rpath to_end skip_dots append_rest
name = refl

parent : from_a (46 ∷ 46 ∷ []) ≡ some (47 ∷ 0 ∷ 0 ∷ 1 ∷ 1 ∷ [])
unfolding parse_rpath to_end skip_dots append_rest to_parent to_slash
parent = refl

sibling : from_a (46 ∷ 46 ∷ 47 ∷ 98 ∷ []) ≡ some (47 ∷ 98 ∷ 0 ∷ 1 ∷ 1 ∷ [])
unfolding parse_rpath to_end skip_dots append_rest to_parent to_slash
sibling = refl

-- A name that starts with a dot loses it, and the character behind it: `.bc` is `/a/c`.
hidden : from_a (46 ∷ 98 ∷ 99 ∷ []) ≡ some (47 ∷ 97 ∷ 47 ∷ 99 ∷ 0 ∷ [])
unfolding parse_rpath to_end skip_dots append_rest
hidden = refl

name_text : HoldsText (write_text 100 (98 ∷ []) blank) 100 (98 ∷ [])
name_text = (refl, (λ z. absurd (omega (arith, z))), refl)

parse_rpath_lem_example :
    (m' : Mem) × (parse_rpath 9 100 200 (47 ∷ 97 ∷ []) (write_text 100 (98 ∷ []) blank) ≡ some m')
    × HoldsText m' 200 (47 ∷ 97 ∷ 47 ∷ 98 ∷ [])
parse_rpath_lem_example =
    parse_rpath_lem 9 100 200 47 (97 ∷ []) 98 [] (write_text 100 (98 ∷ []) blank) name_text
      (omega arith) (omega arith) refl (inr (omega arith)) (omega arith)
