-- ===== src/Print/Tests.antt =====
-- Formatted output at small formats.
use buaa_os_25spring.Prelude.{ℕ, ◌≤◌, ◌<◌, arith, ◌≡◌, ◌≢◌, ◌/◌, ◌^◌, true, false, refl, [], ◌∷◌}
use buaa_os_25spring.Print.Layout.{Laid, with_sign}
use buaa_os_25spring.Print.Number.{nth_digit, print_num_lem}
use buaa_os_25spring.Print.{at_least, print_num, digit, vprintfmt, text_out, undefined, word}

-- "a%05d|%-4x." of -42 and 255 is "a-0042|ff  .".
prints :
    vprintfmt
      (97 ∷ 37 ∷ 48 ∷ 53 ∷ 100 ∷ 124 ∷ 37 ∷ 45 ∷ 52 ∷ 120 ∷ 46 ∷ [])
      (word 4294967254 ∷ word 255 ∷ [])
    ≡ text_out (97 ∷ 45 ∷ 48 ∷ 48 ∷ 52 ∷ 50 ∷ 124 ∷ 102 ∷ 102 ∷ 32 ∷ 32 ∷ 46 ∷ [])
unfolding vprintfmt digit
prints = refl

-- "%2147483648c" has a width that is no `int`.
too_wide :
    vprintfmt (37 ∷ 50 ∷ 49 ∷ 52 ∷ 55 ∷ 52 ∷ 56 ∷ 51 ∷ 54 ∷ 52 ∷ 56 ∷ 99 ∷ []) (word 65 ∷ [])
    ≡ undefined
unfolding vprintfmt
too_wide = refl

-- -42 in five characters.
print_num_lem_example :
    (n : ℕ) × (1 ≤ n)
    × (42 / 10 ^ n ≡ 0)
    × ((k : ℕ) → 1 ≤ k → k < n → 42 / 10 ^ k ≢ 0)
    × Laid
        (nth_digit 10 false 42)
        n
        true
        false
        48
        (at_least 5 (with_sign true n))
        (print_num 42 10 true 5 false 48 false)
print_num_lem_example = print_num_lem 42 10 5 48 true false false (omega arith) (omega arith)
