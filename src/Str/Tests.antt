-- ===== src/Str/Tests.antt =====
-- The theorems on lib/string.c at a small memory: "ab" stands at 8, "b" at 16.
use buaa_os_25spring.Prelude.{ℕ, ◌%◌, ◌≡◌, inr, refl, some, [], ◌∷◌, arith, ◌==◌, if◌then◌else◌}
use buaa_os_25spring.Str.{Mem, memcpy, memset, strlen, strcpy, strcmp, less}
use buaa_os_25spring.Str.Copy.{Copied, Filled, Outside, memcpy_lem, memset_lem}
use buaa_os_25spring.Str.Text.{HoldsText, strlen_lem, strcmp_lem, strcpy_lem}

abbrev texts : Mem
texts a = if a == 8 then 97 else if a == 9 then 98 else if a == 16 then 98 else 0

memcpy_lem_example : Copied 6 17 7 texts (memcpy 17 7 6 texts)
memcpy_lem_example = memcpy_lem 6 17 7 texts (inr (omega arith))

sevens : Filled 6 7 (300 % 256) texts (memset 7 300 6 texts)
sevens = memset_lem 6 7 300 texts

ab : HoldsText texts 8 (97 ∷ 98 ∷ [])
ab = (refl, (λ q. omega (arith, q)), (refl, (λ q. omega (arith, q)), refl))

b_text : HoldsText texts 16 (98 ∷ [])
b_text = (refl, (λ q. omega (arith, q)), refl)

two_bytes : strlen 5 8 texts ≡ some 2
two_bytes = strlen_lem 5 8 texts (97 ∷ 98 ∷ []) ab (omega arith)

ab_before_b : strcmp 5 8 16 texts ≡ some less
ab_before_b = strcmp_lem 5 8 16 texts (97 ∷ 98 ∷ []) (98 ∷ []) ab b_text (omega arith)

ab_copied :
    (m' : Mem) × (strcpy 5 32 8 texts ≡ some m')
    × HoldsText m' 32 (97 ∷ 98 ∷ [])
    × ((a : ℕ) → Outside 3 32 a → m' a ≡ texts a)
ab_copied = strcpy_lem 5 32 8 texts (97 ∷ 98 ∷ []) ab (inr (omega arith)) (omega arith)
