-- ===== src/Fork/Tests.antt =====
-- A parent with a writable page, its stack, and a page that it shares.
use buaa_os_25spring.Prelude.{
  ℕ, ◌≡◌, refl, true, Option, none, some, List, [], ◌∷◌, ◌==◌, if◌then◌else◌,
}
use buaa_os_25spring.Fork.{Family, duppage, dup_from}

abbrev pages : ℕ → Option (ℕ × ℕ)
pages v = if v == 0x400 then some (7, 0x180) else if v == 0x401 then some (8, 0x182) else none

abbrev family : Family
family = record { parent = pages; child = λ v. none; fresh = 9 }

abbrev never : ℕ → List ℕ
never i = []

-- The stack is written before the next page is looked at.
abbrev stack_used : ℕ → List ℕ
stack_used i = if i == 0x401 then 0x400 ∷ [] else []

-- The writable page becomes copy-on-write in both, the other keeps its permissions.
both_mapped :
    ((dup_from (λ v. true) never never 2 0x400 family).child 0x400 ≡ some (7, 0x81))
    × ((dup_from (λ v. true) never never 2 0x400 family).parent 0x400 ≡ some (7, 0x81))
    × ((dup_from (λ v. true) never never 2 0x400 family).child 0x401 ≡ some (8, 0x182))
unfolding dup_from duppage
both_mapped = (refl, refl, refl)

-- A write fault of the parent gives it a page of its own; the child keeps the page.
parent_copies :
    ((dup_from (λ v. true) stack_used never 2 0x400 family).child 0x400 ≡ some (7, 0x81))
    × ((dup_from (λ v. true) stack_used never 2 0x400 family).parent 0x400 ≡ some (9, 0x180))
unfolding dup_from duppage
parent_copies = (refl, refl)
