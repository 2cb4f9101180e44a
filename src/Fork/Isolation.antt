-- ===== src/Fork/Isolation.antt =====
-- After the pages are copied, parent and child share no writable page but those of PTE_LIBRARY.
use buaa_os_25spring.Prelude.{ℕ, ◌≤◌, ◌<◌, ◌≡◌, ◌≢◌, ◌⊎◌, Bool, true, false, none, some}
use buaa_os_25spring.Fork.{Family, has_cow}
use buaa_os_25spring.Fork.Moves.{may_share, proper, Moves}

-- Page `v`, in the family `f0` at the call of `fork` and later.
module _ (v : ℕ) (f0 : Family) where
  -- The page that the parent had at `v`, or a copy of it that the parent made since.
  abbrev pub Stems : ℕ → Type 0
  Stems page = (e : ℕ × ℕ) × (f0.parent v ≡ some e) × ((page ≡ e.0) ⊎ (f0.fresh ≤ page))

  -- Before `duppage` comes to the page.
  pub data Waiting (f : Family) : Type 0 where
    unmapped : f0.parent v ≡ none → f.parent v ≡ none → f.child v ≡ none → Waiting f
    mapped :
        (e : ℕ × ℕ)
        → f.parent v ≡ some e
        → f.child v ≡ none
        → e.0 < f.fresh
        → f0.fresh ≤ f.fresh
        → proper e.1 ≡ true
        → Stems e.0
        → Waiting f

  -- Between the two system calls for a writable page.
  data Halfway (perm' : ℕ) (f : Family) : Type 0 where
    halfway :
        (page perm : ℕ)
        → f.parent v ≡ some (page, perm)
        → f.child v ≡ some (page, perm')
        → has_cow perm ≡ false
        → page < f.fresh
        → Stems page
        → Halfway perm' f

  -- Once `duppage` has been there: the child has nothing, as the parent had nothing or the kernel did
  -- not grant the mapping; or it has the parent's page. Unless this is of PTE_LIBRARY it is not
  -- writable, and the parent has it in the same way or has another page by now.
  pub data Given (granted : Bool) (f : Family) : Type 0 where
    absent : f0.parent v ≡ none → f.parent v ≡ none → f.child v ≡ none → Given granted f
    refused : granted ≡ false → f.child v ≡ none → Given granted f
    shared :
        (e : ℕ × ℕ)
        → f.child v ≡ some e
        → f.parent v ≡ some e
        → e.0 < f.fresh
        → may_share e.1 ≡ true
        → Stems e.0
        → Given granted f
    split :
        (e q : ℕ × ℕ)
        → f.child v ≡ some e
        → f.parent v ≡ some q
        → e.0 ≢ q.0
        → e.0 < f.fresh
        → may_share e.1 ≡ true
        → Stems e.0
        → Given granted f
