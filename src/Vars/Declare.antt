-- ===== src/Vars/Declare.antt =====
-- sys_declare_shell_var and get_value: a variable has the value that was declared last.
use mathlib.Core.Path.{subst}
use buaa_os_25spring.Prelude.{
  ℕ, suc, ◌+◌, ◌<◌, ◌≤◌, leb, ◌≡◌, ◌≢◌, ◌⊎◌, inl, inr, refl, sym, ap, ◌∙◌, Bool, true, false, ◌&&◌,
  arith, ◌==◌, ==_self, ==_ne, ==_iff, ℕ_discrete, Bool-cases, Option, none, some, List,
}
use buaa_os_25spring.Exec.{Run, ok, and_then}
use buaa_os_25spring.Str.Text.{compare_text, is_equal, compare_text_refl, compare_text_eq}
use buaa_os_25spring.Vars.{
  EnvVar, VarTable, flag, matches, find_first, find_var, check_var, create_after, set_var,
  store_var, declare_at, sys_declare_shell_var, value_at, get_value, fits, max_var_num,
}
use buaa_os_25spring.Vars.Find.{
  First, find_first-First, find_first-some, find_first-same, find_first-more,
}

-- The value that the shell `r` reads for a name, if there is one.
abbrev pub value_of : Option ℕ → VarTable → Option (List ℕ)
value_of none t = none
value_of (some i) t = some (t.envvars i).value

abbrev pub in_shell : ℕ → VarTable → VarTable
in_shell r t = record t { shellid = r }

abbrev pub visible : List ℕ → ℕ → VarTable → Option (List ℕ)
visible name r t = value_of (find_var name (in_shell r t)) t

and_parts : (a b c : Bool) → (a && b && c) ≡ true → (b ≡ true) × (c ≡ true)
and_parts a b c h = ground arith

matches-names :
    (name : List ℕ) (r : ℕ) (v : EnvVar)
    → matches name r v ≡ true
    → (v.name ≡ name) × (v.shell_id ≡ r)
matches-names name r v h =
    let (b, c) =
      and_parts (flag v.valid) (is_equal (compare_text v.name name)) (v.shell_id == r) h in
    (compare_text_eq v.name name b, (==_iff v.shell_id r).0 c)

-- A variable that matches one name in one shell matches no other.
matches-other :
    (a b : List ℕ) (r s : ℕ) (v : EnvVar)
    → matches a r v ≡ true
    → (b ≢ a) ⊎ (s ≢ r)
    → matches b s v ≡ false
matches-other a b r s v h other = elim (Bool-cases (matches b s v)) [
  | inr e ↦ e
  | inl e ↦
      let (n, i) = matches-names a r v h in
      let (n', i') = matches-names b s v e in
      elim other [ inl ne ↦ absurd (ne (sym n' ∙ n)) | inr ne ↦ absurd (ne (sym i' ∙ i)) ]
]

abbrev declared : List ℕ → List ℕ → ℕ → ℕ → ℕ → EnvVar
declared name value share rdonly r = record {
  name = name;
  value = value;
  shell_id = r;
  read_only = rdonly;
  valid = 1;
  share = share;
}

matches-declared :
    (name value : List ℕ) (share rdonly r : ℕ)
    → matches name r (declared name value share rdonly r) ≡ true
matches-declared name value share rdonly r = rw (compare_text_refl name, ==_self r) refl

abbrev test_of : List ℕ → ℕ → (ℕ → EnvVar) → ℕ → Bool
test_of name r f i = matches name r (f i)

value_kept :
    (i : ℕ) (v : EnvVar) (t : VarTable) (o : Option ℕ)
    → ((j : ℕ) → o ≡ some j → j ≢ i)
    → value_of o (store_var i v t) ≡ value_of o t
value_kept i v t none h = refl
value_kept i v t (some j) h = rw (==_ne j i (h j refl)) refl

value_grown :
    (n : ℕ) (t : VarTable) (o : Option ℕ) → value_of o (record t { varnum = n }) ≡ value_of o t
value_grown n t none = refl
value_grown n t (some j) = refl

-- A table `f` of `n` variables, with the declared variable `v` written at `i`.
module _ (f : ℕ → EnvVar) (i : ℕ) (a : List ℕ) (r : ℕ) (v : EnvVar)
    (new : matches a r v ≡ true) where
  test_self : (b : List ℕ) (s : ℕ) → test_of b s (set_var f i v) i ≡ matches b s v
  test_self b s = rw (==_self i) refl

  test-elsewhere : (b : List ℕ) (s j : ℕ) → j ≢ i → test_of b s (set_var f i v) j ≡ test_of b s f j
  test-elsewhere b s j ne = rw (==_ne j i ne) refl

  finds_declared :
      (n : ℕ)
      → i < n
      → ((l : ℕ) → l < i → test_of a r f l ≡ false)
      → find_first n 0 (test_of a r (set_var f i v)) ≡ some i
  finds_declared n hi before = find_first-some n 0 i (test_of a r (set_var f i v)) (
    omega arith,
    omega arith,
    test_self a r ∙ new,
    λ l lo hl. test-elsewhere a r l (omega arith) ∙ before l hl,
  )

  finds_others :
      (n : ℕ) (b : List ℕ) (s : ℕ)
      → (b ≢ a) ⊎ (s ≢ r)
      → matches b s (f i) ≡ false
      → find_first n 0 (test_of b s (set_var f i v)) ≡ find_first n 0 (test_of b s f)
  finds_others n b s other old =
      find_first-same n 0 (test_of b s (set_var f i v)) (test_of b s f) (λ j lo hi.
        elim (ℕ_discrete j i) [
          | yes q ↦ rw (q, ==_self i) (matches-other a b r s v new other ∙ sym old)
          | no ne ↦ test-elsewhere b s j ne
        ])

  finds_before :
      (b : List ℕ) (s : ℕ)
      → (b ≢ a) ⊎ (s ≢ r)
      → find_first (i + 1) 0 (test_of b s (set_var f i v)) ≡ find_first i 0 (test_of b s f)
  finds_before b s other =
      ap (λ n. find_first n 0 (test_of b s (set_var f i v))) one_more
      ∙ find_first-more i 0 (test_of b s (set_var f i v)) (
          ap (test_of b s (set_var f i v)) (omega arith)
          ∙ test_self b s
          ∙ matches-other a b r s v new other)
      ∙ find_first-same i 0 (test_of b s (set_var f i v)) (test_of b s f)
          (λ j lo hi. test-elsewhere b s j (omega arith))
    where
      one_more : i + 1 ≡ suc i
      one_more = omega arith

first_below : (n : ℕ) (p : ℕ → Bool) (j : ℕ) → find_first n 0 p ≡ some j → (j < n) × (p j ≡ true)
first_below n p j h =
    let (lo, hi, found, before) = subst (First n 0 p) h (find_first-First n 0 p) in
    (omega arith, found)

-- What a declaration promises.
abbrev pub Declared : List ℕ → List ℕ → VarTable → VarTable → Type 0
Declared name value t t' =
    (get_value name t' ≡ ok value t')
    × ((b : List ℕ) (s : ℕ) → (b ≢ name) ⊎ (s ≢ t.shellid) → visible b s t' ≡ visible b s t)

lt→not_leb : (a b : ℕ) → a < b → leb b a ≡ false
lt→not_leb a b h = ground arith

module _ (name value : List ℕ) (share rdonly : ℕ) (t : VarTable) where
  new_var : EnvVar
  new_var = declared name value share rdonly t.shellid

  new_matches : matches name t.shellid new_var ≡ true
  unfolding new_var
  new_matches = matches-declared name value share rdonly t.shellid

  replaced :
      (i : ℕ)
      → First t.varnum 0 (test_of name t.shellid t.envvars) (some i)
      → Declared name value t (store_var i new_var t)
  unfolding find_var get_value new_var
  replaced i (lo, hi, found, before) = (
    ap (λ o. value_at o (store_var i new_var t))
          (finds_declared t.envvars i name t.shellid new_var new_matches t.varnum (omega arith)
            (λ l h. before l (omega arith) h))
        ∙ rw (==_self i) refl,
    λ b s other.
        let old : matches b s (t.envvars i) ≡ false =
          matches-other name b t.shellid s (t.envvars i) found other in
        ap (λ o. value_of o (store_var i new_var t))
          (finds_others t.envvars i name t.shellid new_var new_matches t.varnum b s other old)
        ∙ value_kept i new_var t (find_first t.varnum 0 (test_of b s t.envvars)) (λ j h q.
          let (below, is_true) = first_below t.varnum (test_of b s t.envvars) j h in
          absurd (true≢false (sym is_true ∙ ap (test_of b s t.envvars) q ∙ old))),
  )
    where
      true≢false : true ≢ false
      true≢false q = cc

  abbrev grown : VarTable
  grown = record t { varnum = t.varnum + 1 }

  added :
      First t.varnum 0 (test_of name t.shellid t.envvars) none
      → Declared name value t (store_var t.varnum new_var grown)
  unfolding find_var get_value new_var
  added before = (
    ap (λ o. value_at o (store_var t.varnum new_var grown))
          (finds_declared t.envvars t.varnum name t.shellid new_var new_matches (t.varnum + 1)
            (omega arith) (λ l h. before l (omega arith) (omega arith)))
        ∙ rw (==_self t.varnum) refl,
    λ b s other.
        ap (λ o. value_of o (store_var t.varnum new_var grown))
          (finds_before t.envvars t.varnum name t.shellid new_var new_matches b s other)
        ∙ value_kept t.varnum new_var grown (find_first t.varnum 0 (test_of b s t.envvars))
            (λ j h q.
              let (below, is_true) = first_below t.varnum (test_of b s t.envvars) j h in
              omega (arith, q))
        ∙ value_grown (t.varnum + 1) t (find_first t.varnum 0 (test_of b s t.envvars)),
  )

  -- What a declaration comes to at the index that was found.
  abbrev Ended : Run VarTable (Unit {0}) → Type 0
  Ended r = (t' : VarTable) × (r ≡ ok tt t') × Declared name value t t' × (t'.varnum ≤ max_var_num)

  by_index :
      (o : Option ℕ)
      → (fits name && fits value) ≡ true
      → t.varnum < max_var_num
      → flag (t.envvars t.varnum).read_only ≡ false
      → ((i : ℕ) → o ≡ some i → flag (t.envvars i).read_only ≡ false)
      → First t.varnum 0 (test_of name t.shellid t.envvars) o
      → Ended (and_then (create_after true o t) (λ i. declare_at i name value share rdonly))
  unfolding new_var
  by_index none short room free writable h = (
    store_var t.varnum new_var grown,
    rw (lt→not_leb t.varnum max_var_num room, free, short) refl,
    added h,
    omega (arith, room),
  )
  by_index (some i) short room free writable h = (
    store_var i new_var t,
    rw (lt→not_leb i max_var_num (omega (arith, h.1, room)), writable i refl, short) refl,
    replaced i h,
    omega (arith, room),
  )

-- A declaration whose name and value are shorter than MAX_VAR_LEN, in a table of less than
-- MAX_VAR_NUM variables whose next slot is not read-only, of a name that is not read-only in this
-- shell, returns. The shell that made it then reads the declared value under the name, and every
-- other name of this shell, and every name of another shell, reads as before; the table has
-- MAX_VAR_NUM variables at most.
pub get_value-declare :
    (name value : List ℕ) (share rdonly : ℕ) (t : VarTable)
    → (fits name && fits value) ≡ true
    → t.varnum < max_var_num
    → flag (t.envvars t.varnum).read_only ≡ false
    → ((i : ℕ) → find_var name t ≡ some i → flag (t.envvars i).read_only ≡ false)
    → (t' : VarTable) × (sys_declare_shell_var name value share rdonly t ≡ ok tt t')
      × Declared name value t t'
      × (t'.varnum ≤ max_var_num)
unfolding sys_declare_shell_var check_var find_var
get_value-declare name value share rdonly t short room free writable =
    by_index name value share rdonly t (find_var name t) short room free writable
      (find_first-First t.varnum 0 (test_of name t.shellid t.envvars))
