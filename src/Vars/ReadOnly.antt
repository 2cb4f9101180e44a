-- ===== src/Vars/ReadOnly.antt =====
-- What shells do to the table of variables, one call after the other: a read-only variable stays.
use buaa_os_25spring.Prelude.{
  ℕ, zero, suc, ◌+◌, ◌<◌, ◌≡◌, ◌≢◌, refl, sym, ◌∙◌, true, false, ◌&&◌, arith, leb, ==_ne,
  Bool-cases, inl, inr, Option, none, some, List, [], ◌∷◌,
}
use buaa_os_25spring.Exec.{Run, ok, fail, panic, and_then}
use buaa_os_25spring.Vars.{
  EnvVar, VarTable, VarCmd, flag, find_var, check_var, create_after, set_var, append_var,
  declare_at, unset_at, sys_declare_shell_var, sys_unset_shell_var, extend_from, extend_share_vars,
  shellid_alloc, fits, max_var_num,
}

-- What a shell may ask for, and the change of the running environment to one of the shell `r`.
pub data Request : Type 0 where
  declare : List ℕ → List ℕ → ℕ → ℕ → Request
  unset : List ℕ → Request
  extend new_shell : Request
  run_shell : ℕ → Request

unfoldable pub serve : Request → VarCmd (Unit {0})
serve (declare name value share rdonly) t = sys_declare_shell_var name value share rdonly t
serve (unset name) t = sys_unset_shell_var name t
serve extend t = extend_share_vars t
serve new_shell t = shellid_alloc t
serve (run_shell r) t = ok tt (record t { shellid = r })

-- A call that fails leaves the table as it leaves it; a panic is the end.
abbrev pub table_of : Run VarTable (Unit {0}) → Option VarTable
table_of (ok a t) = some t
table_of (fail e t) = some t
table_of panic = none

abbrev pub then_table : Option VarTable → (VarTable → Option VarTable) → Option VarTable
then_table none f = none
then_table (some t) f = f t

pub serve_all : List Request → VarTable → Option VarTable
serve_all [] t = some t
serve_all (q ∷ rest) t = then_table (table_of (serve q t)) (serve_all rest)

-- Variable `j` is in the table and as it was.
abbrev pub Kept : ℕ → EnvVar → VarTable → Type 0
Kept j v t = (j < t.varnum) × (t.envvars j ≡ v)

abbrev pub KeptBy : ℕ → EnvVar → Option VarTable → Type 0
KeptBy j v none = Unit {0}
KeptBy j v (some t) = Kept j v t

-- Writing another slot keeps it.
set_var-keeps : (j i : ℕ) (v w : EnvVar) (f : ℕ → EnvVar) → f j ≡ v → j ≢ i → set_var f i w j ≡ v
set_var-keeps j i v w f h ne = rw (==_ne j i ne) h

append_var-Kept : (j : ℕ) (v w : EnvVar) (t : VarTable) → Kept j v t → Kept j v (append_var w t)
append_var-Kept j v w t (lt, h) =
    (omega (arith, lt), set_var-keeps j t.varnum v _ t.envvars h (λ q. omega (arith, lt, q)))

not_read_only :
    (j i : ℕ) (v : EnvVar) (t : VarTable)
    → t.envvars j ≡ v
    → flag v.read_only ≡ true
    → flag (t.envvars i).read_only ≡ false
    → j ≢ i
not_read_only j i v t h ro e q = true≢false (sym ro ∙ rw (← h, q) e)
  where
    true≢false : true ≢ false
    true≢false q = cc

module _ (j : ℕ) (v : EnvVar) (ro : flag v.read_only ≡ true) where
  declare_at-Kept :
      (i share rdonly : ℕ) (name value : List ℕ) (t : VarTable)
      → Kept j v t
      → KeptBy j v (table_of (declare_at (some i) name value share rdonly t))
  declare_at-Kept i share rdonly name value t k = elim (Bool-cases (leb max_var_num i)) [
    | inl e ↦ rw e tt
    | inr e ↦ elim (Bool-cases (flag (t.envvars i).read_only)) [
      | inl r ↦ rw (e, r) k
      | inr r ↦ elim (Bool-cases (fits name && fits value)) [
        | inl f ↦
            rw (e, r, f) (k.0, set_var-keeps j i v _ t.envvars k.1 (not_read_only j i v t k.1 ro r))
        | inr f ↦ rw (e, r, f) tt
      ]
    ]
  ]

  declare-Kept :
      (share rdonly : ℕ) (name value : List ℕ) (t : VarTable) (o : Option ℕ)
      → Kept j v t
      → KeptBy j v
          (table_of (and_then (create_after true o t) (λ i. declare_at i name value share rdonly)))
  declare-Kept share rdonly name value t none k =
      declare_at-Kept t.varnum share rdonly name value (record t { varnum = t.varnum + 1 })
        (omega (arith, k.0), k.1)
  declare-Kept share rdonly name value t (some i) k = declare_at-Kept i share rdonly name value t k

  unset_at-Kept : (o : Option ℕ) (t : VarTable) → Kept j v t → KeptBy j v (table_of (unset_at o t))
  unset_at-Kept none t k = k
  unset_at-Kept (some i) t k = elim (Bool-cases (flag (t.envvars i).read_only)) [
    | inl r ↦ rw r k
    | inr r ↦ rw r (k.0, set_var-keeps j i v _ t.envvars k.1 (not_read_only j i v t k.1 ro r))
  ]

  extend_from-Kept :
      (n i : ℕ) (t : VarTable) → Kept j v t → KeptBy j v (table_of (extend_from n i t))
  extend_from-Kept zero i t k = k
  extend_from-Kept (suc n) i t k =
      elim (Bool-cases (flag (t.envvars i).valid && flag (t.envvars i).share)) [
        | inr e ↦ rw e (extend_from-Kept n (i + 1) t k)
        | inl e ↦ elim (Bool-cases (leb max_var_num t.varnum)) [
          | inl full ↦ rw (e, full) tt
          | inr room ↦
              rw (e, room)
                (extend_from-Kept n (i + 1) (append_var (t.envvars i) t)
                  (append_var-Kept j v (t.envvars i) t k))
        ]
      ]

  serve-Kept : (q : Request) (t : VarTable) → Kept j v t → KeptBy j v (table_of (serve q t))
  unfolding serve sys_declare_shell_var check_var sys_unset_shell_var extend_share_vars
      shellid_alloc
  serve-Kept (declare name value share rdonly) t k =
      declare-Kept share rdonly name value t (find_var name t) k
  serve-Kept (unset name) t k = unset_at-Kept (find_var name t) t k
  serve-Kept extend t k = extend_from-Kept t.varnum 0 t k
  serve-Kept new_shell t k = k
  serve-Kept (run_shell r) t k = k

  serve_all-Kept : (rs : List Request) (t : VarTable) → Kept j v t → KeptBy j v (serve_all rs t)
  unfolding serve_all
  serve_all-Kept [] t k = k
  serve_all-Kept (q ∷ rest) t k =
      by_table (table_of (serve q t)) (serve-Kept q t k) (serve_all-Kept rest)
    where
      by_table :
          (o : Option VarTable)
          → KeptBy j v o
          → ((s : VarTable) → Kept j v s → KeptBy j v (serve_all rest s))
          → KeptBy j v (then_table o (serve_all rest))
      by_table none h ih = tt
      by_table (some s) h ih = ih s h

-- Whatever the shells declare, unset and share, one call after the other, and whichever of them
-- runs: a read-only variable of the table keeps its slot, its name, its value, its shell and its
-- marks, unless a call panics.
pub read_only_kept :
    (j : ℕ) (rs : List Request) (t : VarTable)
    → j < t.varnum
    → flag (t.envvars j).read_only ≡ true
    → KeptBy j (t.envvars j) (serve_all rs t)
read_only_kept j rs t small ro = serve_all-Kept j (t.envvars j) ro rs t (small, refl)
