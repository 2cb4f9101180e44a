-- ===== src/Vars.antt =====
-- The shell variables of kern/env.c and their system calls in kern/syscall_all.c. A name or a value
-- is the list of its bytes. The C code checks neither the length of a name or a value nor `varnum`: a
-- call that reads or writes behind an array has no result in C, and is `panic` here.
pub mod Find
pub mod Declare
mod ReadOnly
mod Tests
use buaa_os_25spring.Prelude.{
  ℕ, zero, suc, ◌+◌, Bool, true, false, not, ◌&&◌, Option, none, some, List, [], ◌∷◌, ◌++◌, ◌==◌,
  if◌then◌else◌, ltb, leb, length,
}
use buaa_os_25spring.Exec.{ok, fail, panic, pure, Cmd, env_var_err, ◌>>=◌, ◌>>◌}
use buaa_os_25spring.Str.Text.{compare_text, is_equal}

-- `struct EnvVar`
pub record EnvVar : Type 0 where
  pub name : List ℕ
  pub value : List ℕ
  pub shell_id : ℕ
  pub read_only : ℕ
  pub valid : ℕ
  pub share : ℕ

-- `envvars`, `varnum` and `sid`; `shellid` is that of `curenv`.
pub record VarTable : Type 0 where
  pub envvars : ℕ → EnvVar
  pub varnum : ℕ
  pub sid : ℕ
  pub shellid : ℕ

abbrev pub VarCmd : Type 0 → Type 0
VarCmd = Cmd VarTable

-- An `int` as a condition.
abbrev pub flag : ℕ → Bool
flag n = not (n == 0)

-- `envvars[i].valid && strcmp(envvars[i].name, name) == 0 && is_allow(i)`
abbrev pub matches : List ℕ → ℕ → EnvVar → Bool
matches name shellid v =
    flag v.valid && is_equal (compare_text v.name name) && v.shell_id == shellid

-- The first of the `n` numbers from `i` on that passes the test.
abbrev pub find_first : ℕ → ℕ → (ℕ → Bool) → Option ℕ
find_first zero i p = none
find_first (suc n) i p = let rest = find_first n (i + 1) p in if p i then some i else rest

-- `check_var(name, 0)`
unfoldable pub find_var : List ℕ → VarTable → Option ℕ
find_var name t = find_first t.varnum 0 (λ i. matches name t.shellid (t.envvars i))

abbrev pub create_after : Bool → Option ℕ → VarCmd (Option ℕ)
create_after create (some i) t = ok (some i) t
create_after true none t = ok (some t.varnum) (record t { varnum = t.varnum + 1 })
create_after false none t = ok none t

-- `none` stands for -1.
unfoldable pub check_var : List ℕ → Bool → VarCmd (Option ℕ)
unfolding find_var
check_var name create t = create_after create (find_var name t) t

abbrev pub set_var : (ℕ → EnvVar) → ℕ → EnvVar → ℕ → EnvVar
set_var f i v j = if j == i then v else f j

abbrev pub store_var : ℕ → EnvVar → VarTable → VarTable
store_var i v t = record t { envvars = set_var t.envvars i v }

-- `MAX_VAR_LEN` and `MAX_VAR_NUM`
abbrev pub max_var_len : ℕ
max_var_len = 17

abbrev pub max_var_num : ℕ
max_var_num = 256

-- A text and its end are no longer than a field of `struct EnvVar`.
abbrev pub fits : List ℕ → Bool
fits text = ltb (length text) max_var_len

-- `sys_declare_shell_var` once the index is known.
abbrev pub declare_at : Option ℕ → List ℕ → List ℕ → ℕ → ℕ → VarCmd (Unit {0})
declare_at none name value share rdonly t = fail env_var_err t
declare_at (some i) name value share rdonly t =
    if leb max_var_num i
    then panic
    else if flag (t.envvars i).read_only
    then fail env_var_err t
    else if not (fits name && fits value)
    then panic
    else ok tt (
        store_var i
          (record {
            name = name;
            value = value;
            shell_id = t.shellid;
            read_only = rdonly;
            valid = 1;
            share = share;
          })
          t)

unfoldable pub sys_declare_shell_var : List ℕ → List ℕ → ℕ → ℕ → VarCmd (Unit {0})
unfolding check_var
sys_declare_shell_var name value share rdonly = do
  index ← check_var name true
  declare_at index name value share rdonly

abbrev pub unset_at : Option ℕ → VarCmd (Unit {0})
unset_at none t = fail env_var_err t
unset_at (some i) t =
    if flag (t.envvars i).read_only
    then fail env_var_err t
    else ok tt (store_var i (let v = t.envvars i in record v { valid = 0 }) t)

unfoldable pub sys_unset_shell_var : List ℕ → VarCmd (Unit {0})
unfolding find_var
sys_unset_shell_var name t = unset_at (find_var name t) t

abbrev pub value_at : Option ℕ → VarCmd (List ℕ)
value_at none t = fail env_var_err t
value_at (some i) t = ok (t.envvars i).value t

unfoldable pub get_value : List ℕ → VarCmd (List ℕ)
unfolding find_var
get_value name t = value_at (find_var name t) t

-- The loop of `get_all_values`: the count and the text, a line `name=value` for each variable.
abbrev pub all_from : ℕ → ℕ → VarTable → ℕ × List ℕ
all_from zero i t = (0, [])
all_from (suc n) i t =
    let rest = all_from n (i + 1) t in
    let v = t.envvars i in
    if flag v.valid && v.shell_id == t.shellid
    then (rest.0 + 1, v.name ++ (61 ∷ []) ++ v.value ++ (10 ∷ []) ++ rest.1)
    else rest

unfoldable pub get_all_values : VarCmd (ℕ × List ℕ)
get_all_values t = ok (all_from t.varnum 0 t) t

-- The variable `v` is copied to the end of the table, for the shell of `curenv`.
abbrev pub append_var : EnvVar → VarTable → VarTable
append_var v t = record t {
  envvars = set_var t.envvars t.varnum (record v { shell_id = t.shellid });
  varnum = t.varnum + 1;
}

-- The body of the loop of `extend_share_vars`: a shared variable is copied.
abbrev pub extend_step : ℕ → VarCmd (Unit {0})
extend_step i t =
    if flag (t.envvars i).valid && flag (t.envvars i).share
    then (if leb max_var_num t.varnum then panic else ok tt (append_var (t.envvars i) t))
    else ok tt t

-- The `n` variables from `i` on.
abbrev pub extend_from : ℕ → ℕ → VarCmd (Unit {0})
extend_from zero i = pure tt
extend_from (suc n) i = extend_step i >> extend_from n (i + 1)

unfoldable pub extend_share_vars : VarCmd (Unit {0})
extend_share_vars t = extend_from t.varnum 0 t

-- `sys_shellid_alloc`
unfoldable pub shellid_alloc : VarCmd (Unit {0})
shellid_alloc t = ok tt (record t { sid = t.sid + 1; shellid = t.sid + 1 })
