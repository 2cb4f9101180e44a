-- ===== src/Vars/Tests.antt =====
-- The theorems on shell variables at a small table: shell 2 has the read-only variable "a".
use buaa_os_25spring.Prelude.{
  ℕ, ◌≤◌, ◌≡◌, refl, false, some, List, [], ◌∷◌, ◌==◌, if◌then◌else◌, arith,
}
use buaa_os_25spring.Exec.{ok}
use buaa_os_25spring.Vars.{EnvVar, VarTable, flag, sys_declare_shell_var, find_var, max_var_num}
use buaa_os_25spring.Vars.Declare.{Declared, get_value-declare}
use buaa_os_25spring.Vars.ReadOnly.{
  Request, declare, unset, extend, new_shell, serve_all, KeptBy, read_only_kept,
}

abbrev unused : EnvVar
unused = record { name = []; value = []; shell_id = 0; read_only = 0; valid = 0; share = 0 }

abbrev constant : EnvVar
constant = record {
  name = 97 ∷ [];
  value = 49 ∷ [];
  shell_id = 2;
  read_only = 1;
  valid = 1;
  share = 1;
}

abbrev one_var : VarTable
one_var = record {
  envvars = λ i. if i == 0 then constant else unused;
  varnum = 1;
  sid = 2;
  shellid = 2;
}

none_found :
    (i : ℕ) → find_var (98 ∷ []) one_var ≡ some i → flag (one_var.envvars i).read_only ≡ false
unfolding find_var
none_found i h = cc

-- Room for one more variable, of a name that no read-only variable has.
get_value-declare_example :
    (t' : VarTable) × (sys_declare_shell_var (98 ∷ []) (50 ∷ []) 0 0 one_var ≡ ok tt t')
    × Declared (98 ∷ []) (50 ∷ []) one_var t'
    × (t'.varnum ≤ max_var_num)
get_value-declare_example =
    get_value-declare (98 ∷ []) (50 ∷ []) 0 0 one_var refl (omega arith) refl none_found

-- The read-only variable stays, whatever a shell tries.
abbrev attempts : List Request
attempts = declare (97 ∷ []) (50 ∷ []) 0 0 ∷ unset (97 ∷ []) ∷ new_shell ∷ extend ∷ []

read_only_kept_example : KeptBy 0 constant (serve_all attempts one_var)
read_only_kept_example = read_only_kept 0 attempts one_var (omega arith) refl
