-- ===== src/Exec.antt =====
pub mod Ends
-- Commands over a state. A function that returns a negative error code ends in `fail` with the
-- state that it leaves, and `panic` halts the machine. `try(e)` of include/error.h is a bind.
use buaa_os_25spring.Prelude.{Bool, true, false}

-- The error codes of include/error.h that the modelled code returns.
pub data Error : Type 0 where
  e_unspecified e_bad_env e_inval e_no_mem e_no_sys e_no_free_env e_ipc_not_recv : Error
  e_no_disk e_max_open e_not_found e_bad_path e_file_exists env_var_err : Error

pub data Run (S A : Type 0) : Type 0 where
  ok : A → S → Run S A
  fail : Error → S → Run S A
  panic : Run S A

abbrev pub Cmd : Type 0 → Type 0 → Type 0
Cmd S A = S → Run S A

abbrev pub pure : {S A : Type 0} → A → Cmd S A
pure = ok

abbrev pub throw : {S A : Type 0} → Error → Cmd S A
throw = fail

-- The current state, and a change of it.
abbrev pub get : {S : Type 0} → Cmd S S
get s = ok s s

abbrev pub modify : {S : Type 0} → (S → S) → Cmd S (Unit {0})
modify f s = ok tt (f s)

abbrev pub halt : {S A : Type 0} → Cmd S A
halt s = panic

abbrev pub and_then : {S A B : Type 0} → Run S A → (A → Cmd S B) → Run S B
and_then (ok a s) f = f a s
and_then (fail e s) f = fail e s
and_then panic f = panic

infixl 5 ◌>>=◌ ◌>>◌
abbrev pub ◌>>=◌ : {S A B : Type 0} → Cmd S A → (A → Cmd S B) → Cmd S B
◌>>=◌ m f s = and_then (m s) f

abbrev pub ◌>>◌ : {S B : Type 0} → Cmd S (Unit {0}) → Cmd S B → Cmd S B
m >> k = m >>= λ _. k

-- `assert(x)` and `panic_on(!x)`.
abbrev pub assert : {S : Type 0} → Bool → Cmd S (Unit {0})
assert true s = ok tt s
assert false s = panic

abbrev pub guard : {S : Type 0} → Bool → Error → Cmd S (Unit {0})
guard true e s = ok tt s
guard false e s = fail e s
