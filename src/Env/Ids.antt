-- ===== src/Env/Ids.antt =====
-- asid_alloc, asid_free, mkenvid and envid2env of kern/env.c.
pub mod Asid
pub mod Lookup
pub mod Unique
use buaa_os_25spring.Prelude.{
  ℕ, zero, suc, ◌+◌, ◌-◌, ◌*◌, ◌/◌, ◌%◌, ◌^◌, Bool, true, false, not, ◌&&◌, ◌||◌, Option, none,
  some, List, ◌==◌, if◌then◌else◌, bit_and, bit_or, get_or, set,
}
use buaa_os_25spring.Exec.{
  ok, fail, panic, e_bad_env, e_no_free_env, pure, throw, get, ◌>>=◌, ◌>>◌, modify,
}
use buaa_os_25spring.Env.State.{Kern, KCmd, Env, Status, is_free, nenv, current_of}

abbrev pub nasid : ℕ
nasid = 256

-- `asid_bitmap[i >> 5] & (1 << (i & 31))`, as a condition.
unfoldable pub asid_taken : List ℕ → ℕ → Bool
asid_taken bitmap i = not (bit_and (get_or bitmap (i / 32) 0) (2 ^ (i % 32)) == 0)

-- The loop of `asid_alloc` with `n` rounds left, at `i`.
unfoldable pub asid_loop : ℕ → ℕ → List ℕ → Option (ℕ × List ℕ)
asid_loop zero i bitmap = none
asid_loop (suc n) i bitmap = elim (asid_taken bitmap i) [
  | true ↦ asid_loop n (i + 1) bitmap
  | false ↦ some (i, set bitmap (i / 32) (bit_or (get_or bitmap (i / 32) 0) (2 ^ (i % 32))))
]

unfoldable pub asid_alloc : KCmd ℕ
asid_alloc k = elim (asid_loop nasid 0 k.asid_bitmap) [
  | none ↦ fail e_no_free_env k
  | some (i, bitmap) ↦ ok i (record k { asid_bitmap = bitmap })
]

-- `asid_bitmap[index] &= ~(1 << inner)` on a 32-bit word.
unfoldable pub asid_free : ℕ → KCmd (Unit {0})
asid_free i k = ok tt (record k {
  asid_bitmap =
      set k.asid_bitmap (i / 32)
        (bit_and (get_or k.asid_bitmap (i / 32) 0) (2 ^ 32 - 1 - 2 ^ (i % 32)));
})

-- `((++i) << (1 + LOG2NENV)) | (e - envs)`
unfoldable pub mkenvid : ℕ → KCmd ℕ
mkenvid e k =
    let i = (k.next_id + 1) % 2 ^ 32 in
    ok (bit_or (i * 2 ^ 11 % 2 ^ 32) e) (record k { next_id = i })

-- `ENVX(envid)`
unfoldable pub envx : ℕ → ℕ
envx envid = envid % nenv

-- The caller may act on `e`: it is the caller itself, or its child.
abbrev pub permitted : Env → Env → Bool
permitted cur e = cur.env_id == e.env_id || cur.env_id == e.env_parent_id

-- `curenv->env_id != e->env_id && curenv->env_id != e->env_parent_id`
abbrev pub check_permission : Option ℕ → ℕ → KCmd ℕ
check_permission none e k = panic
check_permission (some cur) e k =
    if permitted (k.envs cur) (k.envs e) then ok e k else fail e_bad_env k

-- `envid2env` for the given `curenv`.
abbrev pub envid2env_for : Option ℕ → ℕ → Bool → KCmd ℕ
envid2env_for o envid checkperm k =
    if envid == 0
    then current_of o k
    else let e = envx envid in
      if is_free (k.envs e).env_status || not ((k.envs e).env_id == envid)
      then fail e_bad_env k
      else if checkperm
      then check_permission o e k
      else ok e k

unfoldable pub envid2env : ℕ → Bool → KCmd ℕ
envid2env envid checkperm k = envid2env_for k.curenv envid checkperm k
