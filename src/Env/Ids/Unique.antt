-- ===== src/Env/Ids/Unique.antt =====
-- mkenvid of kern/env.c: the identifiers it makes lead back to their environment and differ.
use buaa_os_25spring.Prelude.{ℕ, ◌+◌, ◌*◌, ◌/◌, ◌%◌, ◌^◌, ◌<◌, ◌≡◌, ◌≢◌, ap, ◌∙◌, arith, bit_or}
use buaa_os_25spring.Prelude.Bits.{bit_or-add}
use buaa_os_25spring.Exec.{ok}
use buaa_os_25spring.Env.State.{Kern, nenv}
use buaa_os_25spring.Env.Ids.{mkenvid, envx}

abbrev id_of : ℕ → ℕ → ℕ
id_of i e = i * 2 ^ 11 + e

mkenvid-sum :
    (k : Kern) (e : ℕ)
    → e < nenv
    → k.next_id + 1 < 2 ^ 21
    → mkenvid e k ≡ ok (id_of (k.next_id + 1) e) (record k { next_id = k.next_id + 1 })
unfolding mkenvid
mkenvid-sum k e he small =
    ap (λ i. ok (bit_or (i * 2 ^ 11 % 2 ^ 32) e) (record k { next_id = i })) counter
    ∙ ap (λ v. ok v (record k { next_id = k.next_id + 1 })) value
  where
    counter : (k.next_id + 1) % 2 ^ 32 ≡ k.next_id + 1
    counter = omega arith

    value : bit_or ((k.next_id + 1) * 2 ^ 11 % 2 ^ 32) e ≡ id_of (k.next_id + 1) e
    value = ap (λ t. bit_or t e) (omega arith) ∙ bit_or-add 11 (k.next_id + 1) e (omega arith)

-- As long as fewer than `2 ^ 21 - 1` identifiers have been made, a new one is nonzero, leads back
-- to its environment by ENVX, and is larger than every one made before for any environment.
pub mkenvid_lem :
    (k : Kern) (e : ℕ)
    → e < nenv
    → k.next_id + 1 < 2 ^ 21
    → (id : ℕ) × (mkenvid e k ≡ ok id (record k { next_id = k.next_id + 1 }))
      × (id ≢ 0)
      × (envx id ≡ e)
      × (id < 2 ^ 32)
      × (id / 2 ^ 11 ≡ k.next_id + 1)
unfolding envx
mkenvid_lem k e he small = (
  id_of (k.next_id + 1) e,
  mkenvid-sum k e he small,
  omega arith,
  omega arith,
  omega arith,
  omega arith,
)
