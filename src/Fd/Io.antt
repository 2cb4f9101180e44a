-- ===== src/Fd/Io.antt =====
-- user/lib/fd.c: the operations on a descriptor. The functions of a device are those of its `struct
-- Dev`: they are arguments, as the code calls them through pointers.
use buaa_os_25spring.Prelude.{
  ℕ, zero, suc, ◌+◌, ◌-◌, ◌%◌, ◌^◌, List, [], ◌∷◌, ◌++◌, length, ◌==◌, if◌then◌else◌, bit_and,
}
use buaa_os_25spring.Exec.{Run, ok, fail, panic, pure, throw, halt, get, ◌>>=◌, ◌>>◌, e_inval}
use buaa_os_25spring.Fd.{
  Space, FdCmd, Dev, maxfd, fd_at, set_offset, dev_lookup, fd_lookup, fd_close,
}

-- `struct Stat`, the name as the list of its characters.
pub record Stat : Type 0 where
  pub st_name : List ℕ
  pub st_size : ℕ
  pub st_isdir : ℕ
  pub st_dev : Dev

-- `struct Dev`. Reading returns the bytes that are put in the buffer, writing the number of bytes that
-- are taken from it; both are given the descriptor, and the offset.
pub record Devices : Type 0 where
  pub dev_read : Dev → ℕ → ℕ → ℕ → FdCmd (List ℕ)
  pub dev_write : Dev → ℕ → List ℕ → ℕ → FdCmd ℕ
  pub dev_close : Dev → ℕ → FdCmd (Unit {0})
  pub dev_stat : Dev → ℕ → Stat → FdCmd Stat

-- `fd->fd_omode & O_ACCMODE`, where 0 is O_RDONLY and 1 is O_WRONLY.
abbrev pub access_mode : ℕ → Space → ℕ
access_mode fd s = bit_and (fd_at fd s).fd_omode 3

-- `fd->fd_offset += r` when `r` is positive.
abbrev pub advance : ℕ → ℕ → FdCmd (Unit {0})
advance fd r s =
    if r == 0 then ok tt s else ok tt (set_offset fd (((fd_at fd s).fd_offset + r) % 2 ^ 32) s)

-- Whatever `dev_close` returns, the descriptor is unmapped.
abbrev pub close_after : ℕ → Run Space (Unit {0}) → Run Space (Unit {0})
close_after fd (ok a s) = fd_close fd s
close_after fd (fail e s) = (do fd_close fd; throw e) s
close_after fd panic = panic

-- The result of `close` is not looked at.
abbrev pub ignore : Run Space (Unit {0}) → Run Space (Unit {0})
ignore (ok a s) = ok tt s
ignore (fail e s) = ok tt s
ignore panic = panic

module _ (dev : Devices) where
  unfoldable pub close : ℕ → FdCmd (Unit {0})
  unfolding fd_lookup dev_lookup fd_close
  close fdnum = do
    fd ← fd_lookup fdnum
    s ← get
    d ← dev_lookup (fd_at fd s).fd_dev_id
    λ t. close_after fd (dev.dev_close d fd t)

  unfoldable pub close_from : ℕ → ℕ → FdCmd (Unit {0})
  unfolding close
  close_from zero i = pure tt
  close_from (suc n) i = do λ s. ignore (close i s); close_from n (i + 1)

  unfoldable pub close_all : FdCmd (Unit {0})
  unfolding close_from
  close_all = close_from maxfd 0

  unfoldable pub read : ℕ → ℕ → FdCmd (List ℕ)
  unfolding fd_lookup dev_lookup
  read fdnum n = do
    fd ← fd_lookup fdnum
    s ← get
    d ← dev_lookup (fd_at fd s).fd_dev_id
    if access_mode fd s == 1
        then throw e_inval
        else (do bs ← dev.dev_read d fd n (fd_at fd s).fd_offset; advance fd (length bs); pure bs)

  -- The loop of `readn` with `n` bytes left to read, on fuel.
  unfoldable pub readn_from : ℕ → ℕ → ℕ → FdCmd (List ℕ)
  unfolding read
  readn_from fuel fdnum zero = pure []
  readn_from zero fdnum (suc n) = halt
  readn_from (suc fuel) fdnum (suc n) = do
    bs ← read fdnum (suc n)
    elim bs [
      | [] ↦ pure []
      | b ∷ more ↦ (do
        rest ← readn_from fuel fdnum (suc n - length (b ∷ more))
        pure ((b ∷ more) ++ rest))
    ]

  unfoldable pub readn : ℕ → ℕ → FdCmd (List ℕ)
  unfolding readn_from
  readn fdnum n = readn_from n fdnum n

  unfoldable pub write : ℕ → List ℕ → FdCmd ℕ
  unfolding fd_lookup dev_lookup
  write fdnum buf = do
    fd ← fd_lookup fdnum
    s ← get
    d ← dev_lookup (fd_at fd s).fd_dev_id
    if access_mode fd s == 0
        then throw e_inval
        else (do r ← dev.dev_write d fd buf (fd_at fd s).fd_offset; advance fd r; pure r)

  unfoldable pub fstat : ℕ → FdCmd Stat
  unfolding fd_lookup dev_lookup
  fstat fdnum = do
    fd ← fd_lookup fdnum
    s ← get
    d ← dev_lookup (fd_at fd s).fd_dev_id
    dev.dev_stat d fd (record { st_name = []; st_size = 0; st_isdir = 0; st_dev = d })
