-- ===== src/Client/Read.antt =====
-- Reading and writing of the mapped pages of an open file: file_read and file_write.
use buaa_os_25spring.Prelude.{
  ℕ, ◌+◌, ◌-◌, ◌*◌, ◌%◌, ◌^◌, ◌≤◌, ◌<◌, ◌≡◌, inl, inr, refl, ap, ◌∙◌, min, arith, lt_or_le, ltb,
  lt→ltb, le→not_ltb, if◌then◌else◌,
}
use mathlib.Core.Path.{subst}
use buaa_os_25spring.Exec.{ok}
use buaa_os_25spring.Fd.{fd2data}
use buaa_os_25spring.Str.{Mem, memcpy}
use buaa_os_25spring.Str.Copy.{Copied, Apart, memcpy_lem}
use buaa_os_25spring.Client.{Process, PCmd, Request, filefd_at, file_read, file_write, maxfilesize}

-- The address of the file's byte at `offset`.
abbrev pub data_at : ℕ → ℕ → ℕ
data_at fd offset = fd2data fd * 4096 + offset

-- How many bytes `file_read` takes.
taken :
    (size n offset : ℕ)
    → offset + n < 2 ^ 32
    → offset ≤ size
    → (if ltb size ((offset + n) % 2 ^ 32) then size - offset else n) ≡ min n (size - offset)
taken size n offset small within = rw mod_small (elim (lt_or_le size (offset + n)) [
  | inl cut ↦ rw (lt→ltb size (offset + n) cut) (omega arith)
  | inr whole ↦ rw (le→not_ltb size (offset + n) whole) (omega arith)
])
  where
    mod_small : (offset + n) % 2 ^ 32 ≡ offset + n
    mod_small = omega arith

-- `file_read` returns the number of bytes between `offset` and the end of the file, n at most, and
-- copies exactly these to `buf`; everything else stays. The sum of `offset` and n is below 2^32, and
-- the buffer apart from the file's pages.
pub file_read_lem :
    (fd buf n offset : ℕ) (s : Process)
    → offset + n < 2 ^ 32
    → Apart (min n ((filefd_at fd s).f_size - offset)) buf (data_at fd offset)
    → (ram : Mem) × (file_read fd buf n offset s
        ≡ ok (min n ((filefd_at fd s).f_size - offset)) (record s { ram = ram }))
      × Copied (min n ((filefd_at fd s).f_size - offset)) buf (data_at fd offset) s.ram ram
unfolding file_read
file_read_lem fd buf n offset s small apart = elim (lt_or_le (filefd_at fd s).f_size offset) [
  | inl past ↦ (
    s.ram,
    rw (file_read, lt→ltb (filefd_at fd s).f_size offset past) (ap (λ k. ok k s) (none_left past)),
    (λ i h. absurd (omega (arith, h)), λ a h. refl),
  )
  | inr within ↦ (
    memcpy buf (data_at fd offset) (min n ((filefd_at fd s).f_size - offset)) s.ram,
    rw
        (
          file_read,
          le→not_ltb (filefd_at fd s).f_size offset within,
          taken (filefd_at fd s).f_size n offset small within,
        )
        refl,
    memcpy_lem (min n ((filefd_at fd s).f_size - offset)) buf (data_at fd offset) s.ram apart,
  )
]
  where
    none_left : (filefd_at fd s).f_size < offset → 0 ≡ min n ((filefd_at fd s).f_size - offset)
    none_left past = omega arith

-- The number of bytes as another term.
read_count :
    (fd buf n offset k : ℕ) (s : Process)
    → offset + n < 2 ^ 32
    → min n ((filefd_at fd s).f_size - offset) ≡ k
    → Apart k buf (data_at fd offset)
    → (ram : Mem) × (file_read fd buf n offset s ≡ ok k (record s { ram = ram }))
      × Copied k buf (data_at fd offset) s.ram ram
read_count fd buf n offset k s small e =
    subst
      (λ c.
        Apart c buf (data_at fd offset)
        → (ram : Mem) × (file_read fd buf n offset s ≡ ok c (record s { ram = ram }))
          × Copied c buf (data_at fd offset) s.ram ram)
      e (file_read_lem fd buf n offset s small)

-- A write of n bytes within the file, and then a read of n bytes at the same offset into another
-- buffer, give that buffer the bytes of the first one. The two buffers and the file's bytes have
-- no byte in common, and the sum of `offset` and n is below 2^32.
pub file_read-file_write :
    (fsipc : Request → ℕ → PCmd ℕ) (fd buf to n offset : ℕ) (s : Process)
    → offset + n < 2 ^ 32
    → offset + n ≤ (filefd_at fd s).f_size
    → (filefd_at fd s).f_size ≤ maxfilesize
    → Apart n (data_at fd offset) buf
    → Apart n to (data_at fd offset)
    → (t : Process) × (u : Process) × (file_write fsipc fd buf n offset s ≡ ok n t)
      × (file_read fd to n offset t ≡ ok n u)
      × ((i : ℕ) → i < n → u.ram (to + i) ≡ s.ram (buf + i))
unfolding file_write
file_read-file_write fsipc fd buf to n offset s small within fits apart apart' =
    let (ram, eq, copied) = read_count fd to n offset n written small whole apart' in
    (
      written,
      record written { ram = ram },
      rw
          (
            file_write,
            mod_small,
            le→not_ltb maxfilesize (offset + n) (omega arith),
            le→not_ltb (filefd_at fd s).f_size (offset + n) within,
          )
          refl,
      eq,
      λ i h. copied.0 i h ∙ (memcpy_lem n (data_at fd offset) buf s.ram apart).0 i h,
    )
  where
    mod_small : (offset + n) % 2 ^ 32 ≡ offset + n
    mod_small = omega arith

    written : Process
    written = record s { ram = memcpy (data_at fd offset) buf n s.ram }

    whole : min n ((filefd_at fd s).f_size - offset) ≡ n
    whole = omega arith
