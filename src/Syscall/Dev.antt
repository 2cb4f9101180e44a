-- ===== src/Syscall/Dev.antt =====
-- sys_write_dev and sys_read_dev of kern/syscall_all.c: which device addresses pass the checks.
use buaa_os_25spring.Prelude.{ℕ, ◌+◌, ◌^◌, ◌<◌, ◌≤◌, ◌≡◌, ◌⊎◌, ◌↔◌, true, arith}
use buaa_os_25spring.Mmu.{utop}
use buaa_os_25spring.Syscall.{is_illegal_va_range, dev_allowed, utemp}

-- The `len` bytes at `pa` are registers of the console or of the IDE disk.
abbrev pub InDevice : ℕ → ℕ → Type 0
InDevice pa len =
    ((0x180003f8 ≤ pa) × (pa + len ≤ 0x18000418)) ⊎ ((0x180001f0 ≤ pa) × (pa + len ≤ 0x180001f8))

-- The `len` bytes at `va` are the program's: all of them lie in user space.
abbrev pub InUser : ℕ → ℕ → Type 0
InUser va len = (utemp ≤ va) × (va + len ≤ utop)

-- For 32-bit addresses, the checks of `sys_write_dev` and `sys_read_dev` accept 1, 2 or 4 bytes
-- that lie in user space if the device bytes lie in the console or in the disk, or if they reach
-- the end of the 32-bit address space, where 'pa + len' wraps around; they accept nothing else.
pub dev_allowed_lem :
    (va pa len : ℕ)
    → va < 2 ^ 32
    → pa < 2 ^ 32
    → (dev_allowed va pa len ≡ true) ↔ (
        ((len ≡ 1) ⊎ (len ≡ 2) ⊎ (len ≡ 4))
        × InUser va len
        × (InDevice pa len ⊎ (2 ^ 32 ≤ pa + len)))
unfolding dev_allowed is_illegal_va_range
dev_allowed_lem va pa len hv hp = ground arith
