-- ===== src/Env/Create.antt =====
-- load_icode_mapper, load_icode and env_create of kern/env.c.
use buaa_os_25spring.Prelude.{
  ℕ, zero, suc, ◌+◌, ◌-◌, ◌*◌, ◌/◌, ◌%◌, ◌^◌, ◌&&◌, none, some, ◌∷◌, ◌==◌, ltb, leb, if◌then◌else◌,
  set,
}
use buaa_os_25spring.Exec.{Run, ok, fail, panic, pure, get, modify, halt, ◌>>=◌, ◌>>◌}
use buaa_os_25spring.Pmap.{MemCmd, page_alloc, page_insert}
use buaa_os_25spring.Elf.{File, Piece, elf_from, phdr_at, elf_load_seg}
use buaa_os_25spring.Env.State.{Kern, KCmd, env_runnable, set_env, lift}
use buaa_os_25spring.Env.Alloc.{env_alloc}

-- Byte `b` of a little-endian word.
abbrev pub byte_of : ℕ → ℕ → ℕ
byte_of w b = w / 256 ^ b % 256

-- The word of the bytes `f 0` to `f 3`.
abbrev pub word_from : (ℕ → ℕ) → ℕ
word_from f = f 0 + 256 * (f 1 + 256 * (f 2 + 256 * f 3))

-- `memcpy(page2kva(p) + offset, src, len)` on the page as bytes, and on its words.
abbrev pub copied_byte : File → ℕ → ℕ → ℕ → (ℕ → ℕ) → ℕ → ℕ
copied_byte bin offset src len old i =
    if leb offset i && ltb i (offset + len) then bin (src + (i - offset)) else old i

abbrev pub copy_into : ℕ → File → ℕ → ℕ → ℕ → MemCmd (Unit {0})
copy_into p bin offset src len = modify (λ m. record m {
  frame = λ q w.
      if q == p
      then word_from (λ b.
        copied_byte bin offset src len (λ i. byte_of (m.frame p (i / 4)) (i % 4)) (4 * w + b))
      else m.frame q w;
})

-- `bin` is the segment in the image, from its first byte on.
unfoldable pub load_icode_mapper : ℕ → File → Piece → KCmd (Unit {0})
load_icode_mapper e bin piece = do
  k ← get
  lift (do
    p ← page_alloc
    (elim piece.src [ none ↦ pure tt | some src ↦ copy_into p bin piece.offset src piece.len ])
    page_insert (k.envs e).env_pgdir (k.envs e).env_asid p piece.va piece.perm)

-- `panic_on(r)`.
abbrev pub panic_on : KCmd (Unit {0}) → KCmd (Unit {0})
panic_on c k = sure (c k)
  where
    sure : Run Kern (Unit {0}) → Run Kern (Unit {0})
    sure (ok a s) = ok a s
    sure (fail e s) = panic
    sure panic = panic

-- The loop of `load_icode` over `n` program headers, the next one at `ph_off`.
unfoldable pub load_segments : ℕ → ℕ → ℕ → ℕ → File → KCmd (Unit {0})
load_segments zero ph_off entsize e binary = pure tt
load_segments (suc n) ph_off entsize e binary = do
  if (phdr_at binary ph_off).p_type == 1
      then panic_on (
          elf_load_seg (load_icode_mapper e (λ k. binary ((phdr_at binary ph_off).p_offset + k)))
            (phdr_at binary ph_off))
      else pure tt
  load_segments n (ph_off + entsize) entsize e binary

unfoldable pub load_icode : ℕ → File → ℕ → KCmd (Unit {0})
load_icode e binary size = elim (elf_from binary size) [
  | none ↦ halt
  | some ehdr ↦ do
    load_segments ehdr.e_phnum ehdr.e_phoff ehdr.e_phentsize e binary
    set_env e (λ v. record v { env_tf = record v.env_tf { cp0_epc = ehdr.e_entry } })
]

-- What `env_alloc` returns is not looked at: where it fails, the code goes on with a pointer that
-- was never set, which is a panic here.
abbrev pub alloc_unchecked : Run Kern ℕ → Run Kern ℕ
alloc_unchecked (ok e k) = ok e k
alloc_unchecked (fail c k) = panic
alloc_unchecked panic = panic

unfoldable pub env_create : File → ℕ → ℕ → KCmd ℕ
env_create binary size priority = do
  e ← λ k. alloc_unchecked (env_alloc 0 k)
  set_env e (λ v. record v { env_pri = priority })
  set_env e (λ v. record v { env_status = env_runnable })
  set_env e (λ v. record v { r_path = set v.r_path 0 47 })
  load_icode e binary size
  modify (λ k. record k { env_sched_list = e ∷ k.env_sched_list })
  pure e
