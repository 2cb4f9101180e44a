-- ===== src/Elf/Loops.antt =====
-- The two loops of `elf_load_seg` over a `map_page` that gives a page fresh memory or fails.
use buaa_os_25spring.Prelude.{
  ℕ, zero, suc, ◌+◌, ◌-◌, ◌*◌, ◌/◌, ◌%◌, ◌^◌, ◌≤◌, ◌<◌, ◌≡◌, inl, inr, refl, ap, min, true, false,
  ◌&&◌, Option, none, some, ltb, leb, ◌==◌, if◌then◌else◌, arith, lt_or_le, ==_self, ==_ne, lt→ltb,
  le→not_ltb,
}
use buaa_os_25spring.Exec.{Cmd, Error, e_no_mem}
use buaa_os_25spring.Exec.Ends.{Ends, bind}
use buaa_os_25spring.Mmu.{page_size}
use buaa_os_25spring.Elf.{File, Piece, load_file, load_zeros}

-- The bytes of an address space, `none` where nothing is mapped.
abbrev pub Bytes : Type 0
Bytes = ℕ → Option ℕ

-- The byte at `a` of a fresh page that the piece is copied into.
abbrev pub fresh_byte : File → Piece → ℕ → ℕ
fresh_byte bin p a = elim p.src [
  | none ↦ 0
  | some from ↦
      if leb p.offset (a % page_size) && ltb (a % page_size) (p.offset + p.len)
      then bin (from + (a % page_size - p.offset))
      else 0
]

-- Address space `new` is `old` with a fresh page for the piece, and the piece's bytes in it.
abbrev pub Mapped : File → Piece → Bytes → Bytes → Type 0
Mapped bin p old new =
    (a : ℕ)
    → new a ≡ (if a / page_size == p.va / page_size then some (fresh_byte bin p a) else old a)

-- The only error of a mapper.
abbrev pub OutOfMemory : {S : Type 0} → Error → S → Type 0
OutOfMemory e t = e ≡ e_no_mem

-- What a callback `map_page` promises in the states that are `Good`, where `view` gives the bytes of
-- the address space: it maps a fresh page with the bytes of the piece, or returns -E_NO_MEM.
pub record IsMapper {S : Type 0} (view : S → Bytes) (Good : S → Type 0) (bin : File)
    (map_page : Piece → Cmd S (Unit {0})) : Type 0 where
  pub maps :
      (p : Piece) (s : S)
      → Good s
      → Ends (λ _ t. Good t × Mapped bin p (view s) (view t)) OutOfMemory (map_page p s)

-- The bytes of a segment: those of the file, and zeros behind them.
abbrev pub content : File → ℕ → ℕ → ℕ
content bin filesz k = if ltb k filesz then bin k else 0

abbrev pub Loaded : File → ℕ → ℕ → ℕ → Bytes → Type 0
Loaded bin va filesz n t = (k : ℕ) → k < n → t (va + k) ≡ some (content bin filesz k)

other_page :
    (va i k : ℕ)
    → (va + i) % page_size ≡ 0
    → k < i
    → ((va + k) / page_size == (va + i) / page_size) ≡ false
other_page va i k al h = ==_ne _ _ (λ e. absurd (omega (arith, e)))

same_page :
    (va i k : ℕ)
    → (va + i) % page_size ≡ 0
    → i ≤ k
    → k < i + page_size
    → ((va + k) / page_size ≡ (va + i) / page_size) × ((va + k) % page_size ≡ k - i)
same_page va i k al h b = (omega arith, omega arith)

leb_zero : (n : ℕ) → leb 0 n ≡ true
leb_zero n = ground arith

-- The piece at `i`, of the file or of zeros, in a page of its own.
module _ (bin : File) (va perm filesz : ℕ) where
  piece_step :
      (i : ℕ) (p : Piece) (old new : Bytes)
      → (va + i) % page_size ≡ 0
      → va + i < 2 ^ 32
      → p.va ≡ (va + i) % 2 ^ 32
      → Mapped bin p old new
      → Loaded bin va filesz i old
      → ((k : ℕ) → i ≤ k → k < i + page_size → fresh_byte bin p (va + k) ≡ content bin filesz k)
      → Loaded bin va filesz (i + page_size) new
  piece_step i p old new al small at mapped l copied k b = elim (lt_or_le k i) [
    | inl c ↦ rw (mapped (va + k), at, mod_small, other_page va i k al c) (l k c)
    | inr c ↦
        rw
          (
            mapped (va + k),
            at,
            mod_small,
            (same_page va i k al c b).0,
            ==_self ((va + i) / page_size),
          )
          (ap some (copied k c b))
  ]
    where
      mod_small : (va + i) % 2 ^ 32 ≡ va + i
      mod_small = omega arith

  abbrev file_piece : ℕ → Piece
  file_piece i = record {
    va = (va + i) % 2 ^ 32;
    offset = 0;
    perm = perm;
    src = some i;
    len = min (filesz - i) page_size;
  }

  abbrev zero_piece : ℕ → ℕ → Piece
  zero_piece memsz i = record {
    va = (va + i) % 2 ^ 32;
    offset = 0;
    perm = perm;
    src = none;
    len = min (memsz - i) page_size;
  }

  file_copied :
      (i k : ℕ)
      → (va + i) % page_size ≡ 0
      → i ≤ k
      → k < i + page_size
      → fresh_byte bin (file_piece i) (va + k) ≡ content bin filesz k
  file_copied i k al c b =
      rw ((same_page va i k al c b).1, leb_zero (k - i))
        (elim (lt_or_le k filesz) [
          | inl f ↦
              rw (lt→ltb k filesz f, lt→ltb (k - i) (0 + min (filesz - i) page_size) (omega arith))
                (ap bin (omega arith))
          | inr f ↦
              rw
                (
                  le→not_ltb k filesz f,
                  le→not_ltb (k - i) (0 + min (filesz - i) page_size) (omega arith),
                )
                refl
        ])

  module _ {S : Type 0} (view : S → Bytes) (Good : S → Type 0) (map_page : Piece → Cmd S (Unit {0}))
      (mapper : IsMapper view Good bin map_page) where
    -- What the loop of Step 1 leaves at its last `i`.
    pub record FileLoaded (j : ℕ) (t : S) : Type 0 where
      pub good : Good t
      pub past : filesz ≤ j
      pub near : j < filesz + page_size
      pub aligned : (va + j) % page_size ≡ 0
      pub loaded : Loaded bin va filesz j (view t)

    pub load_file_lem :
        (fuel i : ℕ) (s : S)
        → filesz < i + fuel
        → i < filesz + page_size
        → va + filesz + 2 * page_size < 2 ^ 32
        → (va + i) % page_size ≡ 0
        → Good s
        → Loaded bin va filesz i (view s)
        → Ends FileLoaded OutOfMemory (load_file map_page fuel va perm filesz i s)
    unfolding load_file
    load_file_lem zero i s f n small al g l = record {
      good = g;
      past = omega arith;
      near = n;
      aligned = al;
      loaded = l;
    }
    load_file_lem (suc fuel) i s f n small al g l = elim (lt_or_le i filesz) [
      | inl h ↦ rw (lt→ltb i filesz h) (
          bind (λ _ t. Good t × Mapped bin (file_piece i) (view s) (view t)) FileLoaded OutOfMemory
            (map_page (file_piece i) s)
            (λ _. load_file map_page fuel va perm filesz ((i + page_size) % 2 ^ 32))
            (mapper.maps (file_piece i) s g)
            (λ _ t m.
              load_file_lem fuel ((i + page_size) % 2 ^ 32) t (omega arith) (omega arith) small
                (omega arith) m.0
                (rw wrap (
                  piece_step i (file_piece i) (view s) (view t) al (omega arith) refl m.1 l
                    (λ k c b. file_copied i k al c b)))))
      | inr h ↦
          rw (le→not_ltb i filesz h)
            (record { good = g; past = h; near = n; aligned = al; loaded = l })
    ]
      where
        wrap : (i + page_size) % 2 ^ 32 ≡ i + page_size
        wrap = omega arith

    pub load_zeros_lem :
        (fuel memsz i : ℕ) (s : S)
        → memsz < i + fuel
        → filesz ≤ i
        → va + memsz + 2 * page_size < 2 ^ 32
        → (va + i) % page_size ≡ 0
        → Good s
        → Loaded bin va filesz i (view s)
        → Ends
            (λ _ t. Good t × Loaded bin va filesz memsz (view t))
            OutOfMemory
            (load_zeros map_page fuel va perm memsz i s)
    unfolding load_zeros
    load_zeros_lem zero memsz i s f fs small al g l = (g, λ k h. l k (omega arith))
    load_zeros_lem (suc fuel) memsz i s f fs small al g l = elim (lt_or_le i memsz) [
      | inl h ↦ rw (lt→ltb i memsz h) (
          bind (λ _ t. Good t × Mapped bin (zero_piece memsz i) (view s) (view t))
            (λ _ t. Good t × Loaded bin va filesz memsz (view t)) OutOfMemory
            (map_page (zero_piece memsz i) s)
            (λ _. load_zeros map_page fuel va perm memsz ((i + page_size) % 2 ^ 32))
            (mapper.maps (zero_piece memsz i) s g)
            (λ _ t m.
              load_zeros_lem fuel memsz ((i + page_size) % 2 ^ 32) t (omega arith) (omega arith)
                small (omega arith) m.0
                (rw (wrap h) (
                  piece_step i (zero_piece memsz i) (view s) (view t) al (omega arith) refl m.1 l
                    zeros))))
      | inr h ↦ rw (le→not_ltb i memsz h) (g, λ k b. l k (omega arith))
    ]
      where
        wrap : i < memsz → (i + page_size) % 2 ^ 32 ≡ i + page_size
        wrap h = omega arith

        zeros : (k : ℕ) → i ≤ k → k < i + page_size → 0 ≡ content bin filesz k
        zeros k c b = rw (le→not_ltb k filesz (omega arith)) refl
