-- ===== src/Client/Device.antt =====
-- readn of user/lib/fd.c on the file device of user/lib/file.c: a program reads the pages of its file.
use mathlib.Core.Path.{subst}
use buaa_os_25spring.Prelude.{
  ℕ, zero, suc, ◌+◌, ◌-◌, ◌^◌, ◌≤◌, ◌<◌, ◌≡◌, ◌⊎◌, inl, inr, refl, sym, ap, ◌∙◌, min, arith,
  lt_or_le, Option, List, [], ◌∷◌, ◌++◌, length, ℕ_discrete,
}
use buaa_os_25spring.Exec.{Run, ok, fail, panic}
use buaa_os_25spring.Fd.{Space, FdCmd, Dev, devfile, devcons, devpipe, index2fd, page_in}
use buaa_os_25spring.Fd.Io.{Devices, readn}
use buaa_os_25spring.Fd.Stream.{take, drop, Serves, OpenAt, readn_lem}
use buaa_os_25spring.Str.{Mem}
use buaa_os_25spring.Str.Copy.{Apart}
use buaa_os_25spring.Client.{Process, Filefd, file_read}
use buaa_os_25spring.Client.Read.{data_at, file_read_lem}

-- The `n` bytes of a memory from `a` on.
abbrev pub bytes : ℕ → ℕ → Mem → List ℕ
bytes zero a m = []
bytes (suc n) a m = m a ∷ bytes n (a + 1) m

length-bytes : (n a : ℕ) (m : Mem) → length (bytes n a m) ≡ n
length-bytes zero a m = refl
length-bytes (suc n) a m = omega (arith, length-bytes n (a + 1) m)

bytes-at : (n k a b : ℕ) (m : Mem) → n ≡ k → a ≡ b → bytes n a m ≡ bytes k b m
bytes-at n k a b m p q = rw (p, q) refl

none_left : (k a : ℕ) (m : Mem) → bytes (0 - suc k) (a + suc k) m ≡ []
none_left k a m = bytes-at (0 - suc k) 0 (a + suc k) (a + suc k) m (omega arith) refl

drop-bytes : (k n a : ℕ) (m : Mem) → drop k (bytes n a m) ≡ bytes (n - k) (a + k) m
drop-bytes zero n a m = bytes-at n (n - 0) a (a + 0) m (omega arith) (omega arith)
drop-bytes (suc k) zero a m = sym (none_left k a m)
drop-bytes (suc k) (suc n) a m =
    drop-bytes k n (a + 1) m
    ∙ bytes-at (n - k) (suc n - suc k) (a + 1 + k) (a + suc k) m (omega arith) (omega arith)

bytes-add : (p q a : ℕ) (m : Mem) → bytes (p + q) a m ≡ bytes p a m ++ bytes q (a + p) m
bytes-add zero q a m = bytes-at (0 + q) q a (a + 0) m (omega arith) (omega arith)
bytes-add (suc p) q a m =
    bytes-at (suc p + q) (suc (p + q)) a a m (omega arith) refl
    ∙ ap (λ l. m a ∷ l)
        (bytes-add p q (a + 1) m
          ∙ ap (λ l. bytes p (a + 1) m ++ l)
              (bytes-at q q (a + 1 + p) (a + suc p) m refl (omega arith)))

bytes_same :
    (n a b : ℕ) (m m' : Mem)
    → ((i : ℕ) → i < n → m' (a + i) ≡ m (b + i))
    → bytes n a m' ≡ bytes n b m
bytes_same zero a b m m' h = refl
bytes_same (suc n) a b m m' h =
    let first : m' a ≡ m b = ap m' (omega arith) ∙ h 0 (omega arith) ∙ ap m (omega arith) in
    let rest : bytes n (a + 1) m' ≡ bytes n (b + 1) m =
      bytes_same n (a + 1) (b + 1) m m'
        (λ i l. ap m' (omega arith) ∙ h (suc i) (omega (arith, l)) ∙ ap m (omega arith)) in
    rw (first, rest) refl

-- What a call that fills the buffer at `buf` hands over.
abbrev handed : ℕ → Run Process ℕ → Run Space (List ℕ)
handed buf (ok k t) = ok (bytes k buf t.ram) t.space
handed buf (fail e t) = fail e t.space
handed buf panic = panic

-- The device `devfile` of a process with the file structures `filefds` and the memory `ram`, read
-- into the buffer at `buf`, and the other two devices of `devtab`.
module _ (others : Devices) (filefds : ℕ → Filefd) (ram : Mem) (buf : ℕ) where
  abbrev dev_read_of : Dev → ℕ → ℕ → ℕ → FdCmd (List ℕ)
  dev_read_of devfile fd n off s =
      handed buf (file_read fd buf n off (record { space = s; filefds = filefds; ram = ram }))
  dev_read_of devcons fd n off s = others.dev_read devcons fd n off s
  dev_read_of devpipe fd n off s = others.dev_read devpipe fd n off s

  abbrev pub with_files : Devices
  with_files = record others { dev_read = dev_read_of }

  -- The bytes of the file whose descriptor is the page `e`, which is mapped at `fd`.
  abbrev pub size_in : Option (ℕ × ℕ) → ℕ
  size_in e = (filefds (page_in e)).f_size

  abbrev pub file_bytes : ℕ → Option (ℕ × ℕ) → List ℕ
  file_bytes fd e = bytes (size_in e) (data_at fd 0) ram

  -- What a read of the file device gives.
  abbrev Given : ℕ → ℕ → ℕ → Space → Option (ℕ × ℕ) → Type 0
  Given fd n off s e =
      (bs : List ℕ) × (dev_read_of devfile fd n off s ≡ ok bs s)
      × (length bs ≤ n)
      × (drop off (file_bytes fd e) ≡ bs ++ drop (off + length bs) (file_bytes fd e))
      × ((1 ≤ length bs) ⊎ (n ≡ 0) ⊎ (drop off (file_bytes fd e) ≡ []))

  apart : (size n off d : ℕ) → d + size ≤ buf → Apart (min n (size - off)) buf (d + off)
  apart size n off d h = elim (lt_or_le off size) [
    | inl l ↦ inr (omega arith)
    | inr g ↦ elim (lt_or_le buf (d + off)) [
      | inl l ↦ inl (omega arith)
      | inr l ↦ inr (omega arith)
    ]
  ]

  split :
      (size k off d : ℕ) (m : Mem)
      → k ≤ size - off
      → ((i : ℕ) → i < k → m (buf + i) ≡ ram (d + off + i))
      → drop off (bytes size d ram) ≡ bytes k buf m ++ drop (off + k) (bytes size d ram)
  split size k off d m fits copied =
      drop-bytes off size d ram
      ∙ bytes-at (size - off) (k + (size - off - k)) (d + off) (d + off) ram (omega arith) refl
      ∙ bytes-add k (size - off - k) (d + off) ram
      ∙ ap (λ l. l ++ bytes (size - off - k) (d + off + k) ram)
          (sym (bytes_same k buf (d + off) ram m copied))
      ∙ ap (λ l. bytes k buf m ++ l)
          (bytes-at (size - off - k) (size - (off + k)) (d + off + k) (d + (off + k)) ram
              (omega arith) (omega arith)
            ∙ sym (drop-bytes (off + k) size d ram))

  ended :
      (size n off d k : ℕ)
      → k ≡ min n (size - off)
      → (1 ≤ k) ⊎ (n ≡ 0) ⊎ (drop off (bytes size d ram) ≡ [])
  ended size n off d k q = elim (ℕ_discrete n 0) [
    | yes z ↦ inr (inl z)
    | no nz ↦ elim (lt_or_le off size) [
      | inl l ↦ inl (omega arith)
      | inr g ↦ inr (
          inr (
            drop-bytes off size d ram
            ∙ bytes-at (size - off) 0 (d + off) (d + off) ram (omega arith) refl))
    ]
  ]

  read-Given :
      (fd n off : ℕ) (s : Space)
      → off + n < 2 ^ 32
      → data_at fd 0 + size_in (s.vpt fd) ≤ buf
      → Given fd n off s (s.vpt fd)
  read-Given fd n off s bound room =
      let size = size_in (s.vpt fd) in
      let k = min n (size - off) in
      let d = data_at fd 0 in
      let at : data_at fd off ≡ d + off = omega arith in
      let (after, run, copied) =
        file_read_lem fd buf n off (record { space = s; filefds = filefds; ram = ram }) bound
          (subst (Apart k buf) (sym at) (apart size n off d room)) in
      (
        bytes k buf after,
        ap (handed buf) run,
        omega (arith, length-bytes k buf after),
        subst
            (λ l.
              drop off (bytes size d ram) ≡ bytes k buf after ++ drop (off + l) (bytes size d ram))
            (sym (length-bytes k buf after))
            (split size k off d after (omega arith) (λ i l. copied.0 i l ∙ ap ram (omega arith))),
        subst (λ l. (1 ≤ l) ⊎ (n ≡ 0) ⊎ (drop off (bytes size d ram) ≡ []))
            (sym (length-bytes k buf after)) (ended size n off d k refl),
      )

  file-Serves :
      (fd : ℕ) (e : Option (ℕ × ℕ))
      → data_at fd 0 + size_in e ≤ buf
      → Serves with_files devfile fd e (file_bytes fd e)
  file-Serves fd e room n off s h bound =
      subst (λ e. data_at fd 0 + size_in e ≤ buf → Given fd n off s e) h
        (read-Given fd n off s bound) room

  -- `readn` through a descriptor that is open for reading on the file device, where the buffer lies
  -- behind the file's bytes and the offset stays below 2^32, returns. It returns the `n` bytes
  -- of the file's pages from the offset on, or all that are left when these are fewer; the descriptor
  -- stays open, with the offset behind what was read.
  pub readn_file :
      (fdnum n off : ℕ) (e : Option (ℕ × ℕ)) (s : Space)
      → data_at (index2fd fdnum) 0 + size_in e ≤ buf
      → off + n < 2 ^ 32
      → OpenAt fdnum devfile e off s
      → (t : Space) × (readn with_files fdnum n s
          ≡ ok (take n (drop off (file_bytes (index2fd fdnum) e))) t)
        × OpenAt fdnum devfile e
            (off + length (take n (drop off (file_bytes (index2fd fdnum) e))))
            t
  readn_file fdnum n off e s room bound o =
      readn_lem with_files devfile e fdnum (file_bytes (index2fd fdnum) e)
        (file-Serves (index2fd fdnum) e room) n off s bound o
