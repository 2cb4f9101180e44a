-- ===== src/Fd/Stream.antt =====
-- user/lib/fd.c: readn on a device that serves a sequence of bytes.
use buaa_os_25spring.Prelude.{
  ℕ, zero, suc, ◌+◌, ◌-◌, ◌%◌, ◌^◌, ◌<◌, ◌≤◌, ◌≡◌, ◌⊎◌, inl, inr, refl, sym, ap, ◌∙◌, arith, true,
  false, List, [], ◌∷◌, ◌++◌, Option, length, length-append, ◌==◌, ==_self,
}
use mathlib.Core.Path.{subst}
use buaa_os_25spring.Exec.{Run, ok, and_then}
use buaa_os_25spring.Fd.{
  Space, Dev, index2fd, is_mapped, page_in, fd_at, set_offset, dev_lookup, fd_lookup,
}
use buaa_os_25spring.Fd.Io.{Devices, access_mode, advance, read, readn_from, readn}

abbrev pub take : ℕ → List ℕ → List ℕ
take zero l = []
take (suc n) [] = []
take (suc n) (x ∷ xs) = x ∷ take n xs

abbrev pub drop : ℕ → List ℕ → List ℕ
drop zero l = l
drop (suc n) [] = []
drop (suc n) (x ∷ xs) = drop n xs

take-append :
    (n : ℕ) (bs r : List ℕ) → length bs ≤ n → take n (bs ++ r) ≡ bs ++ take (n - length bs) r
take-append n [] r h = ap (λ m. take m r) (omega arith)
take-append zero (b ∷ bs) r h = absurd (omega arith)
take-append (suc n) (b ∷ bs) r h =
    ap (λ l. b ∷ l) (take-append n bs r (omega arith) ∙ ap (λ m. bs ++ take m r) (omega arith))

take_nil : (n : ℕ) → take n [] ≡ []
take_nil zero = refl
take_nil (suc n) = refl

-- What the device `d` gives through the descriptor at `fd`, as long as this is in the page `e`: a read
-- returns, without a change of the descriptors, at most as many bytes as were asked for, which are those
-- at the offset, and none only if there are none.
abbrev pub Serves : Devices → Dev → ℕ → Option (ℕ × ℕ) → List ℕ → Type 0
Serves dev d fd e content =
    (n off : ℕ) (s : Space)
    → s.vpt fd ≡ e
    → off + n < 2 ^ 32
    → (bs : List ℕ) × (dev.dev_read d fd n off s ≡ ok bs s)
      × (length bs ≤ n)
      × (drop off content ≡ bs ++ drop (off + length bs) content)
      × ((1 ≤ length bs) ⊎ (n ≡ 0) ⊎ (drop off content ≡ []))

-- A descriptor in the page `e` that is open for reading on a device, at an offset.
abbrev pub OpenAt : ℕ → Dev → Option (ℕ × ℕ) → ℕ → Space → Type 0
OpenAt fdnum d e off s =
    (fdnum < 32)
    × ((is_mapped (index2fd fdnum) s ≡ true) × (s.vpt (index2fd fdnum) ≡ e))
    × ((t : Space) → dev_lookup (fd_at (index2fd fdnum) s).fd_dev_id t ≡ ok d t)
    × ((access_mode (index2fd fdnum) s == 1) ≡ false)
    × ((fd_at (index2fd fdnum) s).fd_offset ≡ off)

fd_lookup-open :
    (fdnum : ℕ) (s : Space)
    → fdnum < 32
    → is_mapped (index2fd fdnum) s ≡ true
    → fd_lookup fdnum s ≡ ok (index2fd fdnum) s
unfolding fd_lookup
fd_lookup-open fdnum s h m = rw m ground arith

-- The descriptor after a store to its offset.
fd_at-set_offset :
    (fd v : ℕ) (s : Space) → fd_at fd (set_offset fd v s) ≡ record (fd_at fd s) { fd_offset = v }
fd_at-set_offset fd v s = rw (==_self (page_in (s.vpt fd))) refl

OpenAt-set_offset :
    (fdnum : ℕ) (d : Dev) (e : Option (ℕ × ℕ)) (off v : ℕ) (s : Space)
    → OpenAt fdnum d e off s
    → OpenAt fdnum d e v (set_offset (index2fd fdnum) v s)
OpenAt-set_offset fdnum d e off v s (small, mapped, device, mode, at) = (
  small,
  mapped,
  rw (fd_at-set_offset (index2fd fdnum) v s) device,
  rw (fd_at-set_offset (index2fd fdnum) v s) mode,
  rw (fd_at-set_offset (index2fd fdnum) v s) refl,
)

OpenAt-advance :
    (fdnum : ℕ) (d : Dev) (e : Option (ℕ × ℕ)) (off r : ℕ) (s : Space) (bs : List ℕ)
    → OpenAt fdnum d e off s
    → off + r < 2 ^ 32
    → (t : Space) × (and_then (advance (index2fd fdnum) r s) (λ _. ok bs) ≡ ok bs t)
      × OpenAt fdnum d e (off + r) t
OpenAt-advance fdnum d e off zero s bs o h =
    (s, refl, subst (λ x. OpenAt fdnum d e x s) (omega arith) o)
OpenAt-advance fdnum d e off (suc r) s bs o h = (
  set_offset (index2fd fdnum) (((fd_at (index2fd fdnum) s).fd_offset + suc r) % 2 ^ 32) s,
  rw (positive r) refl,
  subst
      (λ x.
        OpenAt fdnum d e x
          (set_offset (index2fd fdnum) (((fd_at (index2fd fdnum) s).fd_offset + suc r) % 2 ^ 32) s))
      (no_wrap o)
      (OpenAt-set_offset fdnum d e off (((fd_at (index2fd fdnum) s).fd_offset + suc r) % 2 ^ 32) s
        o),
)
  where
    positive : (r : ℕ) → (suc r == 0) ≡ false
    positive r = ground arith

    no_wrap :
        OpenAt fdnum d e off s
        → ((fd_at (index2fd fdnum) s).fd_offset + suc r) % 2 ^ 32 ≡ off + suc r
    no_wrap (small, mapped, device, mode, at) = rw at (omega arith)

module _ (dev : Devices) (d : Dev) (e : Option (ℕ × ℕ)) (fdnum : ℕ) (content : List ℕ)
    (serves : Serves dev d (index2fd fdnum) e content) where
  read_step :
      (n off : ℕ) (s : Space) (bs : List ℕ)
      → OpenAt fdnum d e off s
      → dev.dev_read d (index2fd fdnum) n off s ≡ ok bs s
      → read dev fdnum n s ≡ and_then (advance (index2fd fdnum) (length bs) s) (λ _. ok bs)
  unfolding read
  read_step n off s bs (small, mapped, device, mode, at) q =
      rw (read, and_then, fd_lookup-open fdnum s small mapped.0, device s, mode, at, q) (rw at refl)

  -- The rest is read, once some bytes are.
  abbrev Rest : ℕ → List ℕ → Run Space (List ℕ) → Type 0
  Rest off want r = (t : Space) × (r ≡ ok want t) × OpenAt fdnum d e (off + length want) t

  readn_zero : (fuel : ℕ) (s : Space) → readn_from dev fuel fdnum 0 s ≡ ok [] s
  unfolding readn_from
  readn_zero fuel s = refl

  readn_end :
      (fuel n : ℕ) (s t : Space)
      → read dev fdnum (suc n) s ≡ ok [] t
      → readn_from dev (suc fuel) fdnum (suc n) s ≡ ok [] t
  unfolding readn_from
  readn_end fuel n s t q = rw (readn_from, and_then, q) refl

  readn_more :
      (fuel n b : ℕ) (more : List ℕ) (s t : Space)
      → read dev fdnum (suc n) s ≡ ok (b ∷ more) t
      → readn_from dev (suc fuel) fdnum (suc n) s
        ≡ and_then
            (readn_from dev fuel fdnum (suc n - length (b ∷ more)) t)
            (λ rest. ok ((b ∷ more) ++ rest))
  unfolding readn_from
  readn_more fuel n b more s t q = rw (readn_from, and_then, q) refl

  -- What a read with `fuel` left for the rest comes to.
  nothing_left :
      (fuel n off : ℕ) (s : Space)
      → OpenAt fdnum d e off s
      → off < 2 ^ 32
      → dev.dev_read d (index2fd fdnum) (suc n) off s ≡ ok [] s
      → drop off content ≡ []
      → Rest off (take (suc n) (drop off content)) (readn_from dev (suc fuel) fdnum (suc n) s)
  nothing_left fuel n off s o bound q z =
      let (t, eq, o') = OpenAt-advance fdnum d e off 0 s [] o (omega (arith, bound)) in
      rw (z, take_nil (suc n)) (t, readn_end fuel n s t (read_step (suc n) off s [] o q ∙ eq), o')

  some_read :
      (fuel n off b : ℕ) (more : List ℕ) (s : Space)
      → ((m off' : ℕ) (t : Space)
          → m ≤ fuel
          → off' + m < 2 ^ 32
          → OpenAt fdnum d e off' t
          → Rest off' (take m (drop off' content)) (readn_from dev fuel fdnum m t))
      → OpenAt fdnum d e off s
      → suc n ≤ suc fuel
      → off + suc n < 2 ^ 32
      → dev.dev_read d (index2fd fdnum) (suc n) off s ≡ ok (b ∷ more) s
      → length (b ∷ more) ≤ suc n
      → drop off content ≡ (b ∷ more) ++ drop (off + length (b ∷ more)) content
      → Rest off (take (suc n) (drop off content)) (readn_from dev (suc fuel) fdnum (suc n) s)
  some_read fuel n off b more s ih o h bound q fits split =
      let k = length (b ∷ more) in
      let m = suc n - k in
      let (t, eq, o') =
        OpenAt-advance fdnum d e off k s (b ∷ more) o (omega (arith, fits, bound)) in
      let (u, eq', o2) =
        ih m (off + k) t (omega (arith, fits, h)) (omega (arith, fits, bound)) o' in
      let R = take m (drop (off + k) content) in
      let same : take (suc n) (drop off content) ≡ (b ∷ more) ++ R =
        ap (take (suc n)) split ∙ take-append (suc n) (b ∷ more) (drop (off + k) content) fits in
      let sizes : off + k + length R ≡ off + length ((b ∷ more) ++ R) =
        omega (arith, length-append (b ∷ more) R) in
      subst (λ want. Rest off want (readn_from dev (suc fuel) fdnum (suc n) s)) (sym same)
        (
          u,
          readn_more fuel n b more s t (read_step (suc n) off s (b ∷ more) o q ∙ eq)
              ∙ ap (λ r. and_then r (λ rest. ok ((b ∷ more) ++ rest))) eq',
          subst (λ x. OpenAt fdnum d e x u) sizes o2,
        )

  readn_from_lem :
      (fuel n off : ℕ) (s : Space)
      → n ≤ fuel
      → off + n < 2 ^ 32
      → OpenAt fdnum d e off s
      → Rest off (take n (drop off content)) (readn_from dev fuel fdnum n s)
  readn_from_lem fuel zero off s h bound o =
      (s, readn_zero fuel s, subst (λ x. OpenAt fdnum d e x s) (omega arith) o)
  readn_from_lem zero (suc n) off s h bound o = absurd (omega arith)
  readn_from_lem (suc fuel) (suc n) off s h bound o =
      by_read (readn_from_lem fuel) (serves (suc n) off s o.1.1 (omega (arith, bound)))
    where
      by_read :
          ((m off' : ℕ) (t : Space)
            → m ≤ fuel
            → off' + m < 2 ^ 32
            → OpenAt fdnum d e off' t
            → Rest off' (take m (drop off' content)) (readn_from dev fuel fdnum m t))
          → ((bs : List ℕ) × (dev.dev_read d (index2fd fdnum) (suc n) off s ≡ ok bs s)
              × (length bs ≤ suc n)
              × (drop off content ≡ bs ++ drop (off + length bs) content)
              × ((1 ≤ length bs) ⊎ (suc n ≡ 0) ⊎ (drop off content ≡ [])))
          → Rest off (take (suc n) (drop off content)) (readn_from dev (suc fuel) fdnum (suc n) s)
      by_read ih ([], q, fits, split, inl few) = absurd (omega arith)
      by_read ih ([], q, fits, split, inr (inl few)) = absurd (omega arith)
      by_read ih ([], q, fits, split, inr (inr z)) =
          nothing_left fuel n off s o (omega (arith, bound)) q z
      by_read ih (b ∷ more, q, fits, split, some_byte) =
          some_read fuel n off b more s ih o h bound q fits split

  -- On a device that serves a sequence of bytes, through a descriptor that is open for reading, and as
  -- long as the offset stays below 2 ^ 32, `readn` always returns. It returns the next `n` bytes
  -- from the offset on, or all that are left when these are fewer, however many bytes the device gives
  -- at a time; the descriptor stays open, with the offset behind what was read.
  pub readn_lem :
      (n off : ℕ) (s : Space)
      → off + n < 2 ^ 32
      → OpenAt fdnum d e off s
      → (t : Space) × (readn dev fdnum n s ≡ ok (take n (drop off content)) t)
        × OpenAt fdnum d e (off + length (take n (drop off content))) t
  unfolding readn
  readn_lem n off s bound o = readn_from_lem n n off s (omega arith) bound o
