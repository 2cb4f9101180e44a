-- ===== src/Pipe/Ring.antt =====
-- The ring buffer of user/lib/pipe.c is a queue of at most 32 bytes.
use buaa_os_25spring.Prelude.{
  ℕ, zero, suc, ◌+◌, ◌-◌, ◌%◌, ◌^◌, ◌<◌, ◌≤◌, ◌≡◌, ◌⊎◌, inl, inr, refl, sym, ap, ◌∙◌, Bool, true,
  false, not, ◌||◌, List, [], ◌∷◌, ◌++◌, arith, leb, length, get_or, length-append, lt_or_le,
  ==_self, ==_ne,
}
use mathlib.Core.Path.{subst}
use buaa_os_25spring.Pipe.{
  Pipe, Progress, returns, yields, pipe_size, pipe_read, pipe_write, next_byte, after_read,
  after_write, is_empty,
}

-- The pipe holds the bytes `q`, the oldest first.
pub record Holds (p : Pipe) (q : List ℕ) : Type 0 where
  pub positions : p.p_wpos ≡ p.p_rpos + length q
  pub fits : length q ≤ pipe_size
  pub word : p.p_wpos < 2 ^ 32
  pub bytes : (i : ℕ) → i < length q → p.p_buf ((p.p_rpos + i) % pipe_size) ≡ get_or q i 0

abbrev pub take : ℕ → List ℕ → List ℕ
take zero q = []
take (suc n) [] = []
take (suc n) (x ∷ q) = x ∷ take n q

abbrev pub drop : ℕ → List ℕ → List ℕ
drop zero q = q
drop (suc n) [] = []
drop (suc n) (x ∷ q) = drop n q

read-Holds : (p : Pipe) (x : ℕ) (q : List ℕ) → Holds p (x ∷ q) → Holds (after_read p) q
read-Holds p x q h = record {
  positions = omega (arith, h.positions, no_wrap);
  fits = omega (arith, h.fits);
  word = h.word;
  bytes = λ i hi.
      ap p.p_buf (ap (λ r. (r + i) % pipe_size) no_wrap ∙ next i) ∙ h.bytes (suc i) (omega arith);
}
  where
    no_wrap : (p.p_rpos + 1) % 2 ^ 32 ≡ p.p_rpos + 1
    no_wrap = omega (arith, h.positions, h.word)

    next : (i : ℕ) → (p.p_rpos + 1 + i) % pipe_size ≡ (p.p_rpos + suc i) % pipe_size
    next i = ap (λ t. t % pipe_size) (omega arith)

first_byte : (p : Pipe) (x : ℕ) (q : List ℕ) → Holds p (x ∷ q) → next_byte p ≡ x
first_byte p x q h = ap (λ t. p.p_buf (t % pipe_size)) (omega arith) ∙ h.bytes 0 (omega arith)

get_or-append_left : (q r : List ℕ) (i : ℕ) → i < length q → get_or (q ++ r) i 0 ≡ get_or q i 0
get_or-append_left [] r i h = absurd (omega arith)
get_or-append_left (x ∷ q) r zero h = refl
get_or-append_left (x ∷ q) r (suc i) h = get_or-append_left q r i (omega arith)

get_or-append_last : (q : List ℕ) (b : ℕ) → get_or (q ++ (b ∷ [])) (length q) 0 ≡ b
get_or-append_last [] b = refl
get_or-append_last (x ∷ q) b = get_or-append_last q b

write-Holds :
    (p : Pipe) (b : ℕ) (q : List ℕ)
    → Holds p q
    → length q < pipe_size
    → p.p_wpos + 1 < 2 ^ 32
    → Holds (after_write b p) (q ++ (b ∷ []))
write-Holds p b q h room small = record {
  positions = omega (arith, h.positions, longer);
  fits = omega (arith, longer);
  word = omega arith;
  bytes = λ i hi. elim (lt_or_le i (length q)) [
    | inl l ↦
        rw (==_ne ((p.p_rpos + i) % pipe_size) (p.p_wpos % pipe_size) (omega (arith, h.positions)))
          (h.bytes i l ∙ sym (get_or-append_left q (b ∷ []) i l))
    | inr l ↦ last i (omega (arith, longer))
  ];
}
  where
    longer : length (q ++ (b ∷ [])) ≡ length q + 1
    longer = length-append q (b ∷ []) ∙ omega arith

    last :
        (i : ℕ)
        → i ≡ length q
        → (after_write b p).p_buf ((p.p_rpos + i) % pipe_size) ≡ get_or (q ++ (b ∷ [])) i 0
    last i e = rw (e, ← h.positions, ==_self (p.p_wpos % pipe_size)) (sym (get_or-append_last q b))

append_one : (xs : List ℕ) (y : ℕ) (ys : List ℕ) → (xs ++ (y ∷ [])) ++ ys ≡ xs ++ (y ∷ ys)
append_one [] y ys = refl
append_one (x ∷ xs) y ys = ap (λ t. x ∷ t) (append_one xs y ys)

append_nil : (xs : List ℕ) → xs ++ [] ≡ xs
append_nil [] = refl
append_nil (x ∷ xs) = ap (λ t. x ∷ t) (append_nil xs)

is_empty-append : (xs : List ℕ) (y : ℕ) → is_empty (xs ++ (y ∷ [])) ≡ false
is_empty-append [] y = refl
is_empty-append (x ∷ xs) y = refl

no_bytes : (p : Pipe) → Holds p [] → leb p.p_wpos p.p_rpos ≡ true
no_bytes p h = ground (arith, h.positions)

some_bytes : (p : Pipe) (x : ℕ) (q : List ℕ) → Holds p (x ∷ q) → leb p.p_wpos p.p_rpos ≡ false
some_bytes p x q h = ground (arith, h.positions)

read_returns :
    (n : ℕ) (got : List ℕ) (closed : Bool) (p : Pipe) (q : List ℕ)
    → Holds p q
    → (not (is_empty got) || closed) ≡ true
    → (p' : Pipe) × (pipe_read n got closed p ≡ returns (got ++ take n q) p') × Holds p' (drop n q)
unfolding pipe_read
read_returns zero got closed p q h stop = (p, ap (λ g. returns g p) (sym (append_nil got)), h)
read_returns (suc n) got closed p [] h stop =
    (p, rw (no_bytes p h, stop) (ap (λ g. returns g p) (sym (append_nil got))), h)
read_returns (suc n) got closed p (x ∷ q) h stop =
    let (p', run, h') =
      read_returns n (got ++ (x ∷ [])) closed (after_read p) q (read-Holds p x q h)
        (rw (is_empty-append got x) refl) in
    (
      p',
      rw (some_bytes p x q h) (
          ap (λ b. pipe_read n (got ++ (b ∷ [])) closed (after_read p)) (first_byte p x q h)
          ∙ run
          ∙ ap (λ g. returns g p') (append_one got x (take n q))),
      h',
    )

-- A read from a pipe that holds the bytes `q` returns the oldest `n` of them, or all if there are
-- fewer, and leaves the others in order; only if there is none, the pipe is not closed and `n` is not
-- 0 does it yield, with the pipe unchanged.
pub pipe_read_lem :
    (n : ℕ) (closed : Bool) (p : Pipe) (q : List ℕ)
    → Holds p q
    → ((q ≡ []) × (closed ≡ false) × (1 ≤ n) × (pipe_read n [] closed p ≡ yields [] p))
      ⊎ (p' : Pipe) × (pipe_read n [] closed p ≡ returns (take n q) p') × Holds p' (drop n q)
unfolding pipe_read
pipe_read_lem zero closed p q h = inr (p, refl, h)
pipe_read_lem (suc n) true p q h = inr (read_returns (suc n) [] true p q h refl)
pipe_read_lem (suc n) false p [] h = inl (refl, refl, omega arith, rw (no_bytes p h) refl)
pipe_read_lem (suc n) false p (x ∷ q) h =
    let (p', run, h') = read_returns n (x ∷ []) false (after_read p) q (read-Holds p x q h) refl in
    inr (
      p',
      rw (some_bytes p x q h)
          (ap (λ b. pipe_read n (b ∷ []) false (after_read p)) (first_byte p x q h) ∙ run),
      h',
    )

-- How a write that finds the pipe full goes on.
abbrev pub stopped : Bool → ℕ → Pipe → Progress ℕ
stopped true i p = returns i p
stopped false i p = yields i p

used : (p : Pipe) (q : List ℕ) → Holds p q → (p.p_wpos + 2 ^ 32 - p.p_rpos) % 2 ^ 32 ≡ length q
used p q h = omega (arith, h.positions, h.word, h.fits)

write_full :
    (b : ℕ) (bs : List ℕ) (i : ℕ) (closed : Bool) (p : Pipe) (q : List ℕ)
    → Holds p q
    → pipe_size < length q + 1
    → pipe_write (b ∷ bs) i closed p ≡ stopped closed i p
unfolding pipe_write
write_full b bs i true p q h full = rw (used p q h) (ground (arith))
write_full b bs i false p q h full = rw (used p q h) (ground (arith))

write_room :
    (b : ℕ) (bs : List ℕ) (i : ℕ) (closed : Bool) (p : Pipe) (q : List ℕ)
    → Holds p q
    → length q + 1 ≤ pipe_size
    → pipe_write (b ∷ bs) i closed p ≡ pipe_write bs (i + 1) closed (after_write b p)
unfolding pipe_write
write_room b bs i closed p q h room = rw (used p q h, not_full) refl
  where
    not_full : leb pipe_size (length q) ≡ false
    not_full = ground arith

-- A write of `bs` that starts with `i` bytes written ends in `p'`.
abbrev pub WrittenTo : List ℕ → ℕ → Bool → Pipe → List ℕ → Pipe → Type 0
WrittenTo bs i closed p q p' =
    ((length q + length bs ≤ pipe_size)
      × (pipe_write bs i closed p ≡ returns (i + length bs) p')
      × Holds p' (q ++ bs))
    ⊎ (pipe_size < length q + length bs)
      × (pipe_write bs i closed p ≡ stopped closed (i + (pipe_size - length q)) p')
      × Holds p' (q ++ take (pipe_size - length q) bs)

-- One byte more, in front.
written_first :
    (b : ℕ) (bs : List ℕ) (i : ℕ) (closed : Bool) (p : Pipe) (q : List ℕ) (p' : Pipe)
    → Holds p q
    → length q + 1 ≤ pipe_size
    → WrittenTo bs (i + 1) closed (after_write b p) (q ++ (b ∷ [])) p'
    → WrittenTo (b ∷ bs) i closed p q p'
written_first b bs i closed p q p' h room ends = elim ends [
  | inl (fits, run, hh) ↦ inl (
    omega (arith, longer),
    write_room b bs i closed p q h room ∙ run ∙ ap (λ n. returns n p') (omega arith),
    subst (Holds p') (append_one q b bs) hh,
  )
  | inr (over, run, hh) ↦ inr (
    omega (arith, longer),
    write_room b bs i closed p q h room
        ∙ run
        ∙ ap (λ n. stopped closed n p') (omega (arith, longer)),
    subst (Holds p')
        (append_one q b (take (pipe_size - length (q ++ (b ∷ []))) bs)
          ∙ ap (λ r. q ++ take r (b ∷ bs)) one_less)
        hh,
  )
]
  where
    longer : length (q ++ (b ∷ [])) ≡ length q + 1
    longer = length-append q (b ∷ []) ∙ omega arith

    one_less : suc (pipe_size - length (q ++ (b ∷ []))) ≡ pipe_size - length q
    one_less = omega (arith, longer)

-- A write to a pipe that holds the bytes `q` appends the bytes `bs` in order and returns their number
-- if they fit; otherwise it fills the pipe with the first of them, and then returns their number if the
-- pipe is closed and yields if not. The positions are below `2 ^ 32` throughout.
pub pipe_write_lem :
    (bs : List ℕ) (i : ℕ) (closed : Bool) (p : Pipe) (q : List ℕ)
    → Holds p q
    → p.p_wpos + length bs < 2 ^ 32
    → (p' : Pipe) × WrittenTo bs i closed p q p'
unfolding pipe_write
pipe_write_lem [] i closed p q h small = (
  p,
  inl (
    omega (arith, h.fits),
    ap (λ n. returns n p) (omega arith),
    subst (Holds p) (sym (append_nil q)) h,
  ),
)
pipe_write_lem (b ∷ bs) i closed p q h small = elim (lt_or_le pipe_size (length q + 1)) [
  | inl full ↦ (
    p,
    inr (
      omega arith,
      write_full b bs i closed p q h full ∙ ap (λ n. stopped closed n p) (omega arith),
      subst (λ r. Holds p (q ++ take r (b ∷ bs))) (sym (none_left full))
          (subst (Holds p) (sym (append_nil q)) h),
    ),
  )
  | inr room ↦
      let (p', ends) =
        pipe_write_lem bs (i + 1) closed (after_write b p) (q ++ (b ∷ []))
          (write-Holds p b q h (omega arith) (omega arith)) (omega arith) in
      (p', written_first b bs i closed p q p' h room ends)
]
  where
    none_left : pipe_size < length q + 1 → pipe_size - length q ≡ 0
    none_left full = omega arith
