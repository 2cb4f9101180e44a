-- ===== src/Rpath/Name.antt =====
-- parse_rpath of a name without a leading dot or slash: the name in the working directory.
use buaa_os_25spring.Prelude.{
  ℕ, zero, suc, ◌+◌, ◌-◌, ◌≤◌, ◌<◌, ◌≡◌, ◌≢◌, ◌⊎◌, inl, inr, refl, sym, ap, ◌∙◌, false, some, List,
  [], ◌∷◌, ◌++◌, arith, length, has, ◌==◌, ==_self, ==_ne, if◌then◌else◌, ℕ_discrete, Bool-cases,
}
use mathlib.Core.Path.{subst}
use buaa_os_25spring.Str.{Mem, write, strcpy}
use buaa_os_25spring.Str.Copy.{Outside}
use buaa_os_25spring.Str.Text.{HoldsText, HoldsText-same, strcpy_lem}
use buaa_os_25spring.Rpath.{
  slash, dot, write_text, to_end, skip_dots, append_rest, join, parse_rpath,
}

write_other : (m : Mem) (a v b : ℕ) → b ≢ a → write m a v b ≡ m b
write_other m a v b n = rw (==_ne b a n) refl

append_rest-strcpy : (fuel from p : ℕ) (m : Mem) → append_rest fuel from p m ≡ strcpy fuel p from m
unfolding append_rest strcpy
append_rest-strcpy zero from p m = refl
append_rest-strcpy (suc fuel) from p m = elim (ℕ_discrete (m from) 0) [
  | yes z ↦ rw z refl
  | no n ↦ rw (==_ne (m from) 0 n) (append_rest-strcpy fuel (from + 1) (p + 1) (write m p (m from)))
]

write_text-Outside :
    (a : ℕ) (xs : List ℕ) (m : Mem) (b : ℕ)
    → Outside (length xs + 1) a b
    → write_text a xs m b ≡ m b
write_text-Outside a [] m b o = write_other m a 0 b (away o)
  where
    away : Outside 1 a b → b ≢ a
    away (inl h) = λ e. absurd (omega (arith, h, e))
    away (inr h) = λ e. absurd (omega (arith, h, e))
write_text-Outside a (x ∷ xs) m b o =
    write_text-Outside (a + 1) xs (write m a x) b (later o) ∙ write_other m a x b (away o)
  where
    away : Outside (suc (length xs) + 1) a b → b ≢ a
    away (inl h) = λ e. absurd (omega (arith, h, e))
    away (inr h) = λ e. absurd (omega (arith, h, e))

    later : Outside (suc (length xs) + 1) a b → Outside (length xs + 1) (a + 1) b
    later (inl h) = inl (omega arith)
    later (inr h) = inr (omega arith)

write_text-HoldsText :
    (a : ℕ) (xs : List ℕ) (m : Mem) → has 0 xs ≡ false → HoldsText (write_text a xs m) a xs
write_text-HoldsText a [] m n = rw (==_self a) refl
write_text-HoldsText a (x ∷ xs) m n = (
  write_text-Outside (a + 1) xs (write m a x) a (inl (omega arith)) ∙ rw (==_self a) refl,
  (λ z. absurd (ground (arith, n, z))),
  write_text-HoldsText (a + 1) xs (write m a x) (ground (arith, n)),
)

to_end_lem :
    (fuel s : ℕ) (m : Mem) (xs : List ℕ)
    → HoldsText m s xs
    → length xs < fuel
    → to_end fuel s m ≡ some (s + length xs)
unfolding to_end
to_end_lem zero s m xs h f = absurd (omega arith)
to_end_lem (suc fuel) s m [] h f = rw h (ap some (omega arith))
to_end_lem (suc fuel) s m (x ∷ xs) (e, ne, h) f =
    rw (e, ==_ne x 0 ne, to_end_lem fuel (s + 1) m xs h (omega arith)) (ap some (omega arith))

abbrev pub last_of : ℕ → List ℕ → ℕ
last_of x [] = x
last_of x (y ∷ ys) = last_of y ys

last_byte :
    (s : ℕ) (m : Mem) (x : ℕ) (xs : List ℕ)
    → HoldsText m s (x ∷ xs)
    → m (s + length xs) ≡ last_of x xs
last_byte s m x [] (e, ne, h) = ap m (omega arith) ∙ e
last_byte s m x (y ∷ ys) (e, ne, h) = ap m (omega arith) ∙ last_byte (s + 1) m y ys h

-- A string that is continued at its end.
HoldsText-append :
    (s : ℕ) (m m' : Mem) (xs zs : List ℕ)
    → HoldsText m s xs
    → ((a : ℕ) → s ≤ a → a < s + length xs → m' a ≡ m a)
    → HoldsText m' (s + length xs) zs
    → HoldsText m' s (xs ++ zs)
HoldsText-append s m m' [] zs h same t = rw (plus_zero s) t
  where
    plus_zero : (n : ℕ) → n ≡ n + 0
    plus_zero n = omega arith
HoldsText-append s m m' (x ∷ xs) zs (e, ne, h) same t = (
  same s (omega arith) (omega arith) ∙ e,
  ne,
  HoldsText-append (s + 1) m m' xs zs h (λ a lo hi. same a (omega arith) (omega arith))
      (rw (assoc s (length xs)) t),
)
  where
    assoc : (n k : ℕ) → n + 1 + k ≡ n + suc k
    assoc n k = omega arith

-- The slash between a directory and a name.
abbrev pub glue : ℕ → List ℕ
glue last = if last == slash then [] else slash ∷ []

skip_none :
    (fuel old start y p : ℕ) (m : Mem)
    → 0 < fuel
    → m old ≡ y
    → y ≢ dot
    → skip_dots fuel old start 0 p m ≡ some (0, p, m)
unfolding skip_dots
skip_none zero old start y p m f e n = absurd (omega arith)
skip_none (suc fuel) old start y p m f e n = rw (plus_none old, e, ==_ne y dot n) refl
  where
    plus_none : (k : ℕ) → k + 0 ≡ k
    plus_none k = omega arith

join_lem :
    (from p y l : ℕ) (m : Mem)
    → m from ≡ y
    → y ≢ 0
    → m (p - 1) ≡ l
    → join from p m ≡ (if l == slash then (p, m) else (p + 1, write m p slash))
join_lem from p y l m e n f = elim (Bool-cases (l == slash)) [
  | inl s ↦ rw (e, ==_ne y 0 n, f, s) refl
  | inr s ↦ rw (e, ==_ne y 0 n, f, s) refl
]

module _ (fuel old new d : ℕ) (ds : List ℕ) (y : ℕ) (ys : List ℕ) (m : Mem)
    (text : HoldsText m old (y ∷ ys)) (no_slash : y ≢ slash) (no_dot : y ≢ dot)
    (dir : has 0 (d ∷ ds) ≡ false)
    (apart : (new + length (d ∷ ds) + 1 + length (y ∷ ys) < old) ⊎ (old + length (y ∷ ys) < new))
    (long : length (d ∷ ds) + length (y ∷ ys) < fuel) where
  abbrev m1 : Mem
  m1 = write_text new (d ∷ ds) m

  abbrev end : ℕ
  end = new + length (d ∷ ds)

  dir_text : HoldsText m1 new (d ∷ ds)
  dir_text = write_text-HoldsText new (d ∷ ds) m dir

  old_kept : HoldsText m1 old (y ∷ ys)
  old_kept =
      HoldsText-same (y ∷ ys) m m1 old
        (λ a lo hi. write_text-Outside new (d ∷ ds) m a (outside a lo hi)) text
    where
      outside : (a : ℕ) → old ≤ a → a ≤ old + length (y ∷ ys) → Outside (length (d ∷ ds) + 1) new a
      outside a lo hi = elim apart [ inl q ↦ inr (omega arith) | inr q ↦ inl (omega arith) ]

  -- The name is copied to `r` in a memory `n` that is `m1` but at the end of the directory.
  copied :
      (r : ℕ) (n : Mem)
      → end ≤ r
      → r ≤ end + 1
      → ((a : ℕ) → a ≢ end → n a ≡ m1 a)
      → (m' : Mem) × (append_rest fuel old r n ≡ some m')
        × HoldsText m' r (y ∷ ys)
        × ((a : ℕ) → a < r → m' a ≡ n a)
  copied r n lo hi same =
      let (m', eq, t, out) =
        strcpy_lem fuel r old n (y ∷ ys)
          (HoldsText-same (y ∷ ys) m1 n old (λ a l h. same a (away a l h)) old_kept)
          (elim apart [ inl q ↦ inl (omega arith) | inr q ↦ inr (omega arith) ]) (omega arith) in
      (m', append_rest-strcpy fuel old r n ∙ eq, t, λ a h. out a (inl h))
    where
      away : (a : ℕ) → old ≤ a → a ≤ old + length (y ∷ ys) → a ≢ end
      away a l h e = elim apart [
        | inl q ↦ absurd (omega (arith, q, l, h, e))
        | inr q ↦ absurd (omega (arith, q, l, h, e))
      ]

  Result : ℕ × Mem → Type 0
  Result j =
      (m' : Mem) × (append_rest fuel old j.0 j.1 ≡ some m')
      × HoldsText m' new ((d ∷ ds) ++ (glue (last_of d ds) ++ (y ∷ ys)))

  appended : Result (join old end m1)
  unfolding Result
  appended = elim (Bool-cases (last_of d ds == slash)) [
    | inl s ↦
        subst Result
          (sym (join_lem old end y (last_of d ds) m1 old_kept.0 old_kept.1 at_last ∙ rw s refl))
          (let (m', eq, t, out) = copied end m1 (omega arith) (omega arith) (λ a n. refl) in
            (
              m',
              eq,
              rw s (HoldsText-append new m1 m' (d ∷ ds) (y ∷ ys) dir_text (λ a lo hi. out a hi) t),
            ))
    | inr s ↦
        subst Result
          (sym (join_lem old end y (last_of d ds) m1 old_kept.0 old_kept.1 at_last ∙ rw s refl))
          (let (m', eq, t, out) =
              copied (end + 1) (write m1 end slash) (omega arith) (omega arith)
                (λ a n. write_other m1 end slash a n) in
            (
              m',
              eq,
              rw s (
                  HoldsText-append new m1 m' (d ∷ ds) (slash ∷ (y ∷ ys)) dir_text
                    (λ a lo hi.
                      out a (omega arith) ∙ write_other m1 end slash a (λ e. absurd (omega arith)))
                    (
                      out end (omega arith) ∙ rw (==_self end) refl,
                      (λ z. absurd (ground arith)),
                      t,
                    )),
            ))
  ]
    where
      at_last : m1 (end - 1) ≡ last_of d ds
      at_last = ap m1 (omega arith) ∙ last_byte new m1 d ds dir_text

  parsed :
      (m' : Mem) × (parse_rpath fuel old new (d ∷ ds) m ≡ some m')
      × HoldsText m' new ((d ∷ ds) ++ (glue (last_of d ds) ++ (y ∷ ys)))
  unfolding parse_rpath Result
  parsed =
      let (m', eq, t) = appended in
      (
        m',
        rw
            (
              parse_rpath,
              text.0,
              ==_ne y slash no_slash,
              to_end_lem fuel new m1 (d ∷ ds) dir_text (omega arith),
              skip_none fuel old new y end m1 (omega arith) old_kept.0 no_dot,
              plus_none old,
            )
            eq,
        t,
      )
    where
      plus_none : (k : ℕ) → k + 0 ≡ k
      plus_none k = omega arith

-- parse_rpath of a path that starts with neither a slash nor a dot writes the working directory, a
-- slash unless the directory ends in one, and the path. The directory is not empty and has no byte
-- 0, the two strings do not overlap, and the fuel is above the sum of their lengths.
pub parse_rpath_lem :
    (fuel old new d : ℕ) (ds : List ℕ) (y : ℕ) (ys : List ℕ) (m : Mem)
    → HoldsText m old (y ∷ ys)
    → y ≢ slash
    → y ≢ dot
    → has 0 (d ∷ ds) ≡ false
    → (new + length (d ∷ ds) + 1 + length (y ∷ ys) < old) ⊎ (old + length (y ∷ ys) < new)
    → length (d ∷ ds) + length (y ∷ ys) < fuel
    → (m' : Mem) × (parse_rpath fuel old new (d ∷ ds) m ≡ some m')
      × HoldsText m' new ((d ∷ ds) ++ (glue (last_of d ds) ++ (y ∷ ys)))
parse_rpath_lem fuel old new d ds y ys m text no_slash no_dot dir apart long =
    parsed fuel old new d ds y ys m text no_slash no_dot dir apart long
