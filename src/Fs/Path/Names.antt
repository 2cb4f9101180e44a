-- ===== src/Fs/Path/Names.antt =====
-- fs/fs.c: walk_path against a walk along the list of the names in the path.
use buaa_os_25spring.Prelude.{
  ℕ, zero, suc, ◌≤◌, ◌≡◌, refl, sym, ◌∙◌, ap, arith, Bool, true, false, not, Option, none, some,
  List, [], ◌∷◌, ◌++◌, leb, ◌==◌, if◌then◌else◌, length, Bool-cases, inl, inr,
}
use buaa_os_25spring.Exec.{Run, ok, fail, panic, e_not_found, e_bad_path}
use buaa_os_25spring.Fs.{Fs, FsCmd, s_root}
use buaa_os_25spring.Fs.File.{f_type}
use buaa_os_25spring.Fs.Dir.{dir_lookup}
use buaa_os_25spring.Fs.Path.{
  slash, skip_slash, take_name, after_name, Walked, found, absent, is_nil, after_lookup, enter,
  walk_from, walk_path,
}

-- The names in a path: the runs of bytes between slashes, without the empty ones.
abbrev pub add_name : List ℕ → List (List ℕ) → List (List ℕ)
add_name [] ns = ns
add_name (x ∷ xs) ns = (x ∷ xs) ∷ ns

abbrev pub names_from : List ℕ → List ℕ → List (List ℕ)
names_from w [] = add_name w []
names_from w (c ∷ cs) =
    let ended = names_from [] cs in
    let longer = names_from (w ++ (c ∷ [])) cs in if c == slash then add_name w ended else longer

abbrev pub names : List ℕ → List (List ℕ)
names = names_from []

-- The walk along the names: what a lookup that fails tells depends on whether its name is the last.
abbrev pub no_names : List (List ℕ) → Bool
no_names [] = true
no_names _ = false

abbrev pub looked : ℕ → List ℕ → Bool → (ℕ → FsCmd Walked) → Run Fs ℕ → Run Fs Walked
looked dir name last go (ok f s) = go f s
looked dir name last go (fail e_not_found s) =
    if last then ok (absent dir name) s else fail e_not_found s
looked dir name last go (fail e s) = fail e s
looked dir name last go panic = panic

abbrev pub walk_names : List (List ℕ) → Option ℕ → ℕ → FsCmd Walked
walk_names [] dir file s = ok (found dir file) s
walk_names (n ∷ ns) dir file s =
    if leb 128 (length n)
    then fail e_bad_path s
    else if not (s.cache (f_type file) == 1)
    then fail e_not_found s
    else looked file n (no_names ns) (walk_names ns (some file)) (dir_lookup file n s)

-- A path that does not begin with a slash.
abbrev pub NoSlash : List ℕ → Type 0
NoSlash [] = Unit {0}
NoSlash (c ∷ cs) = (c == slash) ≡ false

skip_slash-NoSlash : (p : List ℕ) → NoSlash (skip_slash p)
unfolding skip_slash
skip_slash-NoSlash [] = tt
skip_slash-NoSlash (c ∷ cs) = elim (Bool-cases (c == slash)) [
  | inl e ↦ rw e (skip_slash-NoSlash cs)
  | inr e ↦ rw e e
]

names-skip_slash : (p : List ℕ) → names (skip_slash p) ≡ names p
unfolding skip_slash
names-skip_slash [] = refl
names-skip_slash (c ∷ cs) = elim (Bool-cases (c == slash)) [
  | inl e ↦ rw e (names-skip_slash cs)
  | inr e ↦ rw (e, e) refl
]

length-skip_slash : (p : List ℕ) → length (skip_slash p) ≤ length p
unfolding skip_slash
length-skip_slash [] = omega arith
length-skip_slash (c ∷ cs) = elim (Bool-cases (c == slash)) [
  | inl e ↦ rw e (omega (arith, length-skip_slash cs))
  | inr e ↦ rw e (omega arith)
]

length-after_name : (p : List ℕ) → length (after_name p) ≤ length p
unfolding after_name
length-after_name [] = omega arith
length-after_name (c ∷ cs) = elim (Bool-cases (c == slash)) [
  | inl e ↦ rw e (omega arith)
  | inr e ↦ rw e (omega (arith, length-after_name cs))
]

append_assoc : (w : List ℕ) (c : ℕ) (t : List ℕ) → (w ++ (c ∷ [])) ++ t ≡ w ++ (c ∷ t)
append_assoc [] c t = refl
append_assoc (x ∷ w) c t = ap (λ l. x ∷ l) (append_assoc w c t)

-- A word that has begun goes on to the next slash.
append_nil : (w : List ℕ) → w ++ [] ≡ w
append_nil [] = refl
append_nil (x ∷ w) = ap (λ l. x ∷ l) (append_nil w)

names_from_lem :
    (x : ℕ) (w cs : List ℕ)
    → names_from (x ∷ w) cs ≡ (x ∷ w ++ take_name cs) ∷ names (after_name cs)
unfolding take_name after_name
names_from_lem x w [] = ap (λ l. (x ∷ l) ∷ []) (sym (append_nil w))
names_from_lem x w (c ∷ cs) = elim (Bool-cases (c == slash)) [
  | inl e ↦ rw (e, e, append_nil w) refl
  | inr e ↦ rw e (
      names_from_lem x (w ++ (c ∷ [])) cs
      ∙ ap (λ l. (x ∷ l) ∷ names (after_name cs)) (append_assoc w c (take_name cs)))
]

-- The length of what is left after the first name, and the names of it.
rest_shorter :
    (c : ℕ) (cs : List ℕ)
    → (c == slash) ≡ false
    → length (skip_slash (after_name (c ∷ cs))) ≤ length cs
unfolding after_name
rest_shorter c cs e = rw e (omega (arith, length-skip_slash (after_name cs), length-after_name cs))

names-first :
    (c : ℕ) (cs : List ℕ)
    → (c == slash) ≡ false
    → names (c ∷ cs) ≡ take_name (c ∷ cs) ∷ names (skip_slash (after_name (c ∷ cs)))
unfolding take_name after_name
names-first c cs e =
    rw (names-skip_slash (if c == slash then c ∷ cs else after_name cs), e) (names_from_lem c [] cs)

no_names-NoSlash : (p : List ℕ) → NoSlash p → is_nil p ≡ no_names (names p)
no_names-NoSlash [] h = refl
no_names-NoSlash (c ∷ cs) h = rw (names-first c cs h) refl

-- A lookup is followed up alike.
same_after :
    (dir : ℕ) (name rest : List ℕ) (last : Bool) (go go' : ℕ → FsCmd Walked)
    → is_nil rest ≡ last
    → ((f : ℕ) (s : Fs) → go f s ≡ go' f s)
    → (r : Run Fs ℕ) → after_lookup dir name rest go r ≡ looked dir name last go' r
same_after dir name rest last go go' e h (ok f s) = h f s
same_after dir name rest last go go' e h (fail e_not_found s) = rw e refl
same_after dir name rest last go go' e h (fail x s) = refl
same_after dir name rest last go go' e h panic = refl

walk_from_nil :
    (fuel : ℕ) (dir : Option ℕ) (file : ℕ) (s : Fs)
    → walk_from fuel [] dir file s ≡ ok (found dir file) s
unfolding walk_from
walk_from_nil fuel dir file s = refl

walk_from-suc :
    (fuel c : ℕ) (cs : List ℕ) (dir : Option ℕ) (file : ℕ) (s : Fs)
    → walk_from (suc fuel) (c ∷ cs) dir file s
      ≡ enter
          (take_name (c ∷ cs))
          (skip_slash (after_name (c ∷ cs)))
          file
          (λ f. walk_from fuel (skip_slash (after_name (c ∷ cs))) (some file) f)
          s
unfolding walk_from
walk_from-suc fuel c cs dir file s = refl

-- With fuel for every byte, the loop walks along the names.
walk_from-walk_names :
    (fuel : ℕ) (p : List ℕ) (dir : Option ℕ) (file : ℕ) (s : Fs)
    → NoSlash p
    → length p ≤ fuel
    → walk_from fuel p dir file s ≡ walk_names (names p) dir file s
walk_from-walk_names fuel [] dir file s h le = walk_from_nil fuel dir file s
walk_from-walk_names zero (c ∷ cs) dir file s h le = absurd (omega arith)
walk_from-walk_names (suc fuel) (c ∷ cs) dir file s h le =
    walk_from-suc fuel c cs dir file s
    ∙ ap
        (λ r.
          if leb 128 (length (take_name (c ∷ cs)))
          then fail e_bad_path s
          else if not (s.cache (f_type file) == 1)
          then fail e_not_found s
          else r)
        (same_after file (take_name (c ∷ cs)) rest (no_names (names rest))
          (walk_from fuel rest (some file)) (walk_names (names rest) (some file))
          (no_names-NoSlash rest (skip_slash-NoSlash (after_name (c ∷ cs))))
          (λ f u.
            walk_from-walk_names fuel rest (some file) f u
              (skip_slash-NoSlash (after_name (c ∷ cs))) (omega (arith, rest_shorter c cs h)))
          (dir_lookup file (take_name (c ∷ cs)) s))
    ∙ sym (ap (λ l. walk_names l dir file s) (names-first c cs h))
  where
    rest : List ℕ
    rest = skip_slash (after_name (c ∷ cs))

-- Fuel for every byte of the path is enough: more of it changes nothing, for any path that does not
-- begin with a slash.
pub walk_from_enough :
    (fuel : ℕ) (p : List ℕ) (dir : Option ℕ) (file : ℕ) (s : Fs)
    → NoSlash p
    → length p ≤ fuel
    → walk_from fuel p dir file s ≡ walk_from (length p) p dir file s
walk_from_enough fuel p dir file s h le =
    walk_from-walk_names fuel p dir file s h le
    ∙ sym (walk_from-walk_names (length p) p dir file s h (omega arith))

-- `walk_path` goes from the root along the list of the names in the path, whatever the number of
-- slashes before, between and after them: each name must have less than 128 bytes and the file
-- reached so far must be a directory; a name that is not found is reported with its directory when it
-- is the last and is the error E_NOT_FOUND when it is not, and every other error of `dir_lookup` is
-- passed on.
pub walk_path_lem :
    (path : List ℕ) (s : Fs) → walk_path path s ≡ walk_names (names path) none s_root s
unfolding walk_path
walk_path_lem path s =
    walk_from-walk_names (length path) (skip_slash path) none s_root s (skip_slash-NoSlash path)
      (length-skip_slash path)
    ∙ ap (λ l. walk_names l none s_root s) (names-skip_slash path)
