-- ===== src/Rpath.antt =====
-- parse_rpath of user/lib/file.c: a path relative to the working directory, as an absolute path.
-- The strings stand in a memory of bytes; `rpath` is what `syscall_get_rpath` copies. The loops run on
-- fuel, and `none` is a loop that has not ended or a pointer below the memory.
mod Name
mod Tests
use buaa_os_25spring.Prelude.{
  ℕ, zero, suc, ◌+◌, ◌-◌, Bool, true, false, not, ◌&&◌, Option, none, some, List, [], ◌∷◌, ltb,
  ◌==◌, if◌then◌else◌,
}
use buaa_os_25spring.Str.{Mem, write, strcpy}

-- `'/'` and `'.'`
abbrev pub slash : ℕ
slash = 47

abbrev pub dot : ℕ
dot = 46

-- A string and its end, at `a`.
abbrev pub write_text : ℕ → List ℕ → Mem → Mem
write_text a [] m = write m a 0
write_text a (x ∷ xs) m = write_text (a + 1) xs (write m a x)

-- `while (*p != '\0') p++;`
unfoldable pub to_end : ℕ → ℕ → Mem → Option ℕ
to_end zero p m = none
to_end (suc fuel) p m = let rest = to_end fuel (p + 1) m in if m p == 0 then some p else rest

-- `while (*p != '/') p--;`
unfoldable pub to_slash : ℕ → Mem → Option ℕ
to_slash zero m = if m 0 == slash then some 0 else none
to_slash (suc p) m = let rest = to_slash p m in if m (suc p) == slash then some (suc p) else rest

-- The removal of the last name, for `..`, which yields the new `p`.
unfoldable pub to_parent : ℕ → ℕ → Mem → Option (ℕ × Mem)
to_parent start p m =
    if ltb 1 (p - start)
    then (let p1 = if m p == 0 then p - 1 else p in
        let p2 = if m p1 == slash then p1 - 1 else p1 in
        elim (to_slash p2 m) [
          | none ↦ none
          | some q ↦ let p3 = if q == start then q + 1 else q in some (p3, write m p3 0)
        ])
    else some (p, m)

-- The loop over the dots at the front of `old`, from `k` on; it yields k, p and the memory.
unfoldable pub skip_dots : ℕ → ℕ → ℕ → ℕ → ℕ → Mem → Option (ℕ × ℕ × Mem)
skip_dots zero old start k p m = none
skip_dots (suc fuel) old start k p m =
    let one = skip_dots fuel old start (if m (old + k + 1) == 0 then k + 1 else k + 2) p m in
    if not (m (old + k) == dot)
    then some (k, p, m)
    else if m (old + k + 1) == dot
    then elim (to_parent start p m) [
      | none ↦ none
      | some (q, n) ↦ skip_dots fuel old start (if n (old + k + 2) == 0 then k + 2 else k + 3) q n
    ]
    else one

-- The loop that appends the rest of `old`, and the end of the string.
unfoldable pub append_rest : ℕ → ℕ → ℕ → Mem → Option Mem
append_rest zero from p m = none
append_rest (suc fuel) from p m =
    let rest = append_rest fuel (from + 1) (p + 1) (write m p (m from)) in
    if m from == 0 then some (write m p 0) else rest

-- A slash between the directory and the rest, where there is none.
abbrev pub join : ℕ → ℕ → Mem → ℕ × Mem
join from p m =
    if not (m from == 0) && not (m (p - 1) == slash) then (p + 1, write m p slash) else (p, m)

unfoldable pub parse_rpath : ℕ → ℕ → ℕ → List ℕ → Mem → Option Mem
parse_rpath fuel old new rpath m =
    if m old == slash
    then strcpy fuel new old m
    else (let m1 = write_text new rpath m in
        elim (to_end fuel new m1) [
          | none ↦ none
          | some p ↦ elim (skip_dots fuel old new 0 p m1) [
            | none ↦ none
            | some (k, q, m2) ↦ let (r, m3) = join (old + k) q m2 in append_rest fuel (old + k) r m3
          ]
        ])
