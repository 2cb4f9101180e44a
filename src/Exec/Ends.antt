-- ===== src/Exec/Ends.antt =====
-- Total correctness of a run: no panic, and a postcondition for either way to return.
use buaa_os_25spring.Exec.{Run, ok, fail, panic, Error, Cmd, and_then}

abbrev pub Ends : {S A : Type 0} → (A → S → Type 0) → (Error → S → Type 0) → Run S A → Type 0
Ends P E (ok a s) = P a s
Ends P E (fail e s) = E e s
Ends P E panic = ⊥

module _ {S A B : Type 0} where
  pub bind :
      (P : A → S → Type 0) (Q : B → S → Type 0) (E : Error → S → Type 0) (r : Run S A)
      (f : A → Cmd S B)
      → Ends P E r
      → ((a : A) (s : S) → P a s → Ends Q E (f a s))
      → Ends Q E (and_then r f)
  bind P Q E (ok a s) f h k = k a s h
  bind P Q E (fail e s) f h k = h
  bind P Q E panic f h k = h

-- A weaker postcondition on errors.
pub allow_error :
    {S A : Type 0} (P : A → S → Type 0) {E : Error → S → Type 0} (F : Error → S → Type 0)
    (r : Run S A)
    → Ends P E r
    → ((e : Error) (s : S) → E e s → F e s)
    → Ends P F r
allow_error P F (ok a s) h k = h
allow_error P F (fail e s) h k = k e s h
allow_error P F panic h k = h

-- Weaker postconditions for both ways to return.
pub weaken :
    {S A : Type 0} (P Q : A → S → Type 0) (E F : Error → S → Type 0) (r : Run S A)
    → Ends P E r
    → ((a : A) (s : S) → P a s → Q a s)
    → ((e : Error) (s : S) → E e s → F e s)
    → Ends Q F r
weaken P Q E F (ok a s) h k l = k a s h
weaken P Q E F (fail e s) h k l = l e s h
weaken P Q E F panic h k l = h
