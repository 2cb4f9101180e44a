-- ===== src/Serve/Count.antt =====
-- fs/serv.c: what one reply and no reply mean, and the steps that keep count of them.
use buaa_os_25spring.Prelude.{
  ℕ, ◌≡◌, ◌⊎◌, inl, inr, refl, ap, Bool, true, false, List, ◌∷◌, leb, if◌then◌else◌, Bool-cases,
}
use buaa_os_25spring.Exec.{Error, Run, ok, fail, panic, Cmd, and_then, get, ◌>>=◌}
use buaa_os_25spring.Fs.{Fs}
use buaa_os_25spring.Serve.{
  Server, ServerCmd, Reply, no_page, ipc_send, attempted, or_reply, open_lookup, with_open, maxopen,
}

-- A run that returns and has the property, or panics; it returns no error.
abbrev pub Returns : {S A : Type 0} → (A → S → Type 0) → Run S A → Type 0
Returns P (ok a s) = P a s
Returns P (fail e s) = ⊥
Returns P panic = Unit {0}

pub Returns-and_then :
    {S A B : Type 0} (P : A → S → Type 0) (Q : B → S → Type 0) (r : Run S A) (f : A → Cmd S B)
    → Returns P r
    → ((a : A) (s : S) → P a s → Returns Q (f a s))
    → Returns Q (and_then r f)
Returns-and_then P Q (ok a s) f h k = k a s h
Returns-and_then P Q (fail e s) f h k = h
Returns-and_then P Q panic f h k = tt

pub Returns-if :
    {S A : Type 0} (P : A → S → Type 0) (c : Bool) (m k : Cmd S A) (s : S)
    → Returns P (m s)
    → Returns P (k s)
    → Returns P ((if c then m else k) s)
Returns-if P true m k s h h' = h
Returns-if P false m k s h h' = h'

-- Nothing has been sent.
abbrev pub Quiet : {A : Type 0} → List Reply → A → Server → Type 0
Quiet l a t = t.sent ≡ l

-- One reply has been sent, to `whom`.
abbrev pub Replied : ℕ → List Reply → Unit {0} → Server → Type 0
Replied whom l a t = (r : Reply) × (t.sent ≡ r ∷ l) × (r.to ≡ whom)

pub attempted-Quiet :
    {A : Type 0} (r : Run Fs A) (s : Server) → Returns (Quiet s.sent) (attempted r s)
attempted-Quiet (ok a t) s = refl
attempted-Quiet (fail e t) s = refl
attempted-Quiet panic s = tt

pub or_reply-Replied :
    {A : Type 0} (whom : ℕ) (l : List Reply) (r : Error ⊎ A) (next : A → ServerCmd (Unit {0}))
    (s : Server)
    → s.sent ≡ l
    → ((a : A) → Returns (Replied whom l) (next a s))
    → Returns (Replied whom l) (or_reply whom r next s)
or_reply-Replied whom l (inl e) next s h k = (
  record { to = whom; value = inl e; page = no_page },
  ap (λ m. record { to = whom; value = inl e; page = no_page } ∷ m) h,
  refl,
)
or_reply-Replied whom l (inr a) next s h k = k a

pub send-Replied :
    (whom : ℕ) (l : List Reply) (v : Error ⊎ Unit {0}) (p : _) (s : Server)
    → s.sent ≡ l
    → Returns (Replied whom l) (ipc_send whom v p s)
send-Replied whom l v p s h = (
  record { to = whom; value = v; page = p },
  ap (λ m. record { to = whom; value = v; page = p } ∷ m) h,
  refl,
)

open_lookup-Quiet : (fileid : ℕ) (s : Server) → Returns (Quiet s.sent) (open_lookup fileid s)
unfolding open_lookup
open_lookup-Quiet fileid s = elim (Bool-cases (leb maxopen fileid)) [
  | inl e ↦ rw e refl
  | inr e ↦ elim (Bool-cases (leb (s.pageref (s.opentab fileid).o_ff) 1)) [
    | inl z ↦ rw (e, z) refl
    | inr z ↦ rw (e, z) refl
  ]
]

pub with_open-Replied :
    (whom fileid : ℕ) (next : ℕ → ServerCmd (Unit {0})) (s : Server)
    → ((f : ℕ) (t : Server) → t.sent ≡ s.sent → Returns (Replied whom s.sent) (next f t))
    → Returns (Replied whom s.sent) (with_open whom fileid next s)
with_open-Replied whom fileid next s k =
    Returns-and_then (Quiet s.sent) (Replied whom s.sent) (open_lookup fileid s)
      (λ o. or_reply whom o (λ i. get >>= λ u. next (u.opentab i).o_file))
      (open_lookup-Quiet fileid s)
      (λ o t same.
        or_reply-Replied whom s.sent o (λ i. get >>= λ u. next (u.opentab i).o_file) t same
          (λ i. k (t.opentab i).o_file t same))
