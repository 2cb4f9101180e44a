-- ===== src/Print.antt =====
-- lib/print.c: formatted output. What is passed to `out` is collected in order. A character is its
-- code, and a machine word its 32-bit pattern, so that `int` and `long` are the same.
pub mod Buffer
pub mod Layout
pub mod Number
mod Tests
use buaa_os_25spring.Prelude.{
  ℕ, zero, suc, ◌+◌, ◌-◌, ◌*◌, ◌/◌, ◌%◌, ◌^◌, Bool, true, false, not, ◌&&◌, ◌||◌, Option, none,
  some, List, [], ◌∷◌, ◌++◌, length, leb, ltb, ◌==◌, if◌then◌else◌,
}

abbrev pub Buf : Type 0
Buf = ℕ → ℕ

abbrev pub put : Buf → ℕ → ℕ → Buf
put b i v j = if j == i then v else b j

-- The first `n` characters of a buffer from `i` on.
abbrev pub bytes : ℕ → ℕ → Buf → List ℕ
bytes zero i b = []
bytes (suc n) i b = b i ∷ bytes n (i + 1) b

-- The character of a digit.
unfoldable pub digit : Bool → ℕ → ℕ
digit upcase t = if leb t 9 then 48 + t else if upcase then 65 + t - 10 else 97 + t - 10

-- The loop that prints the digits from the lowest on: where it ends, and the buffer.
unfoldable pub digits_loop : ℕ → ℕ → Bool → ℕ → ℕ → Buf → ℕ × Buf
digits_loop zero base upcase u p b = (p, b)
digits_loop (suc fuel) base upcase u p b =
    let new = put b p (digit upcase (u % base)) in
    let rest = digits_loop fuel base upcase (u / base) (p + 1) new in
    if u / base == 0 then (p + 1, new) else rest

-- `n` padding characters from `i` on.
unfoldable pub pad_loop : ℕ → ℕ → ℕ → Buf → Buf
pad_loop zero i c b = b
pad_loop (suc n) i c b = pad_loop n (i + 1) c (put b i c)

-- The loop that reverses the characters from `first` to `last`.
unfoldable pub swap_loop : ℕ → ℕ → ℕ → Buf → Buf
swap_loop zero first last b = b
swap_loop (suc fuel) first last b =
    let rest = swap_loop fuel (first + 1) (last - 1) (put (put b first (b last)) last (b first)) in
    if ltb first last then rest else b

abbrev pub at_least : ℕ → ℕ → ℕ
at_least width n = if ltb width n then n else width

-- `print_num` after the digits and the sign are in the buffer, `n` characters together.
unfoldable pub pad_number : Bool → ℕ → Bool → ℕ → ℕ → Buf → Buf
unfolding pad_loop
pad_number neg length ladjust padc n b =
    let c = if ladjust then 32 else padc in
    if neg && not ladjust && c == 48
    then put (pad_loop (length - n) (n - 1) c b) (length - 1) 45
    else pad_loop (length - n) n c b

-- The sign, where there is one.
unfoldable pub put_sign : Bool → ℕ × Buf → ℕ × Buf
put_sign neg (p, b) = if neg then (p + 1, put b p 45) else (p, b)

unfoldable pub finish_number : Bool → ℕ → Bool → ℕ → ℕ × Buf → List ℕ
unfolding pad_number swap_loop
finish_number neg width ladjust padc (n, b) =
    let length = at_least width n in
    let last = if ladjust then n - 1 else length - 1 in
    bytes length 0 (swap_loop last 0 last (pad_number neg length ladjust padc n b))

unfoldable pub print_num : ℕ → ℕ → Bool → ℕ → Bool → ℕ → Bool → List ℕ
unfolding digits_loop put_sign finish_number
print_num u base neg width ladjust padc upcase =
    finish_number neg width ladjust padc (put_sign neg (digits_loop 32 base upcase u 0 (λ i. 0)))

-- `n` times a character.
abbrev pub repeat : ℕ → ℕ → List ℕ
repeat zero c = []
repeat (suc n) c = c ∷ repeat n c

unfoldable pub print_char : ℕ → ℕ → Bool → List ℕ
print_char c width ladjust =
    let length = at_least width 1 in
    if ladjust then c ∷ repeat (length - 1) 32 else repeat (length - 1) 32 ++ (c ∷ [])

unfoldable pub print_str : List ℕ → ℕ → Bool → List ℕ
print_str s width ladjust =
    let n = at_least width (length s) - length s in
    if ladjust then s ++ repeat n 32 else repeat n 32 ++ s

-- An argument: a word, or a string by its characters.
pub data Arg : Type 0 where
  word : ℕ → Arg
  text : List ℕ → Arg

-- `va_arg`. Past the last argument, or at one of the other kind, the behaviour is undefined: none.
abbrev pub Taken : Type 0
Taken = Option (List ℕ × List Arg)

abbrev pub with_word : List Arg → (ℕ → List ℕ) → Taken
with_word (word v ∷ args) f = some (f v, args)
with_word _ f = none

-- `print_num` has a buffer of `length + 70` bytes, a number of the type `int`.
abbrev pub with_number : ℕ → List Arg → (ℕ → List ℕ) → Taken
with_number width args f = if leb (2 ^ 31 - 70) width then none else with_word args f

abbrev pub with_text : List Arg → (List ℕ → List ℕ) → Taken
with_text (text s ∷ args) f = some (f s, args)
with_text _ f = none

-- A signed number: whether it is negative, and what is printed then.
unfoldable pub print_signed : ℕ → ℕ → Bool → ℕ → List ℕ
unfolding print_num
print_signed num width ladjust padc =
    if leb (2 ^ 31) num
    then print_num ((2 ^ 32 - num) % 2 ^ 32) 10 true width ladjust padc false
    else print_num num 10 false width ladjust padc false

-- The `switch` of `vprintfmt`; a character that is no conversion is printed.
unfoldable pub convert : ℕ → ℕ → Bool → ℕ → List Arg → Taken
unfolding print_num print_signed print_char print_str
convert c width ladjust padc args =
    if c == 98
    then with_number width args (λ u. print_num u 2 false width ladjust padc false)
    else if c == 100 || c == 68
    then with_number width args (λ u. print_signed u width ladjust padc)
    else if c == 111 || c == 79
    then with_number width args (λ u. print_num u 8 false width ladjust padc false)
    else if c == 117 || c == 85
    then with_number width args (λ u. print_num u 10 false width ladjust padc false)
    else if c == 120
    then with_number width args (λ u. print_num u 16 false width ladjust padc false)
    else if c == 88
    then with_number width args (λ u. print_num u 16 false width ladjust padc true)
    else if c == 99
    then with_word args (λ u. print_char (u % 256) width ladjust)
    else if c == 115
    then with_text args (λ s. print_str s width ladjust)
    else some (c ∷ [], args)

-- The characters before the next '%', and those from it on.
unfoldable pub before_percent : List ℕ → List ℕ
before_percent [] = []
before_percent (c ∷ cs) = let rest = before_percent cs in if c == 37 then [] else c ∷ rest

unfoldable pub from_percent : List ℕ → List ℕ
from_percent [] = []
from_percent (c ∷ cs) = let rest = from_percent cs in if c == 37 then c ∷ cs else rest

-- The flags '-' and '0': whether to adjust to the left, the padding, and what follows.
abbrev pub flags : List ℕ → Bool × ℕ × List ℕ
flags [] = (false, 32, [])
flags (c ∷ cs) =
    if c == 45 then (true, 32, cs) else if c == 48 then (false, 48, cs) else (false, 32, c ∷ cs)

unfoldable pub width_of : ℕ → List ℕ → ℕ × List ℕ
width_of w [] = (w, [])
width_of w (c ∷ cs) =
    let rest = width_of (w * 10 + c - 48) cs in if leb 48 c && leb c 57 then rest else (w, c ∷ cs)

abbrev pub skip_long : List ℕ → List ℕ
skip_long [] = []
skip_long (c ∷ cs) = if c == 108 then cs else c ∷ cs

-- One conversion, which has no result where 'width', an `int`, overflows: from behind its '%': what is printed, the arguments and the format that are left.
abbrev pub directive_end : ℕ → Bool → ℕ → List ℕ → List Arg → Option (List ℕ × List Arg × List ℕ)
directive_end width ladjust padc [] args = some ([], args, [])
directive_end width ladjust padc (c ∷ cs) args = elim (convert c width ladjust padc args) [
  | none ↦ none
  | some (out, left) ↦ some (out, left, cs)
]

abbrev pub after_width : Bool → ℕ → List Arg → ℕ × List ℕ → Option (List ℕ × List Arg × List ℕ)
after_width ladjust padc args (width, rest) =
    if leb (2 ^ 31) width then none else directive_end width ladjust padc (skip_long rest) args

abbrev pub after_flags : List Arg → Bool × ℕ × List ℕ → Option (List ℕ × List Arg × List ℕ)
after_flags args (ladjust, padc, fmt) = after_width ladjust padc args (width_of 0 fmt)

unfoldable pub directive : List ℕ → List Arg → Option (List ℕ × List Arg × List ℕ)
unfolding convert width_of
directive fmt args = after_flags args (flags fmt)

-- What `vprintfmt` prints. C gives no result where an argument is missing or an `int` overflows, which
-- is `undefined`; `out_of_fuel` is the model's own.
pub data Output : Type 0 where
  text_out : List ℕ → Output
  undefined out_of_fuel : Output

-- What is printed before the rest.
abbrev pub printed : List ℕ → Output → Output
printed out (text_out rest) = text_out (out ++ rest)
printed out undefined = undefined
printed out out_of_fuel = out_of_fuel

abbrev pub go_on : Option (List ℕ × List Arg × List ℕ) → (List ℕ → List Arg → Output) → Output
go_on none next = undefined
go_on (some (out, args, fmt)) next = printed out (next fmt args)

-- The loop of `vprintfmt` from a '%' on, on fuel.
unfoldable pub format_loop : ℕ → List ℕ → List Arg → Output
unfolding before_percent from_percent directive
format_loop fuel [] args = text_out []
format_loop zero (c ∷ cs) args = out_of_fuel
format_loop (suc fuel) (c ∷ cs) args =
    go_on (directive cs args)
      (λ fmt left. printed (before_percent fmt) (format_loop fuel (from_percent fmt) left))

unfoldable pub vprintfmt : List ℕ → List Arg → Output
unfolding before_percent from_percent format_loop
vprintfmt fmt args = printed (before_percent fmt) (format_loop (length fmt) (from_percent fmt) args)
