-- ===== src/Text.antt =====
-- What the program uses of Go's packages strings, path/filepath and net, on text as a list of
-- Unicode characters. A byte sequence that is not UTF-8 is not represented.
pub mod Laws
pub mod Decimal
pub mod Quoted
pub mod Suffix
pub mod Split
mod Tests
use Prim.Native.Char.{Char, code}
use Prim.Native.String.{[], ◌∷◌, ◌++◌}
use mathlib.Core.List.{[], ◌∷◌, tail}
use nexlog_server.Int.{ℤ, pos, negate}
use nexlog_server.Base.{
  ℕ, zero, suc, ◌+◌, ◌-◌, ◌*◌, ◌/◌, ◌%◌, ◌^◌, String, List, Option, none, some, Bool, true, false,
  not, ◌&&◌, ◌||◌, leb, nat_eq, if◌then◌else◌, ◌==◌,
}

-- `s` without the prefix `p`, if it has that prefix.
unfoldable pub strip_prefix : String → String → Option String
strip_prefix [] s = some s
strip_prefix (c ∷ p) [] = none
strip_prefix (c ∷ p) (d ∷ s) = if nat_eq (code c) (code d) then strip_prefix p s else none

abbrev pub is_some {ℓ} : {A : Type ℓ} → Option A → Bool
is_some none = false
is_some (some a) = true

abbrev pub or_else {ℓ} : {A : Type ℓ} → A → Option A → A
or_else d none = d
or_else d (some a) = a

-- strings.HasPrefix(s, p)
abbrev pub has_prefix : String → String → Bool
has_prefix s p = is_some (strip_prefix p s)

-- strings.TrimPrefix(s, p)
abbrev pub trim_prefix : String → String → String
trim_prefix s p = or_else s (strip_prefix p s)

-- strings.HasSuffix(s, p)
unfoldable pub has_suffix : String → String → Bool
has_suffix [] p = p == []
has_suffix (c ∷ s) p = (c ∷ s) == p || has_suffix s p

-- strings.TrimSuffix(s, p)
unfoldable pub trim_suffix : String → String → String
trim_suffix [] p = []
trim_suffix (c ∷ s) p = if (c ∷ s) == p then [] else c ∷ trim_suffix s p

-- strings.Contains(s, p)
unfoldable pub contains : String → String → Bool
unfolding strip_prefix
contains [] p = has_prefix [] p
contains (c ∷ s) p = has_prefix (c ∷ s) p || contains s p

abbrev pub grow : Char → List String → List String
grow c [] = (c ∷ []) ∷ []
grow c (s ∷ l) = (c ∷ s) ∷ l

-- strings.Split(s, sep) for a separator of one character, given by its number.
unfoldable pub split : ℕ → String → List String
split sep [] = [] ∷ []
split sep (c ∷ s) = if nat_eq (code c) sep then [] ∷ split sep s else grow c (split sep s)

-- The part of `s` before the first separator, all of `s` if there is none: strings.Split(s, sep)[0].
unfoldable pub before : ℕ → String → String
before sep [] = []
before sep (c ∷ s) = if nat_eq (code c) sep then [] else c ∷ before sep s

-- unicode.IsSpace
pub is_space : ℕ → Bool
is_space n =
    leb 9 n && leb n 13
    || nat_eq n 0x20
    || nat_eq n 0x85
    || nat_eq n 0xa0
    || nat_eq n 0x1680
    || leb 0x2000 n && leb n 0x200a
    || nat_eq n 0x2028
    || nat_eq n 0x2029
    || nat_eq n 0x202f
    || nat_eq n 0x205f
    || nat_eq n 0x3000

unfoldable pub trim_left : String → String
unfolding is_space
trim_left [] = []
trim_left (c ∷ s) = if is_space (code c) then trim_left s else c ∷ s

abbrev add_unless_space : Char → String → String
add_unless_space c [] = if is_space (code c) then [] else c ∷ []
add_unless_space c (d ∷ s) = c ∷ d ∷ s

unfoldable pub trim_right : String → String
unfolding is_space
trim_right [] = []
trim_right (c ∷ s) = add_unless_space c (trim_right s)

-- strings.TrimSpace
unfoldable pub trim_space : String → String
unfolding trim_left trim_right
trim_space s = trim_left (trim_right s)

-- strings.IndexByte(s, c) >= 0
unfoldable pub has_char : ℕ → String → Bool
has_char n [] = false
has_char n (c ∷ s) = nat_eq (code c) n || has_char n s

-- The part after the first `n`, none if there is none.
unfoldable pub after : ℕ → String → Option String
after n [] = none
after n (c ∷ s) = if nat_eq (code c) n then some s else after n s

-- The part before the last `n`, none if there is none.
unfoldable pub before_last : ℕ → String → Option String
before_last n [] = none
before_last n (c ∷ s) = elim (before_last n s) [
  | some t ↦ some (c ∷ t)
  | none ↦ if nat_eq (code c) n then some [] else none
]

abbrev plain_host : String → Option String → String
plain_host s none = ""
plain_host s (some h) = if has_char b':' h || has_char b'[' s || has_char b']' s then "" else h

-- What follows the bracket that closes the host must be the colon and the port.
abbrev port_ok : String → Bool
port_ok [] = false
port_ok (c ∷ port) = nat_eq (code c) b':' && not (has_char b':' port || has_char b']' port)

abbrev bracket_host : String → Option String → String
bracket_host s none = ""
bracket_host s (some rest) = if port_ok rest && not (has_char b'[' s) then before b']' s else ""

-- The host that net.SplitHostPort(s) returns, "" beside an error.
unfoldable pub split_host : String → String
unfolding has_char after before_last before
split_host [] = ""
split_host (c ∷ s) =
    if nat_eq (code c) b'['
    then bracket_host s (after b']' s)
    else plain_host (c ∷ s) (before_last b':' (c ∷ s))

abbrev pub digit : ℕ → String
digit d = elim d [
  | zero ↦ "0"
  | suc zero ↦ "1"
  | suc (suc zero) ↦ "2"
  | suc (suc (suc zero)) ↦ "3"
  | suc (suc (suc (suc zero))) ↦ "4"
  | suc (suc (suc (suc (suc zero)))) ↦ "5"
  | suc (suc (suc (suc (suc (suc zero))))) ↦ "6"
  | suc (suc (suc (suc (suc (suc (suc zero)))))) ↦ "7"
  | suc (suc (suc (suc (suc (suc (suc (suc zero))))))) ↦ "8"
  | suc (suc (suc (suc (suc (suc (suc (suc (suc e)))))))) ↦ "9"
]

-- The digits of `n` in front of `acc`; the fuel `n + 1` is enough, since `n / 10` is below `n`.
unfoldable pub digits_from : ℕ → ℕ → String → String
digits_from zero n acc = acc
digits_from (suc fuel) n acc =
    let acc' = digit (n % 10) ++ acc in
    let more = digits_from fuel (n / 10) acc' in if nat_eq (n / 10) 0 then acc' else more

-- The verb %d of fmt, on a number that is not negative.
unfoldable pub itoa : ℕ → String
unfolding digits_from
itoa n = digits_from (suc n) n ""

-- filepath.Ext
unfoldable pub ext : String → String
unfolding has_char
ext [] = ""
ext (c ∷ s) =
    let e = ext s in
    if not (e == "") then e else if nat_eq (code c) b'.' && not (has_char b'/' s) then c ∷ s else ""

-- One element of a rooted path, the elements before it being in `stack`, the last at its head.
abbrev resolve : List String → String → List String
resolve stack part =
    if part == "" || part == "." then stack else if part == ".." then tail stack else part ∷ stack

resolve_all : List String → List String → List String
resolve_all stack [] = stack
resolve_all stack (part ∷ parts) = resolve_all (resolve stack part) parts

-- The rooted path of the elements, the last at the head.
rooted : List String → String → String
rooted [] acc = acc
rooted (part ∷ stack) acc = rooted stack ("/" ++ (part ++ acc))

abbrev or_root : String → String
or_root [] = "/"
or_root (c ∷ s) = c ∷ s

-- path.Clean of a path that begins with a slash.
abbrev clean : String → String
clean p = or_root (rooted (resolve_all [] (split b'/' p)) "")

abbrev with_root : String → String
with_root [] = "/"
with_root (c ∷ p) = if nat_eq (code c) b'/' then c ∷ p else "/" ++ (c ∷ p)

-- cleanPath of net/http
unfoldable pub clean_path : String → String
unfolding resolve_all rooted split has_suffix
clean_path p =
    let p' = with_root p in
    if has_suffix p' "/" && not (clean p' == "/") then clean p' ++ "/" else clean p'

-- The value of a text of decimal digits behind those already read.
unfoldable pub digits_value : ℕ → String → Option ℕ
digits_value n [] = some n
digits_value n (c ∷ s) =
    let more = digits_value (n * 10 + (code c - b'0')) s in
    if leb b'0' (code c) && leb (code c) b'9' then more else none

abbrev digits_only : String → Option ℕ
digits_only [] = none
digits_only (c ∷ s) = digits_value 0 (c ∷ s)

abbrev in_range : ℕ → (ℕ → ℤ) → Option ℕ → Option ℤ
in_range top sign none = none
in_range top sign (some n) = if leb n top then some (sign n) else none

-- strconv.Atoi on a 64-bit platform, none for an error.
unfoldable pub atoi : String → Option ℤ
unfolding digits_value
atoi [] = none
atoi (c ∷ s) =
    if nat_eq (code c) b'-'
    then in_range (2 ^ 63) negate (digits_only s)
    else if nat_eq (code c) b'+'
    then in_range (2 ^ 63 - 1) pos (digits_only s)
    else in_range (2 ^ 63 - 1) pos (digits_only (c ∷ s))

-- The part after the last slash.
unfoldable pub last_element : String → String
unfolding has_char
last_element [] = []
last_element (c ∷ s) =
    if has_char b'/' s then last_element s else if nat_eq (code c) b'/' then s else c ∷ s

-- `s[:i]` where `i := strings.Index(s, sep)` is above 0, and `s` otherwise.
unfoldable pub head_before : ℕ → String → String
unfolding before has_char
head_before sep s = if has_char sep s && not (before sep s == "") then before sep s else s
