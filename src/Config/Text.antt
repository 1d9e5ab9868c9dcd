-- ===== src/Config/Text.antt =====
-- What config uses of Go's `strings` and `strconv`.
pub mod Joining
pub mod Decimal
pub mod Trimming
use Prim.Native.Char.{code}
use Prim.Native.String.{◌++◌}
use hiddify_core.Prelude.{
  ℕ, ◌+◌, ◌-◌, ◌*◌, ◌%◌, ℤ, pos, negsuc, String, Bool, true, false, ◌&&◌, ◌||◌, Option, none, some,
  List, [], ◌∷◌, leb, nat_eq, if◌then◌else◌, ◌==◌, Outcome, done, crashed,
}
use Prim.Native.Char.{Char}

-- HasPrefix and TrimPrefix in one: the rest behind the prefix, if it is there.
unfoldable pub strip_prefix : String → String → Option String
strip_prefix String.[] s = some s
strip_prefix (String.◌∷◌ p ps) String.[] = none
strip_prefix (String.◌∷◌ p ps) (String.◌∷◌ c s) =
    let rest = strip_prefix ps s in if nat_eq (code p) (code c) then rest else none

-- strings.HasPrefix(s, p)
unfoldable pub has_prefix : String → String → Bool
unfolding strip_prefix
has_prefix s p = elim (strip_prefix p s) [ some _ ↦ true | none ↦ false ]

-- strings.TrimPrefix(s, p)
unfoldable pub trim_prefix : String → String → String
unfolding strip_prefix
trim_prefix s p = elim (strip_prefix p s) [ some rest ↦ rest | none ↦ s ]

-- strings.Contains(s, p)
unfoldable pub contains : String → String → Bool
unfolding has_prefix
contains String.[] p = has_prefix "" p
contains (String.◌∷◌ c s) p =
    let rest = contains s p in if has_prefix (String.◌∷◌ c s) p then true else rest

abbrev pub prepend : Char → List String → List String
prepend c [] = (String.◌∷◌ c "") ∷ []
prepend c (x ∷ xs) = (String.◌∷◌ c x) ∷ xs

-- strings.Split at a separator of one character
unfoldable pub split_on : Char → String → List String
split_on sep String.[] = "" ∷ []
split_on sep (String.◌∷◌ c s) =
    let rest = split_on sep s in if nat_eq (code c) (code sep) then "" ∷ rest else prepend c rest

-- strings.SplitN(s, sep, 2) at a separator of one character
unfoldable pub split_first : Char → String → List String
split_first sep String.[] = "" ∷ []
split_first sep (String.◌∷◌ c s) =
    let rest = split_first sep s in
    if nat_eq (code c) (code sep) then "" ∷ s ∷ [] else prepend c rest

-- the second of the parts, which Go reads out of range where there is one
abbrev pub second_part : List String → Outcome String
second_part (a ∷ b ∷ parts) = done b
second_part _ = crashed

-- strings.HasSuffix(s, p)
unfoldable pub has_suffix : String → String → Bool
has_suffix String.[] p = p == ""
has_suffix (String.◌∷◌ c s) p =
    let later = has_suffix s p in if String.◌∷◌ c s == p then true else later

-- s[:len(s)-1] of a text that ends with a character of one byte
unfoldable pub drop_last : String → String
drop_last String.[] = ""
drop_last (String.◌∷◌ c String.[]) = ""
drop_last (String.◌∷◌ c (String.◌∷◌ d s)) = String.◌∷◌ c (drop_last (String.◌∷◌ d s))

-- unicode.IsSpace
unfoldable pub is_space : Char → Bool
is_space c =
    let n = code c in
    (leb 9 n && leb n 13)
    || nat_eq n 32
    || nat_eq n 133
    || nat_eq n 160
    || nat_eq n 5760
    || (leb 8192 n && leb n 8202)
    || nat_eq n 8232
    || nat_eq n 8233
    || nat_eq n 8239
    || nat_eq n 8287
    || nat_eq n 12288

unfoldable pub trim_left : String → String
trim_left String.[] = ""
trim_left (String.◌∷◌ c s) = let rest = trim_left s in if is_space c then rest else String.◌∷◌ c s

abbrev pub push_unless_blank : Char → String → String
push_unless_blank c String.[] = if is_space c then "" else String.◌∷◌ c ""
push_unless_blank c (String.◌∷◌ d s) = String.◌∷◌ c (String.◌∷◌ d s)

unfoldable pub trim_right : String → String
trim_right String.[] = ""
trim_right (String.◌∷◌ c s) = push_unless_blank c (trim_right s)

-- strings.TrimSpace
abbrev pub trim_space : String → String
trim_space s = trim_right (trim_left s)

abbrev pub split : String → List String
split = split_on ","

-- strings.Join with a separator of one character
unfoldable pub join_on : Char → List String → String
join_on sep [] = ""
join_on sep (x ∷ []) = x
join_on sep (x ∷ y ∷ xs) = x ++ String.◌∷◌ sep (join_on sep (y ∷ xs))

abbrev pub join : List String → String
join = join_on ","

unfoldable pub digits : ℕ → String → Option ℕ
digits n String.[] = some n
digits n (String.◌∷◌ c s) =
    let rest = digits (n * 10 + (code c - b'0')) s in
    if leb b'0' (code c) && leb (code c) b'9' then rest else none

-- at least one digit
unfoldable pub number : String → Option ℕ
unfolding digits
number String.[] = none
number s = digits 0 s

-- strconv.Atoi, on a machine of 64 bits
abbrev pub int_max : ℕ
int_max = 9223372036854775807

abbrev pub in_int : Option ℕ → Option ℤ
in_int none = none
in_int (some n) = if leb n int_max then some (pos n) else none

abbrev pub in_negative_int : Option ℕ → Option ℤ
in_negative_int none = none
in_negative_int (some n) =
    if nat_eq n 0 then some (pos 0) else if leb n (int_max + 1) then some (negsuc (n - 1)) else none

unfoldable pub atoi : String → Option ℤ
unfolding number
atoi String.[] = none
atoi (String.◌∷◌ c s) =
    if nat_eq (code c) b'-'
    then in_negative_int (number s)
    else if nat_eq (code c) b'+'
    then in_int (number s)
    else in_int (number (String.◌∷◌ c s))

-- uint16(i)
unfoldable pub uint_16 : ℤ → ℕ
uint_16 (pos n) = n % 65536
uint_16 (negsuc n) = 65535 - n % 65536
