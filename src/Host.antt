-- ===== src/Host.antt =====
-- src/utilt.ts: the tests of a host name and its hash. A text is the list of its UTF-16 code units.
pub mod Parts
pub mod Ipv4
pub mod Domain
pub mod Hash
pub mod Digits
pub mod Units
use Prim.Native.Char.{code}
use Prim.Native.String.{String}
use utp.Base.{
  ℕ, suc, zero, ◌+◌, ◌-◌, ◌*◌, ◌/◌, ◌%◌, ◌^◌, Bool, true, false, not, ◌&&◌, ◌||◌, List, [], ◌∷◌,
  ◌++◌, Option, none, some, ltb, leb, length, ◌==◌, if◌then◌else◌,
}
use utp.Base.Texts.{
  Text, every, same_text, split, split_pairs, has_pair, starts_with, ends_with, pairs,
}

-- what `parseInt` finds, `NaN` being `none`: whether there is a minus sign, and the digits' value
abbrev pub Parsed : Type 0
Parsed = Option (Bool × ℕ)

unfoldable pub is_digit : ℕ → Bool
is_digit c = leb b'0' c && leb c b'9'

-- white space and line ends of the language
unfoldable pub is_space : ℕ → Bool
is_space c =
    (leb 9 c && leb c 13)
    || c == 32
    || c == 160
    || c == 5760
    || (leb 8192 c && leb c 8202)
    || c == 8232
    || c == 8233
    || c == 8239
    || c == 8287
    || c == 12288
    || c == 65279

-- the value of the digits that the text begins with, behind those already read
unfoldable pub digits_value : Text → ℕ → ℕ
digits_value [] n = n
digits_value (c ∷ s) n =
    let rest = digits_value s (n * 10 + (c - b'0')) in if is_digit c then rest else n

unfoldable pub parse_digits : Bool → Text → Parsed
parse_digits negative [] = none
parse_digits negative (c ∷ s) = if is_digit c then some (negative, digits_value (c ∷ s) 0) else none

unfoldable pub parse_signed : Text → Parsed
parse_signed [] = none
parse_signed (c ∷ s) =
    if c == b'-'
    then parse_digits true s
    else (if c == b'+' then parse_digits false s else parse_digits false (c ∷ s))

unfoldable pub parse_int : Text → Parsed
parse_int [] = none
parse_int (c ∷ s) = let rest = parse_int s in if is_space c then rest else parse_signed (c ∷ s)

-- the digits of a number; its own size is fuel enough, since each round divides it by ten
unfoldable pub digits_from : (fuel : ℕ) → ℕ → Text → Text
digits_from zero n out = out
digits_from (suc k) n out =
    let rest = digits_from k (n / 10) ((b'0' + n % 10) ∷ out) in
    if ltb n 10 then (b'0' + n) ∷ out else rest

unfoldable pub decimal : ℕ → Text
decimal n = digits_from (suc n) n []

-- `toString` of what was parsed, where it is no `NaN`
unfoldable pub to_text : Bool × ℕ → Text
to_text (negative, n) = if negative && not (n == 0) then b'-' ∷ decimal n else decimal n

-- the test of a part, with what `parseInt` finds in it
unfoldable pub is_byte : Text → Parsed → Bool
is_byte part none = false
is_byte part (some (negative, n)) =
    (not negative || n == 0) && leb n 255 && same_text part (to_text (negative, n))

unfoldable pub is_ipv4_part : Text → Bool
is_ipv4_part part = is_byte part (parse_int part)

unfoldable pub is_ipv4 : Text → Bool
is_ipv4 s = let parts = split b'.' s in length parts == 4 && every is_ipv4_part parts

unfoldable pub is_hex : ℕ → Bool
is_hex c = is_digit c || (leb b'a' c && leb c b'f') || (leb b'A' c && leb c b'F')

-- `/^[0-9a-fA-F]{1,4}$/`
unfoldable pub is_group : Text → Bool
is_group part = leb 1 (length part) && leb (length part) 4 && every is_hex part

-- `replace(/^\[|\]$/g, '')`
unfoldable pub strip_end : Text → Text
strip_end [] = []
strip_end (c ∷ []) = if c == b']' then [] else c ∷ []
strip_end (c ∷ d ∷ s) = c ∷ strip_end (d ∷ s)

unfoldable pub strip_brackets : Text → Text
strip_brackets [] = []
strip_brackets (c ∷ s) = if c == b'[' then strip_end s else strip_end (c ∷ s)

-- the groups of one side of the double colon
unfoldable pub side : Text → List Text
side [] = []
side (c ∷ s) = split b':' (c ∷ s)

unfoldable pub is_compressed : List Text → Bool
is_compressed (before ∷ after ∷ []) =
    let groups = side before ++ side after in leb (length groups) 8 && every is_group groups
is_compressed (_ ∷ _ ∷ _ ∷ _) = false
is_compressed (before ∷ []) =
    let groups = side before in leb (length groups) 8 && every is_group groups
is_compressed [] = true

unfoldable pub is_ipv6 : Text → Bool
is_ipv6 s =
    let t = strip_brackets s in
    if has_pair b':' t
    then (if ltb 1 (pairs b':' t) then false else is_compressed (split_pairs b':' t))
    else (let parts = split b':' t in length parts == 8 && every is_group parts)

unfoldable pub is_alphanumeric : ℕ → Bool
is_alphanumeric c = (leb b'a' c && leb c b'z') || (leb b'A' c && leb c b'Z') || is_digit c

-- `([a-zA-Z0-9-]*[a-zA-Z0-9])?$`
unfoldable pub is_label_rest : Text → Bool
is_label_rest [] = true
is_label_rest (c ∷ []) = is_alphanumeric c
is_label_rest (c ∷ d ∷ s) = (is_alphanumeric c || c == b'-') && is_label_rest (d ∷ s)

unfoldable pub is_label : Text → Bool
is_label [] = false
is_label (c ∷ s) = leb (length (c ∷ s)) 63 && is_alphanumeric c && is_label_rest s

unfoldable pub is_domain : Text → Bool
is_domain s =
    if (length s == 0) || ltb 255 (length s)
    then false
    else (let labels = split b'.' s in
        if ltb (length labels) 2
        then false
        else (if starts_with b'.' s || ends_with b'.' s || has_pair b'.' s
            then false
            else every is_label labels))

unfoldable pub is_valid_hostname : Text → Bool
is_valid_hostname [] = false
is_valid_hostname (c ∷ s) =
    let name = c ∷ s in
    same_text name (b'l' ∷ b'o' ∷ b'c' ∷ b'a' ∷ b'l' ∷ b'h' ∷ b'o' ∷ b's' ∷ b't' ∷ [])
    || is_ipv4 name
    || is_ipv6 name
    || is_domain name

-- `hashCode`: a 32-bit integer, here as its residue; `hash << 5` and `hash |= 0` each wrap around.
unfoldable pub hash_from : Text → ℕ → ℕ
hash_from [] hash = hash
hash_from (chr ∷ s) hash = hash_from s (((hash * 2 ^ 5) % 2 ^ 32 + 2 ^ 32 - hash + chr) % 2 ^ 32)

unfoldable pub hash_code : Text → ℕ
hash_code s = hash_from s 0

-- the code units of a string: a pair of them above 16 bits
unfoldable pub code_units : String → Text
code_units String.[] = []
code_units (String.◌∷◌ c s) =
    let n = code c in
    let rest = code_units s in
    if ltb n (2 ^ 16)
    then n ∷ rest
    else (55296 + (n - 2 ^ 16) / 2 ^ 10) ∷ (56320 + (n - 2 ^ 16) % 2 ^ 10) ∷ rest
