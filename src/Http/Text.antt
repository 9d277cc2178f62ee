-- ===== src/Http/Text.antt =====
-- frontend/src/http.h and http_reader.h: the decoding of URLs, forms and cookies, and numbers.
use ncloud.Common.{
  ℕ, ◌+◌, ◌-◌, ◌*◌, ◌^◌, Option, none, some, List, [], ◌∷◌, ◌++◌, Bytes, true, false, ltb, leb,
  ◌==◌, ◌&&◌, ◌||◌, if◌then◌else◌, bytes_eq,
}
use ncloud.Common.Decimal.{is_space, skip_space}
use ncloud.Common.Dict.{Dict, insert}
use ncloud.Common.Search.{split_first}

unfoldable pub hex_digit_value : ℕ → Option ℕ
hex_digit_value c =
    if leb b'0' c && leb c b'9'
    then some (c - b'0')
    else if leb b'a' c && leb c b'f'
    then some (c - b'a' + 10)
    else if leb b'A' c && leb c b'F'
    then some (c - b'A' + 10)
    else none

-- A percent sign with the two characters behind it: one byte, or all three as they are.
unescaped : ℕ → ℕ → Option ℕ → Option ℕ → Bytes → Bytes
unescaped c d (some hi) (some lo) rest = (hi * 16 + lo) ∷ rest
unescaped c d (some hi) none rest = b'%' ∷ c ∷ d ∷ rest
unescaped c d none lo rest = b'%' ∷ c ∷ d ∷ rest

plain : ℕ → ℕ
plain c = if c == b'+' then b' ' else c

unfoldable pub url_decode : Bytes → Bytes
unfolding unescaped plain
url_decode [] = []
url_decode (c ∷ []) = plain c ∷ []
url_decode (c ∷ d ∷ []) = plain c ∷ url_decode (d ∷ [])
url_decode (c ∷ d ∷ e ∷ s) = elim (c == b'%') [
  | true ↦ unescaped d e (hex_digit_value d) (hex_digit_value e) (url_decode s)
  | false ↦ plain c ∷ url_decode (d ∷ e ∷ s)
]

add_pair : Option Bytes → Bytes → Dict Bytes → Dict Bytes
add_pair none key params = params
add_pair (some value) key params = insert (url_decode key) (url_decode value) params

-- The tokens of `std::getline` up to each separator; the text behind the last one counts if there is
-- any.
unfoldable pub tokens : ℕ → Bytes → Bytes → List Bytes
tokens sep [] [] = []
tokens sep (t ∷ token) [] = (t ∷ token) ∷ []
tokens sep token (c ∷ s) = elim (c == sep) [
  | true ↦ token ∷ tokens sep [] s
  | false ↦ tokens sep (token ++ (c ∷ [])) s
]

form_tokens : List Bytes → Dict Bytes → Dict Bytes
unfolding add_pair
form_tokens [] params = params
form_tokens (t ∷ ts) params =
    let cut = split_first b'=' t in form_tokens ts (add_pair cut.1 cut.0 params)

unfoldable pub parse_urlencoded : Bytes → Dict Bytes
unfolding form_tokens
parse_urlencoded body = form_tokens (tokens b'&' [] body) []

unfoldable pub skip_blanks : Bytes → Bytes
skip_blanks [] = []
skip_blanks (c ∷ s) = let rest = skip_blanks s in if c == b' ' then rest else c ∷ s

add_cookie : Option Bytes → Bytes → Dict Bytes → Dict Bytes
add_cookie none name cookies = cookies
add_cookie (some value) name cookies = insert name value cookies

cookie_tokens : List Bytes → Dict Bytes → Dict Bytes
unfolding add_cookie
cookie_tokens [] cookies = cookies
cookie_tokens (t ∷ ts) cookies =
    let cut = split_first b'=' (skip_blanks t) in cookie_tokens ts (add_cookie cut.1 cut.0 cookies)

unfoldable pub parse_cookies : Bytes → Dict Bytes
unfolding cookie_tokens
parse_cookies header = cookie_tokens (tokens b';' [] header) []

unfoldable pub trim_end : Bytes → Bytes
trim_end [] = []
trim_end (c ∷ s) = let rest = trim_end s in if is_space c && bytes_eq rest [] then [] else c ∷ rest

unfoldable pub http_trim_copy : Bytes → Bytes
http_trim_copy s = trim_end (skip_space s)

unfoldable pub digit_below : ℕ → Option ℕ → Option ℕ
digit_below base none = none
digit_below base (some d) = if ltb d base then some d else none

-- The number that all characters are the digits of, behind those that were read.
unfoldable pub read_all : ℕ → ℕ → Bytes → Option ℕ
unfolding digit_below
read_all base n [] = some n
read_all base n (c ∷ s) = elim (digit_below base (hex_digit_value c)) [
  | none ↦ none
  | some d ↦ read_all base (n * base + d) s
]

unfoldable pub fits : Option ℕ → Option ℕ
fits none = none
fits (some n) = if ltb n (2 ^ 64) then some n else none

-- `std::stoul` of a text that must be a number to its end. In base 16 it may begin with `0x`.
unfoldable pub stoul_whole : ℕ → Bytes → Option ℕ
unfolding fits
stoul_whole base [] = none
stoul_whole base (c ∷ []) = fits (read_all base 0 (c ∷ []))
stoul_whole base (c ∷ d ∷ []) = fits (read_all base 0 (c ∷ d ∷ []))
stoul_whole base (c ∷ d ∷ e ∷ s) =
    if base == 16 && (c == b'0' && (d == b'x' || d == b'X'))
    then fits (read_all base 0 (e ∷ s))
    else fits (read_all base 0 (c ∷ d ∷ e ∷ s))

unfoldable pub unsigned : ℕ → Bytes → Option ℕ
unsigned base [] = none
unsigned base (c ∷ s) = if c == b'+' || c == b'-' then none else stoul_whole base (c ∷ s)

unfoldable pub http_parse_size_t : Bytes → ℕ → Option ℕ
unfolding unsigned
http_parse_size_t raw base = unsigned base (http_trim_copy raw)
