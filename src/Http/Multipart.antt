-- ===== src/Http/Multipart.antt =====
-- frontend/src/http.h: `parse_multipart`.
use ncloud.Common.{
  ℕ, zero, suc, Option, none, some, List, [], ◌∷◌, ◌++◌, Bytes, codes, length, drop, Bool, ◌==◌,
  ◌||◌, ◌&&◌, if◌then◌else◌, bytes_eq,
}
use ncloud.Common.Search.{split_first, starts_with}

pub record MultipartPart : Type 0 where
  pub name : Bytes
  pub filename : Bytes
  pub content_type : Bytes
  pub content : Bytes

pub push_before : ℕ → Option (Bytes × Bytes) → Option (Bytes × Bytes)
push_before c none = none
push_before c (some (before, behind)) = some (c ∷ before, behind)

-- `find` of a word that is not empty: the text before it and behind it.
unfoldable pub split_word : Bytes → Bytes → Option (Bytes × Bytes)
unfolding push_before
split_word word [] = none
split_word word (c ∷ s) =
    let later = split_word word s in
    if starts_with word (c ∷ s) then some ([], drop (length word) (c ∷ s)) else push_before c later

is_blank : ℕ → Bool
is_blank c = c == b' ' || c == b'\t'

trim_front : Bytes → Bytes
unfolding is_blank
trim_front [] = []
trim_front (c ∷ s) = let rest = trim_front s in if is_blank c then rest else c ∷ s

trim_back : Bytes → Bytes
unfolding is_blank
trim_back [] = []
trim_back (c ∷ s) =
    let rest = trim_back s in
    if (is_blank c || c == b'\r') && bytes_eq rest [] then [] else c ∷ rest

-- The text without its last character, where that is a quote.
closed_quote : Bytes → Option Bytes
closed_quote [] = none
closed_quote (c ∷ []) = if c == b'"' then some [] else none
closed_quote (c ∷ d ∷ s) = elim (closed_quote (d ∷ s)) [
  | none ↦ none
  | some inner ↦ some (c ∷ inner)
]

or_else : Bytes → Option Bytes → Bytes
or_else text none = text
or_else text (some inner) = inner

unquoted : Bytes → Bytes
unfolding closed_quote or_else
unquoted [] = []
unquoted (c ∷ s) = if c == b'"' then or_else (c ∷ s) (closed_quote s) else c ∷ s

-- The boundary that a content type names; empty where it names none.
boundary_of : Option (Bytes × Bytes) → Bytes
unfolding trim_front trim_back unquoted
boundary_of none = []
boundary_of (some (before, behind)) = unquoted (trim_front (trim_back (split_first b';' behind).0))

-- The end of the text is taken off if it is a line's end.
without_crlf : Bytes → Bytes
without_crlf [] = []
without_crlf (c ∷ []) = c ∷ []
without_crlf (c ∷ d ∷ []) = if c == 13 && d == 10 then [] else c ∷ d ∷ []
without_crlf (c ∷ d ∷ e ∷ s) = c ∷ without_crlf (d ∷ e ∷ s)

quoted : Option (Bytes × Bytes) → Bytes
quoted none = []
quoted (some (before, behind)) = (split_first b'"' behind).0

up_to_line_end : Option (Bytes × Bytes) → Bytes → Bytes
up_to_line_end none text = text
up_to_line_end (some (before, behind)) text = before

-- The line behind `Content-Disposition:`, where there is one.
disposition : Option (Bytes × Bytes) → Bytes
unfolding up_to_line_end
disposition none = []
disposition (some (before, behind)) = up_to_line_end (split_word (codes "\r\n") behind) behind

-- The text behind `Content-Type:` without its first character, up to the line's end if that is not at
-- once; `none` is the exception where nothing stands behind it.
type_text : Bytes → Option (Bytes × Bytes) → Option Bytes
type_text [] line = none
type_text (c ∷ behind) none = some behind
type_text (c ∷ behind) (some ([], more)) = some behind
type_text (c ∷ behind) (some (d ∷ line, more)) = some line

part_type : Option (Bytes × Bytes) → Option Bytes
unfolding type_text
part_type none = some []
part_type (some (before, behind)) = type_text behind (split_word (codes "\r\n") behind)

part_of : Bytes → Bytes → Bytes → MultipartPart
unfolding quoted without_crlf
part_of cd content content_type = record {
  name = quoted (split_word (codes "name=\"") cd);
  filename = quoted (split_word (codes "filename=\"") cd);
  content_type = content_type;
  content = without_crlf content;
}

-- A part with a name, before the parts that follow.
add_part : MultipartPart → Option (List MultipartPart) → Option (List MultipartPart)
add_part part none = none
add_part part (some parts) = if bytes_eq part.name [] then some parts else some (part ∷ parts)

with_type : Bytes → Bytes → Option Bytes → Option (List MultipartPart) → Option (List MultipartPart)
unfolding part_of add_part
with_type cd content none parts = none
with_type cd content (some content_type) parts = add_part (part_of cd content content_type) parts

-- Behind a delimiter: another part, or the end.
next_part : (Bytes → Option (List MultipartPart)) → Bytes → Option (List MultipartPart)
next_part more [] = some []
next_part more (c ∷ []) = some []
next_part more (c ∷ d ∷ s) = if c == 13 then more s else some []

-- Each part takes at least the line ends behind its headers.
parts_loop : ℕ → Bytes → Bytes → Option (List MultipartPart)
unfolding disposition part_type with_type next_part
parts_loop zero delim s = some []
parts_loop (suc fuel) delim s = elim (split_word (codes "\r\n\r\n") s) [
  | none ↦ some []
  | some (part_headers, rest) ↦ elim (split_word delim rest) [
    | none ↦ some []
    | some (content, behind) ↦
        with_type (disposition (split_word (codes "Content-Disposition:") part_headers)) content
          (part_type (split_word (codes "Content-Type:") part_headers))
          (next_part (λ t. parts_loop fuel delim t) behind)
  ]
]

from_boundary : Bytes → Option (Bytes × Bytes) → Option (List MultipartPart)
unfolding parts_loop
from_boundary boundary none = some []
from_boundary boundary (some (before, behind)) =
    parts_loop (suc (length behind)) (codes "\r\n" ++ boundary) (drop 2 behind)

with_boundary : Bytes → Bytes → Option (List MultipartPart)
unfolding from_boundary
with_boundary body [] = some []
with_boundary body (c ∷ raw) =
    let boundary = codes "--" ++ (c ∷ raw) in from_boundary boundary (split_word boundary body)

-- The parts with a name; `none` where the source throws.
unfoldable pub parse_multipart : Bytes → Bytes → Option (List MultipartPart)
unfolding boundary_of with_boundary
parse_multipart body content_type_header =
    with_boundary body (boundary_of (split_word (codes "boundary=") content_type_header))
