-- ===== src/Http/Chunked.antt =====
-- frontend/src/http_reader.h: chunked bodies, as they are written and read.
pub mod Numbers
pub mod RoundTrip
use ncloud.Common.{
  ℕ, zero, suc, ◌+◌, ◌-◌, ◌/◌, ◌%◌, ◌^◌, Option, none, some, List, [], ◌∷◌, ◌++◌, Bytes, codes,
  length, take, drop, Bool, true, false, ltb, ◌==◌, ◌||◌, if◌then◌else◌, bytes_eq, ◌>>=◌,
}
use ncloud.Common.Search.{split_first}
use ncloud.Codec.{read_exact}
use ncloud.Protocol.{read_line}
use ncloud.Password.{hex_digit}
use ncloud.Http.Text.{http_parse_size_t}

-- 1023 MiB for a file and 1 MiB around it.
abbrev pub max_request_body_bytes : ℕ
max_request_body_bytes = 1073741824

abbrev pub chunk_size : ℕ
chunk_size = 16384

unfoldable pub hex_digits : ℕ → ℕ → Bytes
hex_digits zero n = []
hex_digits (suc fuel) n =
    let front = hex_digits fuel (n / 16) in
    if ltb n 16 then hex_digit n ∷ [] else front ++ (hex_digit (n % 16) ∷ [])

-- `std::hex` of a 64-bit number.
unfoldable pub http_chunk_prefix : ℕ → Bytes
unfolding hex_digits
http_chunk_prefix n = hex_digits 16 n

-- Chunks of at most `size` bytes; each takes at least one.
unfoldable pub send_chunks : ℕ → ℕ → Bytes → Bytes
send_chunks size zero body = codes "0\r\n\r\n"
send_chunks size (suc fuel) [] = codes "0\r\n\r\n"
send_chunks size (suc fuel) (b ∷ body) =
    let chunk : Bytes = take size (b ∷ body) in
    http_chunk_prefix (length chunk)
    ++ (13 ∷ 10 ∷ (chunk ++ (13 ∷ 10 ∷ send_chunks size fuel (drop size (b ∷ body)))))

unfoldable pub send_http_chunked_body : Bytes → Bytes
send_http_chunked_body body = send_chunks chunk_size (length body) body

-- The lines up to an empty one; a line takes at least one byte.
unfoldable pub skip_trailers : ℕ → Bytes → Option Bytes
skip_trailers zero s = none
skip_trailers (suc fuel) s = elim (read_line s) [
  | none ↦ none
  | some (line, rest) ↦ if bytes_eq line [] then some rest else skip_trailers fuel rest
]

-- What is left of the stream behind the body, with the body.
unfoldable pub with_body : Bytes → Option Bytes → Option (Bytes × Bytes)
with_body body none = none
with_body body (some rest) = some (body, rest)

-- The bytes of a chunk and the line behind it.
pub read_chunk : ℕ → Bytes → Option (Bytes × Bytes)
read_chunk n s = do (chunk, s₁) ← read_exact n s; (crlf, s₂) ← read_line s₁; some (chunk, s₂)

pub size_of_line : Bytes → Option ℕ
size_of_line line = http_parse_size_t (split_first b';' line).0 16

unfoldable pub too_large : ℕ → ℕ → Bool
too_large n so_far = ltb max_request_body_bytes n || ltb (max_request_body_bytes - n) so_far

-- Each round takes at least the newline of a line.
unfoldable pub chunk_loop : ℕ → Bytes → Bytes → Option (Bytes × Bytes)
unfolding too_large
chunk_loop zero body s = none
chunk_loop (suc fuel) body s = elim (read_line s) [
  | none ↦ none
  | some (line, rest) ↦ elim (size_of_line line) [
    | none ↦ none
    | some n ↦
        if n == 0
        then with_body body (skip_trailers (suc (length rest)) rest)
        else if too_large n (length body)
        then none
        else elim (read_chunk n rest) [
          | none ↦ none
          | some (chunk, behind) ↦ chunk_loop fuel (body ++ chunk) behind
        ]
  ]
]

unfoldable pub read_chunked_body : Bytes → Option (Bytes × Bytes)
unfolding chunk_loop
read_chunked_body s = chunk_loop (suc (length s)) [] s
