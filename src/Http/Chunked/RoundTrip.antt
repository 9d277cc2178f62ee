-- ===== src/Http/Chunked/RoundTrip.antt =====
-- frontend/src/http_reader.h: a chunked body is read as it was sent.
use ncloud.Common.{
  ℕ, zero, suc, ◌+◌, ◌-◌, ◌^◌, ◌≤◌, ◌<◌, ◌≡◌, refl, ap, sym, ◌∙◌, Option, none, some, [], ◌∷◌, ◌++◌,
  append_assoc, append-nil, Bytes, codes, length, length-append, length-drop, take, drop,
  take-append-drop, false, ◌==◌, arith, All, bytes_eq,
}
use ncloud.Common.Search.{split_first}
use ncloud.Codec.Laws.{read_exact-append}
use ncloud.Protocol.{read_line}
use ncloud.Protocol.Lines.{InLine, read_line-append}
use ncloud.Password.{hex_digit}
use ncloud.Http.Text.{http_parse_size_t}
use ncloud.Http.Chunked.{
  chunk_size, hex_digits, max_request_body_bytes, http_chunk_prefix, send_chunks,
  send_http_chunked_body, skip_trailers, with_body, read_chunk, size_of_line, too_large, chunk_loop,
  read_chunked_body,
}
use ncloud.Http.Chunked.Numbers.{
  IsHex, http_chunk_prefix-IsHex, http_parse_size_t-http_chunk_prefix, length-http_chunk_prefix,
}

IsHex-InLine : (s : Bytes) → All IsHex s → All InLine s
IsHex-InLine [] h = tt
IsHex-InLine (c ∷ s) h = (ground (arith, h.0), IsHex-InLine s h.1)

split_first-IsHex : (s : Bytes) → All IsHex s → split_first b';' s ≡ (s, none)
unfolding split_first
split_first-IsHex [] h = refl
split_first-IsHex (c ∷ s) h =
    let no : (c == b';') ≡ false = ground (arith, h.0) in rw (no, split_first-IsHex s h.1) refl

size_of_line-prefix : (n : ℕ) → n < 2 ^ 64 → size_of_line (http_chunk_prefix n) ≡ some n
unfolding size_of_line
size_of_line-prefix n h =
    ap (λ (r : Bytes × Option Bytes). http_parse_size_t r.0 16)
      (split_first-IsHex (http_chunk_prefix n) (http_chunk_prefix-IsHex n))
    ∙ http_parse_size_t-http_chunk_prefix n h

read_line-prefix :
    (n : ℕ) (rest : Bytes)
    → read_line (http_chunk_prefix n ++ (13 ∷ 10 ∷ rest)) ≡ some (http_chunk_prefix n, rest)
read_line-prefix n rest =
    read_line-append (http_chunk_prefix n) rest
      (IsHex-InLine (http_chunk_prefix n) (http_chunk_prefix-IsHex n))
      (omega (arith, length-http_chunk_prefix n))

read_chunk-append :
    (chunk rest : Bytes)
    → read_chunk (length chunk) (chunk ++ (13 ∷ 10 ∷ rest)) ≡ some (chunk, rest)
unfolding read_chunk
read_chunk-append chunk rest =
    rw (read_exact-append chunk (13 ∷ 10 ∷ rest))
      (rw (read_line-append [] rest tt (omega arith)) refl)

-- One chunk is taken from the stream and put behind the body.
chunk_loop-chunk :
    (fuel : ℕ) (body chunk rest : Bytes)
    → 0 < length chunk
    → length body + length chunk ≤ max_request_body_bytes
    → chunk_loop
        (suc fuel)
        body
        (http_chunk_prefix (length chunk) ++ (13 ∷ 10 ∷ (chunk ++ (13 ∷ 10 ∷ rest))))
      ≡ chunk_loop fuel (body ++ chunk) rest
unfolding chunk_loop
chunk_loop-chunk fuel body chunk rest pos small =
    let n = length chunk in
    let more : (n == 0) ≡ false = ground (arith, pos) in
    let room : too_large n (length body) ≡ false = unfold too_large in ground (arith, small) in
    rw
      (
        read_line-prefix n (chunk ++ (13 ∷ 10 ∷ rest)),
        size_of_line-prefix n (omega (arith, small)),
        chunk_loop,
      )
      (rw (more, room) (rw (read_chunk-append chunk rest, chunk_loop) refl))

size_of_line-zero : size_of_line (b'0' ∷ []) ≡ some 0
unfolding http_chunk_prefix hex_digits hex_digit
size_of_line-zero = size_of_line-prefix 0 (omega arith)

skip_trailers-end :
    (fuel : ℕ) (rest : Bytes) → skip_trailers (suc fuel) (13 ∷ 10 ∷ rest) ≡ some rest
unfolding skip_trailers bytes_eq
skip_trailers-end fuel rest = rw (read_line-append [] rest tt (omega arith), skip_trailers) refl

chunk_loop-end :
    (fuel : ℕ) (body rest : Bytes)
    → chunk_loop (suc fuel) body (codes "0\r\n\r\n" ++ rest) ≡ some (body, rest)
unfolding chunk_loop with_body
chunk_loop-end fuel body rest =
    rw
      (
        read_line-append (b'0' ∷ []) (13 ∷ 10 ∷ rest) (refl, tt) (omega arith),
        size_of_line-zero,
        chunk_loop,
      )
      (rw (skip_trailers-end (suc (suc (length rest))) rest) refl)

module _ (size : ℕ) where
  -- A chunk and what is left of the body behind it.
  cut :
      (x : ℕ) (body : Bytes)
      → 0 < size
      → (0 < length (take size (x ∷ body)))
        × (take size (x ∷ body) ++ drop size (x ∷ body) ≡ x ∷ body)
        × (length (take size (x ∷ body)) + length (drop size (x ∷ body)) ≡ suc (length body))
        × (length (drop size (x ∷ body)) ≤ length body)
  cut x body pos =
      let whole = take-append-drop size (x ∷ body) in
      let sizes : length (take size (x ∷ body)) + length (drop size (x ∷ body))
          ≡ suc (length body) =
        sym (length-append (take size (x ∷ body)) (drop size (x ∷ body))) ∙ ap length whole in
      let left : length (drop size (x ∷ body)) ≡ suc (length body) - size =
        length-drop size (x ∷ body) in
      (omega (arith, sizes, left, pos), whole, sizes, omega (arith, left, pos))

  chunk_loop-send_chunks :
      (fuel f : ℕ) (so_far body rest : Bytes)
      → 0 < size
      → length body ≤ f
      → length body < fuel
      → length so_far + length body ≤ max_request_body_bytes
      → chunk_loop fuel so_far (send_chunks size f body ++ rest) ≡ some (so_far ++ body, rest)
  unfolding send_chunks
  chunk_loop-send_chunks zero f so_far body rest pos a b c = absurd (omega (arith, b))
  chunk_loop-send_chunks (suc fuel) zero so_far [] rest pos a b c =
      chunk_loop-end fuel so_far rest ∙ ap (λ s. some (s, rest)) (sym (append-nil so_far))
  chunk_loop-send_chunks (suc fuel) zero so_far (x ∷ body) rest pos a b c =
      absurd (omega (arith, a))
  chunk_loop-send_chunks (suc fuel) (suc f) so_far [] rest pos a b c =
      chunk_loop-end fuel so_far rest ∙ ap (λ s. some (s, rest)) (sym (append-nil so_far))
  chunk_loop-send_chunks (suc fuel) (suc f) so_far (x ∷ body) rest pos a b c =
      let chunk = take size (x ∷ body) in
      let others = drop size (x ∷ body) in
      let (some_bytes, whole, sizes, fewer) = cut x body pos in
      ap (chunk_loop (suc fuel) so_far) (chunk_shape chunk (send_chunks size f others) rest)
      ∙ chunk_loop-chunk fuel so_far chunk (send_chunks size f others ++ rest) some_bytes
          (omega (arith, sizes, c))
      ∙ chunk_loop-send_chunks fuel f (so_far ++ chunk) others rest pos (omega (arith, fewer, a))
          (omega (arith, fewer, b)) (omega (arith, length-append so_far chunk, sizes, c))
      ∙ ap (λ s. some (s, rest)) (append_assoc so_far chunk others ∙ ap (λ s. so_far ++ s) whole)
    where
      chunk_shape :
          (chunk more rest : Bytes)
          → (http_chunk_prefix (length chunk) ++ (13 ∷ 10 ∷ (chunk ++ (13 ∷ 10 ∷ more)))) ++ rest
            ≡ http_chunk_prefix (length chunk) ++ (13 ∷ 10 ∷ (chunk ++ (13 ∷ 10 ∷ (more ++ rest))))
      chunk_shape chunk more rest = simp append_assoc

  length-send_chunks :
      (f : ℕ) (body : Bytes)
      → 0 < size
      → length body ≤ f
      → length body ≤ length (send_chunks size f body)
  unfolding send_chunks
  length-send_chunks zero body pos h = omega (arith, h)
  length-send_chunks (suc f) [] pos h = omega arith
  length-send_chunks (suc f) (x ∷ body) pos h =
      let chunk = take size (x ∷ body) in
      let more = send_chunks size f (drop size (x ∷ body)) in
      let (some_bytes, whole, sizes, fewer) = cut x body pos in
      omega (
        arith,
        sizes,
        length-send_chunks f (drop size (x ∷ body)) pos (omega (arith, fewer, h)),
        length-append (http_chunk_prefix (length chunk)) (13 ∷ 10 ∷ (chunk ++ (13 ∷ 10 ∷ more))),
        length-append chunk (13 ∷ 10 ∷ more),
      )

-- A body of at most 1024 MiB that is sent in chunks is read as it was, and what follows it is still
-- unread.
pub read_chunked_body-send_http_chunked_body :
    (body rest : Bytes)
    → length body ≤ max_request_body_bytes
    → read_chunked_body (send_http_chunked_body body ++ rest) ≡ some (body, rest)
unfolding read_chunked_body send_http_chunked_body
read_chunked_body-send_http_chunked_body body rest h =
    chunk_loop-send_chunks chunk_size (suc (length (send_http_chunked_body body ++ rest)))
      (length body) [] body rest (omega arith) (omega arith)
      (omega (
        arith,
        length-send_chunks chunk_size (length body) body (omega arith) (omega arith),
        length-append (send_chunks chunk_size (length body) body) rest,
      ))
      (omega (arith, h))
