-- ===== src/Server/Requests.antt =====
-- A client's request is handled as the call that it stands for.
use ncloud.Common.{
  ℕ, ◌+◌, ◌≤◌, ◌<◌, ◌^◌, ◌≡◌, refl, ap, ◌∙◌, some, List, [], ◌∷◌, ◌++◌, append_assoc, append-nil,
  Bytes, codes, length, length-append, All, All-append, arith, bytes_eq,
}
use ncloud.Codec.Laws.{read_exact-append}
use ncloud.Common.Decimal.{to_string, read_unsigned, read_word}
use ncloud.Common.Decimal.Printed.{
  length-to_string, read_unsigned-to_string, read_unsigned-space, NoDigit,
}
use ncloud.Protocol.{send_put, send_get}
use ncloud.Protocol.Lines.{InLine, read_line-append, to_string-InLine}
use ncloud.Server.{
  Env, HostedTablet, answered, handle_request, on_row, put_row, get_row, dispatch, three_lengths,
  two_lengths, read_two, read_three, put_fields, pair_fields,
}

-- A length fits the 32 bits of the header.
abbrev pub Fits : Bytes → Type 0
Fits s = length s < 2 ^ 32

-- Lengths, with a space before each.
unfoldable pub spaced : List Bytes → Bytes
spaced [] = []
spaced (s ∷ ss) = 32 ∷ (to_string (length s) ++ spaced ss)

pub spaced-NoDigit : (ss : List Bytes) → NoDigit (spaced ss)
unfolding spaced
spaced-NoDigit [] = tt
spaced-NoDigit (s ∷ ss) = refl

pub read_spaced :
    (s : Bytes) (ss : List Bytes)
    → Fits s
    → read_unsigned (2 ^ 32) (spaced (s ∷ ss)) ≡ some (length s, spaced ss)
unfolding spaced
read_spaced s ss h =
    read_unsigned-space (2 ^ 32) (to_string (length s) ++ spaced ss)
    ∙ read_unsigned-to_string (2 ^ 32) (length s) (spaced ss) h (omega arith) (spaced-NoDigit ss)

pub spaced-InLine : (ss : List Bytes) → All InLine (spaced ss)
unfolding spaced
spaced-InLine [] = tt
spaced-InLine (s ∷ ss) = (
  refl,
  All-append InLine (to_string (length s)) (spaced ss) (to_string-InLine (length s))
      (spaced-InLine ss),
)

pub length-spaced :
    (s : Bytes) (ss : List Bytes) → length (spaced (s ∷ ss)) ≤ 21 + length (spaced ss)
unfolding spaced
length-spaced s ss =
    omega (arith, length-append (to_string (length s)) (spaced ss), length-to_string (length s))

-- A request's line is read, and dispatched.
pub handle_request-line :
    (env : Env) (c : ℕ) (line rest : Bytes) (hs : List HostedTablet)
    → All InLine (c ∷ line)
    → length (c ∷ line) + 1 ≤ 8192
    → handle_request env ((c ∷ line) ++ (13 ∷ 10 ∷ rest)) hs
      ≡ dispatch env (read_word (c ∷ line)).0 (read_word (c ∷ line)).1 rest hs
unfolding handle_request
handle_request-line env c line rest hs h le =
    rw (read_line-append (c ∷ line) rest h le, handle_request) refl

pub length-spaced_nil : length (spaced []) ≡ 0
unfolding spaced
length-spaced_nil = refl

put_shape :
    (row col val rest : Bytes)
    → send_put row col val ++ rest
      ≡ (codes "PUT" ++ spaced (row ∷ col ∷ val ∷ []))
        ++ (13 ∷ 10 ∷ (row ++ (col ++ (val ++ rest))))
unfolding send_put spaced
put_shape row col val rest = simp (append_assoc, append-nil)

put_payload :
    (row col val rest : Bytes)
    → read_three (length row) (length col) (length val) (row ++ (col ++ (val ++ rest)))
      ≡ some (row, col, val, rest)
unfolding read_three
put_payload row col val rest = simp read_exact-append

put_line :
    (env : Env) (row col val s : Bytes) (hs : List HostedTablet)
    → let line = codes "PUT" ++ spaced (row ∷ col ∷ val ∷ []) in
      dispatch env (read_word line).0 (read_word line).1 s hs
      ≡ put_fields env (three_lengths (spaced (row ∷ col ∷ val ∷ []))) s hs
unfolding dispatch read_word bytes_eq spaced
put_line env row col val s hs = refl

put_lengths :
    (row col val : Bytes)
    → Fits row
    → Fits col
    → Fits val
    → three_lengths (spaced (row ∷ col ∷ val ∷ [])) ≡ some (length row, length col, length val)
unfolding three_lengths
put_lengths row col val f0 f1 f2 =
    rw (read_spaced row (col ∷ val ∷ []) f0, read_spaced col (val ∷ []) f1, read_spaced val ([]) f2)
      refl

put_handled :
    (env : Env) (row col val rest : Bytes) (hs : List HostedTablet)
    → let r = on_row row (put_row env row col val) hs in
      put_fields env (some (length row, length col, length val)) (row ++ (col ++ (val ++ rest))) hs
      ≡ answered r.0 rest r.1
unfolding put_fields
put_handled env row col val rest hs = rw (put_payload row col val rest, put_fields) refl

pub put_request :
    (env : Env) (row col val rest : Bytes) (hs : List HostedTablet)
    → Fits row
    → Fits col
    → Fits val
    → let r = on_row row (put_row env row col val) hs in
      handle_request env (send_put row col val ++ rest) hs ≡ answered r.0 rest r.1
put_request env row col val rest hs f0 f1 f2 =
    ap (λ s. handle_request env s hs) (put_shape row col val rest)
    ∙ handle_request-line env b'P' (codes "UT" ++ spaced (row ∷ col ∷ val ∷ []))
        (row ++ (col ++ (val ++ rest))) hs
        (refl, (refl, (refl, spaced-InLine (row ∷ col ∷ val ∷ []))))
        (omega (
          arith,
          length-spaced row (col ∷ val ∷ []),
          length-spaced col (val ∷ []),
          length-spaced val ([]),
          length-spaced_nil,
        ))
    ∙ put_line env row col val (row ++ (col ++ (val ++ rest))) hs
    ∙ ap (λ o. put_fields env o (row ++ (col ++ (val ++ rest))) hs)
        (put_lengths row col val f0 f1 f2)
    ∙ put_handled env row col val rest hs

get_shape :
    (row col rest : Bytes)
    → send_get row col ++ rest
      ≡ (codes "GET" ++ spaced (row ∷ col ∷ [])) ++ (13 ∷ 10 ∷ (row ++ (col ++ rest)))
unfolding send_get spaced
get_shape row col rest = simp (append_assoc, append-nil)

get_payload :
    (row col rest : Bytes)
    → read_two (length row) (length col) (row ++ (col ++ rest)) ≡ some (row, col, rest)
unfolding read_two
get_payload row col rest = simp read_exact-append

get_line :
    (env : Env) (row col s : Bytes) (hs : List HostedTablet)
    → let line = codes "GET" ++ spaced (row ∷ col ∷ []) in
      dispatch env (read_word line).0 (read_word line).1 s hs
      ≡ pair_fields
          (codes "malformed GET header")
          get_row
          (two_lengths (spaced (row ∷ col ∷ [])))
          s
          hs
unfolding dispatch read_word bytes_eq spaced
get_line env row col s hs = refl

get_lengths :
    (row col : Bytes)
    → Fits row
    → Fits col
    → two_lengths (spaced (row ∷ col ∷ [])) ≡ some (length row, length col)
unfolding two_lengths
get_lengths row col f0 f1 = rw (read_spaced row (col ∷ []) f0, read_spaced col ([]) f1) refl

get_handled :
    (env : Env) (row col rest : Bytes) (hs : List HostedTablet)
    → let r = on_row row (get_row row col) hs in
      pair_fields
        (codes "malformed GET header")
        get_row
        (some (length row, length col))
        (row ++ (col ++ rest))
        hs
      ≡ answered r.0 rest r.1
unfolding pair_fields
get_handled env row col rest hs = rw (get_payload row col rest, pair_fields) refl

pub get_request :
    (env : Env) (row col rest : Bytes) (hs : List HostedTablet)
    → Fits row
    → Fits col
    → let r = on_row row (get_row row col) hs in
      handle_request env (send_get row col ++ rest) hs ≡ answered r.0 rest r.1
get_request env row col rest hs f0 f1 =
    ap (λ s. handle_request env s hs) (get_shape row col rest)
    ∙ handle_request-line env b'G' (codes "ET" ++ spaced (row ∷ col ∷ [])) (row ++ (col ++ rest)) hs
        (refl, (refl, (refl, spaced-InLine (row ∷ col ∷ []))))
        (omega (arith, length-spaced row (col ∷ []), length-spaced col ([]), length-spaced_nil))
    ∙ get_line env row col (row ++ (col ++ rest)) hs
    ∙ ap (λ o. pair_fields (codes "malformed GET header") get_row o (row ++ (col ++ rest)) hs)
        (get_lengths row col f0 f1)
    ∙ get_handled env row col rest hs
