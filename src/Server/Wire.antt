-- ===== src/Server/Wire.antt =====
-- The same of CPUT and DELETE, and the four requests together.
use ncloud.Common.{
  ◌≡◌, refl, ap, ◌∙◌, some, List, [], ◌∷◌, ◌++◌, append_assoc, append-nil, Bytes, codes, length,
  arith, bytes_eq,
}
use ncloud.Codec.Laws.{read_exact-append}
use ncloud.Common.Decimal.{read_word}
use ncloud.Protocol.{send_put, send_get, send_cput, send_delete}
use ncloud.Server.{
  Env, HostedTablet, answered, handle_request, on_row, put_row, get_row, cput_row, delete_row,
  dispatch, two_lengths, four_lengths, read_two, read_four, pair_fields, cput_fields,
}
use ncloud.Server.Requests.{
  Fits, spaced, read_spaced, spaced-InLine, length-spaced, length-spaced_nil, handle_request-line,
  put_request, get_request,
}

cput_shape :
    (row col v1 v2 rest : Bytes)
    → send_cput row col v1 v2 ++ rest
      ≡ (codes "CPUT" ++ spaced (row ∷ col ∷ v1 ∷ v2 ∷ []))
        ++ (13 ∷ 10 ∷ (row ++ (col ++ (v1 ++ (v2 ++ rest)))))
unfolding send_cput spaced
cput_shape row col v1 v2 rest = simp (append_assoc, append-nil)

cput_payload :
    (row col v1 v2 rest : Bytes)
    → read_four
        (length row)
        (length col)
        (length v1)
        (length v2)
        (row ++ (col ++ (v1 ++ (v2 ++ rest))))
      ≡ some (row, col, v1, v2, rest)
unfolding read_four
cput_payload row col v1 v2 rest = simp read_exact-append

cput_line :
    (env : Env) (row col v1 v2 s : Bytes) (hs : List HostedTablet)
    → let line = codes "CPUT" ++ spaced (row ∷ col ∷ v1 ∷ v2 ∷ []) in
      dispatch env (read_word line).0 (read_word line).1 s hs
      ≡ cput_fields env (four_lengths (spaced (row ∷ col ∷ v1 ∷ v2 ∷ []))) s hs
unfolding dispatch read_word bytes_eq spaced
cput_line env row col v1 v2 s hs = refl

cput_lengths :
    (row col v1 v2 : Bytes)
    → Fits row
    → Fits col
    → Fits v1
    → Fits v2
    → four_lengths (spaced (row ∷ col ∷ v1 ∷ v2 ∷ []))
      ≡ some (length row, length col, length v1, length v2)
unfolding four_lengths
cput_lengths row col v1 v2 f0 f1 f2 f3 =
    rw
      (
        read_spaced row (col ∷ v1 ∷ v2 ∷ []) f0,
        read_spaced col (v1 ∷ v2 ∷ []) f1,
        read_spaced v1 (v2 ∷ []) f2,
        read_spaced v2 ([]) f3,
      )
      refl

cput_handled :
    (env : Env) (row col v1 v2 rest : Bytes) (hs : List HostedTablet)
    → let r = on_row row (cput_row env row col v1 v2) hs in
      cput_fields env
        (some (length row, length col, length v1, length v2))
        (row ++ (col ++ (v1 ++ (v2 ++ rest))))
        hs
      ≡ answered r.0 rest r.1
unfolding cput_fields
cput_handled env row col v1 v2 rest hs = rw (cput_payload row col v1 v2 rest, cput_fields) refl

pub cput_request :
    (env : Env) (row col v1 v2 rest : Bytes) (hs : List HostedTablet)
    → Fits row
    → Fits col
    → Fits v1
    → Fits v2
    → let r = on_row row (cput_row env row col v1 v2) hs in
      handle_request env (send_cput row col v1 v2 ++ rest) hs ≡ answered r.0 rest r.1
cput_request env row col v1 v2 rest hs f0 f1 f2 f3 =
    ap (λ s. handle_request env s hs) (cput_shape row col v1 v2 rest)
    ∙ handle_request-line env b'C' (codes "PUT" ++ spaced (row ∷ col ∷ v1 ∷ v2 ∷ []))
        (row ++ (col ++ (v1 ++ (v2 ++ rest)))) hs
        (refl, (refl, (refl, (refl, spaced-InLine (row ∷ col ∷ v1 ∷ v2 ∷ [])))))
        (omega (
          arith,
          length-spaced row (col ∷ v1 ∷ v2 ∷ []),
          length-spaced col (v1 ∷ v2 ∷ []),
          length-spaced v1 (v2 ∷ []),
          length-spaced v2 ([]),
          length-spaced_nil,
        ))
    ∙ cput_line env row col v1 v2 (row ++ (col ++ (v1 ++ (v2 ++ rest)))) hs
    ∙ ap (λ o. cput_fields env o (row ++ (col ++ (v1 ++ (v2 ++ rest)))) hs)
        (cput_lengths row col v1 v2 f0 f1 f2 f3)
    ∙ cput_handled env row col v1 v2 rest hs

delete_shape :
    (row col rest : Bytes)
    → send_delete row col ++ rest
      ≡ (codes "DELETE" ++ spaced (row ∷ col ∷ [])) ++ (13 ∷ 10 ∷ (row ++ (col ++ rest)))
unfolding send_delete spaced
delete_shape row col rest = simp (append_assoc, append-nil)

delete_payload :
    (row col rest : Bytes)
    → read_two (length row) (length col) (row ++ (col ++ rest)) ≡ some (row, col, rest)
unfolding read_two
delete_payload row col rest = simp read_exact-append

delete_line :
    (env : Env) (row col s : Bytes) (hs : List HostedTablet)
    → let line = codes "DELETE" ++ spaced (row ∷ col ∷ []) in
      dispatch env (read_word line).0 (read_word line).1 s hs
      ≡ pair_fields
          (codes "malformed DELETE header")
          (delete_row env)
          (two_lengths (spaced (row ∷ col ∷ [])))
          s
          hs
unfolding dispatch read_word bytes_eq spaced
delete_line env row col s hs = refl

delete_lengths :
    (row col : Bytes)
    → Fits row
    → Fits col
    → two_lengths (spaced (row ∷ col ∷ [])) ≡ some (length row, length col)
unfolding two_lengths
delete_lengths row col f0 f1 = rw (read_spaced row (col ∷ []) f0, read_spaced col ([]) f1) refl

delete_handled :
    (env : Env) (row col rest : Bytes) (hs : List HostedTablet)
    → let r = on_row row (delete_row env row col) hs in
      pair_fields
        (codes "malformed DELETE header")
        (delete_row env)
        (some (length row, length col))
        (row ++ (col ++ rest))
        hs
      ≡ answered r.0 rest r.1
unfolding pair_fields
delete_handled env row col rest hs = rw (delete_payload row col rest, pair_fields) refl

pub delete_request :
    (env : Env) (row col rest : Bytes) (hs : List HostedTablet)
    → Fits row
    → Fits col
    → let r = on_row row (delete_row env row col) hs in
      handle_request env (send_delete row col ++ rest) hs ≡ answered r.0 rest r.1
delete_request env row col rest hs f0 f1 =
    ap (λ s. handle_request env s hs) (delete_shape row col rest)
    ∙ handle_request-line env b'D' (codes "ELETE" ++ spaced (row ∷ col ∷ [])) (row ++ (col ++ rest))
        hs (refl, (refl, (refl, (refl, (refl, (refl, spaced-InLine (row ∷ col ∷ [])))))))
        (omega (arith, length-spaced row (col ∷ []), length-spaced col ([]), length-spaced_nil))
    ∙ delete_line env row col (row ++ (col ++ rest)) hs
    ∙ ap
        (λ o.
          pair_fields (codes "malformed DELETE header") (delete_row env) o (row ++ (col ++ rest))
            hs)
        (delete_lengths row col f0 f1)
    ∙ delete_handled env row col rest hs

-- Each request that a client sends, with parts shorter than 2 ^ 32 bytes, is handled as the one call
-- that it stands for, by the tablet of its row, and what the client sent behind it is still unread.
pub handle_request_lem :
    (env : Env) (row col v1 v2 rest : Bytes) (hs : List HostedTablet)
    → Fits row
    → Fits col
    → Fits v1
    → Fits v2
    → let served = λ (r : Bytes × List HostedTablet). answered r.0 rest r.1 in
      (handle_request env (send_put row col v1 ++ rest) hs
        ≡ served (on_row row (put_row env row col v1) hs))
      × (handle_request env (send_get row col ++ rest) hs
          ≡ served (on_row row (get_row row col) hs))
      × (handle_request env (send_cput row col v1 v2 ++ rest) hs
          ≡ served (on_row row (cput_row env row col v1 v2) hs))
      × (handle_request env (send_delete row col ++ rest) hs
          ≡ served (on_row row (delete_row env row col) hs))
handle_request_lem env row col v1 v2 rest hs f0 f1 f2 f3 = (
  put_request env row col v1 rest hs f0 f1 f2,
  get_request env row col rest hs f0 f1,
  cput_request env row col v1 v2 rest hs f0 f1 f2 f3,
  delete_request env row col rest hs f0 f1,
)
