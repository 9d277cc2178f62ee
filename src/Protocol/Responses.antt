-- ===== src/Protocol/Responses.antt =====
-- A response that a server writes is read as what it says.
use ncloud.Common.{
  ℕ, ◌+◌, ◌≤◌, ◌<◌, ◌^◌, ◌≡◌, refl, ap, ◌∙◌, [], ◌∷◌, ◌++◌, append_assoc, Bytes, codes, length, All,
  true, false, ltb, lt→ltb, arith,
}
use ncloud.Codec.Laws.{read_exact-append}
use ncloud.Common.Search.{starts_with}
use ncloud.Common.Decimal.{to_string}
use ncloud.Common.Decimal.Printed.{length-to_string, to_string_pos, read_unsigned-to_string_only}
use ncloud.Protocol.{
  ok_response, ok_value_response, err_response, read_response, response, of_line, with_length,
  with_value, failure,
}
use ncloud.Protocol.Lines.{InLine, read_line-append, to_string-InLine}

value_line : ℕ → Bytes
value_line n = codes "+OK " ++ to_string n

read_response-line :
    (line rest : Bytes)
    → All InLine line
    → length line + 1 ≤ 8192
    → read_response (line ++ (13 ∷ 10 ∷ rest)) ≡ of_line line rest
unfolding read_response
read_response-line line rest h le = ap response (read_line-append line rest h le)

longer : (n : ℕ) → ltb 4 (length (codes "+OK " ++ to_string n)) ≡ true
longer n = lt→ltb 4 _ (omega (arith, to_string_pos n))

value_line_lem :
    (val rest : Bytes)
    → length val < 2 ^ 64
    → of_line (value_line (length val)) (val ++ rest)
      ≡ (record { ok = true; value = val; error = [] }, rest)
unfolding value_line of_line starts_with
value_line_lem val rest h = rw (longer (length val)) (
    rw (read_unsigned-to_string_only (2 ^ 64) (length val) h (omega arith))
      (unfold with_length in rw (read_exact-append val rest) (unfold with_value in refl)))

value_line-InLine : (n : ℕ) → All InLine (value_line n)
unfolding value_line
value_line-InLine n = (refl, (refl, (refl, (refl, to_string-InLine n))))

shape :
    (val rest : Bytes)
    → ok_value_response val ++ rest ≡ value_line (length val) ++ (13 ∷ 10 ∷ (val ++ rest))
unfolding ok_value_response value_line
shape val rest = append_assoc (codes "+OK " ++ to_string (length val)) (13 ∷ 10 ∷ val) rest

error_shape :
    (msg rest : Bytes) → err_response msg ++ rest ≡ (codes "-ERR " ++ msg) ++ (13 ∷ 10 ∷ rest)
unfolding err_response
error_shape msg rest = append_assoc (codes "-ERR " ++ msg) (13 ∷ 10 ∷ []) rest

plain_line :
    (rest : Bytes)
    → of_line (codes "+OK") rest ≡ (record { ok = true; value = []; error = [] }, rest)
unfolding of_line starts_with
plain_line rest = refl

error_line :
    (msg rest : Bytes)
    → of_line (codes "-ERR " ++ msg) rest ≡ (record { ok = false; value = []; error = msg }, rest)
unfolding of_line starts_with failure
error_line [] rest = refl
error_line (c ∷ msg) rest = ground arith

-- A client reads each response as the server wrote it and leaves what follows: the value that a
-- GET found, a plain success, and an error with its message.
pub read_response_lem :
    (val msg rest : Bytes)
    → length val < 2 ^ 64
    → All InLine msg
    → length msg ≤ 8000
    → (read_response (ok_value_response val ++ rest)
        ≡ (record { ok = true; value = val; error = [] }, rest))
      × (read_response (ok_response ++ rest) ≡ (record { ok = true; value = []; error = [] }, rest))
      × (read_response (err_response msg ++ rest)
          ≡ (record { ok = false; value = []; error = msg }, rest))
read_response_lem val msg rest small inl short = (
  ap read_response (shape val rest)
      ∙ read_response-line (value_line (length val)) (val ++ rest) (value_line-InLine (length val))
          (unfold value_line in omega (arith, length-to_string (length val)))
      ∙ value_line_lem val rest small,
  read_response-line (codes "+OK") rest (refl, (refl, (refl, tt))) (omega arith) ∙ plain_line rest,
  ap read_response (error_shape msg rest)
      ∙ read_response-line (codes "-ERR " ++ msg) rest (refl, (refl, (refl, (refl, (refl, inl)))))
          (omega arith)
      ∙ error_line msg rest,
)
