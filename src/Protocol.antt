-- ===== src/Protocol.antt =====
-- kvstore/src/protocol.h: the wire protocol of the key-value servers. What a peer has sent is the
-- list of the bytes that are still unread; what is written is the list of the bytes.
pub mod Lines
pub mod Responses
use ncloud.Common.{
  ℕ, ◌+◌, ◌-◌, ◌^◌, replicate, Option, none, some, [], ◌∷◌, ◌++◌, Bytes, codes, length, drop, Bool,
  true, false, ltb, ◌==◌, if◌then◌else◌,
}
use ncloud.Common.Decimal.{to_string, read_unsigned}
use ncloud.Common.Search.{starts_with}
use ncloud.Codec.{read_exact}

push_front : ℕ → Option (Bytes × Bytes) → Option (Bytes × Bytes)
push_front c none = none
push_front c (some (line, rest)) = some (c ∷ line, rest)

-- The bytes up to the newline, at most 8192 of them; the number counts those before.
line_loop : ℕ → Bytes → Option (Bytes × Bytes)
unfolding push_front
line_loop size [] = none
line_loop size (c ∷ s) =
    let rest = line_loop (size + 1) s in
    if c == b'\n' then some ([], s) else if ltb 8192 (size + 1) then none else push_front c rest

-- `if (line.back() == '\r') line.pop_back()`
strip_return : Bytes → Bytes
strip_return [] = []
strip_return (c ∷ []) = if c == b'\r' then [] else c ∷ []
strip_return (c ∷ d ∷ s) = c ∷ strip_return (d ∷ s)

stripped : Option (Bytes × Bytes) → Option (Bytes × Bytes)
unfolding strip_return
stripped none = none
stripped (some (line, rest)) = some (strip_return line, rest)

-- `none` is a closed connection or a line that is too long.
unfoldable pub read_line : Bytes → Option (Bytes × Bytes)
unfolding line_loop stripped
read_line s = stripped (line_loop 0 s)

abbrev pub ok_response : Bytes
ok_response = codes "+OK\r\n"

unfoldable pub ok_value_response : Bytes → Bytes
ok_value_response val = codes "+OK " ++ (to_string (length val) ++ (13 ∷ 10 ∷ val))

unfoldable pub err_response : Bytes → Bytes
err_response msg = codes "-ERR " ++ (msg ++ (13 ∷ 10 ∷ []))

unfoldable pub send_put : Bytes → Bytes → Bytes → Bytes
send_put row col val =
    codes "PUT "
    ++ (to_string (length row)
        ++ (32
            ∷ (to_string (length col)
                ++ (32 ∷ (to_string (length val) ++ (13 ∷ 10 ∷ (row ++ (col ++ val))))))))

unfoldable pub send_get : Bytes → Bytes → Bytes
send_get row col =
    codes "GET "
    ++ (to_string (length row) ++ (32 ∷ (to_string (length col) ++ (13 ∷ 10 ∷ (row ++ col)))))

unfoldable pub send_cput : Bytes → Bytes → Bytes → Bytes → Bytes
send_cput row col v1 v2 =
    codes "CPUT "
    ++ (to_string (length row)
        ++ (32
            ∷ (to_string (length col)
                ++ (32
                    ∷ (to_string (length v1)
                        ++ (32
                            ∷ (to_string (length v2)
                                ++ (13 ∷ 10 ∷ (row ++ (col ++ (v1 ++ v2)))))))))))

unfoldable pub send_delete : Bytes → Bytes → Bytes
send_delete row col =
    codes "DELETE "
    ++ (to_string (length row) ++ (32 ∷ (to_string (length col) ++ (13 ∷ 10 ∷ (row ++ col)))))

pub record KvResponse : Type 0 where
  pub ok : Bool
  pub value : Bytes
  pub error : Bytes

failure : Bytes → KvResponse
failure msg = record { ok = false; value = []; error = msg }

-- The bytes of the value. One that is cut short has been resized before it was read.
with_value : ℕ → Bytes → Option (Bytes × Bytes) → KvResponse × Bytes
with_value n rest none = (
  record {
    ok = false;
    value = rest ++ replicate (n - length rest) 0;
    error = codes "truncated value";
  },
  [],
)
with_value n rest (some (value, behind)) = (record { ok = true; value = value; error = [] }, behind)

-- The length behind `+OK `, which has to be all of the line.
with_length : Bytes → Option (ℕ × Bytes) → KvResponse × Bytes
unfolding failure with_value
with_length rest none = (failure (codes "bad value length"), rest)
with_length rest (some (n, [])) = with_value n rest (read_exact n rest)
with_length rest (some (n, c ∷ s)) = (failure (codes "bad value length"), rest)

of_line : Bytes → Bytes → KvResponse × Bytes
unfolding failure with_length
of_line line rest =
    if starts_with (codes "+OK") line
    then if ltb 4 (length line)
      then with_length rest (read_unsigned (2 ^ 64) (drop 4 line))
      else (record { ok = true; value = []; error = [] }, rest)
    else if starts_with (codes "-ERR") line
    then (failure (if ltb 5 (length line) then drop 5 line else []), rest)
    else (failure [], rest)

response : Option (Bytes × Bytes) → KvResponse × Bytes
unfolding failure of_line
response none = (failure (codes "connection closed"), [])
response (some (line, rest)) = of_line line rest

-- The response, and what is still unread behind it.
unfoldable pub read_response : Bytes → KvResponse × Bytes
unfolding response
read_response s = response (read_line s)
