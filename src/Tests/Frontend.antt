-- ===== src/Tests/Frontend.antt =====
-- The frontend's files, sessions and chunked bodies at concrete inputs.
use ncloud.Common.{◌≡◌, some, [], ◌∷◌, ◌++◌, Bytes, codes, true, false, arith}
use ncloud.Kv.Memory.{Memory}
use ncloud.Http.Chunked.{send_http_chunked_body, read_chunked_body}
use ncloud.Http.Chunked.RoundTrip.{read_chunked_body-send_http_chunked_body}

abbrev empty : Memory
empty = record { cells = []; refusals = [] }

abbrev report : Bytes
report = codes "quarterly report"

read_chunked_body-send_http_chunked_body_example :
    read_chunked_body (send_http_chunked_body report ++ codes "GET /")
    ≡ some (report, codes "GET /")
read_chunked_body-send_http_chunked_body_example =
    read_chunked_body-send_http_chunked_body report (codes "GET /") (omega arith)

-- A storage that refuses the first write and the third.
abbrev refusing : Memory
refusing = record { cells = []; refusals = true ∷ false ∷ true ∷ [] }

abbrev random : Bytes
random = codes "sixteen bytes ok"
