-- ===== src/Kv/Cloud/Sizes.antt =====
-- The parts of a request that is shorter than 2 ^ 32 bytes are.
use ncloud.Common.{ℕ, ◌≤◌, ◌<◌, ◌^◌, ◌∷◌, ◌++◌, Bytes, length, length-append, arith}
use ncloud.Common.Decimal.{to_string}
use ncloud.Protocol.{send_put, send_get, send_cput, send_delete}
use ncloud.Server.Requests.{Fits}

-- A text that stands behind another is no longer than both.
behind : (a s : Bytes) → length s ≤ length (a ++ s)
behind a s = omega (arith, length-append a s)

before : (a s : Bytes) → length a ≤ length (a ++ s)
before a s = omega (arith, length-append a s)

-- A header's number, with a byte before what follows it.
after_number : (n c : ℕ) (s : Bytes) → length s < length (to_string n ++ (c ∷ s))
after_number n c s = omega (arith, behind (to_string n) (c ∷ s))

pub send_get-Fits : (row col : Bytes) → length (send_get row col) < 2 ^ 32 → Fits row × Fits col
unfolding send_get
send_get-Fits row col h =
    let tail = 10 ∷ (row ++ col) in
    let size : length (row ++ col) < 2 ^ 32 = omega (
      arith,
      h,
      after_number (length col) 13 tail,
      after_number (length row) 32 (to_string (length col) ++ (13 ∷ tail)),
    ) in
    (omega (arith, size, before row col), omega (arith, size, behind row col))

pub send_delete-Fits :
    (row col : Bytes) → length (send_delete row col) < 2 ^ 32 → Fits row × Fits col
unfolding send_delete
send_delete-Fits row col h =
    let tail = 10 ∷ (row ++ col) in
    let size : length (row ++ col) < 2 ^ 32 = omega (
      arith,
      h,
      after_number (length col) 13 tail,
      after_number (length row) 32 (to_string (length col) ++ (13 ∷ tail)),
    ) in
    (omega (arith, size, before row col), omega (arith, size, behind row col))

pub send_put-Fits :
    (row col val : Bytes) → length (send_put row col val) < 2 ^ 32 → Fits row × Fits col × Fits val
unfolding send_put
send_put-Fits row col val h =
    let tail = 10 ∷ (row ++ (col ++ val)) in
    let last = to_string (length val) ++ (13 ∷ tail) in
    let size : length (row ++ (col ++ val)) < 2 ^ 32 = omega (
      arith,
      h,
      after_number (length val) 13 tail,
      after_number (length col) 32 last,
      after_number (length row) 32 (to_string (length col) ++ (32 ∷ last)),
    ) in
    let inner = behind row (col ++ val) in
    (
      omega (arith, size, before row (col ++ val)),
      omega (arith, size, inner, before col val),
      omega (arith, size, inner, behind col val),
    )

pub send_cput-Fits :
    (row col v1 v2 : Bytes)
    → length (send_cput row col v1 v2) < 2 ^ 32
    → Fits row × Fits col × Fits v1 × Fits v2
unfolding send_cput
send_cput-Fits row col v1 v2 h =
    let tail = 10 ∷ (row ++ (col ++ (v1 ++ v2))) in
    let last = to_string (length v2) ++ (13 ∷ tail) in
    let third = to_string (length v1) ++ (32 ∷ last) in
    let size : length (row ++ (col ++ (v1 ++ v2))) < 2 ^ 32 = omega (
      arith,
      h,
      after_number (length v2) 13 tail,
      after_number (length v1) 32 last,
      after_number (length col) 32 third,
      after_number (length row) 32 (to_string (length col) ++ (32 ∷ third)),
    ) in
    let inner = behind row (col ++ (v1 ++ v2)) in
    let inmost = behind col (v1 ++ v2) in
    (
      omega (arith, size, before row (col ++ (v1 ++ v2))),
      omega (arith, size, inner, before col (v1 ++ v2)),
      omega (arith, size, inner, inmost, before v1 v2),
      omega (arith, size, inner, inmost, behind v1 v2),
    )
