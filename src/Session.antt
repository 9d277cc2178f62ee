-- ===== src/Session.antt =====
-- frontend/src/session.h: the sessions of the frontend, each in several rows of the storage. The
-- storage tells missing cells from those that it cannot read, as the frontend sets it up.
pub mod Rows
pub mod Created
use ncloud.Common.{
  ℕ, zero, suc, ◌+◌, ◌^◌, Option, none, some, List, [], ◌∷◌, ◌++◌, Bytes, codes, length, Bool, true,
  false, ltb, ◌==◌, ◌||◌, not, if◌then◌else◌, bytes_eq,
}
use ncloud.Common.Decimal.{to_string, skip_space, read_magnitude}
use ncloud.Kv.{Kv, KvReadStatus, found, not_found, unavailable}
use ncloud.Password.{to_hex}

-- Seven days.
abbrev pub session_ttl_seconds : ℕ
session_ttl_seconds = 604800

-- The sixteen bytes of the system's source, or `none`.
unfoldable pub generate_sid : Option Bytes → Bytes
generate_sid none = []
generate_sid (some bytes) = to_hex bytes

unfoldable pub session_row : Bytes → Bytes
session_row sid = codes "session:" ++ sid

unfoldable pub session_rows : Bytes → List Bytes
session_rows sid =
    (codes "a:session:" ++ sid)
    ∷ (codes "g:session:" ++ sid)
    ∷ (codes "m:session:" ++ sid)
    ∷ (codes "s:session:" ++ sid)
    ∷ (codes "autha:" ++ sid)
    ∷ (codes "authg:" ++ sid)
    ∷ (codes "authm:" ++ sid)
    ∷ (codes "auths:" ++ sid)
    ∷ session_row sid
    ∷ []

signed : Bool → Option (ℕ × Bytes) → Option (Bool × ℕ)
signed minus none = none
signed minus (some (n, rest)) = some (minus, n)

long_of : Bytes → Option (Bool × ℕ)
unfolding signed
long_of [] = none
long_of (c ∷ s) =
    if c == b'-'
    then signed true (read_magnitude (2 ^ 63 + 1) s)
    else if c == b'+'
    then signed false (read_magnitude (2 ^ 63) s)
    else signed false (read_magnitude (2 ^ 63) (c ∷ s))

-- `std::stol`: whether there is a minus, and the magnitude.
unfoldable pub stol : Bytes → Option (Bool × ℕ)
unfolding long_of
stol s = long_of (skip_space s)

-- The time is past the number.
unfoldable pub past : ℕ → Bool × ℕ → Bool
past now (true, n) = ltb 0 now || ltb 0 n
past now (false, n) = ltb n now

module _ (K : Kv) where
  -- The two cells of one row; a row that is not written whole is taken back.
  unfoldable pub store_row : Bytes → Bytes → Bytes → K.State → Bool × K.State
  store_row username expiry row s =
      let user = K.put row (codes "user") username s in
      let both = K.put row (codes "expiry") expiry user.1 in
      let undone = K.del row (codes "user") both.1 in
      if user.0
      then if both.0 then (true, both.1) else (false, (K.del row (codes "expiry") undone.1).1)
      else (false, user.1)

  -- How many rows were stored.
  unfoldable pub store_rows : Bytes → Bytes → List Bytes → K.State → ℕ × K.State
  unfolding store_row
  store_rows username expiry [] s = (0, s)
  store_rows username expiry (row ∷ rows) s =
      let here = store_row username expiry row s in
      let rest = store_rows username expiry rows here.1 in
      ((if here.0 then rest.0 + 1 else rest.0), rest.1)

  unfoldable pub created : Bytes → ℕ × K.State → Bytes × K.State
  created sid (zero, s) = ([], s)
  created sid (suc n, s) = (sid, s)

  unfoldable pub create_with : ℕ → Bytes → Bytes → K.State → Bytes × K.State
  unfolding created
  create_with now username [] s = ([], s)
  create_with now username (c ∷ sid) s =
      created (c ∷ sid)
        (store_rows username (to_string (now + session_ttl_seconds)) (session_rows (c ∷ sid)) s)

  unfoldable pub create : Option Bytes → ℕ → Bytes → K.State → Bytes × K.State
  unfolding create_with
  create random now username s = create_with now username (generate_sid random) s

  unfoldable pub destroy_rows : List Bytes → K.State → K.State
  destroy_rows [] s = s
  destroy_rows (row ∷ rows) s =
      destroy_rows rows (K.del row (codes "expiry") (K.del row (codes "user") s).1).1

  unfoldable pub destroy : Bytes → K.State → K.State
  destroy sid s = destroy_rows (session_rows sid) s

  -- `destroy_async`, whose thread does nothing else.
  unfoldable pub destroy_async : Bytes → K.State → K.State
  destroy_async sid s = if length sid == 32 then destroy sid s else s

  unfoldable pub repair_rows : Bytes → Bytes → List Bytes → K.State → K.State
  repair_rows username expiry [] s = s
  repair_rows username expiry (row ∷ rows) s =
      repair_rows username expiry rows
        (K.put row (codes "expiry") expiry (K.put row (codes "user") username s).1).1

  pub asked : (K.State → KvReadStatus × K.State) → KvReadStatus × K.State → KvReadStatus × K.State
  asked again (found v, s) = (found v, s)
  asked again (not_found, s) = (not_found, s)
  asked again (unavailable, s) = again s

  -- The reads of a cell until one is answered.
  unfoldable pub retry_get_status : ℕ → Bytes → Bytes → K.State → KvReadStatus × K.State
  unfolding asked
  retry_get_status zero row col s = (unavailable, s)
  retry_get_status (suc n) row col s =
      asked (λ t. retry_get_status n row col t) (K.get_status row col s)

  -- What a row whose cells were read says: nothing, or the session's end, or its user. Only a session
  -- that was found in the oldest kind of row is written again.
  unfoldable pub judge_row :
      ℕ → Bytes → Bytes → Bytes → Bytes → K.State → Option (KvReadStatus × K.State)
  judge_row now sid row username expiry s = elim (stol expiry) [
    | none ↦ none
    | some e ↦ some (
        if past now e then (not_found, destroy sid s) else (
          found username,
          if bytes_eq row (session_row sid)
              then repair_rows username expiry (session_rows sid) s
              else s,
        ))
  ]

  pub ended : Bool → K.State → KvReadStatus × K.State
  ended true s = (unavailable, s)
  ended false s = (not_found, s)

  -- What follows for the rows that are left, with whether a cell could not be read.
  abbrev Rest : Type 0
  Rest = Bool → K.State → KvReadStatus × K.State

  pub judged :
      Option (KvReadStatus × K.State) → (Unit {0} → KvReadStatus × K.State) → KvReadStatus × K.State
  judged none next = next tt
  judged (some r) next = r

  pub on_expiry :
      ℕ → Bytes → Bytes → Bytes → Bool → Rest → KvReadStatus × K.State → KvReadStatus × K.State
  unfolding judged
  on_expiry now sid row username saw rest (unavailable, s) = rest true s
  on_expiry now sid row username saw rest (not_found, s) = rest saw s
  on_expiry now sid row username saw rest (found e, s) =
      judged (judge_row now sid row username e s) (λ _. rest saw s)

  pub on_user : ℕ → Bytes → Bytes → Bool → Rest → KvReadStatus × K.State → KvReadStatus × K.State
  unfolding on_expiry
  on_user now sid row saw rest (unavailable, s) = rest true s
  on_user now sid row saw rest (not_found, s) = rest saw s
  on_user now sid row saw rest (found u, s) =
      on_expiry now sid row u saw rest (retry_get_status 6 row (codes "expiry") s)

  unfoldable pub validate_rows : ℕ → Bytes → List Bytes → Bool → K.State → KvReadStatus × K.State
  unfolding on_user ended
  validate_rows now sid [] saw s = ended saw s
  validate_rows now sid (row ∷ rows) saw s =
      on_user now sid row saw (λ b t. validate_rows now sid rows b t)
        (retry_get_status 6 row (codes "user") s)

  unfoldable pub validate_status : ℕ → Bytes → K.State → KvReadStatus × K.State
  validate_status now sid s =
      if length sid == 32 then validate_rows now sid (session_rows sid) false s else (not_found, s)

  pub username_of : KvReadStatus × K.State → Bytes × K.State
  username_of (found u, s) = (u, s)
  username_of (not_found, s) = ([], s)
  username_of (unavailable, s) = ([], s)

  unfoldable pub validate : ℕ → Bytes → K.State → Bytes × K.State
  unfolding username_of
  validate now sid s = username_of (validate_status now sid s)
