-- ===== src/Session/Created.antt =====
-- frontend/src/session.h: a session that was created is found until it expires.
use ncloud.Common.{ℕ, ◌≡◌, ◌≢◌, none, Bytes, codes, Bool, if◌then◌else◌, All}
use ncloud.Kv.{Kv, KvReadStatus, found, not_found, unavailable, IsLawful, IsUp, Tells}
use ncloud.Session.{session_rows, past}

module _ (K : Kv) (L : IsLawful K) (up : IsUp K) where
  -- The cells are those of another state.
  abbrev Alike : K.State → K.State → Type 0
  Alike s t = (i j : Bytes) → L.view t i j ≡ L.view s i j

  -- An answered read: what it says, that it says something, and that nothing changed.
  abbrev Read : Bytes → Bytes → K.State → KvReadStatus × K.State → Type 0
  Read r c s a = Tells a.0 (L.view s r c) × (a.0 ≢ unavailable) × Alike s a.1

  module _ (u e : Bytes) (limit : Bool × ℕ) (now : ℕ) (sid : Bytes) where
    -- What a row with the whole session says.
    abbrev Outcome : KvReadStatus
    Outcome = if past now limit then not_found else found u

    -- The rows that are left, from any state with the same cells, where one of them is full.
    abbrev Goes : K.State → (Bool → K.State → KvReadStatus × K.State) → Type 0
    Goes s rest = (b : Bool) (t : K.State) → Alike s t → (rest b t).0 ≡ Outcome

-- The storage has nothing of the session.
abbrev pub Unused : (K : Kv) (L : IsLawful K) → Bytes → K.State → Type 0
Unused K L sid s =
    All (λ r. (L.view s r (codes "user") ≡ none) × (L.view s r (codes "expiry") ≡ none))
      (session_rows sid)
