-- ===== src/Replication/Writes/Rollback.antt =====
-- The primary's writes: what a client reads after each of them, with the quorum and without it.
use ncloud.Common.{
  ℕ, ◌≡◌, refl, sym, ap, Option, none, some, Bytes, bytes_eq_iff, Bool, true, false, if◌then◌else◌,
  ◌&&◌, arith, Bool-cases, inl, inr,
}
use ncloud.Rows.{cell}
use ncloud.Tablet.Cells.{IsIndexed, get-eq-cell}
use ncloud.Tablet.Calls.{is_cell, put-cell, put-IsIndexed, del-IsIndexed}
use ncloud.Tablet.Refine.{del_refines}
use ncloud.Tablet.{Tablet, Write, whole, torn, Outcome, put, get, del}
use ncloud.Replication.{Manager, Network, forward_to_all}
use ncloud.Replication.Quorum.{forward_to_all-keeps}
use ncloud.Replication.Writes.{
  KvPutStatus, ok, quorum_unavailable, mismatch, error, rolled_back, roll_back_to, roll_back_put,
  forward_write, settle,
}

abbrev pub is_ok : KvPutStatus → Bool
is_ok ok = true
is_ok quorum_unavailable = false
is_ok mismatch = false
is_ok error = false

rolled_back-tablet :
    (net : Network) (msg : ℕ → Bytes) (m : Manager) (s : Outcome × Tablet)
    → (rolled_back net msg m s).tablet ≡ s.1
unfolding rolled_back
rolled_back-tablet net msg m (o, t) = elim (Bool-cases o.ok) [
  | inl e ↦ rw e (ap (λ (n : Manager). n.tablet) (forward_to_all-keeps net (msg o.assigned_lsn) _))
  | inr e ↦ rw e refl
]

-- The tablet after a call that counts it as a read.
pub get-rows : (row col : Bytes) (t : Tablet) → (get row col t).1.rows ≡ t.rows
unfolding get
get-rows row col t = ground arith

pub get-bloom : (row col : Bytes) (t : Tablet) → (get row col t).1.bloom ≡ t.bloom
unfolding get
get-bloom row col t = ground arith

pub put-wal :
    (w : Write) (row col val : Bytes) (t : Tablet)
    → (put w row col val t).0.ok ≡ true
    → ((put w row col val t).1.wal_open ≡ true) × ((put w row col val t).1.wal_good ≡ true)
unfolding put
put-wal whole row col val t h = ground arith
put-wal (torn n) row col val t h = ground arith

put_whole-ok :
    (row col val : Bytes) (t : Tablet)
    → t.wal_open ≡ true
    → t.wal_good ≡ true
    → (put whole row col val t).0.ok ≡ true
unfolding put
put_whole-ok row col val t o g = ground arith

-- A table in which one cell was written, or cleared, and that gets its old value back.
restored :
    (row col old : Bytes) (new : Option Bytes) (t t₀ : Tablet)
    → ((r c : Bytes) → cell r c t.rows ≡ (if is_cell row col r c then new else cell r c t₀.rows))
    → cell row col t₀.rows ≡ some old
    → t.wal_open ≡ true
    → t.wal_good ≡ true
    → (r c : Bytes) → cell r c (put whole row col old t).1.rows ≡ cell r c t₀.rows
restored row col old new t t₀ h e o g r c = ground (
  arith,
  put-cell whole row col old r c t,
  put_whole-ok row col old t o g,
  h r c,
  bytes_eq_iff row r,
  bytes_eq_iff col c,
  e,
)

del_whole-ok :
    (row col : Bytes) (t : Tablet)
    → t.wal_open ≡ true
    → t.wal_good ≡ true
    → (del whole row col t).0.ok ≡ true
unfolding del
del_whole-ok row col t o g = ground arith

-- The same for a cell that was not there.
cleared :
    (row col : Bytes) (new : Option Bytes) (t t₀ : Tablet)
    → IsIndexed t
    → ((r c : Bytes) → cell r c t.rows ≡ (if is_cell row col r c then new else cell r c t₀.rows))
    → cell row col t₀.rows ≡ none
    → t.wal_open ≡ true
    → t.wal_good ≡ true
    → (r c : Bytes) → cell r c (del whole row col t).1.rows ≡ cell r c t₀.rows
cleared row col new t t₀ v h e o g r c = ground (
  arith,
  sym (get-eq-cell r c (del whole row col t).1 (del-IsIndexed whole row col t v)),
  (del_refines whole row col t v).1 r c,
  (del_refines whole row col t v).2 (del_whole-ok row col t o g),
  get-eq-cell r c t v,
  h r c,
  bytes_eq_iff row r,
  bytes_eq_iff col c,
  e,
)

-- What a write shows: its table is in step with the filter, and the one cell is the new one where
-- the status is `ok`; all else is as before.
unfoldable pub Shown : Bytes → Bytes → Option Bytes → Tablet → KvPutStatus × Manager → Type 0
Shown row col new t₀ s =
    IsIndexed s.1.tablet
    × ((r c : Bytes)
        → cell r c s.1.tablet.rows
          ≡ (if is_ok s.0 && is_cell row col r c then new else cell r c t₀.rows))

module _ (net : Network) (msg : ℕ → Bytes) (row col : Bytes) (new : Option Bytes)
    (t₀ : Tablet) where
  settle-Shown :
      (undo : Manager → Manager) (m : Manager)
      → IsIndexed m.tablet
      → ((r c : Bytes)
          → cell r c m.tablet.rows ≡ (if is_cell row col r c then new else cell r c t₀.rows))
      → ((n : Manager)
          → n.tablet ≡ m.tablet
          → IsIndexed (undo n).tablet
            × ((r c : Bytes) → cell r c (undo n).tablet.rows ≡ cell r c t₀.rows))
      → (text : Bytes) → Shown row col new t₀ (settle undo (forward_to_all net text m))
  unfolding Shown settle
  settle-Shown undo m v h u text =
      go (forward_to_all net text m).0 (forward_to_all net text m).1
        (ap (λ (n : Manager). n.tablet) (forward_to_all-keeps net text m))
    where
      go :
          (b : Bool) (n : Manager) → n.tablet ≡ m.tablet → Shown row col new t₀ (settle undo (b, n))
      go true n e = (rw e v, λ r c. rw e (h r c))
      go false n e = ((u n e).0, (u n e).1)

  pub forward_write-Shown :
      (undo : Manager → Manager) (m : Manager) (o : Outcome) (t : Tablet)
      → IsIndexed t
      → ((r c : Bytes)
          → cell r c t.rows ≡ (if o.ok && is_cell row col r c then new else cell r c t₀.rows))
      → (o.ok ≡ true
          → (n : Manager) → n.tablet ≡ t
          → IsIndexed (undo n).tablet
            × ((r c : Bytes) → cell r c (undo n).tablet.rows ≡ cell r c t₀.rows))
      → Shown row col new t₀ (forward_write net msg undo m (o, t))
  unfolding forward_write Shown
  forward_write-Shown undo m o t v h u = elim (Bool-cases o.ok) [
    | inl e ↦ rw e (
        settle-Shown undo (record m { tablet = t; last_repl_lsn = o.assigned_lsn }) v (rw e at h)
          (u e) (msg o.assigned_lsn))
    | inr e ↦ rw e (v, rw e at h)
  ]

module _ (net : Network) (row col : Bytes) where
  pub roll_back_to-restores :
      (old : Bytes) (new : Option Bytes) (t t₀ : Tablet) (n : Manager)
      → n.tablet ≡ t
      → IsIndexed t
      → ((r c : Bytes) → cell r c t.rows ≡ (if is_cell row col r c then new else cell r c t₀.rows))
      → cell row col t₀.rows ≡ some old
      → (t.wal_open ≡ true) × (t.wal_good ≡ true)
      → let u = (roll_back_to net whole row col old n).tablet in
        IsIndexed u × ((r c : Bytes) → cell r c u.rows ≡ cell r c t₀.rows)
  unfolding roll_back_to
  roll_back_to-restores old new t t₀ n e v h k w =
      rw (rolled_back-tablet net _ n (put whole row col old n.tablet), e)
        (put-IsIndexed whole row col old t v, restored row col old new t t₀ h k w.0 w.1)

  pub roll_back_put-restores :
      (old : Option Bytes) (val : Bytes) (t t₀ : Tablet) (n : Manager)
      → n.tablet ≡ t
      → IsIndexed t
      → ((r c : Bytes)
          → cell r c t.rows ≡ (if is_cell row col r c then some val else cell r c t₀.rows))
      → cell row col t₀.rows ≡ old
      → (t.wal_open ≡ true) × (t.wal_good ≡ true)
      → let u = (roll_back_put net whole row col old n).tablet in
        IsIndexed u × ((r c : Bytes) → cell r c u.rows ≡ cell r c t₀.rows)
  unfolding roll_back_put
  roll_back_put-restores (some old) val t t₀ n e v h k w =
      roll_back_to-restores old (some val) t t₀ n e v h k w
  roll_back_put-restores none val t t₀ n e v h k w =
      rw (rolled_back-tablet net _ n (del whole row col n.tablet), e)
        (del-IsIndexed whole row col t v, cleared row col (some val) t t₀ v h k w.0 w.1)
