-- ===== src/Replication/Writes/Client.antt =====
-- What a client of the primary sees of a replicated write.
use ncloud.Common.{
  ◌≡◌, refl, sym, ap, ◌∙◌, Option, none, some, Bytes, bytes_eq, true, false, if◌then◌else◌, ◌&&◌,
  arith, if_elim, Bool, Bool-cases, inl, inr,
}
use ncloud.Rows.{cell}
use ncloud.Tablet.Cells.{IsIndexed, get-eq-cell, same_table-IsIndexed}
use ncloud.Tablet.Calls.{is_cell, put-cell, put-IsIndexed, cput-IsIndexed}
use ncloud.Tablet.Refine.{cput-cell}
use ncloud.Tablet.{Tablet, Write, Outcome, whole, torn, put, get, cput}
use ncloud.Replication.{Manager, Network, make_repl_put, forward_to_all}
use ncloud.Replication.Writes.{
  KvPutStatus, ok, quorum_unavailable, mismatch, error, forward_write, settle, replicated_put,
  put_over, roll_back_put, roll_back_to, replicated_cput, cput_over,
}
use ncloud.Replication.Writes.Rollback.{
  is_ok, Shown, forward_write-Shown, roll_back_to-restores, roll_back_put-restores, put-wal,
  get-rows, get-bloom,
}

pub get-IsIndexed : (row col : Bytes) (t : Tablet) → IsIndexed t → IsIndexed (get row col t).1
get-IsIndexed row col t v = same_table-IsIndexed t _ (get-rows row col t) (get-bloom row col t) v

pub unchanged :
    (row col : Bytes) (new : Option Bytes) (m : Manager) (status : KvPutStatus)
    → is_ok status ≡ false
    → IsIndexed m.tablet
    → Shown row col new m.tablet (status, m)
unfolding Shown
unchanged row col new m status e v = (v, λ r c. rw e refl)

unwritten :
    (row col : Bytes) (new : Option Bytes) (m : Manager) (status : KvPutStatus)
    → is_ok status ≡ false
    → (t : Tablet) → IsIndexed t
    → t.rows ≡ m.tablet.rows
    → Shown row col new m.tablet (status, record m { tablet = t })
unfolding Shown
unwritten row col new m status e t v h = (v, λ r c. rw (e, h) refl)

put_over-Shown :
    (net : Network) (w : Write) (row col val : Bytes) (m : Manager) (old : Option Bytes)
    (t t₀ : Tablet)
    → IsIndexed t
    → t.rows ≡ t₀.rows
    → cell row col t₀.rows ≡ old
    → Shown row col (some val) t₀ (put_over net w whole row col val m (old, t))
unfolding put_over
put_over-Shown net w row col val m old t t₀ v e k =
    forward_write-Shown net (λ lsn. make_repl_put m.tablet_name lsn row col val) row col (some val)
      t₀ (roll_back_put net whole row col old) m (put w row col val t).0 (put w row col val t).1
      (put-IsIndexed w row col val t v) now
      λ o n q.
        roll_back_put-restores net row col old val (put w row col val t).1 t₀ n q
          (put-IsIndexed w row col val t v) (rw o at now) k (put-wal w row col val t o)
  where
    now :
        (r c : Bytes)
        → cell r c (put w row col val t).1.rows ≡ (
            if (put w row col val t).0.ok && is_cell row col r c
            then some val
            else cell r c t₀.rows)
    now r c = rw (sym e) (put-cell w row col val r c t)

replicated_put-Shown :
    (net : Network) (w : Write) (row col val : Bytes) (m : Manager)
    → IsIndexed m.tablet
    → Shown row col (some val) m.tablet (replicated_put net w whole row col val m)
unfolding replicated_put
replicated_put-Shown net w row col val m v =
    if_elim (Shown row col (some val) m.tablet) m.is_primary _ _
      (λ e.
        put_over-Shown net w row col val m (get row col m.tablet).0 (get row col m.tablet).1
          m.tablet (get-IsIndexed row col m.tablet v) (get-rows row col m.tablet)
          (sym (get-eq-cell row col m.tablet v)))
      λ e. unchanged row col (some val) m error refl v

-- What a client reads, of what a write shows.
pub read_back :
    (row col : Bytes) (new : Option Bytes) (t₀ : Tablet) (s : KvPutStatus × Manager)
    → IsIndexed t₀
    → Shown row col new t₀ s
    → IsIndexed s.1.tablet
      × ((r c : Bytes)
          → (get r c s.1.tablet).0
            ≡ (if is_ok s.0 && is_cell row col r c then new else (get r c t₀).0))
unfolding Shown
read_back row col new t₀ s v h = (
  h.0,
  λ r c.
      get-eq-cell r c s.1.tablet h.0
      ∙ h.1 r c
      ∙ ap (λ o. if is_ok s.0 && is_cell row col r c then new else o) (sym (get-eq-cell r c t₀ v)),
)

-- What a local write leaves to be forwarded.
abbrev pub to_forward : Outcome × Tablet → Manager → Manager
to_forward (o, t) m = record m { tablet = t; last_repl_lsn = o.assigned_lsn }

-- How a PUT ends: at the primary, with the write logged, it is what the forwarding says.
abbrev pub put_status_of :
    Network → Bytes → Bytes → Bytes → Outcome × Tablet → Manager → KvPutStatus
put_status_of net row col val p m =
    if m.is_primary
    then if p.0.ok
      then if (forward_to_all net (make_repl_put m.tablet_name p.0.assigned_lsn row col val)
          (to_forward p m)).0
        then ok
        else quorum_unavailable
      else error
    else error

settle-status :
    (undo : Manager → Manager) (r : Bool × Manager)
    → (settle undo r).0 ≡ (if r.0 then ok else quorum_unavailable)
unfolding settle
settle-status undo (true, m) = refl
settle-status undo (false, m) = refl

replicated_put-status :
    (net : Network) (w wr : Write) (row col val : Bytes) (m : Manager)
    → (replicated_put net w wr row col val m).0
      ≡ put_status_of net row col val (put w row col val (get row col m.tablet).1) m
unfolding replicated_put put_over forward_write
replicated_put-status net w wr row col val m = elim (Bool-cases m.is_primary) [
  | inl e ↦ elim (Bool-cases (put w row col val (get row col m.tablet).1).0.ok) [
    | inl f ↦ rw (e, f) (settle-status _ _)
    | inr f ↦ rw (e, f) refl
  ]
  | inr e ↦ rw e refl
]

-- A replicated PUT whose roll-back, if it comes to one, is logged. Its status is `ok` exactly at the
-- primary, where the write is logged and its forwarding reaches the quorum; then the client reads the
-- new value in the one cell, and otherwise what it read before in every cell.
pub replicated_put_lem :
    (net : Network) (w : Write) (row col val : Bytes) (m : Manager)
    → IsIndexed m.tablet
    → let s = replicated_put net w whole row col val m in
      IsIndexed s.1.tablet
      × ((r c : Bytes)
          → (get r c s.1.tablet).0
            ≡ (if is_ok s.0 && is_cell row col r c then some val else (get r c m.tablet).0))
      × (s.0 ≡ put_status_of net row col val (put w row col val (get row col m.tablet).1) m)
replicated_put_lem net w row col val m v =
    let r =
      read_back row col (some val) m.tablet _ v (replicated_put-Shown net w row col val m v) in
    (r.0, r.1, replicated_put-status net w whole row col val m)

cput-wal :
    (w : Write) (row col v1 v2 : Bytes) (t : Tablet)
    → (cput w row col v1 v2 t).0.ok ≡ true
    → ((cput w row col v1 v2 t).1.wal_open ≡ true) × ((cput w row col v1 v2 t).1.wal_good ≡ true)
unfolding cput
cput-wal whole row col v1 v2 t h = ground arith
cput-wal (torn n) row col v1 v2 t h = ground arith

cput_over-Shown :
    (net : Network) (w : Write) (row col v1 v2 : Bytes) (m : Manager) (old : Option Bytes)
    (t : Tablet)
    → IsIndexed t
    → t.rows ≡ m.tablet.rows
    → cell row col m.tablet.rows ≡ old
    → Shown row col (some v2) m.tablet (cput_over net w whole row col v1 v2 m (old, t))
unfolding cput_over
cput_over-Shown net w row col v1 v2 m none t v e k =
    unwritten row col (some v2) m mismatch refl t v e
cput_over-Shown net w row col v1 v2 m (some old) t v e k =
    if_elim (Shown row col (some v2) m.tablet) (bytes_eq old v1) _ _
      (λ same.
        forward_write-Shown net (λ lsn. make_repl_put m.tablet_name lsn row col v2) row col
          (some v2) m.tablet (roll_back_to net whole row col old) m (cput w row col v1 v2 t).0
          (cput w row col v1 v2 t).1 (cput-IsIndexed w row col v1 v2 t v) now
          λ o n q.
            roll_back_to-restores net row col old (some v2) (cput w row col v1 v2 t).1 m.tablet n q
              (cput-IsIndexed w row col v1 v2 t v) (rw o at now) k (cput-wal w row col v1 v2 t o))
      λ other. unwritten row col (some v2) m mismatch refl t v e
  where
    now :
        (r c : Bytes)
        → cell r c (cput w row col v1 v2 t).1.rows ≡ (
            if (cput w row col v1 v2 t).0.ok && is_cell row col r c
            then some v2
            else cell r c m.tablet.rows)
    now r c = rw (sym e) (cput-cell w row col v1 v2 r c t)

replicated_cput-Shown :
    (net : Network) (w : Write) (row col v1 v2 : Bytes) (m : Manager)
    → IsIndexed m.tablet
    → Shown row col (some v2) m.tablet (replicated_cput net w whole row col v1 v2 m)
unfolding replicated_cput
replicated_cput-Shown net w row col v1 v2 m v =
    if_elim (Shown row col (some v2) m.tablet) m.is_primary _ _
      (λ e.
        cput_over-Shown net w row col v1 v2 m (get row col m.tablet).0 (get row col m.tablet).1
          (get-IsIndexed row col m.tablet v) (get-rows row col m.tablet)
          (sym (get-eq-cell row col m.tablet v)))
      λ e. unchanged row col (some v2) m error refl v

-- A replicated CPUT, with the same of its roll-back: the client reads the replacement in the one
-- cell if the status is `ok`, and what it read before in every cell otherwise.
pub replicated_cput_lem :
    (net : Network) (w : Write) (row col v1 v2 : Bytes) (m : Manager)
    → IsIndexed m.tablet
    → let s = replicated_cput net w whole row col v1 v2 m in
      IsIndexed s.1.tablet
      × ((r c : Bytes)
          → (get r c s.1.tablet).0
            ≡ (if is_ok s.0 && is_cell row col r c then some v2 else (get r c m.tablet).0))
replicated_cput_lem net w row col v1 v2 m v =
    read_back row col (some v2) m.tablet _ v (replicated_cput-Shown net w row col v1 v2 m v)
