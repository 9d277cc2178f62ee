-- ===== src/Replication/Writes/Deletes.antt =====
-- What a client of the primary sees of a replicated DELETE.
use ncloud.Common.{
  ◌≡◌, refl, sym, Option, none, some, Bytes, bytes_eq_iff, true, false, if◌then◌else◌, ◌&&◌, arith,
  if_elim, Option-cases, inl, inr,
}
use ncloud.Common.Dict.{lookup}
use ncloud.Rows.{cell}
use ncloud.Tablet.Cells.{IsIndexed, get-eq-cell}
use ncloud.Tablet.Calls.{is_cell, del-IsIndexed}
use ncloud.Tablet.Refine.{del-cell, del-missing}
use ncloud.Tablet.{Tablet, Write, whole, torn, get, del}
use ncloud.Replication.{Manager, Network, make_repl_delete}
use ncloud.Replication.Writes.{
  error, forward_write, roll_back_to, replicated_delete, delete_over, roll_back_delete,
}
use ncloud.Replication.Writes.Rollback.{
  is_ok, Shown, forward_write-Shown, roll_back_to-restores, get-rows,
}
use ncloud.Replication.Writes.Client.{get-IsIndexed, unchanged, read_back}

del-wal :
    (w : Write) (row col : Bytes) (t : Tablet)
    → (del w row col t).0.ok ≡ true
    → (del w row col t).0.deleted ≡ true
    → ((del w row col t).1.wal_open ≡ true) × ((del w row col t).1.wal_good ≡ true)
unfolding del
del-wal whole row col t h d = ground arith
del-wal (torn n) row col t h d = ground arith

del-failed :
    (w : Write) (row col : Bytes) (t : Tablet)
    → (del w row col t).0.ok ≡ false
    → (del w row col t).0.deleted ≡ false
unfolding del
del-failed whole row col t h = ground arith
del-failed (torn n) row col t h = ground arith

del-nothing :
    (w : Write) (row col : Bytes) (t : Tablet)
    → cell row col t.rows ≡ none
    → (del w row col t).0.deleted ≡ false
unfolding del cell
del-nothing w row col t h = elim (Option-cases (lookup row t.rows)) [
  | inl e ↦ ground (arith, e)
  | inr (cols, e) ↦ ground (arith, e, h)
]

module _ (net : Network) (w : Write) (row col : Bytes) (m : Manager) (t : Tablet) (v : IsIndexed t)
    (e : t.rows ≡ m.tablet.rows) where
  delete_forwarded-Shown :
      (old : Option Bytes)
      → cell row col m.tablet.rows ≡ old
      → (del w row col t).0.ok ≡ true
      → (del w row col t).0.deleted ≡ true
      → Shown row col none m.tablet (
          forward_write net
            (λ lsn. make_repl_delete m.tablet_name lsn row col)
            (roll_back_delete net whole row col old)
            m
            (del w row col t))
  unfolding roll_back_delete
  delete_forwarded-Shown none k o d = absurd (ground (arith, del-nothing w row col t (rw e k), d))
  delete_forwarded-Shown (some old) k o d =
      forward_write-Shown net (λ lsn. make_repl_delete m.tablet_name lsn row col) row col none
        m.tablet (roll_back_to net whole row col old) m (del w row col t).0 (del w row col t).1
        (del-IsIndexed w row col t v) (λ r c. rw o (now r c))
        λ o' n q.
          roll_back_to-restores net row col old none (del w row col t).1 m.tablet n q
            (del-IsIndexed w row col t v) now k (del-wal w row col t o d)
    where
      now :
          (r c : Bytes)
          → cell r c (del w row col t).1.rows
            ≡ (if is_cell row col r c then none else cell r c m.tablet.rows)
      now r c = rw (sym e) (ground (arith, del-cell w row col r c t, d))

  delete_over-Shown :
      (old : Option Bytes)
      → cell row col m.tablet.rows ≡ old
      → Shown row col none m.tablet (delete_over net w whole row col m old (del w row col t))
  unfolding delete_over Shown
  delete_over-Shown old k =
      if_elim (Shown row col none m.tablet) (del w row col t).0.ok _ _
        (λ o.
          if_elim (Shown row col none m.tablet) (del w row col t).0.deleted _ _
            (λ d. delete_forwarded-Shown old k o d)
            λ d. (del-IsIndexed w row col t v, λ r c. missing o d r c))
        λ o. (del-IsIndexed w row col t v, λ r c. failed_cell (del-failed w row col t o) r c)
    where
      missing :
          (del w row col t).0.ok ≡ true
          → (del w row col t).0.deleted ≡ false
          → (r c : Bytes)
          → cell r c (del w row col t).1.rows
            ≡ (if is_cell row col r c then none else cell r c m.tablet.rows)
      missing o d r c = rw (sym e) (
          ground (
            arith,
            del-cell w row col r c t,
            del-missing w row col t v o,
            bytes_eq_iff row r,
            bytes_eq_iff col c,
            d,
          ))

      failed_cell :
          (del w row col t).0.deleted ≡ false
          → (r c : Bytes) → cell r c (del w row col t).1.rows ≡ cell r c m.tablet.rows
      failed_cell d r c = rw (sym e) (ground (arith, del-cell w row col r c t, d))

replicated_delete-Shown :
    (net : Network) (w : Write) (row col : Bytes) (m : Manager)
    → IsIndexed m.tablet
    → Shown row col none m.tablet (replicated_delete net w whole row col m)
unfolding replicated_delete
replicated_delete-Shown net w row col m v =
    if_elim (Shown row col none m.tablet) m.is_primary _ _
      (λ e.
        delete_over-Shown net w row col m (get row col m.tablet).1
          (get-IsIndexed row col m.tablet v) (get-rows row col m.tablet) (get row col m.tablet).0
          (sym (get-eq-cell row col m.tablet v)))
      λ e. unchanged row col none m error refl v

-- A replicated DELETE, with the same of its roll-back: the client reads no value in the one cell if
-- the status is `ok`, and what it read before in every cell otherwise.
pub replicated_delete_lem :
    (net : Network) (w : Write) (row col : Bytes) (m : Manager)
    → IsIndexed m.tablet
    → let s = replicated_delete net w whole row col m in
      IsIndexed s.1.tablet
      × ((r c : Bytes)
          → (get r c s.1.tablet).0
            ≡ (if is_ok s.0 && is_cell row col r c then none else (get r c m.tablet).0))
replicated_delete_lem net w row col m v =
    read_back row col none m.tablet _ v (replicated_delete-Shown net w row col m v)
