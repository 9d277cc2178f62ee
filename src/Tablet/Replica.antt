-- ===== src/Tablet/Replica.antt =====
-- What a replica does with a write of its primary: it skips what it has, refuses a gap, and takes
-- the next write as its own.
use ncloud.Common.{
  ℕ, ◌+◌, ◌≤◌, ◌<◌, ◌^◌, ◌≡◌, refl, none, some, Bytes, true, false, if◌then◌else◌, ◌&&◌, leb, ◌==◌,
  arith, Bool-cases, inl, inr,
}
use ncloud.Rows.{cell}
use ncloud.Wal.{put_entry, delete_entry}
use ncloud.Rows.Laws.{cell-set_cell, cell-erase_cell}
use ncloud.Tablet.Cells.{IsIndexed, drop_cell-IsIndexed, same_table-IsIndexed}
use ncloud.Tablet.Calls.{append_cases, store-IsIndexed, is_cell}
use ncloud.Tablet.{
  Tablet, Write, whole, next_u64, apply_replicated_put, apply_replicated_delete,
  replicated_put_logged, replicated_delete_logged, drop_cell,
}

module _ (w : Write) (row col : Bytes) (expected : ℕ) (t : Tablet) where
  -- A replicated PUT, below the largest LSN: an LSN that the replica has changes nothing and is
  -- acknowledged; a gap changes nothing and is refused; the next LSN is acknowledged exactly where
  -- the tablet moves to it, with the one cell changed, and always if the log takes the entry.
  pub apply_replicated_put_lem :
      (val : Bytes)
      → t.lsn + 1 < 2 ^ 64
      → let r = apply_replicated_put w row col val expected t in
        (expected ≤ t.lsn → (r.0 ≡ true) × (r.1 ≡ t))
        × (t.lsn + 1 < expected → (r.0 ≡ false) × (r.1 ≡ t))
        × (expected ≡ t.lsn + 1
            → (r.1.lsn ≡ (if r.0 then expected else t.lsn))
              × ((a b : Bytes)
                  → cell a b r.1.rows
                    ≡ (if r.0 && is_cell row col a b then some val else cell a b t.rows)))
        × (expected ≡ t.lsn + 1
            → t.wal_open ≡ true
            → t.wal_good ≡ true
            → (apply_replicated_put whole row col val expected t).0 ≡ true)
  unfolding apply_replicated_put
  apply_replicated_put_lem val small = (
    λ old. ground arith,
    λ gap. ground arith,
    λ now. (ground arith, λ a b. ground (arith, cell-set_cell row col val a b t.rows)),
    λ now is_open good. ground arith,
  )

  -- The same of a replicated DELETE, which clears the cell.
  pub apply_replicated_delete_lem :
      t.lsn + 1 < 2 ^ 64
      → let r = apply_replicated_delete w row col expected t in
        (expected ≤ t.lsn → (r.0 ≡ true) × (r.1 ≡ t))
        × (t.lsn + 1 < expected → (r.0 ≡ false) × (r.1 ≡ t))
        × (expected ≡ t.lsn + 1
            → (r.1.lsn ≡ (if r.0 then expected else t.lsn))
              × ((a b : Bytes)
                  → cell a b r.1.rows
                    ≡ (if r.0 && is_cell row col a b then none else cell a b t.rows)))
        × (expected ≡ t.lsn + 1
            → t.wal_open ≡ true
            → t.wal_good ≡ true
            → (apply_replicated_delete whole row col expected t).0 ≡ true)
  unfolding apply_replicated_delete
  apply_replicated_delete_lem small = (
    λ old. ground arith,
    λ gap. ground arith,
    λ now. (ground arith, λ a b. ground (arith, cell-erase_cell row col a b t.rows)),
    λ now is_open good. ground arith,
  )

  pub apply_replicated_put-IsIndexed :
      (val : Bytes) → IsIndexed t → IsIndexed (apply_replicated_put w row col val expected t).1
  unfolding apply_replicated_put
  apply_replicated_put-IsIndexed val v = elim (Bool-cases (leb expected t.lsn)) [
    | inl e ↦ rw e v
    | inr e ↦ rw e (elim (Bool-cases (expected == next_u64 t.lsn)) [
      | inl e' ↦ rw e' (
          append_cases (λ s. IsIndexed (replicated_put_logged row col val expected s).1) w
            (put_entry row col val) t (λ u er eb. same_table-IsIndexed t u er eb v)
            λ u n er eb. elim (Bool-cases (n == expected)) [
              | inl k ↦ rw k (store-IsIndexed row col val t u v er eb)
              | inr k ↦ rw k (same_table-IsIndexed t u er eb v)
            ])
      | inr e' ↦ rw e' v
    ])
  ]

  pub apply_replicated_delete-IsIndexed :
      IsIndexed t → IsIndexed (apply_replicated_delete w row col expected t).1
  unfolding apply_replicated_delete
  apply_replicated_delete-IsIndexed v = elim (Bool-cases (leb expected t.lsn)) [
    | inl e ↦ rw e v
    | inr e ↦ rw e (elim (Bool-cases (expected == next_u64 t.lsn)) [
      | inl e' ↦ rw e' (
          append_cases (λ s. IsIndexed (replicated_delete_logged row col expected s).1) w
            (delete_entry row col) t (λ u er eb. same_table-IsIndexed t u er eb v)
            λ u n er eb. elim (Bool-cases (n == expected)) [
              | inl k ↦ rw k (
                  same_table-IsIndexed (drop_cell row col u) _ refl refl
                    (drop_cell-IsIndexed row col u (same_table-IsIndexed t u er eb v)))
              | inr k ↦ rw k (same_table-IsIndexed t u er eb v)
            ])
      | inr e' ↦ rw e' v
    ])
  ]
