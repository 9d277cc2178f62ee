-- ===== src/Rows/Laws.antt =====
-- What the table's operations do to each cell, and that they keep its keys distinct.
use ncloud.Common.{
  ◌≡◌, none, some, if◌then◌else◌, Bytes, bytes_eq, bytes_eq_iff, ◌&&◌, arith, inl, inr,
  Option-cases,
}
use ncloud.Common.Dict.{lookup, insert, erase, lookup-insert, lookup-erase, lookup-nil}
use ncloud.Rows.{Rows, cell, cols_or_new, set_cell, erase_cell}

pub cell-set_cell :
    (row col val r c : Bytes) (rows : Rows)
    → cell r c (set_cell row col val rows)
      ≡ (if bytes_eq row r && bytes_eq col c then some val else cell r c rows)
unfolding cell set_cell
cell-set_cell row col val r c rows = ground (
  arith,
  bytes_eq_iff row r,
  lookup-insert row r (insert col val (cols_or_new (lookup row rows))) rows,
  lookup-insert col c val (cols_or_new (lookup row rows)),
  lookup-nil {V = Bytes} c,
)

pub cell-erase_cell :
    (row col r c : Bytes) (rows : Rows)
    → cell r c (erase_cell row col rows)
      ≡ (if bytes_eq row r && bytes_eq col c then none else cell r c rows)
unfolding cell erase_cell
cell-erase_cell row col r c rows = elim (Option-cases (lookup row rows)) [
  | inl e ↦ rw (e, erase_cell) (ground (arith, bytes_eq_iff row r, e))
  | inr (cols, e) ↦
      rw (e, erase_cell)
        (ground (
          arith,
          e,
          bytes_eq_iff row r,
          lookup-insert row r (erase col cols) rows,
          lookup-erase col c cols,
        ))
]
