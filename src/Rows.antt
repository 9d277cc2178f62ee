-- ===== src/Rows.antt =====
-- The in-memory table of kvstore/src/tablet.h: rows of columns, `rows_` and `RowData::cols`.
pub mod Laws
use ncloud.Common.{
  ℕ, zero, suc, ◌≡◌, Option, none, some, List, [], ◌∷◌, ◌==◌, if◌then◌else◌, Bytes, ◌>>=◌,
}
use ncloud.Common.Dict.{Dict, lookup, insert, erase}
use ncloud.Wal.{Entry, wal_put, wal_delete}

abbrev pub Cols : Type 0
Cols = Dict Bytes

abbrev pub Rows : Type 0
Rows = Dict Cols

-- What a client sees: the value of a cell.
unfoldable pub cell : Bytes → Bytes → Rows → Option Bytes
cell row col rows = lookup row rows >>= lookup col

abbrev pub cols_or_new : Option Cols → Cols
cols_or_new none = []
cols_or_new (some cols) = cols

-- `rd->cols[col] = val` on the row that was found, or on a new one.
unfoldable pub set_cell : Bytes → Bytes → Bytes → Rows → Rows
set_cell row col val rows = insert row (insert col val (cols_or_new (lookup row rows))) rows

-- `rd->cols.erase(col)` if the row is there. The row stays, also when its last column goes.
unfoldable pub erase_cell : Bytes → Bytes → Rows → Rows
erase_cell row col rows = elim (lookup row rows) [
  | none ↦ rows
  | some cols ↦ insert row (erase col cols) rows
]

-- What replaying an entry does to the table; an unknown operation does nothing.
unfoldable pub apply_entry : Entry → Rows → Rows
apply_entry e rows =
    if e.op == wal_put
    then set_cell e.row e.col e.val rows
    else if e.op == wal_delete
    then erase_cell e.row e.col rows
    else rows

unfoldable pub apply_entries : List Entry → Rows → Rows
apply_entries [] rows = rows
apply_entries (e ∷ es) rows = apply_entries es (apply_entry e rows)
