-- ===== src/Tablet/Replay/Index.antt =====
-- Replaying keeps the filter in step with the table.
use ncloud.Common.{refl, List, [], ◌∷◌, Bool-cases, inl, inr, ◌==◌}
use ncloud.Common.Dict.{lookup, insert}
use ncloud.Wal.{Entry, wal_put, wal_delete}
use ncloud.Rows.{cols_or_new, apply_entry, set_cell}
use ncloud.Tablet.{Tablet, drop_cell}
use ncloud.Tablet.Cells.{
  IsIndexed, learn-IsIndexed, drop_cell-IsIndexed, drop_cell-rows, drop_cell-bloom,
  same_table-IsIndexed,
}
use ncloud.Tablet.Replay.{replay_entry}
use ncloud.Tablet.Replay.Laws.{replay_entries}

replay_entry-IsIndexed : (e : Entry) (t : Tablet) → IsIndexed t → IsIndexed (replay_entry e t)
unfolding replay_entry apply_entry set_cell
replay_entry-IsIndexed e t v = elim (Bool-cases (e.op == wal_put)) [
  | inl p ↦ rw p (
      learn-IsIndexed e.row (insert e.col e.val (cols_or_new (lookup e.row t.rows))) t _ v refl
        refl)
  | inr p ↦ elim (Bool-cases (e.op == wal_delete)) [
    | inl q ↦
        rw (p, q)
          (same_table-IsIndexed (drop_cell e.row e.col t) _ (drop_cell-rows e.row e.col t)
            (drop_cell-bloom e.row e.col t) (drop_cell-IsIndexed e.row e.col t v))
    | inr q ↦ rw (p, q) (same_table-IsIndexed t _ refl refl v)
  ]
]

pub replay_entries-IsIndexed :
    (es : List Entry) (t : Tablet) → IsIndexed t → IsIndexed (replay_entries es t)
unfolding replay_entries
replay_entries-IsIndexed [] t v = v
replay_entries-IsIndexed (e ∷ es) t v =
    replay_entries-IsIndexed es (replay_entry e t) (replay_entry-IsIndexed e t v)
