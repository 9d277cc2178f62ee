-- ===== src/Tablet/Cells.antt =====
-- The tablet as a map from cells to values: what each call does to it, on every branch.
use ncloud.Common.{
  ◌≡◌, refl, subst, Option, none, some, Bytes, bytes_eq, bytes_eq_iff, true, arith, Option-cases,
  Bool-cases, inl, inr,
}
use ncloud.Common.Dict.{insert, erase, lookup, lookup-insert}
use ncloud.Bloom.{may_contain}
use ncloud.Bloom.Laws.{IsByteArray, may_contain-add_self, may_contain-add_mono, add-IsByteArray}
use ncloud.Rows.{Cols, cols_or_new, cell, set_cell, erase_cell}
use ncloud.Tablet.{Tablet, get, store_cell, drop_cell, learn}

-- The filter is over bytes and holds every row of the table.
pub record IsIndexed (t : Tablet) : Type 0 where
  pub bits : IsByteArray t.bloom
  pub rows :
      (row : Bytes) (cols : Cols) → lookup row t.rows ≡ some cols → may_contain t.bloom row ≡ true

-- A read sees the table, whatever the filter says.
pub get-eq-cell :
    (row col : Bytes) (t : Tablet) → IsIndexed t → (get row col t).0 ≡ cell row col t.rows
unfolding get cell
get-eq-cell row col t v = elim (Option-cases (lookup row t.rows)) [
  | inl e ↦ ground (arith, e)
  | inr (cols, e) ↦ rw (v.rows row cols e) (ground (arith, e))
]

-- The filter and the table stay in step, for a table with one more row.
pub learn-IsIndexed :
    (row : Bytes) (cols : Cols) (t u : Tablet)
    → IsIndexed t
    → u.rows ≡ insert row cols t.rows
    → u.bloom ≡ learn (lookup row t.rows) t.bloom row
    → IsIndexed u
unfolding learn
learn-IsIndexed row cols t u v er eb = record {
  bits = rw eb (learn-IsByteArray (lookup row t.rows));
  rows = λ r found h. rw eb (elim (Bool-cases (bytes_eq row r)) [
    | inl e ↦
        subst (λ k. may_contain (learn (lookup row t.rows) t.bloom row) k ≡ true)
          ((bytes_eq_iff row r).0 e) (learn_self (lookup row t.rows) (v.rows row))
    | inr e ↦
        learn_mono (lookup row t.rows) r
          (v.rows r found (ground (arith, lookup-insert row r cols t.rows, er, e, h)))
  ]);
}
  where
    learn-IsByteArray : (o : Option Cols) → IsByteArray (learn o t.bloom row)
    learn-IsByteArray none = add-IsByteArray t.bloom row v.bits
    learn-IsByteArray (some c) = v.bits

    learn_self :
        (o : Option Cols)
        → ((c : Cols) → o ≡ some c → may_contain t.bloom row ≡ true)
        → may_contain (learn o t.bloom row) row ≡ true
    learn_self none f = may_contain-add_self t.bloom row v.bits
    learn_self (some c) f = f c refl

    learn_mono :
        (o : Option Cols) (r : Bytes)
        → may_contain t.bloom r ≡ true
        → may_contain (learn o t.bloom row) r ≡ true
    learn_mono none r h = may_contain-add_mono t.bloom row r v.bits h
    learn_mono (some c) r h = h

pub store_cell-IsIndexed :
    (row col val : Bytes) (t : Tablet) → IsIndexed t → IsIndexed (store_cell row col val t)
unfolding store_cell set_cell
store_cell-IsIndexed row col val t v =
    learn-IsIndexed row (insert col val (cols_or_new (lookup row t.rows))) t _ v refl refl

pub drop_cell-IsIndexed :
    (row col : Bytes) (t : Tablet) → IsIndexed t → IsIndexed (drop_cell row col t)
unfolding drop_cell erase_cell
drop_cell-IsIndexed row col t v = record {
  bits = v.bits;
  rows = λ r cols h. elim (Option-cases (lookup row t.rows)) [
    | inl e ↦ v.rows r cols (rw (e, erase_cell) at h)
    | inr (old, e) ↦
        let h' : lookup r (insert row (erase col old) t.rows) ≡ some cols =
          rw (e, erase_cell) at h in
        elim (Bool-cases (bytes_eq row r)) [
          | inl b ↦ v.rows r old (ground (arith, e, bytes_eq_iff row r, b))
          | inr b ↦
              v.rows r cols (ground (arith, lookup-insert row r (erase col old) t.rows, b, h'))
        ]
  ];
}

-- A new log, LSN or count leaves the filter and the table as they were.
pub same_table-IsIndexed :
    (t u : Tablet) → u.rows ≡ t.rows → u.bloom ≡ t.bloom → IsIndexed t → IsIndexed u
same_table-IsIndexed t u er eb v = record {
  bits = rw eb v.bits;
  rows = λ r cols h. rw eb (v.rows r cols (rw er at h));
}

pub drop_cell-rows :
    (row col : Bytes) (t : Tablet) → erase_cell row col t.rows ≡ (drop_cell row col t).rows
unfolding drop_cell
drop_cell-rows row col t = refl

pub drop_cell-bloom : (row col : Bytes) (t : Tablet) → t.bloom ≡ (drop_cell row col t).bloom
unfolding drop_cell
drop_cell-bloom row col t = refl
