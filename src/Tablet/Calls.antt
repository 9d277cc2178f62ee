-- ===== src/Tablet/Calls.antt =====
-- The tablet's calls refine a map from cells to values, on every branch, failures included.
use ncloud.Common.{
  ℕ, ◌≡◌, refl, Option, none, some, Bytes, bytes_eq, Bool, true, false, if◌then◌else◌, ◌&&◌, arith,
  Option-cases, Bool-cases, inl, inr,
}
use ncloud.Common.Dict.{lookup}
use ncloud.Bloom.{may_contain}
use ncloud.Wal.{Entry, put_entry, delete_entry}
use ncloud.Rows.{cell}
use ncloud.Rows.Laws.{cell-set_cell}
use ncloud.Tablet.Cells.{IsIndexed, store_cell-IsIndexed, drop_cell-IsIndexed, same_table-IsIndexed}
use ncloud.Tablet.{
  Tablet, Write, whole, torn, flush_entry, append_entry, put, cput, del, swap_cell, remove_cell,
  store_cell, drop_cell, count_op, commit_put, commit_delete,
}

abbrev pub is_cell : Bytes → Bytes → Bytes → Bytes → Bool
is_cell row col r c = bytes_eq row r && bytes_eq col c

pub put-cell :
    (w : Write) (row col val r c : Bytes) (t : Tablet)
    → cell r c (put w row col val t).1.rows
      ≡ (if (put w row col val t).0.ok && is_cell row col r c then some val else cell r c t.rows)
unfolding put
put-cell w row col val r c t = ground (arith, cell-set_cell row col val r c t.rows)

-- A property of what logging an entry leaves holds if it holds of every tablet with the table of
-- before, where the entry has got its LSN and where it has not.
pub append_cases {ℓ} :
    (P : Option ℕ × Tablet → Type ℓ) (w : Write) (e : Entry) (t : Tablet)
    → ((u : Tablet) → u.rows ≡ t.rows → u.bloom ≡ t.bloom → P (none, u))
    → ((u : Tablet) (n : ℕ) → u.rows ≡ t.rows → u.bloom ≡ t.bloom → P (some n, u))
    → P (append_entry w e t)
unfolding append_entry
append_cases P w e t unlogged logged = go w t.wal_open t.wal_good
  where
    go :
        (x : Write) (is_open is_good : Bool)
        → P (if is_open then (if is_good then flush_entry x e t else (none, t)) else (none, t))
    go whole true true = logged _ _ refl refl
    go (torn n) true true = unlogged _ refl refl
    go x true false = unlogged t refl refl
    go x false g = unlogged t refl refl

pub store-IsIndexed :
    (row col val : Bytes) (t u : Tablet)
    → IsIndexed t
    → u.rows ≡ t.rows
    → u.bloom ≡ t.bloom
    → IsIndexed (count_op (store_cell row col val u))
unfolding count_op
store-IsIndexed row col val t u v er eb =
    same_table-IsIndexed (store_cell row col val u) _ refl refl
      (store_cell-IsIndexed row col val u (same_table-IsIndexed t u er eb v))

pub put-IsIndexed :
    (w : Write) (row col val : Bytes) (t : Tablet) → IsIndexed t → IsIndexed (put w row col val t).1
unfolding put
put-IsIndexed w row col val t v =
    append_cases (λ s. IsIndexed (commit_put row col val s).1) w (put_entry row col val) t
      (λ u er eb. same_table-IsIndexed t u er eb v)
      (λ u n er eb. store-IsIndexed row col val t u v er eb)

remove_cell-IsIndexed :
    (w : Write) (row col : Bytes) (o : Option Bytes) (t : Tablet)
    → IsIndexed t
    → IsIndexed (remove_cell w row col o t).1
unfolding remove_cell
remove_cell-IsIndexed w row col none t v = v
remove_cell-IsIndexed w row col (some x) t v =
    append_cases (λ s. IsIndexed (commit_delete row col s).1) w (delete_entry row col) t
      (λ u er eb. same_table-IsIndexed t u er eb v)
      λ u n er eb.
        same_table-IsIndexed (drop_cell row col u) _ refl refl
          (drop_cell-IsIndexed row col u (same_table-IsIndexed t u er eb v))

pub del-IsIndexed :
    (w : Write) (row col : Bytes) (t : Tablet) → IsIndexed t → IsIndexed (del w row col t).1
unfolding del
del-IsIndexed w row col t v = elim (Bool-cases (may_contain t.bloom row)) [
  | inl b ↦ elim (Option-cases (lookup row t.rows)) [
    | inl e ↦ rw (b, e, del) v
    | inr (cols, e) ↦ rw (b, e, del) (remove_cell-IsIndexed w row col (lookup col cols) t v)
  ]
  | inr b ↦ rw (b, del) v
]

swap_cell-IsIndexed :
    (w : Write) (row col v1 v2 : Bytes) (o : Option Bytes) (t : Tablet)
    → IsIndexed t
    → IsIndexed (swap_cell w row col v1 v2 o t).1
unfolding swap_cell put
swap_cell-IsIndexed w row col v1 v2 none t v = v
swap_cell-IsIndexed w row col v1 v2 (some x) t v = elim (Bool-cases (bytes_eq x v1)) [
  | inl e ↦ rw e (put-IsIndexed w row col v2 t v)
  | inr e ↦ rw e v
]

pub cput-IsIndexed :
    (w : Write) (row col v1 v2 : Bytes) (t : Tablet)
    → IsIndexed t
    → IsIndexed (cput w row col v1 v2 t).1
unfolding cput
cput-IsIndexed w row col v1 v2 t v = elim (Bool-cases (may_contain t.bloom row)) [
  | inl b ↦ elim (Option-cases (lookup row t.rows)) [
    | inl e ↦ rw (b, e, cput) v
    | inr (cols, e) ↦ rw (b, e, cput) (swap_cell-IsIndexed w row col v1 v2 (lookup col cols) t v)
  ]
  | inr b ↦ rw (b, cput) v
]
