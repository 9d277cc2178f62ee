-- ===== src/Tablet/Refine.antt =====
-- What a client of the tablet observes: `get` after each call, in terms of `get` before it.
use ncloud.Common.{
  ◌≡◌, refl, sym, ap, ◌∙◌, Option, none, some, Bytes, bytes_eq_iff, bytes_eq_self, true,
  if◌then◌else◌, ◌&&◌, arith, Option-cases, Bool-cases, inl, inr, ◌⊎◌,
}
use ncloud.Common.Dict.{lookup}
use ncloud.Bloom.{may_contain}
use ncloud.Rows.{cell}
use ncloud.Rows.Laws.{cell-set_cell, cell-erase_cell}
use ncloud.Tablet.Cells.{IsIndexed, get-eq-cell}
use ncloud.Tablet.Calls.{is_cell, put-cell, put-IsIndexed, cput-IsIndexed, del-IsIndexed}
use ncloud.Tablet.{Tablet, Write, whole, put, get, cput, del, swap_cell, remove_cell}

-- PUT changes one cell if it answers true and no cell if it answers false, and the filter keeps
-- every row of the table.
pub put_refines :
    (w : Write) (row col val : Bytes) (t : Tablet)
    → IsIndexed t
    → IsIndexed (put w row col val t).1
      × ((r c : Bytes)
          → (get r c (put w row col val t).1).0 ≡ (
              if (put w row col val t).0.ok && is_cell row col r c
              then some val
              else (get r c t).0))
put_refines w row col val t v = (
  put-IsIndexed w row col val t v,
  λ r c.
      get-eq-cell r c _ (put-IsIndexed w row col val t v)
      ∙ put-cell w row col val r c t
      ∙ ap (λ o. if (put w row col val t).0.ok && is_cell row col r c then some val else o)
          (sym (get-eq-cell r c t v)),
)

swap_cell-cell :
    (w : Write) (row col v1 v2 r c : Bytes) (o : Option Bytes) (t : Tablet)
    → cell r c (swap_cell w row col v1 v2 o t).1.rows ≡ (
        if (swap_cell w row col v1 v2 o t).0.ok && is_cell row col r c
        then some v2
        else cell r c t.rows)
unfolding swap_cell
swap_cell-cell w row col v1 v2 r c none t = refl
swap_cell-cell w row col v1 v2 r c (some x) t = ground (arith, cell-set_cell row col v2 r c t.rows)

pub cput-cell :
    (w : Write) (row col v1 v2 r c : Bytes) (t : Tablet)
    → cell r c (cput w row col v1 v2 t).1.rows
      ≡ (if (cput w row col v1 v2 t).0.ok && is_cell row col r c then some v2 else cell r c t.rows)
unfolding cput
cput-cell w row col v1 v2 r c t = elim (Bool-cases (may_contain t.bloom row)) [
  | inl b ↦ elim (Option-cases (lookup row t.rows)) [
    | inl e ↦ rw (b, e, cput) refl
    | inr (cols, e) ↦ rw (b, e, cput) (swap_cell-cell w row col v1 v2 r c (lookup col cols) t)
  ]
  | inr b ↦ rw (b, cput) refl
]

-- A swap that answered true had found the value that it was to replace.
swap_cell-found :
    (w : Write) (row col v1 v2 : Bytes) (o : Option Bytes) (t : Tablet)
    → (swap_cell w row col v1 v2 o t).0.ok ≡ true
    → o ≡ some v1
unfolding swap_cell
swap_cell-found w row col v1 v2 none t h = ground arith
swap_cell-found w row col v1 v2 (some x) t h = ground (arith, bytes_eq_iff x v1, h)

cput-found :
    (w : Write) (row col v1 v2 : Bytes) (t : Tablet)
    → (cput w row col v1 v2 t).0.ok ≡ true
    → cell row col t.rows ≡ some v1
unfolding cput cell
cput-found w row col v1 v2 t h = elim (Bool-cases (may_contain t.bloom row)) [
  | inl b ↦ elim (Option-cases (lookup row t.rows)) [
    | inl e ↦ ground (arith, b, e, h)
    | inr (cols, e) ↦
        rw e (swap_cell-found w row col v1 v2 (lookup col cols) t (rw (b, e, cput) at h))
  ]
  | inr b ↦ ground (arith, b, h)
]

swap_cell_succeeds :
    (row col v1 v2 : Bytes) (o : Option Bytes) (t : Tablet)
    → t.wal_open ≡ true
    → t.wal_good ≡ true
    → o ≡ some v1
    → (swap_cell whole row col v1 v2 o t).0.ok ≡ true
unfolding swap_cell
swap_cell_succeeds row col v1 v2 none t h k e = ground arith
swap_cell_succeeds row col v1 v2 (some x) t h k e = ground (arith, bytes_eq_iff x v1)

cput_succeeds :
    (row col v1 v2 : Bytes) (t : Tablet)
    → IsIndexed t
    → t.wal_open ≡ true
    → t.wal_good ≡ true
    → cell row col t.rows ≡ some v1
    → (cput whole row col v1 v2 t).0.ok ≡ true
unfolding cput cell
cput_succeeds row col v1 v2 t v o g h = elim (Option-cases (lookup row t.rows)) [
  | inl e ↦ ground (arith, e, h)
  | inr (cols, e) ↦
      rw (v.rows row cols e, e, cput)
        (swap_cell_succeeds row col v1 v2 (lookup col cols) t o g (ground (arith, e, h)))
]

-- CPUT changes one cell if it answers true and no cell if it answers false; it answers true only
-- where the cell held the expected value, and then always, if the log takes the entry.
pub cput_refines :
    (w : Write) (row col v1 v2 : Bytes) (t : Tablet)
    → IsIndexed t
    → IsIndexed (cput w row col v1 v2 t).1
      × ((r c : Bytes)
          → (get r c (cput w row col v1 v2 t).1).0 ≡ (
              if (cput w row col v1 v2 t).0.ok && is_cell row col r c
              then some v2
              else (get r c t).0))
      × ((cput w row col v1 v2 t).0.ok ≡ true → (get row col t).0 ≡ some v1)
      × (t.wal_open ≡ true
          → t.wal_good ≡ true
          → (get row col t).0 ≡ some v1
          → (cput whole row col v1 v2 t).0.ok ≡ true)
cput_refines w row col v1 v2 t v = (
  cput-IsIndexed w row col v1 v2 t v,
  λ r c.
      get-eq-cell r c _ (cput-IsIndexed w row col v1 v2 t v)
      ∙ cput-cell w row col v1 v2 r c t
      ∙ ap (λ o. if (cput w row col v1 v2 t).0.ok && is_cell row col r c then some v2 else o)
          (sym (get-eq-cell r c t v)),
  λ h. get-eq-cell row col t v ∙ cput-found w row col v1 v2 t h,
  λ o g h. cput_succeeds row col v1 v2 t v o g (rw (get-eq-cell row col t v) at h),
)

remove_cell-cell :
    (w : Write) (row col r c : Bytes) (o : Option Bytes) (t : Tablet)
    → cell r c (remove_cell w row col o t).1.rows ≡ (
        if (remove_cell w row col o t).0.deleted && is_cell row col r c
        then none
        else cell r c t.rows)
unfolding remove_cell
remove_cell-cell w row col r c none t = refl
remove_cell-cell w row col r c (some x) t = ground (arith, cell-erase_cell row col r c t.rows)

pub del-cell :
    (w : Write) (row col r c : Bytes) (t : Tablet)
    → cell r c (del w row col t).1.rows
      ≡ (if (del w row col t).0.deleted && is_cell row col r c then none else cell r c t.rows)
unfolding del
del-cell w row col r c t = elim (Bool-cases (may_contain t.bloom row)) [
  | inl b ↦ elim (Option-cases (lookup row t.rows)) [
    | inl e ↦ rw (b, e, del) refl
    | inr (cols, e) ↦ rw (b, e, del) (remove_cell-cell w row col r c (lookup col cols) t)
  ]
  | inr b ↦ rw (b, del) refl
]

remove_cell-deleted :
    (w : Write) (row col : Bytes) (o : Option Bytes) (t : Tablet)
    → (remove_cell w row col o t).0.ok ≡ true
    → ((remove_cell w row col o t).0.deleted ≡ true) ⊎ (o ≡ none)
unfolding remove_cell
remove_cell-deleted w row col none t h = inr refl
remove_cell-deleted w row col (some x) t h = ground arith

-- A DELETE that answered true and deleted nothing found no cell.
pub del-missing :
    (w : Write) (row col : Bytes) (t : Tablet)
    → IsIndexed t
    → (del w row col t).0.ok ≡ true
    → ((del w row col t).0.deleted ≡ true) ⊎ (cell row col t.rows ≡ none)
unfolding del cell
del-missing w row col t v h = elim (Option-cases (lookup row t.rows)) [
  | inl e ↦ inr (rw e refl)
  | inr (cols, e) ↦
      rw (v.rows row cols e, e, del)
        (remove_cell-deleted w row col (lookup col cols) t (rw (v.rows row cols e, e, del) at h))
]

-- DELETE clears one cell if it deleted it and changes no cell otherwise; once it has answered true,
-- the cell is gone.
pub del_refines :
    (w : Write) (row col : Bytes) (t : Tablet)
    → IsIndexed t
    → IsIndexed (del w row col t).1
      × ((r c : Bytes)
          → (get r c (del w row col t).1).0
            ≡ (if (del w row col t).0.deleted && is_cell row col r c then none else (get r c t).0))
      × ((del w row col t).0.ok ≡ true → (get row col (del w row col t).1).0 ≡ none)
del_refines w row col t v = (
  del-IsIndexed w row col t v,
  λ r c.
      get-eq-cell r c _ (del-IsIndexed w row col t v)
      ∙ del-cell w row col r c t
      ∙ ap (λ o. if (del w row col t).0.deleted && is_cell row col r c then none else o)
          (sym (get-eq-cell r c t v)),
  λ h.
      get-eq-cell row col _ (del-IsIndexed w row col t v)
      ∙ ground (
        arith,
        del-cell w row col row col t,
        del-missing w row col t v h,
        bytes_eq_self row,
        bytes_eq_self col,
      ),
)
