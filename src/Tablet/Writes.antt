-- ===== src/Tablet/Writes.antt =====
-- The tablet's writes keep it durable.
use ncloud.Common.{
  ℕ, ◌≡◌, refl, ap, Option, none, some, Bytes, Bool-cases, Option-cases, inl, inr, bytes_eq, arith,
  true, leb, ◌==◌,
}
use ncloud.Common.Dict.{lookup}
use ncloud.Bloom.{may_contain}
use ncloud.Wal.{put_entry, delete_entry}
use ncloud.Wal.Laws.{Fits}
use ncloud.Rows.{apply_entry}
use ncloud.Tablet.{
  Tablet, Write, next_u64, put, cput, swap_cell, del, remove_cell, commit_put, commit_delete,
  apply_replicated_put, apply_replicated_delete, replicated_put_logged, replicated_delete_logged,
}
use ncloud.Tablet.Durable.{IsDurable}
use ncloud.Tablet.Logging.{IsTorn, append_durable}

module _ (w : Write) (row col : Bytes) (t : Tablet) (d : IsDurable t) where
  module _ (val : Bytes) (fits : Fits (put_entry row col val))
      (short : IsTorn w (put_entry row col val)) where
    pub put-IsDurable : IsDurable (put w row col val t).1
    unfolding put apply_entry
    put-IsDurable =
        append_durable (λ s. IsDurable (commit_put row col val s).1) w (put_entry row col val) t d
          fits short (λ u du. du)
          λ u n en er f.
            f _ (record { base = record { ckpt = refl; version = refl }; wal = refl; lsn = refl })
              (ap (apply_entry (put_entry row col val)) er)

    pub apply_replicated_put-IsDurable :
        (expected : ℕ) → IsDurable (apply_replicated_put w row col val expected t).1
    unfolding apply_replicated_put apply_entry
    apply_replicated_put-IsDurable expected = elim (Bool-cases (leb expected t.lsn)) [
      | inl e ↦ rw e d
      | inr e ↦ rw e (elim (Bool-cases (expected == next_u64 t.lsn)) [
        | inl e' ↦ rw e' (
            append_durable (λ s. IsDurable (replicated_put_logged row col val expected s).1) w
              (put_entry row col val) t d fits short (λ u du. du)
              λ u n en er f.
                let now : (n == expected) ≡ true = ground (arith, e', en) in
                rw now (
                  f _
                    (record {
                      base = record { ckpt = refl; version = refl };
                      wal = refl;
                      lsn = refl;
                    })
                    (ap (apply_entry (put_entry row col val)) er)))
        | inr e' ↦ rw e' d
      ])
    ]

    swap_cell-IsDurable :
        (v1 : Bytes) (o : Option Bytes) → IsDurable (swap_cell w row col v1 val o t).1
    unfolding swap_cell put
    swap_cell-IsDurable v1 none = d
    swap_cell-IsDurable v1 (some x) = elim (Bool-cases (bytes_eq x v1)) [
      | inl e ↦ rw e put-IsDurable
      | inr e ↦ rw e d
    ]

    pub cput-IsDurable : (v1 : Bytes) → IsDurable (cput w row col v1 val t).1
    unfolding cput
    cput-IsDurable v1 = elim (Bool-cases (may_contain t.bloom row)) [
      | inl b ↦ elim (Option-cases (lookup row t.rows)) [
        | inl e ↦ rw (b, e, cput) d
        | inr (cols, e) ↦ rw (b, e, cput) (swap_cell-IsDurable v1 (lookup col cols))
      ]
      | inr b ↦ rw (b, cput) d
    ]

  module _ (fits : Fits (delete_entry row col)) (short : IsTorn w (delete_entry row col)) where
    remove_cell-IsDurable : (o : Option Bytes) → IsDurable (remove_cell w row col o t).1
    unfolding remove_cell apply_entry
    remove_cell-IsDurable none = d
    remove_cell-IsDurable (some x) =
        append_durable (λ s. IsDurable (commit_delete row col s).1) w (delete_entry row col) t d
          fits short (λ u du. du)
          λ u n en er f.
            f _ (record { base = record { ckpt = refl; version = refl }; wal = refl; lsn = refl })
              (ap (apply_entry (delete_entry row col)) er)

    pub del-IsDurable : IsDurable (del w row col t).1
    unfolding del
    del-IsDurable = elim (Bool-cases (may_contain t.bloom row)) [
      | inl b ↦ elim (Option-cases (lookup row t.rows)) [
        | inl e ↦ rw (b, e, del) d
        | inr (cols, e) ↦ rw (b, e, del) (remove_cell-IsDurable (lookup col cols))
      ]
      | inr b ↦ rw (b, del) d
    ]

    pub apply_replicated_delete-IsDurable :
        (expected : ℕ) → IsDurable (apply_replicated_delete w row col expected t).1
    unfolding apply_replicated_delete apply_entry
    apply_replicated_delete-IsDurable expected = elim (Bool-cases (leb expected t.lsn)) [
      | inl e ↦ rw e d
      | inr e ↦ rw e (elim (Bool-cases (expected == next_u64 t.lsn)) [
        | inl e' ↦ rw e' (
            append_durable (λ s. IsDurable (replicated_delete_logged row col expected s).1) w
              (delete_entry row col) t d fits short (λ u du. du)
              λ u n en er f.
                let now : (n == expected) ≡ true = ground (arith, e', en) in
                rw now (
                  f _
                    (record {
                      base = record { ckpt = refl; version = refl };
                      wal = refl;
                      lsn = refl;
                    })
                    (ap (apply_entry (delete_entry row col)) er)))
        | inr e' ↦ rw e' d
      ])
    ]
