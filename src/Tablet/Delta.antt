-- ===== src/Tablet/Delta.antt =====
-- kvstore/src/tablet.cc: `wal_delta_after` and `apply_wal_delta_blob`, which bring a replica up to
-- its primary by the entries that it misses.
use ncloud.Common.{
  ℕ, zero, suc, ◌+◌, ◌-◌, ◌%◌, ◌^◌, Option, none, some, List, [], ◌∷◌, ◌++◌, Bytes, length, drop,
  Bool, true, false, ltb, leb, ◌==◌, if◌then◌else◌, ◌>>=◌,
}
use ncloud.Codec.{write_u64_le, read_u32_le, read_u64_le, read_byte}
use ncloud.Wal.{Entry, encode, wal_magic, wal_put, wal_delete, read_entry, read_body}
use ncloud.Tablet.{Tablet, Write, next_u64, write_wal_put, write_wal_delete, store_cell, drop_cell}

-- The entries that the log holds, up to the first that cannot be read.
pub scan_entries : ℕ → Bytes → List Entry
scan_entries zero s = []
scan_entries (suc fuel) s = elim (read_entry s) [
  | none ↦ []
  | some (e, rest) ↦ e ∷ scan_entries fuel rest
]

-- The LSN of the first entry in the log, by counting back from the last.
pub first_entry_lsn : ℕ → ℕ → ℕ
first_entry_lsn total n = if ltb total n then 1 else total - n + 1

pub delta_entries : ℕ → ℕ → List Entry → Bytes
delta_entries lsn after [] = []
delta_entries lsn after (e ∷ es) =
    let rest = delta_entries (lsn + 1) after es in
    if leb lsn after then rest else write_u64_le lsn ++ (encode e ++ rest)

unfoldable pub wal_delta_after : ℕ → Tablet → Bytes
wal_delta_after after t =
    let entries = scan_entries (length t.wal_file) t.wal_file in
    write_u64_le after ++ delta_entries (first_entry_lsn t.lsn (length entries)) after entries

pub read_delta_head : Bytes → Option (ℕ × Bytes)
read_delta_head s = do
  (lsn, s₁) ← read_u64_le s
  (magic, s₂) ← read_u32_le s₁
  if magic == wal_magic then some (lsn, s₂) else none

-- The entry behind a head, where the replica has it already. The three lengths are summed as
-- `uint32_t` when the offset moves on.
pub skip_body : Bytes → Option Bytes
skip_body s = do
  (op, s₁) ← read_byte s
  (rowlen, s₂) ← read_u32_le s₁
  (collen, s₃) ← read_u32_le s₂
  (vallen, s₄) ← read_u32_le s₃
  if ltb (length s₄) (rowlen + collen + vallen)
      then none
      else some (drop ((rowlen + collen + vallen) % 2 ^ 32) s₄)

-- The check that the log gave the entry its LSN, and then the change of the table.
pub delta_put : Entry → ℕ → Option ℕ × Tablet → Bool × Tablet
delta_put e lsn (none, t) = (false, t)
delta_put e lsn (some n, t) =
    if n == lsn then (true, store_cell e.row e.col e.val t) else (false, t)

pub delta_delete : Entry → ℕ → Option ℕ × Tablet → Bool × Tablet
delta_delete e lsn (none, t) = (false, t)
delta_delete e lsn (some n, t) = if n == lsn then (true, drop_cell e.row e.col t) else (false, t)

pub apply_delta_entry : Write → Entry → ℕ → Tablet → Bool × Tablet
unfolding delta_put delta_delete
apply_delta_entry w e lsn t =
    if e.op == wal_put
    then delta_put e lsn (write_wal_put w e.row e.col e.val t)
    else if e.op == wal_delete
    then delta_delete e lsn (write_wal_delete w e.row e.col t)
    else (false, t)

-- The loop over the blob. The fuel is the length of the blob, and each round takes some of it away;
-- `io` has the outcome of the log's write for each round.
pub delta_loop : ℕ → (ℕ → Write) → Bytes → Tablet → Bool × Tablet
unfolding apply_delta_entry
delta_loop zero io [] t = (true, t)
delta_loop zero io (b ∷ s) t = (false, t)
delta_loop (suc fuel) io [] t = (true, t)
delta_loop (suc fuel) io (b ∷ s) t = elim (read_delta_head (b ∷ s)) [
  | none ↦ (false, t)
  | some (lsn, s₁) ↦ elim (leb lsn t.lsn) [
    | true ↦ elim (skip_body s₁) [ none ↦ (false, t) | some s₂ ↦ delta_loop fuel io s₂ t ]
    | false ↦ elim (lsn == next_u64 t.lsn) [
      | false ↦ (false, t)
      | true ↦ elim (read_body s₁) [
        | none ↦ (false, t)
        | some (e, s₂) ↦
            let step : Bool × Tablet = apply_delta_entry (io fuel) e lsn t in
            elim step.0 [ false ↦ (false, step.1) | true ↦ delta_loop fuel io s₂ step.1 ]
      ]
    ]
  ]
]

apply_delta : (ℕ → Write) → Tablet → Option (ℕ × Bytes) → Bool × Tablet
unfolding delta_loop
apply_delta io t none = (false, t)
apply_delta io t (some (base_lsn, s)) = delta_loop (length s) io s t

unfoldable pub apply_wal_delta_blob : (ℕ → Write) → Bytes → Tablet → Bool × Tablet
unfolding apply_delta
apply_wal_delta_blob io blob t = apply_delta io t (read_u64_le blob)
