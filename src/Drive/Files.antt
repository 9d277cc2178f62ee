-- ===== src/Drive/Files.antt =====
-- frontend/src/fe_server.cc: the bytes of a file of the drive, in chunks that are cells of one row.
pub mod RoundTrip
use ncloud.Common.{
  ℕ, zero, suc, ◌+◌, ◌-◌, ◌/◌, ◌^◌, Option, none, some, List, [], ◌∷◌, ◌++◌, Bytes, codes, length,
  take, drop, Bool, true, false, if◌then◌else◌,
}
use ncloud.Common.Decimal.{to_string, read_unsigned}
use ncloud.Kv.{Kv, get_str}

abbrev pub drive_chunk_size : ℕ
drive_chunk_size = 1048576

unfoldable pub drive_file_row : Bytes → Bytes
drive_file_row uid = codes "drive:file:" ++ uid

unfoldable pub drive_file_chunk_col : ℕ → Bytes
drive_file_chunk_col i = codes "chunk:" ++ to_string i

unfoldable pub drive_chunk_count_for_size : ℕ → ℕ
drive_chunk_count_for_size nbytes = (nbytes + drive_chunk_size - 1) / drive_chunk_size

module _ (K : Kv) where
  -- `del` of the first chunks, one after the other.
  pub del_chunks : Bytes → ℕ → ℕ → K.State → K.State
  del_chunks row zero i s = s
  del_chunks row (suc n) i s = del_chunks row n (i + 1) (K.del row (drive_file_chunk_col i) s).1

  -- `n` chunks are left, from the one with the number `i` on; `rest` is what stands behind the
  -- offset. A chunk that is refused takes those before it back.
  unfoldable pub put_chunks : Bytes → ℕ → ℕ → Bytes → K.State → Bool × K.State
  unfolding del_chunks
  put_chunks row zero i rest s = (true, s)
  put_chunks row (suc n) i rest s =
      let here = K.put row (drive_file_chunk_col i) (take drive_chunk_size rest) s in
      let others = put_chunks row n (i + 1) (drop drive_chunk_size rest) here.1 in
      if here.0 then others else (false, (K.del row (codes "chunks") (del_chunks row i 0 here.1)).1)

  unfoldable pub put_file_chunks : Bytes → Bytes → K.State → Bool × K.State
  put_file_chunks uid bytes s =
      let row = drive_file_row uid in
      let n = drive_chunk_count_for_size (length bytes) in
      let first = K.put row (codes "chunks") (to_string n) s in
      let others = put_chunks row n 0 bytes first.1 in if first.0 then others else (false, first.1)

  unfoldable pub get_chunks : Bytes → ℕ → ℕ → K.State → Bytes × K.State
  get_chunks row zero i s = ([], s)
  get_chunks row (suc n) i s =
      let here = get_str K row (drive_file_chunk_col i) s in
      let others = get_chunks row n (i + 1) here.1 in (here.0 ++ others.0, others.1)

  -- With the count of the chunks as it is read by `std::stoull`.
  unfoldable pub get_counted : Bytes → Option (ℕ × Bytes) → K.State → Bytes × K.State
  get_counted row none s = ([], s)
  get_counted row (some (n, rest)) s = get_chunks row n 0 s

  unfoldable pub get_chunked : Bytes → Bytes × K.State → Bytes × K.State
  unfolding get_counted
  get_chunked row ([], s) = ([], s)
  get_chunked row (c ∷ count, s) = get_counted row (read_unsigned (2 ^ 64) (c ∷ count)) s

  -- The bytes of an older file stand in one cell.
  unfoldable pub get_legacy : Bytes → Bytes × K.State → Bytes × K.State
  unfolding get_chunked
  get_legacy row ([], s) = get_chunked row (get_str K row (codes "chunks") s)
  get_legacy row (c ∷ bytes, s) = (c ∷ bytes, s)

  unfoldable pub get_file_bytes : Bytes → K.State → Bytes × K.State
  unfolding get_legacy
  get_file_bytes uid s =
      let row = drive_file_row uid in get_legacy row (get_str K row (codes "bytes") s)

  pub del_counted : Bytes → Option (ℕ × Bytes) → K.State → K.State
  unfolding del_chunks
  del_counted row none s = (K.del row (codes "chunks") s).1
  del_counted row (some (n, rest)) s = (K.del row (codes "chunks") (del_chunks row n 0 s)).1

  pub del_chunked : Bytes → Bytes × K.State → K.State
  unfolding del_counted
  del_chunked row ([], s) = s
  del_chunked row (c ∷ count, s) = del_counted row (read_unsigned (2 ^ 64) (c ∷ count)) s

  unfoldable pub delete_file_bytes : Bytes → K.State → K.State
  unfolding del_chunked
  delete_file_bytes uid s =
      let row = drive_file_row uid in
      del_chunked row (get_str K row (codes "chunks") (K.del row (codes "bytes") s).1)
