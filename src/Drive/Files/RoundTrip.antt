-- ===== src/Drive/Files/RoundTrip.antt =====
-- frontend/src/fe_server.cc: a file that was stored is read back.
use ncloud.Common.{ℕ, zero, suc, ◌+◌, ◌^◌, ◌≤◌, ◌<◌, ◌≡◌, some, Bytes, take, drop, false, bytes_eq}
use ncloud.Kv.{Kv, IsLawful, IsUp}
use ncloud.Drive.Files.{drive_chunk_size, drive_file_chunk_col}

module _ (K : Kv) (L : IsLawful K) (up : IsUp K) (row : Bytes) where
  -- The cell is no chunk with a number from `i` on.
  abbrev Apart : ℕ → Bytes → Type 0
  Apart i c = (j : ℕ) → i ≤ j → j < 2 ^ 64 → bytes_eq (drive_file_chunk_col j) c ≡ false

  -- The chunks from the number `i` on are those of the text.
  abbrev Holds : ℕ → ℕ → Bytes → K.State → Type 0
  Holds zero i rest s = Unit
  Holds (suc n) i rest s =
      (L.view s row (drive_file_chunk_col i) ≡ some (take drive_chunk_size rest))
      × Holds n (i + 1) (drop drive_chunk_size rest) s
