-- ===== src/Tablet/Replay/Laws.antt =====
-- What a scan of the log does: it ends by itself within its fuel, and it replays the entries that
-- were written, up to a torn one.
use ncloud.Common.{
  ℕ, zero, suc, ◌≤◌, ◌<◌, ◌≡◌, refl, none, List, [], ◌∷◌, ◌++◌, append_assoc, append-nil, Bytes,
  length, All, Option-cases, inl, inr, arith,
}
use ncloud.Wal.{Entry, encode, read_entry}
use ncloud.Wal.Laws.{Fits, read_entry-encode}
use ncloud.Wal.Torn.{read_entry-length, read_entry-nil}
use ncloud.Rows.{Rows, apply_entry, apply_entries}
use ncloud.Tablet.{Tablet, next_u64}
use ncloud.Tablet.Replay.{replay_entry, replay_loop}

-- The log of a list of entries, one behind the other.
unfoldable pub encode_all : List Entry → Bytes
encode_all [] = []
encode_all (e ∷ es) = encode e ++ encode_all es

pub encode_all-append :
    (es fs : List Entry) → encode_all (es ++ fs) ≡ encode_all es ++ encode_all fs
unfolding encode_all
encode_all-append [] fs = refl
encode_all-append (e ∷ es) fs = rw (encode_all-append es fs, append_assoc)

pub encode_all_one : (e : Entry) → encode_all (e ∷ []) ≡ encode e
unfolding encode_all
encode_all_one e = append-nil (encode e)

unfoldable pub replay_entries : List Entry → Tablet → Tablet
replay_entries [] t = t
replay_entries (e ∷ es) t = replay_entries es (replay_entry e t)

-- With fuel for every byte the scan ends where no entry can be read, not for want of fuel.
pub replay_loop_ends :
    (fuel : ℕ) (s : Bytes) (t : Tablet)
    → length s ≤ fuel
    → read_entry (replay_loop fuel s t).0 ≡ none
unfolding replay_loop
replay_loop_ends zero [] t h = read_entry-nil
replay_loop_ends zero (b ∷ s) t h = absurd (omega arith)
replay_loop_ends (suc fuel) s t h = elim (Option-cases (read_entry s)) [
  | inl e ↦ rw (e, replay_loop) e
  | inr ((x, r), e) ↦
      rw (e, replay_loop)
        (replay_loop_ends fuel r (replay_entry x t) (omega (arith, read_entry-length s x r e)))
]

-- An entry takes bytes.
fewer :
    (x : Entry) (es : List Entry) (tail : Bytes)
    → Fits x
    → length (encode_all es ++ tail) < length (encode_all (x ∷ es) ++ tail)
unfolding encode_all
fewer x es tail v =
    rw (append_assoc (encode x) (encode_all es) tail)
      (omega (arith, read_entry-length _ x (encode_all es ++ tail) (read_entry-encode x _ v)))

pub replay_loop-encode_all :
    (fuel : ℕ) (es : List Entry) (tail : Bytes) (t : Tablet)
    → length (encode_all es ++ tail) ≤ fuel
    → All Fits es
    → read_entry tail ≡ none
    → replay_loop fuel (encode_all es ++ tail) t ≡ (tail, replay_entries es t)
unfolding replay_loop replay_entries encode_all
replay_loop-encode_all zero [] tail t h f e = refl
replay_loop-encode_all (suc fuel) [] tail t h f e = rw (e, replay_loop)
replay_loop-encode_all zero (x ∷ es) tail t h f e = absurd (omega (arith, fewer x es tail f.0))
replay_loop-encode_all (suc fuel) (x ∷ es) tail t h f e =
    rw (append_assoc (encode x) (encode_all es) tail) (
      rw (read_entry-encode x (encode_all es ++ tail) f.0, replay_loop)
        (replay_loop-encode_all fuel es tail (replay_entry x t) (omega (arith, fewer x es tail f.0))
          f.1 e))

-- `n` increments of the LSN.
unfoldable pub advance : ℕ → ℕ → ℕ
advance zero lsn = lsn
advance (suc n) lsn = advance n (next_u64 lsn)

pub advance-append_one :
    (es : List Entry) (e : Entry) (lsn : ℕ)
    → advance (length (es ++ e ∷ [])) lsn ≡ next_u64 (advance (length es) lsn)
unfolding advance
advance-append_one [] e lsn = refl
advance-append_one (x ∷ es) e lsn = advance-append_one es e (next_u64 lsn)

pub apply_entries-append_one :
    (es : List Entry) (e : Entry) (rows : Rows)
    → apply_entries (es ++ e ∷ []) rows ≡ apply_entry e (apply_entries es rows)
unfolding apply_entries
apply_entries-append_one [] e rows = refl
apply_entries-append_one (x ∷ es) e rows = apply_entries-append_one es e (apply_entry x rows)

-- What replaying changes: the table, the filter and the LSN.
pub replay_entries_lem :
    (es : List Entry) (t : Tablet)
    → replay_entries es t ≡ record t {
      rows = apply_entries es t.rows;
      bloom = (replay_entries es t).bloom;
      lsn = advance (length es) t.lsn;
    }
unfolding replay_entries apply_entries advance replay_entry
replay_entries_lem [] t = refl
replay_entries_lem (e ∷ es) t = replay_entries_lem es (replay_entry e t)
