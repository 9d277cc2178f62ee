-- ===== src/Kv/Memory.antt =====
-- A storage in memory whose writes may be refused, which meets the laws.
use ncloud.Common.{
  ◌≡◌, ◌≢◌, ◌⊎◌, refl, Option, none, some, List, [], ◌∷◌, Bytes, bytes_eq, bytes_eq_self,
  bytes_eq_iff, Bool, true, false, if◌then◌else◌, if_elim, inl, inr,
}
use ncloud.Kv.{Kv, KvReadStatus, found, not_found, unavailable, same, Tells, IsLawful, IsUp}

-- A cell's row and column with its value, or with `none` for a cell that was cleared; the newest first.
abbrev Cells : Type 0
Cells = List (Bytes × Bytes × Option Bytes)

-- `refusals` says of the next writes whether they are refused; those behind it are not.
pub record Memory : Type 0 where
  pub cells : Cells
  pub refusals : List Bool

unfoldable pub cell : Bytes → Bytes → Cells → Option Bytes
cell r c [] = none
cell r c ((i, j, v) ∷ m) = if same i j r c then v else cell r c m

unfoldable pub answer_of : Option Bytes → KvReadStatus
answer_of none = not_found
answer_of (some v) = found v

-- A write, which the next refusal stops.
unfoldable pub write : Bytes → Bytes → Option Bytes → Cells → List Bool → Bool × Memory
write r c v m [] = (true, record { cells = (r, c, v) ∷ m; refusals = [] })
write r c v m (true ∷ fs) = (false, record { cells = m; refusals = fs })
write r c v m (false ∷ fs) = (true, record { cells = (r, c, v) ∷ m; refusals = fs })

unfoldable pub holds : Option Bytes → Bytes → Bool
holds none v = false
holds (some w) v = bytes_eq w v

abbrev pub memory : Kv
memory = record {
  State = Memory;
  get_status = λ r c s. (answer_of (cell r c s.cells), s);
  put = λ r c v s. write r c (some v) s.cells s.refusals;
  cput = λ r c v w s.
      if holds (cell r c s.cells) v then write r c (some w) s.cells s.refusals else (false, s);
  del = λ r c s. write r c none s.cells s.refusals;
}

pub answer_of-Tells : (o : Option Bytes) → Tells (answer_of o) o
unfolding answer_of
answer_of-Tells none = refl
answer_of-Tells (some v) = refl

pub write_done :
    (r c : Bytes) (v : Option Bytes) (m : Cells) (fs : List Bool)
    → (write r c v m fs).0 ≡ true
    → cell r c (write r c v m fs).1.cells ≡ v
unfolding write cell
write_done r c v m [] h = rw (bytes_eq_self r, bytes_eq_self c) refl
write_done r c v m (true ∷ fs) h = cc
write_done r c v m (false ∷ fs) h = rw (bytes_eq_self r, bytes_eq_self c) refl

pub write_other :
    (r c : Bytes) (v : Option Bytes) (i j : Bytes) (m : Cells) (fs : List Bool)
    → same r c i j ≡ false
    → cell i j (write r c v m fs).1.cells ≡ cell i j m
unfolding write cell
write_other r c v i j m [] h = rw h refl
write_other r c v i j m (true ∷ fs) h = refl
write_other r c v i j m (false ∷ fs) h = rw h refl

pub write_either :
    (r c : Bytes) (v : Option Bytes) (m : Cells) (fs : List Bool)
    → (cell r c (write r c v m fs).1.cells ≡ v) ⊎ (cell r c (write r c v m fs).1.cells ≡ cell r c m)
unfolding write cell
write_either r c v m [] = inl (rw (bytes_eq_self r, bytes_eq_self c) refl)
write_either r c v m (true ∷ fs) = inr refl
write_either r c v m (false ∷ fs) = inl (rw (bytes_eq_self r, bytes_eq_self c) refl)

holds-some : (o : Option Bytes) (v : Bytes) → holds o v ≡ true → o ≡ some v
unfolding holds
holds-some none v h = cc
holds-some (some w) v h = cc ((bytes_eq_iff w v).0 h)

pub cput_done :
    (r c v w : Bytes) (s : Memory)
    → (memory.cput r c v w s).0 ≡ true
    → (cell r c s.cells ≡ some v) × (cell r c (memory.cput r c v w s).1.cells ≡ some w)
cput_done r c v w s =
    if_elim
      (λ (p : Bool × Memory).
        p.0 ≡ true → (cell r c s.cells ≡ some v) × (cell r c p.1.cells ≡ some w))
      (holds (cell r c s.cells) v) _ _
      (λ e h. (holds-some _ v e, write_done r c (some w) s.cells s.refusals h)) λ e h. cc

pub cput_either :
    (r c v w : Bytes) (s : Memory)
    → (cell r c s.cells ≡ some v) × (cell r c (memory.cput r c v w s).1.cells ≡ some w)
      ⊎ (cell r c (memory.cput r c v w s).1.cells ≡ cell r c s.cells)
cput_either r c v w s =
    if_elim
      (λ (p : Bool × Memory).
        (cell r c s.cells ≡ some v) × (cell r c p.1.cells ≡ some w)
        ⊎ (cell r c p.1.cells ≡ cell r c s.cells))
      (holds (cell r c s.cells) v) _ _
      (λ e. elim (write_either r c (some w) s.cells s.refusals) [
        | inl h ↦ inl (holds-some _ v e, h)
        | inr h ↦ inr h
      ])
      λ e. inr refl

pub cput_other :
    (r c v w i j : Bytes) (s : Memory)
    → same r c i j ≡ false
    → cell i j (memory.cput r c v w s).1.cells ≡ cell i j s.cells
cput_other r c v w i j s h =
    if_elim (λ (p : Bool × Memory). cell i j p.1.cells ≡ cell i j s.cells)
      (holds (cell r c s.cells) v) _ _ (λ e. write_other r c (some w) i j s.cells s.refusals h)
      λ e. refl

abbrev pub memory-IsLawful : IsLawful memory
memory-IsLawful = record {
  view = λ s r c. cell r c s.cells;
  get-view = λ r c i j s. refl;
  get-Tells = λ r c s. answer_of-Tells (cell r c s.cells);
  put_done = λ r c v s h. write_done r c (some v) s.cells s.refusals h;
  put_either = λ r c v s. write_either r c (some v) s.cells s.refusals;
  put_other = λ r c v i j s h. write_other r c (some v) i j s.cells s.refusals h;
  cput_done = cput_done;
  cput_either = cput_either;
  cput_other = cput_other;
  del_done = λ r c s h. write_done r c none s.cells s.refusals h;
  del_either = λ r c s. write_either r c none s.cells s.refusals;
  del_other = λ r c i j s h. write_other r c none i j s.cells s.refusals h;
}

answer_of-up : (o : Option Bytes) → answer_of o ≢ unavailable
unfolding answer_of
answer_of-up none e = cc
answer_of-up (some v) e = cc

pub memory-IsUp : IsUp memory
memory-IsUp = record { answers = λ r c s. answer_of-up (cell r c s.cells) }
