-- ===== src/Wal/Torn.antt =====
-- An entry that was only partly written is not read: the scan of the log ends there. And an entry
-- that is read takes bytes away, so the scan ends.
use ncloud.Common.{
  ℕ, ◌+◌, ◌≤◌, ◌<◌, ◌≡◌, refl, ap, Option, none, some, [], ◌∷◌, ◌++◌, append-nil, Bytes, length,
  take, drop, length-append, length-drop, take-append-drop, take-append_short, drop-append_short,
  Bool, true, false, Bool-cases, inl, inr, Option-cases, if◌then◌else◌, ◌==◌, ltb, ltb-false, arith,
  ◌>>=◌,
}
use ncloud.Codec.{le_value, read_exact, read_u32_le, read_byte}
use ncloud.Codec.Laws.{read_u32-length}
use ncloud.Wal.{Entry, encode, read_body, read_entry, wal_magic}
use ncloud.Wal.Laws.{Fits, read_entry-encode}

-- A reader that looks at no more than it takes, and gives back a part of what it was given.
record Reads {ℓ} {A : Type ℓ} (f : Bytes → Option (A × Bytes)) : Type ℓ where
  extends : (s t : Bytes) (a : A) (r : Bytes) → f s ≡ some (a, r) → f (s ++ t) ≡ some (a, r ++ t)
  shrinks : (s : Bytes) (a : A) (r : Bytes) → f s ≡ some (a, r) → length r ≤ length s

Reads-bind {ℓ κ} :
    {A : Type ℓ} {B : Type κ} (f : Bytes → Option (A × Bytes)) (g : A × Bytes → Option (B × Bytes))
    → Reads f
    → ((a : A) → Reads (λ s. g (a, s)))
    → Reads (λ s. f s >>= g)
Reads-bind f g rf rg = record {
  extends = λ s t b r h. elim (Option-cases (f s)) [
    | inl e ↦ let h' = rw e at h in cc
    | inr (p, e) ↦ rw (rf.extends s t p.0 p.1 e) ((rg p.0).extends p.1 t b r (rw e at h))
  ];
  shrinks = λ s b r h. elim (Option-cases (f s)) [
    | inl e ↦ let h' = rw e at h in cc
    | inr (p, e) ↦ omega (arith, rf.shrinks s p.0 p.1 e, (rg p.0).shrinks p.1 b r (rw e at h))
  ];
}

Reads-pure {ℓ} : {A : Type ℓ} (a : A) → Reads (λ s. some (a, s))
Reads-pure a = record {
  extends = λ s t b r h. ground (arith, h);
  shrinks = λ s b r h. ground arith;
}

Reads-fail {ℓ} : {A : Type ℓ} → Reads {A = A} (λ s. none)
Reads-fail = record { extends = λ s t b r h. cc; shrinks = λ s b r h. cc }

Reads-if {ℓ} :
    {A : Type ℓ} (b : Bool) (f g : Bytes → Option (A × Bytes))
    → Reads f
    → Reads g
    → Reads (λ s. if b then f s else g s)
Reads-if true f g rf rg = rf
Reads-if false f g rf rg = rg

read_exact-Reads : (n : ℕ) → Reads (read_exact n)
unfolding read_exact
read_exact-Reads n = record {
  extends = λ s t a r h. elim (Bool-cases (ltb (length s) n)) [
    | inl e ↦ let h' = rw e at h in cc
    | inr e ↦ rw (ltb-false (length (s ++ t)) n (ground (arith, length-append s t))) (
        rw (take-append_short n s t (ground arith), drop-append_short n s t (ground arith))
          (ground (arith, h, e)))
  ];
  shrinks = λ s a r h. ground (arith, length-drop n s);
}

read_u32-Reads : Reads read_u32_le
unfolding read_u32_le
read_u32-Reads = Reads-bind (read_exact 4) _ (read_exact-Reads 4) (λ a. Reads-pure (le_value a))

read_byte-Reads : Reads read_byte
unfolding read_byte
read_byte-Reads = record { extends = grows; shrinks = falls }
  where
    grows :
        (s t : Bytes) (a : ℕ) (r : Bytes)
        → read_byte s ≡ some (a, r)
        → read_byte (s ++ t) ≡ some (a, r ++ t)
    grows [] t a r h = cc
    grows (b ∷ s) t a r h = ground (arith, h)

    falls : (s : Bytes) (a : ℕ) (r : Bytes) → read_byte s ≡ some (a, r) → length r ≤ length s
    falls [] a r h = cc
    falls (b ∷ s) a r h = ground (arith, h)

read_body-Reads : Reads read_body
unfolding read_body
read_body-Reads = Reads-bind _ _ read_byte-Reads λ op. Reads-bind _ _ read_u32-Reads λ rowlen.
    Reads-bind _ _ read_u32-Reads λ collen. Reads-bind _ _ read_u32-Reads λ vallen.
      Reads-bind _ _ (read_exact-Reads rowlen) λ row.
        Reads-bind _ _ (read_exact-Reads collen) λ col.
          Reads-bind _ _ (read_exact-Reads vallen)
            λ val. Reads-pure (record { op = op; row = row; col = col; val = val })

read_entry-Reads : Reads read_entry
unfolding read_entry
read_entry-Reads =
    Reads-bind _ _ read_u32-Reads
      λ magic. Reads-if (magic == wal_magic) read_body (λ s. none) read_body-Reads Reads-fail

-- What was read of an entry is at least its magic.
pub read_entry-length :
    (s : Bytes) (e : Entry) (r : Bytes) → read_entry s ≡ some (e, r) → length r + 4 ≤ length s
unfolding read_entry
read_entry-length s e r h = elim (Option-cases (read_u32_le s)) [
  | inl n ↦ let h' = rw n at h in cc
  | inr (p, n) ↦ omega (
    arith,
    read_u32-length s p.0 p.1 n,
    (Reads-if (p.0 == wal_magic) read_body (λ s. none) read_body-Reads Reads-fail).shrinks p.1 e r
        (rw n at h),
  )
]

-- An entry that is not all there is not read.
pub read_entry-take :
    (n : ℕ) (e : Entry) → Fits e → n < length (encode e) → read_entry (take n (encode e)) ≡ none
read_entry-take n e v h = elim (Option-cases (read_entry (take n (encode e)))) [
  | inl none_read ↦ none_read
  | inr ((found, r), some_read) ↦
      let rest : Bytes = drop n (encode e) in
      let whole_read : read_entry (encode e) ≡ some (found, r ++ rest) =
        rw (take-append-drop n (encode e)) at
          (read_entry-Reads.extends (take n (encode e)) rest found r some_read) in
      let nothing_left : read_entry (encode e) ≡ some (e, []) =
        rw (append-nil (encode e)) at (read_entry-encode e [] v) in
      let same : r ++ rest ≡ [] = ground (arith, whole_read, nothing_left) in
      absurd (
        omega (
          arith,
          ap (λ (l : Bytes). length l) same,
          length-append r rest,
          length-drop n (encode e),
        ))
]

-- The scan ends at the end of the log.
pub read_entry-nil : read_entry [] ≡ none
unfolding read_entry read_u32_le read_exact
read_entry-nil = refl
