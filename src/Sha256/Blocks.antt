-- ===== src/Sha256/Blocks.antt =====
-- How `Sha256` takes its data: it does not matter in which pieces it comes, and the buffer is always
-- filled to a block exactly.
use ncloud.Common.{
  ℕ, zero, suc, ◌+◌, ◌-◌, ◌*◌, ◌%◌, ◌^◌, ◌≤◌, ◌<◌, ◌≡◌, refl, sym, ap, ◌∙◌, [], ◌∷◌, ◌++◌,
  append_assoc, Bytes, length, length-append, take, drop, length-drop, take-append-drop, ◌==◌,
  ==_iff, false, Bool-cases, inl, inr, arith,
}
use ncloud.Sha256.{
  Sha, Words, block_size, digest_size, compress, fill, update, pad_zeros, big_endian, digest, final,
}

-- The buffer has room for a byte.
pub record HasRoom (h : Sha) : Type 0 where
  pub room : length h.buffer < block_size

-- One byte behind the other: the reference for `update`.
pub absorb : Bytes → Sha → Sha
absorb [] h = h
absorb (x ∷ xs) h = absorb xs (compress (record h { buffer = h.buffer ++ (x ∷ []) }))

absorb-append : (xs ys : Bytes) (h : Sha) → absorb (xs ++ ys) h ≡ absorb ys (absorb xs h)
unfolding absorb
absorb-append [] ys h = refl
absorb-append (x ∷ xs) ys h = absorb-append xs ys _

compress-HasRoom : (h : Sha) → length h.buffer ≤ block_size → HasRoom (compress h)
unfolding compress
compress-HasRoom h le = record { room = ground arith }

absorb_all :
    (x : ℕ) (xs : Bytes) (h : Sha)
    → length h.buffer + length (x ∷ xs) ≤ block_size
    → absorb (x ∷ xs) h ≡ compress (record h { buffer = h.buffer ++ (x ∷ xs) })
unfolding absorb
absorb_all x [] h le = refl
absorb_all x (y ∷ xs) h le =
    let k : (length (h.buffer ++ (x ∷ [])) == block_size) ≡ false =
      ground (arith, length-append h.buffer (x ∷ [])) in
    ap (absorb (y ∷ xs)) (waits k)
    ∙ absorb_all y xs (record h { buffer = h.buffer ++ (x ∷ []) })
        (omega (arith, length-append h.buffer (x ∷ [])))
    ∙ ap (λ b. compress (record h { buffer = b })) (append_assoc h.buffer (x ∷ []) (y ∷ xs))
  where
    waits :
        (length (h.buffer ++ (x ∷ [])) == block_size) ≡ false
        → compress (record h { buffer = h.buffer ++ (x ∷ []) })
          ≡ record h { buffer = h.buffer ++ (x ∷ []) }
    waits k = unfold compress in rw k refl

length-take-le : (n : ℕ) (xs : Bytes) → length (take n xs) ≤ n
length-take-le zero xs = omega arith
length-take-le (suc n) [] = omega arith
length-take-le (suc n) (x ∷ xs) = omega (arith, length-take-le n xs)

-- What one round of `update` takes.
taken :
    (n x : ℕ) (xs : Bytes) (h : Sha)
    → length h.buffer + n ≤ block_size
    → 0 < n
    → absorb (take n (x ∷ xs)) h ≡ compress (record h { buffer = h.buffer ++ take n (x ∷ xs) })
taken zero x xs h le pos = absurd (omega arith)
taken (suc n) x xs h le pos = absorb_all x (take n xs) h (omega (arith, length-take-le n xs))

absorb-HasRoom : (xs : Bytes) (h : Sha) → HasRoom h → HasRoom (absorb xs h)
unfolding absorb
absorb-HasRoom [] h v = v
absorb-HasRoom (x ∷ xs) h v = absorb-HasRoom xs _ (
    compress-HasRoom (record h { buffer = h.buffer ++ (x ∷ []) })
      (omega (arith, v.room, length-append h.buffer (x ∷ []))))

fill-absorb :
    (fuel : ℕ) (xs : Bytes) (h : Sha) → length xs ≤ fuel → HasRoom h → fill fuel xs h ≡ absorb xs h
unfolding fill
fill-absorb zero [] h le v = unfold absorb in refl
fill-absorb zero (x ∷ xs) h le v = absurd (omega arith)
fill-absorb (suc fuel) [] h le v = unfold absorb in refl
fill-absorb (suc fuel) (x ∷ xs) h le v =
    let n = block_size - length h.buffer in
    ap (fill fuel (drop n (x ∷ xs)))
      (sym (taken n x xs h (omega (arith, v.room)) (omega (arith, v.room))))
    ∙ fill-absorb fuel (drop n (x ∷ xs)) (absorb (take n (x ∷ xs)) h)
        (omega (arith, v.room, length-drop n (x ∷ xs))) (absorb-HasRoom (take n (x ∷ xs)) h v)
    ∙ sym (absorb-append (take n (x ∷ xs)) (drop n (x ∷ xs)) h)
    ∙ ap (λ s. absorb s h) (take-append-drop n (x ∷ xs))

-- The count of the bits is beside the bytes.
with_bits : ℕ → Sha → Sha
with_bits n h = record h { total_bits = n }

compress-with_bits : (n : ℕ) (h : Sha) → compress (with_bits n h) ≡ with_bits n (compress h)
unfolding compress with_bits
compress-with_bits n h = elim (Bool-cases (length h.buffer == block_size)) [
  | inl e ↦ rw e refl
  | inr e ↦ rw e refl
]

pushed :
    (x n : ℕ) (h : Sha)
    → compress (record (with_bits n h) { buffer = (with_bits n h).buffer ++ (x ∷ []) })
      ≡ compress (with_bits n (record h { buffer = h.buffer ++ (x ∷ []) }))
unfolding with_bits
pushed x n h = refl

absorb-with_bits :
    (xs : Bytes) (n : ℕ) (h : Sha) → absorb xs (with_bits n h) ≡ with_bits n (absorb xs h)
unfolding absorb
absorb-with_bits [] n h = refl
absorb-with_bits (x ∷ xs) n h =
    ap (absorb xs)
      (pushed x n h ∙ compress-with_bits n (record h { buffer = h.buffer ++ (x ∷ []) }))
    ∙ absorb-with_bits xs n _

update-absorb :
    (xs : Bytes) (h : Sha)
    → HasRoom h
    → update xs h ≡ with_bits ((h.total_bits + length xs * 8) % 2 ^ 64) (absorb xs h)
unfolding update with_bits
update-absorb xs h v =
    fill-absorb (length xs) xs (with_bits _ h) (omega arith) (record { room = v.room })
    ∙ absorb-with_bits xs _ h

both_counts :
    (t : ℕ) (xs ys : Bytes)
    → ((t + length xs * 8) % 2 ^ 64 + length ys * 8) % 2 ^ 64 ≡ (t + length (xs ++ ys) * 8) % 2 ^ 64
both_counts t xs ys = omega (arith, length-append xs ys)

both_pieces :
    (t n : ℕ) (xs ys : Bytes) (h : Sha)
    → with_bits n (absorb ys (with_bits t (absorb xs h))) ≡ with_bits n (absorb (xs ++ ys) h)
both_pieces t n xs ys h =
    ap (with_bits n) (absorb-with_bits ys t (absorb xs h))
    ∙ ap (λ g. with_bits n (with_bits t g)) (sym (absorb-append xs ys h))
    ∙ unfold with_bits in refl

bits_of : (t : ℕ) (g : Sha) → (with_bits t g).total_bits ≡ t
unfolding with_bits
bits_of t g = refl

-- Data that comes in two pieces is taken as if it came at once, the count of the bits included,
-- wherever the buffer has room before.
pub update-update :
    (xs ys : Bytes) (h : Sha) → HasRoom h → update ys (update xs h) ≡ update (xs ++ ys) h
update-update xs ys h v =
    let t = (h.total_bits + length xs * 8) % 2 ^ 64 in
    ap (update ys) (update-absorb xs h v)
    ∙ update-absorb ys (with_bits t (absorb xs h)) (kept t (absorb-HasRoom xs h v))
    ∙ ap (λ n. with_bits ((n + length ys * 8) % 2 ^ 64) (absorb ys (with_bits t (absorb xs h))))
        (bits_of t (absorb xs h))
    ∙ both_pieces t _ xs ys h
    ∙ ap (λ n. with_bits n (absorb (xs ++ ys) h)) (both_counts h.total_bits xs ys)
    ∙ sym (update-absorb (xs ++ ys) h v)
  where
    kept : (n : ℕ) → {g : Sha} → HasRoom g → HasRoom (with_bits n g)
    kept n v = unfold with_bits in record { room = v.room }

-- The buffer after one byte more.
length-update_one :
    (x : ℕ) (h : Sha)
    → HasRoom h
    → length (update (x ∷ []) h).buffer ≡ (length h.buffer + 1) % block_size
length-update_one x h v =
    rw (update-absorb (x ∷ []) h v)
      (unfold with_bits absorb compress in ground (arith, v.room, length-append h.buffer (x ∷ [])))

update-HasRoom : (xs : Bytes) (h : Sha) → HasRoom h → HasRoom (update xs h)
update-HasRoom xs h v =
    rw (update-absorb xs h v) (unfold with_bits in record { room = (absorb-HasRoom xs h v).room })

-- The zeros that are missing.
abbrev missing : ℕ → ℕ
missing n = (56 + block_size - n) % block_size

-- The loop of the padding ends with 56 bytes in the buffer.
pad_zeros-ends :
    (fuel : ℕ) (h : Sha)
    → HasRoom h
    → missing (length h.buffer) ≤ fuel
    → length (pad_zeros fuel h).buffer ≡ 56
unfolding pad_zeros
pad_zeros-ends zero h v le = omega (arith, v.room)
pad_zeros-ends (suc fuel) h v le = elim (Bool-cases (length h.buffer == 56)) [
  | inl e ↦ rw (e, pad_zeros) ((==_iff (length h.buffer) 56).0 e)
  | inr e ↦
      rw (e, pad_zeros)
        (pad_zeros-ends fuel (update (0 ∷ []) h) (update-HasRoom (0 ∷ []) h v)
          (ground (arith, v.room, e, length-update_one 0 h v)))
]

length-big_endian : (i n : ℕ) → length (big_endian i n) ≡ i
unfolding big_endian
length-big_endian zero n = refl
length-big_endian (suc i) n = ap suc (length-big_endian i n)

-- The padding loop ends within its fuel, and the length behind it fills the buffer to one block.
pub final_block :
    (h : Sha)
    → HasRoom h
    → let padded = pad_zeros 64 (update (0x80 ∷ []) h) in
      (length padded.buffer ≡ 56)
      × (length (padded.buffer ++ big_endian 8 h.total_bits) ≡ block_size)
final_block h v =
    let e =
      pad_zeros-ends 64 (update (0x80 ∷ []) h) (update-HasRoom (0x80 ∷ []) h v) (omega arith) in
    (
      e,
      omega (
        arith,
        e,
        length-big_endian 8 h.total_bits,
        length-append (pad_zeros 64 (update (0x80 ∷ []) h)).buffer (big_endian 8 h.total_bits),
      ),
    )

pub length-digest : (s : Words) → length (digest s) ≡ digest_size
unfolding digest
length-digest s = refl

pub length-final : (h : Sha) → length (final h) ≡ digest_size
unfolding final digest
length-final h = refl
