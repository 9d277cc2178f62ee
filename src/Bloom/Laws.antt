-- ===== src/Bloom/Laws.antt =====
-- The filter has no false negatives: a key that was added is reported as perhaps present.
use ncloud.Common.{
  ℕ, zero, suc, ◌+◌, ◌/◌, ◌%◌, ◌<◌, ◌≡◌, refl, true, Bytes, arith, ◌==◌, ==_iff, Bool-cases, inl,
  inr,
}
use ncloud.Bloom.{
  BitArray, empty_bits, bit_count, set_bit, get_bit, hash, add_loop, may_contain_loop, add,
  may_contain,
}
use ncloud.Bloom.Table.{set_self, set_keeps, set-lt}

-- Every entry of the array is a byte.
pub record IsByteArray (bits : BitArray) : Type 0 where
  pub at : (i : ℕ) → bits i < 256

pub empty_bits-IsByteArray : IsByteArray empty_bits
empty_bits-IsByteArray = record { at = λ i. omega arith }

set_bit-IsByteArray :
    (bits : BitArray) (pos : ℕ) → IsByteArray bits → IsByteArray (set_bit bits pos)
unfolding set_bit
set_bit-IsByteArray bits pos v = record {
  at = λ i. ground (arith, v.at i, set-lt (bits i) (pos % 8) (v.at i) (omega arith));
}

get_bit-set_self :
    (bits : BitArray) (pos : ℕ) → IsByteArray bits → get_bit (set_bit bits pos) pos ≡ true
unfolding get_bit set_bit
get_bit-set_self bits pos v =
    rw ((==_iff (pos / 8) (pos / 8)).1 refl)
      (set_self (bits (pos / 8)) (pos % 8) (v.at (pos / 8)) (omega arith))

get_bit-set_mono :
    (bits : BitArray) (pos q : ℕ)
    → IsByteArray bits
    → get_bit bits q ≡ true
    → get_bit (set_bit bits pos) q ≡ true
unfolding get_bit set_bit
get_bit-set_mono bits pos q v h = elim (Bool-cases (q / 8 == pos / 8)) [
  | inl e ↦
      rw e (set_keeps (bits (q / 8)) (pos % 8) (q % 8) (v.at (q / 8)) (omega arith) (omega arith) h)
  | inr e ↦ rw e h
]

add_loop-IsByteArray :
    (n i : ℕ) (bits : BitArray) (key : Bytes)
    → IsByteArray bits
    → IsByteArray (add_loop n i bits key)
unfolding add_loop
add_loop-IsByteArray zero i bits key v = v
add_loop-IsByteArray (suc n) i bits key v =
    add_loop-IsByteArray n (i + 1) _ key (set_bit-IsByteArray bits _ v)

add_loop_mono :
    (n i : ℕ) (bits : BitArray) (key : Bytes) (q : ℕ)
    → IsByteArray bits
    → get_bit bits q ≡ true
    → get_bit (add_loop n i bits key) q ≡ true
unfolding add_loop
add_loop_mono zero i bits key q v h = h
add_loop_mono (suc n) i bits key q v h =
    add_loop_mono n (i + 1) _ key q (set_bit-IsByteArray bits _ v) (get_bit-set_mono bits _ q v h)

may_contain_loop-add :
    (n i : ℕ) (bits : BitArray) (key : Bytes)
    → IsByteArray bits
    → may_contain_loop n i (add_loop n i bits key) key ≡ true
unfolding may_contain_loop add_loop
may_contain_loop-add zero i bits key v = refl
may_contain_loop-add (suc n) i bits key v =
    let pos = hash key i % bit_count in
    let v' = set_bit-IsByteArray bits pos v in
    rw (add_loop_mono n (i + 1) (set_bit bits pos) key pos v' (get_bit-set_self bits pos v))
      (may_contain_loop-add n (i + 1) (set_bit bits pos) key v')

-- The answer grows with the bits.
pub may_contain_loop_mono :
    (n i : ℕ) (b c : BitArray) (key : Bytes)
    → ((q : ℕ) → q < bit_count → get_bit b q ≡ true → get_bit c q ≡ true)
    → may_contain_loop n i b key ≡ true
    → may_contain_loop n i c key ≡ true
unfolding may_contain_loop
may_contain_loop_mono zero i b c key f h = refl
may_contain_loop_mono (suc n) i b c key f h =
    let pos = hash key i % bit_count in
    elim (Bool-cases (get_bit b pos)) [
      | inl e ↦ rw (f pos (omega arith) e) (may_contain_loop_mono n (i + 1) b c key f (rw e at h))
      | inr e ↦ ground (arith, h, e)
    ]

pub add-IsByteArray :
    (bits : BitArray) (key : Bytes) → IsByteArray bits → IsByteArray (add bits key)
unfolding add
add-IsByteArray bits key v = add_loop-IsByteArray 3 0 bits key v

-- A key that was added may be contained.
pub may_contain-add_self :
    (bits : BitArray) (key : Bytes) → IsByteArray bits → may_contain (add bits key) key ≡ true
unfolding may_contain add
may_contain-add_self bits key v = may_contain_loop-add 3 0 bits key v

-- Adding one key hides no other.
pub may_contain-add_mono :
    (bits : BitArray) (key other : Bytes)
    → IsByteArray bits
    → may_contain bits other ≡ true
    → may_contain (add bits key) other ≡ true
unfolding may_contain add
may_contain-add_mono bits key other v h =
    may_contain_loop_mono 3 0 bits (add bits key) other (λ q _ e. add_loop_mono 3 0 bits key q v e)
      h
