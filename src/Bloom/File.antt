-- ===== src/Bloom/File.antt =====
-- The filter as the last part of a checkpoint file: what `serialize` writes, `deserialize` reads.
use ncloud.Common.{
  ℕ, zero, suc, ◌+◌, ◌/◌, ◌<◌, ◌≡◌, refl, ◌∙◌, ap, true, Bytes, arith, ◌++◌, ltb, length, lt→ltb,
  Bool-cases, inl, inr, ltb→lt,
}
use ncloud.Bloom.{
  BitArray, byte_count, get_bit, may_contain, write_bytes, serialize, byte_or_zero, deserialize,
}
use ncloud.Bloom.Laws.{IsByteArray, may_contain_loop_mono}

length-write_bytes : (n i : ℕ) (bits : BitArray) → length (write_bytes n i bits) ≡ n
unfolding write_bytes
length-write_bytes zero i bits = refl
length-write_bytes (suc n) i bits = ap suc (length-write_bytes n (i + 1) bits)

byte_or_zero-write_bytes :
    (n i j : ℕ) (bits : BitArray) (rest : Bytes)
    → j < n
    → byte_or_zero (write_bytes n i bits ++ rest) j ≡ bits (i + j)
unfolding write_bytes
byte_or_zero-write_bytes zero i j bits rest h = absurd (omega arith)
byte_or_zero-write_bytes (suc n) i zero bits rest h = ap bits (omega arith)
byte_or_zero-write_bytes (suc n) i (suc j) bits rest h =
    let e : i + 1 + j ≡ i + suc j = omega arith in
    rw (← e) (byte_or_zero-write_bytes n (i + 1) j bits rest (omega arith))

read_back :
    (bits : BitArray) (rest : Bytes) (i : ℕ)
    → i < byte_count
    → (deserialize (serialize bits ++ rest)).0 i ≡ bits i
unfolding deserialize serialize
read_back bits rest i h =
    rw (lt→ltb i byte_count h)
      (byte_or_zero-write_bytes byte_count 0 i bits rest h ∙ ap bits (omega arith))

pub deserialize-IsByteArray :
    (bits : BitArray) (rest : Bytes)
    → IsByteArray bits
    → IsByteArray (deserialize (serialize bits ++ rest)).0
deserialize-IsByteArray bits rest v = record {
  at = λ i. elim (Bool-cases (ltb i byte_count)) [
    | inl e ↦ rw (read_back bits rest i (ltb→lt i byte_count e)) (v.at i)
    | inr e ↦ unfold deserialize in rw e (omega arith)
  ];
}

-- The filter that is read back answers every query as the one that was written.
pub may_contain-deserialize :
    (bits : BitArray) (rest key : Bytes)
    → may_contain bits key ≡ true
    → may_contain (deserialize (serialize bits ++ rest)).0 key ≡ true
unfolding may_contain
may_contain-deserialize bits rest key h =
    may_contain_loop_mono 3 0 bits (deserialize (serialize bits ++ rest)).0 key
      (λ q below e. unfold get_bit in rw (read_back bits rest (q / 8) (omega arith)) e) h
