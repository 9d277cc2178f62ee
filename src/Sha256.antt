-- ===== src/Sha256.antt =====
-- frontend/src/password.h: the class `Sha256`. The part of `buffer_` that is filled is a list of bytes,
-- so that `buffer_len_` is its length; words are numbers below 2 ^ 32.
pub mod Blocks
use Prim.Native.Nat.{bit_and, bit_or, bit_xor}
use ncloud.Common.{
  ℕ, zero, suc, ◌+◌, ◌-◌, ◌*◌, ◌/◌, ◌%◌, ◌^◌, List, [], ◌∷◌, ◌++◌, Bytes, length, take, drop,
  replicate, ltb, ◌==◌, if◌then◌else◌, Bool, true, false,
}

abbrev pub digest_size : ℕ
digest_size = 32

abbrev pub block_size : ℕ
block_size = 64

abbrev u32 : ℕ
u32 = 2 ^ 32

pub record Words : Type 0 where
  pub a : ℕ
  pub b : ℕ
  pub c : ℕ
  pub d : ℕ
  pub e : ℕ
  pub f : ℕ
  pub g : ℕ
  pub h : ℕ

pub record Sha : Type 0 where
  pub state : Words
  pub buffer : Bytes
  pub total_bits : ℕ

-- `reset`, which the constructor calls.
abbrev pub initial : Words
initial = record {
  a = 0x6a09e667;
  b = 0xbb67ae85;
  c = 0x3c6ef372;
  d = 0xa54ff53a;
  e = 0x510e527f;
  f = 0x9b05688c;
  g = 0x1f83d9ab;
  h = 0x5be0cd19;
}

abbrev pub reset : Sha
reset = record { state = initial; buffer = []; total_bits = 0 }

abbrev k : List ℕ
k =
    0x428a2f98 ∷ 0x71374491 ∷ 0xb5c0fbcf ∷ 0xe9b5dba5 ∷ 0x3956c25b ∷ 0x59f111f1 ∷ 0x923f82a4
    ∷ 0xab1c5ed5 ∷ 0xd807aa98 ∷ 0x12835b01 ∷ 0x243185be ∷ 0x550c7dc3 ∷ 0x72be5d74 ∷ 0x80deb1fe
    ∷ 0x9bdc06a7 ∷ 0xc19bf174 ∷ 0xe49b69c1 ∷ 0xefbe4786 ∷ 0x0fc19dc6 ∷ 0x240ca1cc ∷ 0x2de92c6f
    ∷ 0x4a7484aa ∷ 0x5cb0a9dc ∷ 0x76f988da ∷ 0x983e5152 ∷ 0xa831c66d ∷ 0xb00327c8 ∷ 0xbf597fc7
    ∷ 0xc6e00bf3 ∷ 0xd5a79147 ∷ 0x06ca6351 ∷ 0x14292967 ∷ 0x27b70a85 ∷ 0x2e1b2138 ∷ 0x4d2c6dfc
    ∷ 0x53380d13 ∷ 0x650a7354 ∷ 0x766a0abb ∷ 0x81c2c92e ∷ 0x92722c85 ∷ 0xa2bfe8a1 ∷ 0xa81a664b
    ∷ 0xc24b8b70 ∷ 0xc76c51a3 ∷ 0xd192e819 ∷ 0xd6990624 ∷ 0xf40e3585 ∷ 0x106aa070 ∷ 0x19a4c116
    ∷ 0x1e376c08 ∷ 0x2748774c ∷ 0x34b0bcb5 ∷ 0x391c0cb3 ∷ 0x4ed8aa4a ∷ 0x5b9cca4f ∷ 0x682e6ff3
    ∷ 0x748f82ee ∷ 0x78a5636f ∷ 0x84c87814 ∷ 0x8cc70208 ∷ 0x90befffa ∷ 0xa4506ceb ∷ 0xbef9a3f7
    ∷ 0xc67178f2 ∷ []

-- `(x >> n) | (x << (32 - n))`
rotr : ℕ → ℕ → ℕ
rotr x n = bit_or (x / 2 ^ n) (x * 2 ^ (32 - n) % u32)

byte_at : ℕ → Bytes → ℕ
byte_at i [] = 0
byte_at zero (x ∷ xs) = x
byte_at (suc i) (x ∷ xs) = byte_at i xs

-- The first words of the schedule: the block's, in big-endian order, the latest word first.
load_words : ℕ → Bytes → List ℕ → List ℕ
unfolding byte_at
load_words zero block w = w
load_words (suc n) block w = load_words n (drop 4 block) (
    bit_or
      (bit_or (bit_or (byte_at 0 block * 2 ^ 24) (byte_at 1 block * 2 ^ 16))
        (byte_at 2 block * 2 ^ 8))
      (byte_at 3 block)
    ∷ w)

-- `w[i]` for `i` from 16 to 63; the latest word is first, so `w[i-15]` has index 14.
extend : ℕ → List ℕ → List ℕ
unfolding byte_at rotr
extend zero w = w
extend (suc n) w =
    let w15 = byte_at 14 w in
    let w2 = byte_at 1 w in
    let s0 = bit_xor (bit_xor (rotr w15 7) (rotr w15 18)) (w15 / 2 ^ 3) in
    let s1 = bit_xor (bit_xor (rotr w2 17) (rotr w2 19)) (w2 / 2 ^ 10) in
    extend n ((byte_at 15 w + s0 + byte_at 6 w + s1) % u32 ∷ w)

reverse_onto : List ℕ → List ℕ → List ℕ
reverse_onto [] ys = ys
reverse_onto (x ∷ xs) ys = reverse_onto xs (x ∷ ys)

-- `w`, in its own order.
schedule : Bytes → List ℕ
unfolding load_words extend reverse_onto
schedule block = reverse_onto (extend 48 (load_words 16 block [])) []

-- One round of the compression.
round : ℕ → ℕ → Words → Words
unfolding rotr
round ki wi s =
    let s1 = bit_xor (bit_xor (rotr s.e 6) (rotr s.e 11)) (rotr s.e 25) in
    let ch = bit_xor (bit_and s.e s.f) (bit_and (u32 - 1 - s.e) s.g) in
    let temp1 = (s.h + s1 + ch + ki + wi) % u32 in
    let s0 = bit_xor (bit_xor (rotr s.a 2) (rotr s.a 13)) (rotr s.a 22) in
    let maj = bit_xor (bit_xor (bit_and s.a s.b) (bit_and s.a s.c)) (bit_and s.b s.c) in
    let temp2 = (s0 + maj) % u32 in
    record {
      a = (temp1 + temp2) % u32;
      b = s.a;
      c = s.b;
      d = s.c;
      e = (s.d + temp1) % u32;
      f = s.e;
      g = s.f;
      h = s.g;
    }

rounds : List ℕ → List ℕ → Words → Words
unfolding round
rounds [] ws s = s
rounds (ki ∷ ks) [] s = s
rounds (ki ∷ ks) (wi ∷ ws) s = rounds ks ws (round ki wi s)

unfoldable pub transform : Bytes → Words → Words
unfolding schedule rounds
transform block s =
    let t = rounds k (schedule block) s in
    record {
      a = (s.a + t.a) % u32;
      b = (s.b + t.b) % u32;
      c = (s.c + t.c) % u32;
      d = (s.d + t.d) % u32;
      e = (s.e + t.e) % u32;
      f = (s.f + t.f) % u32;
      g = (s.g + t.g) % u32;
      h = (s.h + t.h) % u32;
    }

-- A full buffer is compressed and emptied.
compress : Sha → Sha
compress s =
    if length s.buffer == block_size
    then record s { state = transform s.buffer s.state; buffer = [] }
    else s

-- The loop of `update`, with the length of the data as fuel: each round takes at least one byte.
pub fill : ℕ → Bytes → Sha → Sha
unfolding compress
fill zero s h = h
fill (suc fuel) [] h = h
fill (suc fuel) (x ∷ xs) h =
    let n = block_size - length h.buffer in
    fill fuel (drop n (x ∷ xs)) (compress (record h { buffer = h.buffer ++ take n (x ∷ xs) }))

unfoldable pub update : Bytes → Sha → Sha
unfolding fill
update s h = fill (length s) s (record h { total_bits = (h.total_bits + length s * 8) % 2 ^ 64 })

-- `while (buffer_len_ != 56) update(&zero, 1)`
pub pad_zeros : ℕ → Sha → Sha
unfolding update
pad_zeros zero h = h
pad_zeros (suc fuel) h = elim (length h.buffer == 56) [
  | true ↦ h
  | false ↦ pad_zeros fuel (update (0 ∷ []) h)
]

-- The bytes of a number, the highest first.
pub big_endian : ℕ → ℕ → Bytes
big_endian zero n = []
big_endian (suc i) n = (n / 2 ^ (8 * i) % 256) ∷ big_endian i n

pub digest : Words → Bytes
unfolding big_endian
digest s =
    big_endian 4 s.a
    ++ (big_endian 4 s.b
        ++ (big_endian 4 s.c
            ++ (big_endian 4 s.d
                ++ (big_endian 4 s.e
                    ++ (big_endian 4 s.f ++ (big_endian 4 s.g ++ big_endian 4 s.h))))))

-- The padding takes at most 63 zeros.
unfoldable pub final : Sha → Bytes
unfolding update pad_zeros digest big_endian
final h =
    let padded = pad_zeros 64 (update (0x80 ∷ []) h) in
    digest (transform (padded.buffer ++ big_endian 8 h.total_bits) padded.state)

unfoldable pub sha256 : Bytes → Bytes
unfolding update final
sha256 s = final (update s reset)
