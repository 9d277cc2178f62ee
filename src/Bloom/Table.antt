-- ===== src/Bloom/Table.antt =====
-- What `|=` with one bit does to a byte, by trying every byte and bit.
use Prim.Native.Nat.{bit_or}
use ncloud.Common.{
  ℕ, zero, suc, ◌/◌, ◌%◌, ◌^◌, ◌<◌, ◌≡◌, refl, Bool, true, ◌&&◌, ◌||◌, not, ltb, ◌==◌, arith,
}

each_below : ℕ → (ℕ → Bool) → Bool
each_below zero p = true
each_below (suc n) p = p n && each_below n p

each_below_sound : (n : ℕ) (p : ℕ → Bool) (x : ℕ) → each_below n p ≡ true → x < n → p x ≡ true
unfolding each_below
each_below_sound zero p x h lt = absurd (omega arith)
each_below_sound (suc n) p x h lt = ground (arith, each_below_sound n p x)

abbrev test_bit : ℕ → ℕ → Bool
test_bit b k = (b / 2 ^ k) % 2 == 1

-- bit `k` is set, bit `j` is not lost, and the result is a byte
table_row : ℕ → ℕ → ℕ → Bool
table_row b k j =
    let c = bit_or b (2 ^ k) in test_bit c k && ((not (test_bit b j) || test_bit c j) && ltb c 256)

byte_table : each_below 256 (λ b. each_below 8 (λ k. each_below 8 (λ j. table_row b k j))) ≡ true
unfolding each_below table_row
byte_table = refl

table_holds : (b k j : ℕ) → b < 256 → k < 8 → j < 8 → table_row b k j ≡ true
table_holds b k j hb hk hj =
    each_below_sound 8 (λ i. table_row b k i) j
      (each_below_sound 8 (λ l. each_below 8 (λ i. table_row b l i)) k
        (each_below_sound 256 (λ a. each_below 8 (λ l. each_below 8 (λ i. table_row a l i))) b
          byte_table hb)
        hk)
      hj

pub set_self : (b k : ℕ) → b < 256 → k < 8 → test_bit (bit_or b (2 ^ k)) k ≡ true
unfolding table_row
set_self b k hb hk = ground (arith, table_holds b k k hb hk hk)

pub set_keeps :
    (b k j : ℕ)
    → b < 256
    → k < 8
    → j < 8
    → test_bit b j ≡ true
    → test_bit (bit_or b (2 ^ k)) j ≡ true
unfolding table_row
set_keeps b k j hb hk hj h = ground (arith, table_holds b k j hb hk hj)

pub set-lt : (b k : ℕ) → b < 256 → k < 8 → bit_or b (2 ^ k) < 256
unfolding table_row
set-lt b k hb hk = ground (arith, table_holds b k k hb hk hk)
