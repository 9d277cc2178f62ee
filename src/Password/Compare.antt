-- ===== src/Password/Compare.antt =====
-- The comparison that does not stop early decides equality.
use Prim.Native.Nat.{bit_or, bit_xor}
use ncloud.Common.{
  ℕ, ◌%◌, ◌^◌, ◌<◌, ◌≡◌, ◌↔◌, refl, ap, ◌∙◌, [], ◌∷◌, Bytes, length, true, ==_iff, arith, subst,
}
use ncloud.Common.Bits.{bit_xor-eq-zero, bit_xor_self, bit_or-eq-zero, bit_xor-lt}
use ncloud.Password.{mix, constant_time_equals}

mix-diff : (diff : ℕ) (a b : Bytes) → mix diff a b ≡ 0 → diff ≡ 0
unfolding mix
mix-diff diff [] [] h = h
mix-diff diff [] (b ∷ bs) h = (bit_or-eq-zero diff b (mix-diff (bit_or diff b) [] bs h)).0
mix-diff diff (a ∷ rest) [] h = (bit_or-eq-zero diff a (mix-diff (bit_or diff a) rest [] h)).0
mix-diff diff (a ∷ rest) (b ∷ bs) h =
    (bit_or-eq-zero diff (bit_xor a b) (mix-diff (bit_or diff (bit_xor a b)) rest bs h)).0

mix-eq : (diff : ℕ) (a b : Bytes) → length a ≡ length b → mix diff a b ≡ 0 → a ≡ b
unfolding mix
mix-eq diff [] [] e h = refl
mix-eq diff [] (b ∷ bs) e h = absurd (omega arith)
mix-eq diff (a ∷ rest) [] e h = absurd (omega arith)
mix-eq diff (a ∷ rest) (b ∷ bs) e h =
    let here = bit_xor-eq-zero a b (bit_or-eq-zero diff (bit_xor a b) (mix-diff _ rest bs h)).1 in
    let later = mix-eq (bit_or diff (bit_xor a b)) rest bs (omega arith) h in cc

mix_self : (a : Bytes) → mix 0 a a ≡ 0
unfolding mix
mix_self [] = refl
mix_self (a ∷ rest) = ap (λ d. mix (bit_or 0 d) rest rest) (bit_xor_self a) ∙ mix_self rest

pub constant_time_equals_self : (a : Bytes) → constant_time_equals a a ≡ true
unfolding constant_time_equals
constant_time_equals_self a =
    (==_iff (mix (bit_xor (length a) (length a) % 2 ^ 32) a a) 0).1
      (ap (λ d. mix (d % 2 ^ 32) a a) (bit_xor_self (length a)) ∙ mix_self a)

-- The comparison is true exactly for equal texts, if both are shorter than the 32 bits to which it
-- cuts the difference of their lengths.
pub constant_time_equals_iff :
    (a b : Bytes)
    → length a < 2 ^ 32
    → length b < 2 ^ 32
    → (constant_time_equals a b ≡ true) ↔ (a ≡ b)
unfolding constant_time_equals
constant_time_equals_iff a b la lb = (
  λ h.
      let zero_mix = (==_iff (mix (bit_xor (length a) (length b) % 2 ^ 32) a b) 0).0 h in
      let zero_diff = mix-diff _ a b zero_mix in
      let small = bit_xor-lt 32 (length a) (length b) (omega arith) (omega arith) in
      mix-eq _ a b (bit_xor-eq-zero (length a) (length b) (omega arith)) zero_mix,
  λ e. subst (λ s. constant_time_equals a s ≡ true) e (constant_time_equals_self a),
)
