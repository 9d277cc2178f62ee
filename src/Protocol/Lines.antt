-- ===== src/Protocol/Lines.antt =====
-- A line that is written is read back.
use ncloud.Common.{
  ℕ, ◌+◌, ◌≤◌, ◌≡◌, refl, ap, ◌∙◌, sym, some, [], ◌∷◌, ◌++◌, append_assoc, Bytes, length,
  length-append, All, All-append, false, ◌==◌, arith, ltb-false,
}
use ncloud.Common.Decimal.{to_string}
use ncloud.Common.Decimal.Printed.{to_string-IsDigit, IsDigit}
use ncloud.Protocol.{read_line, line_loop, strip_return, stripped}

abbrev pub InLine : ℕ → Type 0
InLine c = (c == b'\n') ≡ false

line_loop-append :
    (size : ℕ) (xs rest : Bytes)
    → All InLine xs
    → size + length xs ≤ 8192
    → line_loop size (xs ++ (10 ∷ rest)) ≡ some (xs, rest)
unfolding line_loop
line_loop-append size [] rest h le = refl
line_loop-append size (x ∷ xs) rest h le =
    rw
      (
        h.0,
        ltb-false 8192 (size + 1) (omega arith),
        line_loop-append (size + 1) xs rest h.1 (omega arith),
      )
      refl

strip_return-append : (xs : Bytes) → strip_return (xs ++ (13 ∷ [])) ≡ xs
unfolding strip_return
strip_return-append [] = refl
strip_return-append (x ∷ []) = refl
strip_return-append (x ∷ y ∷ xs) = ap (λ s. x ∷ s) (strip_return-append (y ∷ xs))

-- A line of at most 8191 bytes without a newline is read as it was written.
pub read_line-append :
    (xs rest : Bytes)
    → All InLine xs
    → length xs + 1 ≤ 8192
    → read_line (xs ++ (13 ∷ 10 ∷ rest)) ≡ some (xs, rest)
unfolding read_line
read_line-append xs rest h le =
    ap (λ s. stripped (line_loop 0 s)) (sym (append_assoc xs (13 ∷ []) (10 ∷ rest)))
    ∙ ap stripped (
        line_loop-append 0 (xs ++ (13 ∷ [])) rest (All-append InLine xs (13 ∷ []) h (refl, tt))
          (omega (arith, length-append xs (13 ∷ []))))
    ∙ ap (λ s. some (s, rest)) (strip_return-append xs)

digits-InLine : (s : Bytes) → All IsDigit s → All InLine s
digits-InLine [] h = tt
digits-InLine (c ∷ s) h = (ground (arith, h.0), digits-InLine s h.1)

pub to_string-InLine : (n : ℕ) → All InLine (to_string n)
to_string-InLine n = digits-InLine (to_string n) (to_string-IsDigit n)
