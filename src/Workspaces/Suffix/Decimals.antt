-- ===== src/Workspaces/Suffix/Decimals.antt =====
-- Numbers as the template literals of src/core/workspace/index.js print them.
use canvas_server.Prelude.{
  ℕ, zero, suc, ◌+◌, ◌-◌, ◌*◌, ◌/◌, ◌%◌, ◌<◌, ◌≡◌, refl, inl, inr, [], ◌∷◌, ◌++◌, ltb, Text,
  Bool-cases, arith, sym, ap, ◌∙◌,
}
use canvas_server.Workspaces.Suffix.{digits, decimal}

value : ℕ → Text → ℕ
value acc [] = acc
value acc (c ∷ s) = value (acc * 10 + (c - b'0')) s

value-append : (acc c : ℕ) (s : Text) → value acc (s ++ c ∷ []) ≡ value acc s * 10 + (c - b'0')
unfolding value
value-append acc c [] = refl
value-append acc c (d ∷ s) = value-append (acc * 10 + (d - b'0')) c s

first_digit : (n : ℕ) → value 0 ((n + b'0') ∷ []) ≡ n
unfolding value
first_digit n = omega arith

value-digits : (fuel n : ℕ) → n < fuel → value 0 (digits fuel n) ≡ n
unfolding digits
value-digits zero n h = omega (arith)
value-digits (suc fuel) n h = elim (Bool-cases (ltb n 10)) [
  | inl small ↦ rw (small, digits) (first_digit n)
  | inr big ↦
      rw (big, digits)
        (value-append 0 (n % 10 + b'0') (digits fuel (n / 10))
          ∙ ground (arith, value-digits fuel (n / 10) (ground arith), big))
]

-- Different numbers are printed differently.
pub decimal-inj : (n k : ℕ) → decimal n ≡ decimal k → n ≡ k
unfolding decimal
decimal-inj n k e =
    sym (value-digits (suc n) n (omega arith))
    ∙ ap (value 0) e
    ∙ value-digits (suc k) k (omega arith)
