-- ===== src/Quantity/RoundTrip.antt =====
-- A formatted quantity parses back to its number.
use rpc_proxy.Prelude.{
  ℕ, zero, suc, ◌+◌, ◌*◌, ◌/◌, ◌%◌, ◌^◌, ◌<◌, ◌≡◌, ◌≢◌, inl, inr, refl, sym, ◌∙◌, ap, ltb→lt, some,
  [], ◌∷◌, arith, ltb, Bool-cases, Text, ok,
}
use native.Mathlib.Nat.{pow-suc}
use rpc_proxy.Quantity.Defs.{
  digit, digit_value, parse_digits, format_digits, parse_evm_quantity, format_evm_quantity,
}

pub digit_value-digit : (d : ℕ) → d < 16 → digit_value (digit d) ≡ some d
unfolding digit digit_value
digit_value-digit d h = ground arith

pub digit-ne-zero : (d : ℕ) → 0 < d → digit d ≢ b'0'
unfolding digit
digit-ne-zero d h = ground arith

-- One step of the parser, on a digit of the formatter.
parse_digits-step :
    (n d : ℕ) (s : Text)
    → n < 2 ^ 60
    → d < 16
    → parse_digits n (digit d ∷ s) ≡ parse_digits (n * 16 + d) s
unfolding parse_digits
parse_digits-step n d s h k = ground (arith, digit_value-digit d)

pub div-lt_of_pow : (fuel n : ℕ) → n < 16 ^ suc fuel → n / 16 < 16 ^ fuel
div-lt_of_pow fuel n h = omega (arith, pow-suc 16 fuel)

parse_digits-format :
    (fuel n : ℕ) (rest : Text)
    → n < 16 ^ fuel
    → n < 2 ^ 64
    → parse_digits 0 (format_digits fuel n rest) ≡ parse_digits n rest
unfolding format_digits
parse_digits-format zero n rest h b = let e : n ≡ 0 = omega arith in rw e refl
parse_digits-format (suc fuel) n rest h b = elim (Bool-cases (ltb n 16)) [
  | inl small ↦ rw small (
      parse_digits-step 0 n rest (omega arith) (ltb→lt n 16 small)
      ∙ ap (λ (k : ℕ). parse_digits k rest) (omega arith))
  | inr large ↦ rw large (
      parse_digits-format fuel (n / 16) (digit (n % 16) ∷ rest) (div-lt_of_pow fuel n h)
        (omega arith)
      ∙ parse_digits-step (n / 16) (n % 16) rest (omega arith) (omega arith)
      ∙ ap (λ (k : ℕ). parse_digits k rest) (omega arith))
]

-- A positive number's first digit is not zero.
pub format_digits-head :
    (fuel n : ℕ) (rest : Text)
    → 0 < n
    → n < 16 ^ fuel
    → (d : ℕ) × (s : Text) × (format_digits fuel n rest ≡ d ∷ s) × (d ≢ b'0')
unfolding format_digits
format_digits-head zero n rest p h = absurd (omega arith)
format_digits-head (suc fuel) n rest p h = elim (Bool-cases (ltb n 16)) [
  | inl small ↦ (digit n, rest, rw small, digit-ne-zero n p)
  | inr large ↦ rw large (
      format_digits-head fuel (n / 16) (digit (n % 16) ∷ rest) (ground arith)
        (div-lt_of_pow fuel n h))
]

pub parse_evm_quantity-digits :
    (d : ℕ) (s : Text)
    → d ≢ b'0'
    → parse_evm_quantity (b'0' ∷ b'x' ∷ d ∷ s) ≡ parse_digits 0 (d ∷ s)
unfolding parse_evm_quantity
parse_evm_quantity-digits d s h = ground arith

-- The canonical quantity of a `uint64` is accepted and read back as that number.
pub parse-format : (n : ℕ) → n < 2 ^ 64 → parse_evm_quantity (format_evm_quantity n) ≡ ok n
unfolding format_evm_quantity
parse-format zero h = unfold parse_evm_quantity in refl
parse-format (suc n) h =
    let (d, s, shape, nonzero) = format_digits-head 16 (suc n) [] (omega arith) h in
    rw shape (
      parse_evm_quantity-digits d s nonzero
      ∙ ap (parse_digits 0) (sym shape)
      ∙ parse_digits-format 16 (suc n) [] h h
      ∙ unfold parse_digits in refl)
