-- ===== src/Quantity/Canonical.antt =====
-- What an accepted quantity looks like: it fits a `uint64`, and is the formatted number up to case.
use rpc_proxy.Prelude.{
  ℕ, zero, suc, ◌+◌, ◌*◌, ◌/◌, ◌%◌, ◌^◌, ◌≤◌, ◌<◌, ◌≡◌, ◌≢◌, ◌⊎◌, inl, inr, refl, sym, ap, ◌∙◌,
  some, [], ◌∷◌, ◌++◌, map, arith, ltb, ltb→lt, Bool-cases, Text, lower, ok,
}
use mathlib.Core.List.{append-nil}
use rpc_proxy.Quantity.Defs.{
  digit, digit_value, parse_digits, format_digits, parse_evm_quantity, format_evm_quantity,
}
use rpc_proxy.Quantity.RoundTrip.{div-lt_of_pow}

digit-lower : (c d : ℕ) → digit_value c ≡ some d → (d < 16) × (digit d ≡ lower c)
unfolding digit digit_value lower
digit-lower c d h = ground arith

-- One step of the parser, inverted.
parse_digits-cons :
    (n c m : ℕ) (s : Text)
    → parse_digits n (c ∷ s) ≡ ok m
    → (d : ℕ) × (digit_value c ≡ some d) × (n < 2 ^ 60) × (parse_digits (n * 16 + d) s ≡ ok m)
unfolding parse_digits
parse_digits-cons n c m s h = ground arith

parse_digits_bounds : (n m : ℕ) (s : Text) → n < 2 ^ 64 → parse_digits n s ≡ ok m → m < 2 ^ 64
parse_digits_bounds n m [] b h = unfold parse_digits in ground arith
parse_digits_bounds n m (c ∷ s) b h =
    let (d, e, small, rest) = parse_digits-cons n c m s h in
    parse_digits_bounds (n * 16 + d) m s (omega (arith, digit-lower c d e)) rest

format_digits-small :
    (fuel n : ℕ) (rest : Text) → n < 16 → format_digits (suc fuel) n rest ≡ digit n ∷ rest
unfolding format_digits
format_digits-small fuel n rest h = ground arith

format_digits-large :
    (fuel n : ℕ) (rest : Text)
    → 16 ≤ n
    → format_digits (suc fuel) n rest ≡ format_digits fuel (n / 16) (digit (n % 16) ∷ rest)
unfolding format_digits
format_digits-large fuel n rest h = ground arith

-- Any fuel that is enough gives the same digits.
format_digits-fuel :
    (f g n : ℕ) (rest : Text)
    → n < 16 ^ suc f
    → n < 16 ^ suc g
    → format_digits (suc f) n rest ≡ format_digits (suc g) n rest
format_digits-fuel zero g n rest h k =
    format_digits-small 0 n rest (omega arith) ∙ sym (format_digits-small g n rest (omega arith))
format_digits-fuel (suc f) zero n rest h k =
    format_digits-small (suc f) n rest (omega arith)
    ∙ sym (format_digits-small 0 n rest (omega arith))
format_digits-fuel (suc f) (suc g) n rest h k = elim (Bool-cases (ltb n 16)) [
  | inl small ↦
      format_digits-small (suc f) n rest (ltb→lt n 16 small)
      ∙ sym (format_digits-small (suc g) n rest (ltb→lt n 16 small))
  | inr large ↦
      format_digits-large (suc f) n rest (ground arith)
      ∙ format_digits-fuel f g (n / 16) (digit (n % 16) ∷ rest) (div-lt_of_pow (suc f) n h)
          (div-lt_of_pow (suc g) n k)
      ∙ sym (format_digits-large (suc g) n rest (ground arith))
]

-- A digit appended to a positive number.
format_digits-append :
    (n d : ℕ) (rest : Text)
    → 0 < n
    → n < 2 ^ 60
    → d < 16
    → format_digits 16 (n * 16 + d) rest ≡ format_digits 16 n (digit d ∷ rest)
format_digits-append n d rest p b h =
    format_digits-large 15 (n * 16 + d) rest (omega arith)
    ∙ ap (λ (k : ℕ). format_digits 15 k (digit ((n * 16 + d) % 16) ∷ rest)) (omega arith)
    ∙ ap (λ (k : ℕ). format_digits 15 n (digit k ∷ rest)) (omega arith)
    ∙ format_digits-fuel 14 15 n (digit d ∷ rest) (omega arith) (omega arith)

format-parse_digits :
    (n m : ℕ) (s rest : Text)
    → 0 < n
    → parse_digits n s ≡ ok m
    → format_digits 16 m rest ≡ format_digits 16 n (map lower s ++ rest)
format-parse_digits n m [] rest p h = let e : n ≡ m = unfold parse_digits in ground arith in rw e
format-parse_digits n m (c ∷ s) rest p h =
    let (d, e, small, more) = parse_digits-cons n c m s h in
    let (bound, same) = digit-lower c d e in
    format-parse_digits (n * 16 + d) m s rest (omega arith) more
    ∙ format_digits-append n d (map lower s ++ rest) p small bound
    ∙ ap (λ (x : ℕ). format_digits 16 n (x ∷ (map lower s ++ rest))) same

-- What the checks before the parse leave.
parse_evm_quantity-inv :
    (q : Text) (n : ℕ)
    → parse_evm_quantity q ≡ ok n
    → (c : ℕ) × (s : Text) × (q ≡ b'0' ∷ b'x' ∷ c ∷ s)
      × ((c ≢ b'0') ⊎ (s ≡ []))
      × (parse_digits 0 (c ∷ s) ≡ ok n)
unfolding parse_evm_quantity
parse_evm_quantity-inv (a ∷ b ∷ c ∷ []) n h = (c, [], ground arith, inr refl, ground arith)
parse_evm_quantity-inv (a ∷ b ∷ c ∷ x ∷ s) n h =
    (c, x ∷ s, ground arith, inl (ground arith), ground arith)
parse_evm_quantity-inv q n h = absurd (ground arith)

-- An accepted quantity fits a `uint64`.
pub parse_bounds : (q : Text) (n : ℕ) → parse_evm_quantity q ≡ ok n → n < 2 ^ 64
parse_bounds q n h =
    let (c, s, shape, canonical, digits) = parse_evm_quantity-inv q n h in
    parse_digits_bounds 0 n (c ∷ s) (omega arith) digits

only_zero : (c : ℕ) → digit_value c ≡ some 0 → c ≡ b'0'
unfolding digit_value
only_zero c h = ground arith

zero_digits :
    (c n : ℕ) (s : Text)
    → c ≡ b'0'
    → s ≡ []
    → parse_digits 0 s ≡ ok n
    → format_digits 16 n [] ≡ lower c ∷ map lower s
zero_digits c n [] e nil h =
    let z : 0 ≡ n = unfold parse_digits in ground arith in
    rw (← z, e) (unfold format_digits digit lower in refl)
zero_digits c n (x ∷ s) e nil h = cc

first_digit :
    (c d n : ℕ) (s : Text)
    → digit_value c ≡ some d
    → (c ≢ b'0') ⊎ (s ≡ [])
    → parse_digits d s ≡ ok n
    → format_digits 16 n [] ≡ lower c ∷ map lower s
first_digit c zero n s e canonical h =
    let zero_char = only_zero c e in
    elim canonical [
      | inl nonzero ↦ absurd (nonzero zero_char)
      | inr nil ↦ zero_digits c n s zero_char nil h
    ]
first_digit c (suc d) n s e canonical h =
    let (bound, same) = digit-lower c (suc d) e in
    format-parse_digits (suc d) n s [] (omega arith) h
    ∙ format_digits-small 15 (suc d) (map lower s ++ []) bound
    ∙ rw (same, append-nil)

-- An accepted quantity is, in lower case, the formatted quantity of its number: two accepted
-- spellings of one number differ in case only.
format-parse :
    (q : Text) (n : ℕ) → parse_evm_quantity q ≡ ok n → format_evm_quantity n ≡ map lower q
unfolding format_evm_quantity
format-parse q n h =
    let (c, s, shape, canonical, digits) = parse_evm_quantity-inv q n h in
    let (d, e, small, more) = parse_digits-cons 0 c n s digits in
    let first : format_digits 16 n [] ≡ lower c ∷ map lower s =
      first_digit c d n s e canonical (ap (λ (k : ℕ). parse_digits k s) (omega arith) ∙ more) in
    rw (shape, first) (unfold lower in refl)
