-- ===== src/Prelude/Decimal.antt =====
-- `fmt`'s `%d` on a `uint64`, and what can be read back from a text that ends in `:` and a number.
use Prim.Native.Nat.{ℕ, zero, suc, ◌+◌, ◌-◌, ◌*◌, ◌/◌, ◌%◌, ◌^◌, ◌<◌}
use mathlib.Core.Path.{◌≡◌, refl, ap, ◌∙◌}
use mathlib.Core.Logic.{inl, inr}
use mathlib.Core.List.{[], ◌∷◌, ◌++◌}
use native.Mathlib.Nat.{pow-suc}
use native.Mathlib.Omega.{arith}
use rpc_proxy.Prelude.Tests.{ltb, ◌==◌, if◌then◌else◌, Bool-cases}
use rpc_proxy.Prelude.Words.{Text}

unfoldable pub decimal_digits : ℕ → ℕ → Text → Text
decimal_digits zero n rest = rest
decimal_digits (suc fuel) n rest =
    let more = decimal_digits fuel (n / 10) ((b'0' + n % 10) ∷ rest) in
    if ltb n 10 then (b'0' + n) ∷ rest else more

-- Twenty digits are enough for a `uint64`.
unfoldable pub decimal : ℕ → Text
unfolding decimal_digits
decimal n = decimal_digits 20 n []

-- The number after the last colon.
unfoldable pub number_after : ℕ → Text → ℕ
number_after n [] = n
number_after n (c ∷ s) = number_after (if c == b':' then 0 else n * 10 + (c - b'0')) s

number_after-digits :
    (fuel n : ℕ) (rest : Text)
    → n < 10 ^ fuel
    → number_after 0 (decimal_digits fuel n rest) ≡ number_after n rest
unfolding decimal_digits number_after
number_after-digits zero n rest h = let e : n ≡ 0 = omega arith in rw e refl
number_after-digits (suc fuel) n rest h = elim (Bool-cases (ltb n 10)) [
  | inl small ↦ rw small (ap (λ (k : ℕ). number_after k rest) (ground arith))
  | inr large ↦ rw large (
      number_after-digits fuel (n / 10) ((b'0' + n % 10) ∷ rest) (omega (arith, pow-suc 10 fuel))
      ∙ ap (λ (k : ℕ). number_after k rest) (ground arith))
]

number_after-append : (n : ℕ) (s t : Text) → number_after n (s ++ b':' ∷ t) ≡ number_after 0 t
unfolding number_after
number_after-append n [] t = refl
number_after-append n (c ∷ s) t =
    number_after-append (if c == b':' then 0 else n * 10 + (c - b'0')) s t

-- The number that a text such as a fencing token ends in.
pub number_after-decimal :
    (s : Text) (n : ℕ) → n < 2 ^ 64 → number_after 0 (s ++ b':' ∷ decimal n) ≡ n
unfolding decimal
number_after-decimal s n h =
    number_after-append 0 s (decimal_digits 20 n [])
    ∙ number_after-digits 20 n [] (omega arith)
    ∙ unfold number_after in refl

decimal_digits-append :
    (fuel n : ℕ) (rest t : Text)
    → decimal_digits fuel n rest ++ t ≡ decimal_digits fuel n (rest ++ t)
unfolding decimal_digits
decimal_digits-append zero n rest t = refl
decimal_digits-append (suc fuel) n rest t = elim (Bool-cases (ltb n 10)) [
  | inl small ↦ rw small
  | inr large ↦ rw large (decimal_digits-append fuel (n / 10) ((b'0' + n % 10) ∷ rest) t)
]

-- A text that begins with a number tells it apart from every other number.
pub number_after-decimal_append :
    (n : ℕ) (t : Text) → n < 2 ^ 64 → number_after 0 (decimal n ++ t) ≡ number_after n t
unfolding decimal
number_after-decimal_append n t h =
    ap (number_after 0) (decimal_digits-append 20 n [] t) ∙ number_after-digits 20 n t (omega arith)
