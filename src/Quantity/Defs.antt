-- ===== src/Quantity/Defs.antt =====
-- internal/utils/evm.go.
use rpc_proxy.Prelude.{
  ℕ, zero, suc, ◌+◌, ◌-◌, ◌*◌, ◌/◌, ◌%◌, ◌^◌, Bool, true, false, not, ◌&&◌, ◌||◌, Option, none,
  some, [], ◌∷◌, ltb, leb, ◌==◌, if◌then◌else◌, length, drop, Text, codes, Result, ok, err,
}

pub data QuantityError : Type 0 where
  not_prefixed leading_zero invalid_syntax out_of_range : QuantityError

-- `strings.HasPrefix(s, prefix)`.
unfoldable pub has_prefix : Text → Text → Bool
has_prefix s [] = true
has_prefix [] (p ∷ prefix) = false
has_prefix (c ∷ s) (p ∷ prefix) = (c == p) && has_prefix s prefix

-- `s[i]`, where the program has checked the length.
unfoldable pub byte_at : Text → ℕ → ℕ
byte_at [] i = 0
byte_at (c ∷ s) zero = c
byte_at (c ∷ s) (suc i) = byte_at s i

-- A hexadecimal digit of either case.
unfoldable pub digit_value : ℕ → Option ℕ
digit_value c =
    if leb b'0' c && leb c b'9'
    then some (c - b'0')
    else if leb b'a' c && leb c b'f'
    then some (c - b'a' + 10)
    else if leb b'A' c && leb c b'F'
    then some (c - b'A' + 10)
    else none

-- The loop of `strconv.ParseUint` in base 16: `2 ^ 60` is its cutoff for a 64-bit result.
unfoldable pub parse_digits : ℕ → Text → Result QuantityError ℕ
parse_digits n [] = ok n
parse_digits n (c ∷ s) = elim (digit_value c) [
  | none ↦ err invalid_syntax
  | some d ↦ if leb (2 ^ 60) n then err out_of_range else parse_digits (n * 16 + d) s
]

unfoldable pub parse_uint : Text → Result QuantityError ℕ
unfolding parse_digits digit_value
parse_uint [] = err invalid_syntax
parse_uint (c ∷ s) = parse_digits 0 (c ∷ s)

-- `ParseEVMQuantity`.
unfoldable pub parse_evm_quantity : Text → Result QuantityError ℕ
unfolding has_prefix byte_at parse_uint
parse_evm_quantity quantity =
    if not (has_prefix quantity (codes "0x")) || ltb (length quantity) 3
    then err not_prefixed
    else if ltb 3 (length quantity) && byte_at quantity 2 == b'0'
    then err leading_zero
    else parse_uint (drop 2 quantity)

-- The lower-case digit of a number below 16.
unfoldable pub digit : ℕ → ℕ
digit d = if ltb d 10 then b'0' + d else b'a' + (d - 10)

-- The digits of `n` before `rest`. A `uint64` has at most 16 of them.
unfoldable pub format_digits : ℕ → ℕ → Text → Text
format_digits zero n rest = rest
format_digits (suc fuel) n rest =
    let more = format_digits fuel (n / 16) (digit (n % 16) ∷ rest) in
    if ltb n 16 then digit n ∷ rest else more

-- `FormatEVMQuantity`.
unfoldable pub format_evm_quantity : ℕ → Text
unfolding format_digits digit
format_evm_quantity number = b'0' ∷ b'x' ∷ format_digits 16 number []

-- `hex.DecodeString` succeeds: an even number of hexadecimal digits.
unfoldable pub is_hex : Text → Bool
unfolding digit_value
is_hex [] = true
is_hex (a ∷ []) = false
is_hex (a ∷ b ∷ s) = elim (digit_value a) [
  | none ↦ false
  | some _ ↦ elim (digit_value b) [ none ↦ false | some _ ↦ is_hex s ]
]

-- `IsEVMHash`.
unfoldable pub is_evm_hash : Text → Bool
unfolding has_prefix is_hex
is_evm_hash hash =
    if not (length hash == 66) || not (has_prefix hash (codes "0x"))
    then false
    else is_hex (drop 2 hash)
