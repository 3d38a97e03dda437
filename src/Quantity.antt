-- ===== src/Quantity.antt =====
-- internal/utils/evm.go: EVM quantities and block hashes, with `strconv.ParseUint(s, 16, 64)`,
-- `fmt`'s `%x` and the check of `hex.DecodeString` written out. Strings are lists of bytes.
mod Defs
mod RoundTrip
mod Canonical
pub use RoundTrip.{parse-format}
pub use Canonical.{parse_bounds}
pub use Defs.{QuantityError, not_prefixed, leading_zero, invalid_syntax, out_of_range}
unfoldable pub use Defs.{
  has_prefix, byte_at, digit_value, parse_digits, parse_uint, parse_evm_quantity, digit,
  format_digits, format_evm_quantity, is_hex, is_evm_hash,
}
