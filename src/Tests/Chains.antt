-- ===== src/Tests/Chains.antt =====
-- The reading of blocks and of receipts' ancestry on the fixtures' chain, and quantities.
use rpc_proxy.Prelude.{
  ℕ, zero, suc, ◌^◌, ◌<◌, ◌≡◌, ◌≢◌, refl, Bool, true, none, map, codes, Text, lower, equal_fold, ok,
  err, arith,
}
use rpc_proxy.Quantity.{parse_evm_quantity, format_evm_quantity, is_evm_hash, parse-format}
use rpc_proxy.Head.{Head, latest, explicit, Snapshot}
use rpc_proxy.Chain.Defs.{BlockRequest, Origin, exhausted, evm_block_by_hash, parse_evm_head}
use rpc_proxy.Chain.Reader.{BlockReader, runtime_reader, evm_block_by_hash_valid}
use rpc_proxy.Chain.Blocks.{ChainConfig, walk, get_evm_block_by_quantity}
use rpc_proxy.Chain.Pinning.{walk-ne-exhausted}
use rpc_proxy.Receipts.{out_of_rounds}
use rpc_proxy.Tests.Fixtures.{chain, hash_of, raw, first, fork, above_fork, world}

abbrev reader : BlockReader
reader = runtime_reader world chain

-- A mixed-case quantity.
abbrev quantity : Text
quantity = codes "0x1aF"

quantity_parsed : parse_evm_quantity quantity ≡ ok 431
unfolding rpc_proxy.Quantity.has_prefix rpc_proxy.Quantity.byte_at rpc_proxy.Quantity.digit_value
    rpc_proxy.Quantity.parse_digits rpc_proxy.Quantity.parse_uint
    rpc_proxy.Quantity.parse_evm_quantity rpc_proxy.Quantity.digit rpc_proxy.Quantity.format_digits
    rpc_proxy.Quantity.format_evm_quantity rpc_proxy.Quantity.is_hex rpc_proxy.Quantity.is_evm_hash
    rpc_proxy.Prelude.text_eq rpc_proxy.Prelude.lower rpc_proxy.Prelude.equal_fold
quantity_parsed = refl

parse-format_example : parse_evm_quantity (format_evm_quantity 431) ≡ ok 431
parse-format_example = parse-format 431 (omega arith)

abbrev origin : Origin
origin = record { chain = chain; commitment = latest; upstream = codes "one"; time = 7 }

abbrev parsed : Head
parsed = record fork { header = codes "{}" }

fork_parsed : parse_evm_head origin (raw (codes "0x2") b'3' b'1') ≡ ok parsed
unfolding rpc_proxy.Chain.Defs.decode_string rpc_proxy.Chain.Defs.eligible
    rpc_proxy.Chain.Defs.candidates rpc_proxy.Chain.Defs.preferred_candidates
    rpc_proxy.Chain.Defs.parse_evm_head rpc_proxy.Chain.Defs.accept_reply
    rpc_proxy.Chain.Defs.try_upstreams rpc_proxy.Chain.Defs.evm_block_by_hash
    rpc_proxy.Chain.Blocks.get_required_head rpc_proxy.Chain.Blocks.walk
    rpc_proxy.Chain.Blocks.get_evm_block_by_quantity rpc_proxy.Chain.Blocks.get_evm_block
    rpc_proxy.Head.identity rpc_proxy.Head.is_zero rpc_proxy.Quantity.has_prefix
    rpc_proxy.Quantity.byte_at rpc_proxy.Quantity.digit_value rpc_proxy.Quantity.parse_digits
    rpc_proxy.Quantity.parse_uint rpc_proxy.Quantity.parse_evm_quantity rpc_proxy.Quantity.digit
    rpc_proxy.Quantity.format_digits rpc_proxy.Quantity.format_evm_quantity
    rpc_proxy.Quantity.is_hex rpc_proxy.Quantity.is_evm_hash rpc_proxy.Prelude.text_eq
    rpc_proxy.Prelude.lower rpc_proxy.Prelude.equal_fold
fork_parsed = refl

abbrev request : BlockRequest
request = record { hash = hash_of b'3'; commitment = latest; preferred = codes "two" }

fork_read : (evm_block_by_hash world chain request 0).0 ≡ ok parsed
unfolding rpc_proxy.Chain.Defs.decode_string rpc_proxy.Chain.Defs.eligible
    rpc_proxy.Chain.Defs.candidates rpc_proxy.Chain.Defs.preferred_candidates
    rpc_proxy.Chain.Defs.parse_evm_head rpc_proxy.Chain.Defs.accept_reply
    rpc_proxy.Chain.Defs.try_upstreams rpc_proxy.Chain.Defs.evm_block_by_hash
    rpc_proxy.Chain.Blocks.get_required_head rpc_proxy.Chain.Blocks.walk
    rpc_proxy.Chain.Blocks.get_evm_block_by_quantity rpc_proxy.Chain.Blocks.get_evm_block
    rpc_proxy.Head.identity rpc_proxy.Head.is_zero rpc_proxy.Quantity.has_prefix
    rpc_proxy.Quantity.byte_at rpc_proxy.Quantity.digit_value rpc_proxy.Quantity.parse_digits
    rpc_proxy.Quantity.parse_uint rpc_proxy.Quantity.parse_evm_quantity rpc_proxy.Quantity.digit
    rpc_proxy.Quantity.format_digits rpc_proxy.Quantity.format_evm_quantity
    rpc_proxy.Quantity.is_hex rpc_proxy.Quantity.is_evm_hash rpc_proxy.Prelude.text_eq
    rpc_proxy.Prelude.lower rpc_proxy.Prelude.equal_fold
fork_read = refl

evm_block_by_hash_valid_example : (equal_fold (hash_of b'3') (hash_of b'3') ≡ true) × (2 < 2 ^ 64)
evm_block_by_hash_valid_example = evm_block_by_hash_valid world chain request 0 parsed fork_read

abbrev config : ChainConfig
config = record { name = chain; reorg_depth = 4 }

abbrev pinned : Head
pinned = record first { commitment = explicit; header = codes "{}" }

walk-ne-exhausted_example : (walk reader 2 1 above_fork 0).0 ≢ err exhausted
walk-ne-exhausted_example = walk-ne-exhausted reader 2 1 above_fork 0 (omega arith)
