-- ===== src/Validation.antt =====
-- `validateUpstream` of internal/chain/runtime.go: the probes that an upstream must pass before it is
-- used, and those that find out which reads it can pin to a block hash. The probes of different methods
-- do not touch each other's marks, so they are taken in order.
mod Probes
unfoldable pub use Probes.*
use rpc_proxy.Prelude.{
  ℕ, ◌+◌, ◌≡◌, ◌⊎◌, true, false, not, ◌&&◌, ◌||◌, Option, none, some, ◌==◌, if◌then◌else◌, Text,
  codes, equal_fold, is_empty, update, Result, ok, err, Option-cases,
}
use rpc_proxy.Quantity.{parse_evm_quantity}
use rpc_proxy.Head.{Head, finalized, latest}
use rpc_proxy.Chain.Defs.{
  Field, decode_string, Origin, RawBlock, Reply, failed, rpc_error, result, parse_evm_head,
}
use rpc_proxy.Chain.Availability.{SlotReply, slot_failed, slot_error, slot_result}
use rpc_proxy.Gateway.Route.{CallError, is_unavailable_rpc_error}

-- The upstream answers a read at a block that exists, and refuses one at a block that does not by an
-- error that says so.
abbrev pub PinsState : Provider → Text → Type 0
PinsState p method =
    (p.positive method ≡ probe_result false)
    × ((e : CallError) × (p.negative method ≡ probe_error e) × (is_unavailable_rpc_error e ≡ true))

-- What an upstream has shown that passes: the configured chain ID, the configured first block if there
-- is one, and a header of the latest block.
abbrev pub IsOnChain : Expected → Provider → Type 0
IsOnChain e p =
    ((text : Text) × (n : ℕ) × (decode_reply p.chain_id ≡ ok text)
      × (parse_evm_quantity text ≡ ok n)
      × (parse_evm_quantity e.chain_id ≡ ok n))
    × ((is_empty e.genesis_hash ≡ true)
        ⊎ ((block : Head) × (parse_reply e p finalized p.first_block ≡ ok block)
            × (equal_fold block.hash e.genesis_hash ≡ true)))
    × ((block : Head) × (parse_reply e p latest p.latest_block ≡ ok block))
