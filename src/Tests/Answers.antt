-- ===== src/Tests/Answers.antt =====
-- The verification of results: a range of logs, a block by hash, and a Solana account.
use rpc_proxy.Prelude.{
  ◌≡◌, refl, if◌then◌else◌, Bool, true, false, none, some, List, [], ◌∷◌, All, codes, equal_fold,
  ok, text_eq,
}
use rpc_proxy.Head.{Head, zero_head, Snapshot, solana, finalized, latest}
use rpc_proxy.Chain.Defs.{absent, other, nothing, Origin, RawBlock, parse_evm_head, Field}
use rpc_proxy.Gateway.Requests.{Prepared, plain}
use rpc_proxy.Gateway.Verification.{
  Log, Payload, Answers, verify_evm_response, verify_evm_response-logs,
}
use rpc_proxy.Gateway.Solana.{
  SolanaParam, received, config, SolanaConfig, empty_config, SolanaPrepared, slot, config_at,
  transform_solana_request,
}
use rpc_proxy.Gateway.Slots.{PinsSlot, transform_solana_request-PinsSlot}
use rpc_proxy.Tests.Fixtures.{chain, hash_of, raw, accepted, fork}

abbrev origin : Origin
origin = record { chain = chain; commitment = []; upstream = []; time = 9 }

abbrev range_request : Prepared
range_request = record (plain (codes "eth_getLogs") []) {
  target = some accepted;
  log_range = some (1, 2);
}

abbrev log : Log
log = record { block_hash = hash_of b'1'; block_number = codes "0x1"; removed = false }

abbrev logs : Payload
logs = record {
  is_null = false;
  block = nothing;
  logs = some (some (log ∷ []));
  string = absent;
  transaction = none;
}

logs_passed : verify_evm_response origin range_request logs ≡ ok tt
unfolding rpc_proxy.Gateway.Verification.verify_log rpc_proxy.Gateway.Verification.verify_each
    rpc_proxy.Gateway.Verification.verify_logs rpc_proxy.Gateway.Verification.verify_block
    rpc_proxy.Gateway.Verification.verify_count rpc_proxy.Gateway.Verification.verify_transaction
    rpc_proxy.Gateway.Verification.verify_evm_response rpc_proxy.Gateway.Registry.listed
    rpc_proxy.Gateway.Registry.starts_with rpc_proxy.Gateway.Registry.starts_with_any
    rpc_proxy.Gateway.Registry.get_evm_state_block_index
    rpc_proxy.Gateway.Registry.get_evm_block_method
    rpc_proxy.Gateway.Registry.is_evm_head_neutral_method
    rpc_proxy.Gateway.Registry.is_evm_explicit_hash_method
    rpc_proxy.Gateway.Registry.is_write_method rpc_proxy.Gateway.Registry.is_static_method
    rpc_proxy.Chain.Defs.decode_string rpc_proxy.Chain.Defs.eligible rpc_proxy.Chain.Defs.candidates
    rpc_proxy.Chain.Defs.preferred_candidates rpc_proxy.Chain.Defs.parse_evm_head
    rpc_proxy.Chain.Defs.accept_reply rpc_proxy.Chain.Defs.try_upstreams
    rpc_proxy.Chain.Defs.evm_block_by_hash rpc_proxy.Quantity.has_prefix rpc_proxy.Quantity.byte_at
    rpc_proxy.Quantity.digit_value rpc_proxy.Quantity.parse_digits rpc_proxy.Quantity.parse_uint
    rpc_proxy.Quantity.parse_evm_quantity rpc_proxy.Quantity.digit rpc_proxy.Quantity.format_digits
    rpc_proxy.Quantity.format_evm_quantity rpc_proxy.Quantity.is_hex rpc_proxy.Quantity.is_evm_hash
    rpc_proxy.Prelude.text_eq rpc_proxy.Prelude.lower rpc_proxy.Prelude.equal_fold
logs_passed = refl

verify_evm_response-logs_example :
    (ls : List Log) × (logs.logs ≡ some (some ls)) × All (Answers range_request) ls
verify_evm_response-logs_example =
    verify_evm_response-logs origin range_request logs refl refl logs_passed

abbrev block_request : Prepared
block_request = record (plain (codes "eth_getBlockByHash") []) { target = some fork }

abbrev block : Payload
block = record {
  is_null = false;
  block = raw (codes "0x2") b'3' b'1';
  logs = none;
  string = absent;
  transaction = none;
}

block_passed : verify_evm_response origin block_request block ≡ ok tt
unfolding rpc_proxy.Gateway.Verification.verify_log rpc_proxy.Gateway.Verification.verify_each
    rpc_proxy.Gateway.Verification.verify_logs rpc_proxy.Gateway.Verification.verify_block
    rpc_proxy.Gateway.Verification.verify_count rpc_proxy.Gateway.Verification.verify_transaction
    rpc_proxy.Gateway.Verification.verify_evm_response rpc_proxy.Gateway.Registry.listed
    rpc_proxy.Gateway.Registry.starts_with rpc_proxy.Gateway.Registry.starts_with_any
    rpc_proxy.Gateway.Registry.get_evm_state_block_index
    rpc_proxy.Gateway.Registry.get_evm_block_method
    rpc_proxy.Gateway.Registry.is_evm_head_neutral_method
    rpc_proxy.Gateway.Registry.is_evm_explicit_hash_method
    rpc_proxy.Gateway.Registry.is_write_method rpc_proxy.Gateway.Registry.is_static_method
    rpc_proxy.Chain.Defs.decode_string rpc_proxy.Chain.Defs.eligible rpc_proxy.Chain.Defs.candidates
    rpc_proxy.Chain.Defs.preferred_candidates rpc_proxy.Chain.Defs.parse_evm_head
    rpc_proxy.Chain.Defs.accept_reply rpc_proxy.Chain.Defs.try_upstreams
    rpc_proxy.Chain.Defs.evm_block_by_hash rpc_proxy.Quantity.has_prefix rpc_proxy.Quantity.byte_at
    rpc_proxy.Quantity.digit_value rpc_proxy.Quantity.parse_digits rpc_proxy.Quantity.parse_uint
    rpc_proxy.Quantity.parse_evm_quantity rpc_proxy.Quantity.digit rpc_proxy.Quantity.format_digits
    rpc_proxy.Quantity.format_evm_quantity rpc_proxy.Quantity.is_hex rpc_proxy.Quantity.is_evm_hash
    rpc_proxy.Prelude.text_eq rpc_proxy.Prelude.lower rpc_proxy.Prelude.equal_fold
block_passed = refl

abbrev slot_head : Head
slot_head = record zero_head {
  chain = codes "sol";
  family = solana;
  commitment = finalized;
  number = 40;
}

abbrev slots : Snapshot
slots = record {
  chain = codes "sol";
  heads = λ commitment. if text_eq commitment finalized then some slot_head else none;
}

abbrev key : SolanaParam
key = received (codes "\"k\"") none

abbrev asked : SolanaConfig
asked = record empty_config { min_context_slot = slot 44 }

abbrev pinned : SolanaConfig
pinned = record asked { commitment = Field.text finalized }

abbrev account : SolanaPrepared
account = record {
  method = codes "getBalance";
  parameters = key ∷ config pinned ∷ [];
  target = some (record slot_head { number = 44 });
  verify_context_slot = true;
  unwrap_context = false;
}

account_prepared :
    transform_solana_request slots
      (codes "getBalance")
      (some (key ∷ received (codes "{}") (some asked) ∷ []))
    ≡ ok account
unfolding rpc_proxy.Gateway.Solana.get_solana_config_index
    rpc_proxy.Gateway.Solana.has_solana_context
    rpc_proxy.Gateway.Solana.is_solana_head_neutral_method rpc_proxy.Gateway.Solana.read_commitment
    rpc_proxy.Gateway.Solana.read_minimum rpc_proxy.Gateway.Solana.read_with_context
    rpc_proxy.Gateway.Solana.pin_context rpc_proxy.Gateway.Solana.decode_config
    rpc_proxy.Gateway.Solana.config_at rpc_proxy.Gateway.Solana.set_config
    rpc_proxy.Gateway.Solana.pin_config rpc_proxy.Gateway.Solana.transform_solana_request
    rpc_proxy.Gateway.Solana.verify_solana_context rpc_proxy.Gateway.Registry.listed
    rpc_proxy.Gateway.Registry.starts_with rpc_proxy.Gateway.Registry.starts_with_any
    rpc_proxy.Gateway.Registry.get_evm_state_block_index
    rpc_proxy.Gateway.Registry.get_evm_block_method
    rpc_proxy.Gateway.Registry.is_evm_head_neutral_method
    rpc_proxy.Gateway.Registry.is_evm_explicit_hash_method
    rpc_proxy.Gateway.Registry.is_write_method rpc_proxy.Gateway.Registry.is_static_method
    rpc_proxy.Gateway.Requests.reference_of rpc_proxy.Gateway.Requests.string_of
    rpc_proxy.Gateway.Requests.param_at rpc_proxy.Gateway.Requests.set_param
    rpc_proxy.Gateway.Requests.get_snapshot_head rpc_proxy.Gateway.Requests.get_target
    rpc_proxy.Gateway.Requests.prepare_state rpc_proxy.Gateway.Requests.prepare_block
    rpc_proxy.Gateway.Requests.prepare_block_number rpc_proxy.Gateway.Requests.prepare_fee_history
    rpc_proxy.Head.identity rpc_proxy.Head.is_zero rpc_proxy.Prelude.text_eq rpc_proxy.Prelude.lower
    rpc_proxy.Prelude.equal_fold
account_prepared = refl

transform_solana_request-PinsSlot_example :
    (target : Head) × (c : SolanaConfig) × (account.target ≡ some target)
    × (config_at 1 account.parameters ≡ some (config c))
    × PinsSlot slots c target
unfolding rpc_proxy.Gateway.Solana.get_solana_config_index
    rpc_proxy.Gateway.Solana.has_solana_context
    rpc_proxy.Gateway.Solana.is_solana_head_neutral_method rpc_proxy.Gateway.Solana.read_commitment
    rpc_proxy.Gateway.Solana.read_minimum rpc_proxy.Gateway.Solana.read_with_context
    rpc_proxy.Gateway.Solana.pin_context rpc_proxy.Gateway.Solana.decode_config
    rpc_proxy.Gateway.Solana.config_at rpc_proxy.Gateway.Solana.set_config
    rpc_proxy.Gateway.Solana.pin_config rpc_proxy.Gateway.Solana.transform_solana_request
    rpc_proxy.Gateway.Solana.verify_solana_context rpc_proxy.Gateway.Registry.listed
    rpc_proxy.Gateway.Registry.starts_with rpc_proxy.Gateway.Registry.starts_with_any
    rpc_proxy.Gateway.Registry.get_evm_state_block_index
    rpc_proxy.Gateway.Registry.get_evm_block_method
    rpc_proxy.Gateway.Registry.is_evm_head_neutral_method
    rpc_proxy.Gateway.Registry.is_evm_explicit_hash_method
    rpc_proxy.Gateway.Registry.is_write_method rpc_proxy.Gateway.Registry.is_static_method
    rpc_proxy.Gateway.Requests.reference_of rpc_proxy.Gateway.Requests.string_of
    rpc_proxy.Gateway.Requests.param_at rpc_proxy.Gateway.Requests.set_param
    rpc_proxy.Gateway.Requests.get_snapshot_head rpc_proxy.Gateway.Requests.get_target
    rpc_proxy.Gateway.Requests.prepare_state rpc_proxy.Gateway.Requests.prepare_block
    rpc_proxy.Gateway.Requests.prepare_block_number rpc_proxy.Gateway.Requests.prepare_fee_history
    rpc_proxy.Head.identity rpc_proxy.Head.is_zero rpc_proxy.Prelude.text_eq rpc_proxy.Prelude.lower
    rpc_proxy.Prelude.equal_fold
transform_solana_request-PinsSlot_example =
    transform_solana_request-PinsSlot slots (codes "getBalance") 1
      (key ∷ received (codes "{}") (some asked) ∷ []) account refl account_prepared
