-- ===== src/Tests/Gateways.antt =====
-- The gateway's theorems: a read of state, a range of logs, and the fence of a request's results.
use rpc_proxy.Prelude.{
  ℕ, ◌+◌, ◌^◌, ◌≤◌, ◌<◌, ◌≡◌, refl, Bool, true, false, Option, none, some, List, [], ◌∷◌, Text,
  codes, ok, err, arith,
}
use rpc_proxy.Head.{Head, Snapshot, latest, evm, get_head}
use rpc_proxy.Store.Defs.{MemoryStore, snapshot}
use rpc_proxy.Store.Runs.{Op, renewing, publishing, run}
use rpc_proxy.Store.Epochs.{epoch, is_pending}
use rpc_proxy.Chain.Defs.{absent, text}
use rpc_proxy.Chain.Reader.{BlockReader, runtime_reader}
use rpc_proxy.Chain.Blocks.{ChainConfig, tag, missing, undecodable}
use rpc_proxy.Gateway.Registry.{is_write_method}
use rpc_proxy.Gateway.Requests.{
  Param, received, json_string, block_identifier, log_filter, Filter, Received, Prepared, param_at,
}
use rpc_proxy.Gateway.Dispatch.{prepare_logs, transform_evm_request}
use rpc_proxy.Gateway.Served.{transform_evm_request-state}
use rpc_proxy.Gateway.Process.{Request, id_number}
use rpc_proxy.Gateway.Ranges.{prepare_logs-range}
use rpc_proxy.Gateway.Fence.{
  ProcessedResponse, FenceConfig, Recheck, Response, success, fence_evm_responses,
}
use rpc_proxy.Gateway.Epochs.{Undisturbed, fence_evm_responses_sound, fence_evm_responses_no_reorg}
use rpc_proxy.Tests.Fixtures.{chain, hash_of, block, accepted, world, store, token}

abbrev reader : BlockReader
reader = runtime_reader world chain

abbrev config : ChainConfig
config = record { name = chain; reorg_depth = 1 }

abbrev state : Snapshot
state = snapshot store chain

-- An address, and a block number.
abbrev address : Param
address = received (record {
  bytes = codes "\"0x01\"";
  reference = undecodable;
  string = text (codes "0x01");
  filter = none;
})

abbrev height : Param
height = received (record {
  bytes = codes "\"0x1\"";
  reference = tag (codes "0x1");
  string = text (codes "0x1");
  filter = none;
})

abbrev first_block : Head
first_block = record (block 1 b'1' b'0') { commitment = codes "explicit"; header = codes "{}" }

abbrev balance : Prepared
balance = record {
  method = codes "eth_getBalance";
  parameters = address ∷ block_identifier (hash_of b'1') ∷ [];
  target = some first_block;
  require_eip1898 = true;
  local_response = none;
  verify_boundaries = [];
  receipt_hash = [];
  log_range = none;
}

balance_prepared :
    (transform_evm_request reader config state 9
      (codes "eth_getBalance")
      (some (address ∷ height ∷ []))
      0).0
    ≡ ok balance
unfolding rpc_proxy.Gateway.Registry.listed rpc_proxy.Gateway.Registry.starts_with
    rpc_proxy.Gateway.Registry.starts_with_any rpc_proxy.Gateway.Registry.get_evm_state_block_index
    rpc_proxy.Gateway.Registry.get_evm_block_method
    rpc_proxy.Gateway.Registry.is_evm_head_neutral_method
    rpc_proxy.Gateway.Registry.is_evm_explicit_hash_method
    rpc_proxy.Gateway.Registry.is_write_method rpc_proxy.Gateway.Registry.is_static_method
    rpc_proxy.Gateway.Requests.reference_of rpc_proxy.Gateway.Requests.string_of
    rpc_proxy.Gateway.Requests.param_at rpc_proxy.Gateway.Requests.set_param
    rpc_proxy.Gateway.Requests.get_snapshot_head rpc_proxy.Gateway.Requests.get_target
    rpc_proxy.Gateway.Requests.prepare_state rpc_proxy.Gateway.Requests.prepare_block
    rpc_proxy.Gateway.Requests.prepare_block_number rpc_proxy.Gateway.Requests.prepare_fee_history
    rpc_proxy.Gateway.Dispatch.get_evm_log_bound rpc_proxy.Gateway.Dispatch.prepare_log_hash
    rpc_proxy.Gateway.Dispatch.prepare_log_block rpc_proxy.Gateway.Dispatch.prepare_log_range
    rpc_proxy.Gateway.Dispatch.prepare_log_bounds rpc_proxy.Gateway.Dispatch.prepare_log_selectors
    rpc_proxy.Gateway.Dispatch.prepare_logs rpc_proxy.Gateway.Dispatch.prepare_receipt
    rpc_proxy.Gateway.Dispatch.prepare_explicit rpc_proxy.Gateway.Dispatch.prepare_named
    rpc_proxy.Gateway.Dispatch.transform_evm_request rpc_proxy.Gateway.Dispatch.prepare_static
    rpc_proxy.Gateway.Dispatch.transform_request rpc_proxy.Gateway.Fence.compare_heads
    rpc_proxy.Gateway.Fence.failure_class rpc_proxy.Gateway.Fence.reject_targeted
    rpc_proxy.Gateway.Fence.needs_fence rpc_proxy.Gateway.Fence.fence_evm_responses
    rpc_proxy.Chain.Defs.decode_string rpc_proxy.Chain.Defs.eligible rpc_proxy.Chain.Defs.candidates
    rpc_proxy.Chain.Defs.preferred_candidates rpc_proxy.Chain.Defs.parse_evm_head
    rpc_proxy.Chain.Defs.accept_reply rpc_proxy.Chain.Defs.try_upstreams
    rpc_proxy.Chain.Defs.evm_block_by_hash rpc_proxy.Chain.Blocks.get_required_head
    rpc_proxy.Chain.Blocks.walk rpc_proxy.Chain.Blocks.get_evm_block_by_quantity
    rpc_proxy.Chain.Blocks.get_evm_block rpc_proxy.Store.Defs.fence_token
    rpc_proxy.Store.Defs.acquire rpc_proxy.Store.Defs.renew rpc_proxy.Store.Defs.release
    rpc_proxy.Store.Defs.same_identity rpc_proxy.Store.Defs.event_id rpc_proxy.Store.Defs.install
    rpc_proxy.Store.Defs.refresh rpc_proxy.Store.Defs.publish rpc_proxy.Store.Defs.fence_head
    rpc_proxy.Store.Defs.begin_reorg rpc_proxy.Store.Defs.set_head rpc_proxy.Store.Defs.snapshot
    rpc_proxy.Store.Defs.stream_start rpc_proxy.Store.Defs.stream_cursor
    rpc_proxy.Store.Defs.find_cursor rpc_proxy.Store.Defs.events_after
    rpc_proxy.Store.Defs.read_events rpc_proxy.Store.Runs.apply rpc_proxy.Store.Runs.run
    rpc_proxy.Head.identity rpc_proxy.Head.is_zero rpc_proxy.Quantity.has_prefix
    rpc_proxy.Quantity.byte_at rpc_proxy.Quantity.digit_value rpc_proxy.Quantity.parse_digits
    rpc_proxy.Quantity.parse_uint rpc_proxy.Quantity.parse_evm_quantity rpc_proxy.Quantity.digit
    rpc_proxy.Quantity.format_digits rpc_proxy.Quantity.format_evm_quantity
    rpc_proxy.Quantity.is_hex rpc_proxy.Quantity.is_evm_hash rpc_proxy.Prelude.text_eq
    rpc_proxy.Prelude.lower rpc_proxy.Prelude.equal_fold rpc_proxy.Prelude.decimal_digits
    rpc_proxy.Prelude.decimal rpc_proxy.Prelude.number_after
balance_prepared = refl

abbrev request : Request
request = record {
  version = codes "2.0";
  id = id_number (codes "1");
  method = codes "eth_getBalance";
  params = some (address ∷ height ∷ []);
}

transform_evm_request-state_example :
    (target : Head) × (balance.target ≡ some target)
    × (balance.method ≡ codes "eth_getBalance")
    × (balance.require_eip1898 ≡ true)
    × (param_at 1 balance.parameters ≡ some (block_identifier target.hash))
unfolding rpc_proxy.Gateway.Registry.listed rpc_proxy.Gateway.Registry.starts_with
    rpc_proxy.Gateway.Registry.starts_with_any rpc_proxy.Gateway.Registry.get_evm_state_block_index
    rpc_proxy.Gateway.Registry.get_evm_block_method
    rpc_proxy.Gateway.Registry.is_evm_head_neutral_method
    rpc_proxy.Gateway.Registry.is_evm_explicit_hash_method
    rpc_proxy.Gateway.Registry.is_write_method rpc_proxy.Gateway.Registry.is_static_method
    rpc_proxy.Gateway.Requests.reference_of rpc_proxy.Gateway.Requests.string_of
    rpc_proxy.Gateway.Requests.param_at rpc_proxy.Gateway.Requests.set_param
    rpc_proxy.Gateway.Requests.get_snapshot_head rpc_proxy.Gateway.Requests.get_target
    rpc_proxy.Gateway.Requests.prepare_state rpc_proxy.Gateway.Requests.prepare_block
    rpc_proxy.Gateway.Requests.prepare_block_number rpc_proxy.Gateway.Requests.prepare_fee_history
    rpc_proxy.Gateway.Dispatch.get_evm_log_bound rpc_proxy.Gateway.Dispatch.prepare_log_hash
    rpc_proxy.Gateway.Dispatch.prepare_log_block rpc_proxy.Gateway.Dispatch.prepare_log_range
    rpc_proxy.Gateway.Dispatch.prepare_log_bounds rpc_proxy.Gateway.Dispatch.prepare_log_selectors
    rpc_proxy.Gateway.Dispatch.prepare_logs rpc_proxy.Gateway.Dispatch.prepare_receipt
    rpc_proxy.Gateway.Dispatch.prepare_explicit rpc_proxy.Gateway.Dispatch.prepare_named
    rpc_proxy.Gateway.Dispatch.transform_evm_request rpc_proxy.Gateway.Dispatch.prepare_static
    rpc_proxy.Gateway.Dispatch.transform_request rpc_proxy.Gateway.Fence.compare_heads
    rpc_proxy.Gateway.Fence.failure_class rpc_proxy.Gateway.Fence.reject_targeted
    rpc_proxy.Gateway.Fence.needs_fence rpc_proxy.Gateway.Fence.fence_evm_responses
    rpc_proxy.Chain.Defs.decode_string rpc_proxy.Chain.Defs.eligible rpc_proxy.Chain.Defs.candidates
    rpc_proxy.Chain.Defs.preferred_candidates rpc_proxy.Chain.Defs.parse_evm_head
    rpc_proxy.Chain.Defs.accept_reply rpc_proxy.Chain.Defs.try_upstreams
    rpc_proxy.Chain.Defs.evm_block_by_hash rpc_proxy.Chain.Blocks.get_required_head
    rpc_proxy.Chain.Blocks.walk rpc_proxy.Chain.Blocks.get_evm_block_by_quantity
    rpc_proxy.Chain.Blocks.get_evm_block rpc_proxy.Store.Defs.fence_token
    rpc_proxy.Store.Defs.acquire rpc_proxy.Store.Defs.renew rpc_proxy.Store.Defs.release
    rpc_proxy.Store.Defs.same_identity rpc_proxy.Store.Defs.event_id rpc_proxy.Store.Defs.install
    rpc_proxy.Store.Defs.refresh rpc_proxy.Store.Defs.publish rpc_proxy.Store.Defs.fence_head
    rpc_proxy.Store.Defs.begin_reorg rpc_proxy.Store.Defs.set_head rpc_proxy.Store.Defs.snapshot
    rpc_proxy.Store.Defs.stream_start rpc_proxy.Store.Defs.stream_cursor
    rpc_proxy.Store.Defs.find_cursor rpc_proxy.Store.Defs.events_after
    rpc_proxy.Store.Defs.read_events rpc_proxy.Store.Runs.apply rpc_proxy.Store.Runs.run
    rpc_proxy.Head.identity rpc_proxy.Head.is_zero rpc_proxy.Quantity.has_prefix
    rpc_proxy.Quantity.byte_at rpc_proxy.Quantity.digit_value rpc_proxy.Quantity.parse_digits
    rpc_proxy.Quantity.parse_uint rpc_proxy.Quantity.parse_evm_quantity rpc_proxy.Quantity.digit
    rpc_proxy.Quantity.format_digits rpc_proxy.Quantity.format_evm_quantity
    rpc_proxy.Quantity.is_hex rpc_proxy.Quantity.is_evm_hash rpc_proxy.Prelude.text_eq
    rpc_proxy.Prelude.lower rpc_proxy.Prelude.equal_fold rpc_proxy.Prelude.decimal_digits
    rpc_proxy.Prelude.decimal rpc_proxy.Prelude.number_after
transform_evm_request-state_example =
    transform_evm_request-state reader config state 9 (codes "eth_getBalance") 1
      (address ∷ height ∷ []) 0 balance refl balance_prepared

abbrev range : Filter
range = record {
  block_hash = absent;
  from_block = text (codes "earliest");
  to_block = absent;
  others = [];
}

abbrev logs : Prepared
logs = record {
  method = codes "eth_getLogs";
  parameters =
      log_filter (record range { from_block = text (codes "0x0"); to_block = text (codes "0x2") })
      ∷ [];
  target = some accepted;
  require_eip1898 = false;
  local_response = none;
  verify_boundaries = accepted ∷ [];
  receipt_hash = [];
  log_range = some (0, 2);
}

abbrev filter_param : Param
filter_param =
    received
      (record { bytes = codes "{}"; reference = undecodable; string = absent; filter = some range })

logs_prepared : (prepare_logs reader config state 9 (filter_param ∷ []) 0).0 ≡ ok logs
unfolding rpc_proxy.Gateway.Registry.listed rpc_proxy.Gateway.Registry.starts_with
    rpc_proxy.Gateway.Registry.starts_with_any rpc_proxy.Gateway.Registry.get_evm_state_block_index
    rpc_proxy.Gateway.Registry.get_evm_block_method
    rpc_proxy.Gateway.Registry.is_evm_head_neutral_method
    rpc_proxy.Gateway.Registry.is_evm_explicit_hash_method
    rpc_proxy.Gateway.Registry.is_write_method rpc_proxy.Gateway.Registry.is_static_method
    rpc_proxy.Gateway.Requests.reference_of rpc_proxy.Gateway.Requests.string_of
    rpc_proxy.Gateway.Requests.param_at rpc_proxy.Gateway.Requests.set_param
    rpc_proxy.Gateway.Requests.get_snapshot_head rpc_proxy.Gateway.Requests.get_target
    rpc_proxy.Gateway.Requests.prepare_state rpc_proxy.Gateway.Requests.prepare_block
    rpc_proxy.Gateway.Requests.prepare_block_number rpc_proxy.Gateway.Requests.prepare_fee_history
    rpc_proxy.Gateway.Dispatch.get_evm_log_bound rpc_proxy.Gateway.Dispatch.prepare_log_hash
    rpc_proxy.Gateway.Dispatch.prepare_log_block rpc_proxy.Gateway.Dispatch.prepare_log_range
    rpc_proxy.Gateway.Dispatch.prepare_log_bounds rpc_proxy.Gateway.Dispatch.prepare_log_selectors
    rpc_proxy.Gateway.Dispatch.prepare_logs rpc_proxy.Gateway.Dispatch.prepare_receipt
    rpc_proxy.Gateway.Dispatch.prepare_explicit rpc_proxy.Gateway.Dispatch.prepare_named
    rpc_proxy.Gateway.Dispatch.transform_evm_request rpc_proxy.Gateway.Dispatch.prepare_static
    rpc_proxy.Gateway.Dispatch.transform_request rpc_proxy.Gateway.Fence.compare_heads
    rpc_proxy.Gateway.Fence.failure_class rpc_proxy.Gateway.Fence.reject_targeted
    rpc_proxy.Gateway.Fence.needs_fence rpc_proxy.Gateway.Fence.fence_evm_responses
    rpc_proxy.Chain.Defs.decode_string rpc_proxy.Chain.Defs.eligible rpc_proxy.Chain.Defs.candidates
    rpc_proxy.Chain.Defs.preferred_candidates rpc_proxy.Chain.Defs.parse_evm_head
    rpc_proxy.Chain.Defs.accept_reply rpc_proxy.Chain.Defs.try_upstreams
    rpc_proxy.Chain.Defs.evm_block_by_hash rpc_proxy.Chain.Blocks.get_required_head
    rpc_proxy.Chain.Blocks.walk rpc_proxy.Chain.Blocks.get_evm_block_by_quantity
    rpc_proxy.Chain.Blocks.get_evm_block rpc_proxy.Store.Defs.fence_token
    rpc_proxy.Store.Defs.acquire rpc_proxy.Store.Defs.renew rpc_proxy.Store.Defs.release
    rpc_proxy.Store.Defs.same_identity rpc_proxy.Store.Defs.event_id rpc_proxy.Store.Defs.install
    rpc_proxy.Store.Defs.refresh rpc_proxy.Store.Defs.publish rpc_proxy.Store.Defs.fence_head
    rpc_proxy.Store.Defs.begin_reorg rpc_proxy.Store.Defs.set_head rpc_proxy.Store.Defs.snapshot
    rpc_proxy.Store.Defs.stream_start rpc_proxy.Store.Defs.stream_cursor
    rpc_proxy.Store.Defs.find_cursor rpc_proxy.Store.Defs.events_after
    rpc_proxy.Store.Defs.read_events rpc_proxy.Store.Runs.apply rpc_proxy.Store.Runs.run
    rpc_proxy.Head.identity rpc_proxy.Head.is_zero rpc_proxy.Quantity.has_prefix
    rpc_proxy.Quantity.byte_at rpc_proxy.Quantity.digit_value rpc_proxy.Quantity.parse_digits
    rpc_proxy.Quantity.parse_uint rpc_proxy.Quantity.parse_evm_quantity rpc_proxy.Quantity.digit
    rpc_proxy.Quantity.format_digits rpc_proxy.Quantity.format_evm_quantity
    rpc_proxy.Quantity.is_hex rpc_proxy.Quantity.is_evm_hash rpc_proxy.Prelude.text_eq
    rpc_proxy.Prelude.lower rpc_proxy.Prelude.equal_fold rpc_proxy.Prelude.decimal_digits
    rpc_proxy.Prelude.decimal rpc_proxy.Prelude.number_after
logs_prepared = refl

prepare_logs-range_example :
    (a : Head) × (get_head state latest ≡ some a)
    × (0 ≤ 2)
    × (2 ≤ a.number)
    × (logs.target ≡ some a)
    × (logs.verify_boundaries ≡ a ∷ [])
prepare_logs-range_example =
    prepare_logs-range reader config state 9 (filter_param ∷ []) 0 logs 0 2 logs_prepared refl

abbrev fence_config : FenceConfig
fence_config = record { name = chain; family = evm; max_head_age = 100 }

abbrev responses : List ProcessedResponse
responses =
    record {
      response = record { id = codes "1"; outcome = success (codes "5") };
      upstream = codes "one";
      target = some accepted;
      cache_status = [];
      receipt_lookup = false;
      boundary_checked = false;
      unverified_read = false;
    }
    ∷ []

abbrev before_publish : List Op
before_publish = renewing chain token 50 20 20 ∷ []

abbrev after_publish : List Op
after_publish = publishing token (block 3 b'5' b'2') 50 ∷ []

abbrev recheck : Recheck
recheck = record {
  snapshot = some (
      snapshot
        (run (renewing chain token 50 20 20 ∷ publishing token (block 3 b'5' b'2') 50 ∷ []) store)
        chain);
  done = false;
  now = 60;
}

fence_evm_responses_sound_example :
    (current : Snapshot) × (before : Head) × (after : Head) × (recheck.snapshot ≡ some current)
    × (recheck.done ≡ false)
    × (get_head state latest ≡ some before)
    × (get_head current latest ≡ some after)
    × Undisturbed fence_config before after recheck.now
unfolding rpc_proxy.Gateway.Registry.listed rpc_proxy.Gateway.Registry.starts_with
    rpc_proxy.Gateway.Registry.starts_with_any rpc_proxy.Gateway.Registry.get_evm_state_block_index
    rpc_proxy.Gateway.Registry.get_evm_block_method
    rpc_proxy.Gateway.Registry.is_evm_head_neutral_method
    rpc_proxy.Gateway.Registry.is_evm_explicit_hash_method
    rpc_proxy.Gateway.Registry.is_write_method rpc_proxy.Gateway.Registry.is_static_method
    rpc_proxy.Gateway.Requests.reference_of rpc_proxy.Gateway.Requests.string_of
    rpc_proxy.Gateway.Requests.param_at rpc_proxy.Gateway.Requests.set_param
    rpc_proxy.Gateway.Requests.get_snapshot_head rpc_proxy.Gateway.Requests.get_target
    rpc_proxy.Gateway.Requests.prepare_state rpc_proxy.Gateway.Requests.prepare_block
    rpc_proxy.Gateway.Requests.prepare_block_number rpc_proxy.Gateway.Requests.prepare_fee_history
    rpc_proxy.Gateway.Dispatch.get_evm_log_bound rpc_proxy.Gateway.Dispatch.prepare_log_hash
    rpc_proxy.Gateway.Dispatch.prepare_log_block rpc_proxy.Gateway.Dispatch.prepare_log_range
    rpc_proxy.Gateway.Dispatch.prepare_log_bounds rpc_proxy.Gateway.Dispatch.prepare_log_selectors
    rpc_proxy.Gateway.Dispatch.prepare_logs rpc_proxy.Gateway.Dispatch.prepare_receipt
    rpc_proxy.Gateway.Dispatch.prepare_explicit rpc_proxy.Gateway.Dispatch.prepare_named
    rpc_proxy.Gateway.Dispatch.transform_evm_request rpc_proxy.Gateway.Dispatch.prepare_static
    rpc_proxy.Gateway.Dispatch.transform_request rpc_proxy.Gateway.Fence.compare_heads
    rpc_proxy.Gateway.Fence.failure_class rpc_proxy.Gateway.Fence.reject_targeted
    rpc_proxy.Gateway.Fence.needs_fence rpc_proxy.Gateway.Fence.fence_evm_responses
    rpc_proxy.Chain.Defs.decode_string rpc_proxy.Chain.Defs.eligible rpc_proxy.Chain.Defs.candidates
    rpc_proxy.Chain.Defs.preferred_candidates rpc_proxy.Chain.Defs.parse_evm_head
    rpc_proxy.Chain.Defs.accept_reply rpc_proxy.Chain.Defs.try_upstreams
    rpc_proxy.Chain.Defs.evm_block_by_hash rpc_proxy.Chain.Blocks.get_required_head
    rpc_proxy.Chain.Blocks.walk rpc_proxy.Chain.Blocks.get_evm_block_by_quantity
    rpc_proxy.Chain.Blocks.get_evm_block rpc_proxy.Store.Defs.fence_token
    rpc_proxy.Store.Defs.acquire rpc_proxy.Store.Defs.renew rpc_proxy.Store.Defs.release
    rpc_proxy.Store.Defs.same_identity rpc_proxy.Store.Defs.event_id rpc_proxy.Store.Defs.install
    rpc_proxy.Store.Defs.refresh rpc_proxy.Store.Defs.publish rpc_proxy.Store.Defs.fence_head
    rpc_proxy.Store.Defs.begin_reorg rpc_proxy.Store.Defs.set_head rpc_proxy.Store.Defs.snapshot
    rpc_proxy.Store.Defs.stream_start rpc_proxy.Store.Defs.stream_cursor
    rpc_proxy.Store.Defs.find_cursor rpc_proxy.Store.Defs.events_after
    rpc_proxy.Store.Defs.read_events rpc_proxy.Store.Runs.apply rpc_proxy.Store.Runs.run
    rpc_proxy.Head.identity rpc_proxy.Head.is_zero rpc_proxy.Quantity.has_prefix
    rpc_proxy.Quantity.byte_at rpc_proxy.Quantity.digit_value rpc_proxy.Quantity.parse_digits
    rpc_proxy.Quantity.parse_uint rpc_proxy.Quantity.parse_evm_quantity rpc_proxy.Quantity.digit
    rpc_proxy.Quantity.format_digits rpc_proxy.Quantity.format_evm_quantity
    rpc_proxy.Quantity.is_hex rpc_proxy.Quantity.is_evm_hash rpc_proxy.Prelude.text_eq
    rpc_proxy.Prelude.lower rpc_proxy.Prelude.equal_fold rpc_proxy.Prelude.decimal_digits
    rpc_proxy.Prelude.decimal rpc_proxy.Prelude.number_after
fence_evm_responses_sound_example =
    fence_evm_responses_sound fence_config state recheck responses refl refl

fence_evm_responses_no_reorg_example :
    (is_pending (run before_publish store) chain ≡ false)
    × (epoch (run before_publish store) chain ≡ epoch store chain)
unfolding rpc_proxy.Gateway.Registry.listed rpc_proxy.Gateway.Registry.starts_with
    rpc_proxy.Gateway.Registry.starts_with_any rpc_proxy.Gateway.Registry.get_evm_state_block_index
    rpc_proxy.Gateway.Registry.get_evm_block_method
    rpc_proxy.Gateway.Registry.is_evm_head_neutral_method
    rpc_proxy.Gateway.Registry.is_evm_explicit_hash_method
    rpc_proxy.Gateway.Registry.is_write_method rpc_proxy.Gateway.Registry.is_static_method
    rpc_proxy.Gateway.Requests.reference_of rpc_proxy.Gateway.Requests.string_of
    rpc_proxy.Gateway.Requests.param_at rpc_proxy.Gateway.Requests.set_param
    rpc_proxy.Gateway.Requests.get_snapshot_head rpc_proxy.Gateway.Requests.get_target
    rpc_proxy.Gateway.Requests.prepare_state rpc_proxy.Gateway.Requests.prepare_block
    rpc_proxy.Gateway.Requests.prepare_block_number rpc_proxy.Gateway.Requests.prepare_fee_history
    rpc_proxy.Gateway.Dispatch.get_evm_log_bound rpc_proxy.Gateway.Dispatch.prepare_log_hash
    rpc_proxy.Gateway.Dispatch.prepare_log_block rpc_proxy.Gateway.Dispatch.prepare_log_range
    rpc_proxy.Gateway.Dispatch.prepare_log_bounds rpc_proxy.Gateway.Dispatch.prepare_log_selectors
    rpc_proxy.Gateway.Dispatch.prepare_logs rpc_proxy.Gateway.Dispatch.prepare_receipt
    rpc_proxy.Gateway.Dispatch.prepare_explicit rpc_proxy.Gateway.Dispatch.prepare_named
    rpc_proxy.Gateway.Dispatch.transform_evm_request rpc_proxy.Gateway.Dispatch.prepare_static
    rpc_proxy.Gateway.Dispatch.transform_request rpc_proxy.Gateway.Fence.compare_heads
    rpc_proxy.Gateway.Fence.failure_class rpc_proxy.Gateway.Fence.reject_targeted
    rpc_proxy.Gateway.Fence.needs_fence rpc_proxy.Gateway.Fence.fence_evm_responses
    rpc_proxy.Chain.Defs.decode_string rpc_proxy.Chain.Defs.eligible rpc_proxy.Chain.Defs.candidates
    rpc_proxy.Chain.Defs.preferred_candidates rpc_proxy.Chain.Defs.parse_evm_head
    rpc_proxy.Chain.Defs.accept_reply rpc_proxy.Chain.Defs.try_upstreams
    rpc_proxy.Chain.Defs.evm_block_by_hash rpc_proxy.Chain.Blocks.get_required_head
    rpc_proxy.Chain.Blocks.walk rpc_proxy.Chain.Blocks.get_evm_block_by_quantity
    rpc_proxy.Chain.Blocks.get_evm_block rpc_proxy.Store.Defs.fence_token
    rpc_proxy.Store.Defs.acquire rpc_proxy.Store.Defs.renew rpc_proxy.Store.Defs.release
    rpc_proxy.Store.Defs.same_identity rpc_proxy.Store.Defs.event_id rpc_proxy.Store.Defs.install
    rpc_proxy.Store.Defs.refresh rpc_proxy.Store.Defs.publish rpc_proxy.Store.Defs.fence_head
    rpc_proxy.Store.Defs.begin_reorg rpc_proxy.Store.Defs.set_head rpc_proxy.Store.Defs.snapshot
    rpc_proxy.Store.Defs.stream_start rpc_proxy.Store.Defs.stream_cursor
    rpc_proxy.Store.Defs.find_cursor rpc_proxy.Store.Defs.events_after
    rpc_proxy.Store.Defs.read_events rpc_proxy.Store.Runs.apply rpc_proxy.Store.Runs.run
    rpc_proxy.Head.identity rpc_proxy.Head.is_zero rpc_proxy.Quantity.has_prefix
    rpc_proxy.Quantity.byte_at rpc_proxy.Quantity.digit_value rpc_proxy.Quantity.parse_digits
    rpc_proxy.Quantity.parse_uint rpc_proxy.Quantity.parse_evm_quantity rpc_proxy.Quantity.digit
    rpc_proxy.Quantity.format_digits rpc_proxy.Quantity.format_evm_quantity
    rpc_proxy.Quantity.is_hex rpc_proxy.Quantity.is_evm_hash rpc_proxy.Prelude.text_eq
    rpc_proxy.Prelude.lower rpc_proxy.Prelude.equal_fold rpc_proxy.Prelude.decimal_digits
    rpc_proxy.Prelude.decimal rpc_proxy.Prelude.number_after
fence_evm_responses_no_reorg_example =
    fence_evm_responses_no_reorg fence_config store before_publish after_publish chain recheck
      responses refl refl (omega arith) (tt, ((λ _. refl), tt)) refl
