-- ===== src/Tests/Routing.antt =====
-- The routing's theorems at concrete inputs: the receipt of a transaction, from an upstream that has it,
-- and from one that does not know it.
use rpc_proxy.Prelude.{
  ℕ, ◌+◌, ◌∷◌, [], ◌≡◌, ◌≤◌, ◌<◌, ◌⊎◌, List, Text, Option, none, some, true, false, Bool, codes,
  All, length, refl, ok, arith, inl, inr,
}
use rpc_proxy.Head.{Head}
use rpc_proxy.Chain.Defs.{nothing, absent}
use rpc_proxy.Chain.Availability.{Availability, probe}
use rpc_proxy.Chain.Probes.{IsValid, longest, probe-IsValid}
use rpc_proxy.Gateway.Requests.{Prepared, plain}
use rpc_proxy.Gateway.Verification.{Payload}
use rpc_proxy.Gateway.Route.{
  Receipt, Answer, CallReply, call_result, RouteEnv, RouteState, answered, null_receipt, route,
}
use rpc_proxy.Gateway.Routed.{IsBacked, route-IsBacked}
use rpc_proxy.Gateway.Nulls.{SaysNothing, route-null}
use rpc_proxy.Tests.Fixtures.{chain, accepted, hash_of, world}

abbrev request : Prepared
request = record (plain (codes "eth_getTransactionReceipt") []) {
  target = some accepted;
  receipt_hash = hash_of b'a';
}

abbrev payload : Bool → Payload
payload is_null = record {
  is_null = is_null;
  block = nothing;
  logs = none;
  string = absent;
  transaction = none;
}

abbrev receipt : Answer
receipt = record {
  payload = payload false;
  receipt = some (record {
    transaction_hash = hash_of b'a';
    block_hash = hash_of b'1';
    block_number = codes "0x1";
  });
  bytes = codes "{}";
}

abbrev no_receipt : Answer
no_receipt = record { payload = payload true; receipt = none; bytes = codes "null" }

abbrev env : Answer → RouteEnv
env answer = record {
  world = world;
  chain = chain;
  poll_interval = 1000;
  pinned = λ tick id. true;
  call = λ tick id. call_result answer;
}

abbrev start : RouteState
start = record { attempted = []; unsupported = []; records = []; tick = 0 }

route-IsBacked_example : IsBacked (env receipt) request (codes "{}") (codes "one")
unfolding rpc_proxy.Gateway.Route.get_evm_receipt_block rpc_proxy.Gateway.Route.is_unsupported
    rpc_proxy.Gateway.Route.invalidate rpc_proxy.Gateway.Route.judge_receipt
    rpc_proxy.Gateway.Route.is_boundary rpc_proxy.Gateway.Route.verify_evm_boundaries
    rpc_proxy.Gateway.Route.is_verified rpc_proxy.Gateway.Route.accept
    rpc_proxy.Gateway.Route.take_result rpc_proxy.Gateway.Route.take_error
    rpc_proxy.Gateway.Route.call_candidate rpc_proxy.Gateway.Route.has_target
    rpc_proxy.Gateway.Route.is_passed_over rpc_proxy.Gateway.Route.attempt
    rpc_proxy.Gateway.Route.try_candidates rpc_proxy.Gateway.Route.route_candidates
    rpc_proxy.Gateway.Route.conclude route rpc_proxy.Chain.Defs.decode_string
    rpc_proxy.Chain.Defs.insert_stable rpc_proxy.Chain.Defs.sort_stable
    rpc_proxy.Chain.Defs.eligible rpc_proxy.Chain.Defs.candidates
    rpc_proxy.Chain.Defs.parse_evm_head rpc_proxy.Prelude.text_eq rpc_proxy.Prelude.equal_fold
    rpc_proxy.Gateway.Verification.verify_transaction
    rpc_proxy.Gateway.Verification.verify_evm_response rpc_proxy.Quantity.has_prefix
    rpc_proxy.Quantity.byte_at rpc_proxy.Quantity.digit_value rpc_proxy.Quantity.parse_digits
    rpc_proxy.Quantity.parse_uint rpc_proxy.Quantity.parse_evm_quantity rpc_proxy.Quantity.digit
    rpc_proxy.Quantity.is_hex rpc_proxy.Quantity.is_evm_hash rpc_proxy.Gateway.Registry.listed
    rpc_proxy.Prelude.lower rpc_proxy.Head.is_zero
route-IsBacked_example =
    route-IsBacked (env receipt) 0 request start (codes "{}") (codes "one") refl

abbrev after_null : RouteState
after_null = record start { attempted = codes "one" ∷ []; tick = 1 }

route-null_example :
    (0 < length after_null.attempted)
    × All (SaysNothing (env no_receipt) request) after_null.attempted
unfolding rpc_proxy.Gateway.Route.get_evm_receipt_block rpc_proxy.Gateway.Route.is_unsupported
    rpc_proxy.Gateway.Route.invalidate rpc_proxy.Gateway.Route.judge_receipt
    rpc_proxy.Gateway.Route.is_boundary rpc_proxy.Gateway.Route.verify_evm_boundaries
    rpc_proxy.Gateway.Route.is_verified rpc_proxy.Gateway.Route.accept
    rpc_proxy.Gateway.Route.take_result rpc_proxy.Gateway.Route.take_error
    rpc_proxy.Gateway.Route.call_candidate rpc_proxy.Gateway.Route.has_target
    rpc_proxy.Gateway.Route.is_passed_over rpc_proxy.Gateway.Route.attempt
    rpc_proxy.Gateway.Route.try_candidates rpc_proxy.Gateway.Route.route_candidates
    rpc_proxy.Gateway.Route.conclude route rpc_proxy.Chain.Defs.decode_string
    rpc_proxy.Chain.Defs.insert_stable rpc_proxy.Chain.Defs.sort_stable
    rpc_proxy.Chain.Defs.eligible rpc_proxy.Chain.Defs.candidates
    rpc_proxy.Chain.Defs.parse_evm_head rpc_proxy.Prelude.text_eq rpc_proxy.Prelude.equal_fold
    rpc_proxy.Gateway.Verification.verify_transaction
    rpc_proxy.Gateway.Verification.verify_evm_response rpc_proxy.Quantity.has_prefix
    rpc_proxy.Quantity.byte_at rpc_proxy.Quantity.digit_value rpc_proxy.Quantity.parse_digits
    rpc_proxy.Quantity.parse_uint rpc_proxy.Quantity.parse_evm_quantity rpc_proxy.Quantity.digit
    rpc_proxy.Quantity.is_hex rpc_proxy.Quantity.is_evm_hash rpc_proxy.Gateway.Registry.listed
    rpc_proxy.Prelude.lower rpc_proxy.Head.is_zero
route-null_example =
    route-null (env no_receipt) request 0 start after_null (codes "one") refl refl refl

-- Every check says that the upstream has the target.
abbrev has_all : Text → ℕ → Option Bool
has_all key tick = some true

abbrev cached : List Availability
cached = record { key = codes "k"; available = true; expires = 250000001 } ∷ []

probe-IsValid_example :
    let answer = probe (λ tick. tick) 1000 (codes "k") (has_all (codes "k")) cached 3 in
    IsValid (λ tick. tick) 1000 has_all answer.1
    × ((answer.0 ≡ none)
        ⊎ (answer.0 ≡ some false)
        ⊎ ((t : ℕ) × (has_all (codes "k") t ≡ some true)
            × (3 ≤ t + 1 + longest (λ tick. tick) 1000 has_all)))
probe-IsValid_example =
    probe-IsValid (λ tick. tick) 1000 has_all (codes "k") cached 3 (omega arith)
      (record { bounded = omega arith; shown = (inr (0, refl, omega arith), tt) })
