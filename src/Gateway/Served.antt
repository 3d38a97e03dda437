-- ===== src/Gateway/Served.antt =====
-- `transformEVMRequest` of internal/gateway/transform.go: every prepared read is pinned.
use rpc_proxy.Prelude.{ℕ, ◌≡◌, ◌⊎◌, true, none, some, List, Text, ok}
use rpc_proxy.Head.{Head, Snapshot}
use rpc_proxy.Chain.Reader.{BlockReader}
use rpc_proxy.Chain.Blocks.{ChainConfig}
use rpc_proxy.Gateway.Registry.{get_evm_state_block_index, is_evm_head_neutral_method}
use rpc_proxy.Gateway.Requests.{Param, block_identifier, Prepared, pad, param_at}
use rpc_proxy.Gateway.Dispatch.{transform_evm_request}
use rpc_proxy.Gateway.Pinned.{param_at-set_param, IsPinned, prepare_state-inv}

module _ (reader : BlockReader) (config : ChainConfig) (snapshot : Snapshot) (now : ℕ) where
  -- What the prepared reads have in common.
  abbrev pub IsServed : Prepared → Type 0
  IsServed r =
      ((is_evm_head_neutral_method r.method ≡ true) × (r.target ≡ none))
      ⊎ IsPinned reader config snapshot now r

  -- A read of state is sent under its own method with the target's hash as its EIP-1898 block
  -- parameter, to an upstream that accepts one.
  pub transform_evm_request-state :
      (method : Text) (index : ℕ) (ps : List Param) (tick : ℕ) (r : Prepared)
      → get_evm_state_block_index method ≡ some index
      → (transform_evm_request reader config snapshot now method (some ps) tick).0 ≡ ok r
      → (target : Head) × (r.target ≡ some target)
        × (r.method ≡ method)
        × (r.require_eip1898 ≡ true)
        × (param_at index r.parameters ≡ some (block_identifier target.hash))
  unfolding transform_evm_request
  transform_evm_request-state method index ps tick r state h =
      let (p, at, target, got, named, is, required, params) =
        prepare_state-inv reader config snapshot now method index ps tick r
          (rw (transform_evm_request, state) at h) in
      (
        target,
        is,
        named,
        required,
        rw params (param_at-set_param index (block_identifier target.hash) p (pad index ps) at),
      )
