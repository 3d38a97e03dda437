-- ===== src/Gateway/Requests.antt =====
-- `transformEVMRequest` of internal/gateway/transform.go: how a read of an EVM chain is pinned to the
-- accepted head of its snapshot. A caller's parameter is seen as the decoders of the JSON library see
-- it; a parameter that the gateway encodes is the value that it encodes.
use rpc_proxy.Prelude.{
  ℕ, zero, suc, Bool, true, false, Option, none, some, List, [], ◌∷◌, ◌++◌, ltb, leb, length,
  if◌then◌else◌, Text, is_empty, Result, ok, err,
}
use rpc_proxy.Quantity.{format_evm_quantity}
use rpc_proxy.Head.{Head, Snapshot, latest, get_head, is_zero}
use rpc_proxy.Chain.Defs.{
  ChainError, Field, decode_string, block_unavailable, invalid_reference, unsupported_reference,
  discontinuous,
}
use rpc_proxy.Chain.Reader.{BlockReader}
use rpc_proxy.Chain.Blocks.{
  BlockReference, undecodable, tag, identifier, ChainConfig, get_evm_block,
}
use rpc_proxy.Gateway.Registry.{BlockMethod}

-- The JSON-RPC errors of a refused request, by their code.
pub data RequestError : Type 0 where
  invalid_params consistency_unavailable unsupported_consistency internal_error : RequestError

-- The members of a log filter that the gateway reads, and the bytes of the others.
pub record Filter : Type 0 where
  pub block_hash : Field
  pub from_block : Field
  pub to_block : Field
  pub others : Text

-- A caller's parameter: its bytes, and what it decodes to as a block reference, as a string, and as an
-- object that is a log filter.
pub record Received : Type 0 where
  pub bytes : Text
  pub reference : BlockReference
  pub string : Field
  pub filter : Option Filter

pub data Param : Type 0 where
  received : Received → Param
  json_string : Text → Param
  block_identifier : Text → Param
  log_filter : Filter → Param

-- `preparedRequest`.
pub record Prepared : Type 0 where
  pub method : Text
  pub parameters : List Param
  pub target : Option Head
  pub require_eip1898 : Bool
  pub local_response : Option Text
  pub verify_boundaries : List Head
  pub receipt_hash : Text
  pub log_range : Option (ℕ × ℕ)

-- `preparedRequest{method: m, parameters: ps}`.
abbrev pub plain : Text → List Param → Prepared
plain method parameters = record {
  method = method;
  parameters = parameters;
  target = none;
  require_eip1898 = false;
  local_response = none;
  verify_boundaries = [];
  receipt_hash = [];
  log_range = none;
}

unfoldable pub reference_of : Param → BlockReference
reference_of (received r) = r.reference
reference_of (json_string s) = tag s
reference_of (block_identifier hash) = identifier hash [] (some true)
reference_of (log_filter f) = undecodable

unfoldable pub string_of : Param → Option Text
string_of (received r) = decode_string r.string
string_of (json_string s) = some s
string_of _ = none

-- `parameters[i]`, and `parameters[i] = p`, for an index that the list has.
unfoldable pub param_at : ℕ → List Param → Option Param
param_at i [] = none
param_at zero (p ∷ ps) = some p
param_at (suc i) (p ∷ ps) = param_at i ps

unfoldable pub set_param : ℕ → Param → List Param → List Param
set_param i q [] = []
set_param zero q (p ∷ ps) = q ∷ ps
set_param (suc i) q (p ∷ ps) = p ∷ set_param i q ps

-- The loop that appends `"latest"`, where the list has as many parameters as the index.
abbrev pub pad : ℕ → List Param → List Param
pad i ps = if leb (length ps) i then ps ++ json_string latest ∷ [] else ps

-- `getSnapshotHead`.
unfoldable pub get_snapshot_head : Snapshot → Text → Result RequestError Head
get_snapshot_head snapshot commitment = elim (get_head snapshot commitment) [
  | none ↦ err consistency_unavailable
  | some accepted ↦ if is_zero accepted then err consistency_unavailable else ok accepted
]

-- The errors of `getEVMBlock`.
abbrev pub block_error : ChainError → RequestError
block_error invalid_reference = invalid_params
block_error unsupported_reference = unsupported_consistency
block_error block_unavailable = consistency_unavailable
block_error discontinuous = consistency_unavailable
block_error _ = internal_error

module _ (reader : BlockReader) (config : ChainConfig) (snapshot : Snapshot) (now : ℕ) where
  -- `getEVMBlock`.
  unfoldable pub get_target : Param → ℕ → Result RequestError Head × ℕ
  get_target p tick =
      let found = get_evm_block reader config (reference_of p) snapshot now tick in
      (elim (found.0) [ ok target ↦ ok target | err e ↦ err (block_error e) ], found.1)

  -- A read of state at a block.
  unfoldable pub prepare_state : Text → ℕ → List Param → ℕ → Result RequestError Prepared × ℕ
  prepare_state method index ps tick =
      let padded = pad index ps in
      if ltb (length ps) index then (err invalid_params, tick) else elim (param_at index padded) [
        | none ↦ (err invalid_params, tick)
        | some p ↦ (
          elim ((get_target p tick).0) [
            | err e ↦ err e
            | ok target ↦
                ok (record (plain method (set_param index (block_identifier target.hash) padded)) {
                  target = some target;
                  require_eip1898 = true;
                })
          ],
          (get_target p tick).1,
        )
      ]

  -- A read of a block by number, sent as one by hash.
  unfoldable pub prepare_block : BlockMethod → List Param → ℕ → Result RequestError Prepared × ℕ
  prepare_block method ps tick = elim (param_at method.block_index ps) [
    | none ↦ (err invalid_params, tick)
    | some p ↦ (
      elim ((get_target p tick).0) [
        | err e ↦ err e
        | ok target ↦
            ok
              (record (plain method.replacement
                (set_param method.block_index (json_string target.hash) ps)) {
                  target = some target;
                })
      ],
      (get_target p tick).1,
    )
  ]

  -- `eth_blockNumber`, answered from the snapshot.
  unfoldable pub prepare_block_number : Text → List Param → Result RequestError Prepared
  prepare_block_number method [] = elim (get_snapshot_head snapshot latest) [
    | err e ↦ err e
    | ok target ↦ ok (record (plain method []) {
      local_response = some (format_evm_quantity target.number);
      target = some target;
    })
  ]
  prepare_block_number method (p ∷ ps) = err invalid_params

  -- `eth_feeHistory`.
  unfoldable pub prepare_fee_history : Text → List Param → ℕ → Result RequestError Prepared × ℕ
  prepare_fee_history method ps tick = elim (param_at 1 ps) [
    | none ↦ (err invalid_params, tick)
    | some p ↦ elim (string_of p) [
      | none ↦ (err invalid_params, tick)
      | some newest ↦ if is_empty newest then (err invalid_params, tick) else (
        elim ((get_target p tick).0) [
          | err e ↦ err e
          | ok target ↦
              ok
                (record (plain method
                  (set_param 1 (json_string (format_evm_quantity target.number)) ps)) {
                    target = some target;
                    verify_boundaries = target ∷ [];
                  })
        ],
        (get_target p tick).1,
      )
    ]
  ]
