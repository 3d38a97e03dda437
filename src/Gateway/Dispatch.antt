-- ===== src/Gateway/Dispatch.antt =====
-- `transformRequest`, `transformEVMRequest` and `transformEVMLogs` of internal/gateway/transform.go, for
-- an EVM chain, and `prepareStaticRequest` of internal/gateway/cache.go.
use rpc_proxy.Prelude.{
  ℕ, ◌-◌, Bool, true, false, not, ◌&&◌, ◌||◌, Option, none, some, List, [], ◌∷◌, ltb, leb,
  if◌then◌else◌, Text, codes, ◌==◌, text_eq, is_empty, Result, ok, err,
}
use rpc_proxy.Quantity.{parse_evm_quantity, format_evm_quantity, is_evm_hash}
use rpc_proxy.Head.{Head, Snapshot, zero_head, latest, safe, finalized, explicit, evm}
use rpc_proxy.Chain.Defs.{Field, absent, text, decode_string}
use rpc_proxy.Chain.Reader.{BlockReader}
use rpc_proxy.Chain.Blocks.{ChainConfig}
use rpc_proxy.Gateway.Registry.{
  get_evm_state_block_index, get_evm_block_method, is_evm_head_neutral_method,
  is_evm_explicit_hash_method, is_write_method, is_static_method,
}
use rpc_proxy.Gateway.Requests.{
  RequestError, invalid_params, consistency_unavailable, unsupported_consistency, Filter, Param,
  received, json_string, log_filter, Prepared, plain, string_of, get_snapshot_head, get_target,
  prepare_state, prepare_block, prepare_block_number, prepare_fee_history,
}

-- What a request ends with before it is sent.
pub data Refusal : Type 0 where
  writes_disabled : Refusal
  refused : RequestError → Refusal

-- `getEVMLogBound`.
unfoldable pub get_evm_log_bound : Text → Head → Result RequestError ℕ
get_evm_log_bound selector accepted =
    if text_eq selector latest
    then ok accepted.number
    else if text_eq selector (codes "earliest")
    then ok 0
    else if text_eq selector (codes "pending")
        || text_eq selector safe
        || text_eq selector finalized
    then err unsupported_consistency
    else elim (parse_evm_quantity selector) [
      | err _ ↦ err invalid_params
      | ok number ↦ if ltb accepted.number number then err consistency_unavailable else ok number
    ]

-- A bound of a filter: an absent one is `"latest"`.
abbrev pub bound_selector : Field → Option Text
bound_selector absent = some latest
bound_selector f = decode_string f

abbrev pub is_present : Field → Bool
is_present absent = false
is_present _ = true

-- A head that only its hash names.
abbrev pub explicit_head : Text → Text → Head
explicit_head name hash = record zero_head {
  chain = name;
  family = evm;
  commitment = explicit;
  hash = hash;
}

-- The parameter of a filter's upper bound, which names the block that pins a single block's logs.
abbrev pub bound_param : Text → Param
bound_param selector = json_string selector

module _ (reader : BlockReader) (config : ChainConfig) (snapshot : Snapshot) (now : ℕ) where
  -- A filter that names its block.
  unfoldable pub prepare_log_hash : Param → Filter → Result RequestError Prepared
  prepare_log_hash p filter =
      if is_present filter.from_block || is_present filter.to_block
      then err invalid_params
      else elim (decode_string filter.block_hash) [
        | none ↦ err invalid_params
        | some hash ↦
            if is_evm_hash hash
            then ok (record (plain (codes "eth_getLogs") (p ∷ [])) {
              target = some (explicit_head config.name hash);
            })
            else err invalid_params
      ]

  -- A single block near the accepted head, sent by its hash.
  unfoldable pub prepare_log_block : Filter → Text → ℕ → Result RequestError Prepared × ℕ
  prepare_log_block filter selector tick =
      let found = get_target reader config snapshot now (bound_param selector) tick in
      (
        elim (found.0) [
          | err e ↦ err e
          | ok target ↦
              let named : Filter = record filter {
                block_hash = text target.hash;
                from_block = absent;
                to_block = absent;
              } in
              ok (record (plain (codes "eth_getLogs") (log_filter named ∷ [])) {
                target = some target;
              })
        ],
        found.1,
      )

  -- A range below the accepted head.
  unfoldable pub prepare_log_range : Filter → Head → ℕ → ℕ → Prepared
  prepare_log_range filter accepted from to =
      let ranged : Filter = record filter {
        from_block = text (format_evm_quantity from);
        to_block = text (format_evm_quantity to);
      } in
      record (plain (codes "eth_getLogs") (log_filter ranged ∷ [])) {
        target = some accepted;
        verify_boundaries = accepted ∷ [];
        log_range = some (from, to);
      }

  unfoldable pub prepare_log_bounds :
      Filter → Text → Text → Head → ℕ → Result RequestError Prepared × ℕ
  prepare_log_bounds filter from_selector to_selector accepted tick =
      elim (get_evm_log_bound from_selector accepted) [
        | err e ↦ (err e, tick)
        | ok from ↦ elim (get_evm_log_bound to_selector accepted) [
          | err e ↦ (err e, tick)
          | ok to ↦
              if ltb to from
              then (err invalid_params, tick)
              else if from == to && leb (accepted.number - from) config.reorg_depth
              then prepare_log_block filter to_selector tick
              else (ok (prepare_log_range filter accepted from to), tick)
        ]
      ]

  unfoldable pub prepare_log_selectors : Filter → ℕ → Result RequestError Prepared × ℕ
  prepare_log_selectors filter tick = elim (bound_selector filter.from_block) [
    | none ↦ (err invalid_params, tick)
    | some from ↦ elim (bound_selector filter.to_block) [
      | none ↦ (err invalid_params, tick)
      | some to ↦
          if is_empty from || is_empty to
          then (err invalid_params, tick)
          else elim (get_snapshot_head snapshot latest) [
            | err e ↦ (err e, tick)
            | ok accepted ↦ prepare_log_bounds filter from to accepted tick
          ]
    ]
  ]

  -- `transformEVMLogs`.
  unfoldable pub prepare_logs : List Param → ℕ → Result RequestError Prepared × ℕ
  prepare_logs (received r ∷ []) tick = elim (r.filter) [
    | none ↦ (err invalid_params, tick)
    | some filter ↦
        if is_present filter.block_hash
        then (prepare_log_hash (received r) filter, tick)
        else prepare_log_selectors filter tick
  ]
  prepare_logs _ tick = (err invalid_params, tick)

  -- `eth_getTransactionReceipt`.
  unfoldable pub prepare_receipt : Text → List Param → Result RequestError Prepared
  prepare_receipt method (p ∷ []) = elim (string_of p) [
    | none ↦ err invalid_params
    | some hash ↦
        if not (is_evm_hash hash)
        then err invalid_params
        else elim (get_snapshot_head snapshot latest) [
          | err e ↦ err e
          | ok target ↦
              ok (record (plain method (p ∷ [])) { target = some target; receipt_hash = hash })
        ]
  ]
  prepare_receipt method _ = err invalid_params

  -- A method whose caller names the block's hash.
  unfoldable pub prepare_explicit : Text → List Param → Result RequestError Prepared
  prepare_explicit method [] = err invalid_params
  prepare_explicit method (p ∷ ps) = elim (string_of p) [
    | none ↦ err invalid_params
    | some hash ↦
        if is_evm_hash hash
        then ok (record (plain method (p ∷ ps)) { target = some (explicit_head config.name hash) })
        else err invalid_params
  ]

  -- The methods after the two tables, in the order of the source.
  unfoldable pub prepare_named : Text → List Param → ℕ → Result RequestError Prepared × ℕ
  prepare_named method ps tick =
      if text_eq method (codes "eth_blockNumber")
      then (prepare_block_number reader config snapshot now method ps, tick)
      else if text_eq method (codes "eth_getLogs")
      then prepare_logs ps tick
      else if text_eq method (codes "eth_feeHistory")
      then prepare_fee_history reader config snapshot now method ps tick
      else if text_eq method (codes "eth_getTransactionReceipt")
      then (prepare_receipt method ps, tick)
      else if is_evm_head_neutral_method method
      then (ok (plain method ps), tick)
      else if is_evm_explicit_hash_method method
      then (prepare_explicit method ps, tick)
      else (err unsupported_consistency, tick)

  -- `transformEVMRequest`; parameters that are no array decode to none.
  unfoldable pub transform_evm_request :
      Text → Option (List Param) → ℕ → Result RequestError Prepared × ℕ
  transform_evm_request method none tick = (err invalid_params, tick)
  transform_evm_request method (some ps) tick = elim (get_evm_state_block_index method) [
    | some index ↦ prepare_state reader config snapshot now method index ps tick
    | none ↦ elim (get_evm_block_method method) [
      | some block_method ↦ prepare_block reader config snapshot now block_method ps tick
      | none ↦ prepare_named method ps tick
    ]
  ]

  -- `prepareStaticRequest`: the configured chain ID, as JSON.
  unfoldable pub prepare_static : Text → Text → Option (List Param) → Result RequestError Prepared
  prepare_static chain_id method (some []) =
      ok (record (plain method []) { local_response = some chain_id })
  prepare_static chain_id method _ = err invalid_params

  abbrev pub refusing : Result RequestError Prepared → Result Refusal Prepared
  refusing (ok p) = ok p
  refusing (err e) = err (refused e)

  -- `transformRequest`, on an EVM chain.
  unfoldable pub transform_request :
      Text → Text → Option (List Param) → ℕ → Result Refusal Prepared × ℕ
  transform_request chain_id method ps tick =
      let read = transform_evm_request method ps tick in
      if is_static_method method evm
      then (refusing (prepare_static chain_id method ps), tick)
      else if is_write_method method evm
      then (err writes_disabled, tick)
      else (refusing read.0, read.1)
