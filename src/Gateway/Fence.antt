-- ===== src/Gateway/Fence.antt =====
-- `fenceEVMResponses` of internal/gateway/reorg.go: the last check of a request's results against the
-- store, and the JSON-RPC responses of internal/jsonrpc that it replaces.
use rpc_proxy.Prelude.{
  ℕ, ◌-◌, Bool, true, false, not, ◌&&◌, ◌||◌, Option, none, some, List, [], ◌∷◌, map, ltb, ◌==◌,
  if◌then◌else◌, Text, text_eq, equal_fold,
}
use rpc_proxy.Head.{Head, Snapshot, latest, get_head, is_zero, evm}

-- The JSON-RPC errors that a request can end with, with the reasons that fencing gives.
pub data FailureClass : Type 0 where
  reorg_check_unavailable deadline reorg_pending reorg_changed stale_head : FailureClass

pub data RpcError : Type 0 where
  consistency_unavailable : Text → FailureClass → RpcError
  other : Text → RpcError

-- `jsonrpc.Response`: a result or an error, under the request's ID.
pub data Outcome : Type 0 where
  success : Text → Outcome
  failure : RpcError → Outcome

pub record Response : Type 0 where
  pub id : Text
  pub outcome : Outcome

-- `processedResponse`.
pub record ProcessedResponse : Type 0 where
  pub response : Response
  pub upstream : Text
  pub target : Option Head
  pub cache_status : Text
  pub receipt_lookup : Bool
  pub boundary_checked : Bool
  pub unverified_read : Bool

-- `config.ChainConfig`, what fencing reads of it.
pub record FenceConfig : Type 0 where
  pub name : Text
  pub family : Text
  pub max_head_age : ℕ

-- The last read of the store: it fails, or shows a snapshot; and whether the request's context is
-- done, and the time.
pub record Recheck : Type 0 where
  pub snapshot : Option Snapshot
  pub done : Bool
  pub now : ℕ

-- The cases that compare the two accepted heads.
unfoldable pub compare_heads : FenceConfig → Head → Head → ℕ → Option FailureClass
compare_heads config initial current now =
    if is_zero initial || is_zero current
    then some reorg_check_unavailable
    else if initial.reorg_pending || current.reorg_pending
    then some reorg_pending
    else if not (initial.reorg_epoch == current.reorg_epoch)
        || ltb current.generation initial.generation
    then some reorg_changed
    else if not (ltb initial.number current.number) && not (equal_fold current.hash initial.hash)
    then some reorg_changed
    else if ltb 0 config.max_head_age
        && (current.observed_at == 0 || ltb config.max_head_age (now - current.observed_at))
    then some stale_head
    else none

-- The `switch` of `fenceEVMResponses`.
unfoldable pub failure_class : FenceConfig → Snapshot → Recheck → Option FailureClass
failure_class config initial recheck = elim (recheck.snapshot) [
  | none ↦ some reorg_check_unavailable
  | some current ↦ if recheck.done then some deadline else elim (get_head initial latest) [
    | none ↦ some reorg_check_unavailable
    | some before ↦ elim (get_head current latest) [
      | none ↦ some reorg_check_unavailable
      | some after ↦ compare_heads config before after recheck.now
    ]
  ]
]

-- `idOrNull` keeps the ID of a response, which is a valid one or `null` already.
abbrev pub reject : FenceConfig → FailureClass → ProcessedResponse → ProcessedResponse
reject config class r = record {
  response = record {
    id = r.response.id;
    outcome = failure (consistency_unavailable config.name class);
  };
  upstream = [];
  target = none;
  cache_status = [];
  receipt_lookup = false;
  boundary_checked = false;
  unverified_read = false;
}

-- A result with a target is discarded.
unfoldable pub reject_targeted : FenceConfig → FailureClass → ProcessedResponse → ProcessedResponse
reject_targeted config class r = elim (r.target) [ none ↦ r | some _ ↦ reject config class r ]

unfoldable pub needs_fence : List ProcessedResponse → Bool
needs_fence [] = false
needs_fence (r ∷ rs) = elim (r.target) [ none ↦ needs_fence rs | some _ ↦ true ]

-- `fenceEVMResponses`.
unfoldable pub fence_evm_responses :
    FenceConfig → Snapshot → Recheck → List ProcessedResponse → List ProcessedResponse
fence_evm_responses config initial recheck rs =
    if not (text_eq config.family evm) || not (needs_fence rs)
    then rs
    else elim (failure_class config initial recheck) [
      | none ↦ rs
      | some class ↦ map (reject_targeted config class) rs
    ]
