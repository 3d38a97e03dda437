-- ===== src/Gateway/Route.antt =====
-- `route` of internal/gateway/router.go on an EVM chain: how a prepared read is sent to the upstreams,
-- one after the other. What an upstream answers, and whether it has proved that it reads state at a
-- hash, is asked at a tick; a refused call, a deadline or an open circuit is a failed call.
mod Answers
unfoldable pub use Answers.*
use rpc_proxy.Prelude.{
  ℕ, zero, suc, ◌+◌, ◌-◌, Bool, true, false, not, ◌&&◌, ◌||◌, Option, none, some, List, [], ◌∷◌,
  map, ltb, leb, ◌==◌, if◌then◌else◌, length, Text, codes, text_eq, lower, equal_fold, is_empty, ok,
  err,
}
use rpc_proxy.Quantity.{parse_evm_quantity, is_evm_hash}
use rpc_proxy.Head.{Head}
use rpc_proxy.Chain.Defs.{
  Upstream, World, Origin, failed, rpc_error, result, candidates, sort_stable, parse_evm_head,
}
use rpc_proxy.Chain.Availability.{Availability, has_evm_block, invalidate_availability}
use rpc_proxy.Gateway.Registry.{listed, starts_with}
use rpc_proxy.Gateway.Requests.{Prepared}
use rpc_proxy.Gateway.Verification.{Payload, verify_evm_response}

module _ (env : RouteEnv) where
  abbrev pub origin : Text → Head → ℕ → Origin
  origin id target tick = record {
    chain = env.chain;
    commitment = target.commitment;
    upstream = id;
    time = env.world.now tick;
  }

  -- One round trip of `verifyEVMBoundaries`.
  unfoldable pub is_boundary : Text → Head → ℕ → Bool
  is_boundary id target tick = elim (env.world.by_number tick id target.number) [
    | failed ↦ false
    | rpc_error ↦ false
    | result raw ↦ elim (parse_evm_head (origin id target tick) raw) [
      | err _ ↦ false
      | ok block ↦ block.number == target.number && equal_fold block.hash target.hash
    ]
  ]

  -- `verifyEVMBoundaries`.
  unfoldable pub verify_evm_boundaries : Text → List Head → ℕ → Bool × ℕ
  unfolding is_boundary
  verify_evm_boundaries id [] tick = (true, tick)
  verify_evm_boundaries id (target ∷ targets) tick =
      let rest = verify_evm_boundaries id targets (tick + 1) in
      if is_boundary id target tick then rest else (false, tick + 1)

  -- `EVMHeadParseRequest{Header: payload}`.
  abbrev pub payload_origin : ℕ → Origin
  payload_origin tick = record {
    chain = env.chain;
    commitment = [];
    upstream = [];
    time = env.world.now tick;
  }

  -- `verifyEVMResponse`, where there is a target.
  unfoldable pub is_verified : Prepared → Answer → ℕ → Bool
  is_verified r answer tick = elim (r.target) [
    | none ↦ true
    | some _ ↦ elim (verify_evm_response (payload_origin tick) r answer.payload) [
      | ok _ ↦ true
      | err _ ↦ false
    ]
  ]

  -- The second check of the boundaries, and the end.
  unfoldable pub accept : Prepared → Text → Answer → RouteState → Round → Turn
  unfolding verify_evm_boundaries invalidate
  accept r id answer st p =
      let (held, tick) = verify_evm_boundaries id r.verify_boundaries st.tick in
      let st' = record st { tick = tick } in
      if held then finish (answered answer.bytes id) st' else next (invalidate r id st') p

  -- A result of a call.
  unfoldable pub take_result : Prepared → Text → Answer → RouteState → Round → Turn
  unfolding is_verified judge_receipt accept invalidate
  take_result r id answer st p =
      if not (is_verified r answer st.tick)
      then next (invalidate r id st) p
      else elim (judge_receipt r answer) [
        | null_or_future ↦ next st (count_null p id)
        | invalid ↦ next st p
        | visible ↦ accept r id answer st p
      ]

  -- An RPC error of a call.
  unfoldable pub take_error : Prepared → Text → CallError → RouteState → Round → Turn
  unfolding is_unavailable_rpc_error invalidate
  take_error r id e st p =
      let marked = record st { unsupported = (id, r.method) ∷ st.unsupported } in
      let uncounted = record p { eligible = p.eligible - 1 } in
      elim (e.code) [
        | method_not_found ↦ next marked (if is_empty r.receipt_hash then p else uncounted)
        | _ ↦
            if is_unavailable_rpc_error e
            then next (invalidate r id st) p
            else finish (refused e id) st
      ]

  -- The call of a candidate that has been counted, between two checks of the boundaries.
  unfoldable pub call_candidate : Prepared → Text → RouteState → Round → Turn
  unfolding verify_evm_boundaries take_result take_error
  call_candidate r id st p =
      let (held, tick) = verify_evm_boundaries id r.verify_boundaries st.tick in
      let before = record st { tick = tick } in
      let after = record st { tick = tick + 1 } in
      if not held then next before p else elim (env.call tick id) [
        | call_failed ↦ next after p
        | call_error e ↦ take_error r id e after p
        | call_result answer ↦ take_result r id answer after p
      ]

  -- Whether the candidate has the target; a receipt's request asks every candidate.
  unfoldable pub has_target : Prepared → Text → RouteState → Option Bool × RouteState
  has_target r id st = elim (r.target) [
    | none ↦ (some true, st)
    | some target ↦
        let (available, records, tick) =
          has_evm_block env.world env.chain env.poll_interval id target st.records st.tick in
        if not (is_empty r.receipt_hash)
        then (some true, st)
        else (available, record st { records = records; tick = tick })
  ]

  -- `attempted[candidate.ID] || !candidate.SupportsMethod(method)`, and the proof of pinned reads.
  unfoldable pub is_passed_over : Prepared → Text → RouteState → Bool
  unfolding is_unsupported
  is_passed_over r id st =
      listed id st.attempted
      || is_unsupported st.unsupported id r.method
      || (r.require_eip1898 && not (env.pinned st.tick id))

  -- One candidate.
  unfoldable pub attempt : Prepared → Text → RouteState → Round → Turn
  unfolding has_target is_passed_over call_candidate
  attempt r id st p =
      let (available, st') = has_target r id st in
      let counted = record p { eligible = p.eligible + 1 } in
      let marked = record st' { attempted = id ∷ st'.attempted } in
      if is_passed_over r id st then next st p else elim available [
        | none ↦ next st' p
        | some false ↦ next st' p
        | some true ↦ call_candidate r id marked counted
      ]

  -- The loop over the candidates.
  unfoldable pub try_candidates : Prepared → List Upstream → RouteState → Round → Turn
  unfolding attempt
  try_candidates r [] st p = next st p
  try_candidates r (u ∷ us) st p =
      let rest = λ (st' : RouteState) (p' : Round). try_candidates r us st' p' in
      elim (attempt r u.id st p) [ finish o st' ↦ finish o st' | next st' p' ↦ rest st' p' ]

  -- The candidates, the target's origin first.
  unfoldable pub route_candidates : Prepared → ℕ → List Upstream
  route_candidates r tick =
      let all = candidates r.require_eip1898 (env.world.upstreams tick) in
      elim (r.target) [
        | none ↦ all
        | some target ↦
            if is_empty target.origin
            then all
            else sort_stable (λ a b. text_eq a.id target.origin && not (text_eq b.id target.origin))
                all
      ]

  -- The tests after a round: whether the read ends, and how.
  unfoldable pub conclude : Prepared → ℕ → RouteState → Round → Option RouteOutcome
  conclude r count st p =
      if not (is_empty r.receipt_hash) && ltb 0 (length st.attempted)
      then some (
          if ltb 0 p.null_receipts && p.null_receipts == p.eligible
          then null_receipt p.null_receipt_upstream
          else unavailable)
      else if p.eligible == 0 && leb count (length st.attempted) && ltb 0 count
      then some unavailable
      else none

  -- `route`. `waits` is how often the request's context still lets it wait for the next round.
  unfoldable pub route : ℕ → Prepared → RouteState → RouteOutcome × RouteState
  unfolding try_candidates route_candidates conclude
  route zero r st =
      let all = route_candidates r st.tick in
      elim (try_candidates r all st new_round) [
        | finish o st' ↦ (o, st')
        | next st' p ↦ elim (conclude r (length all) st' p) [
          | some o ↦ (o, st')
          | none ↦ (unavailable, st')
        ]
      ]
  route (suc waits) r st =
      let all = route_candidates r st.tick in
      let again = λ (st' : RouteState). route waits r (record st' { tick = st'.tick + 1 }) in
      elim (try_candidates r all st new_round) [
        | finish o st' ↦ (o, st')
        | next st' p ↦ elim (conclude r (length all) st' p) [ some o ↦ (o, st') | none ↦ again st' ]
      ]
