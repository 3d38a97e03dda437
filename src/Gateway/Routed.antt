-- ===== src/Gateway/Routed.antt =====
-- `route` of internal/gateway/router.go: what stands behind a read's answer.
use rpc_proxy.Prelude.{
  ℕ, zero, suc, ◌+◌, ◌≤◌, ◌≡◌, ◌⊎◌, refl, ◌∙◌, true, false, not, ◌&&◌, none, some, List, [], ◌∷◌,
  ltb, ◌==◌, length, All, Text, equal_fold, is_empty, ok, arith, inl, inr, Bool-cases, Option-cases,
  Result-cases,
}
use rpc_proxy.Head.{Head}
use rpc_proxy.Chain.Defs.{Upstream, RawBlock, Reply, failed, rpc_error, result, parse_evm_head}
use rpc_proxy.Gateway.Requests.{Prepared}
use rpc_proxy.Gateway.Verification.{verify_evm_response}
use rpc_proxy.Gateway.Route.{
  ErrorCode, method_not_found, server_unavailable, other_code, CallError, Receipt, Answer,
  CallReply, call_failed, call_error, call_result, RouteEnv, RouteState, Round, new_round,
  RouteOutcome, answered, null_receipt, refused, unavailable, Turn, next, finish, visible,
  get_evm_receipt_block, judge_receipt, origin, payload_origin, is_boundary, verify_evm_boundaries,
  is_verified, accept, take_result, take_error, call_candidate, has_target, is_passed_over, attempt,
  try_candidates, route_candidates, conclude, route,
}

Reply-cases :
    (reply : Reply)
    → (reply ≡ failed) ⊎ (reply ≡ rpc_error) ⊎ ((raw : RawBlock) × (reply ≡ result raw))
Reply-cases failed = inl refl
Reply-cases rpc_error = inr (inl refl)
Reply-cases (result raw) = inr (inr (raw, refl))

pub ErrorCode-cases :
    (c : ErrorCode) → (c ≡ method_not_found) ⊎ (c ≡ server_unavailable) ⊎ (c ≡ other_code)
ErrorCode-cases method_not_found = inl refl
ErrorCode-cases server_unavailable = inr (inl refl)
ErrorCode-cases other_code = inr (inr refl)

pub CallReply-cases :
    (reply : CallReply)
    → (reply ≡ call_failed)
      ⊎ ((e : CallError) × (reply ≡ call_error e))
      ⊎ ((answer : Answer) × (reply ≡ call_result answer))
CallReply-cases call_failed = inl refl
CallReply-cases (call_error e) = inr (inl (e, refl))
CallReply-cases (call_result answer) = inr (inr (answer, refl))

pub Turn-cases :
    (t : Turn)
    → ((st : RouteState) × (p : Round) × (t ≡ next st p))
      ⊎ ((o : RouteOutcome) × (st : RouteState) × (t ≡ finish o st))
Turn-cases (next st p) = inl (st, p, refl)
Turn-cases (finish o st) = inr (o, st, refl)

receipt_block-hash :
    (receipt : Receipt) (transaction_hash : Text) (number : ℕ) (hash : Text)
    → get_evm_receipt_block (some receipt) transaction_hash ≡ some (number, hash)
    → equal_fold receipt.transaction_hash transaction_hash ≡ true
unfolding get_evm_receipt_block
receipt_block-hash receipt transaction_hash number hash h = ground arith

module _ (env : RouteEnv) where
  -- The upstream has shown a boundary's block at its height.
  abbrev pub ShowsBoundary : Text → Head → Type 0
  ShowsBoundary id target =
      (tick : ℕ) × (raw : RawBlock) × (block : Head) × (env.world.by_number tick id target.number
        ≡ result raw)
      × (parse_evm_head (origin env id target tick) raw ≡ ok block)
      × (block.number ≡ target.number)
      × (equal_fold block.hash target.hash ≡ true)

  is_boundary-Shows :
      (id : Text) (target : Head) (tick : ℕ)
      → is_boundary env id target tick ≡ true
      → ShowsBoundary id target
  unfolding is_boundary
  is_boundary-Shows id target tick h =
      elim (Reply-cases (env.world.by_number tick id target.number)) [
        | inl failed' ↦ absurd (ground arith)
        | inr (inl refused') ↦ absurd (ground arith)
        | inr (inr (raw, shown)) ↦
            elim (Result-cases (parse_evm_head (origin env id target tick) raw)) [
              | inr (e, bad) ↦ absurd (ground arith)
              | inl (block, good) ↦ (tick, raw, block, shown, good, ground arith, ground arith)
            ]
      ]

  verify_evm_boundaries-All :
      (id : Text) (targets : List Head) (tick : ℕ)
      → (verify_evm_boundaries env id targets tick).0 ≡ true
      → All (ShowsBoundary id) targets
  unfolding verify_evm_boundaries
  verify_evm_boundaries-All id [] tick h = tt
  verify_evm_boundaries-All id (target ∷ targets) tick h =
      elim (Bool-cases (is_boundary env id target tick)) [
        | inl held ↦ (
          is_boundary-Shows id target tick held,
          verify_evm_boundaries-All id targets (tick + 1) (rw (held, verify_evm_boundaries) at h),
        )
        | inr broken ↦ absurd (ground arith)
      ]

  -- A receipt that the request may see: of its transaction, in a block at or below the accepted head.
  abbrev pub Visible : Prepared → Answer → Type 0
  Visible r answer =
      (is_empty r.receipt_hash ≡ true)
      ⊎ ((receipt : Receipt) × (target : Head) × (number : ℕ) × (hash : Text) × (answer.receipt
            ≡ some receipt)
          × (r.target ≡ some target)
          × (equal_fold receipt.transaction_hash r.receipt_hash ≡ true)
          × (get_evm_receipt_block (some receipt) r.receipt_hash ≡ some (number, hash))
          × (number ≤ target.number))

  judge_receipt-Visible :
      (r : Prepared) (answer : Answer) → judge_receipt r answer ≡ visible → Visible r answer
  unfolding judge_receipt
  judge_receipt-Visible r answer h = elim (Bool-cases (is_empty r.receipt_hash)) [
    | inl other ↦ inl other
    | inr receipt ↦ elim (Option-cases answer.receipt) [
      | inl missing ↦ absurd (unfold get_evm_receipt_block in ground arith)
      | inr (got, found) ↦ elim (Option-cases (get_evm_receipt_block (some got) r.receipt_hash)) [
        | inl bad ↦ absurd (ground arith)
        | inr ((number, hash), block) ↦ elim (Option-cases r.target) [
          | inl untargeted ↦ absurd (ground arith)
          | inr (target, aimed) ↦ inr (
            got,
            target,
            number,
            hash,
            found,
            aimed,
            receipt_block-hash got r.receipt_hash number hash block,
            block,
            ground arith,
          )
        ]
      ]
    ]
  ]

  -- What stands behind an answer: the upstream gave it in a call, it has proved the pinned reads of the
  -- method if the read needs them, the answer passes the verification against the target, a receipt is
  -- visible, and the upstream has shown every boundary.
  abbrev pub IsBacked : Prepared → Text → Text → Type 0
  IsBacked r bytes id =
      (tick : ℕ) × (answer : Answer) × (env.call tick id ≡ call_result answer)
      × (answer.bytes ≡ bytes)
      × ((r.require_eip1898 ≡ false) ⊎ ((t : ℕ) × (env.pinned t id ≡ true)))
      × ((r.target ≡ none)
          ⊎ ((t : ℕ) × (verify_evm_response (payload_origin env t) r answer.payload ≡ ok tt)))
      × Visible r answer
      × All (ShowsBoundary id) r.verify_boundaries

  accept-inv :
      (r : Prepared) (id : Text) (answer : Answer) (st : RouteState) (p : Round) (o : RouteOutcome)
      (st' : RouteState)
      → accept env r id answer st p ≡ finish o st'
      → (o ≡ answered answer.bytes id)
        × ((verify_evm_boundaries env id r.verify_boundaries st.tick).0 ≡ true)
  unfolding accept
  accept-inv r id answer st p o st' h = ground arith

  take_result-inv :
      (r : Prepared) (id : Text) (answer : Answer) (st : RouteState) (p : Round) (o : RouteOutcome)
      (st' : RouteState)
      → take_result env r id answer st p ≡ finish o st'
      → (is_verified env r answer st.tick ≡ true)
        × (judge_receipt r answer ≡ visible)
        × (accept env r id answer st p ≡ finish o st')
  unfolding take_result
  take_result-inv r id answer st p o st' h = ground arith

  is_verified-inv :
      (r : Prepared) (answer : Answer) (tick : ℕ)
      → is_verified env r answer tick ≡ true
      → (r.target ≡ none)
        ⊎ ((t : ℕ) × (verify_evm_response (payload_origin env t) r answer.payload ≡ ok tt))
  unfolding is_verified
  is_verified-inv r answer tick h = elim (Option-cases r.target) [
    | inl missing ↦ inl missing
    | inr (target, aimed) ↦ inr (tick, ground arith)
  ]

  take_error-inv :
      (r : Prepared) (id : Text) (e : CallError) (st : RouteState) (p : Round) (o : RouteOutcome)
      (st' : RouteState)
      → take_error env r id e st p ≡ finish o st'
      → o ≡ refused e id
  unfolding take_error
  take_error-inv r id e st p o st' h = elim (ErrorCode-cases e.code) [
    | inl missing ↦ absurd (ground arith)
    | inr (inl down) ↦ ground arith
    | inr (inr other) ↦ ground arith
  ]

  -- A candidate ends the read by an answer that is backed, or by its own error.
  abbrev pub Ends : Prepared → RouteOutcome → Type 0
  Ends r (answered bytes id) = IsBacked r bytes id
  Ends r (refused e id) = (tick : ℕ) × (env.call tick id ≡ call_error e)
  Ends r (null_receipt id) = ⊥
  Ends r unavailable = ⊥

  call_candidate-Ends :
      (r : Prepared) (id : Text) (st : RouteState) (p : Round) (o : RouteOutcome) (st' : RouteState)
      → (r.require_eip1898 ≡ false) ⊎ ((t : ℕ) × (env.pinned t id ≡ true))
      → call_candidate env r id st p ≡ finish o st'
      → Ends r o
  unfolding call_candidate
  call_candidate-Ends r id st p o st' proved h =
      let (held, tick) = verify_evm_boundaries env id r.verify_boundaries st.tick in
      let after = record st { tick = tick + 1 } in
      elim (Bool-cases held) [
        | inr broken ↦ absurd (ground arith)
        | inl before ↦ elim (CallReply-cases (env.call tick id)) [
          | inl failed' ↦ absurd (ground arith)
          | inr (inl (e, got)) ↦
              let is : o ≡ refused e id =
                take_error-inv r id e after p o st' (rw (before, got, call_candidate) at h) in
              rw is (tick, got)
          | inr (inr (answer, got)) ↦
              let (verified, judged, done) =
                take_result-inv r id answer after p o st' (rw (before, got, call_candidate) at h) in
              let (is, shown) = accept-inv r id answer after p o st' done in
              rw is (
                tick,
                answer,
                got,
                refl,
                proved,
                is_verified-inv r answer (tick + 1) verified,
                judge_receipt-Visible r answer judged,
                verify_evm_boundaries-All id r.verify_boundaries (tick + 1) shown,
              )
        ]
      ]

  considered-proved :
      (r : Prepared) (id : Text) (st : RouteState)
      → is_passed_over env r id st ≡ false
      → (r.require_eip1898 ≡ false) ⊎ ((t : ℕ) × (env.pinned t id ≡ true))
  unfolding is_passed_over
  considered-proved r id st h = elim (Bool-cases r.require_eip1898) [
    | inr plain' ↦ inl plain'
    | inl pins ↦ inr (st.tick, ground arith)
  ]

  attempt-inv :
      (r : Prepared) (id : Text) (st : RouteState) (p : Round) (o : RouteOutcome) (st' : RouteState)
      → attempt env r id st p ≡ finish o st'
      → (is_passed_over env r id st ≡ false)
        × ((before : RouteState) × (q : Round) × (call_candidate env r id before q ≡ finish o st'))
  unfolding attempt
  attempt-inv r id st p o st' h =
      let seen = has_target env r id st in
      let st1 = seen.1 in
      let before = record st1 { attempted = id ∷ st1.attempted } in
      let counted = record p { eligible = p.eligible + 1 } in
      elim (Bool-cases (is_passed_over env r id st)) [
        | inl passed ↦ absurd (ground arith)
        | inr considered ↦ elim (Option-cases seen.0) [
          | inl failed' ↦ absurd (ground arith)
          | inr (false, lacking) ↦ absurd (ground arith)
          | inr (true, has) ↦ (considered, (before, counted, rw (considered, has, attempt) at h))
        ]
      ]

  attempt-Ends :
      (r : Prepared) (id : Text) (st : RouteState) (p : Round) (o : RouteOutcome) (st' : RouteState)
      → attempt env r id st p ≡ finish o st'
      → Ends r o
  attempt-Ends r id st p o st' h =
      let (considered, (before, q, call)) = attempt-inv r id st p o st' h in
      call_candidate-Ends r id before q o st' (considered-proved r id st considered) call

  pub try_candidates-Ends :
      (r : Prepared) (us : List Upstream) (st : RouteState) (p : Round) (o : RouteOutcome)
      (st' : RouteState)
      → try_candidates env r us st p ≡ finish o st'
      → Ends r o
  unfolding try_candidates
  try_candidates-Ends r [] st p o st' h = absurd (ground arith)
  try_candidates-Ends r (u ∷ us) st p o st' h = elim (Turn-cases (attempt env r u.id st p)) [
    | inl (st1, p1, more) ↦ try_candidates-Ends r us st1 p1 o st' (rw (more, try_candidates) at h)
    | inr (o1, st1, done) ↦
        let same : finish o1 st1 ≡ finish o st' = rw (done, try_candidates) at h in
        attempt-Ends r u.id st p o st' (done ∙ same)
  ]

  -- A round that ends no read ends it by no answer either.
  conclude-inv :
      (r : Prepared) (count : ℕ) (st : RouteState) (p : Round) (o : RouteOutcome)
      → conclude env r count st p ≡ some o
      → (o ≡ null_receipt p.null_receipt_upstream) ⊎ (o ≡ unavailable)
  unfolding conclude
  conclude-inv r count st p o h =
      elim (Bool-cases (not (is_empty r.receipt_hash) && ltb 0 (length st.attempted))) [
        | inr reading ↦ inr (ground arith)
        | inl receipt ↦ elim (Bool-cases (ltb 0 p.null_receipts && p.null_receipts == p.eligible)) [
          | inl agreed ↦ inl (ground arith)
          | inr apart ↦ inr (ground arith)
        ]
      ]

  -- An answer that `route` gives is backed by the upstream that it names: the upstream gave it in a
  -- call, has proved the pinned reads of the method if the read needs them, and has shown every
  -- boundary; the answer passes the verification against the read's target, and a receipt is one of the
  -- requested transaction in a block at or below the target.
  pub route-IsBacked :
      (waits : ℕ) (r : Prepared) (st : RouteState) (bytes id : Text)
      → (route env waits r st).0 ≡ answered bytes id
      → IsBacked r bytes id
  unfolding route
  route-IsBacked zero r st bytes id h =
      let all = route_candidates env r st.tick in
      elim (Turn-cases (try_candidates env r all st new_round)) [
        | inr (o, st1, done) ↦
            let same : o ≡ answered bytes id = rw (done, route) at h in
            rw same at (try_candidates-Ends r all st new_round o st1 done)
        | inl (st1, p, more) ↦ elim (Option-cases (conclude env r (length all) st1 p)) [
          | inl open' ↦ absurd (ground arith)
          | inr (o, over) ↦ elim (conclude-inv r (length all) st1 p o over) [
            | inl null' ↦ absurd (ground arith)
            | inr none' ↦ absurd (ground arith)
          ]
        ]
      ]
  route-IsBacked (suc waits) r st bytes id h =
      let all = route_candidates env r st.tick in
      elim (Turn-cases (try_candidates env r all st new_round)) [
        | inr (o, st1, done) ↦
            let same : o ≡ answered bytes id = rw (done, route) at h in
            rw same at (try_candidates-Ends r all st new_round o st1 done)
        | inl (st1, p, more) ↦ elim (Option-cases (conclude env r (length all) st1 p)) [
          | inl open' ↦
              route-IsBacked waits r (record st1 { tick = st1.tick + 1 }) bytes id
                (rw (more, open', route) at h)
          | inr (o, over) ↦ elim (conclude-inv r (length all) st1 p o over) [
            | inl null' ↦ absurd (ground arith)
            | inr none' ↦ absurd (ground arith)
          ]
        ]
      ]
