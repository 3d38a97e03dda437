-- ===== src/Gateway/Nulls.antt =====
-- `route` of internal/gateway/router.go: when it answers that a receipt is `null`.
use rpc_proxy.Prelude.{
  ℕ, zero, suc, ◌+◌, ◌≤◌, ◌<◌, ◌≡◌, ◌⊎◌, refl, sym, ap, ◌∙◌, true, false, not, ◌&&◌, none, some,
  List, [], ◌∷◌, ltb, ◌==◌, length, All, Text, is_empty, arith, inl, inr, Bool-cases, Option-cases,
  List-cases,
}
use rpc_proxy.Head.{Head}
use rpc_proxy.Chain.Defs.{Upstream}
use rpc_proxy.Gateway.Requests.{Prepared}
use rpc_proxy.Gateway.Route.{
  CallError, method_not_found, server_unavailable, Answer, call_error, call_result, RouteEnv,
  RouteState, Round, new_round, RouteOutcome, null_receipt, Turn, next, finish, invalidate,
  ReceiptVerdict, visible, null_or_future, invalid, get_evm_receipt_block, judge_receipt,
  verify_evm_boundaries, is_verified, accept, take_result, take_error, call_candidate, has_target,
  is_passed_over, attempt, try_candidates, route_candidates, conclude, route,
  is_unavailable_rpc_error,
}
use rpc_proxy.Gateway.Routed.{Turn-cases, CallReply-cases, ErrorCode-cases, try_candidates-Ends}

-- The result is `null`, or the receipt's block is above the accepted head.
abbrev pub NullOrFuture : Prepared → Answer → Type 0
NullOrFuture r answer =
    (answer.payload.is_null ≡ true)
    ⊎ ((target : Head) × (number : ℕ) × (hash : Text) × (r.target ≡ some target)
        × (get_evm_receipt_block answer.receipt r.receipt_hash ≡ some (number, hash))
        × (target.number < number))

judge_receipt-NullOrFuture :
    (r : Prepared) (answer : Answer)
    → judge_receipt r answer ≡ null_or_future
    → NullOrFuture r answer
unfolding judge_receipt
judge_receipt-NullOrFuture r answer h = elim (Bool-cases answer.payload.is_null) [
  | inl null' ↦ inl null'
  | inr present ↦ elim (Option-cases (get_evm_receipt_block answer.receipt r.receipt_hash)) [
    | inl bad ↦ absurd (ground arith)
    | inr ((number, hash), block) ↦ elim (Option-cases r.target) [
      | inl untargeted ↦ absurd (ground arith)
      | inr (target, aimed) ↦ inr (target, number, hash, aimed, block, ground arith)
    ]
  ]
]

server_unavailable-unavailable :
    (e : CallError) → e.code ≡ server_unavailable → is_unavailable_rpc_error e ≡ true
unfolding is_unavailable_rpc_error
server_unavailable-unavailable e down = rw down refl

ReceiptVerdict-cases : (v : ReceiptVerdict) → (v ≡ visible) ⊎ (v ≡ null_or_future) ⊎ (v ≡ invalid)
ReceiptVerdict-cases visible = inl refl
ReceiptVerdict-cases null_or_future = inr (inl refl)
ReceiptVerdict-cases invalid = inr (inr refl)

invalidate-attempted :
    (r : Prepared) (id : Text) (st : RouteState) → (invalidate r id st).attempted ≡ st.attempted
unfolding invalidate
invalidate-attempted r id st = elim (Option-cases r.target) [
  | inl untargeted ↦ rw untargeted refl
  | inr (target, aimed) ↦ rw aimed refl
]

abbrev ended : RouteOutcome → RouteState → RouteOutcome × RouteState
ended o st = (o, st)

module _ (env : RouteEnv) (r : Prepared) where
  -- The upstream has shown no receipt that the request may see: it does not know the method, or it has
  -- answered that there is none, or none yet.
  abbrev pub SaysNothing : Text → Type 0
  SaysNothing id =
      (tick : ℕ) × (((e : CallError) × (env.call tick id ≡ call_error e)
          × (e.code ≡ method_not_found))
        ⊎ ((answer : Answer) × (env.call tick id ≡ call_result answer) × NullOrFuture r answer))

  -- The counters of a round: as many upstreams as are counted may have said nothing, and if all have,
  -- each of those that were asked has.
  pub record Tally (st : RouteState) (p : Round) : Type 0 where
    pub fewer : p.null_receipts ≤ p.eligible
    pub told : (p.null_receipts < p.eligible) ⊎ All SaysNothing st.attempted

  -- How a candidate that was asked changes the counters: it is counted and has said something or
  -- failed, it does not know the method and is not counted, or it has answered that there is nothing.
  abbrev Counts : Text → Round → Round → Type 0
  Counts id p p' =
      ((p'.null_receipts ≡ p.null_receipts) × (p'.eligible ≡ p.eligible + 1))
      ⊎ (SaysNothing id × (p'.null_receipts ≡ p.null_receipts) × (p'.eligible ≡ p.eligible))
      ⊎ (SaysNothing id × (p'.null_receipts ≡ p.null_receipts + 1) × (p'.eligible ≡ p.eligible + 1))

  extend-All :
      (id : Text) (old st : RouteState)
      → st.attempted ≡ id ∷ old.attempted
      → SaysNothing id
      → All SaysNothing old.attempted
      → All SaysNothing st.attempted
  extend-All id old st asked silent before = rw asked (silent, before)

  extend-told :
      (id : Text) (old st : RouteState) (p p' : Round)
      → st.attempted ≡ id ∷ old.attempted
      → SaysNothing id
      → (p.null_receipts < p.eligible → p'.null_receipts < p'.eligible)
      → (p.null_receipts < p.eligible) ⊎ All SaysNothing old.attempted
      → (p'.null_receipts < p'.eligible) ⊎ All SaysNothing st.attempted
  extend-told id old st p p' asked silent keeps (inl less) = inl (keeps less)
  extend-told id old st p p' asked silent keeps (inr before) =
      inr (extend-All id old st asked silent before)

  Counts-Tally :
      (id : Text) (old st : RouteState) (p p' : Round)
      → Tally old p
      → st.attempted ≡ id ∷ old.attempted
      → Counts id p p'
      → Tally st p'
  Counts-Tally id old st p p' t asked (inl (same, more)) =
      let fewer = t.fewer in record { fewer = omega arith; told = inl (omega arith) }
  Counts-Tally id old st p p' t asked (inr (inl (silent, same, held))) =
      let fewer = t.fewer in
      record {
        fewer = omega arith;
        told = extend-told id old st p p' asked silent (λ less. omega arith) t.told;
      }
  Counts-Tally id old st p p' t asked (inr (inr (silent, one, more))) =
      let fewer = t.fewer in
      record {
        fewer = omega arith;
        told = extend-told id old st p p' asked silent (λ less. omega arith) t.told;
      }

  invalidated-inv :
      (id : Text) (st st' : RouteState) (q p' : Round)
      → Turn.next (invalidate r id st) q ≡ Turn.next st' p'
      → (st'.attempted ≡ st.attempted) × (q ≡ p')
  invalidated-inv id st st' q p' h =
      let (same, kept) : (invalidate r id st ≡ st') × (q ≡ p') = (ground arith, ground arith) in
      (ap (λ s. s.attempted) (sym same) ∙ invalidate-attempted r id st, kept)

  moved-Counts :
      (id : Text) (st st' : RouteState) (p p' : Round)
      → Turn.next (invalidate r id st) (record p { eligible = p.eligible + 1 }) ≡ Turn.next st' p'
      → (st'.attempted ≡ st.attempted) × Counts id p p'
  moved-Counts id st st' p p' h =
      let (asked, kept) = invalidated-inv id st st' (record p { eligible = p.eligible + 1 }) p' h in
      (asked, inl (ap (λ q. q.null_receipts) (sym kept), ap (λ q. q.eligible) (sym kept)))

  take_error-Counts :
      (id : Text) (e : CallError) (tick : ℕ) (st st' : RouteState) (p p' : Round)
      → is_empty r.receipt_hash ≡ false
      → env.call tick id ≡ call_error e
      → take_error env r id e st (record p { eligible = p.eligible + 1 }) ≡ next st' p'
      → (st'.attempted ≡ st.attempted) × Counts id p p'
  unfolding take_error
  take_error-Counts id e tick st st' p p' receipt got h = elim (ErrorCode-cases e.code) [
    | inl missing ↦
        (ground arith, inr (inl ((tick, inl (e, got, missing)), ground arith, ground arith)))
    | inr (inl down) ↦
        moved-Counts id st st' p p'
          (rw (down, server_unavailable-unavailable e down, take_error) at h)
    | inr (inr other') ↦ elim (Bool-cases (is_unavailable_rpc_error e)) [
      | inl gone ↦ moved-Counts id st st' p p' (rw (other', gone, take_error) at h)
      | inr refused' ↦ absurd (ground arith)
    ]
  ]

  accept-Counts :
      (id : Text) (answer : Answer) (st st' : RouteState) (p p' : Round)
      → accept env r id answer st (record p { eligible = p.eligible + 1 }) ≡ next st' p'
      → (st'.attempted ≡ st.attempted) × Counts id p p'
  unfolding accept
  accept-Counts id answer st st' p p' h =
      let (held, tick) = verify_evm_boundaries env id r.verify_boundaries st.tick in
      elim (Bool-cases held) [
        | inl shown ↦ absurd (ground arith)
        | inr broken ↦
            moved-Counts id (record st { tick = tick }) st' p p' (rw (broken, accept) at h)
      ]

  -- A receipt's request asks every candidate.
  has_target_receipt :
      (id : Text) (st : RouteState)
      → is_empty r.receipt_hash ≡ false
      → has_target env r id st ≡ (some true, st)
  unfolding has_target
  has_target_receipt id st receipt = elim (Option-cases r.target) [
    | inl untargeted ↦ ground arith
    | inr (target, aimed) ↦ ground arith
  ]

  take_result-Counts :
      (id : Text) (answer : Answer) (tick : ℕ) (st st' : RouteState) (p p' : Round)
      → env.call tick id ≡ call_result answer
      → take_result env r id answer st (record p { eligible = p.eligible + 1 }) ≡ next st' p'
      → (st'.attempted ≡ st.attempted) × Counts id p p'
  unfolding take_result
  take_result-Counts id answer tick st st' p p' got h =
      elim (Bool-cases (is_verified env r answer st.tick)) [
        | inr wrong ↦ moved-Counts id st st' p p' (rw (wrong, take_result) at h)
        | inl verified ↦ elim (ReceiptVerdict-cases (judge_receipt r answer)) [
          | inl shown ↦ accept-Counts id answer st st' p p' (rw (verified, shown, take_result) at h)
          | inr (inl null') ↦ (
            ground arith,
            inr (
                inr (
                  (tick, inr (answer, got, judge_receipt-NullOrFuture r answer null')),
                  ground arith,
                  ground arith,
                )),
          )
          | inr (inr bad) ↦ (ground arith, inl (ground arith, ground arith))
        ]
      ]

  call_candidate-Counts :
      (id : Text) (st st' : RouteState) (p p' : Round)
      → is_empty r.receipt_hash ≡ false
      → call_candidate env r id st (record p { eligible = p.eligible + 1 }) ≡ next st' p'
      → (st'.attempted ≡ st.attempted) × Counts id p p'
  unfolding call_candidate
  call_candidate-Counts id st st' p p' receipt h =
      let (held, tick) = verify_evm_boundaries env id r.verify_boundaries st.tick in
      let after = record st { tick = tick + 1 } in
      elim (Bool-cases held) [
        | inr broken ↦ (ground arith, inl (ground arith, ground arith))
        | inl before ↦ elim (CallReply-cases (env.call tick id)) [
          | inl failed' ↦ (ground arith, inl (ground arith, ground arith))
          | inr (inl (e, got)) ↦
              take_error-Counts id e tick after st' p p' receipt got
                (rw (before, got, call_candidate) at h)
          | inr (inr (answer, got)) ↦
              take_result-Counts id answer tick after st' p p' got
                (rw (before, got, call_candidate) at h)
        ]
      ]

  attempt-Tally :
      (id : Text) (st st' : RouteState) (p p' : Round)
      → is_empty r.receipt_hash ≡ false
      → Tally st p
      → attempt env r id st p ≡ next st' p'
      → Tally st' p'
  unfolding attempt
  attempt-Tally id st st' p p' receipt t h = elim (Bool-cases (is_passed_over env r id st)) [
    | inl passed ↦
        let (same, kept) : (st ≡ st') × (p ≡ p') =
          let h' = rw (passed, attempt) at h in (ground arith, ground arith) in
        rw (sym same, sym kept) t
    | inr considered ↦
        let asked = has_target_receipt id st receipt in
        let (all, kept) : ((has_target env r id st).0 ≡ some true)
            × ((has_target env r id st).1 ≡ st) =
          (ap (λ x. x.0) asked, ap (λ x. x.1) asked) in
        let call = λ (s : RouteState).
          call_candidate env r id (record s { attempted = id ∷ s.attempted })
            (record p { eligible = p.eligible + 1 }) in
        let (same, counts) =
          call_candidate-Counts id (record st { attempted = id ∷ st.attempted }) st' p p' receipt
            (ap call (sym kept) ∙ (rw (considered, all, attempt) at h)) in
        Counts-Tally id st st' p p' t same counts
  ]

  try_candidates-Tally :
      (us : List Upstream) (st st' : RouteState) (p p' : Round)
      → is_empty r.receipt_hash ≡ false
      → Tally st p
      → try_candidates env r us st p ≡ next st' p'
      → Tally st' p'
  unfolding try_candidates
  try_candidates-Tally [] st st' p p' receipt t h =
      let (same, kept) : (st ≡ st') × (p ≡ p') = (ground arith, ground arith) in
      rw (sym same, sym kept) t
  try_candidates-Tally (u ∷ us) st st' p p' receipt t h =
      elim (Turn-cases (attempt env r u.id st p)) [
        | inl (st1, p1, more) ↦
            try_candidates-Tally us st1 st' p1 p' receipt
              (attempt-Tally u.id st st1 p p1 receipt t more) (rw (more, try_candidates) at h)
        | inr (o1, st1, done) ↦ absurd (ground arith)
      ]

  -- A round over candidates that no receipt's request has asked.
  new_round-Tally : (st : RouteState) → st.attempted ≡ [] → Tally st new_round
  new_round-Tally st fresh = record { fewer = omega arith; told = inr (rw fresh tt) }

  conclude_null-inv :
      (count : ℕ) (st : RouteState) (p : Round) (id : Text)
      → conclude env r count st p ≡ some (null_receipt id)
      → (0 < length st.attempted)
        × (p.null_receipts ≡ p.eligible)
        × (is_empty r.receipt_hash ≡ false)
  unfolding conclude
  conclude_null-inv count st p id h =
      elim (Bool-cases (not (is_empty r.receipt_hash) && ltb 0 (length st.attempted))) [
        | inr reading ↦ absurd (ground arith)
        | inl receipt ↦ elim (Bool-cases (ltb 0 p.null_receipts && p.null_receipts == p.eligible)) [
          | inl agreed ↦ (ground arith, ground arith, ground arith)
          | inr apart ↦ absurd (ground arith)
        ]
      ]

  unasked :
      (count : ℕ) (st : RouteState) (p : Round)
      → is_empty r.receipt_hash ≡ false
      → conclude env r count st p ≡ none
      → st.attempted ≡ []
  unfolding conclude
  unasked count st p receipt h = elim (List-cases st.attempted) [
    | inl none' ↦ none'
    | inr (id, ids, some') ↦ absurd (ground arith)
  ]

  conclude-null :
      (count : ℕ) (st : RouteState) (p : Round) (id : Text)
      → Tally st p
      → conclude env r count st p ≡ some (null_receipt id)
      → (0 < length st.attempted) × All SaysNothing st.attempted
  conclude-null count st p id t h =
      let (asked, agreed, receipt) = conclude_null-inv count st p id h in
      (asked, elim (t.told) [ inl less ↦ absurd (omega arith) | inr all ↦ all ])

  round-null :
      (us : List Upstream) (count : ℕ) (st st' : RouteState) (p : Round) (id : Text)
      → st.attempted ≡ []
      → try_candidates env r us st new_round ≡ next st' p
      → conclude env r count st' p ≡ some (null_receipt id)
      → (0 < length st'.attempted) × All SaysNothing st'.attempted
  round-null us count st st' p id fresh round over =
      let (asked, agreed, receipt) = conclude_null-inv count st' p id over in
      conclude-null count st' p id
        (try_candidates-Tally us st st' new_round p receipt (new_round-Tally st fresh) round) over

  -- No candidate ends a read by `null` for a receipt: a round does.
  round-continues :
      (us : List Upstream) (st st1 st' : RouteState) (o : RouteOutcome) (id : Text)
      → try_candidates env r us st new_round ≡ finish o st1
      → ended o st1 ≡ ended (null_receipt id) st'
      → ⊥
  round-continues us st st1 st' o id done h =
      let same : o ≡ null_receipt id = ap (λ x. x.0) h in
      rw same at (try_candidates-Ends env r us st new_round o st1 done)

  -- `null` for a receipt, by a request that has asked no upstream before: at least one upstream has been
  -- asked, and each that was asked has shown no receipt that the request may see. It does not know the
  -- method, or it has answered `null` or a receipt of a block above the accepted head.
  pub route-null :
      (waits : ℕ) (st st' : RouteState) (id : Text)
      → is_empty r.receipt_hash ≡ false
      → st.attempted ≡ []
      → route env waits r st ≡ ended (null_receipt id) st'
      → (0 < length st'.attempted) × All SaysNothing st'.attempted
  unfolding route
  route-null zero st st' id receipt fresh h =
      let all = route_candidates env r st.tick in
      elim (Turn-cases (try_candidates env r all st new_round)) [
        | inr (o, st1, done) ↦
            absurd (round-continues all st st1 st' o id done (rw (done, route) at h))
        | inl (st1, p, more) ↦ elim (Option-cases (conclude env r (length all) st1 p)) [
          | inl open' ↦ absurd (ground arith)
          | inr (o, over) ↦
              let same : ended o st1 ≡ ended (null_receipt id) st' = rw (more, over, route) at h in
              let result' : st1 ≡ st' = ap (λ x. x.1) same in
              rw (sym result') (
                round-null all (length all) st st1 p id fresh more (over ∙ ap (λ x. some x.0) same))
        ]
      ]
  route-null (suc waits) st st' id receipt fresh h =
      let all = route_candidates env r st.tick in
      elim (Turn-cases (try_candidates env r all st new_round)) [
        | inr (o, st1, done) ↦
            absurd (round-continues all st st1 st' o id done (rw (done, route) at h))
        | inl (st1, p, more) ↦ elim (Option-cases (conclude env r (length all) st1 p)) [
          | inl open' ↦
              route-null waits (record st1 { tick = st1.tick + 1 }) st' id receipt
                (unasked (length all) st1 p receipt open') (rw (more, open', route) at h)
          | inr (o, over) ↦
              let same : ended o st1 ≡ ended (null_receipt id) st' = rw (more, over, route) at h in
              let result' : st1 ≡ st' = ap (λ x. x.1) same in
              rw (sym result') (
                round-null all (length all) st st1 p id fresh more (over ∙ ap (λ x. some x.0) same))
        ]
      ]
