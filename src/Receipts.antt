-- ===== src/Receipts.antt =====
-- internal/services/receipts/receipts.go: whether a receipt's block is on the accepted head's chain.
-- `getParent` is the reader: with a response cache in front of it a header may come from an earlier
-- load of the same hash, and `done` is the request's context, asked at a tick.
use rpc_proxy.Prelude.{
  ℕ, zero, suc, ◌+◌, ◌-◌, ◌≤◌, ◌≢◌, inl, inr, Bool, false, not, ◌||◌, ltb, ◌==◌, Bool-cases,
  if◌then◌else◌, equal_fold, Result, Result-cases, ok, err, arith,
}
use rpc_proxy.Quantity.{is_evm_hash}
use rpc_proxy.Head.{Head, explicit}
use rpc_proxy.Chain.Defs.{BlockRequest}
use rpc_proxy.Chain.Reader.{BlockReader}

pub data ReceiptError : Type 0 where
  cancelled invalid_hash ancestor_unavailable discontinuous_parent out_of_rounds : ReceiptError

-- The lookup of `getParent`.
abbrev pub parent_request : Head → BlockRequest
parent_request child = record {
  hash = child.parent_hash;
  commitment = explicit;
  preferred = child.origin;
}

module _ (reader : BlockReader) (max_depth : ℕ) (done : ℕ → Bool) (block accepted : Head) where
  -- The loop of `ContainsBlock`, for as many rounds as the heights are apart.
  unfoldable pub follow : ℕ → Head → ℕ → Result ReceiptError Bool × ℕ
  follow zero cursor tick =
      if ltb block.number cursor.number
      then (err out_of_rounds, tick)
      else (ok (equal_fold cursor.hash block.hash), tick)
  follow (suc left) cursor tick =
      let reply = reader.read (parent_request cursor) tick in
      let next = λ (parent : Head). follow left parent reply.1 in
      if not (ltb block.number cursor.number)
      then (ok (equal_fold cursor.hash block.hash), tick)
      else if done tick
      then (err cancelled, tick)
      else if cursor.number - 1 == block.number
      then (ok (equal_fold cursor.parent_hash block.hash), tick)
      else elim (reply.0) [
        | err _ ↦ (err ancestor_unavailable, reply.1)
        | ok parent ↦
            if not (parent.number == cursor.number - 1)
              || not (equal_fold parent.hash cursor.parent_hash)
            then (err discontinuous_parent, reply.1)
            else next parent
      ]

  -- `ContainsBlock`.
  unfoldable pub contains_block : ℕ → Result ReceiptError Bool × ℕ
  contains_block tick =
      if done tick
      then (err cancelled, tick)
      else if not (is_evm_hash block.hash) || not (is_evm_hash accepted.hash)
      then (err invalid_hash, tick)
      else if accepted.reorg_pending
          || ltb accepted.number block.number
          || ltb max_depth (accepted.number - block.number)
      then (ok false, tick)
      else follow (accepted.number - block.number) accepted tick

  follow-rounds :
      (left : ℕ) (cursor : Head) (tick : ℕ)
      → cursor.number ≤ block.number + left
      → (follow left cursor tick).0 ≢ err out_of_rounds
  unfolding follow
  follow-rounds zero cursor tick b h = absurd (ground arith)
  follow-rounds (suc left) cursor tick b h =
      elim (Result-cases (reader.read (parent_request cursor) tick).0) [
        | inl (parent, reply) ↦ elim (Bool-cases (parent.number == cursor.number - 1)) [
          | inl level ↦
              let rest =
                follow-rounds left parent (reader.read (parent_request cursor) tick).1
                  (ground arith) in
              ground arith
          | inr apart ↦ ground arith
        ]
        | inr (x, refused) ↦ ground arith
      ]

  -- The rounds are enough: the loop ends with an answer, or with one of the errors of the source.
  contains_block-rounds : (tick : ℕ) → (contains_block tick).0 ≢ err out_of_rounds
  unfolding contains_block
  contains_block-rounds tick h =
      let enough = follow-rounds (accepted.number - block.number) accepted tick (omega arith) in
      ground arith
