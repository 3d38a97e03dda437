-- ===== src/Chain/Blocks.antt =====
-- internal/chain/runtime.go: `GetEVMBlock`, the header that pins a request. The context's deadline
-- is one of the errors that a read may return.
use rpc_proxy.Prelude.{
  ℕ, zero, suc, ◌-◌, Bool, false, not, ◌&&◌, ◌||◌, Option, none, some, ltb, ◌==◌, if◌then◌else◌,
  Text, codes, text_eq, is_empty, Result, ok, err,
}
use rpc_proxy.Quantity.{parse_evm_quantity, is_evm_hash}
use rpc_proxy.Head.{
  Head, zero_head, Snapshot, get_head, is_zero, evm, latest, safe, finalized, explicit,
}
use rpc_proxy.Chain.Defs.{
  ChainError, BlockRequest, block_unavailable, invalid_reference, unsupported_reference,
  discontinuous, exhausted,
}
use rpc_proxy.Chain.Reader.{BlockReader}

-- A block parameter as `json.Unmarshal` decodes it: absent or null, a string, an EIP-1898 object
-- (an absent string is empty), or anything else.
pub data BlockReference : Type 0 where
  missing undecodable : BlockReference
  tag : Text → BlockReference
  identifier : Text → Text → Option Bool → BlockReference

-- `getRequiredHead`.
unfoldable pub get_required_head : Snapshot → Text → Result ChainError Head
get_required_head snapshot commitment = elim (get_head snapshot commitment) [
  | none ↦ err block_unavailable
  | some accepted ↦ if is_zero accepted then err block_unavailable else ok accepted
]

-- The chain's settings that the runtime reads; validation makes the depth positive.
pub record ChainConfig : Type 0 where
  pub name : Text
  pub reorg_depth : ℕ

-- The lookup of a header's parent, at the header's own upstream first.
abbrev pub parent_request : Text → Head → BlockRequest
parent_request commitment child = record {
  hash = child.parent_hash;
  commitment = commitment;
  preferred = child.origin;
}

module _ (reader : BlockReader) where
  -- The loop of `getEVMBlockByQuantity`. Each round goes one block down, so the fuel is the distance.
  unfoldable pub walk : ℕ → ℕ → Head → ℕ → Result ChainError Head × ℕ
  walk zero number cursor tick =
      if ltb number cursor.number then (err exhausted, tick) else (ok cursor, tick)
  walk (suc fuel) number cursor tick =
      let (reply, tick') = reader.read (parent_request explicit cursor) tick in
      let next : Result ChainError Head × ℕ = elim reply [
        | err _ ↦ (err block_unavailable, tick')
        | ok parent ↦
            let deeper = walk fuel number parent tick' in
            if parent.number == cursor.number - 1 then deeper else (err discontinuous, tick')
      ] in
      if ltb number cursor.number then next else (ok cursor, tick)

  -- `getEVMBlockByQuantity`.
  unfoldable pub get_evm_block_by_quantity :
      ChainConfig → Text → Snapshot → ℕ → Result ChainError Head × ℕ
  get_evm_block_by_quantity config quantity snapshot tick = elim (parse_evm_quantity quantity) [
    | err _ ↦ (err invalid_reference, tick)
    | ok number ↦ elim (get_required_head snapshot latest) [
      | err e ↦ (err e, tick)
      | ok accepted ↦
          let (found, tick') = walk (accepted.number - number) number accepted tick in
          if accepted.reorg_pending || ltb accepted.number number
          then (err block_unavailable, tick)
          else if ltb config.reorg_depth (accepted.number - number)
          then (err block_unavailable, tick)
          else (
            elim found [ ok block ↦ ok (record block { commitment = explicit }) | err e ↦ err e ],
            tick',
          )
    ]
  ]

  -- `GetEVMBlock`.
  unfoldable pub get_evm_block :
      ChainConfig → BlockReference → Snapshot → ℕ → ℕ → Result ChainError Head × ℕ
  get_evm_block config missing snapshot now tick = (get_required_head snapshot latest, tick)
  get_evm_block config undecodable snapshot now tick = (err invalid_reference, tick)
  get_evm_block config (tag name) snapshot now tick =
      if text_eq name latest
      then (get_required_head snapshot latest, tick)
      else if text_eq name safe || text_eq name finalized || text_eq name (codes "pending")
      then (err unsupported_reference, tick)
      else if text_eq name (codes "earliest")
      then get_evm_block_by_quantity config (codes "0x0") snapshot tick
      else get_evm_block_by_quantity config name snapshot tick
  get_evm_block config (identifier hash number canonical) snapshot now tick =
      let inconsistent : Bool = elim canonical [ none ↦ false | some _ ↦ is_empty hash ] in
      if not (is_empty hash) && not (is_empty number) || inconsistent
      then (err invalid_reference, tick)
      else if not (is_empty hash)
      then if is_evm_hash hash
        then (
          ok (record zero_head {
            chain = config.name;
            family = evm;
            commitment = explicit;
            hash = hash;
            observed_at = now;
          }),
          tick,
        )
        else (err invalid_reference, tick)
      else if is_empty number
      then (err invalid_reference, tick)
      else get_evm_block_by_quantity config number snapshot tick
