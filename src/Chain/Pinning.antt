-- ===== src/Chain/Pinning.antt =====
-- `GetEVMBlock`: a selected block lies on the accepted head's own chain.
use rpc_proxy.Prelude.{
  ℕ, zero, suc, ◌+◌, ◌-◌, ◌≤◌, ◌<◌, ◌≡◌, ◌≢◌, false, some, ltb, Text, ok, err, arith, Bool-cases,
  inl, inr, ltb→lt,
}
use rpc_proxy.Quantity.{parse_evm_quantity}
use rpc_proxy.Head.{Head, Snapshot, get_head, is_zero, latest, explicit}
use rpc_proxy.Chain.Defs.{exhausted}
use rpc_proxy.Chain.Reader.{BlockReader}
use rpc_proxy.Chain.Links.{Linked, here, up}
use rpc_proxy.Chain.Blocks.{
  ChainConfig, get_required_head, walk, parent_request, get_evm_block_by_quantity,
}

module _ (reader : BlockReader) where
  walk-step :
      (fuel number : ℕ) (cursor : Head) (tick : ℕ) (block : Head)
      → number < cursor.number
      → (walk reader (suc fuel) number cursor tick).0 ≡ ok block
      → let request = parent_request explicit cursor in
        (parent : Head) × ((reader.read request tick).0 ≡ ok parent)
        × (parent.number + 1 ≡ cursor.number)
        × ((walk reader fuel number parent (reader.read request tick).1).0 ≡ ok block)
  unfolding walk
  walk-step fuel number cursor tick block deep h = ground arith

  walk_done :
      (fuel number : ℕ) (cursor : Head) (tick : ℕ) (block : Head)
      → cursor.number ≤ number
      → (walk reader fuel number cursor tick).0 ≡ ok block
      → cursor ≡ block
  unfolding walk
  walk_done zero number cursor tick block deep h = ground arith
  walk_done (suc fuel) number cursor tick block deep h = ground arith

  walk-Linked :
      (fuel number : ℕ) (start cursor : Head) (tick : ℕ) (block : Head)
      → Linked start cursor
      → number ≤ cursor.number
      → (walk reader fuel number cursor tick).0 ≡ ok block
      → Linked start block × (block.number ≡ number)
  walk-Linked zero number start cursor tick block l b h =
      elim (Bool-cases (ltb number cursor.number)) [
        | inl deep ↦ unfold walk in absurd (ground arith)
        | inr level ↦
            let e = walk_done zero number cursor tick block (ground arith) h in
            rw (← e) (l, ground arith)
      ]
  walk-Linked (suc fuel) number start cursor tick block l b h =
      elim (Bool-cases (ltb number cursor.number)) [
        | inl deep ↦
            let (parent, reply, below, rest) =
              walk-step fuel number cursor tick block (ltb→lt number cursor.number deep) h in
            let request = parent_request explicit cursor in
            walk-Linked fuel number start parent (reader.read request tick).1 block
              (up l (reader.read-hash request tick parent reply) below) (ground arith) rest
        | inr level ↦
            let e = walk_done (suc fuel) number cursor tick block (ground arith) h in
            rw (← e) (l, ground arith)
      ]

  walk-step_exhausted :
      (fuel number : ℕ) (cursor : Head) (tick : ℕ)
      → (walk reader (suc fuel) number cursor tick).0 ≡ err exhausted
      → let request = parent_request explicit cursor in
        (parent : Head) × ((reader.read request tick).0 ≡ ok parent)
        × (parent.number + 1 ≡ cursor.number)
        × ((walk reader fuel number parent (reader.read request tick).1).0 ≡ err exhausted)
  unfolding walk
  walk-step_exhausted fuel number cursor tick h = ground arith

  -- A walk whose fuel is at least the distance of the heights never runs out of it.
  pub walk-ne-exhausted :
      (fuel number : ℕ) (cursor : Head) (tick : ℕ)
      → cursor.number ≤ number + fuel
      → (walk reader fuel number cursor tick).0 ≢ err exhausted
  walk-ne-exhausted zero number cursor tick b h = unfold walk in ground arith
  walk-ne-exhausted (suc fuel) number cursor tick b h =
      let (parent, reply, below, rest) = walk-step_exhausted fuel number cursor tick h in
      let request = parent_request explicit cursor in
      walk-ne-exhausted fuel number parent (reader.read request tick).1 (omega arith) rest

  get_required_head-inv :
      (snapshot : Snapshot) (commitment : Text) (accepted : Head)
      → get_required_head snapshot commitment ≡ ok accepted
      → (get_head snapshot commitment ≡ some accepted) × (is_zero accepted ≡ false)
  unfolding get_required_head
  get_required_head-inv snapshot commitment accepted h = ground arith

  quantity-inv :
      (config : ChainConfig) (quantity : Text) (snapshot : Snapshot) (tick : ℕ) (block : Head)
      → (get_evm_block_by_quantity reader config quantity snapshot tick).0 ≡ ok block
      → (number : ℕ) × (accepted : Head) × (found : Head) × (parse_evm_quantity quantity
          ≡ ok number)
        × (get_required_head snapshot latest ≡ ok accepted)
        × (accepted.reorg_pending ≡ false)
        × (number ≤ accepted.number)
        × (accepted.number - number ≤ config.reorg_depth)
        × ((walk reader (accepted.number - number) number accepted tick).0 ≡ ok found)
        × (block ≡ record found { commitment = explicit })
  unfolding get_evm_block_by_quantity
  quantity-inv config quantity snapshot tick block h = ground arith

  pub get_evm_block_by_quantity-Linked :
      (config : ChainConfig) (quantity : Text) (snapshot : Snapshot) (tick : ℕ) (block : Head)
      → (get_evm_block_by_quantity reader config quantity snapshot tick).0 ≡ ok block
      → (accepted : Head) × (found : Head) × (get_head snapshot latest ≡ some accepted)
        × (accepted.reorg_pending ≡ false)
        × Linked accepted found
        × (block ≡ record found { commitment = explicit })
        × (parse_evm_quantity quantity ≡ ok block.number)
        × (accepted.number ≤ block.number + config.reorg_depth)
  get_evm_block_by_quantity-Linked config quantity snapshot tick block h =
      let (number, accepted, found, parsed, required, free, below, near, walked, e) =
        quantity-inv config quantity snapshot tick block h in
      let (linked, level) =
        walk-Linked (accepted.number - number) number accepted accepted tick found here below
          walked in
      let (stored, nonzero) = get_required_head-inv snapshot latest accepted required in
      let height : block.number ≡ number = rw e level in
      (accepted, found, stored, free, linked, e, rw height parsed, rw height (omega arith))
