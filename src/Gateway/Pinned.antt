-- ===== src/Gateway/Pinned.antt =====
-- `transformEVMRequest` of internal/gateway/transform.go: what every prepared read of an EVM chain is
-- pinned to.
use rpc_proxy.Prelude.{
  ℕ, zero, suc, ◌+◌, ◌≤◌, ◌≡◌, ◌⊎◌, inl, inr, refl, Bool, true, false, Option-cases, Result-cases,
  Option, some, List, [], ◌∷◌, Text, codes, ok, arith,
}
use rpc_proxy.Quantity.{is_evm_hash}
use rpc_proxy.Head.{Head, Snapshot, latest, explicit, get_head}
use rpc_proxy.Chain.Defs.{decode_string}
use rpc_proxy.Chain.Reader.{BlockReader}
use rpc_proxy.Chain.Links.{Linked}
use rpc_proxy.Chain.Blocks.{
  ChainConfig, get_required_head, get_evm_block_by_quantity, get_evm_block, BlockReference, missing,
  undecodable, tag, identifier,
}
use rpc_proxy.Chain.Pinning.{get_evm_block_by_quantity-Linked}
use rpc_proxy.Gateway.Registry.{BlockMethod}
use rpc_proxy.Gateway.Requests.{
  Filter, Param, json_string, block_identifier, Prepared, pad, param_at, set_param, reference_of,
  string_of, get_snapshot_head, get_target, prepare_state, prepare_block, prepare_block_number,
  prepare_fee_history,
}
use rpc_proxy.Gateway.Dispatch.{
  explicit_head, prepare_log_hash, prepare_log_block, prepare_receipt, prepare_explicit,
}

pub param_at-set_param :
    (i : ℕ) (q p : Param) (ps : List Param)
    → param_at i ps ≡ some p
    → param_at i (set_param i q ps) ≡ some q
unfolding param_at set_param
param_at-set_param i q p [] h = absurd (ground arith)
param_at-set_param zero q p (r ∷ ps) h = refl
param_at-set_param (suc i) q p (r ∷ ps) h = param_at-set_param i q p ps h

module _ (reader : BlockReader) (config : ChainConfig) (snapshot : Snapshot) (now : ℕ) where
  -- What pins a read: the accepted head of the snapshot, a block on its parent chain within the
  -- configured depth, or a block that the caller names by its hash.
  abbrev pub Anchored : Head → Type 0
  Anchored target =
      (get_head snapshot latest ≡ some target)
      ⊎ ((accepted : Head) × (found : Head) × (get_head snapshot latest ≡ some accepted)
          × (accepted.reorg_pending ≡ false)
          × Linked accepted found
          × (target ≡ record found { commitment = explicit })
          × (accepted.number ≤ target.number + config.reorg_depth))
      ⊎ ((is_evm_hash target.hash ≡ true) × (target.commitment ≡ explicit))

  pub required-Anchored :
      (target : Head) → get_required_head snapshot latest ≡ ok target → Anchored target
  unfolding get_required_head
  required-Anchored target h = inl (ground arith)

  pub quantity-Anchored :
      (quantity : Text) (tick : ℕ) (target : Head)
      → (get_evm_block_by_quantity reader config quantity snapshot tick).0 ≡ ok target
      → Anchored target
  quantity-Anchored quantity tick target h =
      let (accepted, found, stored, free, linked, same, parsed, near) =
        get_evm_block_by_quantity-Linked reader config quantity snapshot tick target h in
      inr (inl (accepted, found, stored, free, linked, same, near))

  pub tag-inv :
      (name : Text) (tick : ℕ) (target : Head)
      → (get_evm_block reader config (tag name) snapshot now tick).0 ≡ ok target
      → (get_required_head snapshot latest ≡ ok target)
        ⊎ ((get_evm_block_by_quantity reader config (codes "0x0") snapshot tick).0 ≡ ok target)
        ⊎ ((get_evm_block_by_quantity reader config name snapshot tick).0 ≡ ok target)
  unfolding get_evm_block
  tag-inv name tick target h = ground arith

  pub identifier-inv :
      (hash number : Text) (canonical : Option Bool) (tick : ℕ) (target : Head)
      → (get_evm_block reader config (identifier hash number canonical) snapshot now tick).0
        ≡ ok target
      → ((is_evm_hash target.hash ≡ true) × (target.commitment ≡ explicit))
        ⊎ ((get_evm_block_by_quantity reader config number snapshot tick).0 ≡ ok target)
  unfolding get_evm_block
  identifier-inv hash number canonical tick target h = ground arith

  pub get_evm_block-Anchored :
      (reference : BlockReference) (tick : ℕ) (target : Head)
      → (get_evm_block reader config reference snapshot now tick).0 ≡ ok target
      → Anchored target
  get_evm_block-Anchored missing tick target h =
      required-Anchored target (unfold get_evm_block in ground arith)
  get_evm_block-Anchored undecodable tick target h = unfold get_evm_block in absurd (ground arith)
  get_evm_block-Anchored (tag name) tick target h = elim (tag-inv name tick target h) [
    | inl required ↦ required-Anchored target required
    | inr (inl found) ↦ quantity-Anchored (codes "0x0") tick target found
    | inr (inr found) ↦ quantity-Anchored name tick target found
  ]
  get_evm_block-Anchored (identifier hash number canonical) tick target h =
      elim (identifier-inv hash number canonical tick target h) [
        | inl named ↦ inr (inr named)
        | inr found ↦ quantity-Anchored number tick target found
      ]

  pub get_target-Anchored :
      (p : Param) (tick : ℕ) (target : Head)
      → (get_target reader config snapshot now p tick).0 ≡ ok target
      → Anchored target
  get_target-Anchored p tick target h =
      get_evm_block-Anchored (reference_of p) tick target (unfold get_target in ground arith)

  pub prepare_state-inv :
      (method : Text) (index : ℕ) (ps : List Param) (tick : ℕ) (r : Prepared)
      → (prepare_state reader config snapshot now method index ps tick).0 ≡ ok r
      → (p : Param) × (param_at index (pad index ps) ≡ some p)
        × (target : Head) × ((get_target reader config snapshot now p tick).0 ≡ ok target)
        × (r.method ≡ method)
        × (r.target ≡ some target)
        × (r.require_eip1898 ≡ true)
        × (r.parameters ≡ set_param index (block_identifier target.hash) (pad index ps))
  unfolding prepare_state
  prepare_state-inv method index ps tick r h = elim (Option-cases (param_at index (pad index ps))) [
    | inl lost ↦ absurd (ground arith)
    | inr (p, found) ↦ elim (Result-cases (get_target reader config snapshot now p tick).0) [
      | inr (x, failed) ↦ absurd (ground arith)
      | inl (target, got) ↦
          (p, found, target, got, ground arith, ground arith, ground arith, ground arith)
    ]
  ]

  -- A prepared read that has a target, which pins it.
  abbrev pub IsPinned : Prepared → Type 0
  IsPinned r = (target : Head) × (r.target ≡ some target) × Anchored target

  pub snapshot-Anchored :
      (target : Head) → get_snapshot_head snapshot latest ≡ ok target → Anchored target
  unfolding get_snapshot_head
  snapshot-Anchored target h = inl (ground arith)

  pub prepare_block-inv :
      (method : BlockMethod) (ps : List Param) (tick : ℕ) (r : Prepared)
      → (prepare_block reader config snapshot now method ps tick).0 ≡ ok r
      → (p : Param) × (param_at method.block_index ps ≡ some p)
        × (target : Head) × ((get_target reader config snapshot now p tick).0 ≡ ok target)
        × (r.method ≡ method.replacement)
        × (r.target ≡ some target)
        × (r.parameters ≡ set_param method.block_index (json_string target.hash) ps)
  unfolding prepare_block
  prepare_block-inv method ps tick r h = elim (Option-cases (param_at method.block_index ps)) [
    | inl lost ↦ absurd (ground arith)
    | inr (p, found) ↦ elim (Result-cases (get_target reader config snapshot now p tick).0) [
      | inr (x, failed) ↦ absurd (ground arith)
      | inl (target, got) ↦ (p, found, target, got, ground arith, ground arith, ground arith)
    ]
  ]

  pub prepare_fee_history-IsPinned :
      (method : Text) (ps : List Param) (tick : ℕ) (r : Prepared)
      → (prepare_fee_history reader config snapshot now method ps tick).0 ≡ ok r
      → IsPinned r
  unfolding prepare_fee_history
  prepare_fee_history-IsPinned method ps tick r h = elim (Option-cases (param_at 1 ps)) [
    | inl lost ↦ absurd (ground arith)
    | inr (p, found) ↦ elim (Option-cases (string_of p)) [
      | inl other ↦ absurd (ground arith)
      | inr (newest, named) ↦ elim (Result-cases (get_target reader config snapshot now p tick).0) [
        | inr (x, failed) ↦ absurd (ground arith)
        | inl (target, got) ↦ (target, ground arith, get_target-Anchored p tick target got)
      ]
    ]
  ]

  pub prepare_block_number-IsPinned :
      (method : Text) (ps : List Param) (r : Prepared)
      → prepare_block_number reader config snapshot now method ps ≡ ok r
      → IsPinned r
  unfolding prepare_block_number
  prepare_block_number-IsPinned method (p ∷ ps) r h = absurd (ground arith)
  prepare_block_number-IsPinned method [] r h =
      elim (Result-cases (get_snapshot_head snapshot latest)) [
        | inr (x, failed) ↦ absurd (ground arith)
        | inl (target, got) ↦ (target, ground arith, snapshot-Anchored target got)
      ]

  pub prepare_receipt-IsPinned :
      (method : Text) (ps : List Param) (r : Prepared)
      → prepare_receipt reader config snapshot now method ps ≡ ok r
      → IsPinned r
  unfolding prepare_receipt
  prepare_receipt-IsPinned method [] r h = absurd (ground arith)
  prepare_receipt-IsPinned method (p ∷ q ∷ ps) r h = absurd (ground arith)
  prepare_receipt-IsPinned method (p ∷ []) r h =
      elim (Result-cases (get_snapshot_head snapshot latest)) [
        | inr (x, failed) ↦ absurd (ground arith)
        | inl (target, got) ↦ (target, ground arith, snapshot-Anchored target got)
      ]

  pub prepare_explicit-IsPinned :
      (method : Text) (ps : List Param) (r : Prepared)
      → prepare_explicit reader config snapshot now method ps ≡ ok r
      → IsPinned r
  unfolding prepare_explicit
  prepare_explicit-IsPinned method [] r h = absurd (ground arith)
  prepare_explicit-IsPinned method (p ∷ ps) r h = elim (Option-cases (string_of p)) [
    | inl other ↦ absurd (ground arith)
    | inr (hash, named) ↦
        (explicit_head config.name hash, ground arith, inr (inr (ground arith, refl)))
  ]

  pub prepare_log_hash-IsPinned :
      (p : Param) (filter : Filter) (r : Prepared)
      → prepare_log_hash reader config snapshot now p filter ≡ ok r
      → IsPinned r
  unfolding prepare_log_hash
  prepare_log_hash-IsPinned p filter r h = elim (Option-cases (decode_string filter.block_hash)) [
    | inl other ↦ absurd (ground arith)
    | inr (hash, named) ↦
        (explicit_head config.name hash, ground arith, inr (inr (ground arith, refl)))
  ]

  pub prepare_log_block-IsPinned :
      (filter : Filter) (selector : Text) (tick : ℕ) (r : Prepared)
      → (prepare_log_block reader config snapshot now filter selector tick).0 ≡ ok r
      → IsPinned r
  unfolding prepare_log_block
  prepare_log_block-IsPinned filter selector tick r h =
      elim (Result-cases (get_target reader config snapshot now (json_string selector) tick).0) [
        | inr (x, failed) ↦ absurd (ground arith)
        | inl (target, got) ↦
            (target, ground arith, get_target-Anchored (json_string selector) tick target got)
      ]
