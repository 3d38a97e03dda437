-- ===== src/Chain/Reader.antt =====
-- The reading of blocks by hash as an interface, which the coordinator, the receipt verifier and
-- the ancestry walks use (`blockReader` of internal/services/receipts/receipts.go), and the runtime
-- of internal/chain/runtime.go as an implementation of it.
use rpc_proxy.Prelude.{
  ℕ, ◌+◌, ◌^◌, ◌<◌, ◌≡◌, true, some, List, [], ◌∷◌, arith, Text, equal_fold, Result, ok,
  Option-cases, inl, inr,
}
use rpc_proxy.Quantity.{parse_evm_quantity, parse_bounds, is_evm_hash}
use rpc_proxy.Head.{Head}
use rpc_proxy.Chain.Defs.{
  ChainError, RawBlock, Origin, BlockRequest, World, Upstream, decode_string, parse_evm_head,
  accept_reply, try_upstreams, evm_block_by_hash, preferred_candidates, nothing, malformed, object,
  Field, result,
}

-- What every reader keeps: a block that it returns has the requested hash and a 64-bit number.
pub record BlockReader : Type 0 where
  pub read : BlockRequest → ℕ → Result ChainError Head × ℕ
  pub read-hash :
      (request : BlockRequest) (tick : ℕ) (block : Head)
      → (read request tick).0 ≡ ok block
      → equal_fold block.hash request.hash ≡ true
  pub read_bounds :
      (request : BlockRequest) (tick : ℕ) (block : Head)
      → (read request tick).0 ≡ ok block
      → block.number < 2 ^ 64

parse_evm_head-inv :
    (origin : Origin) (number hash parent : Field) (header : Text) (block : Head)
    → parse_evm_head origin (object number hash parent header) ≡ ok block
    → (q : Text) × (decode_string number ≡ some q)
      × (parse_evm_quantity q ≡ ok block.number)
      × (is_evm_hash block.hash ≡ true)
      × (is_evm_hash block.parent_hash ≡ true)
      × (block.commitment ≡ origin.commitment)
      × (block.origin ≡ origin.upstream)
unfolding parse_evm_head
parse_evm_head-inv origin number hash parent header block h = ground arith

-- A parsed header has well-formed hashes and a 64-bit number, and carries its origin.
parse_evm_head_valid :
    (origin : Origin) (raw : RawBlock) (block : Head)
    → parse_evm_head origin raw ≡ ok block
    → (is_evm_hash block.hash ≡ true)
      × (is_evm_hash block.parent_hash ≡ true)
      × (block.number < 2 ^ 64)
      × (block.commitment ≡ origin.commitment)
      × (block.origin ≡ origin.upstream)
parse_evm_head_valid origin nothing block h = unfold parse_evm_head in absurd (ground arith)
parse_evm_head_valid origin malformed block h = unfold parse_evm_head in absurd (ground arith)
parse_evm_head_valid origin (object number hash parent header) block h =
    let (q, decoded, parsed, hashed, parented, committed, from) =
      parse_evm_head-inv origin number hash parent header block h in
    (hashed, parented, parse_bounds q block.number parsed, committed, from)

module _ (w : World) (chain : Text) where
  accept_reply-inv :
      (request : BlockRequest) (u : Upstream) (tick : ℕ) (block : Head)
      → accept_reply w chain request u tick ≡ some block
      → (raw : RawBlock) × (w.by_hash tick u.id request.hash ≡ result raw)
        × (parse_evm_head
              (record {
                chain = chain;
                commitment = request.commitment;
                upstream = u.id;
                time = w.now tick;
              })
              raw
            ≡ ok block)
        × (equal_fold block.hash request.hash ≡ true)
  unfolding accept_reply
  accept_reply-inv request u tick block h = ground arith

  try_upstreams_valid :
      (request : BlockRequest) (us : List Upstream) (tick : ℕ) (block : Head)
      → (try_upstreams w chain request us tick).0 ≡ ok block
      → (equal_fold block.hash request.hash ≡ true) × (block.number < 2 ^ 64)
  unfolding try_upstreams
  try_upstreams_valid request [] tick block h = absurd (ground arith)
  try_upstreams_valid request (u ∷ us) tick block h =
      elim (Option-cases (accept_reply w chain request u tick)) [
        | inl refused ↦
            try_upstreams_valid request us (tick + 1) block (rw (refused, try_upstreams) at h)
        | inr (found, accepted) ↦
            let (raw, answered, parsed, same) = accept_reply-inv request u tick found accepted in
            let e : found ≡ block = ground arith in
            rw (← e) (same, (parse_evm_head_valid _ raw found parsed).2)
      ]

  -- A block read by hash has that hash and a 64-bit number, whichever upstream served it.
  pub evm_block_by_hash_valid :
      (request : BlockRequest) (tick : ℕ) (block : Head)
      → (evm_block_by_hash w chain request tick).0 ≡ ok block
      → (equal_fold block.hash request.hash ≡ true) × (block.number < 2 ^ 64)
  unfolding evm_block_by_hash
  evm_block_by_hash_valid request tick block h =
      try_upstreams_valid request (preferred_candidates request.preferred (w.upstreams tick)) tick
        block (ground arith)

  abbrev pub runtime_reader : BlockReader
  runtime_reader = record {
    read = evm_block_by_hash w chain;
    read-hash = λ request tick block h. (evm_block_by_hash_valid request tick block h).0;
    read_bounds = λ request tick block h. (evm_block_by_hash_valid request tick block h).1;
  }
