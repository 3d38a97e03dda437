-- ===== src/Chain/Availability.antt =====
-- internal/chain/runtime.go: whether an upstream can serve a target, and the cache of the answers. The
-- map of the cache is the list of its entries in the order in which Go visits them, which may be any.
-- Probes that share a flight are one probe, and the checks of a runtime are taken one after the other;
-- a waiter whose own deadline passes is one whose probe fails.
use rpc_proxy.Prelude.{
  ℕ, ◌+◌, ◌*◌, ◌++◌, ◌∷◌, Bool, false, not, ◌&&◌, ◌||◌, Option, none, some, List, [], ◌==◌, ltb,
  leb, if◌then◌else◌, length, Text, codes, text_eq, is_empty, equal_fold, decimal, ok, err,
}
use rpc_proxy.Head.{Head, explicit}
use rpc_proxy.Chain.Defs.{Origin, nothing, failed, rpc_error, result, World, parse_evm_head}

-- `availabilityRecord`, under its key.
pub record Availability : Type 0 where
  pub key : Text
  pub available : Bool
  pub expires : ℕ

-- `getEVMAvailabilityKey`.
unfoldable pub get_evm_availability_key : Text → Head → Text
get_evm_availability_key candidate_id target =
    candidate_id
    ++ codes ":evm:"
    ++ target.hash
    ++ codes ":"
    ++ target.commitment
    ++ codes ":"
    ++ decimal target.number
    ++ codes ":"
    ++ target.parent_hash

-- The key of `HasSolanaSlot`.
unfoldable pub solana_key : Text → Head → Text
solana_key candidate_id target =
    candidate_id ++ codes ":solana:" ++ target.commitment ++ codes ":" ++ decimal target.number

unfoldable pub find_record : Text → List Availability → Option Availability
find_record key [] = none
find_record key (r ∷ records) = if text_eq r.key key then some r else find_record key records

-- `getCachedAvailability`: the answer, if there is one that has not expired.
unfoldable pub get_cached_availability : Text → List Availability → ℕ → Option Bool
unfolding find_record
get_cached_availability key records now = elim (find_record key records) [
  | none ↦ none
  | some r ↦ if ltb now r.expires then some r.available else none
]

-- `delete(r.availability, key)`.
unfoldable pub delete_record : Text → List Availability → List Availability
delete_record key [] = []
delete_record key (r ∷ records) =
    let rest = delete_record key records in if text_eq r.key key then rest else r ∷ rest

unfoldable pub drop_expired : ℕ → List Availability → List Availability
drop_expired now [] = []
drop_expired now (r ∷ records) =
    let rest = drop_expired now records in if ltb r.expires now then rest else r ∷ rest

abbrev pub max_records : ℕ
max_records = 4096

-- The second loop of the eviction: entries go until there is room for one.
unfoldable pub make_room : ℕ → List Availability → List Availability
make_room max [] = []
make_room max (r ∷ records) =
    let rest = make_room max records in if ltb (length (r ∷ records)) max then r ∷ records else rest

unfoldable pub evict : ℕ → List Availability → List Availability
unfolding drop_expired make_room
evict now records =
    if leb max_records (length records)
    then make_room max_records (drop_expired now records)
    else records

-- The time that an answer is kept, in nanoseconds.
unfoldable pub record_ttl : ℕ → Bool → ℕ
record_ttl poll_interval available =
    if not available
    then 75000000
    else if ltb (2 * poll_interval) 250000000
    then 250000000
    else 2 * poll_interval

-- `r.availability[key] = …`.
unfoldable pub put_record : ℕ → Text → Bool → ℕ → List Availability → List Availability
unfolding evict delete_record record_ttl
put_record poll_interval key available now records =
    record { key = key; available = available; expires = now + record_ttl poll_interval available }
    ∷ delete_record key (evict now records)

-- `InvalidateAvailability`.
unfoldable pub invalidate_availability : Text → Head → List Availability → List Availability
unfolding delete_record
invalidate_availability candidate_id target records =
    delete_record (solana_key candidate_id target)
      (delete_record (get_evm_availability_key candidate_id target) records)

-- `probe`, around a check that the caller gives.
unfoldable pub probe :
    (ℕ → ℕ)
    → ℕ
    → Text
    → (ℕ → Option Bool)
    → List Availability
    → ℕ
    → Option Bool × List Availability × ℕ
unfolding get_cached_availability put_record
probe clock poll_interval key check records tick =
    elim (get_cached_availability key records (clock tick)) [
      | some available ↦ (some available, records, tick)
      | none ↦ elim (check tick) [
        | none ↦ (none, records, tick + 1)
        | some available ↦ (
          some available,
          put_record poll_interval key available (clock (tick + 1)) records,
          tick + 1,
        )
      ]
    ]

-- An upstream's reply to `getSlot`: it fails, is an RPC error, or a number, if it decodes to one.
pub data SlotReply : Type 0 where
  slot_failed slot_error : SlotReply
  slot_result : Option ℕ → SlotReply

-- The check of `HasSolanaSlot`.
unfoldable pub check_solana_slot : (ℕ → Text → SlotReply) → Text → Head → ℕ → Option Bool
check_solana_slot get_slot candidate_id target tick = elim (get_slot tick candidate_id) [
  | slot_failed ↦ none
  | slot_error ↦ some false
  | slot_result none ↦ none
  | slot_result (some slot) ↦ some (leb target.number slot)
]

-- `HasSolanaSlot`.
unfoldable pub has_solana_slot :
    (ℕ → ℕ)
    → (ℕ → Text → SlotReply)
    → ℕ
    → Text
    → Head
    → List Availability
    → ℕ
    → Option Bool × List Availability × ℕ
unfolding probe check_solana_slot
has_solana_slot clock get_slot poll_interval candidate_id target =
    probe clock poll_interval (solana_key candidate_id target)
      (check_solana_slot get_slot candidate_id target)

module _ (w : World) (chain : Text) (poll_interval : ℕ) where
  -- The test of a target's header.
  unfoldable pub is_target : Head → Head → Bool
  is_target target block =
      equal_fold block.hash target.hash
      && (text_eq target.commitment explicit
          || (block.number == target.number
              && (is_empty target.parent_hash || equal_fold block.parent_hash target.parent_hash)))

  -- The check of `HasEVMBlock`: `none` is an error.
  unfoldable pub check_evm_block : Text → Head → ℕ → Option Bool
  unfolding is_target
  check_evm_block candidate_id target tick =
      let origin : Origin = record {
        chain = chain;
        commitment = target.commitment;
        upstream = candidate_id;
        time = w.now tick;
      } in
      elim (w.by_hash tick candidate_id target.hash) [
        | failed ↦ none
        | rpc_error ↦ some false
        | result nothing ↦ some false
        | result raw ↦ elim (parse_evm_head origin raw) [
          | err _ ↦ none
          | ok block ↦ some (is_target target block)
        ]
      ]

  -- `HasEVMBlock`.
  unfoldable pub has_evm_block :
      Text → Head → List Availability → ℕ → Option Bool × List Availability × ℕ
  unfolding probe check_evm_block
  has_evm_block candidate_id target records tick =
      if is_empty target.hash
      then (none, records, tick)
      else probe w.now poll_interval (get_evm_availability_key candidate_id target)
          (check_evm_block candidate_id target) records tick
