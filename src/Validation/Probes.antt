-- ===== src/Validation/Probes.antt =====
-- `validateUpstream` of internal/chain/runtime.go: its calls and its steps.
use rpc_proxy.Prelude.{
  ℕ, Bool, true, false, not, ◌||◌, none, some, List, [], ◌∷◌, ◌==◌, if◌then◌else◌, Text, codes,
  text_eq, equal_fold, is_empty, update, Result, ok, err,
}
use rpc_proxy.Quantity.{parse_evm_quantity}
use rpc_proxy.Head.{Head, finalized, latest}
use rpc_proxy.Chain.Defs.{
  Field, decode_string, Origin, Reply, failed, rpc_error, result, parse_evm_head,
}
use rpc_proxy.Chain.Availability.{SlotReply, slot_failed, slot_error, slot_result}
use rpc_proxy.Gateway.Route.{CallError, is_unavailable_rpc_error}

pub data ValidationError : Type 0 where
  call_failed call_error invalid_response chain_mismatch invalid_header genesis_mismatch
        no_context_slot :
      ValidationError

-- A reply that is decoded as a string.
pub data StringReply : Type 0 where
  string_failed string_error : StringReply
  string_result : Field → StringReply

-- A reply to a probe of a method, with whether its result is empty or null.
pub data ProbeReply : Type 0 where
  probe_failed : ProbeReply
  probe_error : CallError → ProbeReply
  probe_result : (is_empty : Bool) → ProbeReply

-- What an upstream answers to each call of the validation.
pub record Provider : Type 0 where
  pub id : Text
  pub chain_id : StringReply
  pub first_block : Reply
  pub latest_block : Reply
  pub genesis_hash : StringReply
  pub slot : SlotReply
  pub account : ProbeReply
  pub positive : Text → ProbeReply
  pub negative : Text → ProbeReply

-- The marks of a client, and the chain that it must be on.
pub record Marks : Type 0 where
  pub eip1898 : Bool
  pub pinned : Text → Bool

pub record Expected : Type 0 where
  pub chain : Text
  pub chain_id : Text
  pub genesis_hash : Text
  pub now : ℕ

abbrev pub state_methods : List Text
state_methods =
    codes "eth_getBalance"
    ∷ codes "eth_getCode"
    ∷ codes "eth_getTransactionCount"
    ∷ codes "eth_getStorageAt"
    ∷ codes "eth_getProof"
    ∷ codes "eth_call"
    ∷ []

-- The two probes of a method: at the latest block, and at a block that does not exist.
unfoldable pub is_supported : Provider → Text → Bool
is_supported p method = elim (p.positive method) [
  | probe_failed ↦ false
  | probe_error _ ↦ false
  | probe_result true ↦ false
  | probe_result false ↦ elim (p.negative method) [
    | probe_failed ↦ false
    | probe_error e ↦ is_unavailable_rpc_error e
    | probe_result _ ↦ false
  ]
]

-- `SetPinnedMethod` of each.
unfoldable pub set_each : Provider → List Text → (Text → Bool) → Text → Bool
unfolding is_supported
set_each p [] pinned = pinned
set_each p (m ∷ ms) pinned = update (set_each p ms pinned) m (is_supported p m)

unfoldable pub any_pinned : (Text → Bool) → List Text → Bool
any_pinned pinned [] = false
any_pinned pinned (m ∷ ms) = pinned m || any_pinned pinned ms

-- `probeEVMStateMethods`.
unfoldable pub probe_evm_state_methods : Provider → Marks → Marks
unfolding set_each any_pinned
probe_evm_state_methods p marks =
    let pinned = set_each p state_methods marks.pinned in
    record { eip1898 = any_pinned pinned state_methods; pinned = pinned }

unfoldable pub decode_reply : StringReply → Result ValidationError Text
decode_reply string_failed = err call_failed
decode_reply string_error = err call_error
decode_reply (string_result field) = elim (decode_string field) [
  | none ↦ err invalid_response
  | some text ↦ ok text
]

unfoldable pub parse_reply : Expected → Provider → Text → Reply → Result ValidationError Head
parse_reply e p commitment failed = err call_failed
parse_reply e p commitment rpc_error = err call_error
parse_reply e p commitment (result raw) =
    let origin : Origin = record {
      chain = e.chain;
      commitment = commitment;
      upstream = p.id;
      time = e.now;
    } in
    elim (parse_evm_head origin raw) [ err _ ↦ err invalid_header | ok block ↦ ok block ]

-- The chain ID.
unfoldable pub check_chain_id : Expected → Provider → Result ValidationError (Unit {0})
unfolding decode_reply
check_chain_id e p = elim (decode_reply p.chain_id) [
  | err x ↦ err x
  | ok text ↦ elim (parse_evm_quantity text) [
    | err _ ↦ err invalid_response
    | ok actual ↦ elim (parse_evm_quantity e.chain_id) [
      | err _ ↦ err invalid_response
      | ok configured ↦ if actual == configured then ok tt else err chain_mismatch
    ]
  ]
]

-- The hash of the first block, where one is configured.
unfoldable pub check_genesis : Expected → Provider → Result ValidationError (Unit {0})
unfolding parse_reply
check_genesis e p =
    if is_empty e.genesis_hash then ok tt else elim (parse_reply e p finalized p.first_block) [
      | err x ↦ err x
      | ok block ↦ if equal_fold block.hash e.genesis_hash then ok tt else err genesis_mismatch
    ]

-- `validateUpstream` of an EVM chain.
unfoldable pub validate_evm : Expected → Provider → Marks → Result ValidationError Marks
unfolding check_chain_id check_genesis parse_reply probe_evm_state_methods
validate_evm e p marks = elim (check_chain_id e p) [
  | err x ↦ err x
  | ok _ ↦ elim (check_genesis e p) [
    | err x ↦ err x
    | ok _ ↦ elim (parse_reply e p latest p.latest_block) [
      | err x ↦ err x
      | ok _ ↦ ok (probe_evm_state_methods p marks)
    ]
  ]
]

-- `validateUpstream` of a Solana chain.
unfoldable pub validate_solana : Expected → Provider → Result ValidationError (Unit {0})
unfolding decode_reply
validate_solana e p = elim (decode_reply p.genesis_hash) [
  | err x ↦ err x
  | ok hash ↦ if not (text_eq hash e.genesis_hash) then err genesis_mismatch else elim (p.slot) [
    | slot_failed ↦ err call_failed
    | slot_error ↦ err call_error
    | slot_result none ↦ err invalid_response
    | slot_result (some _) ↦ elim (p.account) [
      | probe_failed ↦ err call_failed
      | probe_error _ ↦ err no_context_slot
      | probe_result _ ↦ ok tt
    ]
  ]
]
