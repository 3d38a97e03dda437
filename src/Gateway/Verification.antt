-- ===== src/Gateway/Verification.antt =====
-- `verifyEVMResponse` of internal/gateway/verification.go: what a provider's result must be before it
-- answers a pinned read. A payload is seen as the decoders of the JSON library see it.
use rpc_proxy.Prelude.{
  ℕ, ◌≤◌, ◌≡◌, ◌⊎◌, inl, inr, refl, Bool, true, false, ◌||◌, Option, none, some, List, [], ◌∷◌, All,
  ltb, if◌then◌else◌, Text, codes, text_eq, text_eq_refl, equal_fold, Result, ok, err, Option-cases,
  Result-cases, arith,
}
use rpc_proxy.Quantity.{parse_evm_quantity}
use rpc_proxy.Head.{Head}
use rpc_proxy.Chain.Defs.{Field, decode_string, RawBlock, Origin, parse_evm_head}
use rpc_proxy.Gateway.Registry.{listed}
use rpc_proxy.Gateway.Requests.{Prepared}

pub record Log : Type 0 where
  pub block_hash : Text
  pub block_number : Text
  pub removed : Bool

-- A result: whether it is `null`, and what it decodes to as a block, as a list of logs (none if it is
-- no such list, no list if it is `null`), as a string, and as a transaction, whose block hash is empty
-- if it is absent.
pub record Payload : Type 0 where
  pub is_null : Bool
  pub block : RawBlock
  pub logs : Option (Option (List Log))
  pub string : Field
  pub transaction : Option Text

-- The errors of the source, and `nil_target` for the panic of a missing target.
pub data VerifyError : Type 0 where
  null_state unreadable wrong_block null_logs removed_log outside_range invalid_count nil_target :
      VerifyError

-- `strings.EqualFold(hash, prepared.target.Hash)`.
abbrev pub match_target : Prepared → Text → Result VerifyError (Unit {0})
match_target r hash = elim (r.target) [
  | none ↦ err nil_target
  | some target ↦ if equal_fold hash target.hash then ok tt else err wrong_block
]

unfoldable pub verify_log : Prepared → Log → Result VerifyError (Unit {0})
verify_log r log = if log.removed then err removed_log else elim (r.log_range) [
  | none ↦ match_target r log.block_hash
  | some range ↦ elim (parse_evm_quantity log.block_number) [
    | err _ ↦ err outside_range
    | ok number ↦ if ltb number range.0 || ltb range.1 number then err outside_range else ok tt
  ]
]

unfoldable pub verify_each : Prepared → List Log → Result VerifyError (Unit {0})
verify_each r [] = ok tt
verify_each r (log ∷ logs) =
    let rest = verify_each r logs in elim (verify_log r log) [ err e ↦ err e | ok _ ↦ rest ]

unfoldable pub verify_logs : Prepared → Payload → Result VerifyError (Unit {0})
verify_logs r payload = elim (payload.logs) [
  | none ↦ err unreadable
  | some none ↦ err null_logs
  | some (some logs) ↦ verify_each r logs
]

unfoldable pub verify_block : Origin → Prepared → Payload → Result VerifyError (Unit {0})
verify_block origin r payload = elim (parse_evm_head origin payload.block) [
  | err _ ↦ err unreadable
  | ok block ↦ match_target r block.hash
]

unfoldable pub verify_count : Payload → Result VerifyError (Unit {0})
verify_count payload = elim (decode_string payload.string) [
  | none ↦ err unreadable
  | some count ↦ elim (parse_evm_quantity count) [ err _ ↦ err invalid_count | ok _ ↦ ok tt ]
]

unfoldable pub verify_transaction : Prepared → Payload → Result VerifyError (Unit {0})
verify_transaction r payload =
    if payload.is_null
    then ok tt
    else elim (payload.transaction) [ none ↦ err unreadable | some hash ↦ match_target r hash ]

-- `verifyEVMResponse`.
unfoldable pub verify_evm_response : Origin → Prepared → Payload → Result VerifyError (Unit {0})
verify_evm_response origin r payload =
    if r.require_eip1898
    then if payload.is_null then err null_state else ok tt
    else if text_eq r.method (codes "eth_getBlockByHash")
    then verify_block origin r payload
    else if text_eq r.method (codes "eth_getLogs")
    then verify_logs r payload
    else if listed r.method
        (codes "eth_getBlockTransactionCountByHash" ∷ codes "eth_getUncleCountByBlockHash" ∷ [])
    then verify_count payload
    else if text_eq r.method (codes "eth_getTransactionByBlockHashAndIndex")
    then verify_transaction r payload
    else ok tt

-- A log that answers the request: it is in the requested range, or of the target's block.
abbrev pub Answers : Prepared → Log → Type 0
Answers r log =
    (log.removed ≡ false)
    × (((from : ℕ) × (to : ℕ) × (r.log_range ≡ some (from, to))
          × ((n : ℕ) × (parse_evm_quantity log.block_number ≡ ok n) × (from ≤ n) × (n ≤ to)))
        ⊎ ((target : Head) × (r.target ≡ some target)
            × (equal_fold log.block_hash target.hash ≡ true)))

verify_log-Answers : (r : Prepared) (log : Log) → verify_log r log ≡ ok tt → Answers r log
unfolding verify_log
verify_log-Answers r log h = elim (Option-cases r.log_range) [
  | inl single ↦ elim (Option-cases r.target) [
    | inl missing ↦ absurd (ground arith)
    | inr (target, found) ↦ (ground arith, inr (target, found, ground arith))
  ]
  | inr ((from, to), range) ↦ elim (Result-cases (parse_evm_quantity log.block_number)) [
    | inr (x, bad) ↦ absurd (ground arith)
    | inl (n, parsed) ↦
        (ground arith, inl (from, to, range, (n, parsed, ground arith, ground arith)))
  ]
]

verify_each-All :
    (r : Prepared) (logs : List Log) → verify_each r logs ≡ ok tt → All (Answers r) logs
unfolding verify_each
verify_each-All r [] h = tt
verify_each-All r (log ∷ logs) h = elim (Result-cases (verify_log r log)) [
  | inr (x, bad) ↦ absurd (ground arith)
  | inl (_, good) ↦
      (verify_log-Answers r log good, verify_each-All r logs (rw (verify_each, good) at h))
]

verify_logs-All :
    (r : Prepared) (payload : Payload)
    → verify_logs r payload ≡ ok tt
    → (logs : List Log) × (payload.logs ≡ some (some logs)) × All (Answers r) logs
unfolding verify_logs
verify_logs-All r payload h = elim (Option-cases payload.logs) [
  | inl lost ↦ absurd (ground arith)
  | inr (none, null) ↦ absurd (ground arith)
  | inr (some logs, found) ↦ (logs, found, verify_each-All r logs (rw (verify_logs, found) at h))
]

-- Logs that pass are a list, and each of them is not removed and either in the requested block range
-- or of the target's block.
pub verify_evm_response-logs :
    (origin : Origin) (r : Prepared) (payload : Payload)
    → r.method ≡ codes "eth_getLogs"
    → r.require_eip1898 ≡ false
    → verify_evm_response origin r payload ≡ ok tt
    → (logs : List Log) × (payload.logs ≡ some (some logs)) × All (Answers r) logs
unfolding verify_evm_response verify_logs verify_each verify_log
verify_evm_response-logs origin r payload m e h =
    let other : text_eq r.method (codes "eth_getBlockByHash") ≡ false =
      rw m (unfold text_eq in refl) in
    let same : text_eq r.method (codes "eth_getLogs") ≡ true =
      rw m (text_eq_refl (codes "eth_getLogs")) in
    verify_logs-All r payload (rw (verify_evm_response, e, other, same) at h)

-- A block that passes parses, and has the hash of the target.
verify_evm_response-block :
    (origin : Origin) (r : Prepared) (payload : Payload)
    → r.method ≡ codes "eth_getBlockByHash"
    → r.require_eip1898 ≡ false
    → verify_evm_response origin r payload ≡ ok tt
    → (block : Head) × (parse_evm_head origin payload.block ≡ ok block)
      × (target : Head) × (r.target ≡ some target)
      × (equal_fold block.hash target.hash ≡ true)
unfolding verify_evm_response verify_block
verify_evm_response-block origin r payload m e h =
    let same : text_eq r.method (codes "eth_getBlockByHash") ≡ true =
      rw m (text_eq_refl (codes "eth_getBlockByHash")) in
    let passed : verify_block origin r payload ≡ ok tt = rw (verify_evm_response, e, same) at h in
    elim (Result-cases (parse_evm_head origin payload.block)) [
      | inr (x, bad) ↦ absurd (ground arith)
      | inl (block, parsed) ↦ elim (Option-cases r.target) [
        | inl missing ↦ absurd (ground arith)
        | inr (target, found) ↦ (block, parsed, target, found, ground arith)
      ]
    ]
