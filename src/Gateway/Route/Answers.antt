-- ===== src/Gateway/Route/Answers.antt =====
-- `route` of internal/gateway/router.go: what an upstream answers, and what an answer is worth.
use rpc_proxy.Prelude.{
  ℕ, ◌+◌, Bool, true, false, not, ◌&&◌, ◌||◌, Option, none, some, List, [], ◌∷◌, map, ltb,
  if◌then◌else◌, Text, codes, text_eq, lower, equal_fold, is_empty, ok, err,
}
use rpc_proxy.Quantity.{parse_evm_quantity, is_evm_hash}
use rpc_proxy.Chain.Defs.{World}
use rpc_proxy.Chain.Availability.{Availability, invalidate_availability}
use rpc_proxy.Gateway.Registry.{starts_with}
use rpc_proxy.Gateway.Requests.{Prepared}
use rpc_proxy.Gateway.Verification.{Payload}

-- The codes of JSON-RPC errors that routing tells apart: -32601, -32001, and the others.
pub data ErrorCode : Type 0 where
  method_not_found server_unavailable other_code : ErrorCode

-- `jsonrpc.Error`, with `Message + " " + fmt.Sprint(Data)`.
pub record CallError : Type 0 where
  pub code : ErrorCode
  pub text : Text

-- The members of a receipt that are read, empty where they are absent.
pub record Receipt : Type 0 where
  pub transaction_hash : Text
  pub block_hash : Text
  pub block_number : Text

-- A result as the decoders see it, with its bytes.
pub record Answer : Type 0 where
  pub payload : Payload
  pub receipt : Option Receipt
  pub bytes : Text

pub data CallReply : Type 0 where
  call_failed : CallReply
  call_error : CallError → CallReply
  call_result : Answer → CallReply

-- `strings.Contains`.
unfoldable pub contains : Text → Text → Bool
unfolding starts_with
contains [] part = is_empty part
contains (c ∷ text) part = starts_with (c ∷ text) part || contains text part

-- `IsUnavailableRPCError`.
unfoldable pub is_unavailable_rpc_error : CallError → Bool
unfolding contains
is_unavailable_rpc_error e =
    let message = map lower e.text in
    elim (e.code) [
      | method_not_found ↦ false
      | server_unavailable ↦ true
      | other_code ↦
          contains message (codes "not found")
          || contains message (codes "unknown block")
          || contains message (codes "minimum context slot")
          || contains message (codes "not canonical")
    ]

-- `getEVMReceiptBlock`: the number and the hash of the receipt's block.
unfoldable pub get_evm_receipt_block : Option Receipt → Text → Option (ℕ × Text)
get_evm_receipt_block none transaction_hash = none
get_evm_receipt_block (some receipt) transaction_hash =
    if not (is_evm_hash receipt.transaction_hash)
      || not (equal_fold receipt.transaction_hash transaction_hash)
      || not (is_evm_hash receipt.block_hash)
    then none
    else elim (parse_evm_quantity receipt.block_number) [
      | err _ ↦ none
      | ok number ↦ some (number, receipt.block_hash)
    ]

-- The environment of one call of `route`: the chain's name and poll interval, whether a client has
-- passed the hash-pinning probes of the method, and what it answers to the prepared read.
pub record RouteEnv : Type 0 where
  pub world : World
  pub chain : Text
  pub poll_interval : ℕ
  pub pinned : ℕ → Text → Bool
  pub call : ℕ → Text → CallReply

-- What `route` keeps over its rounds, the marks that it leaves on the clients, by their ID and the
-- method, and the availability cache.
pub record RouteState : Type 0 where
  pub attempted : List Text
  pub unsupported : List (Text × Text)
  pub records : List Availability
  pub tick : ℕ

-- The counters of one round.
pub record Round : Type 0 where
  pub eligible : ℕ
  pub null_receipts : ℕ
  pub null_receipt_upstream : Text

abbrev pub new_round : Round
new_round = record { eligible = 0; null_receipts = 0; null_receipt_upstream = [] }

pub data RouteOutcome : Type 0 where
  answered : (bytes : Text) → (upstream : Text) → RouteOutcome
  null_receipt : (upstream : Text) → RouteOutcome
  refused : CallError → (upstream : Text) → RouteOutcome
  unavailable : RouteOutcome

-- What becomes of a candidate: the next one is tried, or the read ends.
pub data Turn : Type 0 where
  next : RouteState → Round → Turn
  finish : RouteOutcome → RouteState → Turn

-- `!candidate.SupportsMethod(method)`.
unfoldable pub is_unsupported : List (Text × Text) → Text → Text → Bool
is_unsupported [] id method = false
is_unsupported ((i, m) ∷ marks) id method =
    (text_eq i id && text_eq m method) || is_unsupported marks id method

-- `runtime.InvalidateAvailability`, where there is a target.
unfoldable pub invalidate : Prepared → Text → RouteState → RouteState
invalidate r id st = elim (r.target) [
  | none ↦ st
  | some target ↦ record st { records = invalidate_availability id target st.records }
]

abbrev pub count_null : Round → Text → Round
count_null p id = record p { null_receipts = p.null_receipts + 1; null_receipt_upstream = id }

-- What a receipt is worth to the request.
pub data ReceiptVerdict : Type 0 where
  visible null_or_future invalid : ReceiptVerdict

-- The checks of a receipt against the accepted head. A receipt's request has a target.
unfoldable pub judge_receipt : Prepared → Answer → ReceiptVerdict
unfolding get_evm_receipt_block
judge_receipt r answer =
    if is_empty r.receipt_hash
    then visible
    else if answer.payload.is_null
    then null_or_future
    else elim (get_evm_receipt_block answer.receipt r.receipt_hash) [
      | none ↦ invalid
      | some (number, hash) ↦ elim (r.target) [
        | none ↦ invalid
        | some target ↦ if ltb target.number number then null_or_future else visible
      ]
    ]
