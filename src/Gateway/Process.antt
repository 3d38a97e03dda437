-- ===== src/Gateway/Process.antt =====
-- The checks of `process` in internal/gateway/router.go on an EVM chain, up to the point where it
-- routes the request: `Validate` of internal/jsonrpc/jsonrpc.go, the transformation, and the state of
-- the accepted head.
use rpc_proxy.Prelude.{
  ℕ, ◌-◌, Bool, true, false, not, ◌&&◌, ◌||◌, Option, none, some, List, ltb, ◌==◌, if◌then◌else◌,
  Text, codes, text_eq, is_empty, Result, ok, err,
}
use rpc_proxy.Head.{Head, Snapshot, latest, get_head, is_zero, explicit}
use rpc_proxy.Chain.Reader.{BlockReader}
use rpc_proxy.Chain.Blocks.{ChainConfig}
use rpc_proxy.Gateway.Requests.{Param, Prepared}
use rpc_proxy.Gateway.Dispatch.{Refusal, transform_request}

-- A request's `id` as JSON: its bytes, by their kind.
pub data RequestId : Type 0 where
  absent : RequestId
  id_string id_number id_null id_other : Text → RequestId

-- `Request`.
pub record Request : Type 0 where
  pub version : Text
  pub id : RequestId
  pub method : Text
  pub params : Option (List Param)

-- `IsNotification`.
abbrev pub is_notification : RequestId → Bool
is_notification absent = true
is_notification _ = false

-- `validID`.
abbrev pub valid_id : RequestId → Bool
valid_id (id_string _) = true
valid_id (id_number _) = true
valid_id (id_null _) = true
valid_id _ = false

-- `Validate`, true where it finds no error.
unfoldable pub validate : Request → Bool
validate request =
    if not (text_eq request.version (codes "2.0")) || is_empty request.method
    then false
    else if not (is_notification request.id) && not (valid_id request.id)
    then false
    else true

pub data ProcessError : Type 0 where
  invalid_request : ProcessError
  rejected : Refusal → ProcessError
  reorg_pending stale_head : ProcessError

-- What is left to do: answer locally, or route to an upstream.
pub data Admitted : Type 0 where
  local : Prepared → Text → Admitted
  routed : Prepared → Admitted

-- The test of a target's age.
unfoldable pub is_stale : ℕ → ℕ → Head → Bool
is_stale max_head_age now target =
    not (text_eq target.commitment explicit)
    && ltb 0 max_head_age
    && (target.observed_at == 0 || ltb max_head_age (now - target.observed_at))

-- `!exists || accepted.IsZero() || accepted.ReorgPending`.
unfoldable pub is_blocked : Snapshot → Bool
is_blocked snapshot = elim (get_head snapshot latest) [
  | none ↦ true
  | some accepted ↦ is_zero accepted || accepted.reorg_pending
]

-- The last step: a local response is used as it is.
unfoldable pub admit_prepared : Prepared → Admitted
admit_prepared r = elim (r.local_response) [ some response ↦ local r response | none ↦ routed r ]

-- The checks of the prepared request's target.
unfoldable pub check_target : Snapshot → ℕ → ℕ → Prepared → Result ProcessError Admitted
check_target snapshot max_head_age now r = elim (r.target) [
  | none ↦ ok (admit_prepared r)
  | some target ↦
      if is_blocked snapshot
      then err reorg_pending
      else if is_stale max_head_age now target
      then err stale_head
      else ok (admit_prepared r)
]

module _ (reader : BlockReader) (config : ChainConfig) (snapshot : Snapshot) (now : ℕ) where
  -- `process`, up to `getResponse`. `later` is the time of the age test.
  unfoldable pub admit : ℕ → ℕ → Text → Request → ℕ → Result ProcessError Admitted × ℕ
  admit max_head_age later chain_id request tick =
      let read =
        transform_request reader config snapshot now chain_id request.method request.params tick in
      if not (validate request) then (err invalid_request, tick) else elim (read.0) [
        | err e ↦ (err (rejected e), read.1)
        | ok r ↦ (check_target snapshot max_head_age later r, read.1)
      ]
