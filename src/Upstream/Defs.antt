-- ===== src/Upstream/Defs.antt =====
-- internal/upstream/client.go: the circuit of a client and `Call`. The success rate, a float, and
-- the redacted text of the last error are only reported, and are not carried. Times are
-- nanoseconds, and 0 is the zero time; durations are small enough that the running latency stays in
-- an int64. What the upstream answers is the parameter `server`.
use rpc_proxy.Prelude.{
  ℕ, ◌+◌, ◌-◌, ◌*◌, ◌/◌, Bool, not, ◌||◌, Option, none, some, ltb, leb, ◌==◌, if◌then◌else◌, Text,
  codes, text_eq, is_empty, u64, decimal, Result, ok, err,
}

-- `healthState`.
pub record HealthState : Type 0 where
  pub latency_ewma : ℕ
  pub failures : ℕ
  pub open_until : ℕ

abbrev pub initial_health : HealthState
initial_health = record { latency_ewma = 0; failures = 0; open_until = 0 }

-- `10 * time.Second`.
abbrev pub open_time : ℕ
open_time = 10000000000

-- `Healthy`.
unfoldable pub healthy : HealthState → ℕ → Bool
healthy h now = ltb h.open_until now

-- `recordSuccess`.
unfoldable pub record_success : ℕ → HealthState → HealthState
record_success duration h = record {
  latency_ewma = if h.latency_ewma == 0 then duration else (h.latency_ewma * 8 + duration * 2) / 10;
  failures = 0;
  open_until = 0;
}

-- `recordFailure`.
unfoldable pub record_failure : ℕ → HealthState → HealthState
record_failure now h =
    if leb 5 (h.failures + 1)
    then record h { failures = 0; open_until = now + open_time }
    else record h { failures = h.failures + 1 }

-- `jsonrpc.Error`, its code as it is written.
pub record RpcError : Type 0 where
  pub code : Text
  pub message : Text

-- `jsonrpc.Response`; an absent result is empty.
pub record Message : Type 0 where
  pub version : Text
  pub id : Text
  pub result : Text
  pub error : Option RpcError

-- What comes of a sent request: no response, or a status and a body, which may fail to be read, and
-- may not decode.
pub data Reply : Type 0 where
  unsent : Reply
  replied : (status : ℕ) → (size : Option ℕ) → (message : Option Message) → Reply

-- `RPCResponse`.
pub record RpcResponse : Type 0 where
  pub result : Text
  pub error : Option RpcError

pub data CallError : Type 0 where
  circuit_open cancelled bad_parameters bad_endpoint : CallError
  send_failed http_status read_failed too_large bad_json bad_version bad_id bad_shape : CallError

-- `maxUpstreamResponseBytes`.
abbrev pub max_upstream_response_bytes : ℕ
max_upstream_response_bytes = 67108864

-- `(len(Result) > 0) == (Error != nil) || Error != nil && Error.Message == ""`.
unfoldable pub is_misshapen : Message → Bool
is_misshapen m = elim (m.error) [
  | none ↦ is_empty m.result
  | some e ↦ not (is_empty m.result) || is_empty e.message
]

-- The checks of the decoded message.
unfoldable pub check_message : ℕ → Message → Result CallError RpcResponse
check_message id m =
    if not (text_eq m.version (codes "2.0"))
    then err bad_version
    else if not (text_eq m.id (decimal id))
    then err bad_id
    else if is_misshapen m
    then err bad_shape
    else ok (record { result = m.result; error = m.error })

-- The checks of what comes back, in their order.
unfoldable pub check_reply : ℕ → Reply → Result CallError RpcResponse
check_reply id unsent = err send_failed
check_reply id (replied status size message) =
    if ltb status 200 || leb 300 status then err http_status else elim size [
      | none ↦ err read_failed
      | some bytes ↦
          if ltb max_upstream_response_bytes bytes
          then err too_large
          else elim message [ none ↦ err bad_json | some m ↦ check_message id m ]
    ]

-- `Client`, the state that its calls change.
pub record Client : Type 0 where
  pub request_id : ℕ
  pub health : HealthState

-- What a call meets: the time of the health check, whether it gets a place before its context ends,
-- whether the URL is valid, and the times at which the request is sent and its outcome recorded.
pub record Occasion : Type 0 where
  pub now : ℕ
  pub admitted : Bool
  pub valid_endpoint : Bool
  pub started : ℕ
  pub ended : ℕ

-- The outcome of a request that has been sent, and its effect on the circuit.
unfoldable pub settle :
    Occasion → Client → Result CallError RpcResponse → Result CallError RpcResponse × Client
settle o c (ok response) =
    (ok response, record c { health = record_success (o.ended - o.started) c.health })
settle o c (err e) = (err e, record c { health = record_failure o.ended c.health })

-- `Params`, with its default.
unfoldable pub default_parameters : Text → Text
default_parameters parameters = if is_empty parameters then codes "[]" else parameters

module _ (is_json : Text → Bool) (server : ℕ → Text → Text → Reply) where
  -- `Call`.
  unfoldable pub call : Occasion → Text → Text → Client → Result CallError RpcResponse × Client
  call o method parameters c =
      let sent = default_parameters parameters in
      let id = u64 (c.request_id + 1) in
      let drawn = record c { request_id = id } in
      if not (healthy c.health o.now)
      then (err circuit_open, c)
      else if not o.admitted
      then (err cancelled, c)
      else if not (is_json sent)
      then (err bad_parameters, drawn)
      else if not o.valid_endpoint
      then (err bad_endpoint, drawn)
      else settle o drawn (check_reply id (server id method sent))
