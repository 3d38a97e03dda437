-- ===== src/Upstream/Calls.antt =====
-- internal/upstream/client.go: what a call's answer says of the reply, and its effect on the circuit.
use rpc_proxy.Prelude.{
  ℕ, ◌+◌, ◌-◌, ◌≤◌, ◌<◌, ◌≡◌, refl, Bool, true, false, not, none, some, Text, codes, text_eq,
  text_eq_iff, Result-cases, inl, inr, u64, decimal, Result, ok, err, arith, if◌then◌else◌,
}
use rpc_proxy.Upstream.Defs.{
  HealthState, healthy, record_success, record_failure, Message, Reply, unsent, replied,
  RpcResponse, CallError, circuit_open, cancelled, bad_parameters, bad_endpoint,
  max_upstream_response_bytes, is_misshapen, check_message, check_reply, Client, Occasion, settle,
  default_parameters, call,
}

-- A reply that a call may answer with: a status of success and a body within the limit, a message of
-- version 2.0 under the request's ID, with a result or an error and not both.
pub record Answers (id : ℕ) (reply : Reply) (response : RpcResponse) : Type 0 where
  pub status : ℕ
  pub size : ℕ
  pub message : Message
  pub came : reply ≡ replied status (some size) (some message)
  pub success : (200 ≤ status) × (status < 300)
  pub small : size ≤ max_upstream_response_bytes
  pub same_id : message.id ≡ decimal id
  pub version : message.version ≡ codes "2.0"
  pub one : is_misshapen message ≡ false
  pub same_result : response.result ≡ message.result
  pub same_error : response.error ≡ message.error

check_message-inv :
    (id : ℕ) (m : Message) (response : RpcResponse)
    → check_message id m ≡ ok response
    → (text_eq m.version (codes "2.0") ≡ true)
      × (text_eq m.id (decimal id) ≡ true)
      × (is_misshapen m ≡ false)
      × (response.result ≡ m.result)
      × (response.error ≡ m.error)
unfolding check_message
check_message-inv id m response h = ground arith

check_reply-inv :
    (id status size : ℕ) (m : Message) (response : RpcResponse)
    → check_reply id (replied status (some size) (some m)) ≡ ok response
    → ((200 ≤ status) × (status < 300))
      × (size ≤ max_upstream_response_bytes)
      × (check_message id m ≡ ok response)
unfolding check_reply
check_reply-inv id status size m response h = ground arith

check_reply-Answers :
    (id : ℕ) (reply : Reply) (response : RpcResponse)
    → check_reply id reply ≡ ok response
    → Answers id reply response
check_reply-Answers id unsent response h = absurd (unfold check_reply in ground arith)
check_reply-Answers id (replied status none message) response h =
    absurd (unfold check_reply in ground arith)
check_reply-Answers id (replied status (some size) none) response h =
    absurd (unfold check_reply in ground arith)
check_reply-Answers id (replied status (some size) (some m)) response h =
    let (success, small, checked) = check_reply-inv id status size m response h in
    let (version, same, one, result, error) = check_message-inv id m response checked in
    record {
      status = status;
      size = size;
      message = m;
      came = refl;
      success = success;
      small = small;
      same_id = (text_eq_iff m.id (decimal id)).0 same;
      version = (text_eq_iff m.version (codes "2.0")).0 version;
      one = one;
      same_result = result;
      same_error = error;
    }

-- The errors of a call that ends before its request is sent.
is_early : CallError → Bool
is_early circuit_open = true
is_early cancelled = true
is_early bad_parameters = true
is_early bad_endpoint = true
is_early _ = false

-- The circuit that a call's answer stands for: one success, one failure, or no change.
pub accounted : Occasion → HealthState → Result CallError RpcResponse → HealthState
accounted o h (ok response) = record_success (o.ended - o.started) h
accounted o h (err e) = if is_early e then h else record_failure o.ended h

check_reply-late :
    (id : ℕ) (reply : Reply) (e : CallError) → check_reply id reply ≡ err e → is_early e ≡ false
unfolding check_reply check_message is_early
check_reply-late id unsent e h = ground arith
check_reply-late id (replied status none message) e h = ground arith
check_reply-late id (replied status (some size) none) e h = ground arith
check_reply-late id (replied status (some size) (some m)) e h = ground arith

settle-accounted :
    (o : Occasion) (c : Client) (id : ℕ) (reply : Reply)
    → (settle o c (check_reply id reply)).1.health
      ≡ accounted o c.health (settle o c (check_reply id reply)).0
unfolding settle accounted
settle-accounted o c id reply = elim (Result-cases (check_reply id reply)) [
  | inl (response, e) ↦ rw e refl
  | inr (error, e) ↦ rw (e, check_reply-late id reply error e) refl
]

early-accounted :
    (o : Occasion) (h : HealthState) (stop : Bool) (e : CallError)
    → is_early e ≡ true
    → (c : Client) → c.health ≡ h
    → (rest : Result CallError RpcResponse × Client) → rest.1.health ≡ accounted o h rest.0
    → (if stop then (err e, c) else rest).1.health
      ≡ accounted o h (if stop then (err e, c) else rest).0
unfolding accounted
early-accounted o h true e early c same rest r = rw early same
early-accounted o h false e early c same rest r = r

settle-inv :
    (o : Occasion) (c : Client) (r : Result CallError RpcResponse) (response : RpcResponse)
    → (settle o c r).0 ≡ ok response
    → r ≡ ok response
unfolding settle
settle-inv o c (ok answer) response h = h
settle-inv o c (err e) response h = absurd (ground arith)

module _ (is_json : Text → Bool) (server : ℕ → Text → Text → Reply) where
  -- Every call that is sent counts as one success or one failure of the circuit, by its answer, and a
  -- call that ends before it is sent leaves the circuit as it was.
  pub call-accounted :
      (o : Occasion) (method parameters : Text) (c : Client)
      → (call is_json server o method parameters c).1.health
        ≡ accounted o c.health (call is_json server o method parameters c).0
  unfolding call accounted is_early
  call-accounted o method parameters c =
      let id = u64 (c.request_id + 1) in
      let drawn = record c { request_id = id } in
      let reply = server id method (default_parameters parameters) in
      early-accounted o c.health (not (healthy c.health o.now)) circuit_open refl c refl _ (
        early-accounted o c.health (not o.admitted) cancelled refl c refl _ (
          early-accounted o c.health (not (is_json (default_parameters parameters))) bad_parameters
            refl drawn refl _
            (early-accounted o c.health (not o.valid_endpoint) bad_endpoint refl drawn refl _
              (settle-accounted o drawn id reply))))

  call-inv :
      (o : Occasion) (method parameters : Text) (c : Client) (response : RpcResponse)
      → (call is_json server o method parameters c).0 ≡ ok response
      → (healthy c.health o.now ≡ true)
        × ((settle o
              (record c { request_id = u64 (c.request_id + 1) })
              (check_reply
                (u64 (c.request_id + 1))
                (server (u64 (c.request_id + 1)) method (default_parameters parameters)))).0
            ≡ ok response)
  unfolding call
  call-inv o method parameters c response h = ground arith

  -- A call answers only through a closed circuit, with what the server replied, under a status of
  -- success, to the ID and the parameters of this request.
  pub call-Answers :
      (o : Occasion) (method parameters : Text) (c : Client) (response : RpcResponse)
      → (call is_json server o method parameters c).0 ≡ ok response
      → (healthy c.health o.now ≡ true)
        × Answers
            (u64 (c.request_id + 1))
            (server (u64 (c.request_id + 1)) method (default_parameters parameters))
            response
  call-Answers o method parameters c response h =
      let (closed, settled) = call-inv o method parameters c response h in
      (
        closed,
        check_reply-Answers (u64 (c.request_id + 1))
            (server (u64 (c.request_id + 1)) method (default_parameters parameters)) response
            (settle-inv o (record c { request_id = u64 (c.request_id + 1) }) _ response settled),
      )
