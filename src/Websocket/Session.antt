-- ===== src/Websocket/Session.antt =====
-- internal/gateway/websocket.go: `wsSession`, the requests that a client sends over a connection and
-- the queue of what is written to it. JSON is seen as the decoders see it.
use rpc_proxy.Prelude.{
  ℕ, ◌-◌, ◌++◌, Bool, true, false, not, ◌&&◌, ◌||◌, Option, none, some, List, [], ◌∷◌, ltb, leb,
  ◌==◌, if◌then◌else◌, length, Text, codes, text_eq,
}
use rpc_proxy.Head.{Head, is_zero}
use rpc_proxy.Store.Defs.{Event}
use rpc_proxy.Chain.Defs.{Field, decode_string, sort_stable}
use rpc_proxy.Gateway.Registry.{listed}
use rpc_proxy.Gateway.Process.{RequestId, absent, is_notification, validate}

-- The kinds of JSON-RPC errors of the replies.
pub data ReplyError : Type 0 where
  parse_error invalid_request invalid_params unsupported_consistency consistency_unavailable
        internal_error :
      ReplyError

pub data Body : Type 0 where
  subscribed : (id : Text) → Body
  unsubscribed : Bool → Body
  refused : ReplyError → Body

-- What is written: the reply to a request, or a header for a subscription.
pub data Outgoing : Type 0 where
  reply : RequestId → Body → Outgoing
  notification : (id : Text) → Head → Outgoing

-- A request, with the parameters as strings if they are an array.
pub record WsRequest : Type 0 where
  pub version : Text
  pub id : RequestId
  pub method : Text
  pub params : Option (List Field)

pub data Message : Type 0 where
  unreadable : Message
  request : WsRequest → Message

pub record Session : Type 0 where
  pub subs : List Text
  pub pump : Option Event
  pub writes : List Outgoing
  pub cancelled : Bool

-- What a subscription reads: the start of the stream with the accepted head, if both can be read, the
-- clock, and a random ID.
pub record Fresh : Type 0 where
  pub start : Option (Event × Option Head)
  pub now : ℕ
  pub id : Option Text

abbrev pub max_subs : ℕ
max_subs = 128

-- `delete(s.subs, id)`.
unfoldable pub remove_sub : Text → List Text → List Text
remove_sub id [] = []
remove_sub id (s ∷ subs) = let rest = remove_sub id subs in if text_eq id s then rest else s ∷ rest

-- The order of `sort.Strings`.
unfoldable pub text_less : Text → Text → Bool
text_less s [] = false
text_less [] (d ∷ t) = true
text_less (c ∷ s) (d ∷ t) = let rest = text_less s t in ltb c d || (c == d && rest)

-- The only parameter, if it is a string.
unfoldable pub one_string : List Field → Option Text
one_string [] = none
one_string (p ∷ []) = decode_string p
one_string (p ∷ _ ∷ _) = none

-- `json.Unmarshal` of the parameters of `eth_unsubscribe` in a notification.
unfoldable pub drop_silently : WsRequest → Session → Session
unfolding one_string remove_sub
drop_silently r s =
    if not (text_eq r.method (codes "eth_unsubscribe")) then s else elim (r.params) [
      | none ↦ s
      | some ps ↦ elim (one_string ps) [
        | none ↦ s
        | some id ↦ record s { subs = remove_sub id s.subs }
      ]
    ]

-- The test of the accepted head at a subscription. Go's zero value stands for a missing one.
unfoldable pub is_unready : ℕ → ℕ → Option Head → Bool
is_unready max_head_age now none = ltb 0 max_head_age
is_unready max_head_age now (some accepted) =
    accepted.reorg_pending
    || (ltb 0 max_head_age && (is_zero accepted || ltb max_head_age (now - accepted.observed_at)))

module _ (queue_size max_head_age : ℕ) where
  -- `enqueue`, and the cancellation where the queue is full.
  unfoldable pub enqueue : Outgoing → Session → Session
  enqueue o s =
      if ltb (length s.writes) queue_size
      then record s { writes = s.writes ++ o ∷ [] }
      else record s { cancelled = true }

  abbrev pub refuse : RequestId → ReplyError → Session → Session
  refuse id e = enqueue (reply id (refused e))

  -- The end of `subscribe`: the ID, the limit, and the start of the event loop.
  unfoldable pub add_sub : RequestId → Option Text → Event → Session → Session
  unfolding enqueue
  add_sub id none checkpoint s = refuse id internal_error s
  add_sub id (some sub) checkpoint s =
      let subs = if listed sub s.subs then s.subs else sub ∷ s.subs in
      let pump : Option Event = elim (s.pump) [
        | none ↦ some checkpoint
        | some started ↦ some started
      ] in
      if leb max_subs (length s.subs)
      then refuse id invalid_request s
      else enqueue (reply id (subscribed sub)) (record s { subs = subs; pump = pump })

  -- The first subscription of a connection.
  unfoldable pub start_pump : RequestId → Fresh → Session → Session
  unfolding add_sub is_unready
  start_pump id fresh s = elim (fresh.start) [
    | none ↦ refuse id consistency_unavailable s
    | some (checkpoint, accepted) ↦
        if is_unready max_head_age fresh.now accepted
        then refuse id consistency_unavailable s
        else add_sub id fresh.id checkpoint s
  ]

  -- `subscribe` to newHeads.
  unfoldable pub start_sub : RequestId → Fresh → Session → Session
  unfolding start_pump add_sub
  start_sub id fresh s = elim (s.pump) [
    | some started ↦ add_sub id fresh.id started s
    | none ↦ start_pump id fresh s
  ]

  -- `subscribe`.
  unfoldable pub subscribe : RequestId → Option (List Field) → Fresh → Session → Session
  unfolding one_string start_sub
  subscribe id none fresh s = refuse id invalid_params s
  subscribe id (some ps) fresh s = elim (one_string ps) [
    | none ↦ refuse id invalid_params s
    | some kind ↦
        if text_eq kind (codes "newHeads")
        then start_sub id fresh s
        else refuse id unsupported_consistency s
  ]

  -- `unsubscribe`.
  unfoldable pub unsubscribe : RequestId → Option (List Field) → Session → Session
  unfolding one_string remove_sub enqueue
  unsubscribe id none s = refuse id invalid_params s
  unsubscribe id (some ps) s = elim (one_string ps) [
    | none ↦ refuse id invalid_params s
    | some sub ↦
        enqueue (reply id (unsubscribed (listed sub s.subs)))
          (record s { subs = remove_sub sub s.subs })
  ]

  -- A request that validates and is no notification.
  unfoldable pub dispatch : WsRequest → Fresh → Session → Session
  unfolding subscribe unsubscribe
  dispatch r fresh s =
      if text_eq r.method (codes "eth_subscribe")
      then subscribe r.id r.params fresh s
      else if text_eq r.method (codes "eth_unsubscribe")
      then unsubscribe r.id r.params s
      else refuse r.id unsupported_consistency s

  -- One round of `readLoop`.
  unfoldable pub handle : Message → Fresh → Session → Session
  unfolding dispatch drop_silently
  handle unreadable fresh s = refuse absent parse_error s
  handle (request r) fresh s =
      let checked =
        validate (record { version = r.version; id = r.id; method = r.method; params = none }) in
      if not checked
      then refuse r.id invalid_request s
      else if is_notification r.id
      then drop_silently r s
      else dispatch r fresh s

  -- `notify`, for the subscriptions in order, until the queue is full.
  unfoldable pub notify_each : List Text → Head → Session → Session
  notify_each [] h s = s
  notify_each (id ∷ ids) h s =
      let rest = notify_each ids h (record s { writes = s.writes ++ notification id h ∷ [] }) in
      if ltb (length s.writes) queue_size then rest else record s { cancelled = true }

  unfoldable pub notify : Head → Session → Session
  unfolding notify_each
  notify h s = notify_each (sort_stable text_less s.subs) h s

-- One round of `writeLoop`; a failed write ends the session.
unfoldable pub write_next : (written : Bool) → Session → Session
write_next written s = elim (s.writes) [
  | [] ↦ s
  | _ ∷ rest ↦ record s { writes = rest; cancelled = s.cancelled || not written }
]
