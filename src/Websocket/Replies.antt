-- ===== src/Websocket/Replies.antt =====
-- internal/gateway/websocket.go: what `readLoop` answers to each message, and what a session keeps.
use rpc_proxy.Prelude.{
  ℕ, ◌≡◌, ◌≤◌, ◌<◌, ◌⊎◌, ◌++◌, Bool, true, false, ◌&&◌, none, List, [], ◌∷◌, ltb, if◌then◌else◌,
  length, length-append, Text, arith, inl, inr, Bool-cases,
}
use rpc_proxy.Head.{Head}
use rpc_proxy.Chain.Defs.{sort_stable}
use rpc_proxy.Gateway.Registry.{listed}
use rpc_proxy.Gateway.Process.{RequestId, absent, is_notification, validate}
use rpc_proxy.Websocket.Session.{
  Body, reply, notification, WsRequest, Message, unreadable, request, Session, max_subs, text_less,
  notify_each, notify,
}

abbrev pub IsDistinct : List Text → Type 0
IsDistinct [] = Unit {0}
IsDistinct (s ∷ subs) = (listed s subs ≡ false) × IsDistinct subs

module _ (queue_size max_head_age : ℕ) where
  -- A session has at most 128 subscriptions, none twice, and its queue holds what it can.
  pub record IsValid (s : Session) : Type 0 where
    pub distinct : IsDistinct s.subs
    pub limited : length s.subs ≤ max_subs
    pub queued : length s.writes ≤ queue_size

  -- One reply to the request is queued, or the queue is full and the session is cancelled.
  abbrev pub Replied : RequestId → Session → Session → Type 0
  Replied id s t =
      ((body : Body) × (t.writes ≡ s.writes ++ reply id body ∷ []) × (t.cancelled ≡ s.cancelled))
      ⊎ ((queue_size ≤ length s.writes) × (t.writes ≡ s.writes) × (t.cancelled ≡ true))

  record Served (id : RequestId) (s t : Session) : Type 0 where
    replied : Replied id s t
    kept : IsValid s → IsValid t

  -- A message that is to be answered, with the ID of its reply: one that cannot be read or does not
  -- validate, and a request with an ID.
  abbrev pub checked : WsRequest → Bool
  checked r = validate (record { version = r.version; id = r.id; method = r.method; params = none })

  abbrev pub Answers : Message → Session → Session → Type 0
  Answers unreadable s t = Replied absent s t
  Answers (request r) s t =
      if checked r && is_notification r.id
      then (t.writes ≡ s.writes) × (t.cancelled ≡ s.cancelled)
      else Replied r.id s t

  notify_each-IsValid :
      (ids : List Text) (h : Head) (s : Session)
      → IsValid s
      → IsValid (notify_each queue_size max_head_age ids h s)
  unfolding notify_each
  notify_each-IsValid [] h s v = v
  notify_each-IsValid (id ∷ ids) h s v = elim (Bool-cases (ltb (length s.writes) queue_size)) [
    | inl room ↦
        let fits : length s.writes < queue_size = ground arith in
        rw room (
          notify_each-IsValid ids h (record s { writes = s.writes ++ notification id h ∷ [] })
            (record {
              distinct = v.distinct;
              limited = v.limited;
              queued = omega (arith, length-append s.writes (notification id h ∷ []), fits);
            }))
    | inr full ↦ rw full (record { distinct = v.distinct; limited = v.limited; queued = v.queued })
  ]

  -- A header for every subscription keeps a session valid.
  notify-IsValid :
      (h : Head) (s : Session) → IsValid s → IsValid (notify queue_size max_head_age h s)
  unfolding notify
  notify-IsValid h s v = notify_each-IsValid (sort_stable text_less s.subs) h s v
