-- ===== src/Websocket/Feed.antt =====
-- internal/gateway/websocket.go: `eventLoop`, which turns the stream of accepted heads into the
-- notifications of one connection. `sent` are the heads given to `notify`, the newest first; a loop
-- that has closed the connection keeps the variables that it had before the head at fault.
use rpc_proxy.Prelude.{
  ℕ, zero, suc, ◌-◌, ◌*◌, ◌++◌, Bool, true, false, ◌&&◌, ◌||◌, Option, none, some, List, [], ◌∷◌,
  ltb, leb, ◌==◌, if◌then◌else◌, length, max, Text, text_eq, equal_fold, update, Result, ok, err,
}
use rpc_proxy.Head.{Head, latest, is_zero}
use rpc_proxy.Store.Defs.{Event}
use rpc_proxy.Chain.Defs.{BlockRequest}
use rpc_proxy.Chain.Reader.{BlockReader}
use rpc_proxy.Gateway.Registry.{listed}

pub data PathError : Type 0 where
  invalid_header_height invalid_ancestor_height block_unavailable invalid_parent_height
        no_common_ancestor :
      PathError

-- `fetchBlock`'s request for the parent of a head.
abbrev pub fetch_request : Head → BlockRequest
fetch_request cursor = record {
  hash = cursor.parent_hash;
  commitment = latest;
  preferred = cursor.origin;
}

-- One height above.
abbrev pub follows : Head → Head → Bool
follows child parent = ltb parent.number child.number && child.number - parent.number == 1

-- Why the connection is closed.
pub data Closing : Type 0 where
  read_failed stale_head history_gap window_exhausted : Closing

-- The variables of `eventLoop`.
pub record Feed : Type 0 where
  pub cursor : Text
  pub last : Head
  pub seen : List Text
  pub history : Text → Option Head
  pub history_order : List Text
  pub sent : List Head

-- The variables before the loop.
unfoldable pub start_feed : Event → Feed
start_feed checkpoint =
    let empty : Text → Option Head = λ hash. none in
    let root = checkpoint.head in
    record {
      cursor = checkpoint.id;
      last = root;
      seen = [];
      history = if is_zero root then empty else update empty root.hash (some root);
      history_order = if is_zero root then [] else root.hash ∷ [];
      sent = [];
    }

abbrev pub max_seen : ℕ
max_seen = 65536

module _ (reader : BlockReader) (reorg_depth : ℕ) where
  -- The loop of `expandPath`. The path is kept in the order in which it is returned.
  unfoldable pub backfill :
      ℕ → Head → (Text → Option Head) → Head → List Head → ℕ → Result PathError (List Head) × ℕ
  backfill zero last history cursor path tick = (err no_common_ancestor, tick)
  backfill (suc left) last history cursor path tick =
      let reply = reader.read (fetch_request cursor) tick in
      let further = λ (parent : Head). backfill left last history parent (parent ∷ path) reply.1 in
      if equal_fold cursor.parent_hash last.hash
      then (if follows cursor last then ok path else err invalid_header_height, tick)
      else elim (history cursor.parent_hash) [
        | some ancestor ↦
            (if follows cursor ancestor then ok path else err invalid_ancestor_height, tick)
        | none ↦ elim (reply.0) [
          | err _ ↦ (err block_unavailable, reply.1)
          | ok parent ↦
              if follows cursor parent then further parent else (err invalid_parent_height, reply.1)
        ]
      ]

  -- `expandPath`.
  unfoldable pub expand_path :
      Head → Head → (Text → Option Head) → ℕ → Result PathError (List Head) × ℕ
  unfolding backfill
  expand_path last next history tick =
      if is_zero last
      then (ok (next ∷ []), tick)
      else if text_eq next.hash last.hash
      then (ok [], tick)
      else if next.number == last.number && equal_fold next.parent_hash last.parent_hash
      then (ok (next ∷ []), tick)
      else if follows next last && equal_fold next.parent_hash last.hash
      then (ok (next ∷ []), tick)
      else backfill reorg_depth last history next (next ∷ []) tick

  abbrev pub history_limit : ℕ
  history_limit = max 16 (reorg_depth * 2)

  -- The history after a head, which loses its oldest entry when it is over its limit.
  unfoldable pub trim : (Text → Option Head) → List Text → (Text → Option Head) × List Text
  trim history [] = (history, [])
  trim history (oldest ∷ order) =
      if ltb history_limit (length (oldest ∷ order))
      then (update history oldest none, order)
      else (history, oldest ∷ order)

  unfoldable pub remember : Head → Feed → Feed
  unfolding trim
  remember h f =
      let known : Bool = elim (f.history h.hash) [ none ↦ false | some _ ↦ true ] in
      let order = if known then f.history_order else f.history_order ++ h.hash ∷ [] in
      let kept = trim (update f.history h.hash (some h)) order in
      record f { history = kept.0; history_order = kept.1 }

  -- One head of a path.
  unfoldable pub announce : Head → Feed → Option Closing × Feed
  unfolding remember
  announce h f =
      if listed h.hash f.seen
      then (none, record f { last = h })
      else if leb max_seen (length f.seen)
      then (some window_exhausted, f)
      else (none, remember h (record f { last = h; seen = h.hash ∷ f.seen; sent = h ∷ f.sent }))

  unfoldable pub announce_all : List Head → Feed → Option Closing × Feed
  unfolding announce
  announce_all [] f = (none, f)
  announce_all (h ∷ path) f =
      let done = announce h f in
      let rest = announce_all path done.1 in
      elim (done.0) [ some closing ↦ (some closing, done.1) | none ↦ rest ]

  -- The events of one read.
  unfoldable pub take_events : List Event → Feed → ℕ → Option Closing × Feed × ℕ
  unfolding expand_path announce_all
  take_events [] f tick = (none, f, tick)
  take_events (e ∷ events) f tick =
      let found = expand_path f.last e.head f.history tick in
      let moved = record f { cursor = e.id } in
      let announced = λ (path : List Head). announce_all path moved in
      let further = λ (g : Feed). take_events events g found.1 in
      elim (found.0) [
        | err _ ↦ (some history_gap, moved, found.1)
        | ok path ↦ elim ((announced path).0) [
          | some closing ↦ (some closing, (announced path).1, found.1)
          | none ↦ further (announced path).1
        ]
      ]

-- What a round of the loop reads: the events, the snapshot's `latest` head, and the clock.
pub record Reading : Type 0 where
  pub events : Option (List Event)
  pub snapshot : Option (Option Head)
  pub now : ℕ

-- The test of the accepted head. Go's zero value stands for a missing one.
unfoldable pub is_unusable : ℕ → ℕ → Option (Option Head) → Bool
is_unusable max_head_age now none = true
is_unusable max_head_age now (some none) = ltb 0 max_head_age
is_unusable max_head_age now (some (some accepted)) =
    accepted.reorg_pending || (ltb 0 max_head_age && ltb max_head_age (now - accepted.observed_at))

module _ (reader : BlockReader) (reorg_depth max_head_age : ℕ) where
  unfoldable pub read_round : Reading → Feed → ℕ → Option Closing × Feed × ℕ
  unfolding is_unusable take_events
  read_round r f tick = elim (r.events) [
    | none ↦ (some read_failed, f, tick)
    | some events ↦
        if is_unusable max_head_age r.now r.snapshot
        then (some stale_head, f, tick)
        else take_events reader reorg_depth events f tick
  ]

  -- `eventLoop`, for the rounds before the connection ends.
  unfoldable pub event_loop : List Reading → Feed → ℕ → Option Closing × Feed × ℕ
  unfolding read_round
  event_loop [] f tick = (none, f, tick)
  event_loop (r ∷ rs) f tick =
      let done = read_round r f tick in
      let rest = event_loop rs done.1 done.2 in
      elim (done.0) [ some closing ↦ (some closing, done.1, done.2) | none ↦ rest ]
