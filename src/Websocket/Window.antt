-- ===== src/Websocket/Window.antt =====
-- `eventLoop` of internal/gateway/websocket.go: how much a connection keeps.
use rpc_proxy.Prelude.{
  ℕ, ◌+◌, ◌≤◌, ◌++◌, Bool, true, false, Option, none, some, List, [], ◌∷◌, leb, length,
  length-append, if◌then◌else◌, Text, update, arith, inl, inr, Bool-cases, Option-cases,
  Result-cases,
}
use rpc_proxy.Head.{Head}
use rpc_proxy.Store.Defs.{Event}
use rpc_proxy.Chain.Reader.{BlockReader}
use rpc_proxy.Gateway.Registry.{listed}
use rpc_proxy.Websocket.Feed.{
  Feed, Reading, start_feed, is_unusable, expand_path, trim, history_limit, remember, announce,
  announce_all, take_events, read_round, event_loop, max_seen,
}

module _ (reader : BlockReader) (reorg_depth : ℕ) where
  -- The history is bounded by the depth of a reorg, and the hashes of one connection by a number.
  pub record IsBounded (f : Feed) : Type 0 where
    pub window : length f.history_order ≤ history_limit reader reorg_depth
    pub memory : length f.seen ≤ max_seen

  trim-bounds :
      (history : Text → Option Head) (order : List Text)
      → length order ≤ history_limit reader reorg_depth + 1
      → length (trim reader reorg_depth history order).1 ≤ history_limit reader reorg_depth
  unfolding trim
  trim-bounds history [] h = omega arith
  trim-bounds history (oldest ∷ order) h = ground arith

  appended-bounds :
      (known : Bool) (order : List Text) (hash : Text)
      → length order ≤ history_limit reader reorg_depth
      → length (if known then order else order ++ hash ∷ []) ≤ history_limit reader reorg_depth + 1
  appended-bounds true order hash h = omega arith
  appended-bounds false order hash h = omega (arith, length-append order (hash ∷ []))

  announce-IsBounded :
      (h : Head) (f : Feed) → IsBounded f → IsBounded (announce reader reorg_depth h f).1
  unfolding announce remember
  announce-IsBounded h f b = elim (Bool-cases (listed h.hash f.seen)) [
    | inl again ↦ rw again (record { window = b.window; memory = b.memory })
    | inr fresh ↦ elim (Bool-cases (leb max_seen (length f.seen))) [
      | inl full ↦ rw (fresh, full) b
      | inr room ↦
          let known : Bool = elim (f.history h.hash) [ none ↦ false | some _ ↦ true ] in
          rw (fresh, room)
            (record {
              window =
                  trim-bounds (update f.history h.hash (some h))
                    (if known then f.history_order else f.history_order ++ h.hash ∷ [])
                    (appended-bounds known f.history_order h.hash b.window);
              memory = ground arith;
            })
    ]
  ]

  announce_all-IsBounded :
      (path : List Head) (f : Feed)
      → IsBounded f
      → IsBounded (announce_all reader reorg_depth path f).1
  unfolding announce_all
  announce_all-IsBounded [] f b = b
  announce_all-IsBounded (h ∷ path) f b =
      let done = announce reader reorg_depth h f in
      let next = announce-IsBounded h f b in
      elim (Option-cases done.0) [
        | inr (closing, closed) ↦ rw (closed, announce_all) next
        | inl open' ↦ rw (open', announce_all) (announce_all-IsBounded path done.1 next)
      ]

  take_events-IsBounded :
      (events : List Event) (f : Feed) (tick : ℕ)
      → IsBounded f
      → IsBounded (take_events reader reorg_depth events f tick).1
  unfolding take_events
  take_events-IsBounded [] f tick b = b
  take_events-IsBounded (e ∷ events) f tick b =
      let found = expand_path reader reorg_depth f.last e.head f.history tick in
      let moved = record f { cursor = e.id } in
      let b' : IsBounded moved = record { window = b.window; memory = b.memory } in
      elim (Result-cases found.0) [
        | inr (gap, failed) ↦ rw (failed, take_events) b'
        | inl (path, good) ↦
            let told = announce_all reader reorg_depth path moved in
            let bounded = announce_all-IsBounded path moved b' in
            elim (Option-cases told.0) [
              | inr (closing, closed) ↦ rw (good, closed, take_events) bounded
              | inl open' ↦
                  rw (good, open', take_events)
                    (take_events-IsBounded events told.1 found.1 bounded)
            ]
      ]

  read_round-IsBounded :
      (max_head_age : ℕ) (r : Reading) (f : Feed) (tick : ℕ)
      → IsBounded f
      → IsBounded (read_round reader reorg_depth max_head_age r f tick).1
  unfolding read_round
  read_round-IsBounded max_head_age r f tick b = elim (Option-cases r.events) [
    | inl failed ↦ rw (failed, read_round) b
    | inr (events, got) ↦ elim (Bool-cases (is_unusable max_head_age r.now r.snapshot)) [
      | inl stale ↦ rw (got, stale, read_round) b
      | inr fresh ↦ rw (got, fresh, read_round) (take_events-IsBounded events f tick b)
    ]
  ]

  event_loop_bounds :
      (max_head_age : ℕ) (rs : List Reading) (f : Feed) (tick : ℕ)
      → IsBounded f
      → IsBounded (event_loop reader reorg_depth max_head_age rs f tick).1
  unfolding event_loop
  event_loop_bounds max_head_age [] f tick b = b
  event_loop_bounds max_head_age (r ∷ rs) f tick b =
      let done = read_round reader reorg_depth max_head_age r f tick in
      let next = read_round-IsBounded max_head_age r f tick b in
      elim (Option-cases done.0) [
        | inr (closing, closed) ↦ rw (closed, event_loop) next
        | inl open' ↦ rw (open', event_loop) (event_loop_bounds max_head_age rs done.1 done.2 next)
      ]

-- Whatever the stream, the snapshots and the upstreams give, a connection lists at most twice the reorg
-- depth of remembered headers, or 16 if that is more, and at most 65536 hashes of sent heads.
event_loop-IsBounded :
    (reader : BlockReader) (reorg_depth max_head_age : ℕ) (rs : List Reading) (checkpoint : Event)
    (tick : ℕ)
    → IsBounded reader reorg_depth
        (event_loop reader reorg_depth max_head_age rs (start_feed checkpoint) tick).1
unfolding start_feed
event_loop-IsBounded reader reorg_depth max_head_age rs checkpoint tick =
    event_loop_bounds reader reorg_depth max_head_age rs (start_feed checkpoint) tick
      (record { window = ground arith; memory = omega arith })
