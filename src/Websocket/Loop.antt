-- ===== src/Websocket/Loop.antt =====
-- `eventLoop` of internal/gateway/websocket.go over a whole connection.
use rpc_proxy.Prelude.{
  ℕ, ◌≡◌, true, false, Option, none, some, List, [], ◌∷◌, All, Text, text_eq, text_eq_iff,
  text_eq_refl, equal_fold_refl, update, arith, inl, inr, refl, sym, some_inj, Bool-cases,
  Option-cases,
}
use rpc_proxy.Head.{Head, is_zero}
use rpc_proxy.Store.Defs.{Event}
use rpc_proxy.Chain.Reader.{BlockReader}
use rpc_proxy.Gateway.Registry.{listed}
use rpc_proxy.Websocket.Feed.{Feed, Reading, start_feed, is_unusable, read_round, event_loop}
use rpc_proxy.Websocket.Gapless.{Gapless, Kept, IsReal, take_events-Kept}

-- The events of a reading.
abbrev pub AreReal : (reader : BlockReader) → ℕ → Head → Reading → Type 0
AreReal reader reorg_depth root r = elim (r.events) as (λ _. Type 0) [
  | none ↦ Unit {0}
  | some events ↦ All (IsReal reader reorg_depth root) events
]

module _ (reader : BlockReader) (reorg_depth max_head_age : ℕ) (root : Head) where
  read_round-Kept :
      (r : Reading) (f : Feed) (tick : ℕ)
      → AreReal reader reorg_depth root r
      → Kept reader reorg_depth root f
      → is_zero f.last ≡ false
      → Kept reader reorg_depth root (read_round reader reorg_depth max_head_age r f tick).1
        × (((read_round reader reorg_depth max_head_age r f tick).0 ≡ none)
            → is_zero (read_round reader reorg_depth max_head_age r f tick).1.last ≡ false)
  unfolding read_round
  read_round-Kept r f tick real k l = elim (Option-cases r.events) [
    | inl failed ↦ rw (failed, read_round) (k, λ _. l)
    | inr (events, got) ↦ elim (Bool-cases (is_unusable max_head_age r.now r.snapshot)) [
      | inl stale ↦ rw (got, stale, read_round) (k, λ _. l)
      | inr fresh ↦
          rw (got, fresh, read_round)
            (take_events-Kept reader reorg_depth root events f tick (rw got at real) k l)
    ]
  ]

  event_loop-Kept :
      (rs : List Reading) (f : Feed) (tick : ℕ)
      → All (AreReal reader reorg_depth root) rs
      → Kept reader reorg_depth root f
      → is_zero f.last ≡ false
      → Kept reader reorg_depth root (event_loop reader reorg_depth max_head_age rs f tick).1
  unfolding event_loop
  event_loop-Kept [] f tick real k l = k
  event_loop-Kept (r ∷ rs) f tick (real, reals) k l =
      let done = read_round reader reorg_depth max_head_age r f tick in
      let (kept, goes) = read_round-Kept r f tick real k l in
      elim (Option-cases done.0) [
        | inr (closing, closed) ↦ rw (closed, event_loop) kept
        | inl open' ↦
            rw (open', event_loop) (event_loop-Kept rs done.1 done.2 reals kept (goes open'))
      ]

root-Recalled :
    (root : Head) (k : Text) (a : Head)
    → update {A = Option Head} (λ hash. none) root.hash (some root) k ≡ some a
    → (a.hash ≡ k) × (listed a.hash (root.hash ∷ []) ≡ true)
unfolding listed
root-Recalled root k a put = elim (Bool-cases (text_eq k root.hash)) [
  | inl same ↦
      let is : root ≡ a = some_inj root a (rw same at put) in
      let named : k ≡ root.hash = (text_eq_iff k root.hash).0 same in
      rw (← is) (sym named, ground (arith, text_eq_refl root.hash))
  | inr apart ↦ absurd (ground arith)
]

-- A connection starts from its checkpoint.
start_feed-Kept :
    (reader : BlockReader) (reorg_depth : ℕ) (checkpoint : Event)
    → is_zero checkpoint.head ≡ false
    → Kept reader reorg_depth checkpoint.head (start_feed checkpoint)
unfolding start_feed listed
start_feed-Kept reader reorg_depth checkpoint real =
    let root = checkpoint.head in
    record {
      gapless = tt;
      marked = refl;
      recalled = λ k a put. root-Recalled root k a (rw (real, start_feed) at put);
      led = ground (arith, text_eq_refl root.hash);
      anchored = inr (equal_fold_refl root.parent_hash);
    }

-- What a connection has told its subscribers, from whichever reader of blocks the gaps are filled,
-- until it is closed or still goes on: the parent of each head is the checkpoint from which the
-- connection started, a head told before it, or the checkpoint's own parent, and no head is told twice.
-- Neither the checkpoint nor a head of the stream is the zero value.
pub event_loop-Gapless :
    (reader : BlockReader) (reorg_depth max_head_age : ℕ) (rs : List Reading) (checkpoint : Event)
    (tick : ℕ)
    → is_zero checkpoint.head ≡ false
    → All (AreReal reader reorg_depth checkpoint.head) rs
    → Gapless checkpoint.head
        (event_loop reader reorg_depth max_head_age rs (start_feed checkpoint) tick).1.sent
unfolding start_feed
event_loop-Gapless reader reorg_depth max_head_age rs checkpoint tick real reals =
    (event_loop-Kept reader reorg_depth max_head_age checkpoint.head rs (start_feed checkpoint) tick
      reals (start_feed-Kept reader reorg_depth checkpoint real) real).gapless
