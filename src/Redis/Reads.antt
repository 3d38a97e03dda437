-- ===== src/Redis/Reads.antt =====
-- internal/head/redis.go: `StreamStart`, `StreamCursor` and `ReadEvents`. `rank` is the number as which
-- the server compares an event's ID; a blocked `XREAD` sees the stream as it first stands and as it
-- stands at each wake-up.
use rpc_proxy.Prelude.{
  ℕ, Bool, true, false, Option, none, some, List, [], ◌∷◌, ltb, if◌then◌else◌, Text, codes, text_eq,
  Result, ok, err,
}
use rpc_proxy.Store.Defs.{Event, limit_events, stream_start}

pub data ReadError : Type 0 where
  unavailable stream_gap : ReadError

-- How an `XREAD` ends that no event has ended.
pub data Silence : Type 0 where
  timed_out broken : Silence

-- `XRANGE key cursor cursor COUNT 1`.
unfoldable pub is_retained : Text → List Event → Bool
is_retained cursor [] = false
is_retained cursor (e ∷ events) = if text_eq e.id cursor then true else is_retained cursor events

-- `StreamCursor`.
unfoldable pub stream_cursor : List Event → Text
stream_cursor events = (stream_start events).0

-- The check that the cursor is still in the stream. No stream stands for a check that failed.
unfoldable pub check : Text → Option (List Event) → List Event → Result ReadError (List Event)
check cursor checked found = if text_eq cursor (codes "0-0") then ok found else elim checked [
  | none ↦ err unavailable
  | some stream ↦ if is_retained cursor stream then ok found else err stream_gap
]

module _ (rank : Text → ℕ) where
  -- The events with a greater ID.
  unfoldable pub newer : Text → List Event → List Event
  newer cursor [] = []
  newer cursor (e ∷ events) =
      let rest = newer cursor events in if ltb (rank cursor) (rank e.id) then e ∷ rest else rest

  -- `XREAD`.
  unfoldable pub xread :
      Text → ℕ → List Event → List (List Event) → Silence → Result Silence (List Event)
  xread cursor count events [] silence = elim (newer cursor events) [
    | [] ↦ err silence
    | e ∷ rest ↦ ok (limit_events count (e ∷ rest))
  ]
  xread cursor count events (later ∷ wakes) silence = elim (newer cursor events) [
    | [] ↦ xread cursor count later wakes silence
    | e ∷ rest ↦ ok (limit_events count (e ∷ rest))
  ]

  -- `ReadEvents`, with the stream on which the retention of the cursor is checked after the read.
  unfoldable pub read_events :
      Text
      → ℕ
      → List Event
      → List (List Event)
      → Silence
      → Option (List Event)
      → Result ReadError (List Event)
  unfolding check
  read_events cursor count events wakes silence checked =
      elim (xread cursor count events wakes silence) [
        | err broken ↦ err unavailable
        | err timed_out ↦ check cursor checked []
        | ok found ↦ check cursor checked found
      ]
