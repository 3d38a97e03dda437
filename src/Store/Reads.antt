-- ===== src/Store/Reads.antt =====
-- `MemoryStore.ReadEvents` over an ordered stream: a reader resumes exactly where it stopped.
use rpc_proxy.Prelude.{
  ℕ, ◌*◌, ◌^◌, ◌≤◌, ◌<◌, ◌≡◌, ◌≢◌, inl, inr, ap, ◌∙◌, false, some, List, [], ◌∷◌, ◌++◌, arith, ltb,
  Bool-cases, if◌then◌else◌, codes, text_eq, text_eq_refl, text_eq_sound, take, take_all, replicate,
  zero, suc, number_after, number_after-decimal_append, ok,
}
use rpc_proxy.Store.Defs.{Event, event_id, find_cursor, limit_events, read_events, Ending}
use rpc_proxy.Store.Stream.{Rising, Rising-le}

number-event_id : (g : ℕ) → g < 2 ^ 64 → number_after 0 (event_id g) ≡ g * 10 * 10
unfolding event_id
number-event_id g h =
    number_after-decimal_append g (codes "-0") h ∙ unfold number_after in omega arith

event_id-ne :
    (g g' : ℕ) → g < 2 ^ 64 → g' < 2 ^ 64 → g ≢ g' → text_eq (event_id g) (event_id g') ≡ false
event_id-ne g g' h h' ne = elim (Bool-cases (text_eq (event_id g) (event_id g'))) [
  | inl same ↦ absurd (
      omega (
        arith,
        number-event_id g h,
        number-event_id g' h',
        ap (number_after 0) (text_eq_sound (event_id g) (event_id g') same),
      ))
  | inr other ↦ other
]

-- The stream's tail from an event of it.
Rising-suffix :
    (lo hi : ℕ) (before : List Event) (e : Event) (after : List Event)
    → Rising lo (before ++ e ∷ after) hi
    → (lo < e.head.generation) × (e.id ≡ event_id e.head.generation) × (e.head.generation ≤ hi)
Rising-suffix lo hi [] e after (a, b, c) = (a, b, Rising-le e.head.generation after hi c)
Rising-suffix lo hi (f ∷ before) e after (a, b, c) =
    let (x, y, z) = Rising-suffix f.head.generation hi before e after c in (omega arith, y, z)

find_cursor-suffix :
    (lo hi : ℕ) (before : List Event) (e : Event) (after : List Event)
    → hi < 2 ^ 64
    → Rising lo (before ++ e ∷ after) hi
    → find_cursor e.id (before ++ e ∷ after) ≡ some after
unfolding find_cursor
find_cursor-suffix lo hi [] e after b r = ground (arith, text_eq_refl e.id)
find_cursor-suffix lo hi (f ∷ before) e after b (x, y, z) =
    let (above, named, below) = Rising-suffix f.head.generation hi before e after z in
    let apart : text_eq f.id e.id ≡ false =
      rw (y, named)
        (event_id-ne f.head.generation e.head.generation (omega arith) (omega arith)
          (omega arith)) in
    rw apart (find_cursor-suffix f.head.generation hi before e after b z)

limit_events-take :
    (count : ℕ) (events : List Event)
    → limit_events count events ≡ (if ltb 0 count then take count events else events)
limit_events-take count events = ground (arith, take_all events count)

-- The events that a read of at most `count` returns, where 0 is no limit.
abbrev pub first_events : ℕ → List Event → List Event
first_events count events = if ltb 0 count then take count events else events

-- A reader whose cursor is an event of the stream gets the events right after it, in order, none
-- skipped and none repeated; at most `count` of them, if `count` is not 0. The
-- stream is ordered.
read_events_resume :
    (hi count : ℕ) (before : List Event) (e f : Event) (after : List Event)
    (wakes : List (List Event)) (ending : Ending)
    → hi < 2 ^ 64
    → Rising 0 (before ++ e ∷ f ∷ after) hi
    → read_events e.id count (before ++ e ∷ f ∷ after) wakes ending
      ≡ ok (first_events count (f ∷ after))
unfolding read_events
read_events_resume hi count before e f after [] ending b r =
    ground
      (arith, find_cursor-suffix 0 hi before e (f ∷ after) b r, limit_events-take count (f ∷ after))
read_events_resume hi count before e f after (later ∷ wakes) ending b r =
    ground
      (arith, find_cursor-suffix 0 hi before e (f ∷ after) b r, limit_events-take count (f ∷ after))

read_events_wait :
    (hi count : ℕ) (before : List Event) (e : Event) (later : List Event)
    (wakes : List (List Event)) (ending : Ending)
    → hi < 2 ^ 64
    → Rising 0 (before ++ e ∷ []) hi
    → read_events e.id count (before ++ e ∷ []) (later ∷ wakes) ending
      ≡ read_events e.id count later wakes ending
unfolding read_events
read_events_wait hi count before e later wakes ending b r =
    ground (arith, find_cursor-suffix 0 hi before e [] b r)

-- A reader at the end of the stream waits through any number of wake-ups that bring nothing, and
-- then gets the events that follow its cursor, at most `count` of them, if `count` is not 0. The
-- stream is ordered.
pub read_events_wakes :
    (hi count n : ℕ) (before : List Event) (e f : Event) (after : List Event)
    (wakes : List (List Event)) (ending : Ending)
    → hi < 2 ^ 64
    → Rising 0 (before ++ e ∷ []) hi
    → Rising 0 (before ++ e ∷ f ∷ after) hi
    → read_events e.id count
        (before ++ e ∷ [])
        (replicate n (before ++ e ∷ []) ++ (before ++ e ∷ f ∷ after) ∷ wakes)
        ending
      ≡ ok (first_events count (f ∷ after))
read_events_wakes hi count zero before e f after wakes ending b r r' =
    read_events_wait hi count before e (before ++ e ∷ f ∷ after) wakes ending b r
    ∙ read_events_resume hi count before e f after wakes ending b r'
read_events_wakes hi count (suc n) before e f after wakes ending b r r' =
    read_events_wait hi count before e (before ++ e ∷ [])
      (replicate n (before ++ e ∷ []) ++ (before ++ e ∷ f ∷ after) ∷ wakes) ending b r
    ∙ read_events_wakes hi count n before e f after wakes ending b r r'
