-- ===== src/Store/Defs.antt =====
-- internal/head/types.go: `MemoryStore`. The channel `notify` only wakes blocked readers; the
-- wake-ups are the list of later streams that `read_events` is given. Where a method reads the clock
-- twice it takes two times.
use rpc_proxy.Prelude.{
  ℕ, ◌+◌, ◌++◌, ◌∷◌, Bool, true, false, not, ◌&&◌, ◌||◌, Option, none, some, List, [], ltb, ◌==◌,
  if◌then◌else◌, length, take, Text, codes, text_eq, is_empty, u64, decimal, update, Result, ok,
  err,
}
use rpc_proxy.Head.{Head, Snapshot, latest, evm, identity, is_zero}

pub data StoreError : Type 0 where
  leadership_lost stream_gap reorg_fence cancelled : StoreError

-- `memoryLeader`.
pub record Leader : Type 0 where
  pub token : Text
  pub expires : ℕ

abbrev pub no_leader : Leader
no_leader = record { token = []; expires = 0 }

-- `Event`.
pub record Event : Type 0 where
  pub id : Text
  pub head : Head

pub record MemoryStore : Type 0 where
  pub heads : Text → Text → Option Head
  pub leaders : Text → Leader
  pub events : Text → List Event
  pub gen : Text → ℕ  -- uint64

-- `NewMemoryStore`.
abbrev pub new_store : MemoryStore
new_store = record {
  heads = λ chain commitment. none;
  leaders = λ chain. no_leader;
  events = λ chain. [];
  gen = λ chain. 0;
}

-- The fencing token of an owner.
unfoldable pub fence_token : Text → ℕ → Text
fence_token owner fence = owner ++ b':' ∷ decimal fence

-- `Acquire`: the new store, the token, and whether leadership was acquired.
unfoldable pub acquire : MemoryStore → Text → Text → ℕ → ℕ → ℕ → MemoryStore × Text × Bool
acquire s chain owner ttl now now' =
    let current = s.leaders chain in
    let fence = u64 (s.gen chain + 1) in
    let token = fence_token owner fence in
    if not (is_empty current.token) && ltb now current.expires then (s, [], false) else (
      record s {
        gen = update s.gen chain fence;
        leaders = update s.leaders chain (record { token = token; expires = now' + ttl });
      },
      token,
      true,
    )

-- `Renew`.
unfoldable pub renew : MemoryStore → Text → Text → ℕ → ℕ → ℕ → MemoryStore × Bool
renew s chain token ttl now now' =
    let current = s.leaders chain in
    if not (text_eq current.token token) || ltb current.expires now then (s, false) else (
      record s { leaders = update s.leaders chain (record current { expires = now' + ttl }) },
      true,
    )

-- `Release`.
unfoldable pub release : MemoryStore → Text → Text → MemoryStore
release s chain token =
    if text_eq (s.leaders chain).token token
    then record s { leaders = update s.leaders chain no_leader }
    else s

-- An EVM head of commitment `latest`: the heads that are fenced and streamed.
abbrev pub is_evm_latest : Head → Bool
is_evm_latest h = text_eq h.family evm && text_eq h.commitment latest

-- `m.heads[h.Chain][h.Commitment] = h`.
abbrev pub store_head : MemoryStore → Head → MemoryStore
store_head s h = record s {
  heads = update s.heads h.chain (update (s.heads h.chain) h.commitment (some h));
}

-- `previous.ReorgEpoch`, of the zero value if there is no previous head.
abbrev pub epoch_of : Option Head → ℕ
epoch_of none = 0
epoch_of (some h) = h.reorg_epoch

-- `exists && previous.Identity() == h.Identity()`.
unfoldable pub same_identity : Option Head → Head → Bool
same_identity none h = false
same_identity (some previous) h = text_eq (identity previous) (identity h)

abbrev pub stamp_changed : Head → Head
stamp_changed h = record h {
  changed_at = if h.changed_at == 0 then h.observed_at else h.changed_at;
}

-- `fmt.Sprintf("%d-0", generation)`.
unfoldable pub event_id : ℕ → Text
event_id generation = decimal generation ++ codes "-0"

-- A head with a new generation, appended to the stream if it is an EVM `latest` head.
unfoldable pub install : MemoryStore → Head → Head × MemoryStore
install s h =
    let generation = u64 (s.gen h.chain + 1) in
    let installed = record (stamp_changed h) { generation = generation } in
    let event : Event = record { id = event_id generation; head = installed } in
    let events =
      if is_evm_latest h
      then update s.events h.chain (s.events h.chain ++ event ∷ [])
      else s.events in
    (
      installed,
      store_head (record s { gen = update s.gen h.chain generation; events = events }) installed,
    )

-- A head of an unchanged identity keeps its generation and the time of its last change.
unfoldable pub refresh : MemoryStore → Option Head → Head → Head × MemoryStore
refresh s none h = (h, store_head s h)
refresh s (some previous) h =
    let refreshed = record h {
      generation = previous.generation;
      changed_at = previous.changed_at;
    } in
    (refreshed, store_head s refreshed)

-- `Publish`.
unfoldable pub publish : MemoryStore → Text → Head → ℕ → Result StoreError Head × MemoryStore
publish s token h now =
    let leader = s.leaders h.chain in
    let previous = s.heads h.chain h.commitment in
    if not (text_eq leader.token token) || ltb leader.expires now
    then (err leadership_lost, s)
    else if is_evm_latest h && (h.reorg_pending || not (h.reorg_epoch == epoch_of previous))
    then (err reorg_fence, s)
    else let (published, s') =
        if same_identity previous h then refresh s previous h else install s h in
      (ok published, s')

-- `BeginReorg`, on the current `latest` head.
unfoldable pub fence_head : MemoryStore → Text → Option Head → Result StoreError Head × MemoryStore
fence_head s chain none = (err reorg_fence, s)
fence_head s chain (some current) =
    let fenced = record current {
      reorg_epoch = u64 (current.reorg_epoch + 1);
      reorg_pending = true;
    } in
    if not (text_eq current.family evm) || is_zero current
    then (err reorg_fence, s)
    else if current.reorg_pending
    then (ok current, s)
    else (
      ok fenced,
      record s { heads = update s.heads chain (update (s.heads chain) latest (some fenced)) },
    )

unfoldable pub begin_reorg : MemoryStore → Text → Text → ℕ → Result StoreError Head × MemoryStore
unfolding fence_head
begin_reorg s chain token now =
    let leader = s.leaders chain in
    if not (text_eq leader.token token) || not (ltb now leader.expires)
    then (err leadership_lost, s)
    else fence_head s chain (s.heads chain latest)

-- `Set`, the unfenced installation of tests and embedded setups.
unfoldable pub set_head : MemoryStore → Head → Head × MemoryStore
unfolding install
set_head s h = install s h

-- `Snapshot`.
unfoldable pub snapshot : MemoryStore → Text → Snapshot
snapshot s chain = record { chain = chain; heads = s.heads chain }

-- `StreamStart`: the last event, whose head is absent in an empty stream.
unfoldable pub stream_start : List Event → Text × Option Head
stream_start [] = (codes "0-0", none)
stream_start (e ∷ []) = (e.id, some e.head)
stream_start (e ∷ f ∷ events) = stream_start (f ∷ events)

-- `StreamCursor`.
unfoldable pub stream_cursor : List Event → Text
unfolding stream_start
stream_cursor events = (stream_start events).0

-- The scan of `ReadEvents`: what follows the first event with the cursor's ID. A cursor `0-0` that
-- no event has stands before the stream.
unfoldable pub find_cursor : Text → List Event → Option (List Event)
find_cursor cursor [] = none
find_cursor cursor (e ∷ events) =
    if text_eq e.id cursor then some events else find_cursor cursor events

unfoldable pub events_after : Text → List Event → Option (List Event)
unfolding find_cursor
events_after cursor events = elim (find_cursor cursor events) [
  | some rest ↦ some rest
  | none ↦ if text_eq cursor (codes "0-0") then some events else none
]

-- `events[start:end]`, where `count` is 0 for no limit.
abbrev pub limit_events : ℕ → List Event → List Event
limit_events count events =
    if ltb 0 count && ltb count (length events) then take count events else events

-- How the wait of a blocked reader ends when no publication wakes it any more.
pub data Ending : Type 0 where
  timed_out cancelled : Ending

-- `ReadEvents`, over the chain's stream as it first stands and as it stands at each wake-up.
unfoldable pub read_events :
    Text → ℕ → List Event → List (List Event) → Ending → Result StoreError (List Event)
unfolding events_after
read_events cursor count events [] ending = elim (events_after cursor events) [
  | none ↦ err stream_gap
  | some [] ↦ elim ending [ Ending.timed_out ↦ ok [] | Ending.cancelled ↦ err StoreError.cancelled ]
  | some (e ∷ rest) ↦ ok (limit_events count (e ∷ rest))
]
read_events cursor count events (later ∷ wakes) ending = elim (events_after cursor events) [
  | none ↦ err stream_gap
  | some [] ↦ read_events cursor count later wakes ending
  | some (e ∷ rest) ↦ ok (limit_events count (e ∷ rest))
]
