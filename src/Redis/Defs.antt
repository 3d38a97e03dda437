-- ===== src/Redis/Defs.antt =====
-- internal/head/redis.go: `RedisStore`, its scripts and the methods around them. The JSON of a head is
-- the head that it encodes; only a header's own JSON may come out of a script's decoder and encoder
-- changed, as `recode` changes it. The scripts' numbers are exact as far as theirs are. A key with a
-- time to live is gone at some moment, by the step `expire`; `id` is the ID that the server gives to an
-- appended event. Every script runs alone.
use rpc_proxy.Prelude.{
  ℕ, ◌+◌, ◌-◌, ◌++◌, Bool, true, false, not, ◌&&◌, ◌||◌, Option, none, some, List, [], ◌∷◌, ◌==◌,
  if◌then◌else◌, length, drop, Text, text_eq, is_empty, update, Result, ok, err,
}
use rpc_proxy.Head.{Head, Snapshot, latest, evm}
use rpc_proxy.Store.Defs.{
  StoreError, leadership_lost, reorg_fence, Event, fence_token, is_evm_latest, epoch_of,
  stamp_changed,
}

-- The keys of `key` by chain: `leader`, `fence`, `heads`, `generation` and `events`.
pub record RedisState : Type 0 where
  pub leader : Text → Option Text
  pub fence : Text → ℕ
  pub heads : Text → Text → Option Head
  pub generation : Text → ℕ
  pub events : Text → List Event

abbrev pub empty_state : RedisState
empty_state = record {
  leader = λ chain. none;
  fence = λ chain. 0;
  heads = λ chain commitment. none;
  generation = λ chain. 0;
  events = λ chain. [];
}

-- The end of a leader's time to live.
unfoldable pub expire : RedisState → Text → RedisState
expire s chain = record s { leader = update s.leader chain none }

-- `acquireScriptSource`.
unfoldable pub acquire_script : RedisState → Text → Text → Option Text × RedisState
acquire_script s chain owner =
    let fence = s.fence chain + 1 in
    let token = fence_token owner fence in
    elim (s.leader chain) [
      | some _ ↦ (none, s)
      | none ↦ (
        some token,
        record s {
          fence = update s.fence chain fence;
          leader = update s.leader chain (some token);
        },
      )
    ]

-- `redis.call('GET', KEYS[1]) == ARGV[1]`.
unfoldable pub is_leader : RedisState → Text → Text → Bool
is_leader s chain token = elim (s.leader chain) [ none ↦ false | some t ↦ text_eq t token ]

-- `renewScriptSource`, whose new time to live is no part of the state.
unfoldable pub renew_script : RedisState → Text → Text → Bool × RedisState
renew_script s chain token = (is_leader s chain token, s)

-- `releaseScriptSource`.
unfoldable pub release_script : RedisState → Text → Text → RedisState
release_script s chain token = if is_leader s chain token then expire s chain else s

-- The comparison of the incoming head with the current one.
unfoldable pub same_head : Head → Head → Bool
same_head current incoming =
    if not (is_empty incoming.hash)
    then text_eq current.hash incoming.hash
    else current.number == incoming.number

-- `XADD … MAXLEN n`: the last `n` events are kept.
unfoldable pub append_event : ℕ → List Event → Event → List Event
append_event stream_max events e = let all = events ++ e ∷ [] in drop (length all - stream_max) all

module _ (recode : Text → Text) (stream_max : ℕ) where
  -- `cjson.encode(cjson.decode(raw))`.
  abbrev pub recoded : Head → Head
  recoded h = record h { header = recode h.header }

  -- `HSET`.
  abbrev pub set_head : RedisState → Text → Head → RedisState
  set_head s chain h = record s {
    heads = update s.heads chain (update (s.heads chain) h.commitment (some h));
  }

  -- A head that is stored already keeps its generation and the time of its last change.
  unfoldable pub refresh : RedisState → Head → Head → Head × RedisState
  refresh s current incoming =
      let refreshed =
        recoded
          (record incoming { generation = current.generation; changed_at = current.changed_at }) in
      (refreshed, set_head s incoming.chain refreshed)

  unfoldable pub install : RedisState → Head → Text → Head × RedisState
  install s incoming id =
      let chain = incoming.chain in
      let generation = s.generation chain + 1 in
      let installed = recoded (record incoming { generation = generation }) in
      let event : Event = record { id = id; head = installed } in
      let events =
        if is_evm_latest incoming
        then update s.events chain (append_event stream_max (s.events chain) event)
        else s.events in
      (
        installed,
        record (set_head s chain installed) {
          generation = update s.generation chain generation;
          events = events;
        },
      )

  -- The head that is stored: a refreshed one, or one of a new generation.
  unfoldable pub store : RedisState → Option Head → Head → Text → Head × RedisState
  unfolding refresh install
  store s none incoming id = install s incoming id
  store s (some current) incoming id =
      if same_head current incoming then refresh s current incoming else install s incoming id

  -- `publishScriptSource`.
  unfoldable pub publish_script :
      RedisState → Text → Head → Text → Result StoreError Head × RedisState
  publish_script s token incoming id =
      let current = s.heads incoming.chain incoming.commitment in
      let stored = store s current incoming id in
      if not (is_leader s incoming.chain token)
      then (err leadership_lost, s)
      else if is_evm_latest incoming
          && (incoming.reorg_pending || not (incoming.reorg_epoch == epoch_of current))
      then (err reorg_fence, s)
      else (ok stored.0, stored.1)

  -- `Publish`, where its script runs.
  unfoldable pub publish : RedisState → Text → Head → Text → Result StoreError Head × RedisState
  publish s token accepted_head id = publish_script s token (stamp_changed accepted_head) id

  -- `beginReorgScriptSource`.
  unfoldable pub fence_current :
      RedisState → Text → Option Head → Result StoreError Head × RedisState
  fence_current s chain none = (err reorg_fence, s)
  fence_current s chain (some current) =
      let fenced =
        recoded (record current { reorg_epoch = current.reorg_epoch + 1; reorg_pending = true }) in
      if not (text_eq current.family evm)
      then (err reorg_fence, s)
      else if current.reorg_pending
      then (ok current, s)
      else (
        ok fenced,
        record s { heads = update s.heads chain (update (s.heads chain) latest (some fenced)) },
      )

  unfoldable pub begin_reorg_script : RedisState → Text → Text → Result StoreError Head × RedisState
  unfolding fence_current
  begin_reorg_script s chain token =
      if not (is_leader s chain token)
      then (err leadership_lost, s)
      else fence_current s chain (s.heads chain latest)

-- `Snapshot`: `HGETALL` of the heads.
unfoldable pub snapshot : RedisState → Text → Snapshot
snapshot s chain = record { chain = chain; heads = s.heads chain }
